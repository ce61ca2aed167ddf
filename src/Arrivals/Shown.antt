-- ===== src/Arrivals/Shown.antt =====
-- Each batch of `trace_batches` in scripts/qwen/q4_read_arrivals.py, where its round returns.
use zerocool.Prelude.{
  ℕ, suc, ◌≡◌, refl, sym, ap, ◌∙◌, true, ◌&&◌, List, [], ◌∷◌, map, ◌==◌, nat_eq, leb, arith, length,
  ok, ok_injective, bind_inverse, require, require-true,
}
use mathlib.Core.Path.{subst}
use zerocool.Json.{Value, int, list, as_items, at, get_key, is_list, elements, number}
use zerocool.Json.Numbers.{check-true, both_hold, ◌&?◌, check, has}
use zerocool.Arrivals.Events.{
  Event, covers, read_event, is_forward, was_ready, check_event, on_events,
}
use zerocool.Arrivals.Commands.{submissions_of, commands_at, experts_of}
use zerocool.Arrivals.Shared.{Times}
use zerocool.Arrivals.Batches.{
  Capture, Batch, hit_indices, batch_records, check_bounds, check_sums, check_waits, join, lifetime,
  last_release, on_batch, on_batches,
}
use zerocool.Arrivals.Groups.{submissions_of-experts_of}

-- the events of a batch, in order: behind the release before them, and as the hits and misses are
abbrev pub AreForward : ℕ → List Event → Type 0
AreForward previous [] = Unit
AreForward previous (e ∷ events) =
    (is_forward previous e ≡ true) × (was_ready e ≡ true) × AreForward previous events

on_events-AreForward :
    (records : List (ℕ × ℕ)) (hits : List ℕ) (previous : ℕ) (rs : List Value) {es : List Event}
    → on_events records hits previous rs ≡ ok es
    → AreForward previous es × (length es ≡ length rs)
unfolding on_events check_event
on_events-AreForward records hits previous [] {es} h =
    let nothing : [] ≡ es = ok_injective h in
    (subst (AreForward previous) nothing tt, ap length (sym nothing))
on_events-AreForward records hits previous (r ∷ rs) {es} h =
    let (e, e1, h1) = bind_inverse (read_event records hits r) _ h in
    let (u2, e2, h2) = bind_inverse (check_event previous e) _ h1 in
    let (rest, e3, h3) = bind_inverse (on_events records hits previous rs) _ h2 in
    let (u4, e4, h4) =
      bind_inverse
        (require (is_forward previous e) "Reversed read, encoding, GPU or ownership timestamps") _
        e2 in
    let (forward, counted) = on_events-AreForward records hits previous rs e3 in
    let kept : e ∷ rest ≡ es = ok_injective h3 in
    (
      subst (AreForward previous) kept (require-true _ _ e4, require-true _ _ h4, forward),
      ap length (sym kept) ∙ ap suc counted,
    )

-- What a batch has shown where its round returns.
pub record Shown (previous : ℕ) (b : Batch) : Type 0 where
  pub forward : AreForward previous b.events
  pub eight : length b.events ≡ 8
  pub once : experts_of b.commands ≡ 8
  pub release : b.released ≡ last_release b.events

batch_records-eight :
    (c : Capture) (detail : Value) {rows : List Value}
    → batch_records c detail ≡ ok rows
    → length rows ≡ 8
unfolding batch_records
batch_records-eight c detail h =
    let (events, e1, h1) = bind_inverse (get_key "records" detail) _ h in
    let (u2, e2, h2) =
      bind_inverse
        (check
          (ok (is_list events && length (elements events) == 8)
            &? covers c.records (elements events))
          "Incomplete selected-expert capture")
        _ h1 in
    let (counted, covered) =
      both_hold (ok (is_list events && length (elements events) == 8))
        (covers c.records (elements events)) (check-true _ _ e2) in
    ap length (sym (ok_injective h2)) ∙ ground (arith, ok_injective counted)

on_batch-Shown :
    (times : Times) (c : Capture) (previous cycle batch : ℕ) (v : Value) {b : Batch}
    → on_batch times c previous cycle batch v ≡ ok b
    → Shown previous b
unfolding on_batch
on_batch-Shown times c previous cycle batch v {b} h =
    let hits = hit_indices c.hits batch in
    let (u1, e1, h1) =
      bind_inverse
        (check (has "hit_indices" (list (as_items (map int hits))) v)
          "Changed rotating hit preparation")
        _ h in
    let (detail, e2, h2) = bind_inverse (at "timing" v) _ h1 in
    let (rows, e3, h3) = bind_inverse (batch_records c detail) _ h2 in
    let (u4, e4, h4) = bind_inverse (check_bounds c detail) _ h3 in
    let (events, e5, h5) = bind_inverse (on_events c.records hits previous rows) _ h4 in
    let (u6, e6, h6) = bind_inverse (check_sums detail events) _ h5 in
    let (commands, e7, h7) =
      bind_inverse (commands_at c.group cycle batch events (submissions_of events)) _ h6 in
    let (joined, e8, h8) = bind_inverse (join times c cycle batch v events commands) _ h7 in
    let (u9, e9, h9) = bind_inverse (check_waits detail commands) _ h8 in
    let (gpu, e10, h10) = bind_inverse (at "gpu_execution_sum_ns" detail) _ h9 in
    let (wait, e11, h11) = bind_inverse (at "coordinator_wait_ns" detail) _ h10 in
    let (duration, e12, h12) = bind_inverse (at "duration_ns" detail) _ h11 in
    let (u13, e13, h13) =
      bind_inverse
        (require (leb (lifetime events) (number duration))
          "Expert lifetimes exceed their captured batch duration")
        _ h12 in
    let (forward, counted) = on_events-AreForward c.records hits previous rows e5 in
    let eight = counted ∙ batch_records-eight c detail e3 in
    let once = submissions_of-experts_of c.group cycle batch events e7 ∙ eight in
    subst (Shown previous) (ok_injective h13)
      (record { forward = forward; eight = eight; once = once; release = refl })

-- Each batch has shown its part, behind the last release of the one before it.
abbrev pub AreShown : ℕ → List Batch → Type 0
AreShown previous [] = Unit
AreShown previous (b ∷ batches) = Shown previous b × AreShown b.released batches

pub on_batches-AreShown :
    (times : Times) (c : Capture) (previous : ℕ) (ps : List (ℕ × ℕ)) (vs : List Value)
    {bs : List Batch}
    → on_batches times c previous ps vs ≡ ok bs
    → AreShown previous bs
unfolding on_batches
on_batches-AreShown times c previous [] vs h = subst (AreShown previous) (ok_injective h) tt
on_batches-AreShown times c previous (place ∷ ps) [] h =
    subst (AreShown previous) (ok_injective h) tt
on_batches-AreShown times c previous ((cycle, batch) ∷ ps) (v ∷ vs) h =
    let (b, e1, h1) = bind_inverse (on_batch times c previous cycle batch v) _ h in
    let (rest, e2, h2) = bind_inverse (on_batches times c b.released ps vs) _ h1 in
    subst (AreShown previous) (ok_injective h2) (
      on_batch-Shown times c previous cycle batch v e1,
      on_batches-AreShown times c b.released ps vs e2,
    )
