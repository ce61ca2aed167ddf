-- ===== src/Arrivals/Covered.antt =====
-- What `trace_batches` of scripts/qwen/q4_read_arrivals.py has shown of the commands and the events
-- where it answers.
use zerocool.Prelude.{
  ℕ, zero, suc, ◌+◌, ◌*◌, ◌≤◌, ◌≡◌, refl, sym, ap, ◌∙◌, Bool, true, ◌&&◌, List, [], ◌∷◌, ◌++◌,
  nat_eq, leb, arith, length, Result, ok, ◌>>=◌, ok_injective, bind_inverse, all, sum_of,
}
use zerocool.Json.{Value, int, at, get_key, is_list, elements, same}
use zerocool.Json.Numbers.{check-true, both_hold, ◌&?◌, check}
use zerocool.Arrivals.Events.{Event, is_forward}
use zerocool.Arrivals.Commands.{Command, experts_of}
use zerocool.Arrivals.Shared.{Times}
use zerocool.Arrivals.Batches.{
  Capture, Batch, last_release, on_batch, on_batches, places, range_from, keys_of, are_places,
  all_commands, conclude, Captured, trace_batches, is_at,
}
use zerocool.Arrivals.Shown.{AreForward, AreShown, on_batches-AreShown}

length-on_batches :
    (times : Times) (c : Capture) (previous : ℕ) (ps : List (ℕ × ℕ)) (vs : List Value)
    {bs : List Batch}
    → on_batches times c previous ps vs ≡ ok bs
    → length vs ≡ length ps
    → length bs ≡ length ps
unfolding on_batches
length-on_batches times c previous [] vs h same = ap length (sym (ok_injective h))
length-on_batches times c previous (place ∷ ps) [] h same = cc
length-on_batches times c previous ((cycle, batch) ∷ ps) (v ∷ vs) h same =
    let (b, e1, h1) = bind_inverse (on_batch times c previous cycle batch v) _ h in
    let (rest, e2, h2) = bind_inverse (on_batches times c b.released ps vs) _ h1 in
    ap length (sym (ok_injective h2))
    ∙ ap suc (length-on_batches times c b.released ps vs e2 (omega (arith, same)))

length-keys_of :
    (vs : List Value) {ks : List (Value × Value)} → keys_of vs ≡ ok ks → length ks ≡ length vs
unfolding keys_of
length-keys_of [] h = ap length (sym (ok_injective h))
length-keys_of (v ∷ vs) {ks} h =
    let (cycle, e1, h1) = bind_inverse (at "cycle" v) _ h in
    let (batch, e2, h2) = bind_inverse (at "batch" v) _ h1 in
    let (rest, e3, h3) = bind_inverse (keys_of vs) _ h2 in
    let kept : (cycle, batch) ∷ rest ≡ ks = ok_injective h3 in
    ap length (sym kept) ∙ ap suc (length-keys_of vs e3)

length-are_places :
    (ks : List (Value × Value)) (ps : List (ℕ × ℕ))
    → are_places ks ps ≡ true
    → length ks ≡ length ps
unfolding are_places
length-are_places [] [] h = refl
length-are_places [] (p ∷ ps) h = cc
length-are_places (k ∷ ks) [] h = cc
length-are_places ((v, w) ∷ ks) ((c, b) ∷ ps) h =
    ap suc (length-are_places ks ps (second (same v (int c)) (same w (int b)) (are_places ks ps) h))
  where
    second : (a b c : Bool) → (a && b && c) ≡ true → c ≡ true
    second a b c h = ground (arith, h)

length-places : (c cycles : ℕ) → length (places c cycles) ≡ cycles * 8
unfolding places range_from
length-places c zero = refl
length-places c (suc cycles) = omega (arith, length-places (suc c) cycles)

experts_of-append : (xs ys : List Command) → experts_of (xs ++ ys) ≡ experts_of xs + experts_of ys
unfolding sum_of
experts_of-append [] ys = omega arith
experts_of-append (x ∷ xs) ys = omega (arith, experts_of-append xs ys)

AreShown-experts_of :
    (previous : ℕ) (bs : List Batch)
    → AreShown previous bs
    → experts_of (all_commands bs) ≡ length bs * 8
unfolding sum_of
AreShown-experts_of previous [] shown = refl
AreShown-experts_of previous (b ∷ bs) shown =
    let rest = AreShown-experts_of b.released bs shown.1 in
    let joined = experts_of-append b.commands (all_commands bs) in
    omega (arith, rest, joined, shown.0.once)

conclude-commands :
    (cycles : ℕ) (sample : Value) (bs : List Batch) {r : Captured}
    → conclude cycles sample bs ≡ ok r
    → (r.commands ≡ all_commands bs) × (r.captured_experts ≡ cycles * 64)
unfolding conclude
conclude-commands cycles sample bs {r} h =
    let commands = all_commands bs in
    let (u1, e1, h1) =
      bind_inverse
        (check
          (is_at "submissions" (length commands) sample
            &? is_at "gpu_command_ns" (sum_of (λ b. b.gpu) bs) sample
            &? is_at "coordinator_wait_ns" (sum_of (λ b. b.wait) bs) sample)
          "Captured commands or waits do not cover the full sample")
        _ h in
    let kept = ok_injective h1 in
    (ap (λ k. k.commands) (sym kept), ap (λ k. k.captured_experts) (sym kept))

-- What the loop over the batches of a capture has given.
pub record Looped (times : Times) (c : Capture) (cycles : ℕ) (r : Captured) : Type 0 where
  pub rows : List Value
  pub batches : List Batch
  pub looped : on_batches times c 0 (places 0 cycles) rows ≡ ok batches
  pub counted : length batches ≡ cycles * 8
  pub commands : r.commands ≡ all_commands batches
  pub experts : r.captured_experts ≡ cycles * 64

trace_batches-Looped :
    (times : Times) (c : Capture) (cycles : ℕ) (sample : Value) {r : Captured}
    → trace_batches times c cycles sample ≡ ok r
    → Looped times c cycles r
unfolding trace_batches
trace_batches-Looped times c cycles sample {r} h =
    let (v, e1, h1) = bind_inverse (get_key "batches" sample) _ h in
    let ps = places 0 cycles in
    let placed : Result Bool = keys_of (elements v) >>= (λ keys. ok (are_places keys ps)) in
    let (u2, e2, h2) =
      bind_inverse
        (check (ok (is_list v) &? placed) "Missing, duplicate or reordered captured batches") _
        h1 in
    let (bs, e3, h3) = bind_inverse (on_batches times c 0 ps (elements v)) _ h2 in
    let (listed, found) =
      both_hold (ok (is_list v)) placed (check-true (ok (is_list v) &? placed) _ e2) in
    let (keys, e4, h4) = bind_inverse (keys_of (elements v)) _ found in
    let same = sym (length-keys_of (elements v) e4) ∙ length-are_places keys ps (ok_injective h4) in
    let (commands, experts) = conclude-commands cycles sample bs h3 in
    record {
      rows = elements v;
      batches = bs;
      looped = e3;
      counted = length-on_batches times c 0 ps (elements v) e3 same ∙ length-places 0 cycles;
      commands = commands;
      experts = experts;
    }

-- Where trace_batches answers, the commands hold as many experts as it says were captured, which are 64
-- in each cycle.
pub trace_batches-experts_of :
    (times : Times) (c : Capture) (cycles : ℕ) (sample : Value) {r : Captured}
    → trace_batches times c cycles sample ≡ ok r
    → (experts_of r.commands ≡ r.captured_experts) × (r.captured_experts ≡ cycles * 64)
trace_batches-experts_of times c cycles sample {r} h =
    let l = trace_batches-Looped times c cycles sample h in
    let shown = on_batches-AreShown times c 0 (places 0 cycles) l.rows l.looped in
    let total = AreShown-experts_of 0 l.batches shown in
    (
      ap experts_of l.commands ∙ total ∙ ap (λ n. n * 8) l.counted ∙ omega (arith, l.experts),
      l.experts,
    )

-- no event of a batch is admitted before the last release of the batch before it
abbrev pub hands_over : ℕ → List Batch → Bool
hands_over previous [] = true
hands_over previous (b ∷ batches) =
    all (λ e. leb previous e.admitted && leb e.admitted e.released && leb e.released b.released)
      b.events
    && hands_over b.released batches

forward-within :
    (previous last : ℕ) (e : Event)
    → is_forward previous e ≡ true
    → e.released ≤ last
    → (leb previous e.admitted && leb e.admitted e.released && leb e.released last) ≡ true
forward-within previous last e h below = ground (arith, h, below)

AreForward-within :
    (previous last : ℕ) (events : List Event)
    → AreForward previous events
    → last_release events ≤ last
    → all (λ e. leb previous e.admitted && leb e.admitted e.released && leb e.released last) events
      ≡ true
unfolding all
AreForward-within previous last [] forward below = refl
AreForward-within previous last (e ∷ events) forward below =
    let first = forward-within previous last e forward.0 (omega (arith, below)) in
    let rest = AreForward-within previous last events forward.2 (omega (arith, below)) in
    rw (first, rest)

AreShown-hands_over :
    (previous : ℕ) (bs : List Batch) → AreShown previous bs → hands_over previous bs ≡ true
AreShown-hands_over previous [] shown = refl
AreShown-hands_over previous (b ∷ bs) shown =
    let below : last_release b.events ≤ b.released = omega (arith, shown.0.release) in
    let first = AreForward-within previous b.released b.events shown.0.forward below in
    rw (first, AreShown-hands_over b.released bs shown.1)

-- Where the loop over the batches returns, every expert of a batch is admitted behind the release of
-- every expert of the batch before it, and released behind its own admission.
pub on_batches-hands_over :
    (times : Times) (c : Capture) (previous : ℕ) (ps : List (ℕ × ℕ)) (vs : List Value)
    {bs : List Batch}
    → on_batches times c previous ps vs ≡ ok bs
    → hands_over previous bs ≡ true
on_batches-hands_over times c previous ps vs {bs} h =
    AreShown-hands_over previous bs (on_batches-AreShown times c previous ps vs h)
