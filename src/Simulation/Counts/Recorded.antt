-- ===== src/Simulation/Counts/Recorded.antt =====
-- The segments that `route_segments` of scripts/qwen/cache_simulation.py makes are those that
-- `counts` can replay.
use zerocool.Prelude.{
  ℕ, ◌+◌, ◌≡◌, refl, ap, Bool, true, false, not, ◌&&◌, Option, some, List, [], ◌∷◌, ◌++◌, arith,
  ◌==◌, nat_eq, length, ok, bind_inverse, require, Bool-cases, inl, inr, String, if◌then◌else◌,
  ok_injective,
}
use zerocool.Json.{Value, str, at, has_key, is_object}
use zerocool.Routes.Pass.{Pass, layers, pass_of, identity_of}
use zerocool.Routes.Windows.{
  State, Segment, Span, initial, discard, split_last, is_empty, is_discontinuous, all_keys,
  add_span, extend, new_segment, choose, continues, complete, complete_first, join, on_pass,
  demands_of,
}
use zerocool.Routes.Loop.{
  Row, Coverage, differs, is_filtered, on_routes, on_recorded, step, run, finish, finish_pending,
  coverage_of, route_segments,
}
use zerocool.Routes.Keys.{pass_of-AllBelow}
use zerocool.Simulation.Counts.{Policy, Counts, counts}
use zerocool.Simulation.Counts.Accesses.{reaches}
use zerocool.Simulation.Counts.Ends.{AllLow, IsReplayable, AllReplayable, counts_ends}

-- a segment that can be replayed, and has no spans without explicit boundaries
record IsClean (explicit : Bool) (g : Segment) : Type 0 where
  replayable : IsReplayable g
  plain : explicit ≡ false → g.access_spans ≡ []

abbrev AllClean : Bool → List Segment → Type 0
AllClean explicit [] = Unit {0}
AllClean explicit (g ∷ segments) = IsClean explicit g × AllClean explicit segments

abbrev AllKeysLow : List Pass → Type 0
AllKeysLow [] = Unit {0}
AllKeysLow (p ∷ passes) = AllLow p.keys × AllKeysLow passes

record IsRecorded (explicit : Bool) (s : State) : Type 0 where
  segments : AllClean explicit s.segments
  pending : AllKeysLow s.pending

AllLow-append : (xs ys : List ℕ) → AllLow xs → AllLow ys → AllLow (xs ++ ys)
AllLow-append [] ys a b = b
AllLow-append (x ∷ xs) ys a b = (a.0, AllLow-append xs ys a.1 b)

AllLow-all_keys : (passes : List Pass) → AllKeysLow passes → AllLow (all_keys passes)
unfolding all_keys
AllLow-all_keys [] a = tt
AllLow-all_keys (p ∷ passes) a =
    AllLow-append p.keys (all_keys passes) a.0 (AllLow-all_keys passes a.1)

AllKeysLow-append :
    (passes : List Pass) (p : Pass)
    → AllKeysLow passes
    → AllLow p.keys
    → AllKeysLow (passes ++ p ∷ [])
AllKeysLow-append [] p a low = (low, tt)
AllKeysLow-append (q ∷ passes) p a low = (a.0, AllKeysLow-append passes p a.1 low)

AllClean-append :
    (explicit : Bool) (segments : List Segment) (g : Segment)
    → AllClean explicit segments
    → IsClean explicit g
    → AllClean explicit (segments ++ g ∷ [])
AllClean-append explicit [] g a c = (c, tt)
AllClean-append explicit (f ∷ segments) g a c = (a.0, AllClean-append explicit segments g a.1 c)

AllClean-split_last :
    (explicit : Bool) (segments : List Segment) {front : List Segment} {g : Segment}
    → split_last segments ≡ ok (front, g)
    → AllClean explicit segments
    → AllClean explicit front × IsClean explicit g
unfolding split_last
AllClean-split_last explicit [] h a = cc
AllClean-split_last explicit (x ∷ []) h a =
    let e = ok_injective h in rw (← ap (λ r. r.0) e, ← ap (λ r. r.1) e) (tt, a.0)
AllClean-split_last explicit (x ∷ y ∷ xs) h a =
    let ((front, g), inner, h1) = bind_inverse (split_last (y ∷ xs)) _ h in
    let e = ok_injective h1 in
    let (f, c) = AllClean-split_last explicit (y ∷ xs) inner a.1 in
    rw (← ap (λ r. r.0) e, ← ap (λ r. r.1) e) ((a.0, f), c)

new_segment-IsClean : (explicit : Bool) (first p : Pass) → IsClean explicit (new_segment first p)
new_segment-IsClean explicit first p = record {
  replayable = record { low = tt; covered = λ e. cc };
  plain = λ e. refl;
}

choose-IsClean :
    (explicit : Bool) (first p : Pass) (s : State) {front : List Segment} {g : Segment}
    → choose explicit first p s ≡ ok (front, g)
    → AllClean explicit s.segments
    → AllClean explicit front × IsClean explicit g
unfolding choose
choose-IsClean explicit first p s h a = elim (Bool-cases s.can_continue) [
  | inr cold ↦
      let e = ok_injective (rw cold at h) in
      rw (← ap (λ r. r.0) e, ← ap (λ r. r.1) e) (a, new_segment-IsClean explicit first p)
  | inl warm ↦
      let ((front, g), last, h1) = bind_inverse (split_last s.segments) _ (rw warm at h) in
      elim (Bool-cases (continues explicit g first p)) [
        | inl goes ↦
            let e = ok_injective (rw goes at h1) in
            rw (← ap (λ r. r.0) e, ← ap (λ r. r.1) e)
              (AllClean-split_last explicit s.segments last a)
        | inr stops ↦
            let e = ok_injective (rw stops at h1) in
            rw (← ap (λ r. r.0) e, ← ap (λ r. r.1) e) (a, new_segment-IsClean explicit first p)
      ]
]

reaches-add_span :
    (start end : ℕ) (first : Pass) (spans : List Span)
    → reaches end (add_span start end first spans) ≡ true
unfolding reaches add_span
reaches-add_span start end first [] = ground arith
reaches-add_span start end first (s ∷ []) = ground arith
reaches-add_span start end first (s ∷ t ∷ spans) =
    ground (arith, reaches-add_span start end first (t ∷ spans))

extend-IsClean :
    (explicit : Bool) (first p : Pass) (window : List Pass) (g : Segment)
    → AllKeysLow window
    → IsClean explicit g
    → IsClean explicit (extend explicit first p window g)
unfolding extend
extend-IsClean true first p window g low c = record {
  replayable = record {
    low = AllLow-append g.accesses (all_keys window) c.replayable.low (AllLow-all_keys window low);
    covered = λ e.
        reaches-add_span (length g.accesses) (length (g.accesses ++ all_keys window)) first
          g.access_spans;
  };
  plain = λ e. cc;
}
extend-IsClean false first p window g low c = record {
  replayable = record {
    low = AllLow-append g.accesses (all_keys window) c.replayable.low (AllLow-all_keys window low);
    covered = λ e. ground (arith, c.plain refl);
  };
  plain = c.plain;
}

-- The steps that keep the segments, and whose pending passes have experts' keys.
IsRecorded-discard :
    (explicit : Bool) (reason : Value) (pointer : String) (s : State)
    → IsRecorded explicit s
    → IsRecorded explicit (discard reason pointer s)
unfolding discard
IsRecorded-discard explicit reason pointer s v = record { segments = v.segments; pending = tt }

complete-IsRecorded :
    (explicit : Bool) (first p : Pass) (window : List Pass) (s : State) {s' : State}
    → complete explicit first p window s ≡ ok s'
    → AllKeysLow window
    → IsRecorded explicit s
    → IsRecorded explicit s'
unfolding complete
complete-IsRecorded explicit first p window s {s'} h low v =
    let ((front, g), chosen, h1) = bind_inverse (choose explicit first p s) _ h in
    let (clean, here) = choose-IsClean explicit first p s chosen v.segments in
    let segments : s'.segments ≡ front ++ extend explicit first p window g ∷ [] = ground arith in
    let none_pending : s'.pending ≡ [] = ground arith in
    record {
      segments = rw segments (
          AllClean-append explicit front _ clean
            (extend-IsClean explicit first p window g low here));
      pending = rw none_pending tt;
    }

join-IsRecorded :
    (explicit : Bool) (p : Pass) (s : State) {s' : State}
    → join explicit p s ≡ ok s'
    → AllLow p.keys
    → IsRecorded explicit s
    → IsRecorded explicit s'
unfolding join complete_first
join-IsRecorded explicit p s {s'} h low v =
    let window = s.pending ++ p ∷ [] in
    let all = AllKeysLow-append s.pending p v.pending low in
    elim (Bool-cases (length window == layers)) [
      | inl full ↦ first-IsRecorded window (rw full at h) all
      | inr more ↦
          rw (← ok_injective (rw more at h)) (record { segments = v.segments; pending = all })
    ]
  where
    first-IsRecorded :
        (window : List Pass)
        → complete_first explicit p window s ≡ ok s'
        → AllKeysLow window
        → IsRecorded explicit s'
    first-IsRecorded [] e all = cc
    first-IsRecorded (first ∷ rest) e all =
        complete-IsRecorded explicit first p (first ∷ rest) s e all v

on_pass-IsRecorded :
    (explicit : Bool) (p : Pass) (s : State) {s' : State}
    → on_pass explicit p s ≡ ok s'
    → AllLow p.keys
    → IsRecorded explicit s
    → IsRecorded explicit s'
unfolding on_pass
on_pass-IsRecorded explicit p s {s'} h low v = elim (Bool-cases (is_discontinuous p s.pending)) [
  | inl breaks ↦
      pass_on (discard (str "incomplete_or_discontinuous_window") p.pointer s)
        (IsRecorded-discard explicit (str "incomplete_or_discontinuous_window") p.pointer s v)
        (rw breaks at h)
  | inr goes ↦ pass_on s v (rw goes at h)
]
  where
    pass_on :
        (t : State)
        → IsRecorded explicit t
        → (if is_empty t.pending && not (p.layer == 0)
            then ok (record t { excluded = t.excluded + 1; can_continue = false })
            else join explicit p t)
          ≡ ok s'
        → IsRecorded explicit s'
    pass_on t w e = elim (Bool-cases (is_empty t.pending && not (p.layer == 0))) [
      | inl outside ↦
          rw (← ok_injective (rw outside at e))
            (record { segments = w.segments; pending = w.pending })
      | inr inside ↦ join-IsRecorded explicit p t (rw inside at e) low w
    ]

on_routes-IsRecorded :
    (explicit : Bool) (pointer : String) (row : Value) (s : State) {s' : State}
    → on_routes explicit pointer row s ≡ ok s'
    → IsRecorded explicit s
    → IsRecorded explicit s'
unfolding on_routes
on_routes-IsRecorded explicit pointer row s h v =
    let (current, named, h1) = bind_inverse (identity_of row) _ h in
    let (u, agrees, h2) =
      bind_inverse
        (require (not (differs s.identity current))
          "Do not combine artifact revisions or native builds in a cache curve")
        _ h1 in
    let (p, parsed, h3) = bind_inverse (pass_of explicit pointer row) _ h2 in
    on_pass-IsRecorded explicit p (record s { identity = some current }) h3
      (pass_of-AllBelow explicit pointer row parsed)
      (record { segments = v.segments; pending = v.pending })

on_recorded-IsRecorded :
    (explicit : Bool) (phase : Option String) (pointer : String) (row : Value) (s : State)
    {s' : State}
    → on_recorded explicit phase pointer row s ≡ ok s'
    → IsRecorded explicit s
    → IsRecorded explicit s'
unfolding on_recorded
on_recorded-IsRecorded explicit phase pointer row s h v =
    let (skipped, known, h1) = bind_inverse (is_filtered phase row) _ h in
    elim (Bool-cases skipped) [
      | inl skips ↦
          rw (← ok_injective (rw skips at h1)) (
            skip (str "phase_filter")
              (IsRecorded-discard explicit (str "phase_filter") pointer s v))
      | inr reads ↦ elim (Bool-cases (has_key "routes" row)) [
        | inl routed ↦ on_routes-IsRecorded explicit pointer row s (rw (reads, routed) at h1) v
        | inr missing ↦ rw (← ok_injective (rw (reads, missing) at h1)) (
            skip (str "missing_routes")
              (IsRecorded-discard explicit (str "missing_routes") pointer s v))
      ]
    ]
  where
    skip :
        (reason : Value)
        → IsRecorded explicit (discard reason pointer s)
        → {a b : ℕ}
        → IsRecorded explicit
            (record (discard reason pointer s) { filtered = a; missing_routes = b })
    skip reason d = record { segments = d.segments; pending = d.pending }

step-IsRecorded :
    (explicit : Bool) (phase : Option String) (row : Row) (s : State) {s' : State}
    → step explicit phase row s ≡ ok s'
    → IsRecorded explicit s
    → IsRecorded explicit s'
unfolding step
step-IsRecorded explicit phase (pointer, row) s h v =
    let (u, is_dict, h1) =
      bind_inverse (require (is_object row) "Route trace entries must be objects") _ h in
    elim (Bool-cases (explicit && has_key "cache_boundary" row)) [
      | inl boundary ↦
          let (reason, there, h2) = bind_inverse (at "cache_boundary" row) _ (rw boundary at h1) in
          let d = IsRecorded-discard explicit reason pointer s v in
          rw (← ok_injective h2) (record { segments = d.segments; pending = d.pending })
      | inr plain ↦ on_recorded-IsRecorded explicit phase pointer row s (rw plain at h1) v
    ]

run-IsRecorded :
    (explicit : Bool) (phase : Option String) (rows : List Row) (s : State) {s' : State}
    → run explicit phase rows s ≡ ok s'
    → IsRecorded explicit s
    → IsRecorded explicit s'
unfolding run
run-IsRecorded explicit phase [] s h v = rw (← ok_injective h) v
run-IsRecorded explicit phase (row ∷ rows) s h v =
    let (s1, stepped, h1) = bind_inverse (step explicit phase row s) _ h in
    run-IsRecorded explicit phase rows s1 h1 (step-IsRecorded explicit phase row s stepped v)

finish_segments :
    (pending : List Pass) (s : State) {s' : State}
    → finish_pending pending s ≡ ok s'
    → s'.segments ≡ s.segments
unfolding finish_pending discard
finish_segments [] s h = ground arith
finish_segments (p ∷ rest) s h =
    let ((front, last), split, h1) = bind_inverse (split_last (p ∷ rest)) _ h in ground arith

AllClean-AllReplayable :
    (explicit : Bool) (segments : List Segment)
    → AllClean explicit segments
    → AllReplayable segments
AllClean-AllReplayable explicit [] a = tt
AllClean-AllReplayable explicit (g ∷ segments) a =
    (a.0.replayable, AllClean-AllReplayable explicit segments a.1)

-- On the segments that `route_segments` answers, `counts` ends and raises nothing at every capacity
-- and policy. Its demands are those that `route_segments` reports, each counted once as a hit or a
-- miss.
pub counts-route_segments :
    (rows : List Row) (phase : Option String) (explicit : Bool) (capacity : ℕ) (policy : Policy)
    (per_layer : Bool) {segments : List Segment} {coverage : Coverage}
    → route_segments rows phase explicit ≡ ok (segments, coverage)
    → (c : Counts) × (counts segments capacity policy per_layer ≡ ok c)
      × (c.demands ≡ coverage.demand_record_accesses)
      × (c.hits + c.misses ≡ coverage.demand_record_accesses)
unfolding route_segments coverage_of finish
counts-route_segments rows phase explicit capacity policy per_layer {segments} {coverage} h =
    let (s, ran, h1) = bind_inverse (run explicit phase rows initial) _ h in
    let (s', finished, h2) = bind_inverse (finish_pending s.pending s) _ h1 in
    let v =
      run-IsRecorded explicit phase rows initial ran (record { segments = tt; pending = tt }) in
    let same : segments ≡ s.segments = ground (arith, finish_segments s.pending s finished) in
    let all = AllClean-AllReplayable explicit s.segments v.segments in
    let (c, e, demands, both) = counts_ends segments capacity policy per_layer (rw same all) in
    let counted : coverage.demand_record_accesses ≡ demands_of segments = ground arith in
    (c, e, omega (arith, demands, counted), omega (arith, both, counted))
