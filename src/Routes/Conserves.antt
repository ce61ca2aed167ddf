-- ===== src/Routes/Conserves.antt =====
-- What `route_segments` of scripts/qwen/cache_simulation.py reports makes up its input.
use zerocool.Prelude.{
  ℕ, ◌+◌, ◌*◌, ◌≡◌, refl, sym, ap, Bool, not, ◌&&◌, Option, some, List, [], ◌∷◌, arith, nat_eq,
  length, ok, bind_inverse, require, Bool-cases, inl, inr, String, ok_injective, sum_of,
}
use zerocool.Json.{Value, str, at, is_object, has_key}
use zerocool.Routes.Pass.{Pass, pass_of, identity_of}
use zerocool.Routes.Windows.{State, Segment, initial, discard, split_last}
use zerocool.Routes.Loop.{
  Row, Coverage, differs, is_filtered, on_routes, on_recorded, on_boundary, skip_filtered,
  skip_missing, step, run, finish, finish_pending, coverage_of, route_segments,
}
use zerocool.Routes.Keys.{pass_of-keys}
use zerocool.Routes.Balance.{IsBalanced, windows_of, discard-IsBalanced, on_pass-IsBalanced}

on_routes-IsBalanced :
    (explicit : Bool) (pointer : String) (row : Value) {n : ℕ} (s : State) {s' : State}
    → on_routes explicit pointer row s ≡ ok s'
    → IsBalanced n s
    → IsBalanced (n + 1) s'
unfolding on_routes
on_routes-IsBalanced explicit pointer row {n} s h v =
    let (current, named, h1) = bind_inverse (identity_of row) _ h in
    let (u, agrees, h2) =
      bind_inverse
        (require (not (differs s.identity current))
          "Do not combine artifact revisions or native builds in a cache curve")
        _ h1 in
    let (p, parsed, h3) = bind_inverse (pass_of explicit pointer row) _ h2 in
    on_pass-IsBalanced explicit p (record s { identity = some current }) h3
      (pass_of-keys explicit pointer row parsed)
      (record {
        split = v.split;
        short = v.short;
        whole = v.whole;
        bounded = v.bounded;
        tokens = v.tokens;
        fits = v.fits;
      })

-- One row more of those that are left out, where no pass is pending.
more-IsBalanced :
    {n : ℕ} (s t : State)
    → t.explicit_events + t.missing_routes + t.filtered
      ≡ s.explicit_events + s.missing_routes + s.filtered + 1
    → t.excluded ≡ s.excluded
    → t.pending ≡ s.pending
    → t.passes ≡ s.passes
    → t.segments ≡ s.segments
    → t.logical_routes ≡ s.logical_routes
    → IsBalanced n s
    → IsBalanced (n + 1) t
more-IsBalanced s t more excluded pending passes segments logical v = record {
  split = omega (arith, v.split, more, excluded, ap length pending, passes);
  short = rw pending v.short;
  whole = rw (passes, segments) v.whole;
  bounded = rw (segments, logical) v.bounded;
  tokens = v.tokens;
  fits = rw pending v.fits;
}

on_recorded-IsBalanced :
    (explicit : Bool) (phase : Option String) (pointer : String) (row : Value) {n : ℕ} (s : State)
    {s' : State}
    → on_recorded explicit phase pointer row s ≡ ok s'
    → IsBalanced n s
    → IsBalanced (n + 1) s'
unfolding on_recorded
on_recorded-IsBalanced explicit phase pointer row {n} s h v =
    let (skipped, known, h1) = bind_inverse (is_filtered phase row) _ h in
    elim (Bool-cases skipped) [
      | inl skips ↦
          let kept = ok_injective (rw skips at h1) in
          let d = discard-IsBalanced (str "phase_filter") pointer s v in
          rw (← kept) (
            more-IsBalanced (discard (str "phase_filter") pointer s) (skip_filtered pointer s)
              (omega arith) refl refl refl refl refl d)
      | inr reads ↦ elim (Bool-cases (has_key "routes" row)) [
        | inl routed ↦ on_routes-IsBalanced explicit pointer row s (rw (reads, routed) at h1) v
        | inr missing ↦
            let kept = ok_injective (rw (reads, missing) at h1) in
            let d = discard-IsBalanced (str "missing_routes") pointer s v in
            rw (← kept) (
              more-IsBalanced (discard (str "missing_routes") pointer s) (skip_missing pointer s)
                (omega arith) refl refl refl refl refl d)
      ]
    ]

step-IsBalanced :
    (explicit : Bool) (phase : Option String) (row : Row) {n : ℕ} (s : State) {s' : State}
    → step explicit phase row s ≡ ok s'
    → IsBalanced n s
    → IsBalanced (n + 1) s'
unfolding step
step-IsBalanced explicit phase (pointer, row) {n} s h v =
    let (u, is_dict, h1) =
      bind_inverse (require (is_object row) "Route trace entries must be objects") _ h in
    elim (Bool-cases (explicit && has_key "cache_boundary" row)) [
      | inl boundary ↦
          let (reason, there, h2) = bind_inverse (at "cache_boundary" row) _ (rw boundary at h1) in
          let kept = ok_injective h2 in
          let d = discard-IsBalanced reason pointer s v in
          rw (← kept) (
            more-IsBalanced (discard reason pointer s) (on_boundary reason pointer s) (omega arith)
              refl refl refl refl refl d)
      | inr plain ↦ on_recorded-IsBalanced explicit phase pointer row s (rw plain at h1) v
    ]

IsBalanced-at : {n m : ℕ} {s : State} → n ≡ m → IsBalanced n s → IsBalanced m s
IsBalanced-at e v = rw (← e) v

run-IsBalanced :
    (explicit : Bool) (phase : Option String) (rows : List Row) (n : ℕ) (s : State) {s' : State}
    → run explicit phase rows s ≡ ok s'
    → IsBalanced n s
    → IsBalanced (n + length rows) s'
unfolding run
run-IsBalanced explicit phase [] n s h v = rw (← ok_injective h) (IsBalanced-at (omega arith) v)
run-IsBalanced explicit phase (row ∷ rows) n s h v =
    let (s1, stepped, h1) = bind_inverse (step explicit phase row s) _ h in
    let w =
      run-IsBalanced explicit phase rows (n + 1) s1 h1
        (step-IsBalanced explicit phase row s stepped v) in
    IsBalanced-at (omega arith) w

finish_pending-IsBalanced :
    {n : ℕ} (pending : List Pass) (s : State) {s' : State}
    → pending ≡ s.pending
    → finish_pending pending s ≡ ok s'
    → IsBalanced n s
    → IsBalanced n s' × (s'.pending ≡ [])
unfolding finish_pending discard
finish_pending-IsBalanced [] s none h v = let kept = ok_injective h in rw (← kept) (v, sym none)
finish_pending-IsBalanced (p ∷ rest) s some_left h v =
    let ((front, last), split, h1) = bind_inverse (split_last (p ∷ rest)) _ h in
    let kept = ok_injective h1 in
    rw (← kept) (discard-IsBalanced (str "incomplete_final_window") last.pointer s v, refl)

finish-IsBalanced :
    {n : ℕ} (s : State) {s' : State}
    → finish s ≡ ok s'
    → IsBalanced n s
    → IsBalanced n s' × (s'.pending ≡ [])
unfolding finish
finish-IsBalanced s h v = finish_pending-IsBalanced s.pending s refl h v

-- Where `route_segments` answers, each row that is no explicit boundary is included, excluded,
-- without routes or filtered, and there is one count for each; the included passes are those of the
-- complete windows of the segments; there are no more accesses than routes that select them.
pub route_segments-IsBalanced :
    (rows : List Row) (phase : Option String) (explicit : Bool) {segments : List Segment}
    {c : Coverage}
    → route_segments rows phase explicit ≡ ok (segments, c)
    → (length rows ≡ c.input_passes + c.explicit_boundary_events)
      × (c.input_passes
          ≡ c.included_passes + c.excluded_incomplete_passes + c.missing_route_passes
            + c.filtered_passes)
      × (c.included_passes ≡ windows_of segments * 48)
      × (c.demand_record_accesses + c.within_pass_grouped_selections ≡ c.logical_router_selections)
unfolding route_segments coverage_of
route_segments-IsBalanced rows phase explicit h =
    let (s, ran, h1) = bind_inverse (run explicit phase rows initial) _ h in
    let (s', finished, h2) = bind_inverse (finish s) _ h1 in
    let start : IsBalanced 0 initial = record {
      split = refl;
      short = omega arith;
      whole = unfold sum_of in refl;
      bounded = unfold sum_of in omega arith;
      tokens = 0;
      fits = tt;
    } in
    let (v, none_pending) =
      finish-IsBalanced s finished (run-IsBalanced explicit phase rows 0 initial ran start) in
    ground (arith, v.split, v.whole, v.bounded, none_pending)
