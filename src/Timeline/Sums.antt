-- ===== src/Timeline/Sums.antt =====
-- The buckets of every row that `summarize` of scripts/qwen/decode_timeline.py answers make up its
-- token's time.
use zerocool.Prelude.{
  ℕ, ◌+◌, ◌<◌, ◌≤◌, ◌≡◌, sym, not, ◌&&◌, ◌==◌, nat_eq, nat_equal_iff, List, [], ◌∷◌, ◌++◌, arith,
  sum_of, ◌∙◌, ltb, leb, ok, require, require-true, bind_inverse, ok_injective,
}
use mathlib.Core.Path.{subst}
use zerocool.Json.{Value, at}
use zerocool.Json.Numbers.{first_of, Floats}
use zerocool.Arrivals.Batches.{range_from}
use zerocool.Routes.Windows.{is_empty}
use zerocool.Diagnostic.Steps.{analyze_steps}
use zerocool.Timeline.{
  Bucket, place, gpu_active, gpu_idle_submitted, gpu_idle_ready_expert, gpu_idle_pending_read,
  gpu_idle_callback, gpu_idle_other, Interval, Events, collect, partition,
}
use zerocool.Timeline.Totals.{AllValid, sum-partition}
use zerocool.Timeline.Groups.{Clock, Group, ns_at, active_groups, group_intervals}
use zerocool.Timeline.Experts.{Token, on_passes}
use zerocool.Timeline.Summary.{
  Row, row_of, on_sample, on_samples, boundary_gaps, token_passes, summarize, check_native,
  check_kernels, profile_groups, check_dependencies, samples_of,
}

place_bound : (b : Bucket) → place b ≤ 5
place_bound gpu_active = omega arith
place_bound gpu_idle_submitted = omega arith
place_bound gpu_idle_ready_expert = omega arith
place_bound gpu_idle_pending_read = omega arith
place_bound gpu_idle_callback = omega arith
place_bound gpu_idle_other = omega arith

collect-AllValid :
    (begin end : ℕ) (intervals : List Interval) (events : Events) {events' : Events}
    → collect begin end intervals events ≡ ok events'
    → AllValid intervals
unfolding collect
collect-AllValid begin end [] events h = tt
collect-AllValid begin end (v ∷ intervals) events h =
    let (u, passed, later) = bind_inverse (require _ "Invalid interval") _ h in
    let good =
      require-true (not (place v.kind == 5) && leb v.from v.to) "Invalid interval" passed in
    (
      (
        ground (arith, good, place_bound v.kind, nat_equal_iff (place v.kind) 5),
        ground (arith, good),
      ),
      collect-AllValid begin end intervals _ later,
    )

-- the token's time is not empty, and the buckets make it up
abbrev pub IsSplit : ℕ → ℕ → List ℕ → Type 0
IsSplit begin end buckets = (begin < end) × (sum_of (λ t. t) buckets + begin ≡ end)

partition-IsSplit :
    (begin end : ℕ) (intervals : List Interval) {totals : List ℕ}
    → partition begin end intervals ≡ ok totals
    → IsSplit begin end totals
unfolding partition
partition-IsSplit begin end intervals h =
    let (u, passed, later) = bind_inverse (require (ltb begin end) "Invalid token interval") _ h in
    let fits : begin < end = ground (arith, require-true (ltb begin end) _ passed) in
    let (events, collected, rest) = bind_inverse (collect begin end intervals _) _ later in
    let (totals, answered, total) =
      sum-partition begin end intervals fits (collect-AllValid begin end intervals _ collected) in
    (fits, subst (λ t. sum_of (λ n. n) t + begin ≡ end) (ok_injective (sym answered ∙ h)) total)

abbrev pub AllSplit : List Row → Type 0
AllSplit [] = Unit {0}
AllSplit (r ∷ rows) = IsSplit r.begin r.end r.buckets × AllSplit rows

module _ (clock : Clock) where
  row_of-IsSplit :
      (groups : List Group) (sample : Value) (begin end : ℕ) (offset : Value) (t : Token) {r : Row}
      → row_of clock groups sample begin end offset t ≡ ok r
      → IsSplit r.begin r.end r.buckets
  unfolding row_of
  row_of-IsSplit groups sample begin end offset t h0 =
      let (active, _, h1) = bind_inverse (active_groups offset groups) _ h0 in
      let (gaps, _, h2) = bind_inverse (boundary_gaps clock active t (range_from 0 47)) _ h1 in
      let (buckets, split, h3) =
        bind_inverse (partition begin end (group_intervals groups ++ t.extra)) _ h2 in
      let (step, _, h4) = bind_inverse (at "step" sample) _ h3 in
      subst (λ k. IsSplit k.begin k.end k.buckets) (ok_injective h4)
        (partition-IsSplit begin end _ split)

  on_sample-IsSplit :
      (groups : List Group) (dependencies : List Value) (sample : Value) {r : Row}
      → on_sample clock groups dependencies sample ≡ ok r
      → IsSplit r.begin r.end r.buckets
  unfolding on_sample
  on_sample-IsSplit groups dependencies sample h0 =
      let (begin, _, h1) = bind_inverse (ns_at clock "begin_ns" sample) _ h0 in
      let (end, _, h2) = bind_inverse (ns_at clock "end_ns" sample) _ h1 in
      let (offset, _, h3) = bind_inverse (at "offset" sample) _ h2 in
      let (passes, _, h4) = bind_inverse (token_passes clock offset dependencies) _ h3 in
      let (t, _, h5) = bind_inverse (on_passes clock groups begin end passes _) _ h4 in
      row_of-IsSplit groups sample begin end offset t h5

  on_samples-AllSplit :
      (groups : List Group) (dependencies samples : List Value) {rows : List Row}
      → on_samples clock groups dependencies samples ≡ ok rows
      → AllSplit rows
  unfolding on_samples
  on_samples-AllSplit groups dependencies [] h = subst AllSplit (ok_injective h) tt
  on_samples-AllSplit groups dependencies (s ∷ samples) h =
      let (r, first, h1) = bind_inverse (on_sample clock groups dependencies s) _ h in
      let (rest, later, h2) = bind_inverse (on_samples clock groups dependencies samples) _ h1 in
      subst AllSplit (ok_injective h2) (
        on_sample-IsSplit groups dependencies s first,
        on_samples-AllSplit groups dependencies samples later,
      )

  -- Where `summarize` answers, every row's token time is not empty, and its buckets are in sum
  -- that time: the rows lose no nanosecond and count none twice.
  pub summarize-AllSplit :
      (floats : Floats) (native profile : Value) (dependencies : List Value) {rows : List Row}
      → summarize clock floats native profile dependencies ≡ ok rows
      → AllSplit rows
  unfolding summarize
  summarize-AllSplit floats native profile dependencies h0 =
      let (_, _, h1) = bind_inverse (check_native native profile) _ h0 in
      let (runs, _, h2) = bind_inverse (at "runs" native) _ h1 in
      let (row, _, h3) = bind_inverse (first_of runs) _ h2 in
      let (_, _, h4) = bind_inverse (analyze_steps floats row) _ h3 in
      let (state, _, h5) = bind_inverse (at "after" row) _ h4 in
      let (metal, _, h6) = bind_inverse (at "metal" state) _ h5 in
      let (build, _, h7) = bind_inverse (at "build_fingerprint" metal) _ h6 in
      let (revision, _, h8) = bind_inverse (at "artifact_revision" state) _ h7 in
      let (_, _, h9) = bind_inverse (check_kernels clock state metal) _ h8 in
      let (groups, _, h10) = bind_inverse (profile_groups clock profile row state) _ h9 in
      let (_, _, h11) = bind_inverse (check_dependencies build revision dependencies) _ h10 in
      let (samples, _, h12) = bind_inverse (samples_of row) _ h11 in
      let (rows', split, h13) = bind_inverse (on_samples clock groups dependencies samples) _ h12 in
      let (_, _, h14) =
        bind_inverse (require (not (is_empty rows')) "No committed decode samples") _ h13 in
      subst AllSplit (ok_injective h14) (on_samples-AllSplit groups dependencies samples split)
