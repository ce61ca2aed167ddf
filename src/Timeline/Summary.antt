-- ===== src/Timeline/Summary.antt =====
-- `summarize` of scripts/qwen/decode_timeline.py. The times stay in nanoseconds, and the means over
-- the tokens are left out.
use zerocool.Prelude.{
  ℕ, ◌-◌, Bool, not, ◌||◌, List, [], ◌∷◌, ◌++◌, map, String, ◌==◌, nat_eq, if◌then◌else◌, length,
  Result, ok, raise, value_error, type_error, ◌>>=◌, ◌>>◌, require,
}
use zerocool.Json.{
  Value, int, str, list, nil, at, get_key, get_default, iterate, is_text, is_true, is_false,
  is_truthy, same, float,
}
use zerocool.Json.Numbers.{Floats, first_of, ◌&?◌, has, check, size_of}
use zerocool.Routes.Windows.{is_empty}
use zerocool.Diagnostic.Steps.{analyze_steps}
use zerocool.Arrivals.Batches.{range_from}
use zerocool.Timeline.{partition}
use zerocool.Timeline.Groups.{
  Clock, ns_at, subtract, Group, read_groups, group_intervals, operation_count, is_at,
  active_groups, reducing_groups,
}
use zerocool.Timeline.Experts.{Token, sorted, same_values, all_at, last_at, on_passes}

-- an entry of `results`, whose gaps are not yet added up
pub record Row : Type 0 where
  pub step : Value
  pub offset : Value
  pub begin : ℕ
  pub end : ℕ
  pub buckets : List ℕ
  pub expert_read_bytes : ℕ
  pub command_groups : ℕ
  pub boundary_gaps : List Value

unfoldable pub check_native : Value → Value → Result (Unit {0})
check_native native profile =
    check
      ((do complete ← get_key "complete" native; ok (is_true complete))
        &? (do runs ← get_default "runs" (list nil) native; n ← size_of runs; ok (n == 1))
        &? (do truncated ← get_key "truncated" profile; ok (is_false truncated)))
      "Incomplete normal trace"

-- `d['metal']['dispatches']`
unfoldable pub dispatches_of : Value → Result Value
dispatches_of d = do metal ← at "metal" d; at "dispatches" metal

unfoldable pub check_dependencies : Value → Value → List Value → Result (Unit {0})
check_dependencies build revision [] = ok tt
check_dependencies build revision (d ∷ dependencies) = do
  check (has "build" build d &? has "artifact_revision" revision d) "Dependency identity differs"
  check_dependencies build revision dependencies

-- `[d for d in dependencies if d['tokens']==1 and d['offset']==offset]`
unfoldable pub passes_at : Value → List Value → Result (List Value)
passes_at offset [] = ok []
passes_at offset (d ∷ dependencies) = do
  found ← is_at "tokens" (int 1) d &? is_at "offset" offset d
  rest ← passes_at offset dependencies
  ok (if found then d ∷ rest else rest)

unfoldable pub only : List Group → Result Group
only (g ∷ []) = ok g
only _ = raise (value_error "Missing expert reduction command")

-- `row['decode_diagnostics']['samples']`
unfoldable pub samples_of : Value → Result (List Value)
samples_of row = do
  diagnostics ← at "decode_diagnostics" row
  value ← at "samples" diagnostics
  iterate value

module _ (clock : Clock) where
  abbrev truth : Value → Bool
  truth v = is_truthy clock.is_zero v

  -- `d[k]` as a truth
  unfoldable pub truth_at : String → Value → Result Bool
  truth_at k d = do v ← at k d; ok (truth v)

  -- the original command groups, without passes for each kernel
  unfoldable pub check_kernels : Value → Value → Result (Unit {0})
  check_kernels state metal =
      check
        ((do kernels ← at "kernels" metal; truth_at "profile" kernels)
          &? (do kernels ← at "kernels" metal; b ← truth_at "counter_profile" kernels; ok (not b))
          &? (do b ← truth_at "diagnostic_stream_trunk" state; ok (not b)))
        "Requires original command groups without per-kernel passes"

  unfoldable pub decode_dispatches : Value → Result Value
  decode_dispatches row = do
    phases ← at "phases" row
    decode ← at "decode" phases
    before ← at "before" decode
    metal_before ← at "metal" before
    after ← at "after" decode
    metal_after ← at "metal" after
    b ← at "dispatches" metal_after
    a ← at "dispatches" metal_before
    subtract clock b a

  unfoldable pub all_dispatches : Value → Value → Result Value
  all_dispatches row state = do
    b ← dispatches_of state
    before ← at "before" row
    a ← dispatches_of before
    subtract clock b a

  unfoldable pub expected_dispatches : Value → Value → Value → Result Value
  expected_dispatches profile row state = do
    coverage ← get_default "coverage" (str "all-dispatches") profile
    require (is_text "all-dispatches" coverage || is_text "decode-only" coverage)
        "Unknown profile coverage"
    if is_text "decode-only" coverage then decode_dispatches row else all_dispatches row state

  -- `max(0, v-n)`
  unfoldable pub gap_of : ℕ → Value → Result Value
  gap_of n (int m) = ok (int (m - n))
  gap_of n (float s) = ok (clock.gap s n)
  gap_of n _ = raise type_error

  -- the loop over the layers but the last
  unfoldable pub boundary_gaps : List Group → Token → List ℕ → Result (List Value)
  boundary_gaps active t [] = ok []
  boundary_gaps active t (layer ∷ layers) = do
    following ← reducing_groups layer active
    g ← only following
    submitted ← at "submitted_ns" g.value
    gap ← gap_of (last_at layer t.last_experts) submitted
    gaps ← boundary_gaps active t layers
    ok (gap ∷ gaps)

  -- the passes of a token, one for each layer
  unfoldable pub token_passes : Value → List Value → Result (List Value)
  token_passes offset dependencies = do
    passes ← passes_at offset dependencies
    layers ← all_at "layer" passes
    rising ← sorted clock layers
    require (same_values rising (map int (range_from 0 48)))
        "Incomplete or duplicate layer coverage"
    ok passes

  -- the row of a sample, behind the loop over its passes
  unfoldable pub row_of : List Group → Value → ℕ → ℕ → Value → Token → Result Row
  row_of groups sample begin end offset t = do
    active ← active_groups offset groups
    gaps ← boundary_gaps active t (range_from 0 47)
    buckets ← partition begin end (group_intervals groups ++ t.extra)
    step ← at "step" sample
    ok (record {
      step = step;
      offset = offset;
      begin = begin;
      end = end;
      buckets = buckets;
      expert_read_bytes = t.read_bytes;
      command_groups = length active;
      boundary_gaps = gaps;
    })

  unfoldable pub on_sample : List Group → List Value → Value → Result Row
  on_sample groups dependencies sample = do
    begin ← ns_at clock "begin_ns" sample
    end ← ns_at clock "end_ns" sample
    offset ← at "offset" sample
    passes ← token_passes offset dependencies
    t ←
        on_passes clock groups begin end passes
          (record { extra = []; last_experts = []; read_bytes = 0 })
    row_of groups sample begin end offset t

  unfoldable pub on_samples : List Group → List Value → List Value → Result (List Row)
  on_samples groups dependencies [] = ok []
  on_samples groups dependencies (s ∷ samples) = do
    r ← on_sample groups dependencies s
    rest ← on_samples groups dependencies samples
    ok (r ∷ rest)

  -- the groups of the profile, which cover the dispatches
  unfoldable pub profile_groups : Value → Value → Value → Result (List Group)
  profile_groups profile row state = do
    value ← at "command_groups" profile
    vs ← iterate value
    groups ← read_groups clock [] vs
    expected ← expected_dispatches profile row state
    n ← operation_count groups
    require (same (int n) expected) "Missing dispatch coverage"
    ok groups

  -- the rows of `summarize`
  unfoldable pub summarize : Floats → Value → Value → List Value → Result (List Row)
  summarize floats native profile dependencies = do
    check_native native profile
    runs ← at "runs" native
    row ← first_of runs
    steps ← analyze_steps floats row
    state ← at "after" row
    metal ← at "metal" state
    build ← at "build_fingerprint" metal
    revision ← at "artifact_revision" state
    check_kernels state metal
    groups ← profile_groups profile row state
    check_dependencies build revision dependencies
    samples ← samples_of row
    rows ← on_samples groups dependencies samples
    require (not (is_empty rows)) "No committed decode samples"
    ok rows
