-- ===== src/Scratch/Lifetime.antt =====
-- `lifetime_proof` of scripts/qwen/q4_scratch_lifetime.py over the pairs and their arms.
use zerocool.Prelude.{
  ℕ, ◌+◌, ◌*◌, ◌/◌, Bool, not, ◌&&◌, Option, none, some, List, [], ◌∷◌, ◌++◌, String, ◌==◌, nat_eq,
  if◌then◌else◌, length, Result, ok, raise, value_error, ◌>>=◌, ◌>>◌, require,
}
use zerocool.Json.{
  Value, int, object, end, field, at, get_key, is_list, is_text, iterate, is_truthy, elements,
  number, same,
}
use zerocool.Scratch.Arena.{
  Scope, Pass, passes, buffers, retained_bytes, boundaries, expected, no_slot, scratch_snapshot,
}
use zerocool.Scratch.Passes.{check_batches}

-- the two entries of a list of two
unfoldable pub two_pools : List Value → Result (Value × Value)
two_pools (first ∷ second ∷ []) = ok (first, second)
two_pools _ = raise (value_error "Unexpected secondary scratch pool")

-- the second pool of a state is empty, and the first one as the snapshot has it
unfoldable pub check_state : ℕ → Scope → Value → Result Value
check_state budget scope state = do
  pools ← get_key "scratch_pools" state
  require (is_list pools) "Unexpected secondary scratch pool"
  (first, second) ← two_pools (elements pools)
  allocated ← get_key "allocated_bytes" second
  capacity ← get_key "capacity_bytes" second
  require (same allocated (int 0) && same capacity (int 0)) "Unexpected secondary scratch pool"
  slot ← at "active_scratch_slot" state
  groups ← at "live_command_groups" state
  live ← at "live_buffer_bytes" state
  let retained = retained_bytes scope
  scratch_snapshot budget
      (object (
        field "active_scratch_slot" slot (
          field "live_command_groups" groups (
            field "live_buffer_bytes" live (
              field "pool" first (
                field "active_prefix_bytes" (int retained)
                  (field "inferred_used_buffers" (int (retained / 16384)) end)))))))
      retained (retained / 16384) no_slot

-- an entry of `captures`
pub record Captured : Type 0 where
  pub pair : Value
  pub group : Value
  pub variant : Value
  pub passes : List Pass

abbrev pub captured : Value → Value → Value → List Pass → Captured
captured pair group variant summary = record {
  pair = pair;
  group = group;
  variant = variant;
  passes = summary;
}

-- the first observation of an arm against the last
unfoldable pub check_totals : Value → Value → Value → Value → Result (Unit {0})
check_totals live_before live_after before after = do
  count_after ← at "allocation_count" after
  count_before ← at "allocation_count" before
  reuses_after ← at "reuses" after
  reuses_before ← at "reuses" before
  require
      (same live_before live_after
        && same count_after count_before
        && number reuses_after == number reuses_before + passes * buffers)
      "Scratch allocation or reuse changed across the measured arm"

-- the trace reaches the end of the arm
unfoldable pub check_end : Value → Option Value → List Pass → Result (Unit {0})
check_end after none summary =
    raise (value_error "Scratch trace does not reach the final arm boundary")
check_end after (some done) summary = do
  require (length summary == passes) "Scratch trace does not reach the final arm boundary"
  pool ← at "pool" done
  require (same pool after) "Scratch trace does not reach the final arm boundary"

-- the passes of an arm whose mode is "trace"
unfoldable pub trace_arm : ℕ → Scope → Value → Value → Value → Value → Result (List Pass)
trace_arm budget scope live before after sample = do
  batches ← at "batches" sample
  bs ← iterate batches
  (last, summary) ← check_batches budget scope live before 0 none bs
  check_end after last summary
  ok summary

-- the capture of a checked arm; a mode without a trace has none
unfoldable pub arm_captures :
    (String → Bool)
    → ℕ
    → Scope
    → Value
    → Value
    → Value
    → Value
    → Value
    → Value
    → Value
    → Result (List Captured)
arm_captures is_zero budget scope raw pair arm sample live before after = do
  mode ← at "mode" raw
  if is_text "trace" mode
      then (do
        summary ← trace_arm budget scope live before after sample
        number_of_pair ← at "pair" pair
        group ← at "group" pair
        variant ← at "variant" arm
        ok (captured number_of_pair group variant summary ∷ []))
      else (do
        batches ← get_key "batches" sample
        require (not (is_truthy is_zero batches))
            "Untimed scratch instrumentation leaked into timing/check modes"
        ok [])

-- a round of the loop over the arms of a pair
unfoldable pub check_arm :
    (String → Bool) → ℕ → Scope → Value → Value → Value → Result (List Captured)
check_arm is_zero budget scope raw pair arm = do
  sample ← at "sample" arm
  begins ← get_key "scope_begins" sample
  ends ← get_key "scope_ends" sample
  retained ← get_key "retained_scratch_bytes" sample
  require
      (same begins ends
        && same ends (int (boundaries scope))
        && same retained (int (retained_bytes scope)))
      "Missing arena boundaries or changed retained scratch payload"
  metal_before ← at "metal_before" arm
  metal_after ← at "metal_after" arm
  before ← check_state budget scope metal_before
  after ← check_state budget scope metal_after
  live_before ← at "live_buffer_bytes" metal_before
  live_after ← at "live_buffer_bytes" metal_after
  check_totals live_before live_after before after
  arm_captures is_zero budget scope raw pair arm sample live_before before after

unfoldable pub check_arms :
    (String → Bool) → ℕ → Scope → Value → Value → List Value → Result (List Captured)
check_arms is_zero budget scope raw pair [] = ok []
check_arms is_zero budget scope raw pair (arm ∷ arms) = do
  captures ← check_arm is_zero budget scope raw pair arm
  rest ← check_arms is_zero budget scope raw pair arms
  ok (captures ++ rest)

unfoldable pub check_pairs :
    (String → Bool) → ℕ → Scope → Value → List Value → Result (List Captured)
check_pairs is_zero budget scope raw [] = ok []
check_pairs is_zero budget scope raw (pair ∷ pairs) = do
  value ← at "arms" pair
  arms ← iterate value
  captures ← check_arms is_zero budget scope raw pair arms
  rest ← check_pairs is_zero budget scope raw pairs
  ok (captures ++ rest)

-- The report: what depends on the scope, and the captures.
pub record Proof : Type 0 where
  pub scope : Scope
  pub retained_scratch_bytes : ℕ
  pub retained_buffers : ℕ
  pub scope_begins_per_arm : ℕ
  pub scope_ends_per_arm : ℕ
  pub reused_buffers_per_arm : ℕ
  pub captures : List Captured

unfoldable pub lifetime_proof : (String → Bool) → ℕ → Value → Scope → Result Proof
lifetime_proof is_zero budget raw scope = do
  protocol ← get_key "scratch_lifetime" raw
  require (same protocol (expected scope)) "Changed scratch lifetime protocol"
  value ← at "pairs" raw
  pairs ← iterate value
  captures ← check_pairs is_zero budget scope raw pairs
  ok (record {
    scope = scope;
    retained_scratch_bytes = retained_bytes scope;
    retained_buffers = retained_bytes scope / 16384;
    scope_begins_per_arm = boundaries scope;
    scope_ends_per_arm = boundaries scope;
    reused_buffers_per_arm = passes * buffers;
    captures = captures;
  })
