-- ===== src/Diagnostic/Steps.antt =====
-- `delta`, `differences` and `analyze_steps` of scripts/qwen/diagnose_decode_startup.py. Its windows
-- and sums are left out.
use zerocool.Prelude.{
  ℕ, suc, ◌+◌, ◌-◌, ◌&&◌, Option, none, some, List, [], ◌∷◌, String, ◌==◌, nat_eq, if◌then◌else◌,
  ltb, leb, length, Result, ok, ◌>>=◌, ◌>>◌, require, item,
}
use zerocool.Json.{
  Value, int, str, list, object, nil, end, at, get_key, get_default, iterate, is_true, is_uint,
  number,
}
use zerocool.Json.Numbers.{Floats, ◌&?◌, check, has, plus, is_positive}

-- `delta`: none for counters that are missing or fall
unfoldable pub delta : Value → Value → Option ℕ
delta (int a) (int b) = if ltb b a then none else some (b - a)
delta _ _ = none

-- `COUNTERS`
abbrev pub counters : List (String × List String)
counters =
    ("process", "decompressions" ∷ "page_faults" ∷ "pageins" ∷ "system_swap_used_bytes" ∷ [])
    ∷ ("metal", "cpu_encode_ns" ∷ "cpu_gpu_wait_ns" ∷ "gpu_command_ns" ∷ "submissions" ∷ [])
    ∷ ("expert_cache", "hits" ∷ "misses" ∷ "application_read_bytes" ∷ [])
    ∷ (
      "expert_dependencies",
      "coordinator_wait_ns" ∷ "read_service_sum_ns" ∷ "read_queue_sum_ns" ∷ [],
    )
    ∷ []

unfoldable pub deltas : Value → Value → List String → Result (List (Option ℕ))
deltas a b [] = ok []
deltas a b (key ∷ keys) = do
  v ← get_key key a
  w ← get_key key b
  rest ← deltas a b keys
  ok (delta v w ∷ rest)

-- `differences`, the entries of each group in order
unfoldable pub differences :
    Value → Value → List (String × List String) → Result (List (List (Option ℕ)))
differences a b [] = ok []
differences a b ((group, keys) ∷ groups) = do
  before ← get_default group (object end) a
  after ← get_default group (object end) b
  first ← deltas before after keys
  rest ← differences a b groups
  ok (first ∷ rest)

-- an entry of `rows`
pub record StepRow : Type 0 where
  pub step : ℕ
  pub offset : Value
  pub forward_ms : Value
  pub changes : List (List (Option ℕ))
  pub observation_ns : ℕ
  pub compressed_before : Value
  pub compressed_after : Value

abbrev mismatch : String
mismatch = "Decode observation does not match the committed token interval"

-- one of the two boundaries of a step: what the observation cost
unfoldable pub boundary_cost : Value → Result ℕ
boundary_cost state = do
  cost ← get_key "sample_ns" state
  require (is_uint cost) "Missing observation cost"
  metal ← at "metal" state
  check (has "live_command_groups" (int 0) metal)
      "Counters require the existing completed forward boundary"
  ok (number cost)

-- what a step row takes of its two boundaries
unfoldable pub step_row : ℕ → Value → Value → Value → Value → Result StepRow
step_row i offset latency before after = do
  cost_before ← boundary_cost before
  cost_after ← boundary_cost after
  changes ← differences before after counters
  process_before ← at "process" before
  compressed_before ← get_key "compressed_bytes" process_before
  process_after ← at "process" after
  compressed_after ← get_key "compressed_bytes" process_after
  ok (record {
    step = i;
    offset = offset;
    forward_ms = latency;
    changes = changes;
    observation_ns = cost_before + cost_after;
    compressed_before = compressed_before;
    compressed_after = compressed_after;
  })

module _ (floats : Floats) where
  -- a sample is that of a token, behind the last one
  unfoldable pub check_sample : Value → ℕ → ℕ → Value → Value → Result (Unit {0})
  check_sample row i previous_end latency s = do
    check
        (has "step" (int i) s
          &? (do
            prompt ← at "prompt_tokens" row
            offset ← plus floats prompt i
            has "offset" offset s)
          &? (do
            outputs ← at "output_token_ids" row
            ids ← iterate outputs
            id ← item ids i
            has "input_token_id" id s)
          &? has "forward_ms" latency s)
        mismatch
    begins ← get_key "begin_ns" s
    ends ← get_key "end_ns" s
    require
        (is_uint begins
          && is_uint ends
          && leb previous_end (number begins)
          && ltb (number begins) (number ends))
        mismatch
    check (is_positive floats latency) mismatch

  -- the loop over the samples
  unfoldable pub check_samples : Value → ℕ → ℕ → List Value → List Value → Result (List StepRow)
  check_samples row i previous_end latencies [] = ok []
  check_samples row i previous_end latencies (s ∷ samples) = do
    latency ← item latencies i
    check_sample row i previous_end latency s
    ends ← at "end_ns" s
    offset ← at "offset" s
    before ← at "before" s
    after ← at "after" s
    r ← step_row i offset latency before after
    rest ← check_samples row (suc i) (number ends) latencies samples
    ok (r ∷ rest)

  abbrev min : ℕ → ℕ → ℕ
  min n m = if ltb m n then m else n

  -- the rows, and the number of omitted steps
  unfoldable pub analyze_steps : Value → Result (List StepRow × Value)
  analyze_steps row = do
    d ← get_default "decode_diagnostics" (object end) row
    latency ← get_default "token_latency_ms" (list nil) row
    latencies ← iterate latency
    sample_list ← get_default "samples" (list nil) d
    samples ← iterate sample_list
    profiling ← get_key "profiling_enabled" row
    check
        (ok (is_true profiling)
          &? has "kind" (str "decode_step_diagnostics_v1") d
          &? has "max_steps" (int 32) d
          &? has "total_decode_steps" (int (length latencies)) d
          &? has "captured_steps" (int (length samples)) d
          &? ok (length samples == min 32 (length latencies))
          &? has "omitted_steps" (int (length latencies - length samples)) d)
        "Missing or inconsistent bounded decode coverage"
    rows ← check_samples row 0 0 latencies samples
    omitted ← at "omitted_steps" d
    ok (rows, omitted)
