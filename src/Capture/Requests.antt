-- ===== src/Capture/Requests.antt =====
-- A round of the loop of `validate_capture` in scripts/qwen/capture_routes.py: a report of the
-- program, the task that it was given, and the request that the trace has.
use zerocool.Prelude.{
  ℕ, ◌+◌, ◌*◌, Bool, true, false, not, List, [], ◌∷◌, ◌++◌, map, String, ◌==◌, nat_eq, string_eq,
  if◌then◌else◌, length, Result, ok, raise, value_error, type_error, ◌>>=◌, ◌>>◌, all, filter,
  sum_of,
}
use zerocool.Json.{
  Value, bool, int, negative, float, str, list, items, as_items, bit, at, get_key, get_default,
  is_true, is_truthy, same,
}
use zerocool.Json.Numbers.{◌&?◌, has, check, minus}
use zerocool.Trace.State.{Forward, Completed}
use zerocool.Capture.Machine.{Host, gib, size_of, agree, check_machine}
use zerocool.Capture.Configuration.{check_configuration}

-- the arguments of a round that stay the same, and the variables set before the loop
pub record Context : Type 0 where
  pub evidence : Value
  pub config : Value
  pub initial_plan : Value
  -- `raw['runs'][0]`
  pub first_row : Value

-- `len(task['tokens']) == 128`, and `task['max_tokens'] == 33`
abbrev pub has_new : Value → Result Bool
has_new task = at "tokens" task >>= λ tokens. size_of tokens >>= λ n. ok (n == 128)

abbrev pub has_limit : Value → Result Bool
has_limit task = at "max_tokens" task >>= λ limit. ok (same limit (int 33))

-- a follow-up has 128 new tokens
unfoldable pub check_follow_up : Value → Result (Unit {0})
check_follow_up task =
    check
      ((get_key "append" task >>= λ append. ok (is_true append)) &? has_new task &? has_limit task)
      "Follow-up requires 128 new tokens and 32 decode steps"

-- `a + b` for two lists, the first of which is one
unfoldable pub append_list : List Value → Value → Result (List Value)
append_list vs (list ws) = ok (vs ++ items ws)
append_list vs _ = raise type_error

-- what the request was given, and what it reused: the last token of the history has not been
-- forwarded
unfoldable pub prompt_of : Bool → List Value → Value → Result Value
prompt_of first history task = do
  tokens ← at "tokens" task
  if first then ok tokens else append_list history tokens >>= λ vs. ok (list (as_items vs))

abbrev pub reused_of : Bool → List Value → Value
reused_of first history = if first then int 0 else minus (length history) 1

abbrev cache_state : Bool → String
cache_state first = if first then "empty_at_process_start" else "retained"

unfoldable pub check_row : Bool → Value → Value → ℕ → Value → Result (Unit {0})
check_row first row task size reused =
    check
      ((do profiling ← get_key "profiling_enabled" row; ok (is_true profiling))
        &? has "runtime_cache_state" (str (cache_state first)) row
        &? has "repetition" (int 0) row
        &? (do name ← get_key "name" row; other ← at "name" task; ok (same name other))
        &? has "prompt_tokens" (int size) row
        &? has "reused_tokens" reused row
        &? (if first then ok true else has "pending_tokens_ingested" (int 1) row))
      "Capture must reuse the exact live generated history"

-- `state['phase_memory']['pressure_resizes']`
unfoldable pub resizes_of : Value → Result Value
resizes_of state = do memory ← at "phase_memory" state; at "pressure_resizes" memory

unfoldable pub check_boundary : Host → Context → Value → Result (Unit {0})
check_boundary host x state = do
  check_machine host (12 * gib) state x.evidence
  check_configuration host state x.config
  check
      ((do
        trunk ← at "diagnostic_stream_trunk" state
        ok (not (is_truthy (λ s. host.equals s 0) trunk)))
        &? (do plan ← at "memory_plan" state; ok (same plan x.initial_plan))
        &? (do plan ← at "memory_plan" state; agree "panel_tokens" plan "panel" x.config)
        &? (do
          resizes ← resizes_of state
          before ← at "before" x.first_row
          expected ← resizes_of before
          ok (same resizes expected)))
      "Diagnostic, changed memory plan or pressure resize"

abbrev pub as_values : List ℕ → Value
as_values ns = list (as_items (map int ns))

-- `request['max_tokens'] == task['max_tokens']`
abbrev pub same_limit : Value → Completed → Result Bool
same_limit task q = at "max_tokens" task >>= λ limit. ok (same (int q.request.max_tokens) limit)

-- `request['result']['output_token_ids'] == row['output_token_ids']`
abbrev pub same_output : Value → Completed → Result Bool
same_output row q = at "output_token_ids" row >>= λ outputs. ok (same (as_values q.output) outputs)

-- the request of the trace is that of the task, and its result that of the report
unfoldable pub check_request : Value → Value → Value → Value → Completed → Result (Unit {0})
check_request row task prompt reused q =
    check
      (agree "name" q.request.details "name" task
        &? ok (same (as_values q.request.input) prompt)
        &? same_limit task q
        &? ok (not q.request.prime)
        &? same_output row q
        &? agree "finish_reason" q.result "finish_reason" row
        &? ok (same (int q.reused) reused))
      "Trace tokens or finish reason differ from native report"

abbrev pub forwards_of : ℕ → List Forward → List Forward
forwards_of id committed = filter (λ f. f.request_id == id) committed

abbrev pub in_phase : String → List Forward → List Forward
in_phase phase forwards = filter (λ f. f.phase == phase) forwards

-- the session of the capture, which the first forward of the first request gives
unfoldable pub session_of : List String → List Forward → Result String
session_of known [] = raise (value_error "Missing committed request forwards")
session_of [] (f ∷ forwards) = ok f.session
session_of (session ∷ known) (f ∷ forwards) = ok session

-- `n - v`
unfoldable pub less : ℕ → Value → Result Value
less n (int m) = ok (minus n m)
less n (negative m) = ok (int (n + m + 1))
less n (bool b) = ok (minus n (bit b))
less n _ = raise type_error

-- `v - 1 == n`
unfoldable pub is_after : Host → ℕ → Value → Result Bool
is_after host n (int m) = ok (m == n + 1)
is_after host n (negative m) = ok false
is_after host n (bool b) = ok (bit b == n + 1)
is_after host n (float s) = ok (host.precedes s n)
is_after host n _ = raise type_error

-- `sum(f['tokens'] for f in ingestion) == len(prompt)-reused`
abbrev pub covers_prompt : ℕ → Value → List Forward → Result Bool
covers_prompt size reused ingestion =
    less size reused >>= λ left. ok (same (int (sum_of (λ f. f.tokens) ingestion)) left)

-- `n == row['output_tokens']-1`
abbrev pub counts_steps : Host → Value → ℕ → Result Bool
counts_steps host row n = at "output_tokens" row >>= is_after host n

-- `row['output_tokens'] == len(row['output_token_ids'])`
abbrev pub counts_outputs : Value → Result Bool
counts_outputs row = at "output_tokens" row >>= λ outputs.
    at "output_token_ids" row >>= λ ids. size_of ids >>= λ n. ok (same outputs (int n))

-- the forwards of the request: one token for each output behind the first, and the rest of the prompt
unfoldable pub check_forwards :
    Host → Value → ℕ → Value → List Forward → List Forward → List Forward → Result (Unit {0})
check_forwards host row size reused forwards generation ingestion =
    check
      (ok (length generation + length ingestion == length forwards)
        &? covers_prompt size reused ingestion
        &? ok (all (λ f. f.tokens == 1) generation)
        &? counts_steps host row (length generation)
        &? counts_outputs row)
      "Generated outputs do not match committed forwards"

-- an entry of `results`
pub record Answer : Type 0 where
  pub name : Value
  pub request_id : ℕ
  pub generated_tokens : Value
  pub committed_decode_steps : ℕ
  pub target_decode_steps : ℕ
  pub target_steps_met : Bool
  pub finish_reason : Value
  pub prompt_tokens : Value
  pub reused_tokens : Value
  pub new_input_tokens : ℕ
  pub pending_tokens_ingested : Value

unfoldable pub answer : Value → Value → ℕ → Value → Completed → List Forward → Result Answer
answer row task target reused q generation = do
  name ← at "name" task
  outputs ← at "output_tokens" row
  reason ← at "finish_reason" row
  prompt ← at "prompt_tokens" row
  tokens ← at "tokens" task
  n ← size_of tokens
  pending ← get_default "pending_tokens_ingested" (int 0) row
  ok (record {
    name = name;
    request_id = q.request.request_id;
    generated_tokens = outputs;
    committed_decode_steps = length generation;
    target_decode_steps = target;
    target_steps_met = length generation == target;
    finish_reason = reason;
    prompt_tokens = prompt;
    reused_tokens = reused;
    new_input_tokens = n;
    pending_tokens_ingested = pending;
  })
