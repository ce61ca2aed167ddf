-- ===== src/Capture/Validate.antt =====
-- `validate_capture` of scripts/qwen/capture_routes.py.
use zerocool.Prelude.{
  ℕ, ◌+◌, Bool, true, false, not, ◌&&◌, ◌||◌, Option, none, some, List, [], ◌∷◌, ◌++◌, String, ◌==◌,
  nat_eq, string_eq, if◌then◌else◌, length, Result, ok, raise, key_error, type_error, ◌>>=◌, ◌>>◌,
  require, all, item,
}
use zerocool.Json.{
  Value, int, list, object, nil, items, as_items, at, get_key, get_default, is_true, is_truthy,
  same,
}
use zerocool.Json.Numbers.{◌&?◌, check}
use zerocool.Trace.State.{◌&◌, Forward, Completed}
use zerocool.Trace.Decode.{Report}
use zerocool.Capture.Machine.{Host, size_of, fixed_sampling}
use zerocool.Capture.Requests.{
  Context, Answer, check_follow_up, append_list, prompt_of, reused_of, check_row, check_boundary,
  check_request, forwards_of, in_phase, session_of, check_forwards, answer,
}

-- the variables of the loop: the history, the session once there is one, and the results
pub record Progress : Type 0 where
  pub history : List Value
  pub session : List String
  pub results : List Answer

-- what comes before the forwards of a request
pub record Opened : Type 0 where
  pub prompt : Value
  pub size : ℕ
  pub reused : Value

unfoldable pub open_request : Host → Context → Bool → List Value → Value → Value → Result Opened
open_request host x first history row task = do
  if first then ok tt else check_follow_up task
  prompt ← prompt_of first history task
  n ← size_of prompt
  let reused = reused_of first history
  check_row first row task n reused
  before ← at "before" row
  check_boundary host x before
  after ← at "after" row
  check_boundary host x after
  ok (record { prompt = prompt; size = n; reused = reused })

-- the history with the outputs
unfoldable pub next_history : Value → Value → Result (List Value)
next_history (list vs) outputs = append_list (items vs) outputs
next_history _ outputs = raise type_error

abbrev pub phase_name : Bool → String
phase_name first = if first then "prefill" else "append"

-- a round of the loop
unfoldable pub on_request :
    Host
    → Context
    → List Forward
    → ℕ
    → Bool
    → Value
    → Value
    → Completed
    → Progress
    → Result Progress
on_request host x committed steps first row task q p = do
  o ← open_request host x first p.history row task
  check_request row task o.prompt o.reused q
  let forwards = forwards_of q.request.request_id committed
  session ← session_of p.session forwards
  require (all (λ f. f.session == session) forwards) "Follow-up rebuilt session state"
  let generation = in_phase "decode" forwards
  check_forwards host row o.size o.reused forwards generation (in_phase (phase_name first) forwards)
  a ← answer row task (if first then steps else 32) o.reused q generation
  outputs ← at "output_token_ids" row
  history ← next_history o.prompt outputs
  ok (record { history = history; session = session ∷ []; results = p.results ++ a ∷ [] })

-- `zip(raw['runs'], workload, trace['requests'])`
unfoldable pub on_requests :
    Host
    → Context
    → List Forward
    → ℕ
    → Bool
    → List Value
    → List Value
    → List Completed
    → Progress
    → Result Progress
on_requests host x committed steps first (row ∷ rows) (task ∷ tasks) (q ∷ requests) p = do
  p' ← on_request host x committed steps first row task q p
  on_requests host x committed steps false rows tasks requests p'
on_requests host x committed steps first _ _ _ p = ok p

-- `trace['identity'].get(key)`
unfoldable pub identity_key : Option Value → String → Result Value
identity_key none k = raise type_error
identity_key (some identity) k = get_key k identity

unfoldable pub check_identity : Option Value → Value → List String → Result (Unit {0})
check_identity identity evidence [] = ok tt
check_identity identity evidence (k ∷ ks) = do
  v ← identity_key identity k
  w ← at k evidence
  require (same v w) ("Route identity differs: " & k)
  check_identity identity evidence ks

abbrev pub identity_keys : List String
identity_keys =
    "build" ∷ "artifact_revision" ∷ "prepared_manifest_sha256" ∷ "budget_bytes" ∷ "device"
    ∷ "physical_bytes" ∷ []

-- `raw['runs']`, whose first entry is asked for
unfoldable pub runs_of : Value → Result (List Value)
runs_of (list vs) = ok (items vs)
runs_of (object fs) = raise key_error
runs_of _ = raise type_error

-- `len(raw.get('runs', [])) == len(workload)`
abbrev pub same_runs : Value → List Value → Result Bool
same_runs raw workload =
    get_default "runs" (list nil) raw >>= λ runs. size_of runs >>= λ n. ok (n == length workload)

-- what the report says of itself
unfoldable pub is_normal : Host → Value → Value → List Value → Result Bool
is_normal host raw evidence workload =
    (do complete ← get_key "complete" raw; ok (is_true complete))
    &? (do workloads ← get_key "workloads" raw; ok (same workloads (list (as_items workload))))
    &? (do
      revision ← get_key "model_revision" raw
      expected ← at "artifact_revision" evidence
      ok (same revision expected))
    &? (do sampling ← get_key "sampling" raw; ok (fixed_sampling host sampling))

-- the report, the trace and the workload are of one length, complete, and of the artifact
unfoldable pub check_whole : Host → Value → Report → Value → List Value → Result (Unit {0})
check_whole host raw trace evidence workload =
    check
      (is_normal host raw evidence workload
        &? same_runs raw workload
        &? ok (trace.complete && length trace.requests == length workload))
      "Missing completed normal request and matching committed trace"

unfoldable pub check_workload : Host → ℕ → List Value → Result (Unit {0})
check_workload host steps workload = do
  require (length workload == 1 || length workload == 2) "Invalid capture workload"
  first ← item workload 0
  append ← get_key "append" first
  require (not (is_truthy (λ s. host.equals s 0) append)) "Invalid capture workload"
  limit ← at "max_tokens" first
  require (same limit (int (steps + 1))) "Invalid capture workload"

-- the answer
pub record Validated : Type 0 where
  pub requests : List Answer
  pub target_steps_met : Bool
  pub target_32_steps_met : Bool
  pub committed_decode_steps : ℕ
  pub generated_tokens : Value

unfoldable pub conclude : List Answer → Result Validated
conclude results = do
  first ← item results 0
  ok (record {
    requests = results;
    target_steps_met = all (λ a. a.target_steps_met) results;
    target_32_steps_met = first.committed_decode_steps == 32;
    committed_decode_steps = first.committed_decode_steps;
    generated_tokens = first.generated_tokens;
  })

unfoldable pub validate_capture :
    Host → Value → Report → Value → List Value → Value → ℕ → Result Validated
validate_capture host raw trace evidence workload config steps = do
  check_whole host raw trace evidence workload
  check_identity trace.identity evidence identity_keys
  check_workload host steps workload
  value ← at "runs" raw
  runs ← runs_of value
  first_row ← item runs 0
  before ← at "before" first_row
  plan ← at "memory_plan" before
  p ←
      on_requests host
        (record {
          evidence = evidence;
          config = config;
          initial_plan = plan;
          first_row = first_row;
        })
        trace.committed steps true runs workload trace.requests
        (record { history = []; session = []; results = [] })
  conclude p.results
