-- ===== src/Capture/Tests.antt =====
-- A capture of two requests: a first one of three tokens, and a follow-up of 128.
use zerocool.Prelude.{
  ℕ, ◌*◌, ◌≡◌, refl, Bool, true, false, Option, none, some, List, [], ◌∷◌, ◌++◌, String, ◌==◌,
  nat_eq, string_eq, Result, ok, raise, type_error, is_ok, ok_of, replicate, filter, sum_of, all,
  item,
}
use zerocool.Json.{
  Value, null, bool, int, float, str, list, object, end, field, as_items, find, at, get_key,
  get_default, is_truthy, same, same_items, same_fields,
}
use zerocool.Json.Numbers.{has, minus}
use zerocool.Trace.State.{Forward, Completed, Status}
use zerocool.Trace.Decode.{Report}
use zerocool.Capture.Machine.{
  Host, gib, is_equal, is_above, size_of, fixed_sampling, agree, is_below, check_budget,
  check_machine,
}
use zerocool.Capture.Configuration.{
  chosen, check_choices, check_schedule, shape_of, check_kernels, check_configuration,
}
use zerocool.Capture.Requests.{
  check_follow_up, append_list, prompt_of, check_row, resizes_of, check_boundary, check_request,
  session_of, less, is_after, check_forwards, answer, as_values,
}
use zerocool.Capture.Validate.{
  open_request, next_history, on_request, on_requests, identity_key, check_identity, runs_of,
  is_normal, check_whole, check_workload, Validated, conclude, validate_capture,
}
use zerocool.Capture.History.{Turns}
use zerocool.Capture.Conversation.{validate_capture-Turns}

abbrev pub host : Host
host = record {
  equals = λ s n. false;
  exceeds = λ s n. false;
  precedes = λ s n. false;
  is_top_p = λ s. s == "0.95";
  policy = λ v. raise type_error;
}

abbrev evidence : Value
evidence = object (
    field "build" (str "b") (
      field "device" (str "d") (
        field "physical_bytes" (int 9) (
          field "artifact_revision" (str "r")
            (field "prepared_manifest_sha256" (str "m") (field "budget_bytes" (int 12) end))))))

abbrev state : Value
state = object (
    field "metal"
      (object (
        field "build_fingerprint" (str "b") (
          field "device" (str "d")
            (field "physical_bytes" (int 9) (field "peak_buffer_bytes" (int 5) end)))))
      (field "artifact_revision" (str "r") (
        field "prepared" (object (field "manifest_sha256" (str "m") end)) (
          field "memory_plan"
            (object (
              field "limit_bytes" (int (12 * gib))
                (field "planned_bytes" (int 7) (field "panel_tokens" (int 512) end))))
            (field "process" (object (field "physical_footprint_bytes" (int 6) end)) (
              field "diagnostic_stream_trunk" (bool false) (
                field "phase_memory" (object (field "pressure_resizes" (int 0) end)) (
                  field "ready_group" (int 4)
                    (field "chunk_tokens" (int 128) (field "io_workers" (int 8) end))))))))))

abbrev new_tokens : List ℕ
new_tokens = replicate 128 8

abbrev task : String → List ℕ → ℕ → Bool → Value
task name tokens limit append = object (
    field "name" (str name) (
      field "tokens" (as_values tokens)
        (field "max_tokens" (int limit) (field "append" (bool append) end))))

abbrev workload : List Value
workload = task "one" (1 ∷ 2 ∷ 3 ∷ []) 3 false ∷ task "two" new_tokens 33 true ∷ []

abbrev row : String → String → ℕ → ℕ → List ℕ → ℕ → Value
row name cache size reused outputs count = object (
    field "profiling_enabled" (bool true) (
      field "runtime_cache_state" (str cache) (
        field "repetition" (int 0) (
          field "name" (str name) (
            field "prompt_tokens" (int size) (
              field "reused_tokens" (int reused) (
                field "pending_tokens_ingested" (int 1) (
                  field "before" state (
                    field "after" state (
                      field "output_token_ids" (as_values outputs) (
                        field "output_tokens" (int count)
                          (field "finish_reason" (str "stop") end))))))))))))

abbrev raw : Value
raw = object (
    field "complete" (bool true) (
      field "workloads" (list (as_items workload)) (
        field "model_revision" (str "r") (
          field "sampling"
            (object (
              field "temperature" (int 0)
                (field "top_k" (int 20) (field "top_p" (float "0.95") (field "seed" (int 0) end)))))
            (field "runs"
              (list (
                as_items (
                  row "one" "empty_at_process_start" 3 0 (4 ∷ 5 ∷ 6 ∷ []) 3
                  ∷ row "two" "retained" 134 5 (7 ∷ []) 1
                  ∷ [])))
              end)))))

abbrev forward : ℕ → String → ℕ → Forward
forward request phase tokens = record {
  input = [];
  offset = 0;
  tokens = tokens;
  session = "s";
  phase = phase;
  forward_id = 1;
  request_id = request;
  source_pointer = "";
  epoch = 0;
  details = null;
}

abbrev completed : ℕ → String → List ℕ → ℕ → ℕ → List ℕ → Completed
completed id name input limit reused output = record {
  request = record {
    input = input;
    max_tokens = limit;
    prime = false;
    request_id = id;
    source_pointer = "";
    aborted = false;
    initial_sizes = [];
    details = object (field "name" (str name) end);
  };
  output = output;
  reused = reused;
  result = object (field "finish_reason" (str "stop") end);
}

abbrev trace : Report
trace = record {
  rows = [];
  committed =
      forward 1 "prefill" 3
      ∷ forward 1 "decode" 1
      ∷ forward 1 "decode" 1
      ∷ forward 2 "append" 129
      ∷ [];
  requests =
      completed 1 "one" (1 ∷ 2 ∷ 3 ∷ []) 3 0 (4 ∷ 5 ∷ 6 ∷ [])
      ∷ completed 2 "two" ((1 ∷ 2 ∷ 3 ∷ 4 ∷ 5 ∷ 6 ∷ []) ++ new_tokens) 33 5 (7 ∷ [])
      ∷ [];
  identity = some evidence;
  status = some Status.complete;
  complete = true;
  events = 0;
  partial_final_line = false;
  aborted_forwards = 0;
  active_request = none;
  active_forward = none;
  uncommitted_layer_passes = 0;
  last_event = none;
}

abbrev config : Value
config = object (field "panel" (int 512) end)

abbrev validated : Result Validated
validated = validate_capture host raw trace evidence workload config 2

-- the steps that the first request asked for are met, those of the follow-up are not
abbrev targets_in : Result Validated → Option (ℕ × Bool)
targets_in (ok r) = some (r.committed_decode_steps, r.target_steps_met)
targets_in m = none

validated_accepted : (is_ok validated ≡ true) × (targets_in validated ≡ some (2, false))
unfolding validate_capture check_whole is_normal get_key find same same_items same_fields
    fixed_sampling is_equal get_default size_of check_identity identity_key at check_workload item
    is_truthy runs_of on_requests on_request open_request prompt_of check_row has check_boundary
    check_machine agree is_above is_below check_budget check_configuration chosen check_choices
    check_kernels shape_of check_schedule resizes_of check_request filter session_of all
    check_forwards less is_after sum_of answer next_history append_list check_follow_up minus
    conclude
validated_accepted = (refl, refl)

validate_capture-Turns_example :
    Turns true [] trace.requests (ok_of validated validated_accepted.0).0.requests
validate_capture-Turns_example =
    validate_capture-Turns host raw trace evidence workload config 2
      (ok_of validated validated_accepted.0).1
