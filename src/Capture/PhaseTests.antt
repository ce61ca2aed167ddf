-- ===== src/Capture/PhaseTests.antt =====
-- The transitions of a request, a primed conversation, and a framed text.
use zerocool.Prelude.{
  ℕ, ◌≡◌, refl, true, false, List, [], ◌∷◌, ◌++◌, String, nat_eq, string_eq, Result, ok, raise,
  type_error, value_error, replicate, length, take, all,
}
use zerocool.Json.{
  Value, bool, int, str, list, object, end, field, as_items, find, at, get_key, get_default,
  is_truthy, has_key, iterate, same, same_items, same_fields,
}
use zerocool.Json.Numbers.{has, minus}
use zerocool.Trace.State.{token_ids}
use zerocool.Capture.Machine.{is_equal, is_above, size_of, agree, is_below}
use zerocool.Capture.Requests.{as_values}
use zerocool.Capture.Phases.{
  Others, value_above, value_minus, value_plus, check_plan, check_phase, events_after,
  check_scratch, on_transition, on_transitions, check_ingestion, check_transitions, check_reclaim,
  validate_phase_memory,
}
use zerocool.Capture.Transitions.{Passed, check_transitions-Passed}
use zerocool.Capture.Sessions.{truth_at, equal_at, three, check_builds, check_prime}
use zerocool.Capture.Workload.{part_tokens, append_tokens, sized, length-append_tokens}
use zerocool.Capture.Tests.{host}

-- a request that went to the prompt plan and back
abbrev plan : ℕ → Value
plan n = object (
    field "limit_bytes" (int 90)
      (field "planned_bytes" (int n) (field "panel_tokens" (int 512) end)))

abbrev transition : ℕ → String → ℕ → ℕ → Value
transition n reason a b = object (
    field "sequence" (int n) (
      field "reason" (str reason) (
        field "before" (plan a) (
          field "after" (plan b) (
            field "live_buffer_bytes" (int 8) (
              field "scratch_after"
                (list (as_items (object (field "allocated_bytes" (int 0) end) ∷ []))) end))))))

abbrev phase : ℕ → Value
phase n = object (
    field "policy" (str "reclaim") (
      field "phase" (str "generation") (
        field "prompt_plan" (plan 2) (
          field "generation_plan" (plan 1) (
            field "transition_count" (int n) (
              field "transitions"
                (list (
                  as_items
                    (transition 4 "ingest_panel" 1 2 ∷ transition 5 "ingest_complete" 2 1 ∷ [])))
                end))))))

abbrev boundary : ℕ → Value
boundary n = object (field "phase_memory" (phase n) (field "memory_plan" (plan 1) end))

abbrev phase_row : Value
phase_row = object (
    field "before" (boundary 3) (field "after" (boundary 5) (field "prefill_tokens" (int 300) end)))

abbrev phase_config : Value
phase_config =
    object (field "phase_memory" (str "reclaim") (field "prefill_pipeline" (str "double") end))

abbrev pub others : Others
others = record {
  above = λ v w. raise type_error;
  minus = λ v w. raise type_error;
  plus = λ v n. raise type_error;
}

abbrev transitions_check : Result (Unit {0})
transitions_check = check_transitions host others 90 phase_row phase_config (phase 3) (phase 5)

phases_accepted :
    (validate_phase_memory host others phase_row phase_config 90 ≡ ok tt)
    × (transitions_check ≡ ok tt)
unfolding validate_phase_memory check_reclaim check_phase check_plan check_transitions get_key find
    same same_items same_fields is_equal get_default at is_truthy has agree is_above is_below
    events_after value_above value_minus value_plus on_transitions on_transition check_scratch
    iterate check_ingestion minus has_key
phases_accepted = (refl, refl)

check_transitions-Passed_example : Passed others (phase 3) (phase 5)
check_transitions-Passed_example =
    check_transitions-Passed host others 90 phase_row phase_config (phase 3) (phase 5)
      phases_accepted.1

-- a primed conversation of five tokens, its continuation by three, and the same from nothing
abbrev session_row : String → ℕ → ℕ → ℕ → ℕ → Value
session_row reason outputs prompt reused prefill = object (
    field "finish_reason" (str reason) (
      field "output_tokens" (int outputs) (
        field "prompt_tokens" (int prompt) (
          field "reused_tokens" (int reused) (
            field "prefill_tokens" (int prefill) (
              field "pending_tokens_ingested" (int 0) (
                field "output_token_ids" (as_values (6 ∷ 7 ∷ [])) (
                  field "after"
                    (object (
                      field "metal" (object (field "build_fingerprint" (str "b") end))
                        (field "diagnostic_stream_trunk" (bool false) end)))
                    end))))))))

abbrev primed : ℕ → Value
primed reused = object (
    field "complete" (bool true) (
      field "runs"
        (list (
          as_items (
            session_row "primed" 0 5 0 5
            ∷ session_row "length" 2 8 reused 3
            ∷ session_row "length" 2 8 0 8
            ∷ [])))
        end))

prime_checked :
    (check_prime host (primed 5) (str "b") 5 3 ≡ ok (as_values (6 ∷ 7 ∷ [])))
    × (check_prime host (primed 4) (str "b") 5 3
        ≡ raise (value_error "Append included unrequested work or failed to retain the prime"))
unfolding check_prime get_key find get_default size_of at iterate three is_truthy truth_at equal_at
    is_equal agree same same_items check_builds
prime_checked = (refl, refl)

-- a frame of three tokens around a body of 126
abbrev part : List ℕ → Value
part tokens = object (field "tokens" (as_values tokens) end)

abbrev parts : Value
parts = object (
    field "prefix" (part (1 ∷ 2 ∷ []))
      (field "body" (part (replicate 126 8)) (field "suffix" (part (3 ∷ [])) end)))

abbrev framed : List ℕ
framed = (1 ∷ 2 ∷ []) ++ (replicate 125 8 ++ 3 ∷ [])

parts_accepted : append_tokens parts ≡ ok framed
unfolding append_tokens part_tokens at find token_ids all take
parts_accepted = refl

length-append_tokens_example : length framed ≡ 128
length-append_tokens_example = length-append_tokens parts parts_accepted

sized_repeats : sized (1 ∷ 2 ∷ 3 ∷ []) 7 ≡ ok (1 ∷ 2 ∷ 3 ∷ 1 ∷ 2 ∷ 3 ∷ 1 ∷ [])
unfolding sized take
sized_repeats = refl
