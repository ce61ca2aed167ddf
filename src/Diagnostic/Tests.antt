-- ===== src/Diagnostic/Tests.antt =====
-- A request diagnostic of two requests, with sixteen forwards each.
use zerocool.Prelude.{
  ℕ, zero, suc, ◌+◌, ◌*◌, ◌≡◌, refl, Bool, true, Option, none, some, List, [], ◌∷◌, ◌++◌, String,
  Result, ok, is_ok, ok_of, item, sum_of, all, sorted_set, insert_number, string_eq, ◌==◌, ◌-◌,
}
use zerocool.Json.{
  Value, bool, int, float, str, list, object, as_items, end, field, find, at, get_key, get_default,
  iterate, same, same_items, same_fields,
}
use zerocool.Json.Numbers.{Floats, all_of, has, counts, plus, minus, is_positive, as_value_error}
use zerocool.Draft.Memory.{Process}
use zerocool.Diagnostic.Steps.{
  delta, deltas, differences, boundary_cost, step_row, check_sample, check_samples, analyze_steps,
}
use zerocool.Diagnostic.Observe.{
  State, Limits, difference, last_of, read_process, process_at, reasons_of, add, observe,
  phase_boundary,
}
use zerocool.Diagnostic.Request.{
  gap, gap_before, read_sample, Loop, token_of, after_sample, on_sample, on_samples, inside_of,
  outside_of, check_request, open_request, close_request, on_request,
}
use zerocool.Diagnostic.Memory.{
  Report, check_limits, name_of, two_runs, maxima_of, conclude, analyze_memory,
}
use zerocool.Diagnostic.Ordered.{chain, is_ordered, is_within}
use zerocool.Diagnostic.Limits.{analyze_memory-ordered, hard_limits_passed-is_within}
use zerocool.Diagnostic.Accounts.{IsLast, inside_of-outside_of}

abbrev floats : Floats
floats = record { is_zero = λ s. s == "0.0"; is_positive = λ s. Bool.true; plus = λ s n. float s }

abbrev limits : Limits
limits = record { budget = 1000; compression = 50 }

-- a state with a number of decompressions and of swapped bytes
abbrev state : ℕ → ℕ → Value
state d swap = object (
    field "process"
      (object (
        field "physical_footprint_bytes" (int 90) (
          field "physical_footprint_peak_bytes" (int 100) (
            field "compressed_bytes" (int 3) (
              field "compressed_peak_bytes" (int 4) (
                field "decompressions" (int d) (field "system_swap_used_bytes" (int swap) end)))))))
      (field "sample_ns" (int 1)
        (field "metal" (object (field "live_command_groups" (int 0) end)) end)))

abbrev sample : ℕ → ℕ → ℕ → Value
sample d swap i = object (
    field "step" (int i) (
      field "offset" (int (5 + i)) (
        field "input_token_id" (int i) (
          field "forward_ms" (int 7) (
            field "begin_ns" (int (d + 2 * i)) (
              field "end_ns" (int (d + 2 * i + 1)) (
                field "before" (state (d + i) swap)
                  (field "after" (state (d + i + 1) swap) end))))))))

-- the numbers i and on
unfoldable tabulate : {A : Type 0} → (ℕ → A) → ℕ → ℕ → List A
tabulate f i zero = []
tabulate f i (suc n) = f i ∷ tabulate f (i + 1) n

abbrev boundaries : Value → Value → Value
boundaries a b = object (field "before" a (field "after" b end))

abbrev run : String → ℕ → ℕ → Value
run name d swap = object (
    field "name" (str name) (
      field "output_tokens" (int 17) (
        field "output_token_ids" (list (as_items (tabulate int 0 17))) (
          field "token_latency_ms" (list (as_items (tabulate (λ i. int 7) 0 16))) (
            field "prompt_tokens" (int 5) (
              field "profiling_enabled" (bool true) (
                field "before" (state d swap) (
                  field "after" (state (d + 30) swap) (
                    field "phases"
                      (object (
                        field "ingest" (boundaries (state d swap) (state d swap))
                          (field "decode" (boundaries (state d swap) (state (d + 20) swap)) end)))
                      (field "decode_diagnostics"
                        (object (
                          field "kind" (str "decode_step_diagnostics_v1") (
                            field "max_steps" (int 32) (
                              field "total_decode_steps" (int 16) (
                                field "captured_steps" (int 16) (
                                  field "omitted_steps" (int 0) (
                                    field "samples"
                                      (list (as_items (tabulate (sample d swap) 0 16))) end)))))))
                        end))))))))))

abbrev report : ℕ → Value
report swap = object (
    field "complete" (bool true)
      (field "runs" (list (as_items (run "a" 100 0 ∷ run "b" 200 swap ∷ []))) end))

abbrev answered : ℕ → Result Report
answered swap = analyze_memory floats limits (report swap)

abbrev reasons_in : Result Report → Option (List String)
reasons_in (ok r) = some r.reasons
reasons_in m = none

-- the swap that grows between the requests is the only reason
report_accepted :
    (is_ok (answered 0) ≡ true)
    × (reasons_in (answered 0) ≡ some [])
    × (reasons_in (answered 9) ≡ some ("Observed system swap growth at b:request.before" ∷ []))
unfolding analyze_memory check_limits two_runs name_of on_request check_request get_key find all_of
    get_default same same_items same_fields has counts plus is_positive as_value_error analyze_steps
    check_samples check_sample step_row boundary_cost differences deltas delta at iterate item
    tabulate open_request observe process_at read_process phase_boundary on_samples on_sample
    read_sample token_of after_sample gap_before difference add last_of reasons_of close_request
    sum_of conclude maxima_of sorted_set insert_number all minus
report_accepted = (refl, refl, refl)

analyze_memory-ordered_example :
    chain is_ordered none (ok_of (answered 0) report_accepted.0).0.observations ≡ true
analyze_memory-ordered_example =
    analyze_memory-ordered floats limits (report 0) (ok_of (answered 0) report_accepted.0).1

hard_limits_passed-is_within_example :
    (ok_of (answered 0) report_accepted.0).0.hard_limits_passed
    ≡ chain (is_within limits) none (ok_of (answered 0) report_accepted.0).0.observations
hard_limits_passed-is_within_example =
    hard_limits_passed-is_within floats limits (report 0) (ok_of (answered 0) report_accepted.0).1

-- the loop over the samples of a request, behind its boundaries
abbrev process : ℕ → Process
process d = record {
  footprint = 90;
  footprint_peak = 100;
  compressed = 3;
  compressed_peak = 4;
  decompressions = d;
  swap_used = 0;
}

abbrev start : Loop
start = record {
  previous_end = 0;
  prior = process 100;
  tokens = [];
  gaps = [];
  state = record {
    observations =
        record { phase = "a"; boundary = "decode.before"; process = process 100; change = none }
        ∷ [];
    reasons = [];
  };
}

abbrev looped : Result Loop
looped = on_samples limits "a" (tabulate (sample 100 0) 0 16) start

looped_accepted : is_ok looped ≡ true
unfolding on_samples on_sample read_sample get_key find at observe process_at all_of counts
    read_process token_of after_sample gap_before difference add last_of reasons_of tabulate minus
looped_accepted = refl

abbrev ended : Result (Process × State)
ended =
    phase_boundary limits (run "a" 100 0) "decode" "after" "a"
      (ok_of looped looped_accepted).0.state

ended_accepted : is_ok ended ≡ true
unfolding on_samples on_sample read_sample get_key find at observe process_at all_of counts
    read_process token_of after_sample gap_before difference add last_of reasons_of tabulate minus
    phase_boundary get_default ok_of
ended_accepted = refl

start-IsLast : IsLast start.prior start.state
unfolding last_of
start-IsLast = refl

inside_of-outside_of_example :
    inside_of (ok_of looped looped_accepted).0.tokens
      + outside_of (
          (ok_of looped looped_accepted).0.gaps
          ++ gap "last_token_to_decode"
              (some 15)
              none
              (ok_of looped looped_accepted).0.prior
              (ok_of ended ended_accepted).0.0
            ∷ [])
    ≡ (ok_of ended ended_accepted).0.0.decompressions - 100
inside_of-outside_of_example =
    inside_of-outside_of limits "a" (run "a" 100 0) (tabulate (sample 100 0) 0 16) start refl refl
      start-IsLast (ok_of looped looped_accepted).1 (ok_of ended ended_accepted).1
