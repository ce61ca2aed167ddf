-- ===== src/Timeline/Runs.antt =====
-- A run of `summarize`, over one token with ten experts in each layer.
use zerocool.Prelude.{
  ℕ, ◌≡◌, refl, Bool, true, false, none, some, List, [], ◌∷◌, map, if◌then◌else◌, Result, ok, raise,
  type_error, is_ok, ok_of, item, all, filter, sorted_set, insert_number, nat_eq, ◌==◌, string_eq,
}
use zerocool.Dict.{get, put}
use zerocool.Json.{
  Value, bool, int, float, str, list, object, as_items, end, field, find, at, get_key, get_default,
  iterate, same, same_items, same_fields, is_member, is_truthy, are_hashable,
}
use zerocool.Json.Numbers.{first_of, Floats, all_of, has, counts, plus, minus, size_of, is_positive}
use zerocool.Arrivals.Batches.{range_from}
use zerocool.Diagnostic.Steps.{
  delta, deltas, differences, boundary_cost, step_row, check_sample, check_samples, analyze_steps,
}
use zerocool.Timeline.{partition, collect, append_at, walk, current, is_active}
use zerocool.Timeline.Groups.{
  Clock, ns, ns_of_seconds, subtract, group_at, read_group, read_groups, group_intervals,
  operation_count, any_of, is_at, groups_with,
}
use zerocool.Timeline.Experts.{
  insert_sorted, all_numbers, sorted, all_at, distinct_count, check_routes, user_of, read_expert,
  is_near, check_clocks, check_read, account, on_record, on_records, on_pass, on_passes,
}
use zerocool.Timeline.Summary.{
  Row, row_of, on_sample, on_samples, boundary_gaps, token_passes, summarize, check_native,
  check_kernels, profile_groups, check_dependencies, samples_of, truth_at, dispatches_of,
  decode_dispatches, all_dispatches, expected_dispatches, passes_at, gap_of, only,
}
use zerocool.Timeline.Sums.{AllSplit, summarize-AllSplit}

abbrev clock : Clock
clock = record {
  nanoseconds = λ s. none;
  of_seconds = λ v. if same v (float "1.2e-7") then some 120 else some 180;
  is_near = λ s n. Bool.false;
  gap = λ s n. float s;
  is_zero = λ s. s == "0.0";
  subtract = λ v w. raise type_error;
  sort = λ vs. ok vs;
}

abbrev floats : Floats
floats = record { is_zero = λ s. s == "0.0"; is_positive = λ s. Bool.true; plus = λ s n. float s }

abbrev state : ℕ → Value
state dispatches = object (
    field "artifact_revision" (str "r") (
      field "diagnostic_stream_trunk" (bool false) (
        field "sample_ns" (int 1) (
          field "process" (object end) (
            field "metal"
              (object (
                field "build_fingerprint" (str "b") (
                  field "live_command_groups" (int 0) (
                    field "dispatches" (int dispatches) (
                      field "kernels"
                        (object
                          (field "profile" (bool true) (field "counter_profile" (bool false) end)))
                        end)))))
              end)))))

abbrev sample : Value
sample = object (
    field "step" (int 0) (
      field "offset" (int 5) (
        field "input_token_id" (int 3) (
          field "forward_ms" (int 7) (
            field "begin_ns" (int 100) (
              field "end_ns" (int 200)
                (field "before" (state 0) (field "after" (state 0) end))))))))

abbrev native : Value
native = object (
    field "complete" (bool true) (
      field "runs"
        (list (
          as_items (
            object (
              field "before" (state 3) (
                field "after" (state 50) (
                  field "profiling_enabled" (bool true) (
                    field "prompt_tokens" (int 5) (
                      field "output_token_ids" (list (as_items (int 3 ∷ int 4 ∷ []))) (
                        field "token_latency_ms" (list (as_items (int 7 ∷ []))) (
                          field "decode_diagnostics"
                            (object (
                              field "kind" (str "decode_step_diagnostics_v1") (
                                field "max_steps" (int 32) (
                                  field "total_decode_steps" (int 1) (
                                    field "captured_steps" (int 1) (
                                      field "omitted_steps" (int 0)
                                        (field "samples" (list (as_items (sample ∷ []))) end)))))))
                            end)))))))
            ∷ [])))
        end))

abbrev operation : ℕ → Value
operation layer = object (
    field "request_phase" (str "decode") (
      field "offset" (int 5) (field "stage" (str "expert_reduce") (field "layer" (int layer) end))))

abbrev profile : Value
profile = object (
    field "truncated" (bool false) (
      field "command_groups"
        (list (
          as_items (
            object (
              field "submitted_ns" (int 110) (
                field "completed_ns" (int 190) (
                  field "gpu_start_seconds" (float "1.2e-7") (
                    field "gpu_end_seconds" (float "1.8e-7") (
                      field "operations" (list (as_items (map operation (range_from 0 47))))
                        end)))))
            ∷ [])))
        end))

-- the use of an expert, which was read anew or was ready
abbrev use_of : Bool → ℕ → Value
use_of missed expert = object (
    field "expert" (int expert) (
      field "acquisition" (str (if missed then "new_miss" else "ready_hit")) (
        field "admitted_ns" (int (if missed then 102 else 110)) (
          field "read_queued_ns" (int 102) (
            field "read_started_ns" (int 103) (
              field "read_completed_ns" (int 104) (
                field "encoded_ns" (int (if missed then 105 else 110)) (
                  field "submitted_ns" (int 110) (
                    field "released_ns" (int 195)
                      (field "gpu_start_ns" (int 120) (field "gpu_end_ns" (int 181) end)))))))))))

abbrev dependency : ℕ → Value
dependency layer = object (
    field "build" (str "b") (
      field "artifact_revision" (str "r") (
        field "tokens" (int 1) (
          field "offset" (int 5) (
            field "layer" (int layer) (
              field "routes" (list (as_items (map int (range_from 0 10)))) (
                field "records"
                  (list (as_items (use_of (layer == 0) 0 ∷ map (use_of false) (range_from 1 9))))
                  end)))))))

abbrev answered : Result (List Row)
answered = summarize clock floats native profile (map dependency (range_from 0 48))

abbrev buckets_in : Result (List Row) → List (List ℕ)
buckets_in (ok rows) = map (λ r. r.buckets) rows
buckets_in m = []

-- the row of the token: of its 100 ns, the device worked 60 and a read was pending for 2
summarize_run :
    (is_ok answered ≡ true) × (buckets_in answered ≡ (60 ∷ 10 ∷ 6 ∷ 2 ∷ 10 ∷ 12 ∷ []) ∷ [])
unfolding get put all_of find at get_key get_default iterate same same_items same_fields is_member
    has counts plus minus size_of is_positive range_from delta deltas differences boundary_cost
    step_row check_sample check_samples analyze_steps partition collect append_at walk current
    is_active ns ns_of_seconds subtract group_at read_group read_groups group_intervals
    operation_count any_of is_at groups_with insert_sorted all_numbers sorted all_at distinct_count
    check_routes user_of read_expert is_near check_clocks check_read account on_record on_records
    on_pass on_passes row_of on_sample on_samples boundary_gaps token_passes summarize check_native
    first_of check_kernels profile_groups check_dependencies samples_of truth_at dispatches_of
    decode_dispatches all_dispatches expected_dispatches passes_at gap_of only filter sorted_set
    insert_number all item is_truthy are_hashable
summarize_run = (refl, refl)

summarize-AllSplit_example : AllSplit (ok_of answered summarize_run.0).0
summarize-AllSplit_example =
    summarize-AllSplit clock floats native profile (map dependency (range_from 0 48))
      (ok_of answered summarize_run.0).1
