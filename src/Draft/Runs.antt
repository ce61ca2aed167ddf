-- ===== src/Draft/Runs.antt =====
-- A run of `observe`: a validation at width 4, of one block.
use zerocool.Prelude.{
  ℕ, zero, suc, ◌*◌, ◌^◌, ◌≡◌, refl, Bool, true, false, List, [], ◌∷◌, String, nat_eq, string_eq,
  replicate, Result, ok, raise, type_error, is_ok, ok_of, item, take, drop, all, filter, sum_of,
  sorted_set, insert_number,
}
use zerocool.Trace.State.{digits}
use zerocool.Json.{
  Value, null, bool, int, str, list, object, Fields, as_items, end, field, find, at, get_key,
  get_default, iterate, are_uint, same, is_set_of, is_member, are_members, are_hashable, is_truthy,
}
use zerocool.Json.Numbers.{all_of, has, counts, size_of, minus}
use zerocool.Capture.Machine.{is_equal, is_above, agree, is_below, check_budget, check_machine}
use zerocool.Capture.Configuration.{
  chosen, check_choices, check_schedule, shape_of, check_kernels, check_configuration,
}
use zerocool.Capture.Phases.{value_above, value_minus, value_plus}
use zerocool.Draft.Work.{configuration, valid_sha256, ids, valid_work}
use zerocool.Draft.Memory.{
  observed, block_values, processes, process_of, largest, memory_observation,
}
use zerocool.Draft.State.{
  is_buffer, are_buffers, bytes_of, all_bytes, expected_bytes, check_layer, check_layers,
  check_state, row_layers, are_rows, check_routes,
}
use zerocool.Draft.Probe.{
  Probe, value_up_to, check_scope, check_workspace, replaced, check_idle, check_endpoint,
  check_endpoints, read_prime,
}
use zerocool.Draft.Blocks.{
  counts_rows, are_hashes, check_block, check_point, read_times, endpoints_of, on_block, on_blocks,
}
use zerocool.Draft.Execution.{get_each, replay_names, expected_checks, check_rollback}
use zerocool.Draft.Observe.{
  Answer, is_clean_host, clean_hosts, last_of, check_total, read_blocks, answer_of, observe_blocks,
  check_end, observe,
}
use zerocool.Draft.Continued.{IsContinued, observe-IsContinued}
use zerocool.Draft.Greedy.{IsGreedy, observe-IsGreedy}
use zerocool.Draft.Tests.{process, hash, tokens, recorded_work, state_at}

abbrev probe : Probe
probe = record {
  host = record {
    equals = λ s n. Bool.false;
    exceeds = λ s n. Bool.false;
    precedes = λ s n. Bool.false;
    is_top_p = λ s. Bool.false;
    policy = λ v. raise type_error;
  };
  others = record {
    above = λ v w. raise type_error;
    minus = λ v w. raise type_error;
    plus = λ v n. raise type_error;
  };
  up_to = λ v w. raise type_error;
  reconciles = λ v total wall. ok Bool.true;
}

abbrev plan : Value
plan = object (
    field "limit_bytes" (int (12 * 1024 ^ 3)) (
      field "expert_slots" (int 1072) (
        field "panel_tokens" (int 512)
          (field "planned_bytes" (int 1000) (field "expert_bytes" (int 500) end)))))

abbrev boundary : ℕ → Value
boundary tile = object (
    field "artifact_revision" (str "r") (
      field "prepared" (object (field "manifest_sha256" (str "m") end)) (
        field "memory_plan" plan (
          field "process" (process 1024) (
            field "diagnostic_stream_trunk" (bool false) (
              field "completion_pipeline" (bool true) (
                field "ready_group" (int 4) (
                  field "chunk_tokens" (int 128) (
                    field "io_workers" (int 8) (
                      field "metal"
                        (object (
                          field "build_fingerprint" (str "b") (
                            field "device" (str "d") (
                              field "physical_bytes" (int 9) (
                                field "peak_buffer_bytes" (int 10) (
                                  field "live_command_groups" (int 0) (
                                    field "peak_command_groups" (int 2) (
                                      field "kernels"
                                        (object (
                                          field "token_tile" (int tile) (
                                            field "profile" (bool false) (
                                              field "counter_profile" (bool false)
                                                (field "profile_decode_only" (bool false) end)))))
                                        (field "residency"
                                          (object (
                                            field "mode" (str "core-cache") (
                                              field "pending_retirements" (int 0) (
                                                field "bytes_by_class"
                                                  (object (field "expert" (int 500) end)) end))))
                                          end)))))))))
                        end))))))))))

abbrev frozen : Value
frozen = object (
    field "build" (str "b") (
      field "device" (str "d") (
        field "physical_bytes" (int 9)
          (field "artifact_revision" (str "r") (field "prepared_manifest_sha256" (str "m") end)))))

-- the routes of the layers from one on, behind so many tokens
abbrev route_rows : ℕ → ℕ → ℕ → List Value
route_rows position layer zero = []
route_rows position layer (suc n) =
    object (field "layer" (int layer) (field "tokens" (int position) (field "sha256" hash end)))
    ∷ route_rows position (suc layer) n

abbrev routes_at : ℕ → Value
routes_at position = list (as_items (route_rows position 0 48))

abbrev block : Value
block = object (
    field "offset" (int 72) (
      field "input_tokens" (tokens 4 6) (
        field "next_ids" (tokens 4 6) (
          field "logits_sha256" (list (as_items (replicate 4 hash))) (
            field "state" (state_at 76 6) (
              field "routes" (routes_at 76) (
                field "checkpoint_ns" (int 5) (
                  field "forward_ns" (int 10) (
                    field "accept_ns" (int 3) (
                      field "wall_ns" (int 20) (
                        field "memory_before" (process 2048)
                          (field "memory_after" (process 4096) end))))))))))))

abbrev passed : String → Value
passed name = object (field "name" (str name) (field "passed" (bool true) end))

abbrev host_at : ℕ → Value
host_at ns = object (
    field "thermal_state" (int 0) (
      field "low_power_mode" (bool false)
        (field "power_source" (str "AC Power") (field "monotonic_ns" (int ns) end))))

abbrev prime : Value
prime = object (
    field "logits_sha256" hash (
      field "cache_state" hash (field "state" (state_at 72 5) (field "routes" (routes_at 72) end))))

abbrev configured : Result Value → Value
configured (ok c) = c
configured (raise e) = null

abbrev raw : Value
raw = object (
    field "kind" (str "perfect_draft_probe_v1") (
      field "complete" (bool true) (
        field "prime_expert_schedule" (str "fixed-lease-batches-32") (
          field "validation" (bool true) (
            field "width" (int 4) (
              field "verified_tokens" (int 4) (
                field "configuration" (configured (configuration 4 (int 1072))) (
                  field "runtime_kernel_policy" (str "decode token_tile=width; q8r2 atT1") (
                    field "input_sha256" hash (
                      field "artifact_revision" (str "r") (
                        field "prepared_manifest_sha256" (str "m") (
                          field "route_audit_enabled" (bool true) (
                            field "optimistic_upper_bound_only" (bool true) (
                              field "normal_request_latency_qualified" (bool false) (
                                field "production_promoted" (bool false)
                                  (field "setup_ns" (int 7) rest))))))))))))))))
  where
    ending : Fields
    ending =
        field "rollback_checks"
          (list (
            as_items (
              passed "causal_prefix_unchanged"
              ∷ passed "zero_accept_restores_state"
              ∷ passed "accepted_prefix_replay_1"
              ∷ passed "accepted_prefix_replay_2"
              ∷ passed "accepted_prefix_replay_3"
              ∷ [])))
          (field "process_after_destroy" (process 512)
            (field "host_before" (host_at 1) (field "host_after" (host_at 2) end)))

    rest : Fields
    rest = field "memory_plan" plan (
        field "snapshot_allocated_bytes" (int 100) (
          field "host_logits_bound_bytes" (int 4000000) (
            field "before" (boundary 1) (
              field "after" (boundary 4) (
                field "prime" prime (
                  field "blocks" (list (as_items (block ∷ []))) (
                    field "final_state" (state_at 76 6) (
                      field "decode_wall_ns" (int 20)
                        (field "verified_tokens_per_second" (int 200000000) ending)))))))))

abbrev answered : Result Answer
answered = observe probe end raw frozen recorded_work 4 Bool.true hash (int 1072)

abbrev is_clean_run : Result Answer → Bool
is_clean_run (ok a) = a.clean_host
is_clean_run (raise e) = false

observe_accepted : (is_ok answered ≡ true) × (is_clean_run answered ≡ true)
unfolding digits find at get_key get_default iterate are_uint same is_set_of is_member are_members
    are_hashable is_truthy all_of has counts size_of minus is_equal is_above agree is_below
    check_budget check_machine chosen check_choices check_schedule shape_of check_kernels
    check_configuration value_above value_minus value_plus configuration valid_sha256 ids valid_work
    observed block_values processes process_of largest memory_observation is_buffer are_buffers
    bytes_of all_bytes expected_bytes check_layer check_layers check_state row_layers are_rows
    check_routes value_up_to check_scope check_workspace replaced check_idle check_endpoint
    check_endpoints read_prime counts_rows are_hashes check_block check_point read_times
    endpoints_of on_block on_blocks get_each replay_names expected_checks check_rollback
    is_clean_host clean_hosts last_of check_total read_blocks answer_of observe_blocks check_end
    observe take drop all filter sum_of sorted_set insert_number item
observe_accepted = (refl, refl)

observe-IsContinued_example : IsContinued true 4 (ok_of answered observe_accepted.0).0
observe-IsContinued_example =
    observe-IsContinued probe end raw frozen recorded_work 4 Bool.true hash (int 1072)
      (ok_of answered observe_accepted.0).1

observe-IsGreedy_example : IsGreedy raw recorded_work true
observe-IsGreedy_example =
    observe-IsGreedy probe end raw frozen recorded_work 4 Bool.true hash (int 1072)
      (ok_of answered observe_accepted.0).1
