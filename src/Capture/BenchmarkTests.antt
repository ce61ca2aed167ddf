-- ===== src/Capture/BenchmarkTests.antt =====
-- A report of a request that primes and one that generates, validated for a benchmark.
use zerocool.Prelude.{
  ℕ, ◌*◌, ◌^◌, ◌≡◌, refl, Bool, true, false, List, [], ◌∷◌, String, ◌==◌, nat_eq, string_eq, Result,
  ok, raise, value_error, type_error, is_ok, ok_of, item,
}
use zerocool.Json.{
  Value, null, bool, int, str, float, list, object, end, field, as_items, find, at, has_key,
  get_key, get_default, is_truthy, iterate, same,
}
use zerocool.Json.Numbers.{all_of, has, counts, size_of, first_of, minus, lacks}
use zerocool.Capture.Machine.{is_equal, is_above, agree, is_below, fixed_sampling}
use zerocool.Capture.Configuration.{chosen, shape_of}
use zerocool.Capture.Phases.{value_minus, validate_phase_memory}
use zerocool.Capture.Rows.{
  Bench, holds, differs, differs_from, exceeds, check_mode, is_scheduled, check_timetable,
  check_native, check_plans, is_resident, is_on, check_candidate, is_kernel, is_staged,
  check_routing, check_variants, check_kernels,
}
use zerocool.Capture.Benchmark.{
  Expected, lookup, admit, signature_of, check_primed, check_generated, plus, reads, grown,
  phase_entries, phases_of, within, memory_entries, observation_of,
}
use zerocool.Capture.Exact.{
  check_state, observe_row, identity_of, on_row, on_rows, check_report, validate,
}
use zerocool.Capture.Signatures.{AllRecorded, Keeps, validate-AllRecorded}
use zerocool.Capture.Tests.{host}
use zerocool.Capture.PhaseTests.{others}

abbrev bench : Bench
bench = record {
  host = host;
  others = others;
  floats = record {
    is_zero = λ s. s == "0.0";
    is_positive = λ s. Bool.true;
    plus = λ s n. float s;
  };
  add = λ v w. raise type_error;
  divide = λ v n. ok v;
}

abbrev plan : Value
plan = object (
    field "limit_bytes" (int 90) (
      field "planned_bytes" (int 80)
        (field "panel_tokens" (int 512) (field "expert_slots" (int 7) end))))

abbrev metal : Value
metal = object (
    field "device" (str "Apple M1 Pro") (
      field "physical_bytes" (int (32 * 1024 ^ 3)) (
        field "build_fingerprint" (str "b") (
          field "peak_buffer_bytes" (int 5) (
            field "gpu_command_ns" (int 6) (
              field "cpu_encode_ns" (int 6) (
                field "cpu_gpu_wait_ns" (int 6) (
                  field "kernels"
                    (object (
                      field "policy" (str "reference") (
                        field "token_tile" (int 1) (
                          field "gdn" (str "original")
                            (field "gdn_rows" (int 4) (field "gdn_block" (int 8) end))))))
                    end))))))))

abbrev state : Value
state = object (
    field "memory_plan" plan (
      field "metal" metal (
        field "diagnostic_stream_trunk" (bool false) (
          field "completion_pipeline" (bool true) (
            field "chunk_tokens" (int 128) (
              field "ready_group" (int 4) (
                field "io_workers" (int 8) (
                  field "artifact_revision" (str "r") (
                    field "process" (object (field "physical_footprint_bytes" (int 70) end)) (
                      field "prepared"
                        (object (
                          field "manifest_sha256" (str "m")
                            (field "application_read_bytes" (int 3) end)))
                        (field "checkpoint_application_read_bytes" (int 4)
                          (field "expert_cache" null (field "storage" null end)))))))))))))

abbrev row : String → String → ℕ → ℕ → List Value → Value
row name reason prompt outputs ids = object (
    field "name" (str name) (
      field "repetition" (int 0) (
        field "runtime_cache_state" (str "empty_at_process_start") (
          field "before" state (
            field "after" state (
              field "prompt_tokens" (int prompt) (
                field "reused_tokens" (int 0) (
                  field "output_token_ids" (list (as_items ids)) (
                    field "finish_reason" (str reason) (
                      field "output_tokens" (int outputs) (
                        field "token_latency_ms" (list (as_items (int 9 ∷ []))) (
                          field "time_to_first_token_ms" (int 8) (
                            field "decode_wall_ms" (int 9) (
                              field "request_ms" (int 17) (
                                field "wall_tokens_per_second" (int 2) (
                                  field "tokens_per_second" (int 2) (
                                    field "p95_token_ms" (int 9) (
                                      field "phases"
                                        (object (
                                          field "decode"
                                            (object
                                              (field "before" state (field "after" state end)))
                                            end))
                                        end))))))))))))))))))

abbrev report : List Value → Value
report rows = object (
    field "complete" (bool true) (
      field "model_revision" (str "r") (
        field "sampling"
          (object (
            field "temperature" (int 0)
              (field "top_k" (int 20) (field "top_p" (float "0.95") (field "seed" (int 0) end)))))
          (field "runs" (list (as_items rows)) end))))

abbrev config : Value
config = object (
    field "chunk" (int 128) (
      field "ready_group" (int 4) (
        field "io_workers" (int 8) (
          field "panel" (int 512) (
            field "kernel_policy" (str "reference")
              (field "token_tile" (int 1) (field "gdn_path" (str "original") end)))))))

abbrev expected : Expected
expected = record { build = str "b"; revision = str "r"; signatures = [] }

abbrev validated : List Value → Result (Value × Expected)
validated rows = validate bench config 90 2 (report rows) expected

abbrev rows : List Value
rows = row "prime" "primed" 4096 0 [] ∷ row "short" "length" 5 2 (int 6 ∷ int 7 ∷ []) ∷ []

-- a name that comes again with other outputs is refused
abbrev changed_rows : List Value
changed_rows =
    row "short" "length" 5 2 (int 6 ∷ int 7 ∷ [])
    ∷ row "short" "length" 5 2 (int 6 ∷ int 8 ∷ [])
    ∷ []

rows_validated :
    (is_ok (validated rows) ≡ true)
    × (validated changed_rows
        ≡ raise (value_error "Changed prepared bytes, tokens, or computation reuse"))
unfolding find at get_key get_default is_truthy iterate same all_of has counts size_of first_of
    minus lacks is_equal is_above agree is_below fixed_sampling chosen shape_of value_minus
    validate_phase_memory holds differs differs_from exceeds check_mode is_scheduled check_timetable
    check_native check_plans is_resident is_on check_candidate is_kernel is_staged check_routing
    check_variants check_kernels lookup admit signature_of check_primed check_generated plus reads
    grown phase_entries phases_of within memory_entries observation_of check_state observe_row
    identity_of on_row on_rows check_report validate item has_key
rows_validated = (refl, refl)

validate-AllRecorded_example :
    (rs : List Value) × (check_report bench (report rows) (str "r") ≡ ok rs)
    × AllRecorded (ok_of (validated rows) rows_validated.0).0.1 rs
    × Keeps expected (ok_of (validated rows) rows_validated.0).0.1
validate-AllRecorded_example =
    validate-AllRecorded bench config 90 2 (report rows) expected
      (ok_of (validated rows) rows_validated.0).1
