-- ===== src/Arrivals/Captures.antt =====
-- A capture of one cycle: in each batch, two hits and six misses in two commands of four.
use zerocool.Prelude.{
  ℕ, zero, suc, ◌+◌, ◌*◌, ◌≡◌, refl, true, Option, none, some, List, [], ◌∷◌, map, ◌==◌, nat_eq,
  string_eq, ltb, Result, ok, is_ok, ok_of, item, filter, sum_of, all, sorted_set, insert_number,
  if◌then◌else◌,
}
use zerocool.Json.{
  Value, int, float, str, list, object, end, field, as_items, find, at, get_key, has_key, same,
  same_items,
}
use zerocool.Json.Numbers.{all_of, has, counts, minus}
use zerocool.Arrivals.Events.{
  index_from, index_at, index_of, indices_of, holds_index, covers, read_stamps, found_index,
  read_event, check_event, on_events, holds_number,
}
use zerocool.Arrivals.Commands.{interval_of, command_of, commands_at, overlaps_after, experts_of}
use zerocool.Arrivals.Shared.{Times}
use zerocool.Arrivals.Batches.{
  Capture, Batch, Captured, range_from, hit_indices, batch_records, check_bounds, check_sums,
  check_waits, join, on_batch, places, keys_of, are_places, on_batches, is_at, conclude,
  trace_batches,
}
use zerocool.Arrivals.Covered.{trace_batches-experts_of, on_batches-hands_over, hands_over}

abbrev times : Times
times = record {
  floats = record { is_zero = λ s. s == "0.0"; is_positive = λ s. true; plus = λ s n. float s };
  nanoseconds = λ v. 0;
}

abbrev capture : Capture
capture = record {
  group = 4;
  hits = 2;
  records = map (λ i. (i, i)) (range_from 0 8);
  variant = none;
}

unfoldable position : ℕ → ℕ
position zero = 9
position (suc zero) = 1
position (suc (suc zero)) = 7
position (suc (suc (suc zero))) = 3
position (suc (suc (suc (suc zero)))) = 5
position (suc (suc (suc (suc (suc zero))))) = 0
position (suc (suc (suc (suc (suc (suc zero)))))) = 8
position i = 4

abbrev event : ℕ → ℕ → Value
event batch i =
    let base = 100 * batch in
    let half = if ltb i 4 then 0 else 1 in
    let hit = holds_number i (hit_indices 2 batch) in
    object (
      field "layer" (int i) (
        field "expert" (int i) (
          field "position" (int (position i)) (
            field "acquisition" (str (if hit then "ready_hit" else "new_miss")) (
              field "read_queued_ns" (int (base + 1)) (
                field "read_started_ns" (int (base + 2)) (
                  field "read_completed_ns" (int (base + 4)) (
                    field "admitted_ns" (int (base + 5)) (
                      field "encoded_ns" (int (base + 6)) (
                        field "submitted_ns" (int (base + 10 + half)) (
                          field "gpu_start_ns" (int (base + 20 + half)) (
                            field "gpu_end_ns" (int (base + 30))
                              (field "released_ns" (int (base + 40)) end)))))))))))))

abbrev timing : ℕ → Value
timing batch = object (
    field "records" (list (as_items (map (event batch) (range_from 0 8)))) (
      field "ready_hits" (int 2) (
        field "new_misses" (int 6) (
          field "loading_joins" (int 0) (
            field "peak_leases" (int 8) (
              field "peak_gpu_groups" (int 2) (
                field "duration_ns" (int 35) (
                  field "read_queue_sum_ns" (int 6) (
                    field "read_service_sum_ns" (int 12) (
                      field "ready_to_encode_sum_ns" (int 8) (
                        field "ready_to_gpu_sum_ns" (int 124) (
                          field "gpu_execution_sum_ns" (int 19)
                            (field "coordinator_wait_ns" (int 3) end)))))))))))))

abbrev batch_row : ℕ → Value
batch_row batch = object (
    field "cycle" (int 0) (
      field "batch" (int batch) (
        field "hit_indices" (list (as_items (map int (hit_indices 2 batch))))
          (field "timing" (timing batch) end))))

abbrev rows : List Value
rows = map batch_row (range_from 0 8)

abbrev sample : Value
sample = object (
    field "batches" (list (as_items rows)) (
      field "submissions" (int 16)
        (field "gpu_command_ns" (int 152) (field "coordinator_wait_ns" (int 24) end))))

abbrev captured : Result Captured
captured = trace_batches times capture 1 sample

abbrev looped : Result (List Batch)
looped = on_batches times capture 0 (places 0 1) rows

abbrev pairs_in : Result Captured → Option (ℕ × List (ℕ × ℕ))
pairs_in (ok r) = some (r.overlap_pairs, r.occupancy_histogram)
pairs_in m = none

captured_accepted :
    (is_ok captured ≡ true) × (pairs_in captured ≡ some (8, (4, 16) ∷ [])) × (is_ok looped ≡ true)
unfolding trace_batches keys_of are_places places range_from on_batches on_batch batch_records
    covers indices_of index_of index_at index_from holds_index check_bounds check_sums check_waits
    join on_events read_event found_index read_stamps check_event commands_at command_of interval_of
    overlaps_after conclude is_at has counts all_of minus get_key at find has_key same same_items
    item filter sum_of all sorted_set insert_number position
captured_accepted = (refl, refl, refl)

trace_batches-experts_of_example :
    (experts_of (ok_of captured captured_accepted.0).0.commands
      ≡ (ok_of captured captured_accepted.0).0.captured_experts)
    × ((ok_of captured captured_accepted.0).0.captured_experts ≡ 1 * 64)
trace_batches-experts_of_example =
    trace_batches-experts_of times capture 1 sample (ok_of captured captured_accepted.0).1

on_batches-hands_over_example : hands_over 0 (ok_of looped captured_accepted.2).0 ≡ true
on_batches-hands_over_example =
    on_batches-hands_over times capture 0 (places 0 1) rows (ok_of looped captured_accepted.2).1
