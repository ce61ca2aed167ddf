-- ===== src/Capture/Benchmark.antt =====
-- `validate` of scripts/qwen/benchmark_exact.py: the checks of a report, and what it answers of its
-- last request that generated.
use zerocool.Prelude.{
  ℕ, ◌+◌, ◌-◌, Bool, false, not, ◌&&◌, ◌||◌, Option, none, some, List, [], ◌∷◌, ◌++◌, String, ◌==◌,
  nat_eq, string_eq, ltb, if◌then◌else◌, Result, ok, raise, value_error, type_error, ◌>>=◌, ◌>>◌,
}
use zerocool.Json.{
  Value, int, float, str, list, object, Fields, end, field, as_items, at, get_key, get_default,
  iterate, is_hashable, is_text, same,
}
use zerocool.Json.Numbers.{Floats, ◌&?◌, ◌|?◌, all_of, check, refuse, counts, size_of}
use zerocool.Capture.Phases.{value_minus}
use zerocool.Capture.Rows.{Bench, differs, differs_from}

-- `signature`
pub record Signature : Type 0 where
  pub prepared : Value
  pub prompt : Value
  pub reused : Value
  pub outputs : List Value

abbrev pub same_signature : Signature → Signature → Bool
same_signature s t =
    same s.prepared t.prepared
    && same s.prompt t.prompt
    && same s.reused t.reused
    && same (list (as_items s.outputs)) (list (as_items t.outputs))

-- `expected`, which holds the build, the revision, and what validate has put into it
pub record Expected : Type 0 where
  pub build : Value
  pub revision : Value
  pub signatures : List (Value × Signature)

unfoldable pub lookup : Value → List (Value × Signature) → Option Signature
lookup name [] = none
lookup name ((k, s) ∷ rest) = let later = lookup name rest in if same k name then some s else later

abbrev pub message : String
message = "Changed prepared bytes, tokens, or computation reuse"

-- `expected.setdefault(name, signature) != signature`; no signature equals a build or a revision
unfoldable pub admit : Value → Signature → Expected → Result Expected
admit name s e =
    if is_hashable name
    then if is_text "build" name || is_text "revision" name
      then raise (value_error message)
      else elim (lookup name e.signatures) [
        | none ↦ ok (record e { signatures = e.signatures ++ (name, s) ∷ [] })
        | some t ↦ if same_signature t s then ok e else raise (value_error message)
      ]
    else raise type_error

unfoldable pub signature_of : Value → Value → Result Signature
signature_of row state = do
  prepared ← at "prepared" state
  manifest ← at "manifest_sha256" prepared
  prompt ← at "prompt_tokens" row
  reused ← at "reused_tokens" row
  ids ← at "output_token_ids" row
  outputs ← iterate ids
  ok (record { prepared = manifest; prompt = prompt; reused = reused; outputs = outputs })

-- a row that only primes
unfoldable pub check_primed : Bench → Value → Result (Unit {0})
check_primed bench row =
    refuse (differs_from bench "output_tokens" 0 row |? differs_from bench "prompt_tokens" 4096 row)
      "Prime must ingest exactly 4096 tokens without sampling"

-- a number that is not a Boolean, finite and above 0
abbrev pub is_timing : Floats → Value → Bool
is_timing floats (int n) = ltb 0 n
is_timing floats (float s) = floats.is_positive s
is_timing floats _ = false

unfoldable pub check_generated : Bench → ℕ → Value → Value → Result (Unit {0})
check_generated bench output name row = do
  refuse
      (differs_from bench "output_tokens" output row
        |? (do v ← at "token_latency_ms" row; n ← size_of v; ok (not (n + 1 == output)))
        |? differs "finish_reason" (str "length") row)
      "Insufficient generated tokens for comparison"
  refuse
      (ok (is_text "append_128" name)
        &? (differs_from bench "reused_tokens" 4096 row
            |? differs_from bench "prefill_tokens" 128 row
            |? differs_from bench "pending_tokens_ingested" 0 row))
      "Append does not measure exactly 4096 retained plus 128 new tokens"
  check
      (all_of (λ k. counts (is_timing bench.floats) k row)
        ("time_to_first_token_ms" ∷ "decode_wall_ms" ∷ "request_ms" ∷ "wall_tokens_per_second"
          ∷ []))
      "Normal request timing must be positive and finite"

-- `v + w`
unfoldable pub plus : Bench → Value → Value → Result Value
plus bench (int a) (int b) = ok (int (a + b))
plus bench v w = bench.add v w

-- `reads`
unfoldable pub reads : Bench → Value → Result Value
reads bench s = do
  checkpoint ← at "checkpoint_application_read_bytes" s
  prepared ← at "prepared" s
  read ← at "application_read_bytes" prepared
  plus bench checkpoint read

-- an entry of a dict whose value may be missing, before the others
abbrev pub entry : String → Result Value → Result Fields → Result Fields
entry k m rest = do v ← m; fs ← rest; ok (field k v fs)

-- `b["metal"][k]-a["metal"][k]`
unfoldable pub grown : Bench → String → Value → Value → Result Value
grown bench k a b = do
  metal_b ← at "metal" b
  later ← at k metal_b
  metal_a ← at "metal" a
  earlier ← at k metal_a
  value_minus bench.others later earlier

unfoldable pub phase_entries : Bench → Value → Value → Result Fields
phase_entries bench a b =
    entry "application_read_bytes"
      (do later ← reads bench b; earlier ← reads bench a; value_minus bench.others later earlier)
      (entry "cache_before" (at "expert_cache" a) (
        entry "cache_after" (at "expert_cache" b) (
          entry "dependencies_before" (get_default "phase_dependencies" (object end) a) (
            entry "dependencies_after" (get_default "phase_dependencies" (object end) b) (
              entry "gpu_command_ns" (grown bench "gpu_command_ns" a b) (
                entry "cpu_encode_ns" (grown bench "cpu_encode_ns" a b) (
                  entry "cpu_gpu_wait_ns" (grown bench "cpu_gpu_wait_ns" a b) (
                    entry "device_before" (at "storage" a)
                      (entry "device_after" (at "storage" b) (ok end))))))))))

-- `phases`
unfoldable pub phases_of : Bench → Fields → Result Fields
phases_of bench end = ok end
phases_of bench (field phase snapshots fs) = do
  a ← at "before" snapshots
  b ← at "after" snapshots
  entries ← phase_entries bench a b
  rest ← phases_of bench fs
  ok (field phase (object entries) rest)

-- `d.items()`
abbrev pub entries_of : Value → Result Fields
entries_of (object fs) = ok fs
entries_of _ = raise type_error

-- `row[k][j]`
unfoldable pub within : String → String → Value → Result Value
within k j d = do v ← at k d; at j v

-- the memory and the execution of `observation`
unfoldable pub memory_entries : Value → Value → Value → Value → Result Fields
memory_entries row state machine execution =
    entry "peak_metal_bytes" (at "peak_buffer_bytes" machine) (
      entry "footprint_bytes" (within "process" "physical_footprint_bytes" state) (
        entry "memory_before" (do before ← at "before" row; get_key "process" before)
          (entry "memory_after" (at "process" state) (
            entry "residency" (get_key "residency" machine)
              (entry "execution" (ok execution) (ok end))))))

-- `observation`
unfoldable pub observation_of :
    Bench → ℕ → Value → Value → Value → Value → Value → Value → Result Value
observation_of bench output name row state plan machine execution = do
  value ← at "phases" row
  snapshots ← entries_of value
  phases ← phases_of bench snapshots
  fs ← entry "name" (ok name) (
      entry "ttft_ms" (at "time_to_first_token_ms" row) (
        entry "decode_ms_per_token" (do v ← at "decode_wall_ms" row; bench.divide v (output - 1))
          (entry "tokens_per_second" (at "wall_tokens_per_second" row) (
            entry "output_token_ids" (get_key "output_token_ids" row) (
              entry "forward_tokens_per_second" (at "tokens_per_second" row) (
                entry "request_ms" (at "request_ms" row) (
                  entry "p95_ms" (at "p95_token_ms" row) (
                    entry "expert_slots" (at "expert_slots" plan) (
                      entry "phases" (ok (object phases))
                        (memory_entries row state machine execution))))))))))
  ok (object fs)
