-- ===== src/Capture/Rows.antt =====
-- The checks of a row's state in `validate` of scripts/qwen/benchmark_exact.py.
use zerocool.Prelude.{
  ℕ, ◌*◌, ◌^◌, Bool, true, false, not, List, [], ◌∷◌, String, if◌then◌else◌, Result, ok, ◌>>=◌,
  ◌>>◌,
}
use zerocool.Json.{
  Value, bool, int, str, object, end, at, get_key, get_default, has_key, is_truthy, is_text, same,
}
use zerocool.Json.Numbers.{Floats, ◌&?◌, ◌|?◌, all_of, check, refuse, lacks, has}
use zerocool.Capture.Machine.{Host, is_equal, is_above}
use zerocool.Capture.Configuration.{Choice, chosen, shape_of}
use zerocool.Capture.Phases.{Others, validate_phase_memory}

-- What the host does with floats and values of other types.
pub record Bench : Type 0 where
  pub host : Host
  pub others : Others
  pub floats : Floats
  -- `v + w`, where not both are natural numbers
  pub add : Value → Value → Result Value
  -- `v / n`
  pub divide : Value → ℕ → Result Value

-- `bool(v)`
abbrev pub truth : Bench → Value → Bool
truth bench v = is_truthy (λ s. bench.host.equals s 0) v

-- `d.get(k)` as a truth
unfoldable pub holds : Bench → String → Value → Result Bool
holds bench k d = do v ← get_key k d; ok (truth bench v)

-- `d[k] != v`
unfoldable pub differs : String → Value → Value → Result Bool
differs k v d = do w ← at k d; ok (not (same w v))

-- `d[k] != n`, also for a float
unfoldable pub differs_from : Bench → String → ℕ → Value → Result Bool
differs_from bench k n d = do w ← at k d; ok (not (is_equal bench.host w n))

-- `d[k] > n`
unfoldable pub exceeds : Bench → String → ℕ → Value → Result Bool
exceeds bench k n d = do v ← at k d; is_above bench.host n v

unfoldable pub check_mode : Bench → Value → Value → Result (Unit {0})
check_mode bench row state =
    refuse
      ((do v ← get_key "repetition" row; ok (not (is_equal bench.host v 0)))
        |? holds bench "profiling_enabled" row
        |? lacks "gpu_reference_mode" (str "off") (str "off") row
        |? (do v ← at "diagnostic_stream_trunk" state; ok (truth bench v)))
      "Warm repetitions or diagnostic timing cannot qualify"

-- `state.get(k) == config[c]`
unfoldable pub is_scheduled : Value → Value → String × String → Result Bool
is_scheduled state config (k, c) = do v ← get_key k state; w ← at c config; ok (same v w)

unfoldable pub check_timetable : Bench → Value → Value → Result (Unit {0})
check_timetable bench state config =
    check
      (holds bench "completion_pipeline" state
        &? all_of (is_scheduled state config) (
            ("chunk_tokens", "chunk")
            ∷ ("ready_group", "ready_group")
            ∷ ("io_workers", "io_workers")
            ∷ []))
      "Execution schedule changed"

-- the machine, the build and the artifact
unfoldable pub check_native : Bench → Value → Value → Value → Value → Result (Unit {0})
check_native bench state machine build revision = do
  refuse
      (differs "device" (str "Apple M1 Pro") machine
        |? differs_from bench "physical_bytes" (32 * 1024 ^ 3) machine)
      "Requires actual 32GiB M1 Pro"
  refuse (differs "build_fingerprint" build machine |? differs "artifact_revision" revision state)
      "Native build or artifact changed"

-- the memory plans of the row, and its process
unfoldable pub check_plans : Bench → Value → Value → Value → Value → ℕ → Result (Unit {0})
check_plans bench row state plan config budget = do
  refuse
      (differs_from bench "limit_bytes" budget plan
        |? exceeds bench "planned_bytes" budget plan
        |? (do v ← at "panel_tokens" plan; w ← at "panel" config; ok (not (same v w))))
      "Requested budget or panel was not admitted"
  refuse
      (((do fixed ← lacks "phase_memory" (str "fixed") (str "fixed") config; ok (not fixed)) &? (do
        v ← at "expert_slots" plan
        before ← at "before" row
        plan_before ← at "memory_plan" before
        differs "expert_slots" v plan_before))
        |? (do
          process ← at "process" state
          exceeds bench "physical_footprint_bytes" budget process))
      "Cache resized or process exceeded budget"
  before ← at "before" row
  plan_before ← at "memory_plan" before
  refuse (differs_from bench "limit_bytes" budget plan_before) "Budget changed during request"
  validate_phase_memory bench.host bench.others row config budget

abbrev named : String → String → Value → Choice
named option key default = record { option = option; key = key; default = default }

-- `v.get(k, default) == config.get(c, default)` of all in a table
abbrev pub all_chosen : Value → Value → List Choice → Result Bool
all_chosen d config choices = all_of (λ c. chosen c.default d config c) choices

abbrev pub execution_table : List Choice
execution_table =
    named "cache_policy" "cache_policy" (str "clock")
    ∷ named "decode_path" "decode_path" (str "reference")
    ∷ named "prefill_pipeline" "prefill_pipeline" (str "serial")
    ∷ named "phase_memory" "phase_memory" (str "fixed")
    ∷ named "sparse_selection" "sparse_selection" (str "cpu")
    ∷ []

-- the residency is that of the configuration, where `auto` leaves two
unfoldable pub is_resident : Value → Value → Result Bool
is_resident execution config = do
  residency ← get_default "residency" (str "auto") config
  v ← get_default "residency" (str "off") execution
  ok (
      if is_text "auto" residency
      then (if is_text "core-cache" v then true else is_text "off" v)
      else same v residency)

-- `config.get(k, "on") == "on"`, for an option that is on by default
unfoldable pub is_on : String → Value → Value → Result Bool
is_on k default config = do v ← get_default k default config; ok (is_text "on" v)

-- the answer is `execution`
unfoldable pub check_candidate : Bench → Value → Value → Value → Result Value
check_candidate bench state plan config = do
  execution ← get_default "execution" (object end) state
  replay ← get_default "cached_token_replay" (bool false) execution
  refuse (ok (truth bench replay)) "Cached replay cannot qualify normal requests"
  check (all_chosen execution config execution_table) "Execution candidate changed"
  check (is_resident execution config) "Execution candidate changed"
  refuse
      (ok (has_key "gpu_warm" state) &? (do
        v ← at "gpu_warm" state
        on ← is_on "gpu_warm" (str "on") config
        ok (not (same v (bool on)))))
      "GPU keep-warm changed"
  refuse
      (holds bench "expert_slots" config
        &? (do v ← at "expert_slots" plan; w ← at "expert_slots" config; ok (not (same v w))))
      "Fixed expert capacity changed"
  ok execution

-- `kernels[runtime] == config[key]`
unfoldable pub is_kernel : Value → Value → String × String → Result Bool
is_kernel kernels config (key, runtime) = do
  v ← at runtime kernels
  w ← at key config
  ok (same v w)

-- `kernels.get(k) == config.get(k, default)`
unfoldable pub is_staged : Value → Value → String × ℕ → Result Bool
is_staged kernels config (k, default) = do
  v ← get_key k kernels
  w ← get_default k (int default) config
  ok (same v w)

unfoldable pub check_routing : Value → Value → Result (Unit {0})
check_routing kernels config = do
  let current = has_key "q4_rows" kernels
  v ← get_default "route_selection" (str "serial") kernels
  w ← get_default "route_selection" (str (if current then "simd" else "serial")) config
  check (ok (same v w)) "Route selection changed"
  refuse
      (ok current &? (do
        v ← at "q4_rows" kernels
        on ← is_on "q4_rows" (str "on") config
        ok (not (same v (bool on)))))
      "Q4 row kernels changed"

unfoldable pub check_variants : Value → Value → Result (Unit {0})
check_variants kernels config = do
  check
      (chosen (str "full") kernels config
        (named "attention_score_tiles" "attention_score_tiles" (str "full")))
      "Attention score tiles changed"
  check (chosen (int 0) kernels config (named "q8_decode_rows" "q8_decode_rows" (int 0)))
      "Q8 decode variant changed"
  check (chosen (str "reference") kernels config (named "q4_decode" "q4_decode" (str "reference")))
      "Q4 decode variant changed"
  check
      (all_of (is_kernel kernels config)
        (("kernel_policy", "policy") ∷ ("token_tile", "token_tile") ∷ ("gdn_path", "gdn") ∷ []))
      "Kernel configuration changed"
  check
      (chosen (int 1) kernels config (named "affine_rows" "affine_rows" (int 1)) &? (do
        pair ← get_default "gate_pair" (bool false) kernels
        on ← is_on "gate_pair" (str "off") config
        ok (same pair (bool on))))
      "Affine variant changed"

-- the kernels of the row
unfoldable pub check_kernels : Bench → Value → Value → Result (Unit {0})
check_kernels bench machine config = do
  kernels ← at "kernels" machine
  check_routing kernels config
  check_variants kernels config
  shape ← shape_of bench.host config
  check (has "shape_table" shape kernels) "Shape selection changed"
  check (all_of (is_staged kernels config) (("gdn_rows", 4) ∷ ("gdn_block", 8) ∷ []))
      "GDN staging geometry changed"
