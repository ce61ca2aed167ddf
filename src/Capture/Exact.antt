-- ===== src/Capture/Exact.antt =====
-- The loop of `validate` of scripts/qwen/benchmark_exact.py over the rows of a report.
use zerocool.Prelude.{ℕ, not, List, [], ◌∷◌, if◌then◌else◌, Result, ok, ◌>>=◌, ◌>>◌, require}
use zerocool.Json.{
  Value, null, str, list, nil, at, get_key, get_default, iterate, is_true, is_null, is_text,
}
use zerocool.Json.Numbers.{◌&?◌, ◌|?◌, check, refuse, lacks, has, counts, first_of}
use zerocool.Capture.Machine.{fixed_sampling}
use zerocool.Capture.Rows.{
  Bench, truth, holds, check_mode, check_timetable, check_native, check_plans, check_candidate,
  check_kernels,
}
use zerocool.Capture.Benchmark.{
  Expected, Signature, signature_of, admit, check_primed, check_generated, observation_of,
}

-- a row's name and signature
unfoldable pub identity_of : Value → Result (Value × Signature)
identity_of row = do
  state ← at "after" row
  name ← at "name" row
  signature ← signature_of row state
  ok (name, signature)

-- the report is of a whole run without probes; the answer is its rows
unfoldable pub check_report : Bench → Value → Value → Result (List Value)
check_report bench report revision = do
  refuse
      (lacks "gpu_reference_mode" (str "off") (str "off") report
        |? holds bench "gpu_references" report)
      "GPU boundary probes cannot qualify normal timing"
  check (counts is_true "complete" report &? has "model_revision" revision report)
      "Incomplete or changed artifact"
  sampling ← get_key "sampling" report
  require (fixed_sampling bench.host sampling) "Changed or missing sampling settings"
  rows ← get_default "runs" (list nil) report
  check
      (ok (truth bench rows) &? (do
        first ← first_of rows
        has "runtime_cache_state" (str "empty_at_process_start") first))
      "Conversation did not start with empty runtime caches"
  iterate rows

module _ (bench : Bench) (config : Value) (budget output : ℕ) where
  -- the checks of a row's state; the answer is `execution`
  unfoldable pub check_state : Value → Value → Value → Value → Value → Value → Result Value
  check_state row state plan machine build revision = do
    check_mode bench row state
    check_timetable bench state config
    check_native bench state machine build revision
    check_plans bench row state plan config budget
    execution ← check_candidate bench state plan config
    check_kernels bench machine config
    ok execution

  -- a row behind its checks: a row that only primes leaves the observation as it was
  unfoldable pub observe_row : Value → Value → Value → Value → Value → Value → Value → Result Value
  observe_row row state plan machine execution name last = do
    reason ← at "finish_reason" row
    if is_text "primed" reason then (do check_primed bench row; ok last) else (do
      check_generated bench output name row
      observation_of bench output name row state plan machine execution)

  -- a round of the loop, with the observation so far and `expected`
  unfoldable pub on_row : Value → Value × Expected → Result (Value × Expected)
  on_row row (last, e) = do
    state ← at "after" row
    plan ← at "memory_plan" state
    machine ← at "metal" state
    execution ← check_state row state plan machine e.build e.revision
    (name, signature) ← identity_of row
    e' ← admit name signature e
    observation ← observe_row row state plan machine execution name last
    ok (observation, e')

  unfoldable pub on_rows : List Value → Value × Expected → Result (Value × Expected)
  on_rows [] s = ok s
  on_rows (row ∷ rows) s = do s' ← on_row row s; on_rows rows s'

  unfoldable pub validate : Value → Expected → Result (Value × Expected)
  validate report e = do
    rows ← check_report bench report e.revision
    (observation, e') ← on_rows rows (null, e)
    require (not (is_null observation)) "No generated request"
    ok (observation, e')
