-- ===== src/Draft/Probe.antt =====
-- `observe` of scripts/qwen/perfect_draft.py up to its blocks: the scope of the report, its memory
-- plan, the two states and the prompt's end.
use zerocool.Prelude.{
  ℕ, ◌*◌, ◌^◌, Bool, true, false, ◌&&◌, String, ◌==◌, string_eq, if◌then◌else◌, ltb, leb, Result,
  ok, ◌>>=◌, ◌>>◌,
}
use zerocool.Json.{
  Value, int, str, object, Fields, end, field, at, get_default, is_true, is_false, is_uint,
  is_truthy, number, same,
}
use zerocool.Json.Numbers.{◌&?◌, check, has, counts}
use zerocool.Capture.Machine.{Host, check_machine}
use zerocool.Capture.Configuration.{check_configuration}
use zerocool.Capture.Phases.{Others, value_plus}
use zerocool.Draft.Work.{Work, configuration, valid_sha256, vocab}
use zerocool.Draft.Memory.{budget}
use zerocool.Draft.State.{check_state, check_routes}

-- What the host does with floats and values of other types.
pub record Probe : Type 0 where
  pub host : Host
  pub others : Others
  -- `v <= w`, where not both are natural numbers
  pub up_to : Value → Value → Result Bool
  -- `math.isfinite(v) and math.isclose(v, total*1e9/wall, rel_tol=1e-10)`
  pub reconciles : Value → ℕ → ℕ → Result Bool

-- `v <= w`
unfoldable pub value_up_to : Probe → Value → Value → Result Bool
value_up_to probe (int a) (int b) = ok (leb a b)
value_up_to probe v w = probe.up_to v w

-- `d[k] == v`
abbrev pub is_exactly : String → Value → Value → Result Bool
is_exactly k v d = do w ← at k d; ok (same w v)

-- `total`
abbrev pub total_of : Bool → ℕ
total_of validation = if validation then 4 else 16

-- `raw.get(k) is validation`
abbrev pub is_bit : Bool → Value → Bool
is_bit true v = is_true v
is_bit false v = is_false v

abbrev pub is_positive_uint : Value → Bool
is_positive_uint v = is_uint v && ltb 0 (number v)

-- `raw.get(k) == frozen[k]`
abbrev pub has_own : String → Value → Value → Result Bool
has_own k frozen raw = do v ← at k frozen; has k v raw

-- the report is that of the run asked for
unfoldable pub check_scope : Value → Value → ℕ → Bool → Value → Value → Result (Unit {0})
check_scope raw frozen width validation input slots =
    check
      (has "kind" (str "perfect_draft_probe_v1") raw
        &? counts is_true "complete" raw
        &? has "prime_expert_schedule" (str "fixed-lease-batches-32") raw
        &? counts (is_bit validation) "validation" raw
        &? has "width" (int width) raw
        &? has "verified_tokens" (int (total_of validation)) raw
        &? (do c ← configuration width slots; has "configuration" c raw)
        &? has "runtime_kernel_policy" (str "decode token_tile=width; q8r2 atT1") raw
        &? has "input_sha256" input raw
        &? has_own "artifact_revision" frozen raw
        &? has_own "prepared_manifest_sha256" frozen raw
        &? counts is_true "route_audit_enabled" raw
        &? counts is_true "optimistic_upper_bound_only" raw
        &? counts is_false "normal_request_latency_qualified" raw
        &? counts is_false "production_promoted" raw
        &? counts is_positive_uint "setup_ns" raw)
      "Incomplete verifier or changed scope/configuration/input"

abbrev is_snapshot : Value → Bool
is_snapshot v = is_positive_uint v && leb (number v) (128 * 1024 ^ 2)

abbrev is_logits_bound : Value → Bool
is_logits_bound v = is_uint v && leb (4 * vocab * 4) (number v)

-- the plan, the snapshots and the logits are within the budget
unfoldable pub check_workspace : Probe → Value → Value → Value → Result (Unit {0})
check_workspace probe raw plan slots =
    check
      (has "limit_bytes" (int budget) plan
        &? has "expert_slots" slots plan
        &? has "panel_tokens" (int 512) plan
        &? counts is_snapshot "snapshot_allocated_bytes" raw
        &? counts is_logits_bound "host_logits_bound_bytes" raw
        &? (do
          planned ← at "planned_bytes" plan
          snapshot ← at "snapshot_allocated_bytes" raw
          with_snapshot ← value_plus probe.others planned (number snapshot)
          bound ← at "host_logits_bound_bytes" raw
          all ← value_plus probe.others with_snapshot (number bound)
          value_up_to probe all (int budget)))
      "Snapshot/logit workspace is unaccounted or outside the fixed budget"

-- `dict(d, k=v)`
unfoldable pub replaced : String → Value → Fields → Fields
replaced k v end = field k v end
replaced k v (field j w fs) =
    let rest = replaced k v fs in if j == k then field j v fs else field j w rest

-- no user is left, and the workspace, the residency and the instruments are as they were
unfoldable pub check_idle : Probe → Value → Value → Result (Unit {0})
check_idle probe plan state = do
  metal ← at "metal" state
  residency ← at "residency" metal
  kernels ← at "kernels" metal
  check
      (is_exactly "memory_plan" plan state
        &? counts is_false "diagnostic_stream_trunk" state
        &? is_exactly "live_command_groups" (int 0) metal
        &? (do peak ← at "peak_command_groups" metal; value_up_to probe peak (int 2))
        &? counts is_true "completion_pipeline" state
        &? counts is_false "profile" kernels
        &? counts is_false "counter_profile" kernels
        &? counts is_false "profile_decode_only" kernels
        &? is_exactly "mode" (str "core-cache") residency
        &? is_exactly "pending_retirements" (int 0) residency
        &? (do
          classes ← at "bytes_by_class" residency
          expert ← at "expert" classes
          planned ← at "expert_bytes" plan
          ok (same expert planned)))
      "Outstanding users, changed workspace, residency or instrumentation"

-- a round of the loop over the two states, at a tile; `config` is `configs()[0]` of combined_q4.py
unfoldable pub check_endpoint : Probe → Value → Fields → Value → Value → ℕ → Result (Unit {0})
check_endpoint probe frozen config plan state tile = do
  check_machine probe.host budget state frozen
  check_configuration probe.host state (object (replaced "token_tile" (int tile) config))
  check_idle probe plan state

-- the loop
unfoldable pub check_endpoints : Probe → Value → Value → Fields → Value → ℕ → Result (Unit {0})
check_endpoints probe raw frozen config plan width = do
  before ← at "before" raw
  after ← at "after" raw
  check_endpoint probe frozen config plan before 1
  check_endpoint probe frozen config plan after width

-- `prime`, which is checked
unfoldable pub read_prime : Probe → Value → Work → Value → Result Value
read_prime probe raw work revision = do
  prime ← get_default "prime" (object end) raw
  check
      (counts valid_sha256 "logits_sha256" prime
        &? counts valid_sha256 "cache_state" prime
        &? counts (is_truthy (λ s. probe.host.equals s 0)) "state" prime
        &? counts (is_truthy (λ s. probe.host.equals s 0)) "routes" prime)
      "Missing prompt logits, state or route identity"
  state ← at "state" prime
  check_state state work 0 revision
  routes ← at "routes" prime
  check_routes routes 0
  ok prime
