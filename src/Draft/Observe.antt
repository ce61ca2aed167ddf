-- ===== src/Draft/Observe.antt =====
-- `observe` of scripts/qwen/perfect_draft.py, and the hosts of its memory_observation. The fraction
-- of tokens in a second is left out.
use zerocool.Prelude.{
  ℕ, ◌/◌, Bool, true, false, not, ◌&&◌, List, [], ◌∷◌, ◌==◌, nat_eq, string_eq, if◌then◌else◌,
  Result, ok, raise, index_error, ◌>>=◌, ◌>>◌, require, sum_of,
}
use zerocool.Json.{
  Value, negative, int, float, str, list, nil, object, Fields, end, at, get_key, get_default,
  iterate, is_false, is_uint, number, elements, same,
}
use zerocool.Json.Numbers.{◌&?◌, check, has, counts, size_of}
use zerocool.Capture.Machine.{is_equal}
use zerocool.Draft.Work.{Work, valid_work}
use zerocool.Draft.Memory.{Memory, memory_observation}
use zerocool.Draft.Compare.{Observed}
use zerocool.Draft.Probe.{
  Probe, value_up_to, is_exactly, total_of, check_scope, check_workspace, check_endpoints,
  read_prime,
}
use zerocool.Draft.Blocks.{Loop, on_blocks}
use zerocool.Draft.Execution.{check_rollback, check_execution}

abbrev pub is_source : Value → Bool
is_source (str s) = not (s == "")
is_source _ = false

-- the host was cool, on full power, and says when
unfoldable pub is_clean_host : Probe → Value → Result Bool
is_clean_host probe h =
    counts (λ v. is_equal probe.host v 0) "thermal_state" h
    &? counts is_false "low_power_mode" h
    &? counts is_source "power_source" h
    &? counts is_uint "monotonic_ns" h

-- `clean_host`
unfoldable pub clean_hosts : Probe → Value → Result Bool
clean_hosts probe raw = do
  before ← get_default "host_before" (object end) raw
  after ← get_default "host_after" (object end) raw
  clean ← is_clean_host probe before &? is_clean_host probe after
  source ← get_key "power_source" before
  source_after ← get_key "power_source" after
  kept ← ok (same source source_after) &? (do
    earlier ← get_default "monotonic_ns" (int 0) before
    later ← get_default "monotonic_ns" (negative 0) after
    value_up_to probe earlier later)
  ok (clean && kept)

-- `blocks[-1]`
unfoldable pub last_of : List Value → Result Value
last_of [] = raise index_error
last_of (v ∷ []) = ok v
last_of (v ∷ w ∷ vs) = last_of (w ∷ vs)

-- `type(v) in (int, float)`
abbrev pub is_real : Value → Bool
is_real (int n) = true
is_real (negative n) = true
is_real (float s) = true
is_real _ = false

-- the blocks make up the report's final state and throughput
unfoldable pub check_total : Probe → Value → List Value → ℕ → ℕ → Result (Unit {0})
check_total probe raw blocks total wall =
    check
      ((do final ← get_key "final_state" raw; last ← last_of blocks; is_exactly "state" final last)
        &? has "decode_wall_ns" (int wall) raw
        &? counts is_real "verified_tokens_per_second" raw
        &? (do v ← at "verified_tokens_per_second" raw; probe.reconciles v total wall))
      "Final state or measured throughput does not reconcile"

-- `blocks`, as many as the total asks for
unfoldable pub read_blocks : Value → ℕ → Result (List Value)
read_blocks raw rounds = do
  value ← get_default "blocks" (list nil) raw
  n ← size_of value
  require (n == rounds) "Missing or duplicated verification block"
  iterate value

-- the answer
pub record Answer : Type 0 where
  pub observed : Observed
  pub decode_wall_ns : ℕ
  pub checkpoint_ns : ℕ
  pub forward_ns : ℕ
  pub accept_ns : ℕ
  pub setup_ns : Value
  pub memory : Memory
  pub clean_host : Bool

-- the answer of the checked parts
unfoldable pub answer_of : Probe → Value → ℕ → Bool → Value → Loop → Result Answer
answer_of probe raw width validation prime s = do
  memory ← memory_observation raw
  clean_host ← clean_hosts probe raw
  snapshot ← at "snapshot_allocated_bytes" raw
  bound ← at "host_logits_bound_bytes" raw
  setup ← at "setup_ns" raw
  checks ← at "rollback_checks" raw
  ok (record {
    observed = record {
      width = width;
      validation = validation;
      verified_tokens = total_of validation;
      prime = prime;
      row_logits = s.hashes;
      snapshot_allocated_bytes = number snapshot;
      host_logits_bound_bytes = number bound;
      endpoints = s.endpoints;
      rollback_checks = elements checks;
    };
    decode_wall_ns = s.wall;
    checkpoint_ns = sum_of (λ t. t.checkpoint) s.times;
    forward_ns = sum_of (λ t. t.forward) s.times;
    accept_ns = sum_of (λ t. t.accept) s.times;
    setup_ns = setup;
    memory = memory;
    clean_host = clean_host;
  })

-- the blocks of a report whose frame is checked
unfoldable pub observe_blocks : Value → Work → Value → ℕ → Bool → Result (List Value × Loop)
observe_blocks raw work revision width validation = do
  blocks ← read_blocks raw (total_of validation / width)
  s ←
      on_blocks work revision validation width 0 blocks
        (record { hashes = []; endpoints = []; wall = 0; times = [] })
  ok (blocks, s)

-- the checks behind the loop
unfoldable pub check_end : Probe → Value → ℕ → Bool → List Value → ℕ → Result (Unit {0})
check_end probe raw width validation blocks wall = do
  check_total probe raw blocks (total_of validation) wall
  check_rollback raw validation width
  if validation then ok tt else check_execution probe raw width (total_of validation / width)

unfoldable pub observe :
    Probe → Fields → Value → Value → Value → ℕ → Bool → Value → Value → Result Answer
observe probe config raw frozen given width validation input slots = do
  work ← valid_work given
  check_scope raw frozen width validation input slots
  plan ← at "memory_plan" raw
  check_workspace probe raw plan slots
  check_endpoints probe raw frozen config plan width
  revision ← at "artifact_revision" frozen
  prime ← read_prime probe raw work revision
  (blocks, s) ← observe_blocks raw work revision width validation
  check_end probe raw width validation blocks s.wall
  answer_of probe raw width validation prime s
