-- ===== src/Arrivals/Shared.antt =====
-- `shared_trace` of scripts/qwen/q4_read_arrivals.py: the command profile of a batch with a shared
-- prelude joins the commands of its events.
use zerocool.Prelude.{
  ℕ, zero, suc, ◌+◌, ◌*◌, Bool, true, false, not, ◌&&◌, Option, none, some, List, [], ◌∷◌, ◌++◌,
  map, String, ◌==◌, nat_eq, string_eq, if◌then◌else◌, ltb, leb, length, Result, ok, raise,
  type_error, ◌>>=◌, ◌>>◌, require, all, filter, take, drop, item,
}
use zerocool.Json.{
  Value, int, float, str, object, end, as_items, at, get_key, get_default, has_key, is_list,
  is_false, is_uint, is_hashable, elements, number, same, same_items,
}
use zerocool.Json.Numbers.{Floats, ◌&?◌, has, check, all_of, counts}
use zerocool.Arrivals.Events.{Event, equal_number}
use zerocool.Arrivals.Commands.{Command, members_of}

abbrev shared_layers : List ℕ
shared_layers = 0 ∷ 16 ∷ 32 ∷ 47 ∷ 0 ∷ 16 ∷ 32 ∷ 47 ∷ []

-- SHARED_KERNELS
abbrev shared_kernels : List String
shared_kernels = "q8_gate_up" ∷ "q8_mv_packed_r2_w4" ∷ "plain_mm" ∷ []

-- `(*names, 'scatter_experts')`, with PACKED of combined_q4.py for the variant 'packed-r2'
abbrev pub routed_kernels : Bool → List String
routed_kernels packed =
    if packed
    then "q4_gate_up_packed_r2" ∷ "q4_down_packed_r2" ∷ "scatter_experts" ∷ []
    else "q4_gate_up" ∷ "q4_mm" ∷ "scatter_experts" ∷ []

-- `names*n`
abbrev repeated : List String → ℕ → List String
repeated names zero = []
repeated names (suc n) = names ++ repeated names n

-- what the host computes of a float time: `int(x*1e9)` for one that is positive and finite
pub record Times : Type 0 where
  pub floats : Floats
  pub nanoseconds : Value → ℕ

-- `[d.get(k) for d in ds]`
unfoldable pub get_all : String → List Value → Result (List Value)
get_all k [] = ok []
get_all k (d ∷ ds) = do v ← get_key k d; rest ← get_all k ds; ok (v ∷ rest)

-- `[op.get('kernel') for op in operations] == names`
unfoldable pub have_kernels : List String → List Value → Result Bool
have_kernels names operations = do
  kernels ← get_all "kernel" operations
  ok (same_items (as_items kernels) (as_items (map str names)))

-- `type(x) in (int, float) and math.isfinite(x) and x > 0`
unfoldable pub is_time : Floats → Value → Bool
is_time floats (int n) = ltb 0 n
is_time floats (float s) = floats.is_positive s
is_time floats _ = false

-- `abs(n-m) <= 2`
abbrev pub is_near : ℕ → ℕ → Bool
is_near n m = leb n (m + 2) && leb m (n + 2)

unfoldable pub check_interval : Times → Value → Command → Result (Unit {0})
check_interval times group command = do
  check
      (all_of (λ k. counts (is_time times.floats) k group)
        ("gpu_start_seconds" ∷ "gpu_end_seconds" ∷ []))
      "Missing shared GPU command timestamps"
  begins ← at "gpu_start_seconds" group
  require (is_near (times.nanoseconds begins) command.gpu_start)
      "Shared command does not join expert GPU interval"
  ends ← at "gpu_end_seconds" group
  require (is_near (times.nanoseconds ends) command.gpu_end)
      "Shared command does not join expert GPU interval"

-- the shared chain at the head of the first command
unfoldable pub check_shared : Value → List Value → Result (Unit {0})
check_shared shared_layer shared =
    check
      (have_kernels shared_kernels shared
        &? all_of (λ op. has "stage" (str "shared_expert") op &? has "layer" shared_layer op)
            shared)
      "Shared chain is absent or was reordered after routed work"

unfoldable pub check_routed : Bool → Command → List Value → Result (Unit {0})
check_routed packed command routed =
    check
      (ok (length routed == 3 * command.experts)
        &? have_kernels (repeated (routed_kernels packed) command.experts) routed
        &? all_of (has "stage" (str "routed_expert")) routed)
      "Shared command contains missing, extra or changed routed arithmetic"

-- how often a number stands in a list
abbrev pub occurrences : ℕ → List ℕ → ℕ
occurrences n ms = length (filter (λ m. m == n) ms)

-- the numbers that values equal; none where one equals no number
unfoldable pub layer_numbers : List Value → Result (Option (List ℕ))
layer_numbers [] = ok (some [])
layer_numbers (v ∷ vs) =
    if is_hashable v
    then (do
      rest ← layer_numbers vs
      ok (elim (equal_number v) [
        | none ↦ none
        | some n ↦ elim rest [ none ↦ none | some ns ↦ some (n ∷ ns) ]
      ]))
    else raise type_error

-- `Counter(layers) == Counter({k: v*3 for k, v in event_layers.items()})`
abbrev pub are_three_each : List ℕ → List ℕ → Bool
are_three_each layers events =
    all (λ n. occurrences n layers == 3 * occurrences n events) (layers ++ events)

unfoldable pub check_layers : List ℕ → List Value → Result (Unit {0})
check_layers events routed = do
  values ← get_all "layer" routed
  found ← layer_numbers values
  require (elim found [ none ↦ false | some layers ↦ are_three_each layers events ])
      "Routed profile layers disagree with expert ownership"

abbrev changed : String
changed = "Changed shared workload, reversed encoding times or per-dispatch timing"

-- an operation, encoded behind the one before it; the answer is the end of its encoding
unfoldable pub on_operation : ℕ → ℕ → ℕ → Value → Result ℕ
on_operation batch submitted previous_encode op = do
  check
      (has "tokens" (int 1) op
        &? has "offset" (int (72 + batch)) op
        &? counts is_uint "encoded_at_ns" op
        &? counts is_uint "encode_ns" op)
      changed
  begins ← at "encoded_at_ns" op
  lasts ← at "encode_ns" op
  require
      (leb previous_encode (number begins)
        && leb (number begins + number lasts) submitted
        && not (has_key "counter_index" op)
        && not (has_key "gpu_pass_ns" op)
        && not (has_key "gpu_begin_ticks" op)
        && not (has_key "gpu_end_ticks" op))
      changed
  ok (number begins + number lasts)

unfoldable pub on_operations : ℕ → ℕ → ℕ → List Value → Result ℕ
on_operations batch submitted previous_encode [] = ok previous_encode
on_operations batch submitted previous_encode (op ∷ operations) = do
  encoded ← on_operation batch submitted previous_encode op
  on_operations batch submitted encoded operations

-- what the loop over the commands uses of the batch
pub record Shared : Type 0 where
  pub batch : ℕ
  pub layer : Value
  pub packed : Bool
  -- the layers of the events that a time of submission has
  pub event_layers : ℕ → List ℕ

-- the operations of a command that are routed; the first command has the shared chain before them
unfoldable pub split_shared : Shared → Bool → List Value → Result (List Value)
split_shared s first operations =
    if first
    then (do check_shared s.layer (take 3 operations); ok (drop 3 operations))
    else ok operations

-- a round of the loop; the answer is the end of the last encoding
unfoldable pub on_group : Times → Shared → Bool → ℕ → Value → Command → Result ℕ
on_group times s first previous_encode group command = do
  check_interval times group command
  value ← get_key "operations" group
  require (is_list value) "Missing shared command operations"
  routed ← split_shared s first (elements value)
  check_routed s.packed command routed
  check_layers (s.event_layers command.submitted) routed
  on_operations s.batch command.submitted previous_encode (elements value)

-- `zip(groups, commands)`, of one length
unfoldable pub on_groups : Times → Shared → Bool → ℕ → List Value → List Command → Result (Unit {0})
on_groups times s first previous_encode (group ∷ groups) (command ∷ commands) = do
  encoded ← on_group times s first previous_encode group command
  on_groups times s false encoded groups commands
on_groups times s first previous_encode _ _ = ok tt

-- what the answer takes of the batch and its commands
pub record Joined : Type 0 where
  pub cycle : ℕ
  pub batch : ℕ
  pub shared_layer : Value
  pub submitted : Option ℕ
  pub command_count : ℕ

abbrev first_submission : List Command → Option ℕ
first_submission [] = none
first_submission (c ∷ commands) = some c.submitted

abbrev pub timing_kind : String
timing_kind = "existing command groups; mixed stages are not isolated kernel costs"

unfoldable pub shared_trace :
    Times → Bool → ℕ → ℕ → List Event → Value → List Command → Result Joined
shared_trace times packed cycle batch events v commands = do
  layer ← get_key "shared_layer" v
  expected ← item shared_layers batch
  require (same layer (int expected)) "Changed rotating shared layer"
  profile ← get_default "command_profile" (object end) v
  check
      ((do truncated ← get_key "truncated" profile; ok (is_false truncated))
        &? has "coverage" (str "all-dispatches") profile
        &? has "timing_kind" (str timing_kind) profile
        &? (do
          qualified ← get_key "normal_request_latency_qualified" profile
          ok (is_false qualified)))
      "Missing, truncated or per-dispatch shared command profile"
  groups ← get_key "command_groups" profile
  check
      (ok (is_list groups) &? (do
        submitted ← get_all "submitted_ns" (elements groups)
        ok (same_items (as_items submitted) (as_items (map (λ c. int c.submitted) commands)))))
      "Shared profile has missing, reordered or extra commands"
  let s : Shared = record {
    batch = batch;
    layer = layer;
    packed = packed;
    event_layers = λ n. map (λ e. e.layer) (members_of n events);
  }
  on_groups times s true 0 (elements groups) commands
  ok (record {
    cycle = cycle;
    batch = batch;
    shared_layer = layer;
    submitted = first_submission commands;
    command_count = length commands;
  })
