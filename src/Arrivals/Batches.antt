-- ===== src/Arrivals/Batches.antt =====
-- The loop of `trace_batches` in scripts/qwen/q4_read_arrivals.py over the captured batches.
use zerocool.Prelude.{
  ℕ, zero, suc, ◌+◌, ◌-◌, ◌*◌, ◌%◌, max, Bool, true, not, ◌&&◌, Option, none, some, List, [], ◌∷◌,
  ◌++◌, map, String, ◌==◌, nat_eq, leb, length, Result, ok, ◌>>=◌, ◌>>◌, require, sum_of, filter,
  sorted_set,
}
use zerocool.Json.{
  Value, int, list, as_items, at, get_key, has_key, is_list, is_uint, elements, number, same,
}
use zerocool.Json.Numbers.{◌&?◌, has, check, counts, minus}
use zerocool.Arrivals.Events.{
  Event, covers, on_events, queue_of, service_of, ready_encode_of, ready_gpu_of,
  ready_to_submission, read_to_submission, is_stamp,
}
use zerocool.Arrivals.Commands.{
  Command, submissions_of, commands_at, overlaps_after, gpu_of, smaller,
}
use zerocool.Arrivals.Shared.{Times, Joined, shared_trace}

-- the arguments of a capture; `variant` is there where `shared` is true, and says 'packed-r2'
pub record Capture : Type 0 where
  pub group : ℕ
  pub hits : ℕ
  -- the layer and the expert of each record
  pub records : List (ℕ × ℕ)
  pub variant : Option Bool

-- `range(n)`, from a number on
unfoldable pub range_from : ℕ → ℕ → List ℕ
range_from i zero = []
range_from i (suc n) = i ∷ range_from (suc i) n

-- `[(batch+j) % 8 for j in range(hits)]`
abbrev pub hit_indices : ℕ → ℕ → List ℕ
hit_indices hits batch = map (λ j. (batch + j) % 8) (range_from 0 hits)

-- what a batch adds to the lists and sums of the loop
pub record Batch : Type 0 where
  pub commands : List Command
  pub overlapping_pairs : ℕ
  pub events : List Event
  pub joined : Option Joined
  pub gpu : ℕ
  pub wait : ℕ
  pub released : ℕ

-- the events of the batch, before they are read
unfoldable pub batch_records : Capture → Value → Result (List Value)
batch_records c detail = do
  events ← get_key "records" detail
  check (ok (is_list events && length (elements events) == 8) &? covers c.records (elements events))
      "Incomplete selected-expert capture"
  ok (elements events)

unfoldable pub check_bounds : Capture → Value → Result (Unit {0})
check_bounds c detail =
    check
      (has "ready_hits" (int c.hits) detail
        &? has "new_misses" (minus 8 c.hits) detail
        &? has "loading_joins" (int 0) detail
        &? has "peak_leases" (int 8) detail
        &? counts (λ v. is_stamp v && leb (number v) 2) "peak_gpu_groups" detail
        &? counts is_stamp "duration_ns" detail)
      "Changed detailed coordinator work or resource bounds"

unfoldable pub check_sums : Value → List Event → Result (Unit {0})
check_sums detail events =
    check
      (has "read_queue_sum_ns" (int (queue_of events)) detail
        &? has "read_service_sum_ns" (int (service_of events)) detail
        &? has "ready_to_encode_sum_ns" (int (ready_encode_of events)) detail
        &? has "ready_to_gpu_sum_ns" (int (ready_gpu_of events)) detail)
      "Detailed read or readiness sums differ from individual events"

-- `abs(n-m) <= d`
abbrev pub within : ℕ → ℕ → ℕ → Bool
within d n m = leb n (m + d) && leb m (n + d)

unfoldable pub check_waits : Value → List Command → Result (Unit {0})
check_waits detail commands =
    check
      (counts (λ v. is_uint v && within (length commands) (number v) (gpu_of commands))
          "gpu_execution_sum_ns" detail
        &? counts is_uint "coordinator_wait_ns" detail)
      "Invalid command or coordinator wait durations"

-- the shared profile of a batch, or that it has none
unfoldable pub join :
    Times → Capture → ℕ → ℕ → Value → List Event → List Command → Result (Option Joined)
join times c cycle batch v events commands = elim c.variant [
  | some packed ↦
      shared_trace times packed cycle batch events v commands >>= λ joined. ok (some joined)
  | none ↦
      require (not (has_key "command_profile" v) && not (has_key "shared_layer" v))
        "Control contains unsupported shared capture fields"
      >> ok none
]

-- `max(r['released_ns'] for r in events)` and `min(r['admitted_ns'] for r in events)`
abbrev pub last_release : List Event → ℕ
last_release [] = 0
last_release (e ∷ events) = max e.released (last_release events)

abbrev pub first_admission : Event → List Event → ℕ
first_admission e [] = e.admitted
first_admission e (f ∷ events) = smaller e.admitted (first_admission f events)

-- how long the experts of a batch were held
abbrev pub lifetime : List Event → ℕ
lifetime [] = 0
lifetime (e ∷ events) = last_release (e ∷ events) - first_admission e events

unfoldable pub on_batch : Times → Capture → ℕ → ℕ → ℕ → Value → Result Batch
on_batch times c previous_release cycle batch v = do
  check (has "hit_indices" (list (as_items (map int (hit_indices c.hits batch)))) v)
      "Changed rotating hit preparation"
  detail ← at "timing" v
  rows ← batch_records c detail
  check_bounds c detail
  events ← on_events c.records (hit_indices c.hits batch) previous_release rows
  check_sums detail events
  commands ← commands_at c.group cycle batch events (submissions_of events)
  joined ← join times c cycle batch v events commands
  check_waits detail commands
  gpu ← at "gpu_execution_sum_ns" detail
  wait ← at "coordinator_wait_ns" detail
  duration ← at "duration_ns" detail
  require (leb (lifetime events) (number duration))
      "Expert lifetimes exceed their captured batch duration"
  ok (record {
    commands = commands;
    overlapping_pairs = overlaps_after [] commands;
    events = events;
    joined = joined;
    gpu = number gpu;
    wait = number wait;
    released = last_release events;
  })

-- `[(c, b) for c in range(cycles) for b in range(8)]`
unfoldable pub places : ℕ → ℕ → List (ℕ × ℕ)
places c zero = []
places c (suc cycles) = map (λ b. (c, b)) (range_from 0 8) ++ places (suc c) cycles

-- `[(b['cycle'], b['batch']) for b in batches] == ...`
unfoldable pub keys_of : List Value → Result (List (Value × Value))
keys_of [] = ok []
keys_of (v ∷ vs) = do
  cycle ← at "cycle" v
  batch ← at "batch" v
  rest ← keys_of vs
  ok ((cycle, batch) ∷ rest)

unfoldable pub are_places : List (Value × Value) → List (ℕ × ℕ) → Bool
are_places [] [] = true
are_places ((v, w) ∷ vs) ((c, b) ∷ ps) = same v (int c) && same w (int b) && are_places vs ps
are_places _ _ = Bool.false

-- the loop over the batches, each at its place
unfoldable pub on_batches : Times → Capture → ℕ → List (ℕ × ℕ) → List Value → Result (List Batch)
on_batches times c previous_release ((cycle, batch) ∷ places) (v ∷ batches) = do
  first ← on_batch times c previous_release cycle batch v
  rest ← on_batches times c first.released places batches
  ok (first ∷ rest)
on_batches times c previous_release _ _ = ok []

-- the commands of all the batches, in order
abbrev pub all_commands : List Batch → List Command
all_commands [] = []
all_commands (b ∷ batches) = b.commands ++ all_commands batches

abbrev pub all_events : List Batch → List Event
all_events [] = []
all_events (b ∷ batches) = b.events ++ all_events batches

-- `sorted(Counter(occupancy).items())`
abbrev pub histogram : List ℕ → List (ℕ × ℕ)
histogram ns = map (λ k. (k, length (filter (λ n. n == k) ns))) (sorted_set ns)

abbrev pub joins_of : List Batch → List Joined
joins_of [] = []
joins_of (b ∷ batches) = elim b.joined [ none ↦ joins_of batches | some j ↦ j ∷ joins_of batches ]

-- the two lists of an entry of `readiness_by_acquisition`
pub record Readiness : Type 0 where
  pub ready : List ℕ
  pub completed : List ℕ

abbrev readiness_of : Bool → List Event → Readiness
readiness_of hit events = record {
  ready = ready_to_submission hit events;
  completed = read_to_submission hit events;
}

-- the answer
pub record Captured : Type 0 where
  pub captured_batches : ℕ
  pub captured_experts : ℕ
  pub commands : List Command
  pub occupancy_histogram : List (ℕ × ℕ)
  pub ready_hit : Readiness
  pub new_miss : Readiness
  pub overlap_pairs : ℕ
  pub coordinator_wait_ns : ℕ
  pub gpu_command_ns : ℕ
  pub shared_command_joins : List Joined

-- `d[k] == n`
unfoldable pub is_at : String → ℕ → Value → Result Bool
is_at k n d = do v ← at k d; ok (same v (int n))

-- the checks behind the loop
unfoldable pub conclude : ℕ → Value → List Batch → Result Captured
conclude cycles sample batches = do
  let commands = all_commands batches
  let gpu = sum_of (λ b. b.gpu) batches
  let waits = sum_of (λ b. b.wait) batches
  check
      (is_at "submissions" (length commands) sample
        &? is_at "gpu_command_ns" gpu sample
        &? is_at "coordinator_wait_ns" waits sample)
      "Captured commands or waits do not cover the full sample"
  ok (record {
    captured_batches = cycles * 8;
    captured_experts = cycles * 64;
    commands = commands;
    occupancy_histogram = histogram (map (λ k. k.experts) commands);
    ready_hit = readiness_of true (all_events batches);
    new_miss = readiness_of Bool.false (all_events batches);
    overlap_pairs = sum_of (λ b. b.overlapping_pairs) batches;
    coordinator_wait_ns = waits;
    gpu_command_ns = gpu;
    shared_command_joins = joins_of batches;
  })

unfoldable pub trace_batches : Times → Capture → ℕ → Value → Result Captured
trace_batches times c cycles sample = do
  batches ← get_key "batches" sample
  check
      (ok (is_list batches)
        &? (do keys ← keys_of (elements batches); ok (are_places keys (places 0 cycles))))
      "Missing, duplicate or reordered captured batches"
  captured ← on_batches times c 0 (places 0 cycles) (elements batches)
  conclude cycles sample captured
