-- ===== src/Replay/Decode.antt =====
-- The event loop of `decode` in scripts/qwen/block_cache_replay.py: one function for each branch on
-- the event's name, and the loop. A list in the state is in the order of `append`.
pub mod Changes
pub mod Pairs
use zerocool.Prelude.{
  ℕ, zero, suc, ◌+◌, ◌-◌, ◌*◌, ◌%◌, Bool, true, false, not, ◌&&◌, ◌||◌, Option, none, some, List,
  [], ◌∷◌, ◌++◌, map, String, ◌==◌, nat_eq, string_eq, if◌then◌else◌, ltb, leb, length, get_or,
  Result, ok, raise, value_error, ◌>>=◌, ◌>>◌, require, item, store, take, drop, filter, sorted_set,
  same_numbers, same_list, sum_of, max,
}
use zerocool.Dict.{Dict, contains}
use zerocool.Replay.Cache.{
  Cache, Policy, Entry, Slots, clock, cache, acquire, lease, total_pins, layers, experts, is_slru,
}
use zerocool.Replay.Coverage.{Forward, Phase, check_patterns}
use zerocool.Replay.Events.{
  Capture, Event, LayerDetail, AcquireDetail, LeaseDetail, SlotState, Snapshot, Stats, RouteRow,
  Report, forward_begin, layer_boundary, acquisition, pin, release, snapshot, forward_end, unknown,
  acquire_request, lease_request, payload_bytes, top_k,
}
use zerocool.Replay.Layers.{on_layer}
use zerocool.Replay.Snapshots.{on_snapshot}
use zerocool.Replay.State.{
  Active, State, Completed, Seen, initial, integer, integers, active_of, is_none, same_option,
  same_phase, same_row,
}

-- event `forward_begin`
unfoldable pub on_forward_begin : Capture → Forward → List ℕ → State → Result State
on_forward_begin w d input s = do
  require
      (is_none s.active
        && total_pins s.cache.slots == 0
        && ltb (length s.forwards) (length w.patterns))
      "Overlapping/extra forward or live prior leases"
  f ← item w.patterns (length s.forwards)
  require
      (d.at == f.at
        && d.count == f.count
        && same_phase d.phase f.phase
        && same_numbers input (take f.count (drop f.at w.tokens)))
      "Changed forward coverage or tokens"
  ok (record s {
    active = some (record {
      offset = f.at;
      tokens = f.count;
      phase = f.phase;
      layers = 0;
      selected = [];
      index = 0;
      hits_before = s.cache.hits;
      misses_before = s.cache.misses;
      demands = [];
      snapshots = 0;
    });
  })

-- `integer(d['victim'], -1, ...)`
abbrev pub victim_inside : Option ℕ → Result (Unit {0})
victim_inside none = ok tt
victim_inside (some v) = integer v 0 (layers * experts - 1) "victim"

-- event `acquire`
unfoldable pub on_acquire : Capture → AcquireDetail → State → Result State
on_acquire w d s = do
  a ← active_of s.active "Acquisition does not match selected order"
  require (ltb a.index (length a.selected) && d.key == get_or a.selected a.index 0)
      "Acquisition does not match selected order"
  integer d.acquisition 0 2 "acquisition kind"
  integer d.slot 0 (w.capacity - 1) "slot"
  victim_inside d.victim
  (c, answer) ← acquire d.key (some d.acquisition) s.cache
  require
      ((if answer.hit then not (d.acquisition == 0) else d.acquisition == 0)
        && answer.slot == d.slot
        && same_option answer.evicted d.victim)
      "Native CLOCK decision does not replay"
  ok (record s {
    cache = c;
    active = some (record a { index = a.index + 1; demands = a.demands ++ d.key ∷ [] });
    pending_pin = some d.key;
    requests = s.requests ++ acquire_request d.key (length s.forwards) ∷ [];
  })

-- `d['ready'] is True if release else d['ready'] is None`
abbrev pub ready_inside : Bool → Option Bool → Bool
ready_inside true (some b) = b
ready_inside true none = false
ready_inside false ready = is_none ready

-- events `pin` and `release`
unfoldable pub on_lease : Bool → LeaseDetail → State → Result State
on_lease released d s = do
  integer d.key 0 (layers * experts - 1) "lease key"
  integer d.pins 0 32 "pin count"
  require (released || same_option (some d.key) s.pending_pin)
      "Pin does not own preceding acquisition"
  require (ready_inside released d.ready) "Lease released before its read completed"
  (c, pins) ← lease d.key released s.cache
  require (d.pins == pins) "Native pin count differs"
  let most = max s.max_pins (total_pins c.slots)
  require (leb most 32) "Lease window exceeded"
  ok (record s {
    cache = c;
    max_pins = most;
    pending_pin = if released then s.pending_pin else none;
    requests = s.requests ++ lease_request released d.key (length s.forwards) ∷ [];
  })

-- the routes of all layers so far, as the native report has them
unfoldable pub route_rows : (List ℕ → String) → ℕ → ℕ → List (List ℕ) → List RouteRow
route_rows digest_routes i position [] = []
route_rows digest_routes i position (v ∷ histories) =
    record { layer = i; tokens = position; sha256 = digest_routes v }
    ∷ route_rows digest_routes (i + 1) position histories

-- event `forward_end`
unfoldable pub on_forward_end : Capture → ℕ → State → Result State
on_forward_end w position s = do
  a ← active_of s.active "Incomplete forward"
  require
      (a.layers == 48
        && a.index == length a.selected
        && leb 1 a.snapshots
        && total_pins s.cache.slots == 0
        && position == a.offset + a.tokens)
      "Incomplete forward"
  target ← item w.routes (length s.forwards)
  require (same_list same_row target (route_rows w.digest_routes 0 position s.histories))
      "Captured routes differ from native state identity"
  ok (record s {
    forwards =
        s.forwards
        ++ record {
          offset = a.offset;
          tokens = a.tokens;
          phase = a.phase;
          hits = s.cache.hits - a.hits_before;
          misses = s.cache.misses - a.misses_before;
          distinct_records = length (sorted_set a.demands);
          demands = a.demands;
        }
          ∷ [];
    active = none;
  })

abbrev pub is_pin : Event → Bool
is_pin (pin d) = true
is_pin _ = false

unfoldable pub handle : Capture → Event → State → Result State
handle w (forward_begin d input) s = on_forward_begin w d input s
handle w (layer_boundary d) s = on_layer d s
handle w (acquisition d) s = on_acquire w d s
handle w (pin d) s = on_lease false d s
handle w (release d) s = on_lease true d s
handle w (snapshot d t) s = on_snapshot w d t s
handle w (forward_end position) s = on_forward_end w position s
handle w (unknown name) s = raise (value_error "Unknown cache trace event")

-- one round of the loop
unfoldable pub step : Capture → Event → State → Result State
step w e s = do
  require (is_none s.pending_pin || is_pin e) "Acquisition was not pinned immediately"
  handle w e s

-- the loop over the events between the first and the last
unfoldable pub run : Capture → List Event → State → Result State
run w [] s = ok s
run w (e ∷ events) s = do s' ← step w e s; run w events s'

-- `dict(...) in snapshots`
unfoldable pub is_seen : String → ℕ → ℕ → List Seen → Bool
is_seen hash hits misses [] = false
is_seen hash hits misses (r ∷ snapshots) =
    r.hash == hash && r.hits == hits && r.misses == misses || is_seen hash hits misses snapshots

-- the check of a native report after given forwards
unfoldable pub check_report : List Completed → List Seen → Report → Result (Unit {0})
check_report forwards snapshots actual =
    let hits = sum_of (λ f. f.hits) forwards in
    let misses = sum_of (λ f. f.misses) forwards in
    require
      (actual.hits == hits
        && actual.misses == misses
        && actual.application_read_bytes == misses * payload_bytes
        && is_seen actual.diagnostic_cache_state hits misses snapshots)
      "Trace misses native report boundary"

-- `decode` from the construction of the cache on: the final state, from which it reports
unfoldable pub decode_events : Capture → ℕ → ℕ → List Event → Result State
decode_events w prompt continuation events = do
  c ← cache w.capacity clock
  check_patterns prompt continuation w.patterns
  s ← run w events (initial c)
  require
      (is_none s.active
        && is_none s.pending_pin
        && length s.forwards == length w.patterns
        && total_pins s.cache.slots == 0)
      "Incomplete terminal state"
  check_report (take 1 s.forwards) s.snapshots w.before
  check_report s.forwards s.snapshots w.after
  ok s
