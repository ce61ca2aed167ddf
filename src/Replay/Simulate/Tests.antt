-- ===== src/Replay/Simulate/Tests.antt =====
-- A capture of two forwards of one token on a cache of one slot, where every access misses.
use zerocool.Prelude.{
  ok, ℕ, zero, suc, ◌+◌, ◌-◌, ◌*◌, ◌≡◌, refl, true, false, Option, none, some, List, [], ◌∷◌, map,
  length, replicate, ok_of, is_ok, sum_of, drop, item, same_list, take, sorted_set, insert_number,
  store, filter, nat_eq,
}
use zerocool.Dict.{contains, delete, get, lookup_item, pop_first, put, remove}
use zerocool.Replay.Cache.{
  clock, slru, cache, total_pins, acquire, acquire_hit, acquire_miss, count_at, count_of, demote,
  drop_old, entry_at, first_unpinned, install, lease, promote, scan, select,
}
use zerocool.Replay.Coverage.{Forward, prefill, decode, check_patterns, check_from}
use zerocool.Replay.Events.{
  Request, acquire_request, lease_request, Capture, Event, RouteRow, forward_begin, layer_boundary,
  acquisition, pin, release, snapshot, forward_end, payload_bytes,
}
use zerocool.Replay.State.{State, integers}
use zerocool.Replay.Layers.{on_layer, check_groups, demand_order}
use zerocool.Replay.Snapshots.{
  count_snapshot, on_snapshot, slot_states, state, stats_inside, stats_match,
}
use zerocool.Replay.Decode.{
  decode_events, run, step, handle, on_forward_begin, on_acquire, on_forward_end, on_lease,
  route_rows, is_seen, check_report,
}
use zerocool.Replay.Decode.Pairs.{follow, follow-decode_events}
use zerocool.Replay.Simulate.{simulate, apply, apply_all, Simulation}
use zerocool.Replay.Simulate.Accesses.{accesses_of, simulate-accesses}
use zerocool.Replay.Simulate.Blocks.{block_of}
use zerocool.Replay.Simulate.Agrees.{simulate-decode_events, summary}

abbrev ten : List ℕ
ten = 0 ∷ 1 ∷ 2 ∷ 3 ∷ 4 ∷ 5 ∷ 6 ∷ 7 ∷ 8 ∷ 9 ∷ []

abbrev use_expert : ℕ → Option ℕ → List Event → List Event
use_expert key victim rest =
    acquisition (record { key = key; acquisition = 0; slot = 0; victim = victim })
    ∷ pin (record { key = key; pins = 1; ready = none })
    ∷ release (record { key = key; pins = 0; ready = some true })
    ∷ rest

abbrev use_experts : ℕ → List ℕ → Option ℕ → List Event → List Event
use_experts layer [] victim rest = rest
use_experts layer (e ∷ es) victim rest =
    use_expert (layer * 512 + e) victim (use_experts layer es (some (layer * 512 + e)) rest)

-- `n` layers, up to the last
abbrev layer_events : ℕ → ℕ → Option ℕ → List Event → List Event
layer_events zero offset victim rest = rest
layer_events (suc n) offset victim rest =
    layer_boundary
      (record { layer = 47 - n; offset = offset; tokens = 1; routes = ten; selected = ten })
    ∷ use_experts (47 - n) ten victim (layer_events n offset (some ((47 - n) * 512 + 9)) rest)

abbrev forward_events : Forward → Option ℕ → List Event → List Event
forward_events f victim rest =
    forward_begin f ((f.at + 7) ∷ [])
    ∷ layer_events 48 f.at victim (
        snapshot (record { capacity = 1; hand = 0; slots = [] })
          (record {
            hits = 0;
            misses = 480 * (f.at + 1);
            evictions = 480 * (f.at + 1) - 1;
            application_read_bytes = 480 * (f.at + 1) * payload_bytes;
            ready_hits = 0;
            loading_joins = 0;
            layer_hits = replicate 48 0;
            layer_misses = replicate 48 (10 * (f.at + 1));
            diagnostic_cache_state = "hash";
          })
        ∷ forward_end (f.at + 1)
        ∷ rest)

abbrev prime : Forward
prime = record { at = 0; count = 1; phase = prefill }

abbrev block : Forward
block = record { at = 1; count = 1; phase = decode }

abbrev rows : ℕ → ℕ → List RouteRow
rows zero position = []
rows (suc n) position =
    record { layer = 47 - n; tokens = position; sha256 = "routes" } ∷ rows n position

abbrev pub capture : Capture
capture = record {
  capacity = 1;
  patterns = prime ∷ block ∷ [];
  tokens = 7 ∷ 8 ∷ [];
  routes = rows 48 1 ∷ rows 48 2 ∷ [];
  before = record {
    hits = 0;
    misses = 480;
    application_read_bytes = 480 * payload_bytes;
    diagnostic_cache_state = "hash";
  };
  after = record {
    hits = 0;
    misses = 960;
    application_read_bytes = 960 * payload_bytes;
    diagnostic_cache_state = "hash";
  };
  dumps = λ d. "state";
  digest = λ d. "hash";
  digest_routes = λ v. "routes";
}

abbrev pub captured : List Event
captured = forward_events prime none (forward_events block (some (47 * 512 + 9)) [])

captured_decodes : is_ok (decode_events capture 1 1 captured) ≡ true
unfolding decode_events cache check_patterns check_from run step handle on_forward_begin total_pins
    item same_list take drop on_layer check_groups sorted_set insert_number integers contains delete
    get lookup_item pop_first put remove store filter acquire acquire_hit acquire_miss count_at
    count_of demote drop_old entry_at first_unpinned install lease promote scan select
    count_snapshot demand_order on_acquire on_forward_end on_lease on_snapshot route_rows
    slot_states state stats_inside stats_match sum_of is_seen check_report
captured_decodes = refl

pub captured_end : (s : State) × (decode_events capture 1 1 captured ≡ ok s)
captured_end = ok_of (decode_events capture 1 1 captured) captured_decodes

-- the capture's own requests, simulated again
pub captured_simulates :
    is_ok (simulate captured_end.0.requests (length captured_end.0.forwards) 1 clock) ≡ true
unfolding captured_end decode_events cache check_patterns check_from run step handle
    on_forward_begin total_pins item same_list take drop on_layer check_groups sorted_set
    insert_number integers contains delete get lookup_item pop_first put remove store filter acquire
    acquire_hit acquire_miss count_at count_of demote drop_old entry_at first_unpinned install lease
    promote scan select count_snapshot demand_order on_acquire on_forward_end on_lease on_snapshot
    route_rows slot_states state stats_inside stats_match sum_of is_seen check_report ok_of simulate
    apply apply_all
captured_simulates = refl

simulate-decode_events_example :
    simulate captured_end.0.requests (length captured_end.0.forwards) 1 clock
    ≡ summary 1
        (sum_of (λ f. f.hits) (drop 1 captured_end.0.forwards))
        (sum_of (λ f. f.misses) (drop 1 captured_end.0.forwards))
        (map block_of captured_end.0.forwards)
simulate-decode_events_example = simulate-decode_events capture 1 1 captured captured_end.1

-- Two accesses of one forward, of which the second hits.
abbrev twice : List Request
twice =
    acquire_request 5 0
    ∷ lease_request false 5 0
    ∷ acquire_request 5 1
    ∷ lease_request true 5 1
    ∷ []

twice_simulates : is_ok (simulate twice 2 3 slru) ≡ true
unfolding simulate apply_all apply cache acquire acquire_hit acquire_miss select scan install
    drop_old promote demote lease total_pins item store get put remove entry_at count_at count_of
    sum_of drop
twice_simulates = refl

twice_end : (t : Simulation) × (simulate twice 2 3 slru ≡ ok t)
twice_end = ok_of (simulate twice 2 3 slru) twice_simulates

simulate-accesses_example : sum_of accesses_of twice_end.0.blocks ≡ 2
simulate-accesses_example = simulate-accesses twice 2 3 slru twice_end.1

follow-decode_events_example : follow none captured_end.0.requests ≡ some none
follow-decode_events_example = follow-decode_events capture 1 1 captured captured_end.1
