-- ===== src/Replay/Snapshots.antt =====
-- `Cache.state` and the branch of the event loop of `decode` on `snapshot`, in
-- scripts/qwen/block_cache_replay.py.
use zerocool.Prelude.{
  ℕ, ◌+◌, ◌*◌, Bool, not, ◌&&◌, Option, none, some, List, [], ◌∷◌, ◌++◌, String, ◌==◌, nat_eq,
  string_eq, length, Result, ok, ◌>>=◌, ◌>>◌, require, same_numbers,
}
use zerocool.Replay.Cache.{Cache, Slots, total_pins, is_slru}
use zerocool.Replay.Events.{Capture, SlotState, Snapshot, Stats, payload_bytes}
use zerocool.Replay.State.{Active, State, integers}

-- `state`, less the fields that are constant
unfoldable pub slot_states : ℕ → Slots → List (Option SlotState)
slot_states i [] = []
slot_states i (none ∷ slots) = none ∷ slot_states (i + 1) slots
slot_states i (some e ∷ slots) =
    some (record { slot = i; key = e.key; referenced = e.referenced }) ∷ slot_states (i + 1) slots

unfoldable pub state : Cache → Result Snapshot
state c = do
  require (not (is_slru c.policy) && total_pins c.slots == 0)
      "Full snapshot needs drained CLOCK state"
  ok (record { capacity = c.capacity; hand = c.hand; slots = slot_states 0 c.slots })

-- the bounds on the counters of a snapshot
unfoldable pub stats_inside : Stats → Result (Unit {0})
stats_inside t = do
  integers
      (t.hits ∷ t.misses ∷ t.evictions ∷ t.application_read_bytes ∷ t.ready_hits ∷ t.loading_joins
        ∷ [])
      0 (100000 * payload_bytes) "stats"
  integers t.layer_hits 0 100000 "layer_hits"
  integers t.layer_misses 0 100000 "layer_misses"

-- the comparison of the native counters with those of the replay
unfoldable pub stats_match : Stats → Cache → String → Bool
stats_match t c digest =
    t.diagnostic_cache_state == digest
    && t.hits == c.hits
    && t.misses == c.misses
    && t.evictions == c.evictions
    && t.application_read_bytes == c.misses * payload_bytes
    && t.ready_hits == c.ready_hits
    && t.loading_joins == c.joins
    && same_numbers t.layer_hits c.layer_hits
    && same_numbers t.layer_misses c.layer_misses

-- the check on the active forward at a snapshot
unfoldable pub count_snapshot : Option Active → Result (Option Active)
count_snapshot none = ok none
count_snapshot (some a) = do
  require (a.layers == 48 && a.index == length a.selected) "Snapshot precedes completed layer work"
  ok (some (record a { snapshots = a.snapshots + 1 }))

-- event `snapshot`
unfoldable pub on_snapshot : Capture → Snapshot → Stats → State → Result State
on_snapshot w d t s = do
  active ← count_snapshot s.active
  now ← state s.cache
  require (w.dumps d == w.dumps now) "Native cache state does not replay"
  let digest = w.digest (w.dumps now)
  stats_inside t
  require (stats_match t s.cache digest) "Native cache counters do not replay"
  ok (record s {
    active = active;
    snapshots =
        s.snapshots ++ record { hash = digest; hits = s.cache.hits; misses = s.cache.misses } ∷ [];
  })
