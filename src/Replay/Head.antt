-- ===== src/Replay/Head.antt =====
-- The checks of the head of a trace in `decode` of scripts/qwen/block_cache_replay.py: its size, the
-- numbers of its events, its identity and its receipt. The lines are parsed: `events` are their values.
use zerocool.Prelude.{
  ℕ, suc, ◌*◌, ◌^◌, Bool, true, false, ◌&&◌, List, [], ◌∷◌, String, nat_eq, leb, length, Result, ok,
  raise, index_error, ◌>>=◌, ◌>>◌, require, item,
}
use zerocool.Json.{Value, bool, int, str, object, end, field, at, is_number, is_set_of, same}
use zerocool.Json.Numbers.{◌&?◌, check}
use zerocool.Replay.Events.{payload_bytes}

-- `e['sequence']` is its place, behind the keys of an event
unfoldable pub is_numbered : ℕ → Value → Result Bool
is_numbered n e =
    is_set_of (str "sequence" ∷ str "event" ∷ str "detail" ∷ []) e
    &? (do v ← at "sequence" e; ok (is_number n v))

-- the events from a place on
unfoldable pub are_numbered : ℕ → List Value → Result Bool
are_numbered n [] = ok true
are_numbered n (e ∷ events) = is_numbered n e &? are_numbered (suc n) events

-- `events[-1]`
unfoldable pub last_of : List Value → Result Value
last_of [] = raise index_error
last_of (e ∷ []) = ok e
last_of (e ∷ f ∷ events) = last_of (f ∷ events)

-- `d[k] == v`
abbrev is_exactly : String → Value → Value → Result Bool
is_exactly k v d = do w ← at k d; ok (same w v)

abbrev pub workspace : ℕ
workspace = 32 * 1024 ^ 2

-- `dict(kind='qwen_block_cache_events_v1', ...)`, at a capacity, a build and the size of a slot
abbrev pub identity : Value → Value → ℕ → Value
identity capacity build slot_bytes = object (
    field "kind" (str "qwen_block_cache_events_v1") (
      field "capacity" capacity (
        field "policy" (str "clock") (
          field "build" build (
            field "payload_bytes" (int payload_bytes) (
              field "slot_bytes" (int slot_bytes)
                (field "workspace_bound_bytes" (int workspace) end)))))))

-- the native receipt of a trace of so many events and bytes
abbrev pub receipt : ℕ → ℕ → Value
receipt events bytes = object (
    field "complete" (bool true) (
      field "events" (int events) (
        field "bytes" (int bytes) (
          field "workspace_bound_bytes" (int workspace)
            (field "performance_measurement" (bool false) end)))))

-- the first and the last event
unfoldable pub check_ends : Value → List Value → Result (Unit {0})
check_ends begin events =
    check
      (is_exactly "event" (str "begin") begin
        &? (do e ← last_of events; is_exactly "event" (str "end") e)
        &? (do
          e ← last_of events
          is_exactly "detail" (object (field "complete" (bool true) end)) e))
      "Capture is incomplete"

-- the head of a trace of so many bytes; the answer is the capacity
unfoldable pub check_head : ℕ → List Value → Value → Value → Result Value
check_head bytes events raw build = do
  require (leb bytes workspace) "Oversized block trace"
  require (leb 2 (length events) && leb (length events) 100000) "Missing or excessive events"
  check (are_numbered 1 events) "Missing, duplicate or reordered event sequence"
  begin ← item events 0
  check_ends begin events
  configuration ← at "configuration" raw
  capacity ← at "expert_slots" configuration
  check (is_exactly "detail" (identity capacity build 2768896) begin)
      "Changed trace identity/format"
  check (is_exactly "expert_cache_trace" (receipt (length events) bytes) raw)
      "Native trace receipt differs"
  ok capacity
