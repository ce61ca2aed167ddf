-- ===== src/Horizon/Decode.antt =====
-- `decode` of scripts/qwen/horizon_cache_replay.py: a capture at a fixed width, handed on to decode of
-- block_cache_replay.py as one on 1460 slots.
use zerocool.Prelude.{
  ℕ, ◌+◌, Bool, true, false, List, [], ◌∷◌, ◌==◌, nat_eq, if◌then◌else◌, length, Result, ok, raise,
  value_error, ◌>>=◌, ◌>>◌, require,
}
use zerocool.Json.{
  Value, int, list, object, end, field, as_items, at, iterate, is_true, is_false, same,
}
use zerocool.Json.Numbers.{◌&?◌, check, size_of, first_of}
use zerocool.Replay.Coverage.{Forward}
use zerocool.Replay.Events.{Capture, Event}
use zerocool.Replay.State.{State}
use zerocool.Replay.Decode.{decode_events}
use zerocool.Replay.Head.{check_head}
use zerocool.Horizon.{patterns}

unfoldable pub check_capture : Value → Result (Unit {0})
check_capture raw =
    check
      ((do v ← at "cache_trace_enabled" raw; ok (is_true v))
        &? (do v ← at "performance_measurement" raw; ok (is_false v))
        &? (do v ← at "compute_tile_cap" raw; ok (same v (int 4))))
      "Not a target trace capture"

-- `patterns(work, width)`, where the width is a number
unfoldable pub coverage_of : Value → ℕ → ℕ → Result (List Forward)
coverage_of (int width) prompt continuation = patterns width prompt continuation
coverage_of _ prompt continuation = raise (value_error "Unsupported trace width")

-- each forward ends where its pattern does
unfoldable pub are_positions : List Value → List Forward → Result Bool
are_positions (f ∷ forwards) (p ∷ coverage) = do
  v ← at "position" f
  if same v (int (p.at + p.count)) then are_positions forwards coverage else ok false
are_positions _ _ = ok true

unfoldable pub check_positions : Value → List Forward → Result (Unit {0})
check_positions forwards coverage =
    check
      ((do n ← size_of forwards; ok (n == length coverage))
        &? (do fs ← iterate forwards; are_positions fs coverage))
      "Changed forward positions"

-- `dict(routes=f['routes'])`
abbrev pub routes_of : Value → Result Value
routes_of f = do routes ← at "routes" f; ok (object (field "routes" routes end))

unfoldable pub all_routes : List Value → Result (List Value)
all_routes [] = ok []
all_routes (f ∷ forwards) = do first ← routes_of f; rest ← all_routes forwards; ok (first ∷ rest)

abbrev rest_of : List Value → List Value
rest_of [] = []
rest_of (v ∷ vs) = vs

-- `adapter`
unfoldable pub adapter_of : Value → Value → Result Value
adapter_of raw forwards = do
  trace ← at "target_cache_trace" raw
  first ← first_of forwards
  prime ← routes_of first
  fs ← iterate forwards
  blocks ← all_routes (rest_of fs)
  before ← at "before" raw
  after ← at "after" raw
  ok (
      object (
        field "configuration" (object (field "expert_slots" (int 1460) end)) (
          field "expert_cache_trace" trace (
            field "prime" prime (
              field "blocks" (list (as_items blocks))
                (field "before" before (field "after" after end)))))))

-- `decode`, over a trace of so many bytes and its parsed lines; `w` and `events` are the report and the
-- lines as data of their shape
unfoldable pub decode : ℕ → List Value → Value → Value → Capture → ℕ → ℕ → List Event → Result State
decode bytes lines raw fingerprint w prompt continuation events = do
  check_capture raw
  width ← at "requested_width" raw
  coverage ← coverage_of width prompt continuation
  forwards ← at "trace_forwards" raw
  check_positions forwards coverage
  adapter ← adapter_of raw forwards
  capacity ← check_head bytes lines adapter fingerprint
  s ← decode_events (record w { capacity = 1460; patterns = coverage }) prompt continuation events
  require (length s.snapshots == length coverage) "Missing or extra target snapshots"
  ok s
