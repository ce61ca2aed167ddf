-- ===== src/Trace/Decode.antt =====
-- The loop of `decode` in scripts/qwen/route_trace.py over the lines, and its report. A line is
-- read by the json module, which is the parameter `parse`.
use zerocool.Prelude.{
  ℕ, suc, ◌*◌, ◌^◌, Bool, true, false, not, ◌&&◌, ◌||◌, Option, none, some, List, [], ◌∷◌, String,
  ◌==◌, nat_eq, if◌then◌else◌, ltb, length, Result, ok, raise, value_error, ◌>>=◌, ◌>>◌, require,
  is_some,
}
use zerocool.Json.{Value, get_key, is_object, is_text, is_number, number}
use zerocool.Routes.Loop.{Row}
use zerocool.Routes.Windows.{is_empty}
use zerocool.Trace.State.{
  State, Forward, Active, Request, Completed, Last, Status, complete, initial, at_least, decimal,
  ◌&◌,
}
use zerocool.Trace.Events.{
  on_trace_begin, on_request_begin, on_forward_begin, on_routes, on_forward_commit,
  on_forward_abort, on_request_end, on_cache_reset, on_trace_end,
}

-- the branches behind the header
unfoldable pub handle_event : String → Value → Value → Value → State → Result State
handle_event pointer header event d s =
    if is_text "request_begin" event
    then on_request_begin pointer d s
    else if is_text "forward_begin" event
    then on_forward_begin pointer d s
    else if is_text "routes" event
    then on_routes pointer header d s
    else if is_text "forward_commit" event
    then on_forward_commit d s
    else if is_text "forward_abort" event
    then on_forward_abort pointer d s
    else if is_text "request_end" event
    then on_request_end d s
    else if is_text "cache_reset" event
    then on_cache_reset pointer s
    else if is_text "trace_end" event
    then on_trace_end d s
    else raise (value_error "Unknown route event: ")

unfoldable pub after_header : String → Option Value → Value → Value → State → Result State
after_header pointer none event d s = raise (value_error "Route header must be first")
after_header pointer (some header) event d s = handle_event pointer header event d s

unfoldable pub handle : ℕ → String → Value → Value → State → Result State
handle sequence pointer event d s =
    if is_text "trace_begin" event
    then on_trace_begin sequence d s
    else after_header pointer s.header event d s

-- one round of the loop
unfoldable pub step : ℕ → Value → State → Result State
step sequence row s = do
  require (is_object row) "Invalid route sequence or events after termination"
  kind ← get_key "kind" row
  recorded ← get_key "sequence" row
  require
      (is_text "qwen_route_trace_v1" kind
        && is_number sequence recorded
        && not (is_some s.terminal))
      "Invalid route sequence or events after termination"
  now ← get_key "monotonic_ns" row
  require (at_least s.timestamp now) "Route timestamps must be monotonic integers"
  event ← get_key "event" row
  d ← get_key "details" row
  require (is_object d) "Route event details must be an object"
  let pointer = "line:" & decimal sequence
  s' ← handle sequence pointer event d (record s {
    timestamp = number now;
    last = some (record { event = event; source_pointer = pointer; monotonic_ns = number now });
  })
  request_id ← get_key "request_id" row
  forward_id ← get_key "forward_id" row
  require (is_number s'.request_id request_id && is_number s'.forward_id forward_id)
      "Mismatched route request or forward ID"
  ok s'

unfoldable pub run : ℕ → List Value → State → Result State
run sequence [] s = ok s
run sequence (row ∷ rows) s = do s' ← step sequence row s; run (suc sequence) rows s'

-- The report. Of an active request or forward there is all that is recorded; the source leaves out
-- its tokens, sizes and rows.
pub record Report : Type 0 where
  pub rows : List Row
  pub committed : List Forward
  pub requests : List Completed
  pub identity : Option Value
  pub status : Option Status
  pub complete : Bool
  pub events : ℕ
  pub partial_final_line : Bool
  pub aborted_forwards : ℕ
  pub active_request : Option Request
  pub active_forward : Option Forward
  pub uncommitted_layer_passes : ℕ
  pub last_event : Option Last

abbrev is_complete : Option Status → Bool
is_complete (some complete) = true
is_complete _ = false

abbrev forward_of : Option Active → Option Forward
forward_of none = none
forward_of (some a) = some a.forward

abbrev rows_of : Option Active → ℕ
rows_of none = 0
rows_of (some a) = length a.rows

unfoldable pub report : ℕ → Bool → State → Report
report events partial s = record {
  rows = s.rows;
  committed = s.committed;
  requests = s.requests;
  identity = s.header;
  status = s.terminal;
  complete = is_complete s.terminal;
  events = events;
  partial_final_line = partial;
  aborted_forwards = s.aborted;
  active_request = s.request;
  active_forward = forward_of s.active;
  uncommitted_layer_passes = rows_of s.active;
  last_event = s.last;
}

-- `decode` from the parsed events on
unfoldable pub decode_events : List Value → Bool → Result Report
decode_events events partial = do
  require (not (is_empty events)) "Missing route trace header"
  s ← run 1 events initial
  require (not (is_some s.terminal && partial)) "Trailing bytes after route termination"
  ok (report (length events) partial s)

-- a byte in front of the lines behind it
abbrev prepend : ℕ → List (List ℕ) → List (List ℕ)
prepend c [] = (c ∷ []) ∷ []
prepend c (line ∷ lines) = (c ∷ line) ∷ lines

abbrev starts_with : ℕ → List ℕ → Bool
starts_with c [] = false
starts_with c (b ∷ bytes) = b == c

-- `raw.splitlines(keepends=True)`, for bytes: lines end with \n, \r or \r\n
unfoldable pub splitlines : List ℕ → List (List ℕ)
splitlines [] = []
splitlines (c ∷ bytes) =
    let lines = splitlines bytes in
    if c == 10 || (c == 13 && not (starts_with 10 bytes)) then (c ∷ []) ∷ lines else prepend c lines

-- `line.endswith(b'\n')`
abbrev ends_line : List ℕ → Bool
ends_line [] = false
ends_line (c ∷ []) = c == 10
ends_line (c ∷ b ∷ bytes) = ends_line (b ∷ bytes)

-- the lines that are whole, and whether there is one more behind them
unfoldable pub whole_lines : List (List ℕ) → List (List ℕ) × Bool
whole_lines [] = ([], false)
whole_lines (line ∷ []) = if ends_line line then (line ∷ [], false) else ([], true)
whole_lines (line ∷ next ∷ lines) = let rest = whole_lines (next ∷ lines) in (line ∷ rest.0, rest.1)

module _ (parse : List ℕ → Result Value) where
  unfoldable pub parse_lines : List (List ℕ) → Result (List Value)
  parse_lines [] = ok []
  parse_lines (line ∷ lines) = do row ← parse line; rows ← parse_lines lines; ok (row ∷ rows)

  unfoldable pub decode : List ℕ → Result Report
  decode raw = do
    require (not (ltb (16 * 1024 ^ 2) (length raw))) "Route trace exceeds 16MiB"
    let lines = whole_lines (splitlines raw)
    require (not (ltb 20000 (length lines.0))) "Route event count exceeded"
    events ← parse_lines lines.0
    decode_events events lines.1
