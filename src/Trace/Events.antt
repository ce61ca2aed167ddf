-- ===== src/Trace/Events.antt =====
-- The branches of `decode` in scripts/qwen/route_trace.py, one function for each event.
use zerocool.Prelude.{
  ℕ, zero, suc, ◌+◌, ◌*◌, Bool, true, false, not, ◌&&◌, ◌||◌, Option, none, some, List, [], ◌∷◌,
  ◌++◌, map, String, ◌==◌, nat_eq, string_eq, if◌then◌else◌, ltb, leb, length, Result, ok, raise,
  value_error, ◌>>=◌, ◌>>◌, require, all, take, drop, sorted_set, same_numbers, is_some,
}
use zerocool.Dict.{Dict, get, put}
use zerocool.Json.{
  Value, int, str, object, field, end, get_key, is_object, is_bool, is_true, is_list, is_text,
  is_number, is_between, elements, number, numbers,
}
use zerocool.Routes.Windows.{is_empty}
use zerocool.Trace.State.{
  State, Forward, Active, Request, Status, complete, incomplete, at_least, token_ids, decimal, ◌&◌,
}

abbrev pub layers : ℕ
layers = 48

-- event `trace_begin`
unfoldable pub on_trace_begin : ℕ → Value → State → Result State
on_trace_begin sequence d s = do
  identity ← get_key "identity" d
  require (sequence == 1 && is_object identity) "Invalid route header"
  ok (record s { header = some identity })

-- event `request_begin`
unfoldable pub on_request_begin : String → Value → State → Result State
on_request_begin pointer d s = do
  require (not (is_some s.request) && not (is_some s.active)) "Overlapping route requests"
  input_value ← get_key "input_token_ids" d
  input ← token_ids false input_value
  max_tokens ← get_key "max_tokens" d
  prime ← get_key "prime" d
  require (at_least 1 max_tokens && is_bool prime) "Invalid request output limit or prime flag"
  ok (record s {
    request_id = s.request_id + 1;
    request = some (record {
      input = input;
      max_tokens = number max_tokens;
      prime = is_true prime;
      request_id = s.request_id + 1;
      source_pointer = pointer;
      aborted = false;
      initial_sizes = map (λ entry. (entry.0, length entry.1)) s.states;
      details = d;
    });
  })

-- `isinstance(v, str) and v`, as the string
abbrev pub text : Value → Option String
text (str s) = if s == "" then none else some s
text _ = none

unfoldable pub text_of : Value → String → Result String
text_of v message = elim (text v) [ none ↦ raise (value_error message) | some s ↦ ok s ]

abbrev pub or_empty : Option (List ℕ) → List ℕ
or_empty none = []
or_empty (some tokens) = tokens

-- `states.get(session, [])`
abbrev pub tokens_of : String → Dict String (List ℕ) → List ℕ
tokens_of session states = or_empty (get session states)

-- event `forward_begin`
unfoldable pub on_forward_begin : String → Value → State → Result State
on_forward_begin pointer d s = do
  require (is_some s.request && not (is_some s.active)) "Forward needs one active request"
  input_value ← get_key "input_token_ids" d
  input ← token_ids false input_value
  offset ← get_key "offset" d
  tokens ← get_key "tokens" d
  session_value ← get_key "session_id" d
  phase_value ← get_key "request_phase" d
  slots ← get_key "expert_slots" d
  require
      (at_least 0 offset
        && is_number (length input) tokens
        && leb (number offset + number tokens) 8192)
      "Invalid forward identity or geometry"
  session ← text_of session_value "Invalid forward identity or geometry"
  phase ← text_of phase_value "Invalid forward identity or geometry"
  require (at_least 1 slots) "Invalid forward identity or geometry"
  require (number offset == length (tokens_of session s.states))
      "Forward offset does not continue the recorded session"
  ok (record s {
    forward_id = s.forward_id + 1;
    active = some (record {
      forward = record {
        input = input;
        offset = number offset;
        tokens = number tokens;
        session = session;
        phase = phase;
        forward_id = s.forward_id + 1;
        request_id = s.request_id;
        source_pointer = pointer;
        epoch = s.epoch;
        details = d;
      };
      rows = [];
    });
  })

unfoldable pub active_of : Option Active → String → Result Active
active_of none message = raise (value_error message)
active_of (some a) message = ok a

unfoldable pub request_of : Option Request → String → Result Request
request_of none message = raise (value_error message)
request_of (some r) message = ok r

-- the slices of ten routes, of which there are as many as tokens
unfoldable pub check_selected : ℕ → List Value → Result (Unit {0})
check_selected zero routes = ok tt
check_selected (suc tokens) routes = do
  require
      (all (λ e. is_between 0 511 e) (take 10 routes)
        && length (sorted_set (numbers (take 10 routes))) == 10)
      "Invalid selected experts"
  check_selected tokens (drop 10 routes)

-- the row of a layer
abbrev pub row_of : Forward → ℕ → Value → Value → Value → ℕ → Value
row_of f layer routes build revision epoch = object (
    field "layer" (int layer) (
      field "routes" routes (
        field "offset" (int f.offset) (
          field "tokens" (int f.tokens) (
            field "request_phase" (str f.phase) (
              field "request_id" (int f.request_id) (
                field "session_id" (str (f.session & ":" & decimal epoch))
                  (field "build" build (field "artifact_revision" revision end)))))))))

-- event `routes`
unfoldable pub on_routes : String → Value → Value → State → Result State
on_routes pointer header d s = do
  a ← active_of s.active "Missing, repeated or reordered route layer"
  layer ← get_key "layer" d
  require (is_number (length a.rows) layer && ltb (number layer) layers)
      "Missing, repeated or reordered route layer"
  routes ← get_key "routes" d
  require (is_list routes && length (elements routes) == a.forward.tokens * 10)
      "Missing top-10 routes"
  check_selected a.forward.tokens (elements routes)
  build ← get_key "build" header
  revision ← get_key "artifact_revision" header
  ok (record s {
    active = some (record a {
      rows =
          a.rows ++ (pointer, row_of a.forward (number layer) routes build revision s.epoch) ∷ [];
    });
  })

-- event `forward_commit`
unfoldable pub on_forward_commit : Value → State → Result State
on_forward_commit d s = do
  a ← active_of s.active "Commit needs all 48 layers and the exact resulting position"
  position ← get_key "position" d
  require (length a.rows == layers && is_number (a.forward.offset + a.forward.tokens) position)
      "Commit needs all 48 layers and the exact resulting position"
  let f = a.forward
  ok (record s {
    rows = s.rows ++ a.rows;
    current_session = some f.session;
    states = put f.session (tokens_of f.session s.states ++ f.input) s.states;
    committed = s.committed ++ f ∷ [];
    active = none;
  })

abbrev pub boundary : String → Value
boundary reason = object (field "cache_boundary" (str reason) end)

-- event `forward_abort`; the request of an active forward is there
unfoldable pub on_forward_abort : String → Value → State → Result State
on_forward_abort pointer d s = do
  a ← active_of s.active "Invalid aborted forward"
  captured ← get_key "captured_layers" d
  require (is_number (length a.rows) captured) "Invalid aborted forward"
  r ← request_of s.request "'NoneType' object does not support item assignment"
  ok (record s {
    aborted = s.aborted + 1;
    rows = s.rows ++ (pointer, boundary "forward_abort") ∷ [];
    request = some (record r { aborted = true });
    active = none;
  })

-- `output[-1] in (248044, 248046)`, for outputs that are not empty
unfoldable pub ends_text : List ℕ → Bool
ends_text [] = false
ends_text (t ∷ []) = t == 248044 || t == 248046
ends_text (t ∷ u ∷ output) = ends_text (u ∷ output)

-- `output[:-1]`
unfoldable pub without_last : List ℕ → List ℕ
without_last [] = []
without_last (t ∷ []) = []
without_last (t ∷ u ∷ output) = t ∷ without_last (u ∷ output)

-- the stopping rule of a request at its reason and output
abbrev pub stops : Request → Value → List ℕ → Bool
stops r finish output =
    leb (length output) r.max_tokens
    && (if r.prime then is_text "primed" finish else not (is_text "primed" finish))
    && not (r.prime && not (is_empty output))
    && not (not r.prime && is_empty output)
    && not (is_text "length" finish && not (length output == r.max_tokens))
    && not (is_text "stop" finish && not (ends_text output))

-- `states.get(current_session) == expected`
abbrev pub holds : Option String → Dict String (List ℕ) → List ℕ → Bool
holds none states expected = false
holds (some session) states expected = elim (get session states) [
  | none ↦ false
  | some tokens ↦ same_numbers tokens expected
]

-- `request['_initial_sizes'].get(current_session, 0)`
abbrev pub size_of : Option String → Dict String ℕ → ℕ
size_of none sizes = 0
size_of (some session) sizes = elim (get session sizes) [ none ↦ 0 | some n ↦ n ]

-- event `request_end`
unfoldable pub on_request_end : Value → State → Result State
on_request_end d s = do
  r ← request_of s.request "Cannot complete a missing, aborted or active request"
  require (not (is_some s.active) && not r.aborted)
      "Cannot complete a missing, aborted or active request"
  output_value ← get_key "output_token_ids" d
  output ← token_ids true output_value
  finish ← get_key "finish_reason" d
  reused ← get_key "reused_tokens" d
  require
      ((is_text "length" finish || is_text "stop" finish || is_text "primed" finish)
        && is_between 0 (length r.input) reused)
      "Invalid request result"
  require (stops r finish output) "Output does not match the request stopping rule"
  require
      (holds s.current_session s.states (r.input ++ without_last output)
        && size_of s.current_session r.initial_sizes == number reused)
      "Committed inputs or reused computation do not match the request result"
  ok (record s {
    requests =
        s.requests
        ++ record {
          request = record r { initial_sizes = [] };
          output = output;
          reused = number reused;
          result = d;
        }
          ∷ [];
    request = none;
  })

-- event `cache_reset`
unfoldable pub on_cache_reset : String → State → Result State
on_cache_reset pointer s = do
  require (not (is_some s.active)) "Cannot reset cache in a forward"
  ok (record s { epoch = s.epoch + 1; rows = s.rows ++ (pointer, boundary "cache_reset") ∷ [] })

-- `status in ('complete', 'incomplete')`, as the status
unfoldable pub status_of : Value → Result Status
status_of status =
    if is_text "complete" status
    then ok complete
    else if is_text "incomplete" status
    then ok incomplete
    else raise (value_error "Invalid route termination")

abbrev pub may_end : Status → State → Bool
may_end complete s = not (is_some s.request || is_some s.active)
may_end incomplete s = true

-- event `trace_end`
unfoldable pub on_trace_end : Value → State → Result State
on_trace_end d s = do
  value ← get_key "status" d
  terminal ← status_of value
  require (may_end terminal s) "Invalid route termination"
  ok (record s { terminal = some terminal })
