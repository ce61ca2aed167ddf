-- ===== src/Trace/Tests.antt =====
-- A trace with one priming request of one token, and its report.
use zerocool.Prelude.{
  ℕ, zero, suc, ◌-◌, ◌*◌, ◌≤◌, ◌≡◌, refl, true, false, List, [], ◌∷◌, String, length, ok, ok_of,
  is_ok, all, take, drop, sorted_set, insert_number, same_list,
}
use zerocool.Dict.{get, put}
use zerocool.Json.{
  Value, bool, int, str, list, object, nil, cons, Fields, end, field, find, get_key,
}
use zerocool.Routes.Tests.{ten}
use zerocool.Trace.State.{token_ids, digits}
use zerocool.Trace.Events.{
  on_trace_begin, on_request_begin, text_of, on_forward_begin, active_of, request_of,
  check_selected, on_routes, on_forward_commit, ends_text, without_last, on_request_end,
  on_cache_reset, status_of, on_trace_end,
}
use zerocool.Trace.Decode.{
  Report, handle_event, after_header, handle, step, run, report, decode_events,
}
use zerocool.Trace.Committed.{Follows, AreAnswered, inputs_of, passes_of}
use zerocool.Trace.Report.{decode_events-Follows, decode_events-AreAnswered}

-- an event at its place in the trace, with the numbers of requests and forwards so far
abbrev event : ℕ → String → Fields → ℕ → ℕ → Value
event sequence name details requests forwards = object (
    field "kind" (str "qwen_route_trace_v1") (
      field "sequence" (int sequence) (
        field "monotonic_ns" (int sequence) (
          field "event" (str name) (
            field "details" (object details)
              (field "request_id" (int requests) (field "forward_id" (int forwards) end)))))))

abbrev one_token : Value
one_token = list (cons (int 7) nil)

-- the events behind the rows
abbrev ending : List Value
ending =
    event 52 "forward_commit" (field "position" (int 1) end) 1 1
    ∷ event 53 "request_end"
        (field "output_token_ids" (list nil)
          (field "finish_reason" (str "primed") (field "reused_tokens" (int 0) end)))
        1 1
    ∷ event 54 "cache_reset" end 1 1
    ∷ event 55 "trace_end" (field "status" (str "complete") end) 1 1
    ∷ []

-- the rows of the last `n` layers, and what follows
abbrev passes : ℕ → List Value
passes zero = ending
passes (suc n) =
    event (51 - n) "routes" (field "layer" (int (47 - n)) (field "routes" ten end)) 1 1 ∷ passes n

abbrev trace : List Value
trace =
    event 1 "trace_begin" (field "identity" (object end) end) 0 0
    ∷ event 2 "request_begin"
        (field "input_token_ids" one_token
          (field "max_tokens" (int 1) (field "prime" (bool true) end)))
        1 0
    ∷ event 3 "forward_begin"
        (field "input_token_ids" one_token (
          field "offset" (int 0) (
            field "tokens" (int 1) (
              field "session_id" (str "s")
                (field "request_phase" (str "prefill") (field "expert_slots" (int 8) end))))))
        1 1
    ∷ passes 48

trailing_refused : is_ok (decode_events trace true) ≡ false
unfolding decode_events run step handle after_header handle_event on_trace_begin on_request_begin
    on_forward_begin on_routes on_forward_commit on_request_end on_cache_reset on_trace_end
    status_of text_of active_of request_of check_selected ends_text without_last token_ids digits
    report get_key find get put all take drop sorted_set insert_number same_list
trailing_refused = refl

trace_whole : is_ok (decode_events trace false) ≡ true
unfolding decode_events run step handle after_header handle_event on_trace_begin on_request_begin
    on_forward_begin on_routes on_forward_commit on_request_end on_cache_reset on_trace_end
    status_of text_of active_of request_of check_selected ends_text without_last token_ids digits
    report get_key find get put all take drop sorted_set insert_number same_list
trace_whole = refl

trace_end : (r : Report) × (decode_events trace false ≡ ok r)
trace_end = ok_of (decode_events trace false) trace_whole

decode_events-Follows_example :
    Follows [] trace_end.0.committed
    × ((session : String) → length (inputs_of session trace_end.0.committed) ≤ 8192)
    × (passes_of trace_end.0.rows ≡ 48 * length trace_end.0.committed)
decode_events-Follows_example = decode_events-Follows trace false trace_end.1

decode_events-AreAnswered_example : AreAnswered trace_end.0.committed trace_end.0.requests
decode_events-AreAnswered_example = decode_events-AreAnswered trace false trace_end.1
