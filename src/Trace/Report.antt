-- ===== src/Trace/Report.antt =====
-- What the report of `decode` in scripts/qwen/route_trace.py says of the committed forwards.
use zerocool.Prelude.{◌*◌, ◌≤◌, ◌≡◌, refl, ap, Bool, List, [], arith, String, length, ok}
use zerocool.Dict.{get}
use zerocool.Json.{Value}
use zerocool.Trace.State.{initial}
use zerocool.Trace.Decode.{Report, report, decode_events}
use zerocool.Trace.Keeps.{decode_events_keeps}
use zerocool.Trace.Committed.{
  IsCommitted, Follows, AreAnswered, inputs_of, passes_of, passes_of-none,
}
use zerocool.Trace.Commits.{keeps_IsCommitted}

initial-IsCommitted : IsCommitted initial
unfolding inputs_of Follows AreAnswered get
initial-IsCommitted = record {
  held = λ session. refl;
  bounded = λ session. omega arith;
  fits = tt;
  follows = tt;
  counted = passes_of-none;
  answered = tt;
}

-- Where `decode` accepts the events, each committed forward starts where the earlier ones of its
-- session end and has as many tokens as it says; no session has more than 8192 tokens; the rows
-- with routes are 48 for each committed forward.
pub decode_events-Follows :
    (events : List Value) (partial : Bool) {r : Report}
    → decode_events events partial ≡ ok r
    → Follows [] r.committed
      × ((session : String) → length (inputs_of session r.committed) ≤ 8192)
      × (passes_of r.rows ≡ 48 * length r.committed)
unfolding report
decode_events-Follows events partial h =
    let (s, v, reported) =
      decode_events_keeps keeps_IsCommitted events partial h initial-IsCommitted in
    rw reported (
      v.follows,
      λ session. omega (arith, v.bounded session, ap length (v.held session)),
      v.counted,
    )

-- Where `decode` accepts the events, each request that it reports was answered behind some of the
-- committed forwards, where one session held exactly its input and all of its output but the last
-- token.
pub decode_events-AreAnswered :
    (events : List Value) (partial : Bool) {r : Report}
    → decode_events events partial ≡ ok r
    → AreAnswered r.committed r.requests
unfolding report
decode_events-AreAnswered events partial h =
    let (s, v, reported) =
      decode_events_keeps keeps_IsCommitted events partial h initial-IsCommitted in
    rw reported v.answered
