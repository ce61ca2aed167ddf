-- ===== src/Trace/Keeps.antt =====
-- Predicates on the state that every event of `decode` in scripts/qwen/route_trace.py keeps.
use zerocool.Prelude.{
  ℕ, suc, ◌≡◌, Bool, true, false, not, ◌&&◌, Option, none, some, List, [], ◌∷◌, String, nat_eq,
  length, Result, ok, bind_inverse, require, is_some, if◌then◌else◌, ok_injective, sym,
}
use zerocool.Json.{Value, get_key, is_object, is_text, is_number, number}
use zerocool.Routes.Windows.{is_empty}
use zerocool.Trace.State.{State, Last, initial, at_least, decimal, ◌&◌}
use zerocool.Trace.Events.{
  on_trace_begin, on_request_begin, on_forward_begin, on_routes, on_forward_commit,
  on_forward_abort, on_request_end, on_cache_reset, on_trace_end,
}
use zerocool.Trace.Decode.{
  Report, handle_event, after_header, handle, step, run, report, decode_events,
}

-- The predicate goes on through every branch of the loop.
pub record Keeps (P : State → Type 0) : Type 0 where
  pub touch :
      (s : State) (now : ℕ) (last : Option Last)
      → P s
      → P (record s { timestamp = now; last = last })
  pub trace_begin :
      (sequence : ℕ) (d : Value) (s : State) {s' : State}
      → on_trace_begin sequence d s ≡ ok s'
      → P s
      → P s'
  pub request_begin :
      (pointer : String) (d : Value) (s : State) {s' : State}
      → on_request_begin pointer d s ≡ ok s'
      → P s
      → P s'
  pub forward_begin :
      (pointer : String) (d : Value) (s : State) {s' : State}
      → on_forward_begin pointer d s ≡ ok s'
      → P s
      → P s'
  pub routes :
      (pointer : String) (header d : Value) (s : State) {s' : State}
      → on_routes pointer header d s ≡ ok s'
      → P s
      → P s'
  pub forward_commit :
      (d : Value) (s : State) {s' : State} → on_forward_commit d s ≡ ok s' → P s → P s'
  pub forward_abort :
      (pointer : String) (d : Value) (s : State) {s' : State}
      → on_forward_abort pointer d s ≡ ok s'
      → P s
      → P s'
  pub request_end : (d : Value) (s : State) {s' : State} → on_request_end d s ≡ ok s' → P s → P s'
  pub cache_reset :
      (pointer : String) (s : State) {s' : State} → on_cache_reset pointer s ≡ ok s' → P s → P s'
  pub trace_end : (d : Value) (s : State) {s' : State} → on_trace_end d s ≡ ok s' → P s → P s'

-- One of two branches, by the test that chooses it.
if_keeps {ℓ κ} :
    {A : Type ℓ} {Q : Type κ} (b : Bool) (m k : Result A) {a : A}
    → (if b then m else k) ≡ ok a
    → (m ≡ ok a → Q)
    → (k ≡ ok a → Q)
    → Q
if_keeps true m k h first second = first h
if_keeps false m k h first second = second h

module _ {P : State → Type 0} (keeps : Keeps P) where
  handle_event_keeps :
      (pointer : String) (header event d : Value) (s : State) {s' : State}
      → handle_event pointer header event d s ≡ ok s'
      → P s
      → P s'
  unfolding handle_event
  handle_event_keeps pointer header event d s h v =
      if_keeps (is_text "request_begin" event) _ _ h (λ e. keeps.request_begin pointer d s e v)
        (λ h1.
          if_keeps (is_text "forward_begin" event) _ _ h1 (λ e. keeps.forward_begin pointer d s e v)
            (λ h2.
              if_keeps (is_text "routes" event) _ _ h2 (λ e. keeps.routes pointer header d s e v)
                (λ h3.
                  if_keeps (is_text "forward_commit" event) _ _ h3
                    (λ e. keeps.forward_commit d s e v)
                    (λ h4.
                      if_keeps (is_text "forward_abort" event) _ _ h4
                        (λ e. keeps.forward_abort pointer d s e v)
                        (λ h5.
                          if_keeps (is_text "request_end" event) _ _ h5
                            (λ e. keeps.request_end d s e v)
                            (λ h6.
                              if_keeps (is_text "cache_reset" event) _ _ h6
                                (λ e. keeps.cache_reset pointer s e v)
                                (λ h7.
                                  if_keeps (is_text "trace_end" event) _ _ h7
                                    (λ e. keeps.trace_end d s e v) (λ h8. cc))))))))

  after_header_keeps :
      (pointer : String) (header : Option Value) (event d : Value) (s : State) {s' : State}
      → after_header pointer header event d s ≡ ok s'
      → P s
      → P s'
  unfolding after_header
  after_header_keeps pointer none event d s h v = cc
  after_header_keeps pointer (some header) event d s h v =
      handle_event_keeps pointer header event d s h v

  handle_keeps :
      (sequence : ℕ) (pointer : String) (event d : Value) (s : State) {s' : State}
      → handle sequence pointer event d s ≡ ok s'
      → P s
      → P s'
  unfolding handle
  handle_keeps sequence pointer event d s h v =
      if_keeps (is_text "trace_begin" event) _ _ h (λ e. keeps.trace_begin sequence d s e v)
        (λ h1. after_header_keeps pointer s.header event d s h1 v)

  step_keeps :
      (sequence : ℕ) (row : Value) (s : State) {s' : State}
      → step sequence row s ≡ ok s'
      → P s
      → P s'
  unfolding step
  step_keeps sequence row s {s'} h v =
      let (u1, e1, h1) =
        bind_inverse (require (is_object row) "Invalid route sequence or events after termination")
          _ h in
      let (kind, e2, h2) = bind_inverse (get_key "kind" row) _ h1 in
      let (recorded, e3, h3) = bind_inverse (get_key "sequence" row) _ h2 in
      let (u4, e4, h4) =
        bind_inverse
          (require
            (is_text "qwen_route_trace_v1" kind
              && is_number sequence recorded
              && not (is_some s.terminal))
            "Invalid route sequence or events after termination")
          _ h3 in
      let (now, e5, h5) = bind_inverse (get_key "monotonic_ns" row) _ h4 in
      let (u6, e6, h6) =
        bind_inverse
          (require (at_least s.timestamp now) "Route timestamps must be monotonic integers") _ h5 in
      let (event, e7, h7) = bind_inverse (get_key "event" row) _ h6 in
      let (d, e8, h8) = bind_inverse (get_key "details" row) _ h7 in
      let (u9, e9, h9) =
        bind_inverse (require (is_object d) "Route event details must be an object") _ h8 in
      let pointer = "line:" & decimal sequence in
      let touched : State = record s {
        timestamp = number now;
        last = some (record { event = event; source_pointer = pointer; monotonic_ns = number now });
      } in
      let (s1, e10, h10) = bind_inverse (handle sequence pointer event d touched) _ h9 in
      let (id, e11, h11) = bind_inverse (get_key "request_id" row) _ h10 in
      let (forward, e12, h12) = bind_inverse (get_key "forward_id" row) _ h11 in
      let (u13, e13, h13) =
        bind_inverse
          (require (is_number s1.request_id id && is_number s1.forward_id forward)
            "Mismatched route request or forward ID")
          _ h12 in
      let kept : s1 ≡ s' = ok_injective h13 in
      rw (← kept) (
        handle_keeps sequence pointer event d touched e10
          (keeps.touch s (number now) touched.last v))

  run_keeps :
      (sequence : ℕ) (rows : List Value) (s : State) {s' : State}
      → run sequence rows s ≡ ok s'
      → P s
      → P s'
  unfolding run
  run_keeps sequence [] s h v = rw (← ok_injective h) v
  run_keeps sequence (row ∷ rows) s h v =
      let (s1, stepped, h1) = bind_inverse (step sequence row s) _ h in
      run_keeps (suc sequence) rows s1 h1 (step_keeps sequence row s stepped v)

  -- Where `decode_events` answers, it reports a state with the predicate.
  pub decode_events_keeps :
      (events : List Value) (partial : Bool) {r : Report}
      → decode_events events partial ≡ ok r
      → P initial
      → (s : State) × P s × (r ≡ report (length events) partial s)
  unfolding decode_events
  decode_events_keeps events partial h start =
      let (u, some_event, h1) =
        bind_inverse (require (not (is_empty events)) "Missing route trace header") _ h in
      let (s, ran, h2) = bind_inverse (run 1 events initial) _ h1 in
      let (w, ends, h3) =
        bind_inverse
          (require (not (is_some s.terminal && partial)) "Trailing bytes after route termination") _
          h2 in
      (s, run_keeps 1 events initial ran start, sym (ok_injective h3))
