-- ===== src/Trace/Steps.antt =====
-- Every event of `decode` in scripts/qwen/route_trace.py keeps the committed tokens in order.
use zerocool.Prelude.{
  ℕ, ◌+◌, ◌≡◌, refl, false, not, ◌&&◌, arith, String, ◌==◌, nat_eq, string_eq, leb, length, ok,
  bind_inverse, require, is_some, ok_injective,
}
use zerocool.Json.{Value, get_key, is_number, is_object, is_bool, number}
use zerocool.Trace.State.{State, at_least, token_ids}
use zerocool.Trace.Events.{
  tokens_of, text_of, on_trace_begin, on_request_begin, on_forward_begin, on_cache_reset,
  on_trace_end, status_of, may_end,
}
use zerocool.Trace.Checks.{geometry}
use zerocool.Trace.Committed.{IsCommitted, IsCommitted-same, passes_of-boundary, passes_of-none}

pub on_trace_begin-IsCommitted :
    (sequence : ℕ) (d : Value) (s : State) {s' : State}
    → on_trace_begin sequence d s ≡ ok s'
    → IsCommitted s
    → IsCommitted s'
unfolding on_trace_begin
on_trace_begin-IsCommitted sequence d s {s'} h v =
    let (identity, e1, h1) = bind_inverse (get_key "identity" d) _ h in
    let (u, e2, h2) =
      bind_inverse (require (sequence == 1 && is_object identity) "Invalid route header") _ h1 in
    let kept = ok_injective h2 in
    rw (← kept) (IsCommitted-same {s = s} refl refl refl v.fits v.answered v)

pub on_request_begin-IsCommitted :
    (pointer : String) (d : Value) (s : State) {s' : State}
    → on_request_begin pointer d s ≡ ok s'
    → IsCommitted s
    → IsCommitted s'
unfolding on_request_begin
on_request_begin-IsCommitted pointer d s {s'} h v =
    let (u, e1, h1) =
      bind_inverse
        (require (not (is_some s.request) && not (is_some s.active)) "Overlapping route requests") _
        h in
    let (input_value, e2, h2) = bind_inverse (get_key "input_token_ids" d) _ h1 in
    let (input, e3, h3) = bind_inverse (token_ids false input_value) _ h2 in
    let (max_tokens, e4, h4) = bind_inverse (get_key "max_tokens" d) _ h3 in
    let (prime, e5, h5) = bind_inverse (get_key "prime" d) _ h4 in
    let (w, e6, h6) =
      bind_inverse
        (require (at_least 1 max_tokens && is_bool prime)
          "Invalid request output limit or prime flag")
        _ h5 in
    let kept = ok_injective h6 in
    rw (← kept) (IsCommitted-same {s = s} refl refl refl v.fits v.answered v)

pub on_cache_reset-IsCommitted :
    (pointer : String) (s : State) {s' : State}
    → on_cache_reset pointer s ≡ ok s'
    → IsCommitted s
    → IsCommitted s'
unfolding on_cache_reset
on_cache_reset-IsCommitted pointer s {s'} h v =
    let (u, e1, h1) =
      bind_inverse (require (not (is_some s.active)) "Cannot reset cache in a forward") _ h in
    let kept = ok_injective h1 in
    rw (← kept) (
      IsCommitted-same {s = s} refl refl (passes_of-boundary s.rows pointer "cache_reset") v.fits
        v.answered v)

pub on_trace_end-IsCommitted :
    (d : Value) (s : State) {s' : State} → on_trace_end d s ≡ ok s' → IsCommitted s → IsCommitted s'
unfolding on_trace_end
on_trace_end-IsCommitted d s {s'} h v =
    let (value, e1, h1) = bind_inverse (get_key "status" d) _ h in
    let (terminal, e2, h2) = bind_inverse (status_of value) _ h1 in
    let (u, e3, h3) =
      bind_inverse (require (may_end terminal s) "Invalid route termination") _ h2 in
    let kept = ok_injective h3 in
    rw (← kept) (IsCommitted-same {s = s} refl refl refl v.fits v.answered v)

pub on_forward_begin-IsCommitted :
    (pointer : String) (d : Value) (s : State) {s' : State}
    → on_forward_begin pointer d s ≡ ok s'
    → IsCommitted s
    → IsCommitted s'
unfolding on_forward_begin
on_forward_begin-IsCommitted pointer d s {s'} h v =
    let (u1, e1, h1) =
      bind_inverse
        (require (is_some s.request && not (is_some s.active)) "Forward needs one active request") _
        h in
    let (input_value, e2, h2) = bind_inverse (get_key "input_token_ids" d) _ h1 in
    let (input, e3, h3) = bind_inverse (token_ids false input_value) _ h2 in
    let (offset, e4, h4) = bind_inverse (get_key "offset" d) _ h3 in
    let (tokens, e5, h5) = bind_inverse (get_key "tokens" d) _ h4 in
    let (session_value, e6, h6) = bind_inverse (get_key "session_id" d) _ h5 in
    let (phase_value, e7, h7) = bind_inverse (get_key "request_phase" d) _ h6 in
    let (slots, e8, h8) = bind_inverse (get_key "expert_slots" d) _ h7 in
    let (u9, e9, h9) =
      bind_inverse
        (require
          (at_least 0 offset
            && is_number (length input) tokens
            && leb (number offset + number tokens) 8192)
          "Invalid forward identity or geometry")
        _ h8 in
    let (session, e10, h10) =
      bind_inverse (text_of session_value "Invalid forward identity or geometry") _ h9 in
    let (phase, e11, h11) =
      bind_inverse (text_of phase_value "Invalid forward identity or geometry") _ h10 in
    let (u12, e12, h12) =
      bind_inverse (require (at_least 1 slots) "Invalid forward identity or geometry") _ h11 in
    let (u13, e13, h13) =
      bind_inverse
        (require (number offset == length (tokens_of session s.states))
          "Forward offset does not continue the recorded session")
        _ h12 in
    let kept = ok_injective h13 in
    let (sized, inside) = geometry offset (length input) tokens e9 in
    rw (← kept) (
      IsCommitted-same {s = s} refl refl refl (ground (arith, e13), sized, inside, passes_of-none)
        v.answered v)
