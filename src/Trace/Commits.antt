-- ===== src/Trace/Commits.antt =====
-- The events of `decode` in scripts/qwen/route_trace.py that add rows or end a request keep the
-- committed tokens in order, and so does all of it.
use zerocool.Prelude.{
  ◌+◌, ◌*◌, ◌≡◌, refl, sym, ap, ◌∙◌, true, not, ◌&&◌, ◌||◌, none, some, [], ◌∷◌, ◌++◌, arith,
  String, ◌==◌, nat_eq, string_eq, ltb, length, length-append, ok, bind_inverse, require, is_some,
  ok_injective, Bool-cases, inl, inr, require-true,
}
use zerocool.Dict.{put}
use zerocool.Json.{Value, get_key, is_list, is_number, elements, number, is_between, is_text}
use zerocool.Trace.State.{State, Active, Completed, token_ids}
use zerocool.Trace.Events.{
  layers, tokens_of, active_of, request_of, check_selected, on_routes, on_forward_commit,
  on_forward_abort, on_request_end, without_last, stops, holds, size_of,
}
use zerocool.Trace.Checks.{both_true, active_of-some, holds_tokens}
use zerocool.Trace.Keeps.{Keeps}
use zerocool.Trace.Steps.{
  on_trace_begin-IsCommitted, on_request_begin-IsCommitted, on_cache_reset-IsCommitted,
  on_trace_end-IsCommitted, on_forward_begin-IsCommitted,
}
use zerocool.Trace.Committed.{
  IsCommitted, IsCommitted-same, Fits, Follows-snoc, inputs_of, inputs_of-snoc, tokens_of-put,
  AreAnswered-more, AreAnswered-snoc, append_nil, passes_of-append, passes_of-boundary,
  passes_of-row,
}

on_routes-IsCommitted :
    (pointer : String) (header d : Value) (s : State) {s' : State}
    → on_routes pointer header d s ≡ ok s'
    → IsCommitted s
    → IsCommitted s'
unfolding on_routes
on_routes-IsCommitted pointer header d s {s'} h v =
    let (a, e1, h1) =
      bind_inverse (active_of s.active "Missing, repeated or reordered route layer") _ h in
    let (layer, e2, h2) = bind_inverse (get_key "layer" d) _ h1 in
    let (u3, e3, h3) =
      bind_inverse
        (require (is_number (length a.rows) layer && ltb (number layer) layers)
          "Missing, repeated or reordered route layer")
        _ h2 in
    let (routes, e4, h4) = bind_inverse (get_key "routes" d) _ h3 in
    let (u5, e5, h5) =
      bind_inverse
        (require (is_list routes && length (elements routes) == a.forward.tokens * 10)
          "Missing top-10 routes")
        _ h4 in
    let (u6, e6, h6) = bind_inverse (check_selected a.forward.tokens (elements routes)) _ h5 in
    let (build, e7, h7) = bind_inverse (get_key "build" header) _ h6 in
    let (revision, e8, h8) = bind_inverse (get_key "artifact_revision" header) _ h7 in
    let kept = ok_injective h8 in
    let fits : Fits (some a) s.states =
      rw (active_of-some s.active "Missing, repeated or reordered route layer" e1) at v.fits in
    let counted =
      passes_of-row a.rows pointer a.forward (number layer) routes build revision s.epoch fits.3 in
    rw (← kept)
      (IsCommitted-same {s = s} refl refl refl (fits.0, fits.1, fits.2, counted) v.answered v)

-- The state behind a commit of a forward that fits.
commit-IsCommitted :
    (a : Active) (s : State)
    → s.active ≡ some a
    → length a.rows ≡ 48
    → IsCommitted s
    → IsCommitted (record s {
      rows = s.rows ++ a.rows;
      current_session = some a.forward.session;
      states =
          put a.forward.session (tokens_of a.forward.session s.states ++ a.forward.input) s.states;
      committed = s.committed ++ a.forward ∷ [];
      active = none;
    })
commit-IsCommitted a s active rows v =
    let fits : Fits (some a) s.states = rw active at v.fits in
    let f = a.forward in
    let tokens = tokens_of f.session s.states ++ f.input in
    let long = length-append (tokens_of f.session s.states) f.input in
    record {
      held = λ session. elim (Bool-cases (f.session == session)) [
        | inl same ↦
            rw
              (
                tokens_of-put f.session session tokens s.states,
                inputs_of-snoc session s.committed f,
                same,
              )
              (ap (λ xs. xs ++ f.input) (v.held f.session)
                ∙ ap (λ j. inputs_of j s.committed ++ f.input)
                    ((string_eq.equal_iff f.session session).0 same))
        | inr differs ↦
            rw
              (
                tokens_of-put f.session session tokens s.states,
                inputs_of-snoc session s.committed f,
                differs,
              )
              (v.held session)
      ];
      bounded = λ session. elim (Bool-cases (f.session == session)) [
        | inl same ↦
            rw (tokens_of-put f.session session tokens s.states, same)
              (omega (arith, long, fits.0, fits.1, fits.2))
        | inr differs ↦
            rw (tokens_of-put f.session session tokens s.states, differs) (v.bounded session)
      ];
      fits = tt;
      follows =
          Follows-snoc [] s.committed f v.follows (fits.0 ∙ ap length (v.held f.session)) fits.1;
      counted = omega (
        arith,
        v.counted,
        rows,
        fits.3,
        passes_of-append s.rows a.rows,
        length-append s.committed (f ∷ []),
      );
      answered = AreAnswered-more s.committed f s.requests v.answered;
    }

on_forward_commit-IsCommitted :
    (d : Value) (s : State) {s' : State}
    → on_forward_commit d s ≡ ok s'
    → IsCommitted s
    → IsCommitted s'
unfolding on_forward_commit
on_forward_commit-IsCommitted d s {s'} h v =
    let message : String = "Commit needs all 48 layers and the exact resulting position" in
    let (a, e1, h1) = bind_inverse (active_of s.active message) _ h in
    let (position, e2, h2) = bind_inverse (get_key "position" d) _ h1 in
    let (u3, e3, h3) =
      bind_inverse
        (require
          (length a.rows == layers && is_number (a.forward.offset + a.forward.tokens) position)
          message)
        _ h2 in
    let kept = ok_injective h3 in
    let whole =
      both_true (length a.rows == layers) (is_number (a.forward.offset + a.forward.tokens) position)
        (require-true _ message e3) in
    rw (← kept)
      (commit-IsCommitted a s (active_of-some s.active message e1) (ground (arith, whole.0)) v)

on_forward_abort-IsCommitted :
    (pointer : String) (d : Value) (s : State) {s' : State}
    → on_forward_abort pointer d s ≡ ok s'
    → IsCommitted s
    → IsCommitted s'
unfolding on_forward_abort
on_forward_abort-IsCommitted pointer d s {s'} h v =
    let (a, e1, h1) = bind_inverse (active_of s.active "Invalid aborted forward") _ h in
    let (captured, e2, h2) = bind_inverse (get_key "captured_layers" d) _ h1 in
    let (u3, e3, h3) =
      bind_inverse (require (is_number (length a.rows) captured) "Invalid aborted forward") _ h2 in
    let (r, e4, h4) =
      bind_inverse (request_of s.request "'NoneType' object does not support item assignment") _
        h3 in
    let kept = ok_injective h4 in
    rw (← kept) (
      IsCommitted-same {s = s} refl refl (passes_of-boundary s.rows pointer "forward_abort") tt
        v.answered v)

on_request_end-IsCommitted :
    (d : Value) (s : State) {s' : State}
    → on_request_end d s ≡ ok s'
    → IsCommitted s
    → IsCommitted s'
unfolding on_request_end
on_request_end-IsCommitted d s {s'} h v =
    let message : String =
      "Committed inputs or reused computation do not match the request result" in
    let (r, e1, h1) =
      bind_inverse (request_of s.request "Cannot complete a missing, aborted or active request") _
        h in
    let (u2, e2, h2) =
      bind_inverse
        (require (not (is_some s.active) && not r.aborted)
          "Cannot complete a missing, aborted or active request")
        _ h1 in
    let (output_value, e3, h3) = bind_inverse (get_key "output_token_ids" d) _ h2 in
    let (output, e4, h4) = bind_inverse (token_ids true output_value) _ h3 in
    let (finish, e5, h5) = bind_inverse (get_key "finish_reason" d) _ h4 in
    let (reused, e6, h6) = bind_inverse (get_key "reused_tokens" d) _ h5 in
    let (u7, e7, h7) =
      bind_inverse
        (require
          ((is_text "length" finish || is_text "stop" finish || is_text "primed" finish)
            && is_between 0 (length r.input) reused)
          "Invalid request result")
        _ h6 in
    let (u8, e8, h8) =
      bind_inverse
        (require (stops r finish output) "Output does not match the request stopping rule") _ h7 in
    let expected = r.input ++ without_last output in
    let (u9, e9, h9) =
      bind_inverse
        (require
          (holds s.current_session s.states expected
            && size_of s.current_session r.initial_sizes == number reused)
          message)
        _ h8 in
    let kept = ok_injective h9 in
    let both =
      both_true (holds s.current_session s.states expected)
        (size_of s.current_session r.initial_sizes == number reused) (require-true _ message e9) in
    let (session, held) = holds_tokens s.current_session s.states expected both.0 in
    let c : Completed = record {
      request = record r { initial_sizes = [] };
      output = output;
      reused = number reused;
      result = d;
    } in
    rw (← kept) (
      IsCommitted-same {s = s} refl refl refl v.fits
        (AreAnswered-snoc s.committed s.requests c v.answered
          (s.committed, [], session, sym (append_nil s.committed), sym (v.held session) ∙ held))
        v)

pub keeps_IsCommitted : Keeps IsCommitted
keeps_IsCommitted = record {
  touch = λ s now last v. IsCommitted-same {s = s} refl refl refl v.fits v.answered v;
  trace_begin = on_trace_begin-IsCommitted;
  request_begin = on_request_begin-IsCommitted;
  forward_begin = on_forward_begin-IsCommitted;
  routes = on_routes-IsCommitted;
  forward_commit = on_forward_commit-IsCommitted;
  forward_abort = on_forward_abort-IsCommitted;
  request_end = on_request_end-IsCommitted;
  cache_reset = on_cache_reset-IsCommitted;
  trace_end = on_trace_end-IsCommitted;
}
