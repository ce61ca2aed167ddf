-- ===== src/Capture/Conversation.antt =====
-- What `validate_capture` of scripts/qwen/capture_routes.py has shown where it answers.
use zerocool.Prelude.{
  ℕ, ◌≡◌, refl, sym, ap, ◌∙◌, Bool, true, ◌&&◌, List, [], arith, String, ◌==◌, nat_eq, length,
  Result, ok, ok_injective, ◌>>=◌, bind_inverse, item, Option-cases, inl, inr,
}
use mathlib.Core.Path.{subst}
use zerocool.Json.{
  Value, int, str, list, object, null, bool, negative, float, nil, find, at, get_default,
  same_items,
}
use zerocool.Json.Numbers.{◌&?◌, check-true, both_hold}
use zerocool.Trace.Decode.{Report}
use zerocool.Capture.Machine.{Host, size_of}
use zerocool.Capture.Requests.{Context, Answer}
use zerocool.Capture.Validate.{
  Progress, Validated, on_requests, check_whole, check_identity, identity_keys, check_workload,
  runs_of, conclude, validate_capture, is_normal, same_runs,
}
use zerocool.Capture.History.{Turns, on_requests-Turns}

-- the lengths that the first check compares
check_whole-lengths :
    (host : Host) (raw : Value) (trace : Report) (evidence : Value) (workload : List Value)
    {u : Unit}
    → check_whole host raw trace evidence workload ≡ ok u
    → (same_runs raw workload ≡ ok true) × (length trace.requests ≡ length workload)
unfolding check_whole
check_whole-lengths host raw trace evidence workload h =
    let normal = is_normal host raw evidence workload in
    let equal : Result Bool = ok (trace.complete && length trace.requests == length workload) in
    let rest = same_runs raw workload &? equal in
    let message : String = "Missing completed normal request and matching committed trace" in
    let (a, h1) = both_hold normal rest (check-true (normal &? rest) message h) in
    let (counted, b) = both_hold (same_runs raw workload) equal h1 in
    (counted, ground (arith, ok_injective b))

default-at : (k : String) (d raw : Value) {v : Value} → at k raw ≡ ok v → get_default k d raw ≡ ok v
unfolding at get_default
default-at k d (object fs) {v} h = elim (Option-cases (find k fs)) [
  | inl absent ↦ cc
  | inr (w, found) ↦ cc
]
default-at k d null h = cc
default-at k d (bool b) h = cc
default-at k d (int n) h = cc
default-at k d (negative n) h = cc
default-at k d (float s) h = cc
default-at k d (str s) h = cc
default-at k d (list vs) h = cc

runs_of-size : (v : Value) {runs : List Value} → runs_of v ≡ ok runs → size_of v ≡ ok (length runs)
unfolding runs_of size_of
runs_of-size (list vs) h = ap (λ l. ok (length l)) (ok_injective h)
runs_of-size null h = cc
runs_of-size (bool b) h = cc
runs_of-size (int n) h = cc
runs_of-size (negative n) h = cc
runs_of-size (float s) h = cc
runs_of-size (str s) h = cc
runs_of-size (object fs) h = cc

-- the runs of the report are as many as the tasks
runs-length :
    (raw v : Value) (workload runs : List Value)
    → same_runs raw workload ≡ ok true
    → at "runs" raw ≡ ok v
    → runs_of v ≡ ok runs
    → length runs ≡ length workload
runs-length raw v workload runs h is_v is_runs =
    let compared : Value → Result Bool = λ w. size_of w >>= λ n. ok (n == length workload) in
    let (w, e1, h1) = bind_inverse (get_default "runs" (list nil) raw) compared h in
    let (n, e2, h2) = bind_inverse (size_of w) (λ k. ok (k == length workload)) h1 in
    let same_value : w ≡ v = ok_injective (sym e1 ∙ default-at "runs" (list nil) raw is_v) in
    let sized : length runs ≡ n =
      ok_injective (sym (runs_of-size v is_runs) ∙ ap size_of (sym same_value) ∙ e2) in
    sized ∙ ground (arith, ok_injective h2)

conclude-requests :
    (results : List Answer) {r : Validated} → conclude results ≡ ok r → r.requests ≡ results
unfolding conclude
conclude-requests results h =
    let (first, e1, h1) = bind_inverse (item results 0) _ h in
    ap (λ k. k.requests) (sym (ok_injective h1))

-- Where validate_capture accepts a capture, the input of the first request is new, and that of a
-- follow-up is the input and the output of the request before it and 128 new tokens, of which it
-- reused all but the last token of that history; the decode steps of each request are one fewer
-- than its outputs.
pub validate_capture-Turns :
    (host : Host) (raw : Value) (trace : Report) (evidence : Value) (workload : List Value)
    (config : Value) (steps : ℕ) {r : Validated}
    → validate_capture host raw trace evidence workload config steps ≡ ok r
    → Turns true [] trace.requests r.requests
unfolding validate_capture same_items
validate_capture-Turns host raw trace evidence workload config steps {r} h =
    let (u1, e1, h1) = bind_inverse (check_whole host raw trace evidence workload) _ h in
    let (u2, e2, h2) = bind_inverse (check_identity trace.identity evidence identity_keys) _ h1 in
    let (u3, e3, h3) = bind_inverse (check_workload host steps workload) _ h2 in
    let (v, e4, h4) = bind_inverse (at "runs" raw) _ h3 in
    let (runs, e5, h5) = bind_inverse (runs_of v) _ h4 in
    let (first_row, e6, h6) = bind_inverse (item runs 0) _ h5 in
    let (before, e7, h7) = bind_inverse (at "before" first_row) _ h6 in
    let (plan, e8, h8) = bind_inverse (at "memory_plan" before) _ h7 in
    let x : Context = record {
      evidence = evidence;
      config = config;
      initial_plan = plan;
      first_row = first_row;
    } in
    let start : Progress = record { history = []; session = []; results = [] } in
    let (p, e9, h9) =
      bind_inverse
        (on_requests host x trace.committed steps true runs workload trace.requests start) _ h8 in
    let (counted, tasks) = check_whole-lengths host raw trace evidence workload e1 in
    let rows = runs-length raw v workload runs counted e4 e5 in
    let (answers, results, turns) =
      on_requests-Turns host x trace.committed steps true runs workload trace.requests start [] e9
        (rows ∙ sym tasks) (sym tasks) refl refl in
    let all_answers : r.requests ≡ answers = conclude-requests p.results h9 ∙ results in
    subst (Turns true [] trace.requests) (sym all_answers) turns
