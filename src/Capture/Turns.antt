-- ===== src/Capture/Turns.antt =====
-- A round of `validate_capture` in scripts/qwen/capture_routes.py: the request goes on from the history.
use zerocool.Prelude.{
  ℕ, ◌+◌, ◌≡◌, sym, ap, ◌∙◌, Bool, true, not, List, ◌++◌, arith, String, ◌==◌, nat_eq, string_eq,
  length, Result, ok, ok_injective, ◌>>=◌, bind_inverse, all,
}
use zerocool.Json.{
  Value, null, bool, int, negative, float, str, list, object, at, get_default, same,
}
use zerocool.Json.Numbers.{◌&?◌, check-true, both_hold}
use zerocool.Trace.State.{Forward, Completed}
use zerocool.Capture.Machine.{Host, size_of, agree}
use zerocool.Capture.Requests.{
  Answer, check_request, as_values, same_limit, same_output, covers_prompt, counts_steps,
  counts_outputs, is_after, check_forwards, answer,
}

-- the new tokens and the reused ones of a request: a follow-up has 128 new ones and reuses all of
-- the history but its last token, the first request reuses none
abbrev pub Reuses : Bool → List ℕ → List ℕ → ℕ → Type 0
Reuses Bool.true h added reused = reused ≡ 0
Reuses Bool.false h added reused = (length added ≡ 128) × (reused + 1 ≡ length h)

-- A request goes on from a history, and its decode steps are those of its outputs but the first.
pub record Turn (first : Bool) (h : List ℕ) (q : Completed) (a : Answer) : Type 0 where
  pub added : List ℕ
  pub input : q.request.input ≡ h ++ added
  pub reuses : Reuses first h added q.reused
  pub steps : a.committed_decode_steps + 1 ≡ length q.output

-- what `check_request` says of numbers
pub record Checked (row prompt reused : Value) (q : Completed) : Type 0 where
  pub input : same (as_values q.request.input) prompt ≡ true
  pub outputs : Value
  pub are_outputs : at "output_token_ids" row ≡ ok outputs
  pub output : same (as_values q.output) outputs ≡ true
  pub is_reused : same (int q.reused) reused ≡ true

pub check_request-Checked :
    (row task prompt reused : Value) (q : Completed) {u : Unit}
    → check_request row task prompt reused q ≡ ok u
    → Checked row prompt reused q
unfolding check_request
check_request-Checked row task prompt reused q h =
    let t6 : Result Bool = ok (same (int q.reused) reused) in
    let t5 = agree "finish_reason" q.result "finish_reason" row &? t6 in
    let t4 = same_output row q &? t5 in
    let t3 = ok (not q.request.prime) &? t4 in
    let t2 = same_limit task q &? t3 in
    let t1 = ok (same (as_values q.request.input) prompt) &? t2 in
    let t0 = agree "name" q.request.details "name" task in
    let message : String = "Trace tokens or finish reason differ from native report" in
    let (a, h1) = both_hold t0 t1 (check-true (t0 &? t1) message h) in
    let (input, h2) = both_hold (ok (same (as_values q.request.input) prompt)) t2 h1 in
    let (c, h3) = both_hold (same_limit task q) t3 h2 in
    let (d, h4) = both_hold (ok (not q.request.prime)) t4 h3 in
    let (e, h5) = both_hold (same_output row q) t5 h4 in
    let (f, is_reused) = both_hold (agree "finish_reason" q.result "finish_reason" row) t6 h5 in
    let (outputs, e1, e2) =
      bind_inverse (at "output_token_ids" row) (λ o. ok (same (as_values q.output) o)) e in
    record {
      input = ok_injective input;
      outputs = outputs;
      are_outputs = e1;
      output = ok_injective e2;
      is_reused = ok_injective is_reused;
    }

is_after-next :
    (host : Host) (n m : ℕ) (v : Value)
    → is_after host n v ≡ ok true
    → same v (int m) ≡ true
    → n + 1 ≡ m
unfolding is_after same
is_after-next host n m (int k) h g = ground (arith, ok_injective h, g)
is_after-next host n m (bool b) h g = ground (arith, ok_injective h, g)
is_after-next host n m null h g = cc
is_after-next host n m (negative k) h g = cc
is_after-next host n m (float s) h g = cc
is_after-next host n m (str s) h g = cc
is_after-next host n m (list vs) h g = cc
is_after-next host n m (object fs) h g = cc

outputs-steps :
    (host : Host) (row : Value) (n : ℕ) {ids : Value}
    → counts_steps host row n ≡ ok true
    → counts_outputs row ≡ ok true
    → at "output_token_ids" row ≡ ok ids
    → size_of ids ≡ ok (n + 1)
outputs-steps host row n {ids} d e is_ids =
    let (outputs, d1, d2) = bind_inverse (at "output_tokens" row) (is_after host n) d in
    let rest : Value → Value → Result Bool = λ o i. size_of i >>= λ k. ok (same o (int k)) in
    let (outputs', e1, e2) =
      bind_inverse (at "output_tokens" row) (λ o. at "output_token_ids" row >>= rest o) e in
    let (ids', e3, e4) = bind_inverse (at "output_token_ids" row) (rest outputs') e2 in
    let (k, e5, e6) = bind_inverse (size_of ids') (λ k. ok (same outputs' (int k))) e4 in
    let same_outputs : outputs' ≡ outputs = ok_injective (sym e1 ∙ d1) in
    let same_ids : ids' ≡ ids = ok_injective (sym e3 ∙ is_ids) in
    let counted : same outputs (int k) ≡ true =
      ap (λ o. same o (int k)) (sym same_outputs) ∙ ok_injective e6 in
    let next = is_after-next host n k outputs d2 counted in
    ap size_of (sym same_ids) ∙ e5 ∙ ap (λ j. ok j) (sym next)

-- The forwards that generated are one fewer than the outputs of the report.
pub check_forwards-steps :
    (host : Host) (row : Value) (size : ℕ) (reused : Value)
    (forwards generation ingestion : List Forward) {ids : Value} {u : Unit}
    → check_forwards host row size reused forwards generation ingestion ≡ ok u
    → at "output_token_ids" row ≡ ok ids
    → size_of ids ≡ ok (length generation + 1)
unfolding check_forwards
check_forwards-steps host row size reused forwards generation ingestion {ids} h is_ids =
    let n = length generation in
    let t3 = counts_steps host row n &? counts_outputs row in
    let t2 = ok (all (λ f. f.tokens == 1) generation) &? t3 in
    let t1 = covers_prompt size reused ingestion &? t2 in
    let t0 : Result Bool = ok (n + length ingestion == length forwards) in
    let message : String = "Generated outputs do not match committed forwards" in
    let (a, h1) = both_hold t0 t1 (check-true (t0 &? t1) message h) in
    let (b, h2) = both_hold (covers_prompt size reused ingestion) t2 h1 in
    let (c, h3) = both_hold (ok (all (λ f. f.tokens == 1) generation)) t3 h2 in
    let (d, e) = both_hold (counts_steps host row n) (counts_outputs row) h3 in
    outputs-steps host row n d e is_ids

pub answer-steps :
    (row task : Value) (target : ℕ) (reused : Value) (q : Completed) (generation : List Forward)
    {a : Answer}
    → answer row task target reused q generation ≡ ok a
    → a.committed_decode_steps ≡ length generation
unfolding answer
answer-steps row task target reused q generation h =
    let (name, e1, h1) = bind_inverse (at "name" task) _ h in
    let (outputs, e2, h2) = bind_inverse (at "output_tokens" row) _ h1 in
    let (reason, e3, h3) = bind_inverse (at "finish_reason" row) _ h2 in
    let (prompt, e4, h4) = bind_inverse (at "prompt_tokens" row) _ h3 in
    let (tokens, e5, h5) = bind_inverse (at "tokens" task) _ h4 in
    let (n, e6, h6) = bind_inverse (size_of tokens) _ h5 in
    let (pending, e7, h7) = bind_inverse (get_default "pending_tokens_ingested" (int 0) row) _ h6 in
    sym (ap (λ k. k.committed_decode_steps) (ok_injective h7))
