-- ===== src/Capture/History.antt =====
-- The requests that `validate_capture` of scripts/qwen/capture_routes.py accepts are one conversation.
use zerocool.Prelude.{
  ℕ, ◌+◌, ◌≡◌, refl, sym, ap, ◌∙◌, Bool, true, false, List, [], ◌∷◌, ◌++◌, arith, String, ◌==◌,
  nat_eq, string_eq, if◌then◌else◌, leb, length, Bool-cases, inl, inr, Result, ok, ok_injective,
  ◌>>=◌, bind_inverse, require, all,
}
use mathlib.Core.Path.{subst}
use mathlib.Core.List.{append-nil, append_assoc}
use zerocool.Json.{
  Value, null, bool, int, negative, float, str, object, list, items, as_items, at, get_key, is_true,
  same,
}
use zerocool.Json.Numbers.{◌&?◌, minus, check-true, both_hold}
use zerocool.Trace.State.{Forward, Completed}
use zerocool.Capture.Machine.{Host, size_of}
use zerocool.Capture.Requests.{
  Context, Answer, has_new, has_limit, check_follow_up, append_list, prompt_of, reused_of,
  check_row, check_boundary, check_request, as_values, forwards_of, in_phase, session_of,
  check_forwards, answer,
}
use zerocool.Capture.Validate.{
  Progress, Opened, open_request, next_history, phase_name, on_request, on_requests,
}
use zerocool.Capture.Numbers.{Holds, Holds-append, Holds-prefix, Holds-list, length-Holds}
use zerocool.Capture.Turns.{Reuses, Turn, check_request-Checked, check_forwards-steps, answer-steps}

-- What opens a request: its prompt and its reused tokens.
record Opens (first : Bool) (history : List Value) (task : Value) (o : Opened) : Type 0 where
  follows : (if first then ok tt else check_follow_up task) ≡ ok tt
  prompt : prompt_of first history task ≡ ok o.prompt
  reused : o.reused ≡ reused_of first history

open_request-Opens :
    (host : Host) (x : Context) (first : Bool) (history : List Value) (row task : Value)
    {o : Opened}
    → open_request host x first history row task ≡ ok o
    → Opens first history task o
unfolding open_request
open_request-Opens host x first history row task h =
    let (u1, e1, h1) = bind_inverse (if first then ok tt else check_follow_up task) _ h in
    let (prompt, e2, h2) = bind_inverse (prompt_of first history task) _ h1 in
    let (n, e3, h3) = bind_inverse (size_of prompt) _ h2 in
    let reused = reused_of first history in
    let (u4, e4, h4) = bind_inverse (check_row first row task n reused) _ h3 in
    let (before, e5, h5) = bind_inverse (at "before" row) _ h4 in
    let (u6, e6, h6) = bind_inverse (check_boundary host x before) _ h5 in
    let (after, e7, h7) = bind_inverse (at "after" row) _ h6 in
    let (u8, e8, h8) = bind_inverse (check_boundary host x after) _ h7 in
    let kept = ok_injective h8 in
    record {
      follows = e1;
      prompt = e2 ∙ ap (λ k. ok k.prompt) kept;
      reused = ap (λ k. k.reused) (sym kept);
    }

-- a number that is one less than a length
minus_one : (n m : ℕ) → same (int n) (minus m 1) ≡ true → n + 1 ≡ m
unfolding minus same
minus_one n m h = elim (Bool-cases (leb 1 m)) [
  | inl above ↦ ground (arith, above, rw above at h)
  | inr below ↦ cc
]

follow_up-new :
    (task tokens : Value)
    → check_follow_up task ≡ ok tt
    → at "tokens" task ≡ ok tokens
    → size_of tokens ≡ ok 128
unfolding check_follow_up
follow_up-new task tokens h is_tokens =
    let appends : Result Bool = get_key "append" task >>= λ append. ok (is_true append) in
    let rest = has_new task &? has_limit task in
    let message : String = "Follow-up requires 128 new tokens and 32 decode steps" in
    let (a, h1) = both_hold appends rest (check-true (appends &? rest) message h) in
    let (b, c) = both_hold (has_new task) (has_limit task) h1 in
    let counted : Value → Result Bool = λ v. size_of v >>= λ n. ok (n == 128) in
    let (v, e1, h2) = bind_inverse (at "tokens" task) counted b in
    let (n, e2, h3) = bind_inverse (size_of v) (λ n. ok (n == 128)) h2 in
    let same_tokens : v ≡ tokens = ok_injective (sym e1 ∙ is_tokens) in
    let is_128 : n ≡ 128 = ground (arith, ok_injective h3) in
    ap size_of (sym same_tokens) ∙ e2 ∙ ap (λ k. ok k) is_128

append_list-list :
    (vs : List Value) (v : Value) {us : List Value}
    → append_list vs v ≡ ok us
    → (ws : List Value) × (us ≡ vs ++ ws) × (size_of v ≡ ok (length ws))
unfolding append_list size_of
append_list-list vs (list ws) h = (items ws, sym (ok_injective h), refl)
append_list-list vs null h = cc
append_list-list vs (bool b) h = cc
append_list-list vs (int n) h = cc
append_list-list vs (negative n) h = cc
append_list-list vs (float s) h = cc
append_list-list vs (str s) h = cc
append_list-list vs (object fs) h = cc

-- the first request has no history
abbrev Starts : Bool → List ℕ → Type 0
Starts Bool.true h = h ≡ []
Starts Bool.false h = Unit

-- The numbers of a request's input go on from those of the history.
turn_of :
    (first : Bool) (numbers : List ℕ) (history : List Value) (task : Value) (o : Opened)
    (q : Completed)
    → Opens first history task o
    → Holds numbers history
    → Starts first numbers
    → same (as_values q.request.input) o.prompt ≡ true
    → same (int q.reused) o.reused ≡ true
    → (added : List ℕ) × (q.request.input ≡ numbers ++ added) × Reuses first numbers added q.reused
unfolding same prompt_of
turn_of Bool.true numbers history task o q opens held start input reused =
    let zero_reused : same (int q.reused) (int 0) ≡ true = rw opens.reused at reused in
    (q.request.input, ap (λ h. h ++ q.request.input) (sym start), ground (arith, zero_reused))
turn_of Bool.false numbers history task o q opens held start input reused =
    let joined : Value → Result Value =
      λ v. append_list history v >>= λ vs. ok (list (as_items vs)) in
    let (tokens, e1, h1) = bind_inverse (at "tokens" task) joined opens.prompt in
    let (us, e2, h2) =
      bind_inverse (append_list history tokens) (λ vs. ok (list (as_items vs))) h1 in
    let (ws, is_joined, sized) = append_list-list history tokens e2 in
    let prompt : o.prompt ≡ list (as_items (history ++ ws)) =
      sym (ok_injective h2) ∙ ap (λ l. list (as_items l)) is_joined in
    let all_held : Holds q.request.input (history ++ ws) = rw prompt at input in
    let (added, is_input, new) = Holds-prefix numbers q.request.input history ws held all_held in
    let counted : length ws ≡ 128 =
      ok_injective (sym sized ∙ follow_up-new task tokens opens.follows e1) in
    let is_reused : same (int q.reused) (minus (length history) 1) ≡ true =
      rw opens.reused at reused in
    (
      added,
      is_input,
      (
        sym (length-Holds added ws new) ∙ counted,
        minus_one q.reused (length history) is_reused ∙ length-Holds numbers history held,
      ),
    )

-- The history behind a request: its input and its output.
next_history-Holds :
    (numbers outs : List ℕ) (prompt outputs : Value) {history : List Value}
    → next_history prompt outputs ≡ ok history
    → same (as_values numbers) prompt ≡ true
    → same (as_values outs) outputs ≡ true
    → Holds (numbers ++ outs) history
unfolding next_history append_list
next_history-Holds numbers outs prompt outputs {history} h input output =
    let (vs, is_prompt, held) = Holds-list numbers prompt input in
    let (ws, is_outputs, others) = Holds-list outs outputs output in
    let joined : ok (items vs ++ items ws) ≡ ok history = rw (is_prompt, is_outputs) at h in
    subst (Holds (numbers ++ outs)) (ok_injective joined)
      (Holds-append numbers outs (items vs) (items ws) held others)

size_of-Holds :
    (outs : List ℕ) (outputs : Value) {n : ℕ}
    → same (as_values outs) outputs ≡ true
    → size_of outputs ≡ ok n
    → n ≡ length outs
unfolding size_of
size_of-Holds outs outputs {n} output sized =
    let (ws, is_outputs, held) = Holds-list outs outputs output in
    let counted : ok (length (items ws)) ≡ ok n = rw is_outputs at sized in
    sym (ok_injective counted) ∙ length-Holds outs (items ws) held

-- What a round adds to the variables of the loop.
record Round (first : Bool) (numbers : List ℕ) (q : Completed) (p p' : Progress) : Type 0 where
  given : Answer
  turn : Turn first numbers q given
  results : p'.results ≡ p.results ++ given ∷ []
  held : Holds (q.request.input ++ q.output) p'.history

on_request-Round :
    (host : Host) (x : Context) (committed : List Forward) (steps : ℕ) (first : Bool)
    (row task : Value) (q : Completed) (p : Progress) (numbers : List ℕ) {p' : Progress}
    → on_request host x committed steps first row task q p ≡ ok p'
    → Holds numbers p.history
    → Starts first numbers
    → Round first numbers q p p'
unfolding on_request
on_request-Round host x committed steps first row task q p numbers {p'} h held start =
    let (o, e1, h1) = bind_inverse (open_request host x first p.history row task) _ h in
    let (u2, e2, h2) = bind_inverse (check_request row task o.prompt o.reused q) _ h1 in
    let forwards = forwards_of q.request.request_id committed in
    let (session, e3, h3) = bind_inverse (session_of p.session forwards) _ h2 in
    let (u4, e4, h4) =
      bind_inverse
        (require (all (λ f. f.session == session) forwards) "Follow-up rebuilt session state") _
        h3 in
    let generation = in_phase "decode" forwards in
    let ingestion = in_phase (phase_name first) forwards in
    let (u5, e5, h5) =
      bind_inverse (check_forwards host row o.size o.reused forwards generation ingestion) _ h4 in
    let target = if first then steps else 32 in
    let (a, e6, h6) = bind_inverse (answer row task target o.reused q generation) _ h5 in
    let (outputs, e7, h7) = bind_inverse (at "output_token_ids" row) _ h6 in
    let (history, e8, h8) = bind_inverse (next_history o.prompt outputs) _ h7 in
    let opens = open_request-Opens host x first p.history row task e1 in
    let checked = check_request-Checked row task o.prompt o.reused q e2 in
    let (added, is_input, reuses) =
      turn_of first numbers p.history task o q opens held start checked.input checked.is_reused in
    let same_outputs : checked.outputs ≡ outputs = ok_injective (sym checked.are_outputs ∙ e7) in
    let output : same (as_values q.output) outputs ≡ true = rw same_outputs at checked.output in
    let sized = check_forwards-steps host row o.size o.reused forwards generation ingestion e5 e7 in
    let counted = size_of-Holds q.output outputs output sized in
    let stepped = answer-steps row task target o.reused q generation e6 in
    let next = ok_injective h8 in
    record {
      given = a;
      turn = record {
        added = added;
        input = is_input;
        reuses = reuses;
        steps = ap (λ n. n + 1) stepped ∙ counted;
      };
      results = ap (λ k. k.results) (sym next);
      held =
          subst (λ l. Holds (q.request.input ++ q.output) l) (ap (λ k. k.history) next)
            (next_history-Holds q.request.input q.output o.prompt outputs e8 checked.input output);
    }

-- The requests, each from the history that the one before it leaves.
abbrev pub Turns : Bool → List ℕ → List Completed → List Answer → Type 0
Turns first h [] [] = Unit
Turns first h (q ∷ requests) (a ∷ answers) =
    Turn first h q a × Turns Bool.false (q.request.input ++ q.output) requests answers
Turns first h _ _ = ⊥

pub on_requests-Turns :
    (host : Host) (x : Context) (committed : List Forward) (steps : ℕ) (first : Bool)
    (rows tasks : List Value) (requests : List Completed) (p : Progress) (numbers : List ℕ)
    {p' : Progress}
    → on_requests host x committed steps first rows tasks requests p ≡ ok p'
    → length rows ≡ length requests
    → length tasks ≡ length requests
    → Holds numbers p.history
    → Starts first numbers
    → (answers : List Answer) × (p'.results ≡ p.results ++ answers)
      × Turns first numbers requests answers
unfolding on_requests
on_requests-Turns host x committed steps first [] [] [] p numbers h m n held start =
    ([], ap (λ k. k.results) (sym (ok_injective h)) ∙ sym (append-nil p.results), tt)
on_requests-Turns host x committed steps first (row ∷ rows) tasks [] p numbers h m n held start = cc
on_requests-Turns host x committed steps first [] (task ∷ tasks) [] p numbers h m n held start = cc
on_requests-Turns host x committed steps first [] tasks (q ∷ requests) p numbers h m n held start =
    cc
on_requests-Turns host x committed steps first (row ∷ rows) [] (q ∷ requests) p numbers h m n held
      start =
    cc
on_requests-Turns host x committed steps first (row ∷ rows) (task ∷ tasks) (q ∷ requests) p numbers
      {p'} h m n held start =
    let (next, e1, h1) = bind_inverse (on_request host x committed steps first row task q p) _ h in
    let round = on_request-Round host x committed steps first row task q p numbers e1 held start in
    let (answers, results, turns) =
      on_requests-Turns host x committed steps false rows tasks requests next
        (q.request.input ++ q.output) h1 (omega (arith, m)) (omega (arith, n)) round.held tt in
    (
      round.given ∷ answers,
      results
          ∙ ap (λ l. l ++ answers) round.results
          ∙ append_assoc p.results (round.given ∷ []) answers,
      (round.turn, turns),
    )
