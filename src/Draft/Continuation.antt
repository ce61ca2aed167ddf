-- ===== src/Draft/Continuation.antt =====
-- What `valid_work` of scripts/qwen/perfect_draft.py says of the two lists of a work.
use zerocool.Prelude.{
  ℕ, zero, suc, ◌≡◌, refl, sym, ap, ◌∙◌, Bool, true, ◌&&◌, List, [], ◌∷◌, arith, ◌==◌, nat_eq,
  length, ok, bind_inverse, require, require-true, ok_injective, all, take, drop, String,
}
use zerocool.Json.{
  Value, null, bool, int, negative, float, str, list, object, as_items, at, iterate, is_set_of,
  is_between, number, numbers, same,
}
use zerocool.Draft.Work.{Work, are_tokens, ids, first_of, rest_of, work_keys, valid_work}

both : (a b : Bool) → (a && b) ≡ true → (a ≡ true) × (b ≡ true)
both a b h = ground (arith, h)

token_int : (v : Value) → is_between 0 248319 v ≡ true → v ≡ int (number v)
token_int (int n) h = refl
token_int null h = cc
token_int (bool b) h = cc
token_int (negative n) h = cc
token_int (float s) h = cc
token_int (str s) h = cc
token_int (list us) h = cc
token_int (object fs) h = cc

equal_numbers : (n m : ℕ) → same (int n) (int m) ≡ true → n ≡ m
unfolding same
equal_numbers n m h = ground (arith, h)

number-same :
    (v w : Value)
    → is_between 0 248319 v ≡ true
    → is_between 0 248319 w ≡ true
    → same v w ≡ true
    → number v ≡ number w
number-same v w inside_v inside_w h =
    let equal : same (int (number v)) (int (number w)) ≡ true =
      ap (λ x. same x (int (number w))) (sym (token_int v inside_v))
      ∙ ap (same v) (sym (token_int w inside_w))
      ∙ h in
    equal_numbers (number v) (number w) equal

numbers-same :
    (vs ws : List Value)
    → are_tokens vs ≡ true
    → are_tokens ws ≡ true
    → same (list (as_items vs)) (list (as_items ws)) ≡ true
    → numbers vs ≡ numbers ws
unfolding all same
numbers-same [] [] v w h = refl
numbers-same [] (y ∷ ws) v w h = cc
numbers-same (x ∷ vs) [] v w h = cc
numbers-same (x ∷ vs) (y ∷ ws) v w h =
    let (v1, v2) = both (is_between 0 248319 x) (are_tokens vs) v in
    let (w1, w2) = both (is_between 0 248319 y) (are_tokens ws) w in
    let (h1, h2) = both (same x y) (same (list (as_items vs)) (list (as_items ws))) h in
    ap (λ n. n ∷ numbers vs) (number-same x y v1 w1 h1)
    ∙ ap (λ ns. number y ∷ ns) (numbers-same vs ws v2 w2 h2)

length-numbers : (vs : List Value) → length (numbers vs) ≡ length vs
length-numbers [] = refl
length-numbers (v ∷ vs) = ap suc (length-numbers vs)

take-numbers : (n : ℕ) (vs : List Value) → take n (numbers vs) ≡ numbers (take n vs)
unfolding take
take-numbers zero vs = refl
take-numbers (suc n) [] = refl
take-numbers (suc n) (v ∷ vs) = ap (λ ns. number v ∷ ns) (take-numbers n vs)

drop-numbers : (vs : List Value) → drop 1 (numbers vs) ≡ numbers (rest_of vs)
unfolding drop
drop-numbers [] = refl
drop-numbers (v ∷ vs) = refl

are_tokens-take : (n : ℕ) (vs : List Value) → are_tokens vs ≡ true → are_tokens (take n vs) ≡ true
unfolding all take
are_tokens-take zero vs h = refl
are_tokens-take (suc n) [] h = refl
are_tokens-take (suc n) (v ∷ vs) h =
    let (first, rest) = both (is_between 0 248319 v) (are_tokens vs) h in
    rw first (are_tokens-take n vs rest)

are_tokens-rest_of : (vs : List Value) → are_tokens vs ≡ true → are_tokens (rest_of vs) ≡ true
unfolding all
are_tokens-rest_of [] h = refl
are_tokens-rest_of (v ∷ vs) h = (both (is_between 0 248319 v) (are_tokens vs) h).1

length-ids :
    (k : String) (n : ℕ) (work : Value) {vs : List Value} → ids k n work ≡ ok vs → length vs ≡ n
unfolding ids
length-ids k n work {vs} h =
    let (value, e1, h1) = bind_inverse (at k work) _ h in
    let (us, e2, h2) = bind_inverse (iterate value) _ h1 in
    let (u3, e3, h3) =
      bind_inverse (require (length us == n) "Invalid or inconsistent fixed continuation") _ h2 in
    let kept : us ≡ vs = ok_injective h3 in
    let sized : length us ≡ n = ground (arith, e3) in ap length (sym kept) ∙ sized

-- The continuation of a valid work, but its first token, is what the work expects behind each of
-- its tokens but the last; there are 72 tokens of the prompt and 16 of the continuation.
pub valid_work-IsShifted :
    (work : Value) {w : Work}
    → valid_work work ≡ ok w
    → (drop 1 w.continuation_ids ≡ take 15 w.expected_next_ids)
      × (length w.prompt_ids ≡ 72)
      × (length w.continuation_ids ≡ 16)
      × (length w.expected_next_ids ≡ 16)
unfolding valid_work
valid_work-IsShifted work {w} h =
    let message : String = "Invalid or inconsistent fixed continuation" in
    let (named, e1, h1) = bind_inverse (is_set_of work_keys work) _ h in
    let (u2, e2, h2) = bind_inverse (require named message) _ h1 in
    let (prompt, e3, h3) = bind_inverse (ids "prompt_ids" 72 work) _ h2 in
    let (continuation, e4, h4) = bind_inverse (ids "continuation_ids" 16 work) _ h3 in
    let (next, e5, h5) = bind_inverse (ids "expected_next_ids" 16 work) _ h4 in
    let (u6, e6, h6) =
      bind_inverse
        (require (are_tokens prompt && are_tokens continuation && are_tokens next) message) _ h5 in
    let (expected, e7, h7) = bind_inverse (at "expected_prompt_id" work) _ h6 in
    let (first, e8, h8) = bind_inverse (first_of continuation) _ h7 in
    let shifted = same (list (as_items (rest_of continuation))) (list (as_items (take 15 next))) in
    let (u9, e9, h9) = bind_inverse (require (same expected first && shifted) message) _ h8 in
    let (lists, next_tokens) =
      both (are_tokens prompt && are_tokens continuation) (are_tokens next)
        (require-true _ message e6) in
    let tokens = (both (are_tokens prompt) (are_tokens continuation) lists).1 in
    let equal = (both (same expected first) shifted (require-true _ message e9)).1 in
    let kept = ok_injective h9 in
    rw (← kept) (
      drop-numbers continuation
          ∙ numbers-same (rest_of continuation) (take 15 next)
              (are_tokens-rest_of continuation tokens) (are_tokens-take 15 next next_tokens) equal
          ∙ sym (take-numbers 15 next),
      length-numbers prompt ∙ length-ids "prompt_ids" 72 work e3,
      length-numbers continuation ∙ length-ids "continuation_ids" 16 work e4,
      length-numbers next ∙ length-ids "expected_next_ids" 16 work e5,
    )
