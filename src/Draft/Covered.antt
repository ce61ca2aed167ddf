-- ===== src/Draft/Covered.antt =====
-- What `observe` of scripts/qwen/perfect_draft.py answers of the blocks of a report.
use zerocool.Prelude.{
  ℕ, zero, suc, ◌+◌, ◌*◌, ◌≤◌, ◌<◌, ◌≡◌, refl, sym, ap, ◌∙◌, arith, Bool, true, ◌&&◌, List, [], ◌∷◌,
  ◌++◌, map, ◌==◌, nat_eq, nat_equal_iff, if◌then◌else◌, ok, require, require-true, sum_of, length,
  length-append, bind_inverse, ok_injective, Bool-cases, inl, inr,
}
use mathlib.Core.Path.{subst}
use mathlib.Core.List.{append-nil, append_assoc}
use zerocool.Json.{
  Value, int, negative, float, str, bool, null, list, object, Fields, end, field, keys, size, at,
  get_key, iterate, is_list, is_uint, number,
}
use zerocool.Json.Numbers.{◌&?◌, has, counts, size_of, check-true, both_hold}
use zerocool.Draft.Work.{Work}
use zerocool.Draft.Compare.{Endpoint}
use zerocool.Draft.Blocks.{
  Times, Loop, tokens_at, counts_rows, are_hashes, check_block, is_checkpointed, check_point,
  are_times, read_times, endpoints_of, on_block, on_blocks,
}

keys-size : (fs : Fields) → length (keys fs) ≡ size fs
keys-size end = refl
keys-size (field k v fs) = ap suc (keys-size fs)

-- `len` counts what a loop goes through.
pub size_of-iterate :
    (v : Value) {n : ℕ} {vs : List Value} → size_of v ≡ ok n → iterate v ≡ ok vs → length vs ≡ n
unfolding size_of iterate
size_of-iterate (list vs) h g = ap length (sym (ok_injective g)) ∙ ok_injective h
size_of-iterate (object fs) h g = ap length (sym (ok_injective g)) ∙ keys-size fs ∙ ok_injective h
size_of-iterate (str s) h g = ap length (sym (ok_injective g)) ∙ ok_injective h
size_of-iterate null h g = cc
size_of-iterate (bool b) h g = cc
size_of-iterate (int n) h g = cc
size_of-iterate (negative n) h g = cc
size_of-iterate (float s) h g = cc

-- the checkpoint, forward and accept of a block
abbrev pub inner : Times → ℕ
inner t = t.checkpoint + t.forward + t.accept

abbrev pub consumed_of : List Endpoint → List ℕ
consumed_of ps = map (λ p. p.consumed) ps

-- where the blocks leave an endpoint, from a block on
abbrev pub marks_from : Bool → ℕ → ℕ → ℕ → List ℕ
marks_from validation width i zero = []
marks_from validation width i (suc n) =
    let rest = marks_from validation width (suc i) n in
    if is_checkpointed validation width (i * width) then (i * width + width) ∷ rest else rest

-- the variables of the loop behind some blocks more
pub record Grows (validation : Bool) (width i n : ℕ) (s s' : Loop) : Type 0 where
  pub hashes : length s'.hashes ≡ length s.hashes + n * width
  pub marks : consumed_of s'.endpoints ≡ consumed_of s.endpoints ++ marks_from validation width i n
  pub times : sum_of inner s'.times + s.wall ≤ s'.wall + sum_of inner s.times
  pub wall : s.wall + n ≤ s'.wall

counts_rows-length :
    (width : ℕ) (block : Value) {value : Value} {rows : List Value}
    → counts_rows width block ≡ ok true
    → at "logits_sha256" block ≡ ok value
    → iterate value ≡ ok rows
    → length rows ≡ width
unfolding counts_rows
counts_rows-length width block h e g =
    let (value', e', h1) = bind_inverse (at "logits_sha256" block) _ h in
    let (n, counted, h2) = bind_inverse (size_of value') (λ n. ok (n == width)) h1 in
    let same_value = ok_injective (sym e' ∙ e) in
    let size = size_of-iterate _ (ap size_of (sym same_value) ∙ counted) g in
    ground (arith, size, ok_injective h2, nat_equal_iff n width)

check_block-rows :
    (work : Work) (width consumed : ℕ) (block : Value) {u : Unit {0}}
    → check_block work width consumed block ≡ ok u
    → counts_rows width block ≡ ok true
unfolding check_block
check_block-rows work width consumed block h =
    let t5 = counts_rows width block &? are_hashes block in
    let t4 = counts is_list "logits_sha256" block &? t5 in
    let t3 = has "next_ids" (tokens_at consumed width work.expected_next_ids) block &? t4 in
    let t2 = has "input_tokens" (tokens_at consumed width work.continuation_ids) block &? t3 in
    let t1 = has "offset" (int (72 + consumed)) block in
    let (_, h1) =
      both_hold t1 t2 (
        check-true (t1 &? t2) "Incomplete token/logit/state/route coverage or greedy mismatch" h) in
    let (_, h2) =
      both_hold (has "input_tokens" (tokens_at consumed width work.continuation_ids) block) t3 h1 in
    let (_, h3) =
      both_hold (has "next_ids" (tokens_at consumed width work.expected_next_ids) block) t4 h2 in
    let (_, h4) = both_hold (counts is_list "logits_sha256" block) t5 h3 in
    (both_hold (counts_rows width block) (are_hashes block) h4).0

are_times-fits :
    (a b c d : Bool) (width : ℕ) (t : Times)
    → (a && b && c && d && are_times width t) ≡ true
    → (inner t ≤ t.wall) × (0 < t.forward)
are_times-fits a b c d width t h =
    let times : are_times width t ≡ true = ground (arith, h) in
    (ground (arith, times), ground (arith, times))

read_times-fits :
    (width : ℕ) (block : Value) {t : Times}
    → read_times width block ≡ ok t
    → (inner t ≤ t.wall) × (0 < t.forward)
unfolding read_times
read_times-fits width block h0 =
    let (checkpoint, _, h1) = bind_inverse (get_key "checkpoint_ns" block) _ h0 in
    let (forward, _, h2) = bind_inverse (get_key "forward_ns" block) _ h1 in
    let (accept, _, h3) = bind_inverse (get_key "accept_ns" block) _ h2 in
    let (wall, _, h4) = bind_inverse (get_key "wall_ns" block) _ h3 in
    let t : Times = record {
      checkpoint = number checkpoint;
      forward = number forward;
      accept = number accept;
      wall = number wall;
    } in
    let (_, passed, h5) =
      bind_inverse
        (require
          (is_uint checkpoint
            && is_uint forward
            && is_uint accept
            && is_uint wall
            && are_times width t)
          "Invalid or incomplete checkpoint/forward/acceptance timing")
        _ h4 in
    let holds =
      require-true
        (is_uint checkpoint
          && is_uint forward
          && is_uint accept
          && is_uint wall
          && are_times width t)
        _ passed in
    let fits =
      are_times-fits (is_uint checkpoint) (is_uint forward) (is_uint accept) (is_uint wall) width t
        holds in
    subst (λ k. (inner k ≤ k.wall) × (0 < k.forward)) (ok_injective h5) fits

endpoints_of-marks :
    (checkpointed : Bool) (consumed : ℕ) (block : Value) {added : List Endpoint}
    → endpoints_of checkpointed consumed block ≡ ok added
    → consumed_of added ≡ (if checkpointed then consumed ∷ [] else [])
unfolding endpoints_of
endpoints_of-marks Bool.true consumed block h =
    let (state, _, h1) = bind_inverse (at "state" block) _ h in
    let (routes, _, h2) = bind_inverse (at "routes" block) _ h1 in
    ap consumed_of (sym (ok_injective h2))
endpoints_of-marks Bool.false consumed block h = ap consumed_of (sym (ok_injective h))

consumed_of-append :
    (ps qs : List Endpoint) → consumed_of (ps ++ qs) ≡ consumed_of ps ++ consumed_of qs
consumed_of-append [] qs = refl
consumed_of-append (p ∷ ps) qs = ap (λ ns. p.consumed ∷ ns) (consumed_of-append ps qs)

sum-append : (f : Times → ℕ) (ts us : List Times) → sum_of f (ts ++ us) ≡ sum_of f ts + sum_of f us
unfolding sum_of
sum-append f [] us = omega arith
sum-append f (t ∷ ts) us = omega (arith, sum-append f ts us)

one : (f : Times → ℕ) (t : Times) → sum_of f (t ∷ []) ≡ f t
unfolding sum_of
one f t = omega arith

marks_one :
    (validation : Bool) (width i : ℕ)
    → marks_from validation width i 1
      ≡ (if is_checkpointed validation width (i * width) then (i * width + width) ∷ [] else [])
marks_one validation width i = refl

-- the marks of one block and those of the blocks after it
marks-append :
    (validation : Bool) (width i n : ℕ) (ms : List ℕ)
    → (ms ++ marks_from validation width i 1) ++ marks_from validation width (suc i) n
      ≡ ms ++ marks_from validation width i (suc n)
marks-append validation width i n ms =
    elim (Bool-cases (is_checkpointed validation width (i * width))) [
      | inl marked ↦ rw marked (append_assoc ms ((i * width + width) ∷ []) _)
      | inr plain ↦ rw plain (append_assoc ms [] _)
    ]

on_block-Grows :
    (work : Work) (revision : Value) (validation : Bool) (width i : ℕ) (block : Value) (s : Loop)
    {s' : Loop}
    → on_block work revision validation width i block s ≡ ok s'
    → Grows validation width i 1 s s'
unfolding on_block
on_block-Grows work revision validation width i block s h0 =
    let (_, checked, h1) = bind_inverse (check_block work width (i * width) block) _ h0 in
    let checkpointed = is_checkpointed validation width (i * width) in
    let (_, _, h2) =
      bind_inverse (check_point work revision checkpointed width (i * width) block) _ h1 in
    let (t, timed, h3) = bind_inverse (read_times width block) _ h2 in
    let (value, valued, h4) = bind_inverse (at "logits_sha256" block) _ h3 in
    let (rows, iterated, h5) = bind_inverse (iterate value) _ h4 in
    let (added, marked, h6) =
      bind_inverse (endpoints_of checkpointed (i * width + width) block) _ h5 in
    let fits = read_times-fits width block timed in
    let n =
      counts_rows-length width block (check_block-rows work width (i * width) block checked) valued
        iterated in
    subst (Grows validation width i 1 s) (ok_injective h6) (record {
      hashes = omega (arith, length-append s.hashes rows, n);
      marks =
          consumed_of-append s.endpoints added
          ∙ ap (λ ns. consumed_of s.endpoints ++ ns)
              (endpoints_of-marks checkpointed (i * width + width) block marked);
      times = omega (arith, sum-append inner s.times (t ∷ []), one inner t, fits.0);
      wall = omega (arith, fits.0, fits.1);
    })

pub on_blocks-Grows :
    (work : Work) (revision : Value) (validation : Bool) (width i : ℕ) (blocks : List Value)
    (s : Loop) {s' : Loop}
    → on_blocks work revision validation width i blocks s ≡ ok s'
    → Grows validation width i (length blocks) s s'
unfolding on_blocks
on_blocks-Grows work revision validation width i [] s h =
    subst (Grows validation width i 0 s) (ok_injective h) (record {
      hashes = omega arith;
      marks = sym (append-nil _);
      times = omega arith;
      wall = omega arith;
    })
on_blocks-Grows work revision validation width i (block ∷ blocks) s h =
    let (s1, first, rest) = bind_inverse (on_block work revision validation width i block s) _ h in
    let a = on_block-Grows work revision validation width i block s first in
    let b = on_blocks-Grows work revision validation width (suc i) blocks s1 rest in
    record {
      hashes = omega (arith, a.hashes, b.hashes);
      marks =
          b.marks
          ∙ ap (λ ms. ms ++ marks_from validation width (suc i) (length blocks)) a.marks
          ∙ marks-append validation width i (length blocks) (consumed_of s.endpoints);
      times = omega (arith, a.times, b.times);
      wall = omega (arith, a.wall, b.wall);
    }
