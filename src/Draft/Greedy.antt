-- ===== src/Draft/Greedy.antt =====
-- The tokens of the blocks that `observe` of scripts/qwen/perfect_draft.py accepts.
use zerocool.Prelude.{
  ℕ, suc, ◌-◌, ◌*◌, ◌/◌, ◌≤◌, ◌≡◌, refl, sym, ap, ◌∙◌, arith, Bool, List, [], ok, length,
  bind_inverse, take, drop, ◌==◌, nat_eq, require,
}
use mathlib.Core.Path.{subst}
use zerocool.Json.{Value, Fields, list, nil, at, get_default, iterate}
use zerocool.Json.Numbers.{size_of}
use zerocool.Draft.Work.{Work, valid_work}
use zerocool.Draft.Continuation.{valid_work-IsShifted}
use zerocool.Draft.Probe.{
  Probe, total_of, check_scope, check_workspace, check_endpoints, read_prime,
}
use zerocool.Draft.Blocks.{Loop, on_blocks}
use zerocool.Draft.Observe.{Answer, read_blocks, observe_blocks, observe}
use zerocool.Draft.Continued.{AreAll-width, check_scope-IsWidth, read_blocks-length}
use zerocool.Draft.Parts.{drop-take, take-take, length-take}
use zerocool.Draft.Joined.{Joined, part, on_blocks-Joined}

-- the tokens of a number of blocks that make up the total
abbrev pub IsWhole : Bool → Work → List ℕ → List ℕ → Type 0
IsWhole validation work inputs nexts =
    (inputs ≡ take (total_of validation) work.continuation_ids)
    × (nexts ≡ take (total_of validation) work.expected_next_ids)
    × (length inputs ≡ total_of validation)
    × (length nexts ≡ total_of validation)
    × (drop 1 inputs ≡ take (total_of validation - 1) nexts)

total-length :
    (validation : Bool) (xs : List ℕ)
    → length xs ≡ 16
    → length (take (total_of validation) xs) ≡ total_of validation
total-length Bool.true xs h = length-take 4 xs (omega (arith, h))
total-length Bool.false xs h = length-take 16 xs (omega (arith, h))

shifted_by :
    (n m : ℕ) (xs ys : List ℕ)
    → m ≡ suc n
    → n ≤ 15
    → drop 1 xs ≡ take 15 ys
    → drop 1 (take m xs) ≡ take n (take m ys)
shifted_by n m xs ys m_is low h =
    ap (λ k. drop 1 (take k xs)) m_is
    ∙ drop-take n xs
    ∙ ap (take n) h
    ∙ take-take n 15 ys low
    ∙ sym (take-take n m ys (omega (arith, m_is)))

total-shifted :
    (validation : Bool) (xs ys : List ℕ)
    → drop 1 xs ≡ take 15 ys
    → drop 1 (take (total_of validation) xs)
      ≡ take (total_of validation - 1) (take (total_of validation) ys)
total-shifted Bool.true xs ys h = shifted_by 3 4 xs ys (omega arith) (omega arith) h
total-shifted Bool.false xs ys h = shifted_by 15 16 xs ys (omega arith) (omega arith) h

-- a run goes on greedily: 4 or 16 tokens of a work that is valid
total-IsWhole :
    (validation : Bool) (given : Value) {work : Work}
    → valid_work given ≡ ok work
    → IsWhole validation work
        (take (total_of validation) work.continuation_ids)
        (take (total_of validation) work.expected_next_ids)
total-IsWhole validation given {work} h =
    let (shifted, _, many, as_many) = valid_work-IsShifted given h in
    (
      refl,
      refl,
      total-length validation work.continuation_ids many,
      total-length validation work.expected_next_ids as_many,
      total-shifted validation work.continuation_ids work.expected_next_ids shifted,
    )

-- the blocks of a report take in, one behind the other, what a work that is valid expects
abbrev pub IsGreedy : Value → Value → Bool → Type 0
IsGreedy raw given validation =
    (work : Work) × (inputs : List ℕ) × (nexts : List ℕ) × (value : Value) × (blocks : List Value)
    × (valid_work given ≡ ok work)
    × (get_default "blocks" (list nil) raw ≡ ok value)
    × (iterate value ≡ ok blocks)
    × Joined blocks inputs nexts
    × IsWhole validation work inputs nexts

read_blocks-iterate :
    (raw : Value) (rounds : ℕ) {blocks : List Value}
    → read_blocks raw rounds ≡ ok blocks
    → (value : Value) × (get_default "blocks" (list nil) raw ≡ ok value)
      × (iterate value ≡ ok blocks)
unfolding read_blocks
read_blocks-iterate raw rounds h =
    let (value, e1, h1) = bind_inverse (get_default "blocks" (list nil) raw) _ h in
    let (n, _, h2) = bind_inverse (size_of value) _ h1 in
    let (_, _, h3) =
      bind_inverse (require (n == rounds) "Missing or duplicated verification block") _ h2 in
    (value, e1, h3)

-- the whole of a report is that of a loop that starts at its begin
part-whole :
    (width n total : ℕ) (xs : List ℕ) → n * width ≡ total → part width 0 n xs ≡ take total xs
unfolding drop
part-whole width n total xs h =
    let at_begin : 0 * width ≡ 0 = omega arith in
    ap (λ i. take (n * width) (drop i xs)) at_begin ∙ ap (λ k. take k xs) h

observe_blocks-Joined :
    (raw : Value) (work : Work) (revision : Value) (width : ℕ) (validation : Bool)
    {p : List Value × Loop}
    → observe_blocks raw work revision width validation ≡ ok p
    → total_of validation / width * width ≡ total_of validation
    → (value : Value) × (blocks : List Value) × (get_default "blocks" (list nil) raw ≡ ok value)
      × (iterate value ≡ ok blocks)
      × Joined blocks
          (take (total_of validation) work.continuation_ids)
          (take (total_of validation) work.expected_next_ids)
unfolding observe_blocks
observe_blocks-Joined raw work revision width validation h whole =
    let rounds = total_of validation / width in
    let start : Loop = record { hashes = []; endpoints = []; wall = 0; times = [] } in
    let (blocks, found, h1) = bind_inverse (read_blocks raw rounds) _ h in
    let (s, looped, h2) =
      bind_inverse (on_blocks work revision validation width 0 blocks start) _ h1 in
    let joined = on_blocks-Joined work revision validation width 0 blocks start looped in
    let many : length blocks * width ≡ total_of validation =
      ap (λ n. n * width) (read_blocks-length raw rounds found) ∙ whole in
    let inputs =
      part-whole width (length blocks) (total_of validation) work.continuation_ids many in
    let nexts =
      part-whole width (length blocks) (total_of validation) work.expected_next_ids many in
    let (value, e1, e2) = read_blocks-iterate raw rounds found in
    (
      value,
      blocks,
      e1,
      e2,
      subst (λ ns. Joined blocks (take (total_of validation) work.continuation_ids) ns) nexts
          (subst (λ is. Joined blocks is (part width 0 (length blocks) work.expected_next_ids))
            inputs joined),
    )

-- Where `observe` answers, the blocks of the report, joined in their order, take in as many tokens as
-- the run verifies (4 of a validation, 16 of a timed run): the first ones of the continuation of the
-- work that was given, which is valid. What they name as the next tokens are the first ones that the
-- work expects, and each token taken in, but the first, is the next token named behind the one
-- before it.
pub observe-IsGreedy :
    (probe : Probe) (config : Fields) (raw frozen given : Value) (width : ℕ) (validation : Bool)
    (input slots : Value) {a : Answer}
    → observe probe config raw frozen given width validation input slots ≡ ok a
    → IsGreedy raw given validation
unfolding observe
observe-IsGreedy probe config raw frozen given width validation input slots h0 =
    let (work, valid, h1) = bind_inverse (valid_work given) _ h0 in
    let (_, scoped, h2) = bind_inverse (check_scope raw frozen width validation input slots) _ h1 in
    let (plan, _, h3) = bind_inverse (at "memory_plan" raw) _ h2 in
    let (_, _, h4) = bind_inverse (check_workspace probe raw plan slots) _ h3 in
    let (_, _, h5) = bind_inverse (check_endpoints probe raw frozen config plan width) _ h4 in
    let (revision, _, h6) = bind_inverse (at "artifact_revision" frozen) _ h5 in
    let (prime, _, h7) = bind_inverse (read_prime probe raw work revision) _ h6 in
    let (p, looped, _) = bind_inverse (observe_blocks raw work revision width validation) _ h7 in
    let is_width = check_scope-IsWidth raw frozen width validation input slots scoped in
    let (_, whole, _) = AreAll-width validation width is_width in
    let (value, blocks, e1, e2, joined) =
      observe_blocks-Joined raw work revision width validation looped whole in
    (
      work,
      take (total_of validation) work.continuation_ids,
      take (total_of validation) work.expected_next_ids,
      value,
      blocks,
      valid,
      e1,
      e2,
      joined,
      total-IsWhole validation given valid,
    )
