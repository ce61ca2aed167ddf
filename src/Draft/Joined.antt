-- ===== src/Draft/Joined.antt =====
-- The tokens that the loop over the blocks of scripts/qwen/perfect_draft.py accepts.
use zerocool.Prelude.{
  ℕ, suc, ◌+◌, ◌*◌, ◌≡◌, sym, ap, ◌∙◌, arith, Bool, true, List, [], ◌∷◌, ◌++◌, map, ok, length,
  bind_inverse, ok_injective, String, take, drop, nat_eq,
}
use zerocool.Json.{Value, int, list, as_items, get_key, same}
use zerocool.Json.Numbers.{has, check-true, both_hold}
use zerocool.Draft.Work.{Work}
use zerocool.Draft.Blocks.{Loop, tokens_at, check_block, on_block, on_blocks}
use zerocool.Draft.Parts.{take-append, drop-drop}

-- a block has these tokens under a key
abbrev pub HasTokens : String → List ℕ → Value → Type 0
HasTokens k tokens block =
    (v : Value) × (get_key k block ≡ ok v) × (same v (list (as_items (map int tokens))) ≡ true)

-- the input tokens of the blocks, and their next tokens, are these, one block behind the other
abbrev pub Joined : List Value → List ℕ → List ℕ → Type 0
Joined [] inputs nexts = (inputs ≡ []) × (nexts ≡ [])
Joined (block ∷ blocks) inputs nexts =
    (i : List ℕ) × (n : List ℕ) × (is : List ℕ) × (ns : List ℕ) × HasTokens "input_tokens" i block
    × HasTokens "next_ids" n block
    × (inputs ≡ i ++ is)
    × (nexts ≡ n ++ ns)
    × Joined blocks is ns

has-HasTokens :
    (k : String) (tokens : List ℕ) (block : Value)
    → has k (list (as_items (map int tokens))) block ≡ ok true
    → HasTokens k tokens block
unfolding has
has-HasTokens k tokens block h =
    let (v, e1, h1) = bind_inverse (get_key k block) _ h in (v, e1, ok_injective h1)

check_block-HasTokens :
    (work : Work) (width consumed : ℕ) (block : Value) {u : Unit {0}}
    → check_block work width consumed block ≡ ok u
    → HasTokens "input_tokens" (take width (drop consumed work.continuation_ids)) block
      × HasTokens "next_ids" (take width (drop consumed work.expected_next_ids)) block
unfolding check_block
check_block-HasTokens work width consumed block h =
    let inputs = tokens_at consumed width work.continuation_ids in
    let nexts = tokens_at consumed width work.expected_next_ids in
    let (_, h1) = both_hold (has "offset" (int (72 + consumed)) block) _ (check-true _ _ h) in
    let (h2, h3) = both_hold (has "input_tokens" inputs block) _ h1 in
    let (h4, _) = both_hold (has "next_ids" nexts block) _ h3 in
    (
      has-HasTokens "input_tokens" (take width (drop consumed work.continuation_ids)) block h2,
      has-HasTokens "next_ids" (take width (drop consumed work.expected_next_ids)) block h4,
    )

on_block-HasTokens :
    (work : Work) (revision : Value) (validation : Bool) (width i : ℕ) (block : Value) (s : Loop)
    {s' : Loop}
    → on_block work revision validation width i block s ≡ ok s'
    → HasTokens "input_tokens" (take width (drop (i * width) work.continuation_ids)) block
      × HasTokens "next_ids" (take width (drop (i * width) work.expected_next_ids)) block
unfolding on_block
on_block-HasTokens work revision validation width i block s h =
    let (_, e1, _) = bind_inverse (check_block work width (i * width) block) _ h in
    check_block-HasTokens work width (i * width) block e1

-- the part of a list that the blocks from one on take
abbrev pub part : ℕ → ℕ → ℕ → List ℕ → List ℕ
part width i n xs = take (n * width) (drop (i * width) xs)

part-zero : (width i : ℕ) (xs : List ℕ) → part width i 0 xs ≡ []
unfolding take
part-zero width i xs =
    let none_left : 0 * width ≡ 0 = omega arith in ap (λ n. take n (drop (i * width) xs)) none_left

part-suc :
    (width i n : ℕ) (xs : List ℕ)
    → part width i (suc n) xs ≡ take width (drop (i * width) xs) ++ part width (suc i) n xs
part-suc width i n xs =
    let dropped : drop (suc i * width) xs ≡ drop width (drop (i * width) xs) =
      drop-drop (i * width) width (suc i * width) xs (omega arith) in
    take-append width (n * width) (suc n * width) (drop (i * width) xs) (omega arith)
    ∙ ap (λ ys. take width (drop (i * width) xs) ++ take (n * width) ys) (sym dropped)

pub on_blocks-Joined :
    (work : Work) (revision : Value) (validation : Bool) (width i : ℕ) (blocks : List Value)
    (s : Loop) {s' : Loop}
    → on_blocks work revision validation width i blocks s ≡ ok s'
    → Joined blocks
        (part width i (length blocks) work.continuation_ids)
        (part width i (length blocks) work.expected_next_ids)
unfolding on_blocks
on_blocks-Joined work revision validation width i [] s h =
    (part-zero width i work.continuation_ids, part-zero width i work.expected_next_ids)
on_blocks-Joined work revision validation width i (block ∷ blocks) s h =
    let (next, e1, h1) = bind_inverse (on_block work revision validation width i block s) _ h in
    let (inputs, nexts) = on_block-HasTokens work revision validation width i block s e1 in
    (
      take width (drop (i * width) work.continuation_ids),
      take width (drop (i * width) work.expected_next_ids),
      part width (suc i) (length blocks) work.continuation_ids,
      part width (suc i) (length blocks) work.expected_next_ids,
      inputs,
      nexts,
      part-suc width i (length blocks) work.continuation_ids,
      part-suc width i (length blocks) work.expected_next_ids,
      on_blocks-Joined work revision validation width (suc i) blocks next h1,
    )
