-- ===== src/Prelude/Sequences.antt =====
-- Python's slices, comprehensions with `if`, `sorted(set(...))` and sums, over the native numbers.
use Prim.Native.Nat.{ℕ, zero, suc, ◌+◌}
use mathlib.Core.Bool.{Bool, true, false, ◌&&◌}
use mathlib.Core.List.{List, [], ◌∷◌}
use zerocool.Prelude.Tests.{if◌then◌else◌, ltb, ◌==◌, nat_eq}

module _ {ℓ} {A : Type ℓ} where
  -- `xs[:n]`
  unfoldable pub take : ℕ → List A → List A
  take zero xs = []
  take (suc n) [] = []
  take (suc n) (x ∷ xs) = x ∷ take n xs

  -- `xs[n:]`
  unfoldable pub drop : ℕ → List A → List A
  drop zero xs = xs
  drop (suc n) [] = []
  drop (suc n) (x ∷ xs) = drop n xs

  -- `[x for x in xs if keep(x)]`
  unfoldable pub filter : (A → Bool) → List A → List A
  filter keep [] = []
  filter keep (x ∷ xs) = let rest = filter keep xs in if keep x then x ∷ rest else rest

  -- `sum(f(x) for x in xs)`
  unfoldable pub sum_of : (A → ℕ) → List A → ℕ
  sum_of f [] = 0
  sum_of f (x ∷ xs) = f x + sum_of f xs

  -- `all(f(x) for x in xs)`
  unfoldable pub all : (A → Bool) → List A → Bool
  all f [] = true
  all f (x ∷ xs) = f x && all f xs

  -- `xs == ys`, by a test on the elements
  unfoldable pub same_list : (A → A → Bool) → List A → List A → Bool
  same_list same [] [] = true
  same_list same (x ∷ xs) (y ∷ ys) = same x y && same_list same xs ys
  same_list same _ _ = false

-- a number in a rising list, once
unfoldable pub insert_number : ℕ → List ℕ → List ℕ
insert_number n [] = n ∷ []
insert_number n (x ∷ xs) =
    let rest = insert_number n xs in
    if n == x then x ∷ xs else if ltb n x then n ∷ x ∷ xs else x ∷ rest

-- `sorted(set(xs))`
unfoldable pub sorted_set : List ℕ → List ℕ
sorted_set [] = []
sorted_set (x ∷ xs) = insert_number x (sorted_set xs)

-- `xs == ys` for lists of numbers
abbrev pub same_numbers : List ℕ → List ℕ → Bool
same_numbers = same_list (λ n m. n == m)
