-- ===== src/Draft/Parts.antt =====
-- Parts of a list of tokens, by `take` and `drop`, as the slices of scripts/qwen/perfect_draft.py.
use zerocool.Prelude.{
  ℕ, zero, suc, ◌+◌, ◌≤◌, ◌≡◌, refl, sym, ap, arith, List, [], ◌∷◌, ◌++◌, length, take, drop,
}

abbrev nothing : List ℕ
nothing = []

take-nil : (n : ℕ) → take n nothing ≡ nothing
unfolding take
take-nil zero = refl
take-nil (suc n) = refl

pub take-append :
    (m n k : ℕ) (xs : List ℕ) → k ≡ m + n → take k xs ≡ take m xs ++ take n (drop m xs)
unfolding take drop
take-append zero n k xs h = ap (λ i. take i xs) (omega (arith, h))
take-append (suc m) n zero xs h = absurd (omega (arith, h))
take-append (suc m) n (suc k) [] h = sym (take-nil n)
take-append (suc m) n (suc k) (x ∷ xs) h =
    ap (λ ys. x ∷ ys) (take-append m n k xs (omega (arith, h)))

pub drop-drop : (m n k : ℕ) (xs : List ℕ) → k ≡ m + n → drop k xs ≡ drop n (drop m xs)
unfolding drop
drop-drop zero n k xs h = ap (λ i. drop i xs) (omega (arith, h))
drop-drop (suc m) n zero xs h = absurd (omega (arith, h))
drop-drop (suc m) zero (suc k) [] h = refl
drop-drop (suc m) (suc n) (suc k) [] h = refl
drop-drop (suc m) n (suc k) (x ∷ xs) h = drop-drop m n k xs (omega (arith, h))

pub drop-take : (n : ℕ) (xs : List ℕ) → drop 1 (take (suc n) xs) ≡ take n (drop 1 xs)
unfolding take drop
drop-take n [] = sym (take-nil n)
drop-take n (x ∷ xs) = refl

pub take-take : (n m : ℕ) (xs : List ℕ) → n ≤ m → take n (take m xs) ≡ take n xs
unfolding take
take-take zero m xs h = refl
take-take (suc n) zero xs h = absurd (omega (arith, h))
take-take (suc n) (suc m) [] h = refl
take-take (suc n) (suc m) (x ∷ xs) h = ap (λ ys. x ∷ ys) (take-take n m xs (omega (arith, h)))

pub length-take : (n : ℕ) (xs : List ℕ) → n ≤ length xs → length (take n xs) ≡ n
unfolding take
length-take zero xs h = refl
length-take (suc n) [] h = absurd (omega (arith, h))
length-take (suc n) (x ∷ xs) h = ap suc (length-take n xs (omega (arith, h)))
