-- ===== src/Simulation/Belady/Next.antt =====
-- The next uses that `Belady.__init__` tabulates are the next uses.
use zerocool.Prelude.{ℕ, ◌+◌, ◌≡◌, refl, List, [], ◌∷◌, arith, ◌==◌, nat_eq, if◌then◌else◌}
use zerocool.Dict.{get, get-put}
use zerocool.Simulation.Belady.{next_uses, or_default}

-- Independent of the loop: the first position of `key` in a list that begins at position `i`, and
-- `size` where there is none.
pub first_use : ℕ → ℕ → ℕ → List ℕ → ℕ
first_use key i size [] = size
first_use key i size (x ∷ xs) = if x == key then i else first_use key (i + 1) size xs

-- The next use after each position of a list that begins at position `i`.
pub uses_after : ℕ → ℕ → List ℕ → List ℕ
unfolding first_use
uses_after i size [] = []
uses_after i size (x ∷ xs) = first_use x (i + 1) size xs ∷ uses_after (i + 1) size xs

future-first_use :
    (key i size : ℕ) (xs : List ℕ)
    → or_default (get key (next_uses i size xs).1) size ≡ first_use key i size xs
unfolding next_uses first_use
future-first_use key i size [] = unfold get in refl
future-first_use key i size (x ∷ xs) =
    ground
      (arith, get-put x key i (next_uses (i + 1) size xs).1, future-first_use key (i + 1) size xs)

-- The table holds, for every position of the sequence, the first later position of the same key,
-- and the length of the sequence where there is none.
pub next_uses-uses_after :
    (i size : ℕ) (xs : List ℕ) → (next_uses i size xs).0 ≡ uses_after i size xs
unfolding next_uses uses_after
next_uses-uses_after i size [] = refl
next_uses-uses_after i size (x ∷ xs) =
    rw (future-first_use x (i + 1) size xs, next_uses-uses_after (i + 1) size xs)
