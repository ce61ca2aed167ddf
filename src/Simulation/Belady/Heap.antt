-- ===== src/Simulation/Belady/Heap.antt =====
-- `heappop` and the loop that pops up to a current entry.
use zerocool.Prelude.{
  ◌≤◌, ◌≡◌, refl, Bool, true, false, ◌&&◌, ◌||◌, List, [], ◌∷◌, arith, ◌==◌, nat_eq, length, ◌↔◌,
  Bool-cases, inl, inr,
}
use zerocool.Simulation.Belady.{Entry, before, extract}

or_swap : (a b c : Bool) → (a || (b || c)) ≡ (b || (a || c))
or_swap a b c = ground arith

unfoldable pub same : Entry → Entry → Bool
same (n, k) (m, j) = n == m && k == j

pub same_iff : (e f : Entry) → (same e f ≡ true) ↔ ((e.0 ≡ f.0) × (e.1 ≡ f.1))
unfolding same
same_iff e f = ground arith

-- whether an entry stands in the heap
unfoldable pub has : Entry → List Entry → Bool
unfolding same
has e [] = false
has e (x ∷ heap) = same x e || has e heap

before_le : (e f : Entry) → before e f ≡ true → f.0 ≤ e.0
unfolding before
before_le e f h = ground arith

before_ge : (e f : Entry) → before e f ≡ false → e.0 ≤ f.0
unfolding before
before_ge e f h = ground arith

-- What is popped and what is left are the heap.
pub has-extract :
    (e x : Entry) (xs : List Entry)
    → has e (x ∷ xs) ≡ (same (extract x xs).0 e || has e (extract x xs).1)
unfolding extract has
has-extract e x [] = refl
has-extract e x (y ∷ ys) = elim (Bool-cases (before (extract y ys).0 x)) [
  | inl t ↦ rw (t, has-extract e y ys) (or_swap (same x e) _ _)
  | inr f ↦ rw f refl
]

-- No key in the heap has a later next use than the one that is popped.
pub extract-latest :
    (e x : Entry) (xs : List Entry) → has e (x ∷ xs) ≡ true → e.0 ≤ (extract x xs).0.0
unfolding extract has
extract-latest e x [] h = ground (arith, same_iff x e)
extract-latest e x (y ∷ ys) h = elim (Bool-cases (before (extract y ys).0 x)) [
  | inl t ↦
      rw t (ground (arith, same_iff x e, extract-latest e y ys, before_le (extract y ys).0 x t))
  | inr f ↦
      rw f (ground (arith, same_iff x e, extract-latest e y ys, before_ge (extract y ys).0 x f))
]

pub length-extract : (x : Entry) (xs : List Entry) → length (extract x xs).1 ≡ length xs
unfolding extract
length-extract x [] = refl
length-extract x (y ∷ ys) = ground (arith, length-extract y ys)
