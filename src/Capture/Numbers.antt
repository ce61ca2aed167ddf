-- ===== src/Capture/Numbers.antt =====
-- Lists of values that equal lists of numbers.
use zerocool.Prelude.{
  ℕ, suc, ◌≡◌, refl, ap, Bool, true, ◌&&◌, List, [], ◌∷◌, ◌++◌, map, arith, nat_eq, length,
}
use zerocool.Json.{
  Value, null, bool, int, negative, float, str, list, object, Items, nil, cons, items, as_items,
  same, same_items,
}

-- the values equal the numbers, one by one
abbrev pub Holds : List ℕ → List Value → Type 0
Holds ns vs = same_items (as_items (map int ns)) (as_items vs) ≡ true

both : (a b : Bool) → (a && b) ≡ true → (a ≡ true) × (b ≡ true)
both a b h = ground (arith, h)

pub as_items-items : (vs : Items) → as_items (items vs) ≡ vs
as_items-items nil = refl
as_items-items (cons v vs) = ap (cons v) (as_items-items vs)

-- two numbers that equal a value are one
same-int : (n m : ℕ) (v : Value) → same (int n) v ≡ true → same (int m) v ≡ true → n ≡ m
unfolding same
same-int n m (int k) h g = ground (arith, h, g)
same-int n m (bool b) h g = ground (arith, h, g)
same-int n m null h g = cc
same-int n m (negative k) h g = cc
same-int n m (float s) h g = cc
same-int n m (str s) h g = cc
same-int n m (list vs) h g = cc
same-int n m (object fs) h g = cc

pub Holds-append :
    (ns ms : List ℕ) (vs ws : List Value) → Holds ns vs → Holds ms ws → Holds (ns ++ ms) (vs ++ ws)
unfolding same_items
Holds-append [] ms [] ws h g = g
Holds-append [] ms (v ∷ vs) ws h g = cc
Holds-append (n ∷ ns) ms [] ws h g = cc
Holds-append (n ∷ ns) ms (v ∷ vs) ws h g =
    let (first, rest) = both (same (int n) v) _ h in rw (first, Holds-append ns ms vs ws rest g)

pub length-Holds : (ns : List ℕ) (vs : List Value) → Holds ns vs → length vs ≡ length ns
unfolding same_items
length-Holds [] [] h = refl
length-Holds [] (v ∷ vs) h = cc
length-Holds (n ∷ ns) [] h = cc
length-Holds (n ∷ ns) (v ∷ vs) h = ap suc (length-Holds ns vs (both (same (int n) v) _ h).1)

-- Numbers that a list begins with are what is before the rest of its numbers.
pub Holds-prefix :
    (ns ms : List ℕ) (vs ws : List Value)
    → Holds ns vs
    → Holds ms (vs ++ ws)
    → (rest : List ℕ) × (ms ≡ ns ++ rest) × Holds rest ws
unfolding same_items
Holds-prefix [] ms [] ws h g = (ms, refl, g)
Holds-prefix [] ms (v ∷ vs) ws h g = cc
Holds-prefix (n ∷ ns) ms [] ws h g = cc
Holds-prefix (n ∷ ns) [] (v ∷ vs) ws h g = cc
Holds-prefix (n ∷ ns) (m ∷ ms) (v ∷ vs) ws h g =
    let (first, rest) = both (same (int n) v) _ h in
    let (other, others) = both (same (int m) v) _ g in
    let (left, is_left, held) = Holds-prefix ns ms vs ws rest others in
    let head : m ≡ n = same-int m n v other first in (left, rw (head, is_left), held)

-- a value that a list of numbers equals is a list
pub Holds-list :
    (ns : List ℕ) (v : Value)
    → same (list (as_items (map int ns))) v ≡ true
    → (vs : Items) × (v ≡ list vs) × Holds ns (items vs)
unfolding same
Holds-list ns (list vs) h = (vs, refl, rw (← as_items-items vs) at h)
Holds-list ns null h = cc
Holds-list ns (bool b) h = cc
Holds-list ns (int n) h = cc
Holds-list ns (negative n) h = cc
Holds-list ns (float s) h = cc
Holds-list ns (str s) h = cc
Holds-list ns (object fs) h = cc
