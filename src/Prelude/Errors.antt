-- ===== src/Prelude/Errors.antt =====
-- Code that may raise. `diverged` is the answer of a loop whose fuel ran out.
use Prim.Native.String.{String}
use mathlib.Core.Bool.{Bool, true, false}
use mathlib.Core.Path.{◌≡◌, refl}
use mathlib.Core.List.{List, [], ◌∷◌}
use Prim.Native.Nat.{ℕ, zero, suc, ◌<◌}
use native.Mathlib.Omega.{arith}
use zerocool.Prelude.Lists.{length, get_or, set}

pub data Exception : Type 0 where
  value_error : String → Exception
  key_error index_error type_error zero_division_error : Exception
  diverged : Exception

pub data Result {ℓ} (A : Type ℓ) : Type ℓ where
  ok : A → Result A
  raise : Exception → Result A

infixl 5 ◌>>=◌ ◌>>◌
abbrev pub ◌>>=◌ {ℓ κ} : {A : Type ℓ} {B : Type κ} → Result A → (A → Result B) → Result B
raise exception >>= rest = raise exception
ok value >>= rest = rest value

abbrev pub ◌>>◌ {ℓ} : {B : Type ℓ} → Result (Unit {0}) → Result B → Result B
m >> k = m >>= λ _. k

-- `require(value, message)`
abbrev pub require : Bool → String → Result (Unit {0})
require true message = ok tt
require false message = raise (value_error message)

-- A `require` that passes is of a test that holds.
pub require-true :
    (b : Bool) (message : String) {u : Unit {0}} → require b message ≡ ok u → b ≡ true
require-true Bool.true message h = refl
require-true Bool.false message h = cc

module _ {ℓ} {A : Type ℓ} where
  -- `xs[i]`
  unfoldable pub item : List A → ℕ → Result A
  item [] i = raise index_error
  item (x ∷ xs) zero = ok x
  item (x ∷ xs) (suc i) = item xs i

  -- `xs[i] = v`
  unfoldable pub store : List A → ℕ → A → Result (List A)
  store [] i v = raise index_error
  store (x ∷ xs) zero v = ok (v ∷ xs)
  store (x ∷ xs) (suc i) v = do rest ← store xs i v; ok (x ∷ rest)

  pub item_inside : (xs : List A) (i : ℕ) (d : A) → i < length xs → item xs i ≡ ok (get_or xs i d)
  unfolding item
  item_inside [] i d h = elim h [ ]
  item_inside (x ∷ xs) zero d h = refl
  item_inside (x ∷ xs) (suc i) d h = item_inside xs i d (omega arith)

  pub store_inside : (xs : List A) (i : ℕ) (v : A) → i < length xs → store xs i v ≡ ok (set xs i v)
  unfolding store
  store_inside [] i v h = elim h [ ]
  store_inside (x ∷ xs) zero v h = refl
  store_inside (x ∷ xs) (suc i) v h = rw (store_inside xs i v (omega arith))

-- A step after a first one may be taken with what follows it, if that agrees at each value.
pub bind_through {ℓ κ ν} :
    {A : Type ℓ} {B : Type κ} {C : Type ν} (m : Result A) (f : A → Result B) (g : A → Result C)
    (h : B → Result C)
    → ((a : A) → g a ≡ (f a >>= h))
    → (m >>= g) ≡ ((m >>= f) >>= h)
bind_through (ok a) f g h agree = agree a
bind_through (raise e) f g h agree = refl

-- The same where the other side maps the value of the first step before it goes on.
pub bind_map_through {ℓ κ ν μ} :
    {A : Type ℓ} {B : Type κ} {C : Type ν} {D : Type μ} (m : Result A) (p : A → D)
    (g : D → Result C) (f : A → Result B) (h : B → Result C)
    → ((a : A) → g (p a) ≡ (f a >>= h))
    → ((m >>= λ a. ok (p a)) >>= g) ≡ ((m >>= f) >>= h)
bind_map_through (ok a) p g f h agree = agree a
bind_map_through (raise e) p g f h agree = refl

-- A step that ends well after another has the other end well.
pub bind_inverse {κ ν} :
    {B : Type κ} {C : Type ν} {b : C} (m : Result B) (rest : B → Result C)
    → (m >>= rest) ≡ ok b
    → (a : B) × (m ≡ ok a) × (rest a ≡ ok b)
bind_inverse (raise exception) rest h = cc
bind_inverse (ok a) rest h = (a, refl, h)

abbrev pub is_ok {ℓ} : {A : Type ℓ} → Result A → Bool
is_ok (ok a) = true
is_ok (raise exception) = false

unfoldable pub ok_of {ℓ} : {A : Type ℓ} (m : Result A) → is_ok m ≡ true → (a : A) × (m ≡ ok a)
ok_of (ok a) h = (a, refl)
ok_of (raise exception) h = cc

pub ok_injective {ℓ} : {A : Type ℓ} {a b : A} → ok a ≡ ok b → a ≡ b
ok_injective h = cc
