-- ===== src/Json/Numbers.antt =====
-- Numbers of JSON in the scripts: `and` and `all` over tests that may raise, comparisons, sums and
-- differences. What Python does with a float, of which only the text is kept, is a record of
-- functions.
use zerocool.Prelude.{
  ℕ, ◌+◌, ◌≡◌, refl, length, ◌-◌, ◌^◌, Bool, true, false, List, [], ◌∷◌, String, if◌then◌else◌, ltb,
  leb, Result, ok, raise, value_error, key_error, type_error, ◌>>=◌, require, item, not,
}
use zerocool.Json.{
  Value, bool, int, negative, float, get_key, get_default, bit, same, items, letters, size, list,
  object, str,
}

pub record Floats : Type 0 where
  -- `not x`
  pub is_zero : String → Bool
  -- `math.isfinite(x) and x > 0`
  pub is_positive : String → Bool
  -- `x + n`
  pub plus : String → ℕ → Value

infixr 4 ◌&?◌
-- `m and k`
abbrev pub ◌&?◌ : Result Bool → Result Bool → Result Bool
m &? k = m >>= λ b. if b then k else ok false

-- `all(test(x) for x in xs)`
unfoldable pub all_of {ℓ} : {A : Type ℓ} → (A → Result Bool) → List A → Result Bool
all_of test [] = ok true
all_of test (x ∷ xs) = do good ← test x; if good then all_of test xs else ok false

-- `require(test, message)` where the test may raise
abbrev pub check : Result Bool → String → Result (Unit {0})
check test message = test >>= λ b. require b message

infixr 3 ◌|?◌
-- `m or k`
abbrev pub ◌|?◌ : Result Bool → Result Bool → Result Bool
m |? k = m >>= λ b. if b then ok true else k

-- `if test: raise ValueError(message)` where the test may raise
abbrev pub refuse : Result Bool → String → Result (Unit {0})
refuse test message = test >>= λ b. require (not b) message

-- `d.get(k, default) != v`
unfoldable pub lacks : String → Value → Value → Value → Result Bool
lacks k default v d = do w ← get_default k default d; ok (not (same w v))

-- `d.get(k) == v`
unfoldable pub has : String → Value → Value → Result Bool
has k v d = do w ← get_key k d; ok (same w v)

-- `uint(d.get(k))`, for a test of unsigned numbers
unfoldable pub counts : (Value → Bool) → String → Value → Result Bool
counts test k d = do w ← get_key k d; ok (test w)

-- `type(v) is int and 0 <= v <= 2**64-1`
abbrev pub is_u64 : Value → Bool
is_u64 (int n) = ltb n (2 ^ 64)
is_u64 _ = false

-- `v + n`
unfoldable pub plus : Floats → Value → ℕ → Result Value
plus floats (int m) n = ok (int (m + n))
plus floats (negative m) n = ok (if leb (m + 1) n then int (n - (m + 1)) else negative (m - n))
plus floats (bool b) n = ok (int (bit b + n))
plus floats (float s) n = ok (floats.plus s n)
plus floats _ n = raise type_error

-- `b - a`
unfoldable pub minus : ℕ → ℕ → Value
minus b a = if leb a b then int (b - a) else negative (a - b - 1)

-- `len(v)`
unfoldable pub size_of : Value → Result ℕ
size_of (list vs) = ok (length (items vs))
size_of (object fs) = ok (size fs)
size_of (str s) = ok (length (letters s))
size_of _ = raise type_error

-- `v[0]`
unfoldable pub first_of : Value → Result Value
first_of (list vs) = item (items vs) 0
first_of (object fs) = raise key_error
first_of _ = raise type_error

-- `math.isfinite(v) and v > 0`
unfoldable pub is_positive : Floats → Value → Result Bool
is_positive floats (int n) = ok (ltb 0 n)
is_positive floats (negative n) = ok false
is_positive floats (bool b) = ok b
is_positive floats (float s) = ok (floats.is_positive s)
is_positive floats _ = raise type_error

-- the errors of a missing key or a wrong type, as one of value
unfoldable pub as_value_error {ℓ} : {A : Type ℓ} → String → Result A → Result A
as_value_error message (raise key_error) = raise (value_error message)
as_value_error message (raise type_error) = raise (value_error message)
as_value_error message m = m

-- A check that passes is of a test that holds.
pub check-true :
    (m : Result Bool) (message : String) {u : Unit {0}} → check m message ≡ ok u → m ≡ ok true
check-true (ok Bool.true) message h = refl
check-true (ok Bool.false) message h = cc
check-true (raise e) message h = cc

-- Both tests hold where the one and the other do.
pub both_hold : (m k : Result Bool) → (m &? k) ≡ ok true → (m ≡ ok true) × (k ≡ ok true)
both_hold (ok Bool.true) k h = (refl, h)
both_hold (ok Bool.false) k h = cc
both_hold (raise e) k h = cc
