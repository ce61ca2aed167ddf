-- ===== src/Json.antt =====
-- The values that json.loads gives, and what the scripts do with them: subscripts, `get`, `==`,
-- and the tests on types. A number with a fraction or an exponent is kept as its text: the scripts
-- modelled here test for `int` before they compute with a number.
pub mod Equal
pub mod Numbers
use zerocool.Prelude.{
  ℕ, suc, Bool, true, false, not, ◌&&◌, ◌||◌, Option, none, some, List, [], ◌∷◌, String, ◌==◌,
  nat_eq, string_eq, if◌then◌else◌, leb, Result, ok, raise, key_error, type_error, ◌>>=◌,
}
use zerocool.Dict.{Dict}

mutual
  pub data Value : Type 0 where
    null : Value
    bool : Bool → Value
    -- `negative n` is the number -(n + 1)
    int negative : ℕ → Value
    float str : String → Value
    list : Items → Value
    object : Fields → Value

  pub data Items : Type 0 where
    nil : Items
    cons : Value → Items → Items

  pub data Fields : Type 0 where
    end : Fields
    field : String → Value → Fields → Fields

abbrev pub items : Items → List Value
items nil = []
items (cons v vs) = v ∷ items vs

abbrev pub as_items : List Value → Items
as_items [] = nil
as_items (v ∷ vs) = cons v (as_items vs)

abbrev pub fields : Fields → Dict String Value
fields end = []
fields (field k v fs) = (k, v) ∷ fields fs

abbrev pub size : Fields → ℕ
size end = 0
size (field k v fs) = suc (size fs)

unfoldable pub find : String → Fields → Option Value
find k end = none
find k (field j v fs) = let rest = find k fs in if j == k then some v else rest

abbrev pub bit : Bool → ℕ
bit true = 1
bit false = 0

-- `==`. A Boolean equals the number 0 or 1; objects compare without the order of their keys. A
-- float equals only a float of the same text.
unfoldable mutual
  pub same : Value → Value → Bool
  same null null = true
  same (bool a) (bool b) = bit a == bit b
  same (bool a) (int n) = bit a == n
  same (int n) (bool a) = n == bit a
  same (int n) (int m) = n == m
  same (negative n) (negative m) = n == m
  same (float s) (float t) = s == t
  same (str s) (str t) = s == t
  same (list vs) (list ws) = same_items vs ws
  same (object fs) (object gs) = size fs == size gs && same_fields fs gs
  same _ _ = false

  pub same_items : Items → Items → Bool
  same_items nil nil = true
  same_items (cons v vs) (cons w ws) = same v w && same_items vs ws
  same_items _ _ = false

  pub same_fields : Fields → Fields → Bool
  same_fields end gs = true
  same_fields (field k v fs) gs =
      elim (find k gs) [ none ↦ false | some w ↦ same v w ] && same_fields fs gs

-- `d[k]`
unfoldable pub at : String → Value → Result Value
at k (object fs) = elim (find k fs) [ none ↦ raise key_error | some v ↦ ok v ]
at k _ = raise type_error

-- `d.get(k)`; where `d` is not a dict, the attribute is missing
unfoldable pub get_key : String → Value → Result Value
get_key k (object fs) = elim (find k fs) [ none ↦ ok null | some v ↦ ok v ]
get_key k _ = raise type_error

-- `k in d` for a dict
unfoldable pub has_key : String → Value → Bool
has_key k (object fs) = elim (find k fs) [ none ↦ false | some v ↦ true ]
has_key k _ = false

-- `isinstance(v, dict)`, `isinstance(v, list)`, `isinstance(v, str)`, `type(v) is bool`, `v is None`
abbrev pub is_object : Value → Bool
is_object (object fs) = true
is_object _ = false

abbrev pub is_list : Value → Bool
is_list (list vs) = true
is_list _ = false

abbrev pub is_str : Value → Bool
is_str (str s) = true
is_str _ = false

abbrev pub is_bool : Value → Bool
is_bool (bool b) = true
is_bool _ = false

abbrev pub is_null : Value → Bool
is_null null = true
is_null _ = false

-- `type(v) is int and v >= 0`, as the number
abbrev pub natural : Value → Option ℕ
natural (int n) = some n
natural _ = none

-- `type(v) is int and v == n`
abbrev pub is_number : ℕ → Value → Bool
is_number n (int m) = m == n
is_number n _ = false

-- `type(v) is int and minimum <= v <= maximum`, for bounds that are not negative
abbrev pub is_between : ℕ → ℕ → Value → Bool
is_between minimum maximum (int n) = leb minimum n && leb n maximum
is_between minimum maximum _ = false

-- the elements of a list that a test has found to be one
abbrev pub elements : Value → List Value
elements (list vs) = items vs
elements _ = []

-- the number that a test has found to be one
abbrev pub number : Value → ℕ
number (int n) = n
number _ = 0

-- `v is True`
abbrev pub is_true : Value → Bool
is_true (bool b) = b
is_true _ = false

-- `v is False`
abbrev pub is_false : Value → Bool
is_false (bool b) = not b
is_false _ = false

-- `v == text`
abbrev pub is_text : String → Value → Bool
is_text text (str s) = s == text
is_text text _ = false

-- `hash(v)`: lists and dicts have none
abbrev pub is_hashable : Value → Bool
is_hashable (list vs) = false
is_hashable (object fs) = false
is_hashable _ = true

-- the numbers of a list of values
abbrev pub numbers : List Value → List ℕ
numbers [] = []
numbers (v ∷ vs) = number v ∷ numbers vs

-- the value of a dict's key, or another where it has none: `d.get(k, v)`
unfoldable pub get_default : String → Value → Value → Result Value
get_default k v (object fs) = elim (find k fs) [ none ↦ ok v | some w ↦ ok w ]
get_default k v _ = raise type_error

-- the texts of one character of a text
abbrev pub letters : String → List Value
letters String.[] = []
letters (String.◌∷◌ c s) = str (String.◌∷◌ c "") ∷ letters s

abbrev pub keys : Fields → List Value
keys end = []
keys (field k v fs) = str k ∷ keys fs

-- `for x in v`
unfoldable pub iterate : Value → Result (List Value)
iterate (list vs) = ok (items vs)
iterate (object fs) = ok (keys fs)
iterate (str s) = ok (letters s)
iterate _ = raise type_error

-- `bool(v)`; a float is true unless its text is that of a zero, which the parameter says
unfoldable pub is_truthy : (String → Bool) → Value → Bool
is_truthy is_zero null = false
is_truthy is_zero (bool b) = b
is_truthy is_zero (int n) = not (n == 0)
is_truthy is_zero (negative n) = true
is_truthy is_zero (float s) = not (is_zero s)
is_truthy is_zero (str s) = not (s == "")
is_truthy is_zero (list nil) = false
is_truthy is_zero (list (cons v vs)) = true
is_truthy is_zero (object end) = false
is_truthy is_zero (object (field k v fs)) = true

-- `v in vs`
unfoldable pub is_member : Value → List Value → Bool
is_member v [] = false
is_member v (w ∷ vs) = same w v || is_member v vs

unfoldable pub are_members : List Value → List Value → Bool
are_members [] ws = true
are_members (v ∷ vs) ws = is_member v ws && are_members vs ws

unfoldable pub are_hashable : List Value → Bool
are_hashable [] = true
are_hashable (v ∷ vs) = is_hashable v && are_hashable vs

-- `set(v) == names`
unfoldable pub is_set_of : List Value → Value → Result Bool
is_set_of names v = do
  vs ← iterate v
  if are_hashable vs then ok (are_members vs names && are_members names vs) else raise type_error

-- `uint(v)` of native_q4_replay.py
abbrev pub is_uint : Value → Bool
is_uint (int n) = true
is_uint _ = false

-- `all(uint(d.get(k)) for k in ks)`
unfoldable pub are_uint : List String → Value → Result Bool
are_uint [] d = ok true
are_uint (k ∷ ks) d = do v ← get_key k d; if is_uint v then are_uint ks d else ok false
