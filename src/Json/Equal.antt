-- ===== src/Json/Equal.antt =====
-- What `==` of two dicts says of their entries.
use zerocool.Prelude.{
  ℕ, ◌≡◌, refl, Bool, true, ◌&&◌, Option, none, some, arith, String, ◌==◌, string_eq, nat_eq, ok,
  raise, Exception, Bool-cases, inl, inr, Option-cases, sym, ap, ◌∙◌, ok_injective,
}
use zerocool.Json.{
  Value, null, bool, int, negative, float, str, list, object, Fields, end, field, find, at, same,
  same_fields, size,
}

both : (a b : Bool) → (a && b) ≡ true → (a ≡ true) × (b ≡ true)
both a b h = ground (arith, h)

matched_some :
    (v : Value) (o : Option Value)
    → (elim o [ none ↦ Bool.false | some w ↦ same v w ]) ≡ true
    → (w : Value) × (o ≡ some w) × (same v w ≡ true)
matched_some v none h = cc
matched_some v (some w) h = (w, refl, h)

raised : {v : Value} {e : Exception} → raise e ≡ ok v → ⊥
raised h = cc

some_injective : {u v : Value} → some u ≡ some v → u ≡ v
some_injective h = cc

pub find-same_fields :
    (k : String) (fs gs : Fields) {v : Value}
    → same_fields fs gs ≡ true
    → find k fs ≡ some v
    → (w : Value) × (find k gs ≡ some w) × (same v w ≡ true)
unfolding same find
find-same_fields k end gs h found = cc
find-same_fields k (field j u fs) gs {v} h found =
    let (here, there) =
      both (elim (find j gs) [ none ↦ Bool.false | some w ↦ same u w ]) (same_fields fs gs) h in
    elim (Bool-cases (j == k)) [
      | inl is_key ↦
          let u_is_v : some u ≡ some v = rw is_key at found in
          let (w, at_j, equal) = matched_some u (find j gs) here in
          let j_is_k : j ≡ k = (string_eq.equal_iff j k).0 is_key in
          (
            w,
            sym (ap (λ i. find i gs) j_is_k) ∙ at_j,
            sym (ap (λ x. same x w) (some_injective u_is_v)) ∙ equal,
          )
      | inr other ↦ find-same_fields k fs gs there (rw other at found)
    ]

-- a value with a key is a dict
at_object :
    (k : String) (v : Value) {a : Value}
    → at k v ≡ ok a
    → (fs : Fields) × (v ≡ object fs) × (find k fs ≡ some a)
unfolding at
at_object k (object fs) h = elim (Option-cases (find k fs)) [
  | inl missing ↦ absurd (raised (rw (missing, at) at h))
  | inr (b, found) ↦ (fs, refl, found ∙ ap some (ok_injective (rw (found, at) at h)))
]
at_object k null h = cc
at_object k (bool b) h = cc
at_object k (int n) h = cc
at_object k (negative n) h = cc
at_object k (float s) h = cc
at_object k (str s) h = cc
at_object k (list vs) h = cc

found_at : (k : String) (fs : Fields) {a : Value} → find k fs ≡ some a → at k (object fs) ≡ ok a
unfolding at
found_at k fs h = rw (h, at) refl

-- what equals a dict is one
same_object :
    (fs : Fields) (w : Value)
    → same (object fs) w ≡ true
    → (gs : Fields) × (w ≡ object gs) × (same_fields fs gs ≡ true)
unfolding same
same_object fs (object gs) h = (gs, refl, (both (size fs == size gs) (same_fields fs gs) h).1)
same_object fs null h = cc
same_object fs (bool b) h = cc
same_object fs (int n) h = cc
same_object fs (negative n) h = cc
same_object fs (float s) h = cc
same_object fs (str s) h = cc
same_object fs (list vs) h = cc

-- Where a value has a key, so has an equal one, and the entries are equal.
pub at-same :
    (k : String) (v w : Value) {a : Value}
    → same v w ≡ true
    → at k v ≡ ok a
    → (b : Value) × (at k w ≡ ok b) × (same a b ≡ true)
at-same k v w h there =
    let (fs, v_is, found) = at_object k v there in
    let (gs, w_is, equal) = same_object fs w (sym (ap (λ x. same x w) v_is) ∙ h) in
    let (b, found_b, agree) = find-same_fields k fs gs equal found in
    (b, ap (at k) w_is ∙ found_at k gs found_b, agree)

-- Equal values agree on a number under a key.
pub at-same_number :
    (k : String) (v w : Value) {n m : ℕ}
    → same v w ≡ true
    → at k v ≡ ok (int n)
    → at k w ≡ ok (int m)
    → n ≡ m
unfolding same
at-same_number k v w {n} {m} h left right =
    let (b, there, agree) = at-same k v w h left in
    let b_is : b ≡ int m = ok_injective (sym there ∙ right) in
    let same_number : same (int n) (int m) ≡ true = rw b_is at agree in ground (arith, same_number)
