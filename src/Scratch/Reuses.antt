-- ===== src/Scratch/Reuses.antt =====
-- The reuses that a snapshot counts, where `scratch_snapshot` of
-- scripts/qwen/q4_scratch_lifetime.py accepts it.
use zerocool.Prelude.{
  ℕ, ◌≡◌, refl, sym, ap, ◌∙◌, Bool, true, false, ◌&&◌, List, ◌∷◌, String, nat_eq, leb, ltb, ok,
  bind_inverse, require, ok_injective, Bool-cases, inl, inr, Option-cases,
}
use zerocool.Json.{
  Value, null, bool, int, negative, float, str, list, object, end, find, at, get_key, get_default,
  is_object, is_uint, are_uint, number, same,
}
use zerocool.Scratch.Arena.{pool_fields, check_pool, scratch_snapshot}

-- the pool counts so many reuses
abbrev pub Counts : Value → ℕ → Type 0
Counts pool n = at "reuses" pool ≡ ok (int n)

pub require-true :
    (b : Bool) (message : String) {u : Unit {0}} → require b message ≡ ok u → b ≡ true
require-true Bool.true message h = refl
require-true Bool.false message h = cc

uint_is : (v : Value) → is_uint v ≡ true → v ≡ int (number v)
uint_is (int n) h = refl
uint_is null h = cc
uint_is (bool b) h = cc
uint_is (negative n) h = cc
uint_is (float s) h = cc
uint_is (str s) h = cc
uint_is (list vs) h = cc
uint_is (object fs) h = cc

not_uint : is_uint null ≡ true → ⊥
not_uint h = cc

not_true : false ≡ true → ⊥
not_true h = cc

empty_has_none : (k : String) {v : Value} → at k (object end) ≡ ok v → ⊥
unfolding at find
empty_has_none k h = cc

get_key_at :
    (k : String) (d : Value) {v : Value} → get_key k d ≡ ok v → is_uint v ≡ true → at k d ≡ ok v
unfolding get_key at
get_key_at k (object fs) h counted = elim (Option-cases (find k fs)) [
  | inl missing ↦
      let v_null = ok_injective (rw (missing, get_key) at h) in
      absurd (not_uint (ap is_uint v_null ∙ counted))
  | inr (w, found) ↦ rw (found, at) (rw (found, get_key) at h)
]
get_key_at k null h counted = cc
get_key_at k (bool b) h counted = cc
get_key_at k (int n) h counted = cc
get_key_at k (negative n) h counted = cc
get_key_at k (float s) h counted = cc
get_key_at k (str s) h counted = cc
get_key_at k (list vs) h counted = cc

-- the first key of those that are counted, and the others
are_uint_first :
    (k : String) (ks : List String) (d : Value)
    → are_uint (k ∷ ks) d ≡ ok true
    → ((n : ℕ) × (at k d ≡ ok (int n))) × (are_uint ks d ≡ ok true)
unfolding are_uint
are_uint_first k ks d h =
    let (v, got, h1) = bind_inverse (get_key k d) _ h in
    elim (Bool-cases (is_uint v)) [
      | inl counted ↦
          ((number v, get_key_at k d got counted ∙ ap ok (uint_is v counted)), rw counted at h1)
      | inr other ↦ absurd (not_true (ok_injective (rw other at h1)))
    ]

get_default_at :
    (k j : String) (d : Value) {v u : Value}
    → get_default k (object end) d ≡ ok v
    → at j v ≡ ok u
    → at k d ≡ ok v
unfolding get_default at
get_default_at k j (object fs) {v} {u} h there = elim (Option-cases (find k fs)) [
  | inl missing ↦
      let v_end = ok_injective (rw (missing, get_default) at h) in
      absurd (empty_has_none j (ap (at j) v_end ∙ there))
  | inr (w, found) ↦ rw (found, at) (rw (found, get_default) at h)
]
get_default_at k j null h there = cc
get_default_at k j (bool b) h there = cc
get_default_at k j (int n) h there = cc
get_default_at k j (negative n) h there = cc
get_default_at k j (float s) h there = cc
get_default_at k j (str s) h there = cc
get_default_at k j (list vs) h there = cc

check_pool-Counts :
    (snapshot : Value) (retained used : ℕ) (pool : Value)
    → check_pool snapshot retained used pool ≡ ok tt
    → (n : ℕ) × Counts pool n
unfolding check_pool
check_pool-Counts snapshot retained used pool h =
    let message : String =
      "Scratch cursor, retained bytes or fixed buffer-charge inference differs" in
    let (counted, e1, h1) = bind_inverse (are_uint pool_fields pool) _ h in
    let (u2, e2, h2) = bind_inverse (require counted message) _ h1 in
    let all : are_uint pool_fields pool ≡ ok Bool.true =
      e1 ∙ ap ok (require-true counted message e2) in
    let (f1, r1) = are_uint_first "capacity_bytes" _ pool all in
    let (f2, r2) = are_uint_first "allocated_bytes" _ pool r1 in
    let (f3, r3) = are_uint_first "peak_bytes" _ pool r2 in
    let (f4, r4) = are_uint_first "unused_retained_bytes" _ pool r3 in
    (are_uint_first "reuses" _ pool r4).0

-- A snapshot has its pool, which counts its reuses.
pub scratch_snapshot_pool :
    (budget : ℕ) (snapshot : Value) (retained used : ℕ) (active : Value) {pool : Value}
    → scratch_snapshot budget snapshot retained used active ≡ ok pool
    → (at "pool" snapshot ≡ ok pool) × ((n : ℕ) × Counts pool n)
unfolding scratch_snapshot
scratch_snapshot_pool budget snapshot retained used active {pool} h =
    let message : String =
      "Scratch observation has wrong arena state, outstanding users or invalid live bytes" in
    let (u1, e1, h1) = bind_inverse (require (is_object snapshot) message) _ h in
    let (slot, e2, h2) = bind_inverse (get_key "active_scratch_slot" snapshot) _ h1 in
    let (groups, e3, h3) = bind_inverse (get_key "live_command_groups" snapshot) _ h2 in
    let (live, e4, h4) = bind_inverse (get_key "live_buffer_bytes" snapshot) _ h3 in
    let (u5, e5, h5) =
      bind_inverse
        (require
          (same slot active
            && same groups (int 0)
            && is_uint live
            && ltb 0 (number live)
            && leb (number live) budget)
          message)
        _ h4 in
    let (q, e6, h6) = bind_inverse (get_default "pool" (object end) snapshot) _ h5 in
    let (u7, e7, h7) = bind_inverse (check_pool snapshot retained used q) _ h6 in
    let (n, counts) = check_pool-Counts snapshot retained used q e7 in
    let q_is : q ≡ pool = ok_injective h7 in
    (
      get_default_at "pool" "reuses" snapshot e6 counts ∙ ap ok q_is,
      (n, sym (ap (at "reuses") q_is) ∙ counts),
    )
