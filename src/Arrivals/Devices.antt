-- ===== src/Arrivals/Devices.antt =====
-- The devices of two snapshots that `disk_observation` of scripts/qwen/q4_read_arrivals.py compares,
-- and the sums over them.
use zerocool.Prelude.{
  ℕ, ◌+◌, ◌≤◌, ◌≡◌, refl, sym, ap, ◌∙◌, Bool, true, false, not, ◌&&◌, ◌||◌, Option, none, some, [],
  ◌∷◌, arith, ◌==◌, nat_eq, ltb, all, sum_of, Bool-cases, inl, inr,
}
use mathlib.Core.Path.{subst}
use zerocool.Dict.{
  Dict, get, remove, contains, get-remove, IsDistinct, remove-IsDistinct, remove_absent,
  contains-remove,
}
use zerocool.Arrivals.Disk.{Device, none_device, device_at, is_rising, added}

pub both : (a b : Bool) → (a && b) ≡ true → (a ≡ true) × (b ≡ true)
both a b h = ground (arith, h)

-- the sum of a counter over the devices of a snapshot, as another snapshot has them
abbrev pub total : (Device → ℕ) → Dict ℕ Device → Dict ℕ Device → ℕ
total counter before after = sum_of (λ entry. counter (device_at entry.0 after)) before

pub added-is_rising :
    (counter : Device → ℕ) (before after : Dict ℕ Device)
    → is_rising counter before after ≡ true
    → added counter before after + sum_of (λ entry. counter entry.1) before
      ≡ total counter before after
unfolding all sum_of
added-is_rising counter [] after h = refl
added-is_rising counter ((id, d) ∷ before) after h =
    let now = counter (device_at id after) in
    let (first, rest) = both (not (ltb now (counter d))) (is_rising counter before after) h in
    let rises : counter d ≤ now = ground (arith, first) in
    omega (arith, rises, added-is_rising counter before after rest)

-- the sum of a counter over the devices of a snapshot
abbrev pub sum_over : (Device → ℕ) → Dict ℕ Device → ℕ
sum_over counter d = sum_of (λ entry. counter entry.1) d

pub same_id : (n m : ℕ) → (n == m) ≡ true → n ≡ m
same_id n m h = ground (arith, h)

pub all-contains :
    (d after : Dict ℕ Device)
    → all (λ entry. contains entry.0 after) d ≡ true
    → (id : ℕ) → contains id d ≡ true
    → contains id after ≡ true
unfolding all contains
all-contains [] after h id there = cc
all-contains ((j, v) ∷ d) after h id there =
    let (first, rest) = both (contains j after) (all (λ entry. contains entry.0 after) d) h in
    elim (Bool-cases (j == id)) [
      | inl same ↦ subst (λ k. contains k after ≡ true) (same_id j id same) first
      | inr differs ↦ all-contains d after rest id (ground (arith, there, differs))
    ]

-- `device_at`, of what the key stands for
abbrev pub chosen : Option Device → Device
chosen o = elim o [ none ↦ none_device | some d ↦ d ]

sum-remove :
    (counter : Device → ℕ) (id : ℕ) (d : Dict ℕ Device)
    → IsDistinct d
    → contains id d ≡ true
    → sum_over counter d ≡ counter (device_at id d) + sum_over counter (remove id d)
unfolding sum_of remove contains get
sum-remove counter id [] v there = cc
sum-remove counter id ((j, x) ∷ d) v there = elim (Bool-cases (j == id)) [
  | inl same ↦
      let absent : contains id d ≡ false =
        subst (λ k. contains k d ≡ false) (same_id j id same) v.0 in
      let there_is : get id ((j, x) ∷ d) ≡ some x = rw same refl in
      let found : device_at id ((j, x) ∷ d) ≡ x = ap chosen there_is in
      let removed : remove id ((j, x) ∷ d) ≡ d = rw same (remove_absent id d absent) in
      omega (arith, ap counter found, ap (sum_over counter) removed)
  | inr differs ↦
      let rest = sum-remove counter id d v.1 (ground (arith, there, differs)) in
      let passed : get id ((j, x) ∷ d) ≡ get id d = rw differs refl in
      let found : device_at id ((j, x) ∷ d) ≡ device_at id d = ap chosen passed in
      let removed : remove id ((j, x) ∷ d) ≡ (j, x) ∷ remove id d = rw differs refl in
      omega (arith, rest, ap counter found, ap (sum_over counter) removed)
]

total-remove :
    (counter : Device → ℕ) (id : ℕ) (before after : Dict ℕ Device)
    → contains id before ≡ false
    → total counter before after ≡ total counter before (remove id after)
unfolding sum_of contains
total-remove counter id [] after absent = refl
total-remove counter id ((j, x) ∷ before) after absent =
    let differs : (id == j) ≡ false = ground (arith, absent) in
    let further : contains id before ≡ false = ground (arith, absent) in
    let found : get j (remove id after) ≡ get j after = get-remove id j after ∙ rw differs refl in
    let kept : device_at j (remove id after) ≡ device_at j after = ap chosen found in
    omega (arith, ap counter kept, total-remove counter id before after further)

-- two snapshots of the same devices
abbrev pub SameDevices : Dict ℕ Device → Dict ℕ Device → Type 0
SameDevices before after = (id : ℕ) → contains id before ≡ contains id after

pub total-sum_over :
    (counter : Device → ℕ) (before after : Dict ℕ Device)
    → IsDistinct before
    → IsDistinct after
    → SameDevices before after
    → total counter before after ≡ sum_over counter after
unfolding sum_of contains
total-sum_over counter [] [] v w devices = refl
total-sum_over counter [] ((j, x) ∷ after) v w devices =
    let there : (j == j) ≡ true = ground arith in
    let absent : false ≡ (j == j || contains j after) = devices j in absurd (ground (arith, absent))
total-sum_over counter ((id, x) ∷ before) after v w devices =
    let here : contains id after ≡ true = sym (devices id) ∙ ground arith in
    let smaller : SameDevices before (remove id after) = λ k. elim (Bool-cases (id == k)) [
      | inl same ↦
          let absent : contains k before ≡ false =
            subst (λ i. contains i before ≡ false) (same_id id k same) v.0 in
          absent ∙ sym (contains-remove id k after ∙ rw same refl)
      | inr differs ↦
          let kept : contains k before ≡ contains k after = rw differs at (devices k) in
          kept ∙ sym (contains-remove id k after ∙ rw differs refl)
    ] in
    let rest =
      total-sum_over counter before (remove id after) v.1 (remove-IsDistinct id after w) smaller in
    omega
      (arith, total-remove counter id before after v.0, rest, sum-remove counter id after w here)
