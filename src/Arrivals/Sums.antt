-- ===== src/Arrivals/Sums.antt =====
-- The bytes that `disk_observation` of scripts/qwen/q4_read_arrivals.py finds between two snapshots.
use zerocool.Prelude.{
  ℕ, ◌+◌, ◌≤◌, ◌≡◌, refl, sym, ap, ◌∙◌, true, not, ◌&&◌, some, [], ◌∷◌, arith, ◌==◌, nat_eq, ltb,
  all, Bool-cases, inl, inr, String, ok, ok_injective, bind_inverse,
}
use zerocool.Dict.{Dict, get, contains, IsDistinct}
use zerocool.Json.{Value, get_key}
use zerocool.Arrivals.Distinct.{snapshot_of-IsDistinct}
use zerocool.Arrivals.Disk.{
  Device, available, unavailable, device_at, is_rising, same_keys, difference, Snapshot, taken,
  refused, snapshot_of, before_of, after_of, disk_observation,
}
use zerocool.Arrivals.Devices.{
  both, sum_over, SameDevices, same_id, all-contains, chosen, added-is_rising, total-sum_over,
}

unavailable_is : {reason : String} {a b : ℕ} → unavailable reason ≡ available a b → ⊥
unavailable_is e = cc

available_injective : {a b c d : ℕ} → available a b ≡ available c d → (a ≡ c) × (b ≡ d)
available_injective h = (cc, cc)

-- no device of the first snapshot is ahead of itself in the second
abbrev pub NoneFalls : Dict ℕ Device → Dict ℕ Device → Type 0
NoneFalls before after =
    (id : ℕ) (b a : Device)
    → get id before ≡ some b
    → get id after ≡ some a
    → (b.read_bytes ≤ a.read_bytes) × (b.write_bytes ≤ a.write_bytes)

rising-get :
    (counter : Device → ℕ) (d after : Dict ℕ Device)
    → is_rising counter d after ≡ true
    → (id : ℕ) (b a : Device) → get id d ≡ some b
    → get id after ≡ some a
    → counter b ≤ counter a
unfolding all get
rising-get counter [] after h id b a in_before in_after = cc
rising-get counter ((j, x) ∷ d) after h id b a in_before in_after =
    let (first, rest) =
      both (not (ltb (counter (device_at j after)) (counter x))) (is_rising counter d after) h in
    elim (Bool-cases (j == id)) [
      | inl same ↦
          let x_is : some x ≡ some b = rw same at in_before in
          let now : device_at j after ≡ a =
            ap (λ k. device_at k after) (same_id j id same) ∙ ap chosen in_after in
          let low : counter x ≤ counter (device_at j after) = ground (arith, first) in
          let last : counter x ≡ counter b = ap (λ o. counter (chosen o)) x_is in
          omega (arith, low, last, ap counter now)
      | inr differs ↦
          let further : get id d ≡ some b = rw differs at in_before in
          rising-get counter d after rest id b a further in_after
    ]

-- what an answer says of two snapshots
abbrev pub IsCounted : Dict ℕ Device → Dict ℕ Device → ℕ → ℕ → Type 0
IsCounted before after read written =
    SameDevices before after
    × NoneFalls before after
    × (read + sum_over (λ d. d.read_bytes) before ≡ sum_over (λ d. d.read_bytes) after)
    × (written + sum_over (λ d. d.write_bytes) before ≡ sum_over (λ d. d.write_bytes) after)

same_keys-SameDevices :
    (before after : Dict ℕ Device) → same_keys before after ≡ true → SameDevices before after
same_keys-SameDevices before after h id =
    let (there, back) =
      both (all (λ entry. contains entry.0 after) before)
        (all (λ entry. contains entry.0 before) after) h in
    elim (Bool-cases (contains id before)) [
      | inl yes_before ↦ yes_before ∙ sym (all-contains before after there id yes_before)
      | inr no_before ↦ elim (Bool-cases (contains id after)) [
        | inl yes_after ↦ let found = all-contains after before back id yes_after in cc
        | inr no_after ↦ no_before ∙ sym no_after
      ]
    ]

difference-IsCounted :
    (before after : Dict ℕ Device) (read written : ℕ)
    → IsDistinct before
    → IsDistinct after
    → difference before after ≡ available read written
    → IsCounted before after read written
unfolding difference
difference-IsCounted before after read written v w h = elim (Bool-cases (same_keys before after)) [
  | inr changed ↦ absurd (unavailable_is (rw changed at h))
  | inl kept ↦
      let risen =
        is_rising (λ d. d.read_bytes) before after && is_rising (λ d. d.write_bytes) before after in
      elim (Bool-cases risen) [
        | inr fell ↦ absurd (unavailable_is (rw (kept, fell) at h))
        | inl rose ↦
            let (reads, writes) =
              both (is_rising (λ d. d.read_bytes) before after)
                (is_rising (λ d. d.write_bytes) before after) rose in
            let (read_is, written_is) = available_injective (rw (kept, rose) at h) in
            let devices = same_keys-SameDevices before after kept in
            (
              devices,
              λ id b a in_before in_after. (
                rising-get (λ d. d.read_bytes) before after reads id b a in_before in_after,
                rising-get (λ d. d.write_bytes) before after writes id b a in_before in_after,
              ),
              omega (
                arith,
                read_is,
                added-is_rising (λ d. d.read_bytes) before after reads,
                total-sum_over (λ d. d.read_bytes) before after v w devices,
              ),
              omega (
                arith,
                written_is,
                added-is_rising (λ d. d.write_bytes) before after writes,
                total-sum_over (λ d. d.write_bytes) before after v w devices,
              ),
            )
      ]
]

before_of-taken :
    (arm : Value) (s : Snapshot) {a b : ℕ}
    → before_of arm s ≡ ok (available a b)
    → (before : Dict ℕ Device) × (s ≡ taken before)
      × ((raw : Value) × (t : Snapshot) × (get_key "disk_after" arm ≡ ok raw)
          × (snapshot_of raw ≡ ok t)
          × (after_of before t ≡ available a b))
unfolding before_of
before_of-taken arm (refused reason) h = absurd (unavailable_is (ok_injective h))
before_of-taken arm (taken before) h =
    let (raw, e1, h1) = bind_inverse (get_key "disk_after" arm) _ h in
    let (t, e2, h2) = bind_inverse (snapshot_of raw) _ h1 in
    (before, refl, (raw, t, e1, e2, ok_injective h2))

after_of-taken :
    (before : Dict ℕ Device) (t : Snapshot) {a b : ℕ}
    → after_of before t ≡ available a b
    → (after : Dict ℕ Device) × (t ≡ taken after) × (difference before after ≡ available a b)
unfolding after_of
after_of-taken before (refused reason) h = absurd (unavailable_is h)
after_of-taken before (taken after) h = (after, refl, h)

-- a snapshot that an arm has under a key
abbrev pub IsTaken : String → Value → Dict ℕ Device → Type 0
IsTaken k arm d =
    (raw : Value) × (get_key k arm ≡ ok raw) × (snapshot_of raw ≡ ok (taken d)) × IsDistinct d

-- Where `disk_observation` answers with bytes, the arm has two snapshots of the same devices, none of
-- them twice. No device has fewer bytes read or written in the second snapshot than in the first, and
-- the bytes of the answer, with those that the first snapshot counts over all its devices, are those
-- that the second counts over all of its own.
pub disk_observation-available :
    (arm : Value) (read written : ℕ)
    → disk_observation arm ≡ ok (available read written)
    → (before after : Dict ℕ Device) × IsTaken "disk_before" arm before
      × IsTaken "disk_after" arm after
      × IsCounted before after read written
unfolding disk_observation
disk_observation-available arm read written h =
    let (raw, e1, h1) = bind_inverse (get_key "disk_before" arm) _ h in
    let (first, e2, h2) = bind_inverse (snapshot_of raw) _ h1 in
    let (before, is_first, (raw_after, second, e3, e4, h4)) = before_of-taken arm first h2 in
    let (after, is_second, counted) = after_of-taken before second h4 in
    let starts : snapshot_of raw ≡ ok (taken before) = e2 ∙ ap ok is_first in
    let ends : snapshot_of raw_after ≡ ok (taken after) = e4 ∙ ap ok is_second in
    let v = snapshot_of-IsDistinct raw starts in
    let w = snapshot_of-IsDistinct raw_after ends in
    (
      before,
      after,
      (raw, e1, starts, v),
      (raw_after, e3, ends, w),
      difference-IsCounted before after read written v w counted,
    )
