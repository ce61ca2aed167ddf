-- ===== src/Arrivals/Distinct.antt =====
-- The identifiers of a snapshot, which `disk_observation` of scripts/qwen/q4_read_arrivals.py wants to
-- be different.
use zerocool.Prelude.{
  ℕ, suc, ◌≤◌, ◌<◌, ◌≡◌, refl, ap, ◌∙◌, Bool, true, false, ◌||◌, List, [], ◌∷◌, map, arith, ◌==◌,
  nat_eq, ltb, String, length, sorted_set, insert_number, Bool-cases, inl, inr, Option, none, some,
  ok, ok_injective, bind_inverse,
}
use mathlib.Core.Path.{subst}
use zerocool.Dict.{Dict, contains, IsDistinct}
use zerocool.Json.{Value, get_key, is_object, elements}
use zerocool.Arrivals.Disk.{Device, taken, refused, distinct, devices_of, is_filled, snapshot_of}

-- all the numbers of a list are above one
abbrev AllAbove : ℕ → List ℕ → Type 0
AllAbove n [] = Unit {0}
AllAbove n (x ∷ xs) = (n < x) × AllAbove n xs

abbrev IsRising : List ℕ → Type 0
IsRising [] = Unit {0}
IsRising (x ∷ xs) = AllAbove x xs × IsRising xs

abbrev member : ℕ → List ℕ → Bool
member n [] = false
member n (x ∷ xs) = x == n || member n xs

AllAbove-less : (n m : ℕ) (xs : List ℕ) → n < m → AllAbove m xs → AllAbove n xs
AllAbove-less n m [] less v = tt
AllAbove-less n m (x ∷ xs) less v = (omega (arith, less, v.0), AllAbove-less n m xs less v.1)

AllAbove-insert_number :
    (n x : ℕ) (xs : List ℕ) → n < x → AllAbove n xs → AllAbove n (insert_number x xs)
unfolding insert_number
AllAbove-insert_number n x [] less v = (less, tt)
AllAbove-insert_number n x (y ∷ xs) less v =
    ground (arith, less, v.0, v.1, AllAbove-insert_number n x xs less v.1)

insert_number-IsRising : (x : ℕ) (xs : List ℕ) → IsRising xs → IsRising (insert_number x xs)
unfolding insert_number
insert_number-IsRising x [] v = (tt, tt)
insert_number-IsRising x (y ∷ xs) v = elim (Bool-cases (x == y)) [
  | inl same ↦ rw same v
  | inr differs ↦ elim (Bool-cases (ltb x y)) [
    | inl less ↦
        let low : x < y = ground (arith, less) in
        rw (differs, less) ((low, AllAbove-less x y xs low v.0), v)
    | inr more ↦
        let high : y < x = ground (arith, differs, more) in
        rw (differs, more) (AllAbove-insert_number y x xs high v.0, insert_number-IsRising x xs v.1)
  ]
]

sorted_set-IsRising : (xs : List ℕ) → IsRising (sorted_set xs)
unfolding sorted_set
sorted_set-IsRising [] = tt
sorted_set-IsRising (x ∷ xs) = insert_number-IsRising x (sorted_set xs) (sorted_set-IsRising xs)

member-AllAbove : (n : ℕ) (xs : List ℕ) → AllAbove n xs → member n xs ≡ false
member-AllAbove n [] v = refl
member-AllAbove n (x ∷ xs) v = ground (arith, v.0, member-AllAbove n xs v.1)

length-insert_number :
    (x : ℕ) (xs : List ℕ)
    → IsRising xs
    → member x xs ≡ true
    → length (insert_number x xs) ≡ length xs
unfolding insert_number
length-insert_number x [] v there = cc
length-insert_number x (y ∷ xs) v there = elim (Bool-cases (x == y)) [
  | inl same ↦ rw same refl
  | inr differs ↦ elim (Bool-cases (ltb x y)) [
    | inl less ↦
        let low : x < y = ground (arith, less) in
        let absent = member-AllAbove x (y ∷ xs) (low, AllAbove-less x y xs low v.0) in cc
    | inr more ↦
        let further : member x xs ≡ true = ground (arith, there, differs) in
        rw (differs, more) (ap suc (length-insert_number x xs v.1 further))
  ]
]

length-insert_number_most : (x : ℕ) (xs : List ℕ) → length (insert_number x xs) ≤ suc (length xs)
unfolding insert_number
length-insert_number_most x [] = omega arith
length-insert_number_most x (y ∷ xs) = ground (arith, length-insert_number_most x xs)

length-sorted_set : (xs : List ℕ) → length (sorted_set xs) ≤ length xs
unfolding sorted_set
length-sorted_set [] = omega arith
length-sorted_set (x ∷ xs) =
    omega (arith, length-insert_number_most x (sorted_set xs), length-sorted_set xs)

member-insert_number :
    (n x : ℕ) (xs : List ℕ) → member n (insert_number x xs) ≡ (x == n || member n xs)
unfolding insert_number
member-insert_number n x [] = refl
member-insert_number n x (y ∷ xs) = ground (arith, member-insert_number n x xs)

member-sorted_set : (n : ℕ) (xs : List ℕ) → member n (sorted_set xs) ≡ member n xs
unfolding sorted_set
member-sorted_set n [] = refl
member-sorted_set n (x ∷ xs) =
    member-insert_number n x (sorted_set xs) ∙ ap (λ b. x == n || b) (member-sorted_set n xs)

abbrev entries : List Device → Dict ℕ Device
entries devices = map (λ d. (d.registry_id, d)) devices

contains-entries :
    (id : ℕ) (devices : List Device)
    → contains id (entries devices) ≡ member id (map (λ d. d.registry_id) devices)
unfolding contains
contains-entries id [] = refl
contains-entries id (d ∷ devices) = ap (λ b. d.registry_id == id || b) (contains-entries id devices)

length-ids : (devices : List Device) → length (map (λ d. d.registry_id) devices) ≡ length devices
length-ids [] = refl
length-ids (d ∷ devices) = ap suc (length-ids devices)

-- as many different identifiers as devices: none stands twice
entries-IsDistinct :
    (devices : List Device)
    → length (sorted_set (map (λ d. d.registry_id) devices)) ≡ length devices
    → IsDistinct (entries devices)
unfolding sorted_set
entries-IsDistinct [] h = tt
entries-IsDistinct (d ∷ devices) h =
    let id = d.registry_id in
    let ids = map (λ d. d.registry_id) devices in
    let few : length (sorted_set ids) ≤ length devices =
      omega (arith, length-sorted_set ids, length-ids devices) in
    let most = length-insert_number_most id (sorted_set ids) in
    let all_kept : length (sorted_set ids) ≡ length devices = omega (arith, h, few, most) in
    elim (Bool-cases (member id ids)) [
      | inl again ↦
          let old =
            length-insert_number id (sorted_set ids) (sorted_set-IsRising ids)
              (member-sorted_set id ids ∙ again) in
          absurd (omega (arith, h, old, all_kept))
      | inr new ↦ (contains-entries id devices ∙ new, entries-IsDistinct devices all_kept)
    ]

refused_is : {reason : String} {d : Dict ℕ Device} → refused reason ≡ taken d → ⊥
refused_is e = cc

taken_injective : {c d : Dict ℕ Device} → taken c ≡ taken d → c ≡ d
taken_injective e = cc

distinct-IsDistinct :
    (devices : List Device) {d : Dict ℕ Device} → distinct devices ≡ taken d → IsDistinct d
unfolding distinct
distinct-IsDistinct devices h =
    let different = length (sorted_set (map (λ d. d.registry_id) devices)) == length devices in
    elim (Bool-cases different) [
      | inl yes_all ↦
          subst IsDistinct (taken_injective (rw yes_all at h))
            (entries-IsDistinct devices (ground (arith, yes_all)))
      | inr again ↦ absurd (refused_is (rw again at h))
    ]

not_ok_refused : {reason : String} {d : Dict ℕ Device} → ok (refused reason) ≡ ok (taken d) → ⊥
not_ok_refused e = refused_is (ok_injective e)

counted-IsDistinct :
    (found : Option (List Device)) {d : Dict ℕ Device}
    → elim found [ none ↦ refused "Invalid device counters" | some devices ↦ distinct devices ]
      ≡ taken d
    → IsDistinct d
counted-IsDistinct none h = absurd (refused_is h)
counted-IsDistinct (some devices) h = distinct-IsDistinct devices h

pub snapshot_of-IsDistinct :
    (raw : Value) {d : Dict ℕ Device} → snapshot_of raw ≡ ok (taken d) → IsDistinct d
unfolding snapshot_of
snapshot_of-IsDistinct raw h = elim (Bool-cases (is_object raw)) [
  | inr other ↦ absurd (not_ok_refused (rw other at h))
  | inl named ↦
      let (value, e1, h1) = bind_inverse (get_key "devices" raw) _ (rw named at h) in
      elim (Bool-cases (is_filled value)) [
        | inr empty ↦ absurd (not_ok_refused (rw empty at h1))
        | inl filled ↦
            let (found, e2, h2) = bind_inverse (devices_of (elements value)) _ (rw filled at h1) in
            counted-IsDistinct found (ok_injective h2)
      ]
]
