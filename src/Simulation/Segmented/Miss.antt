-- ===== src/Simulation/Segmented/Miss.antt =====
-- `SegmentedLRU.access` on a miss: admission to probation, and the eviction of its oldest key.
use zerocool.Prelude.{
  ℕ, suc, ◌+◌, ◌<◌, ◌≡◌, refl, Bool, true, false, [], ◌∷◌, ◌++◌, arith, length, Result, ok, ◌==◌,
  nat_eq, nat_equal_iff, Bool-cases, ◌⊎◌, inl, inr,
}
use zerocool.Dict.{
  Dict, put, contains, contains-put, IsDistinct, put-IsDistinct, length-put_new, put_new, pop_first,
}
use zerocool.Simulation.Segmented.{Segmented, make_room, access}
use zerocool.Simulation.Segmented.Access.{IsValid, resident}

-- the state once there is room for one more key
abbrev admitted : ℕ → Dict ℕ (Unit {0}) → Segmented → Segmented
admitted key rest s = record s { probation = put key tt rest }

admitted-IsValid :
    (key : ℕ) (rest : Dict ℕ (Unit {0})) (s : Segmented)
    → IsValid s
    → contains key s.protected ≡ false
    → contains key rest ≡ false
    → IsDistinct rest
    → ((k : ℕ) → contains k rest ≡ true → contains k s.probation ≡ true)
    → length s.protected + length rest < s.capacity
    → IsValid (admitted key rest s)
admitted-IsValid key rest s v elsewhere new distinct inside room = record {
  limit = v.limit;
  probation_distinct = put-IsDistinct key tt rest distinct;
  protected_distinct = v.protected_distinct;
  apart = λ k. ground (arith, contains-put key k tt rest, v.apart k, inside k, nat_equal_iff key k);
  protected_bound = v.protected_bound;
  bound = omega (arith, length-put_new key tt rest new);
}

-- What a miss does to probation: the key goes to its end, and where the cache was full its oldest
-- key goes.
abbrev pub Admits : ℕ → Segmented → Segmented → Type 0
Admits key s s' =
    ((length s.protected + length s.probation < s.capacity)
      × (s'.probation ≡ s.probation ++ (key, tt) ∷ []))
    ⊎ ((victim : ℕ) × (rest : Dict ℕ (Unit {0})) × (length s.protected + length s.probation
          ≡ s.capacity)
        × (s.probation ≡ (victim, tt) ∷ rest)
        × (s'.probation ≡ rest ++ (key, tt) ∷ []))

-- the statement about a miss, at any way to make room
abbrev Missed : ℕ → Segmented → Result (Segmented × Bool) → Type 0
Missed key s answer =
    (s' : Segmented) × (answer ≡ ok (s', false))
    × IsValid s'
    × (s'.capacity ≡ s.capacity)
    × (s'.protected ≡ s.protected)
    × Admits key s s'

module _ (key : ℕ) (s : Segmented) (v : IsValid s) (some_slots : 0 < s.capacity)
    (elsewhere : contains key s.protected ≡ false) (new : contains key s.probation ≡ false) where
  positive : (s.capacity == 0) ≡ false
  positive = ground arith

  miss_with_room :
      (length s.protected + length s.probation == s.capacity) ≡ false → Missed key s (access key s)
  unfolding access make_room
  miss_with_room room =
      let fewer : length s.protected + length s.probation < s.capacity = ground (arith, v.bound) in
      (
        admitted key s.probation s,
        rw (elsewhere, access, new, positive, room, make_room) refl,
        admitted-IsValid key s.probation s v elsewhere new v.probation_distinct (λ k h. h) fewer,
        refl,
        refl,
        inl (fewer, put_new key tt s.probation new),
      )

  made_room :
      (j : ℕ) (u : Unit {0}) (rest : Dict ℕ (Unit {0}))
      → s.probation ≡ (j, u) ∷ rest
      → (length s.protected + length s.probation == s.capacity) ≡ true
      → make_room s ≡ ok (record s { probation = rest })
  unfolding make_room pop_first
  made_room j u rest e full = rw full (rw e)

  access_full :
      (rest : Dict ℕ (Unit {0}))
      → make_room s ≡ ok (record s { probation = rest })
      → access key s ≡ ok (admitted key rest s, false)
  unfolding access
  access_full rest e = rw (elsewhere, access, new, positive, e) refl

  miss_when_full :
      (entries : Dict ℕ (Unit {0}))
      → s.probation ≡ entries
      → (length s.protected + length s.probation == s.capacity) ≡ true
      → Missed key s (access key s)
  unfolding contains
  miss_when_full [] e full = absurd (
      let z : length s.probation ≡ 0 = rw e refl in
      let f = (nat_equal_iff (length s.protected + length s.probation) s.capacity).0 full in
      omega (arith, v.limit, v.protected_bound))
  miss_when_full ((j, u) ∷ rest) e full =
      let distinct : IsDistinct ((j, u) ∷ rest) = rw e at v.probation_distinct in
      let absent : contains key ((j, u) ∷ rest) ≡ false = rw e at new in
      let longer : length s.probation ≡ suc (length rest) = rw e refl in
      let f = (nat_equal_iff (length s.protected + length s.probation) s.capacity).0 full in
      let new' : contains key rest ≡ false = ground arith in
      (
        admitted key rest s,
        access_full rest (made_room j u rest e full),
        admitted-IsValid key rest s v elsewhere new' distinct.1 (λ k h. rw e (ground arith))
            (omega arith),
        refl,
        refl,
        inr (j, rest, f, e, put_new key tt rest new'),
      )

-- A miss on a well-formed cache with slots raises nothing and keeps it well-formed. The key goes
-- to the end of probation; protected keys stay; where the cache was full, its oldest key on
-- probation goes, and there is one.
pub access-miss :
    (key : ℕ) (s : Segmented)
    → IsValid s
    → 0 < s.capacity
    → resident key s ≡ false
    → (s' : Segmented) × (access key s ≡ ok (s', false))
      × IsValid s'
      × (s'.capacity ≡ s.capacity)
      × (s'.protected ≡ s.protected)
      × Admits key s s'
access-miss key s v some_slots absent =
    let elsewhere : contains key s.protected ≡ false = ground arith in
    let new : contains key s.probation ≡ false = ground arith in
    elim (Bool-cases (length s.protected + length s.probation == s.capacity)) [
      | inl full ↦ miss_when_full key s v some_slots elsewhere new s.probation refl full
      | inr room ↦ miss_with_room key s v some_slots elsewhere new room
    ]
