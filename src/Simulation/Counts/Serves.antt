-- ===== src/Simulation/Counts/Serves.antt =====
-- The three policies of scripts/qwen/cache_simulation.py under one interface: an access at a
-- position of the sequence ends, raises nothing, and leaves a cache that serves the next access.
use native.Mathlib.Decide.{ℕ_discrete}
use zerocool.Prelude.{
  ℕ, ◌+◌, ◌≤◌, ◌<◌, ◌≡◌, refl, Bool, true, false, List, [], ◌∷◌, arith, Result, ok, nat_eq, length,
  Bool-cases, inl, inr, is_some,
}
use zerocool.Dict.{get, contains}
use zerocool.Simulation.Clock.Access.{access-IsValid as clock_access, IsValid as ClockIsValid}
use zerocool.Simulation.Segmented
use zerocool.Simulation.Segmented.Access.{access-hit, resident, IsValid as SegmentedIsValid}
use zerocool.Simulation.Segmented.Miss.{access-miss}
use zerocool.Simulation.Belady
use zerocool.Simulation.Belady.Heap.{has}
use zerocool.Simulation.Belady.Access.{access-Replaces, IsValid as BeladyIsValid}
use zerocool.Simulation.Counts.{access_clock, access_segmented}

pub record Serves {S : Type 0} (access : ℕ → ℕ → S → Result (S × Bool)) (size : ℕ)
    (Good : S → Type 0) : Type 0 where
  pub ends :
      (key position : ℕ) (s : S)
      → Good s
      → position < size
      → (s' : S) × (hit : Bool) × (access key position s ≡ ok (s', hit)) × Good s'

pub access_clock-Serves : (size : ℕ) → Serves access_clock size ClockIsValid
access_clock-Serves size = record {
  ends = λ key position c v before.
      let (c', e, v', same) = clock_access key c v in (c', contains key c.lookup, e, v');
}

-- the states of `SegmentedLRU` that serve: an access without slots is a miss and changes nothing
segmented_ends :
    (key : ℕ) (s : Segmented.Segmented)
    → SegmentedIsValid s
    → (s' : Segmented.Segmented) × (hit : Bool) × (Segmented.access key s ≡ ok (s', hit))
      × SegmentedIsValid s'
segmented_ends key s v = elim (Bool-cases (resident key s)) [
  | inl there ↦ let (s', e, v', c, r) = access-hit key s v there in (s', true, e, v')
  | inr absent ↦ elim (ℕ_discrete s.capacity 0) [
    | yes e ↦ (s, false, (unfold Segmented.access in ground (arith, absent, e)), v)
    | no p ↦
        let (s', e, v', c, p, r) = access-miss key s v (omega arith) absent in (s', false, e, v')
  ]
]

pub access_segmented-Serves : (size : ℕ) → Serves access_segmented size SegmentedIsValid
access_segmented-Serves size = record { ends = λ key position s v before. segmented_ends key s v }

pub segmented-IsValid : (capacity : ℕ) → SegmentedIsValid (Segmented.segmented capacity)
unfolding contains Segmented.segmented
segmented-IsValid capacity = record {
  limit = refl;
  probation_distinct = tt;
  protected_distinct = tt;
  apart = λ k e. cc;
  protected_bound = omega arith;
  bound = omega arith;
}

-- A state of `Belady` serves where its table covers the sequence.
pub record IsReady (size : ℕ) (b : Belady.Belady) : Type 0 where
  pub valid : BeladyIsValid b
  pub covered : size ≤ length b.next

belady_ends :
    (size key position : ℕ) (b : Belady.Belady)
    → IsReady size b
    → position < size
    → (b' : Belady.Belady) × (hit : Bool) × (Belady.access key position b ≡ ok (b', hit))
      × IsReady size b'
belady_ends size key position b v before = elim (ℕ_discrete b.capacity 0) [
  | yes e ↦ (b, false, (unfold Belady.access in ground (arith, e)), v)
  | no p ↦
      let (b', e, v', same, next, rest) =
        access-Replaces key position b v.valid (omega arith) (omega (arith, v.covered, before)) in
      (b', is_some (get key b.resident), e, record { valid = v'; covered = rw next v.covered })
]

pub access_belady-Serves : (size : ℕ) → Serves Belady.access size (IsReady size)
access_belady-Serves size = record { ends = belady_ends size }

length-next_uses : (i size : ℕ) (xs : List ℕ) → length (Belady.next_uses i size xs).0 ≡ length xs
unfolding Belady.next_uses
length-next_uses i size [] = refl
length-next_uses i size (x ∷ xs) = omega (arith, length-next_uses (i + 1) size xs)

pub belady-IsReady :
    (capacity : ℕ) (sequence : List ℕ) → IsReady (length sequence) (Belady.belady capacity sequence)
unfolding get has Belady.belady
belady-IsReady capacity sequence = record {
  valid = record {
    distinct = tt;
    bound = omega arith;
    covers = λ k n e. cc;
    heap_bound = omega arith;
  };
  covered = omega (arith, length-next_uses 0 (length sequence) sequence);
}
