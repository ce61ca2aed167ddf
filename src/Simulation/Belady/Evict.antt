-- ===== src/Simulation/Belady/Evict.antt =====
-- The eviction loop of `Belady.access`: it ends at a resident key, and no resident key has a later
-- next use.
use zerocool.Prelude.{
  ℕ, zero, suc, ◌≤◌, ◌<◌, ◌≡◌, ◌∙◌, true, false, some, List, [], ◌∷◌, arith, nat_eq, length, ok,
  Bool-cases, inl, inr,
}
use zerocool.Dict.{Dict, get, remove, get-remove, delete_present}
use zerocool.Simulation.Belady.{Entry, extract, heappop, is_current, evict}
use zerocool.Simulation.Belady.Heap.{same_iff, has, has-extract, extract-latest, length-extract}

-- Every resident key has its current entry in the heap.
abbrev pub Covers : Dict ℕ ℕ → List Entry → Type 0
Covers resident heap = (k n : ℕ) → get k resident ≡ some n → has (n, k) heap ≡ true

is_current_lem :
    (resident : Dict ℕ ℕ) (e : Entry) → is_current resident e ≡ true → get e.1 resident ≡ some e.0
unfolding is_current
is_current_lem resident e h = ground arith

is_current_self :
    (resident : Dict ℕ ℕ) (n k : ℕ) → get k resident ≡ some n → is_current resident (n, k) ≡ true
unfolding is_current
is_current_self resident n k h = rw (h, is_current) (ground arith)

-- What one call of the loop promises.
pub record Evicted (resident : Dict ℕ ℕ) (heap : List Entry) (victim n : ℕ) (heap' : List Entry)
    : Type 0 where
  pub stood : get victim resident ≡ some n
  pub covers : Covers (remove victim resident) heap'
  pub latest : (k m : ℕ) → get k resident ≡ some m → m ≤ n
  pub shorter : length heap' ≤ length heap

module _ (resident : Dict ℕ ℕ) (x : Entry) (xs : List Entry)
    (covers : Covers resident (x ∷ xs)) where
  Evicted-current :
      is_current resident (extract x xs).0 ≡ true
      → Evicted resident (x ∷ xs) (extract x xs).0.1 (extract x xs).0.0 (extract x xs).1
  Evicted-current t = record {
    stood = is_current_lem resident (extract x xs).0 t;
    covers = λ k n there. ground (
      arith,
      get-remove (extract x xs).0.1 k resident,
      covers k n,
      has-extract (n, k) x xs,
      same_iff (extract x xs).0 (n, k),
    );
    latest = λ k m there. extract-latest (m, k) x xs (covers k m there);
    shorter = omega (arith, length-extract x xs);
  }

  Covers-stale : is_current resident (extract x xs).0 ≡ false → Covers resident (extract x xs).1
  Covers-stale f k n there = ground (
    arith,
    covers k n there,
    has-extract (n, k) x xs,
    same_iff (extract x xs).0 (n, k),
    is_current_self resident n k there,
  )

module _ (fuel : ℕ) (resident : Dict ℕ ℕ) (x : Entry) (xs : List Entry) where
  evict_current :
      is_current resident (extract x xs).0 ≡ true
      → get (extract x xs).0.1 resident ≡ some (extract x xs).0.0
      → evict (suc fuel) resident (x ∷ xs)
        ≡ ok (remove (extract x xs).0.1 resident, (extract x xs).1)
  unfolding evict heappop
  evict_current t stood = ground (arith, delete_present _ _ resident stood)

  evict_stale :
      is_current resident (extract x xs).0 ≡ false
      → evict (suc fuel) resident (x ∷ xs) ≡ evict fuel resident (extract x xs).1
  unfolding evict heappop
  evict_stale f = ground arith

-- With more fuel than the heap has entries, and a resident key, the loop ends and raises nothing.
pub evict-Evicted :
    (fuel : ℕ) (resident : Dict ℕ ℕ) (heap : List Entry) (k n : ℕ)
    → length heap < fuel
    → Covers resident heap
    → get k resident ≡ some n
    → (victim : ℕ) × (m : ℕ) × (heap' : List Entry) × (evict fuel resident heap
        ≡ ok (remove victim resident, heap'))
      × Evicted resident heap victim m heap'
unfolding has
evict-Evicted zero resident heap k n f covers there = absurd (omega arith)
evict-Evicted (suc fuel) resident [] k n f covers there = cc (covers k n there)
evict-Evicted (suc fuel) resident (x ∷ xs) k n f covers there =
    elim (Bool-cases (is_current resident (extract x xs).0)) [
      | inl t ↦
          let done = Evicted-current resident x xs covers t in
          (
            (extract x xs).0.1,
            (extract x xs).0.0,
            (extract x xs).1,
            evict_current fuel resident x xs t done.stood,
            done,
          )
      | inr stale ↦
          let (victim, m, heap', e, rest) =
            evict-Evicted fuel resident (extract x xs).1 k n (omega (arith, length-extract x xs))
              (Covers-stale resident x xs covers stale) there in
          (
            victim,
            m,
            heap',
            evict_stale fuel resident x xs stale ∙ e,
            record {
              stood = rest.stood;
              covers = rest.covers;
              latest = rest.latest;
              shorter = omega (arith, rest.shorter, length-extract x xs);
            },
          )
    ]
