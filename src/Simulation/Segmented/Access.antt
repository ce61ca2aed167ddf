-- ===== src/Simulation/Segmented/Access.antt =====
-- `SegmentedLRU.access` on a well-formed cache.
use zerocool.Prelude.{
  ℕ, suc, ◌+◌, ◌*◌, ◌/◌, ◌≤◌, ◌<◌, ◌≡◌, refl, ◌∙◌, Bool, true, false, ◌||◌, [], ◌∷◌, arith, length,
  ok, nat_eq, nat_equal_iff, ltb, ltb→lt, lt→ltb, Option-cases, Bool-cases, inl, inr,
}
use zerocool.Dict.{
  Dict, get, put, remove, contains, contains-get, contains-put, contains-remove, IsDistinct,
  put-IsDistinct, remove-IsDistinct, contains-touch, length-touch, move_to_end_present,
  length-remove, length-put_new, delete-contains, pop_first,
}
use zerocool.Simulation.Segmented.{Segmented, demote, access}

abbrev pub resident : ℕ → Segmented → Bool
resident k s = contains k s.protected || contains k s.probation

-- No key stands twice, and both segments keep within their bounds, but for `extra` keys too many
-- in the protected one.
pub record IsWithin (extra : ℕ) (s : Segmented) : Type 0 where
  pub limit : s.protected_limit ≡ 3 * s.capacity / 4
  pub probation_distinct : IsDistinct s.probation
  pub protected_distinct : IsDistinct s.protected
  pub apart : (k : ℕ) → contains k s.protected ≡ true → contains k s.probation ≡ false
  pub protected_bound : length s.protected ≤ s.protected_limit + extra
  pub bound : length s.protected + length s.probation ≤ s.capacity

abbrev pub IsValid : Segmented → Type 0
IsValid = IsWithin 0

-- What an access keeps: the sizes, and the state well-formed.
abbrev pub Keeps : Segmented → Segmented → Type 0
Keeps s s' = IsValid s' × (s'.capacity ≡ s.capacity)

access_protected :
    (key : ℕ) (s : Segmented)
    → IsValid s
    → contains key s.protected ≡ true
    → (s' : Segmented) × (access key s ≡ ok (s', true))
      × Keeps s s'
      × ((k : ℕ) → resident k s' ≡ resident k s)
unfolding access
access_protected key s v there = elim (Option-cases (get key s.protected)) [
  | inl e ↦ cc (there, e, contains-get key s.protected)
  | inr (u, e) ↦
      rw (there, access, move_to_end_present key u s.protected e)
        (
          record s { protected = put key u (remove key s.protected) },
          refl,
          (
            record {
              limit = v.limit;
              probation_distinct = v.probation_distinct;
              protected_distinct =
                  put-IsDistinct key u _ (remove-IsDistinct key _ v.protected_distinct);
              apart = λ k.
                  ground
                    (arith, contains-touch key k u s.protected, v.apart k, nat_equal_iff key k);
              protected_bound = omega (
                arith,
                length-touch key u s.protected v.protected_distinct there,
                v.protected_bound,
              );
              bound =
                  omega (arith, length-touch key u s.protected v.protected_distinct there, v.bound);
            },
            refl,
          ),
          λ k. ground (arith, contains-touch key k u s.protected, nat_equal_iff key k),
        )
]

-- The state after a key has moved from probation to the protected segment.
abbrev promoted : ℕ → Segmented → Segmented
promoted key s = record s { probation = remove key s.probation; protected = put key tt s.protected }

module _ (key : ℕ) (s : Segmented) (v : IsValid s) (there : contains key s.probation ≡ true)
    (elsewhere : contains key s.protected ≡ false) where
  resident-promoted : (k : ℕ) → resident k (promoted key s) ≡ resident k s
  resident-promoted k = ground (
    arith,
    contains-put key k tt s.protected,
    contains-remove key k s.probation,
    nat_equal_iff key k,
  )

  promoted-IsWithin : IsWithin 1 (promoted key s)
  promoted-IsWithin =
      let longer = length-put_new key tt s.protected elsewhere in
      let shorter = length-remove key s.probation v.probation_distinct there in
      record {
        limit = v.limit;
        probation_distinct = remove-IsDistinct key s.probation v.probation_distinct;
        protected_distinct = put-IsDistinct key tt s.protected v.protected_distinct;
        apart = λ k. ground (
          arith,
          contains-put key k tt s.protected,
          contains-remove key k s.probation,
          v.apart k,
        );
        protected_bound = omega (arith, longer, v.protected_bound);
        bound = omega (arith, longer, shorter, v.bound);
      }

-- the state after the oldest protected key has gone back on probation
abbrev demoted : ℕ → Dict ℕ (Unit {0}) → Segmented → Segmented
demoted j rest s = record s { protected = rest; probation = put j tt s.probation }

module _ (j : ℕ) (u : Unit {0}) (rest : Dict ℕ (Unit {0})) (s : Segmented) (w : IsWithin 1 s)
    (e : s.protected ≡ (j, u) ∷ rest) where
  IsDistinct-entries : IsDistinct ((j, u) ∷ rest)
  IsDistinct-entries = rw e at w.protected_distinct

  apart_entries : (k : ℕ) → contains k ((j, u) ∷ rest) ≡ true → contains k s.probation ≡ false
  apart_entries k = rw e at (w.apart k)

  length_entries : length s.protected ≡ suc (length rest)
  length_entries = rw e refl

  resident-demoted : (k : ℕ) → resident k (demoted j rest s) ≡ resident k s
  unfolding contains
  resident-demoted k = rw e (ground (arith, contains-put j k tt s.probation))

  demoted-IsValid : IsValid (demoted j rest s)
  unfolding contains
  demoted-IsValid =
      let longer =
        length-put_new j tt s.probation (ground (arith, apart_entries j, nat_equal_iff j j)) in
      record {
        limit = w.limit;
        probation_distinct = put-IsDistinct j tt s.probation w.probation_distinct;
        protected_distinct = IsDistinct-entries.1;
        apart = λ k. ground (
          arith,
          contains-put j k tt s.probation,
          apart_entries k,
          IsDistinct-entries.0,
          nat_equal_iff j k,
        );
        protected_bound = omega (arith, length_entries, w.protected_bound);
        bound = omega (arith, length_entries, longer, w.bound);
      }

demote_over :
    (s : Segmented) (entries : Dict ℕ (Unit {0}))
    → s.protected ≡ entries
    → IsWithin 1 s
    → s.protected_limit < length s.protected
    → (s' : Segmented) × (demote s ≡ ok s') × Keeps s s' × ((k : ℕ) → resident k s' ≡ resident k s)
unfolding demote pop_first
demote_over s [] e w over = absurd (let z : length s.protected ≡ 0 = rw e refl in omega arith)
demote_over s ((j, u) ∷ rest) e w over = (
  demoted j rest s,
  rw (lt→ltb _ _ over, e) refl,
  (demoted-IsValid j u rest s w e, refl),
  resident-demoted j u rest s w e,
)

demote_within :
    (s : Segmented)
    → IsWithin 1 s
    → ltb s.protected_limit (length s.protected) ≡ false
    → (demote s ≡ ok s) × IsValid s
unfolding demote
demote_within s w fits = (
  rw fits,
  record {
    limit = w.limit;
    probation_distinct = w.probation_distinct;
    protected_distinct = w.protected_distinct;
    apart = w.apart;
    protected_bound = ground arith;
    bound = w.bound;
  },
)

-- Demotion brings a protected segment that is one too long back within its limit.
demote-IsValid :
    (s : Segmented)
    → IsWithin 1 s
    → (s' : Segmented) × (demote s ≡ ok s') × Keeps s s' × ((k : ℕ) → resident k s' ≡ resident k s)
demote-IsValid s w = elim (Bool-cases (ltb s.protected_limit (length s.protected))) [
  | inl over ↦ demote_over s s.protected refl w (ltb→lt _ _ over)
  | inr fits ↦ let (e, v) = demote_within s w fits in (s, e, (v, refl), λ k. refl)
]

access_probation :
    (key : ℕ) (s : Segmented)
    → IsValid s
    → contains key s.protected ≡ false
    → contains key s.probation ≡ true
    → (s' : Segmented) × (access key s ≡ ok (s', true))
      × Keeps s s'
      × ((k : ℕ) → resident k s' ≡ resident k s)
unfolding access
access_probation key s v elsewhere there =
    let (s', e, keeps, same) =
      demote-IsValid (promoted key s) (promoted-IsWithin key s v there elsewhere) in
    (
      s',
      rw (elsewhere, access, there, delete-contains key s.probation there, e) refl,
      keeps,
      λ k. same k ∙ resident-promoted key s v there elsewhere k,
    )

-- A hit raises nothing, and changes the order of the keys alone: the same keys are resident.
pub access-hit :
    (key : ℕ) (s : Segmented)
    → IsValid s
    → resident key s ≡ true
    → (s' : Segmented) × (access key s ≡ ok (s', true))
      × IsValid s'
      × (s'.capacity ≡ s.capacity)
      × ((k : ℕ) → resident k s' ≡ resident k s)
access-hit key s v there = elim (Bool-cases (contains key s.protected)) [
  | inl p ↦ let (s', e, (v', c), same) = access_protected key s v p in (s', e, v', c, same)
  | inr q ↦
      let (s', e, (v', c), same) = access_probation key s v q (ground arith) in (s', e, v', c, same)
]
