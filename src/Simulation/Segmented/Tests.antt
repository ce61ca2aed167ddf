-- ===== src/Simulation/Segmented/Tests.antt =====
-- Tests of `SegmentedLRU`, and its theorems at a concrete state.
use zerocool.Prelude.{ℕ, ◌≡◌, refl, true, false, [], ◌∷◌, arith, ok, nat_eq}
use zerocool.Dict.{get, put, remove, contains, delete, move_to_end, pop_first}
use zerocool.Simulation.Segmented.{Segmented, demote, make_room, access}
use zerocool.Simulation.Segmented.Access.{IsValid, resident, access-hit}
use zerocool.Simulation.Segmented.Miss.{Admits, access-miss}

-- two slots, of which one is protected
abbrev full : Segmented
full = record {
  capacity = 2;
  protected_limit = 1;
  probation = (9, tt) ∷ [];
  protected = (7, tt) ∷ [];
}

full-IsValid : IsValid full
unfolding contains
full-IsValid = record {
  limit = refl;
  probation_distinct = (refl, tt);
  protected_distinct = (refl, tt);
  apart = λ k e. ground arith;
  protected_bound = omega arith;
  bound = omega arith;
}

-- a hit on probation protects 9, and 7 is demoted
hit_demotes :
    access 9 full ≡ ok (record full { probation = (7, tt) ∷ []; protected = (9, tt) ∷ [] }, true)
unfolding access demote make_room get put remove contains delete move_to_end pop_first
hit_demotes = refl

access-hit_example :
    (s' : Segmented) × (access 9 full ≡ ok (s', true))
    × IsValid s'
    × (s'.capacity ≡ 2)
    × ((k : ℕ) → resident k s' ≡ resident k full)
unfolding contains
access-hit_example = access-hit 9 full full-IsValid refl

access-miss_example :
    (s' : Segmented) × (access 5 full ≡ ok (s', false))
    × IsValid s'
    × (s'.capacity ≡ 2)
    × (s'.protected ≡ (7, tt) ∷ [])
    × Admits 5 full s'
unfolding contains
access-miss_example = access-miss 5 full full-IsValid (omega arith) refl
