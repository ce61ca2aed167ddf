-- ===== src/Simulation/Clock/Tests.antt =====
-- Tests of `Clock`, and its theorems at a concrete state.
use zerocool.Prelude.{
  ℕ, zero, suc, ◌<◌, ◌≡◌, refl, true, false, none, some, [], ◌∷◌, arith, ok, get_or, if◌then◌else◌,
  ◌==◌, nat_eq, store, item,
}
use zerocool.Dict.{get, put, remove, contains, delete}
use zerocool.Simulation.Clock.{Clock, sweep, forget, install, access}
use zerocool.Simulation.Clock.Access.{IsValid, holds, access-IsValid, access-second_chance}

-- two slots, two keys; the bit of 7 is set
abbrev two : Clock
two = record {
  capacity = 2;
  slots = some 7 ∷ some 9 ∷ [];
  referenced = true ∷ false ∷ [];
  lookup = (7, 0) ∷ (9, 1) ∷ [];
  hand = 0;
}

two_listed : (i k : ℕ) → get_or two.slots i none ≡ some k → get k two.lookup ≡ some i
unfolding get
two_listed zero k e = ground arith
two_listed (suc zero) k e = ground arith
two_listed (suc (suc i)) k e = cc

two-IsValid : IsValid two
unfolding get
two-IsValid = record {
  slots_size = refl;
  bits_size = refl;
  hand_inside = λ p. p;
  located = λ k i e. ground arith;
  listed = two_listed;
}

-- the bit of 7 saves it, and 9 goes
clock_evicts :
    access 5 two
    ≡ ok (
      record two {
        slots = some 7 ∷ some 5 ∷ [];
        referenced = false ∷ true ∷ [];
        lookup = (7, 0) ∷ (5, 1) ∷ [];
        hand = 0;
      },
      false,
    )
unfolding access sweep forget install get put delete contains remove item store
clock_evicts = refl

access-IsValid_example :
    (c' : Clock) × (access 5 two ≡ ok (c', contains 5 two.lookup)) × IsValid c' × (c'.capacity ≡ 2)
access-IsValid_example = access-IsValid 5 two two-IsValid

access-second_chance_example :
    (c' : Clock) × (slot : ℕ) × (access 5 two ≡ ok (c', false))
    × (slot < 2)
    × ((k : ℕ)
        → get k c'.lookup ≡ (
            if 5 == k
            then some slot
            else if holds (get_or two.slots slot none) k
            then none
            else get k two.lookup))
    × (get_or two.referenced slot false ≡ true
        → (i : ℕ) → i < 2
        → get_or two.referenced i false ≡ true)
unfolding contains
access-second_chance_example = access-second_chance 5 two two-IsValid (omega arith) refl
