-- ===== src/Simulation/Belady/Tests.antt =====
-- Tests of `Belady`, and its theorems at a concrete state.
use zerocool.Prelude.{ℕ, ◌≡◌, refl, false, List, [], ◌∷◌, arith, ok, is_some, nat_eq, item}
use zerocool.Dict.{get, put, remove, contains, delete}
use zerocool.Simulation.Belady.{
  Belady, belady, next_uses, before, extract, heappop, is_current, evict, admit, make_room, access,
}
use zerocool.Simulation.Belady.Heap.{has, same}
use zerocool.Simulation.Belady.Next.{uses_after, next_uses-uses_after}
use zerocool.Simulation.Belady.Access.{IsValid, Replaces, access-Replaces}

abbrev sequence : List ℕ
sequence = 1 ∷ 2 ∷ 1 ∷ 3 ∷ 2 ∷ []

table : (belady 2 sequence).next ≡ 2 ∷ 4 ∷ 5 ∷ 5 ∷ 5 ∷ []
unfolding belady next_uses get put
table = refl

-- after the accesses at positions 0 to 2: key 1 is not used again, and has a stale entry
abbrev full : Belady
full = record {
  capacity = 2;
  next = 2 ∷ 4 ∷ 5 ∷ 5 ∷ 5 ∷ [];
  resident = (1, 5) ∷ (2, 4) ∷ [];
  heap = (5, 1) ∷ (4, 2) ∷ (2, 1) ∷ [];
}

full-IsValid : IsValid full
unfolding get contains has same
full-IsValid = record {
  distinct = (refl, (refl, tt));
  bound = omega arith;
  covers = λ k n e. ground arith;
  heap_bound = omega arith;
}

-- key 1 goes
evicts_unused :
    access 3 3 full
    ≡ ok (
      record full { resident = (2, 4) ∷ (3, 5) ∷ []; heap = (5, 3) ∷ (4, 2) ∷ (2, 1) ∷ [] },
      false,
    )
unfolding access make_room admit evict is_current heappop extract before get put remove contains
    delete item
evicts_unused = refl

access-Replaces_example :
    (b' : Belady) × (access 3 3 full ≡ ok (b', is_some (get 3 full.resident)))
    × IsValid b'
    × (b'.capacity ≡ 2)
    × (b'.next ≡ full.next)
    × Replaces 3 5 full b'
access-Replaces_example = access-Replaces 3 3 full full-IsValid (omega arith) (omega arith)

next_uses-uses_after_example : (next_uses 0 5 sequence).0 ≡ uses_after 0 5 sequence
next_uses-uses_after_example = next_uses-uses_after 0 5 sequence
