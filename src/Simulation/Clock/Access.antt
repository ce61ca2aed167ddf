-- ===== src/Simulation/Clock/Access.antt =====
-- `Clock.access` on a well-formed clock: it raises nothing, keeps the clock well-formed, and says
-- what becomes of every key.
use native.Mathlib.Decide.{ℕ_discrete}
use native.Mathlib.Nat.{mod-lt}
use zerocool.Prelude.{
  ℕ, suc, ◌+◌, ◌%◌, ◌<◌, ◌≡◌, refl, ◌∙◌, Bool, true, false, Option, none, some, List, arith, length,
  get_or, set, length-set, get_or-set_self, get_or-set_ne, ok, item_inside, store_inside,
  if◌then◌else◌, ◌==◌, nat_eq, Option-cases, inl, inr,
}
use zerocool.Dict.{
  Dict, get, put, remove, contains, get-put, get-remove, delete_present, contains-get,
}
use zerocool.Simulation.Clock.{Clock, sweep, forget, install, access}
use zerocool.Simulation.Clock.Sweep.{Swept, Swept-second_chance, sweep-Swept, count_set-le-length}

-- Slots, bits and the dictionary agree.
pub record IsValid (c : Clock) : Type 0 where
  pub slots_size : length c.slots ≡ c.capacity
  pub bits_size : length c.referenced ≡ c.capacity
  pub hand_inside : 0 < c.capacity → c.hand < c.capacity
  pub located :
      (k i : ℕ) → get k c.lookup ≡ some i → (i < c.capacity) × (get_or c.slots i none ≡ some k)
  pub listed : (i k : ℕ) → get_or c.slots i none ≡ some k → get k c.lookup ≡ some i

abbrev pub without : Option ℕ → Dict ℕ ℕ → Dict ℕ ℕ
without none lookup = lookup
without (some old) lookup = remove old lookup

-- whether a slot holds the key
abbrev pub holds : Option ℕ → ℕ → Bool
holds none k = false
holds (some old) k = old == k

get-without :
    (o : Option ℕ) (k : ℕ) (d : Dict ℕ ℕ)
    → get k (without o d) ≡ (if holds o k then none else get k d)
get-without none k d = refl
get-without (some old) k d = get-remove old k d

-- the clock after a miss that takes `slot`
abbrev pub installed : Clock → ℕ → List Bool → ℕ → Clock
installed c key bits slot = record c {
  slots = set c.slots slot (some key);
  lookup = put key slot (without (get_or c.slots slot none) c.lookup);
  referenced = set bits slot true;
  hand = (slot + 1) % c.capacity;
}

module _ {c : Clock} (v : IsValid c) (key : ℕ) (bits : List Bool) (slot : ℕ)
    (inside : slot < c.capacity) (size : length bits ≡ c.capacity) where
  forget-without :
      (o : Option ℕ) → get_or c.slots slot none ≡ o → forget o c.lookup ≡ ok (without o c.lookup)
  unfolding forget
  forget-without none e = refl
  forget-without (some old) e = delete_present old slot c.lookup (v.listed slot old e)

  install-installed : install c key bits slot ≡ ok (installed c key bits slot)
  unfolding install
  install-installed = rw (
    item_inside c.slots slot none (omega (arith, v.slots_size)),
    forget-without (get_or c.slots slot none) refl,
    store_inside c.slots slot (some key) (omega (arith, v.slots_size)),
    store_inside bits slot true (omega arith),
  )

  get-installed :
      (k : ℕ)
      → get k (installed c key bits slot).lookup ≡ (
          if key == k
          then some slot
          else if holds (get_or c.slots slot none) k
          then none
          else get k c.lookup)
  get-installed k = rw (get-put, get-without)

  installed-located :
      get key c.lookup ≡ none
      → (k i : ℕ) → get k (installed c key bits slot).lookup ≡ some i
      → (i < c.capacity) × (get_or (installed c key bits slot).slots i none ≡ some k)
  installed-located new k i e = elim (ℕ_discrete key k) [
    | yes p ↦
        ground (arith, get-installed k, v.slots_size, get_or-set_self c.slots slot (some key) none)
    | no p ↦
        ground (arith, get-installed k, v.located k i, get_or-set_ne c.slots slot i (some key) none)
  ]

  installed-listed :
      get key c.lookup ≡ none
      → (i k : ℕ) → get_or (installed c key bits slot).slots i none ≡ some k
      → get k (installed c key bits slot).lookup ≡ some i
  installed-listed new i k e = elim (ℕ_discrete slot i) [
    | yes p ↦
        ground (arith, get-installed k, v.slots_size, get_or-set_self c.slots slot (some key) none)
    | no p ↦ ground (
      arith,
      get-installed k,
      v.listed i k,
      v.listed slot k,
      get_or-set_ne c.slots slot i (some key) none,
    )
  ]

  installed-IsValid : get key c.lookup ≡ none → IsValid (installed c key bits slot)
  installed-IsValid new = record {
    slots_size = length-set c.slots slot (some key) ∙ v.slots_size;
    bits_size = length-set bits slot true ∙ size;
    hand_inside = λ p. mod-lt _ p;
    located = installed-located new;
    listed = installed-listed new;
  }

positive : (n : ℕ) → 0 < n → (n == 0) ≡ false
positive n h = ground arith

-- A hit sets the bit of the key's slot and changes nothing else.
pub access-hit :
    (key slot : ℕ) {c : Clock}
    → IsValid c
    → get key c.lookup ≡ some slot
    → access key c ≡ ok (record c { referenced = set c.referenced slot true }, true)
unfolding access
access-hit key slot {c} v there = rw (
  there,
  access,
  store_inside c.referenced slot true (omega (arith, v.bits_size, (v.located key slot there).0)),
)

pub hit-IsValid :
    (slot : ℕ) {c : Clock}
    → IsValid c
    → IsValid (record c { referenced = set c.referenced slot true })
hit-IsValid slot {c} v = record {
  slots_size = v.slots_size;
  bits_size = length-set c.referenced slot true ∙ v.bits_size;
  hand_inside = v.hand_inside;
  located = v.located;
  listed = v.listed;
}

-- A clock with no slots keeps nothing.
pub access_empty :
    (key : ℕ) (c : Clock) → c.capacity ≡ 0 → get key c.lookup ≡ none → access key c ≡ ok (c, false)
unfolding access
access_empty key c e new = rw (new, access, e)

-- A miss on a clock with slots ends, and takes the slot at which the sweep stops.
pub access-miss :
    (key : ℕ) {c : Clock}
    → IsValid c
    → 0 < c.capacity
    → get key c.lookup ≡ none
    → (bits : List Bool) × (slot : ℕ) × Swept c.capacity c.referenced c.hand bits slot
      × (access key c ≡ ok (installed c key bits slot, false))
      × (sweep (suc c.capacity) c.capacity c.referenced c.hand ≡ ok (bits, slot))
unfolding access
access-miss key {c} v some_slots new =
    let swept =
      sweep-Swept (suc c.capacity) c.capacity c.referenced c.hand
        (omega (arith, count_set-le-length c.referenced, v.bits_size)) (v.hand_inside some_slots)
        v.bits_size in
    let s = swept.3 in
    (
      swept.0,
      swept.1,
      s,
      rw (
        new,
        access,
        positive c.capacity some_slots,
        swept.2,
        install-installed v key swept.0 swept.1 s.inside s.size,
      ),
      swept.2,
    )

-- On a well-formed clock an access raises nothing and ends; it answers whether the key was
-- resident, and the clock stays well-formed with its capacity.
pub access-IsValid :
    (key : ℕ) (c : Clock)
    → IsValid c
    → (c' : Clock) × (access key c ≡ ok (c', contains key c.lookup))
      × IsValid c'
      × (c'.capacity ≡ c.capacity)
access-IsValid key c v = elim (Option-cases (get key c.lookup)) [
  | inr (slot, there) ↦
      rw (contains-get, there)
        (
          record c { referenced = set c.referenced slot true },
          access-hit key slot v there,
          hit-IsValid slot v,
          refl,
        )
  | inl new ↦ elim (ℕ_discrete c.capacity 0) [
    | yes e ↦ rw (contains-get, new) (c, access_empty key c e new, v, refl)
    | no p ↦
        let (bits, slot, s, e, _) = access-miss key v (omega arith) new in
        rw (contains-get, new)
          (
            installed c key bits slot,
            e,
            installed-IsValid v key bits slot s.inside s.size new,
            refl,
          )
  ]
]

-- On a well-formed clock that has slots (a capacity above 0), a miss takes one slot and gives it to
-- the key: every other key keeps its place, but for the one that stood there. That slot had its bit
-- set only if every slot had.
pub access-second_chance :
    (key : ℕ) (c : Clock)
    → IsValid c
    → 0 < c.capacity
    → contains key c.lookup ≡ false
    → (c' : Clock) × (slot : ℕ) × (access key c ≡ ok (c', false))
      × (slot < c.capacity)
      × ((k : ℕ)
          → get k c'.lookup ≡ (
              if key == k
              then some slot
              else if holds (get_or c.slots slot none) k
              then none
              else get k c.lookup))
      × (get_or c.referenced slot false ≡ true
          → (i : ℕ) → i < c.capacity
          → get_or c.referenced i false ≡ true)
access-second_chance key c v some_slots absent =
    let new : get key c.lookup ≡ none = ground (arith, contains-get key c.lookup) in
    let (bits, slot, s, e, _) = access-miss key v some_slots new in
    (
      installed c key bits slot,
      slot,
      e,
      s.inside,
      get-installed v key bits slot s.inside s.size,
      Swept-second_chance (v.hand_inside some_slots) s,
    )
