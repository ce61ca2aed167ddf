-- ===== src/Simulation/Clock.antt =====
-- `Clock` of scripts/qwen/cache_simulation.py: second chance with a hand over the slots.
pub mod Sweep
pub mod Access
pub mod Initial
mod Tests
use zerocool.Prelude.{
  nat_eq, ℕ, zero, suc, ◌+◌, ◌%◌, Bool, true, false, Option, none, some, List, if◌then◌else◌, ◌==◌,
  replicate, Result, ok, raise, diverged, ◌>>=◌, item, store,
}
use zerocool.Dict.{Dict, get, put, delete}
use mathlib.Core.List.{[]}

pub record Clock : Type 0 where
  pub capacity : ℕ
  pub slots : List (Option ℕ)
  pub referenced : List Bool
  pub lookup : Dict ℕ ℕ
  pub hand : ℕ

-- `__init__`
abbrev pub clock : ℕ → Clock
clock capacity = record {
  capacity = capacity;
  slots = replicate capacity none;
  referenced = replicate capacity false;
  lookup = [];
  hand = 0;
}

-- the `while` of `access`: clear the referenced bits from the hand on, up to a clear one
unfoldable pub sweep : ℕ → ℕ → List Bool → ℕ → Result (List Bool × ℕ)
sweep zero capacity referenced hand = raise diverged
sweep (suc fuel) capacity referenced hand = do
  bit ← item referenced hand
  elim bit [
    | true ↦ do
      cleared ← store referenced hand false
      sweep fuel capacity cleared ((hand + 1) % capacity)
    | false ↦ ok (referenced, hand)
  ]

-- `del self.lookup[self.slots[slot]]`, where the slot is taken
unfoldable pub forget : Option ℕ → Dict ℕ ℕ → Result (Dict ℕ ℕ)
forget none lookup = ok lookup
forget (some old) lookup = delete old lookup

-- the rest of a miss, once a slot is chosen
unfoldable pub install : Clock → ℕ → List Bool → ℕ → Result Clock
install c key referenced slot = do
  old ← item c.slots slot
  lookup ← forget old c.lookup
  slots ← store c.slots slot (some key)
  bits ← store referenced slot true
  ok (record c {
    slots = slots;
    lookup = put key slot lookup;
    referenced = bits;
    hand = (slot + 1) % c.capacity;
  })

-- `access`: the new state, and whether the key was resident. One round more than there are slots
-- is fuel enough.
unfoldable pub access : ℕ → Clock → Result (Clock × Bool)
access key c = elim (get key c.lookup) [
  | some slot ↦ do bits ← store c.referenced slot true; ok (record c { referenced = bits }, true)
  | none ↦ if c.capacity == 0 then ok (c, false) else do
    (bits, slot) ← sweep (suc c.capacity) c.capacity c.referenced c.hand
    c' ← install c key bits slot
    ok (c', false)
]
