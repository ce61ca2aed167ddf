-- ===== src/Replay/Cache.antt =====
-- `Cache` of scripts/qwen/block_cache_replay.py: slots with pins, under second chance (`clock`) or
-- a segmented order (`slru`). A slot that the source numbers -1 is `none` here.
pub mod Scan
pub mod Steps
pub mod Refines
pub mod Runs
pub mod Leases
pub mod Evictions
pub mod Plain
pub mod Counts
mod Tests
use zerocool.Prelude.{
  ℕ, zero, suc, ◌+◌, ◌-◌, ◌*◌, ◌/◌, ◌%◌, Bool, true, false, not, ◌&&◌, Option, none, some, List, [],
  ◌∷◌, ◌++◌, map, if◌then◌else◌, ◌==◌, nat_eq, ltb, leb, length, replicate, Result, ok, raise,
  type_error, diverged, ◌||◌, ◌>>=◌, ◌>>◌, require, item, store,
}
use zerocool.Dict.{Dict, get, put, remove, delete, pop_first, lookup_item}

abbrev pub layers : ℕ
layers = 48

abbrev pub experts : ℕ
experts = 512

pub data Policy : Type 0 where
  clock slru : Policy

pub record Entry : Type 0 where
  pub key : ℕ
  pub referenced : Bool
  pub pins : ℕ

abbrev pub Slots : Type 0
Slots = List (Option Entry)

abbrev pub Order : Type 0
Order = Dict ℕ (Unit {0})

pub record Cache : Type 0 where
  pub capacity : ℕ
  pub policy : Policy
  pub slots : Slots
  pub lookup : Dict ℕ ℕ
  pub hand : ℕ
  pub probation : Order
  pub protected : Order
  pub hits : ℕ
  pub misses : ℕ
  pub evictions : ℕ
  pub ready_hits : ℕ
  pub joins : ℕ
  pub layer_hits : List ℕ
  pub layer_misses : List ℕ

-- the attributes that `__init__` sets
abbrev pub empty_cache : ℕ → Policy → Cache
empty_cache capacity policy = record {
  capacity = capacity;
  policy = policy;
  slots = replicate capacity none;
  lookup = [];
  hand = 0;
  probation = [];
  protected = [];
  hits = 0;
  misses = 0;
  evictions = 0;
  ready_hits = 0;
  joins = 0;
  layer_hits = replicate layers 0;
  layer_misses = replicate layers 0;
}

-- `__init__`
unfoldable pub cache : ℕ → Policy → Result Cache
cache capacity policy = do
  require (leb 1 capacity && leb capacity 4096) "capacity must be an integer in 1..4096"
  ok (empty_cache capacity policy)

-- `counts[i] += 1`
unfoldable pub count_at : List ℕ → ℕ → Result (List ℕ)
count_at counts i = do n ← item counts i; store counts i (n + 1)

-- `e = self.slots[slot]`, where `e` is then indexed
unfoldable pub entry_at : Slots → ℕ → Result Entry
entry_at slots slot = do
  held ← item slots slot
  elim held [ none ↦ raise type_error | some e ↦ ok e ]

-- the `while` that demotes the oldest protected keys
unfoldable pub demote : ℕ → ℕ → Order → Order → Result (Order × Order)
demote zero limit probation protected = raise diverged
demote (suc fuel) limit probation protected = elim (ltb limit (length protected)) [
  | true ↦ do
    (demoted, rest) ← pop_first protected
    demote fuel limit (put demoted.0 tt probation) rest
  | false ↦ ok (probation, protected)
]

-- the order of a hit under `slru`; each round of `demote` takes one key, so one round more than
-- there are keys is fuel enough
unfoldable pub promote : ℕ → Cache → Result Cache
promote key c = elim c.policy [
  | clock ↦ ok c
  | slru ↦ do
    let protected = put key tt (remove key c.protected)
    (probation, protected') ←
        demote (suc (length protected)) (3 * c.capacity / 4) (remove key c.probation) protected
    ok (record c { probation = probation; protected = protected' })
]

-- the native counters of a hit: a ready entry is of kind 1, a join of a pending read of kind 2
unfoldable pub count_of : ℕ → Option ℕ → ℕ → ℕ
count_of which none count = count
count_of which (some kind) count = if kind == which then count + 1 else count

abbrev pub count_kind : Option ℕ → Cache → Cache
count_kind kind c = record c {
  ready_hits = count_of 1 kind c.ready_hits;
  joins = count_of 2 kind c.joins;
}

unfoldable pub acquire_hit : ℕ → Option ℕ → ℕ → Cache → Result Cache
acquire_hit key kind slot c = do
  e ← entry_at c.slots slot
  slots ← store c.slots slot (some (record e { referenced = true }))
  layer_hits ← count_at c.layer_hits (key / experts)
  c' ← promote key (record c { slots = slots; hits = c.hits + 1; layer_hits = layer_hits })
  ok (count_kind kind c')

-- What the scan makes of a slot.
pub data Look : Type 0 where
  take pass : Look
  clear : Entry → Look

abbrev pub look_at : Policy → Entry → Look
look_at slru e = pass
look_at clock e = if not (e.pins == 0) then pass else if e.referenced then clear e else take

abbrev pub look : Policy → Option Entry → Look
look policy none = take
look policy (some e) = look_at policy e

-- the `for` of `acquire` over `rounds` turns of the hand: the slot selected, the slots, the hand
unfoldable pub scan : ℕ → Policy → ℕ → Slots → ℕ → Result (Option ℕ × Slots × ℕ)
scan zero policy capacity slots hand = ok (none, slots, hand)
scan (suc rounds) policy capacity slots hand = do
  held ← item slots hand
  elim (look policy held) [
    | take ↦ ok (some hand, slots, (hand + 1) % capacity)
    | pass ↦ scan rounds policy capacity slots ((hand + 1) % capacity)
    | clear e ↦ do
      slots' ← store slots hand (some (record e { referenced = false }))
      scan rounds policy capacity slots' ((hand + 1) % capacity)
  ]

-- `next(... for k in q if not self.slots[self.lookup[k]]['pins'])` over an order
unfoldable pub first_unpinned : Cache → Order → Result (Option ℕ)
first_unpinned c [] = ok none
first_unpinned c ((k, _) ∷ rest) =
    let later = first_unpinned c rest in
    (do
      slot ← lookup_item k c.lookup
      e ← entry_at c.slots slot
      if e.pins == 0 then ok (some slot) else later)

abbrev pub is_slru : Policy → Bool
is_slru slru = true
is_slru clock = false

-- the choice of a slot on a miss
unfoldable pub select : Cache → Result (Option ℕ × Cache)
select c =
    if is_slru c.policy && length c.lookup == c.capacity
    then (do selected ← first_unpinned c (c.probation ++ c.protected); ok (selected, c))
    else (do
      (selected, slots, hand) ← scan (2 * c.capacity + 1) c.policy c.capacity c.slots c.hand
      ok (selected, record c { slots = slots; hand = hand }))

-- `if old`: the entry that stood in the slot goes
unfoldable pub drop_old : Option Entry → Cache → Result Cache
drop_old none c = ok c
drop_old (some old) c = do
  lookup ← delete old.key c.lookup
  ok (record c {
    lookup = lookup;
    probation = remove old.key c.probation;
    protected = remove old.key c.protected;
    evictions = c.evictions + 1;
  })

abbrev pub victim : Option Entry → Option ℕ
victim none = none
victim (some old) = some old.key

-- the rest of a miss, once a slot is selected: the new state, and the key that goes
unfoldable pub install : ℕ → ℕ → Cache → Result (Cache × Option ℕ)
install key slot c = do
  old ← item c.slots slot
  c' ← drop_old old c
  slots ← store c'.slots slot (some (record { key = key; referenced = true; pins = 0 }))
  layer_misses ← count_at c'.layer_misses (key / experts)
  ok (
    record c' {
      slots = slots;
      lookup = put key slot c'.lookup;
      probation = if is_slru c'.policy then put key tt c'.probation else c'.probation;
      misses = c'.misses + 1;
      layer_misses = layer_misses;
    },
    victim old,
  )

-- What `acquire` answers: whether the key was resident, its slot, and the key that was evicted.
pub record Answer : Type 0 where
  pub hit : Bool
  pub slot : ℕ
  pub evicted : Option ℕ

unfoldable pub acquire_miss : ℕ → Cache → Result (Cache × Answer)
acquire_miss key c = do
  (selected, c') ← select c
  elim selected [
    | none ↦ require false "Replay cache exhausted by leases" >> raise type_error
    | some slot ↦ do
      (c'', evicted) ← install key slot c'
      ok (c'', record { hit = false; slot = slot; evicted = evicted })
  ]

unfoldable pub acquire : ℕ → Option ℕ → Cache → Result (Cache × Answer)
acquire key kind c = do
  require (leb key (layers * experts - 1)) "expert key must be an integer in 0..24575"
  elim (get key c.lookup) [
    | some slot ↦ do
      c' ← acquire_hit key kind slot c
      ok (c', record { hit = true; slot = slot; evicted = none })
    | none ↦ acquire_miss key c
  ]

-- `lease`: one pin more, or one less on a release; the pins that the entry then has
unfoldable pub lease : ℕ → Bool → Cache → Result (Cache × ℕ)
lease key release c = elim (get key c.lookup) [
  | none ↦ require false "Lease refers to evicted or missing entry" >> raise type_error
  | some slot ↦ do
    e ← entry_at c.slots slot
    require (not release || leb 1 e.pins) "Release without a live lease"
    let pins = if release then e.pins - 1 else e.pins + 1
    slots ← store c.slots slot (some (record e { pins = pins }))
    ok (record c { slots = slots }, pins)
]

-- `pins`: the pins of all entries
unfoldable pub total_pins : Slots → ℕ
total_pins [] = 0
total_pins (none ∷ slots) = total_pins slots
total_pins (some e ∷ slots) = e.pins + total_pins slots
