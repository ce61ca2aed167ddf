-- ===== src/Replay/Cache/Evictions.antt =====
-- What a miss of `Cache.acquire` takes among leases, under second chance.
use native.Mathlib.Nat.{mod-lt}
use zerocool.Prelude.{
  ℕ, zero, suc, ◌+◌, ◌*◌, ◌%◌, ◌<◌, ◌≡◌, ◌≢◌, refl, sym, ◌∙◌, ap, false, Option, none, some, map,
  arith, length, get_or, get_or-map, get_or-set_ne, ok, raise, value_error, nat_eq,
}
use zerocool.Dict.{get}
use zerocool.Simulation.Clock.Sweep.{reach_lem}
use zerocool.Replay.Cache.{
  clock, Entry, Slots, Cache, layers, experts, scan, victim, acquire_miss, acquire,
}
use zerocool.Replay.Cache.Scan.{key_of, pins_of, scan_pass}
use zerocool.Replay.Cache.Steps.{select-scan, without_old, taken, install_old}
use zerocool.Replay.Cache.Leases.{rounds_to, scan-Finds, pins_agree}

-- A cache under second chance whose dictionary has every key that stands in a slot.
pub record IsReady (c : Cache) : Type 0 where
  pub policy : c.policy ≡ clock
  pub size : length c.slots ≡ c.capacity
  pub hand_inside : c.hand < c.capacity
  pub miss_layers : length c.layer_misses ≡ layers
  pub listed : (i k : ℕ) → key_of (get_or c.slots i none) ≡ some k → get k c.lookup ≡ some i

keys_agree :
    (slots slots' : Slots) (i : ℕ)
    → map key_of slots ≡ map key_of slots'
    → key_of (get_or slots i none) ≡ key_of (get_or slots' i none)
keys_agree slots slots' i e =
    sym (get_or-map key_of slots i none)
    ∙ (ap (λ ks. get_or ks i none) e ∙ get_or-map key_of slots' i none)

victim-key_of : (o : Option Entry) → victim o ≡ key_of o
victim-key_of none = refl
victim-key_of (some e) = refl

slots-without_old : (o : Option Entry) (c : Cache) → (without_old o c).slots ≡ c.slots
slots-without_old none c = refl
slots-without_old (some e) c = refl

-- Where every slot has a lease, the scan passes them all.
scan_exhausted :
    (rounds capacity hand : ℕ) (slots : Slots)
    → hand < capacity
    → length slots ≡ capacity
    → ((i : ℕ) → i < capacity → pins_of (get_or slots i none) ≢ 0)
    → (hand' : ℕ) × (scan rounds clock capacity slots hand ≡ ok (none, slots, hand'))
unfolding scan
scan_exhausted zero capacity hand slots h l leased = (hand, refl)
scan_exhausted (suc rounds) capacity hand slots h l leased =
    let (hand', e) =
      scan_exhausted rounds capacity ((hand + 1) % capacity) slots (mod-lt _ (omega arith)) l
        leased in
    (hand', scan_pass capacity slots hand rounds (omega arith) _ refl (leased hand h) ∙ e)

module _ (key : ℕ) (kind : Option ℕ) {c : Cache} (v : IsReady c) (low : key < layers * experts)
    (new : get key c.lookup ≡ none) where
  -- A miss on a cache whose slots all have leases raises the error of an exhausted cache.
  pub acquire_exhausted :
      ((i : ℕ) → i < c.capacity → pins_of (get_or c.slots i none) ≢ 0)
      → acquire key kind c ≡ raise (value_error "Replay cache exhausted by leases")
  unfolding acquire acquire_miss
  acquire_exhausted leased =
      let (hand', e) =
        scan_exhausted (2 * c.capacity + 1) c.capacity c.hand c.slots v.hand_inside v.size leased in
      ground (arith, select-scan c none c.slots hand' v.policy e)

  within : (t : ℕ) → t < c.capacity → rounds_to c.capacity c.slots c.hand t < 2 * c.capacity + 1
  unfolding rounds_to
  within t inside = ground (arith, reach_lem c.capacity c.hand t v.hand_inside inside)

  -- A miss on a cache with a free slot raises nothing. The slot that it takes has no lease; the
  -- key that it reports as evicted stood there; every other slot keeps its key and its leases.
  pub acquire_takes_free :
      (t : ℕ)
      → t < c.capacity
      → pins_of (get_or c.slots t none) ≡ 0
      → (c' : Cache) × (slot : ℕ) × (acquire key kind c
          ≡ ok (
            c',
            record { hit = false; slot = slot; evicted = key_of (get_or c.slots slot none) },
          ))
        × (slot < c.capacity)
        × (pins_of (get_or c.slots slot none) ≡ 0)
        × ((i : ℕ)
            → slot ≢ i
            → (key_of (get_or c'.slots i none) ≡ key_of (get_or c.slots i none))
              × (pins_of (get_or c'.slots i none) ≡ pins_of (get_or c.slots i none)))
  unfolding acquire acquire_miss
  acquire_takes_free t inside free =
      let (slot, slots, found, at, s) =
        scan-Finds c.capacity t inside (2 * c.capacity + 1) c.hand c.slots v.hand_inside v.size free
          (within t inside) in
      let scanned : Cache = record c { slots = slots; hand = (slot + 1) % c.capacity } in
      let o = get_or slots slot none in
      let after : Cache = taken key slot (without_old o scanned) in
      let selected = select-scan c (some slot) slots ((slot + 1) % c.capacity) v.policy found in
      let installed_c =
        install_old key slot o scanned refl (omega (arith, s.same_size, v.size))
          (omega (arith, v.miss_layers))
          (λ e there.
            v.listed slot e.key
              (sym (keys_agree slots c.slots slot s.same_keys) ∙ ap key_of there)) in
      let gone : victim o ≡ key_of (get_or c.slots slot none) =
        victim-key_of o ∙ keys_agree slots c.slots slot s.same_keys in
      (
        after,
        slot,
        ground (arith, selected, installed_c, gone),
        at,
        s.free,
        λ i other.
            let there : get_or after.slots i none ≡ get_or slots i none =
              rw slots-without_old (get_or-set_ne slots slot i _ none other) in
            (
              ap key_of there ∙ keys_agree slots c.slots i s.same_keys,
              ap pins_of there ∙ pins_agree slots c.slots i s.same_pins,
            ),
      )
