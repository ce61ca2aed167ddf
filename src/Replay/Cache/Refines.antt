-- ===== src/Replay/Cache/Refines.antt =====
-- Without leases, `Cache` of block_cache_replay.py under second chance is `Clock` of
-- cache_simulation.py.
use native.Mathlib.Decide.{ℕ_discrete}
use zerocool.Prelude.{
  ℕ, suc, ◌+◌, ◌*◌, ◌/◌, ◌%◌, ◌<◌, ◌≡◌, refl, sym, ◌∙◌, ap, Bool, true, false, Option, none, some,
  List, map, arith, length, length-map, length-set, get_or, get_or-set_self, get_or-set_ne, set,
  map-set, get_or-map, ok, nat_eq, Option-cases, inl, inr,
}
use zerocool.Dict.{get, put, remove}
use zerocool.Simulation.Clock
use zerocool.Simulation.Clock.{Clock, sweep}
use zerocool.Simulation.Clock.Access.{IsValid, access-hit, access-miss, installed, without}
use zerocool.Replay.Cache.{
  clock, Entry, Slots, Cache, Answer, layers, experts, count_kind, install, victim, acquire_miss,
  acquire,
}
use zerocool.Replay.Cache.Scan.{key_of, bit_of, pins_of, Unpinned, scan-sweep, map-set_agrees}
use zerocool.Replay.Cache.Steps.{
  after_hit, acquire_hit_lem, select-scan, without_old, taken, install_old,
}

-- Two caches in the same state, the second one without leases.
pub record Related (c : Clock) (r : Cache) : Type 0 where
  pub policy : r.policy ≡ clock
  pub capacity : r.capacity ≡ c.capacity
  pub hand : r.hand ≡ c.hand
  pub lookup : r.lookup ≡ c.lookup
  pub keys : map key_of r.slots ≡ c.slots
  pub bits : map bit_of r.slots ≡ c.referenced
  pub unpinned : Unpinned r.slots
  pub hit_layers : length r.layer_hits ≡ layers
  pub miss_layers : length r.layer_misses ≡ layers

some_key : (o : Option Entry) (k : ℕ) → key_of o ≡ some k → (e : Entry) × (o ≡ some e) × (e.key ≡ k)
some_key none k h = cc
some_key (some e) k h = (e, refl, ground arith)

key_at : (slots : Slots) (i : ℕ) → get_or (map key_of slots) i none ≡ key_of (get_or slots i none)
key_at slots i = get_or-map key_of slots i none

module _ {c : Clock} {r : Cache} (v : IsValid c) (h : Related c r) (key : ℕ) (kind : Option ℕ)
    (low : key < layers * experts) where
  layer_inside : key / experts < layers
  layer_inside = omega arith

  slots_size : length r.slots ≡ c.capacity
  slots_size = sym (length-map r.slots key_of) ∙ (ap length h.keys ∙ v.slots_size)

  after_hit-Related :
      (slot : ℕ) (e : Entry)
      → get_or r.slots slot none ≡ some e
      → Related
          (record c { referenced = set c.referenced slot true })
          (count_kind kind (after_hit key slot e r))
  after_hit-Related slot e there = record {
    policy = h.policy;
    capacity = h.capacity;
    hand = h.hand;
    lookup = h.lookup;
    keys =
        map-set_agrees key_of r.slots slot e (record e { referenced = true }) there refl ∙ h.keys;
    bits =
        map-set bit_of r.slots slot (some (record e { referenced = true }))
        ∙ ap (λ b. set b slot true) h.bits;
    unpinned = λ i.
        rw (map-set_agrees pins_of r.slots slot e (record e { referenced = true }) there refl)
          (h.unpinned i);
    hit_layers = length-set r.layer_hits _ _ ∙ h.hit_layers;
    miss_layers = h.miss_layers;
  }

  acquire-hit :
      (slot : ℕ)
      → get key c.lookup ≡ some slot
      → (r' : Cache) × (acquire key kind r
          ≡ ok (r', record { hit = true; slot = slot; evicted = none }))
        × Related (record c { referenced = set c.referenced slot true }) r'
  unfolding acquire
  acquire-hit slot there =
      let (inside, held) = v.located key slot there in
      let same : key_of (get_or r.slots slot none) ≡ some key =
        sym (key_at r.slots slot) ∙ (ap (λ ks. get_or ks slot none) h.keys ∙ held) in
      let (e, at, _) = some_key (get_or r.slots slot none) key same in
      let found : get key r.lookup ≡ some slot = rw h.lookup there in
      (
        count_kind kind (after_hit key slot e r),
        ground (
          arith,
          acquire_hit_lem key kind slot e r h.policy (omega (arith, slots_size))
              (omega (arith, layer_inside, h.hit_layers)) at,
        ),
        after_hit-Related slot e at,
      )

  module _ (slots : Slots) (slot : ℕ) (bits : List Bool) (bits_same : map bit_of slots ≡ bits)
      (keys_same : map key_of slots ≡ map key_of r.slots)
      (pins_same : map pins_of slots ≡ map pins_of r.slots) (size : length slots ≡ length r.slots)
      (inside : slot < c.capacity) where
    -- the cache after the scan
    abbrev scanned : Cache
    scanned = record r { slots = slots; hand = (slot + 1) % r.capacity }

    fresh : Entry
    fresh = record { key = key; referenced = true; pins = 0 }

    old_key : (o : Option Entry) → get_or slots slot none ≡ o → get_or c.slots slot none ≡ key_of o
    old_key o there =
        ap (λ ks. get_or ks slot none) (sym h.keys ∙ sym keys_same)
        ∙ (key_at slots slot ∙ ap key_of there)

    fresh-Unpinned : Unpinned (set slots slot (some fresh))
    unfolding fresh
    fresh-Unpinned i =
        let e : get_or (set (map pins_of slots) slot 0) i 0 ≡ 0 = elim (ℕ_discrete slot i) [
          | yes p ↦ rw (← p) (
              get_or-set_self (map pins_of slots) slot 0 0
                (omega (arith, length-map slots pins_of, size, slots_size)))
          | no p ↦ get_or-set_ne (map pins_of slots) slot i 0 0 p ∙ rw pins_same (h.unpinned i)
        ] in
        rw (map-set pins_of slots slot (some fresh)) e

    -- at any cache that has the scanned slots, and the dictionary without the old key
    taken-Related_at :
        (s : Cache)
        → s.policy ≡ clock
        → s.capacity ≡ c.capacity
        → s.hand ≡ (slot + 1) % r.capacity
        → s.lookup ≡ without (get_or c.slots slot none) c.lookup
        → s.slots ≡ slots
        → length s.layer_hits ≡ layers
        → length s.layer_misses ≡ layers
        → Related (installed c key bits slot) (taken key slot s)
    unfolding fresh
    taken-Related_at s policy capacity hand lookup same hits misses = record {
      policy = policy;
      capacity = capacity;
      hand = hand ∙ ap (λ n. (slot + 1) % n) h.capacity;
      lookup = ap (put key slot) lookup;
      keys =
          map-set key_of s.slots slot (some fresh)
          ∙ ap (λ ks. set ks slot (some key)) (ap (map key_of) same ∙ (keys_same ∙ h.keys));
      bits =
          map-set bit_of s.slots slot (some fresh)
          ∙ ap (λ bs. set bs slot true) (ap (map bit_of) same ∙ bits_same);
      unpinned = rw same fresh-Unpinned;
      hit_layers = hits;
      miss_layers = length-set s.layer_misses _ _ ∙ misses;
    }

    taken-Related :
        (o : Option Entry)
        → get_or slots slot none ≡ o
        → Related (installed c key bits slot) (taken key slot (without_old o scanned))
    taken-Related none there =
        taken-Related_at scanned h.policy h.capacity refl (rw (old_key none there) h.lookup) refl
          h.hit_layers h.miss_layers
    taken-Related (some e) there =
        taken-Related_at (without_old (some e) scanned) h.policy h.capacity refl
          (rw (old_key (some e) there) (ap (remove e.key) h.lookup)) refl h.hit_layers h.miss_layers

    -- the old key is in the dictionary at its slot
    old_listed :
        (o : Option Entry)
        → get_or slots slot none ≡ o
        → (e : Entry) → o ≡ some e
        → get e.key scanned.lookup ≡ some slot
    old_listed o there e is_e = rw h.lookup (v.listed slot e.key (old_key o there ∙ ap key_of is_e))

    install-Related :
        (r' : Cache) × (install key slot scanned ≡ ok (r', victim (get_or slots slot none)))
        × Related (installed c key bits slot) r'
    install-Related =
        let o = get_or slots slot none in
        (
          taken key slot (without_old o scanned),
          install_old key slot o scanned refl (omega (arith, size, slots_size))
              (omega (arith, layer_inside, h.miss_layers)) (old_listed o refl),
          taken-Related o refl,
        )

  acquire-miss :
      0 < c.capacity
      → get key c.lookup ≡ none
      → (c' : Clock) × (r' : Cache) × (slot : ℕ) × (gone : Option ℕ) × (Clock.access key c
          ≡ ok (c', false))
        × (acquire key kind r ≡ ok (r', record { hit = false; slot = slot; evicted = gone }))
        × Related c' r'
  unfolding acquire acquire_miss
  acquire-miss some_slots new =
      let (bits, slot, s, accessed, swept) = access-miss key v some_slots new in
      let (slots, found, bits_same, keys_same, pins_same, size) =
        scan-sweep (suc c.capacity) c.capacity c.hand (2 * c.capacity + 1) r.slots bits slot
          (omega arith) (v.hand_inside some_slots) slots_size h.unpinned (rw h.bits swept) in
      let (r', installed_r, related) =
        install-Related slots slot bits bits_same keys_same pins_same size s.inside in
      let selected =
        select-scan r (some slot) slots ((slot + 1) % r.capacity) h.policy
          (rw (h.capacity, h.hand) found) in
      let absent : get key r.lookup ≡ none = rw h.lookup new in
      (
        installed c key bits slot,
        r',
        slot,
        victim (get_or slots slot none),
        accessed,
        ground (arith, selected, installed_r, absent),
        related,
      )

-- Without leases, `acquire` and `Clock.access` answer alike and stay in the same state.
pub acquire-access :
    (key : ℕ) (kind : Option ℕ) {c : Clock} {r : Cache}
    → IsValid c
    → Related c r
    → 0 < c.capacity
    → key < layers * experts
    → (c' : Clock) × (r' : Cache) × (answer : Answer) × (Clock.access key c ≡ ok (c', answer.hit))
      × (acquire key kind r ≡ ok (r', answer))
      × Related c' r'
acquire-access key kind {c} {r} v h some_slots low = elim (Option-cases (get key c.lookup)) [
  | inr (slot, there) ↦
      let (r', acquired, related) = acquire-hit v h key kind low slot there in
      (
        record c { referenced = set c.referenced slot true },
        r',
        record { hit = true; slot = slot; evicted = none },
        access-hit key slot v there,
        acquired,
        related,
      )
  | inl new ↦
      let (c', r', slot, gone, accessed, acquired, related) =
        acquire-miss v h key kind low some_slots new in
      (c', r', record { hit = false; slot = slot; evicted = gone }, accessed, acquired, related)
]
