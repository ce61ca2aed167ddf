-- ===== src/Replay/Cache/Scan.antt =====
-- The scan of `Cache.acquire` without leases is the sweep of `Clock.access`.
use native.Mathlib.Nat.{mod-lt}
use zerocool.Prelude.{
  ℕ, zero, suc, ◌+◌, ◌%◌, ◌≤◌, ◌<◌, ◌≡◌, ◌≢◌, refl, sym, ◌∙◌, ap, Bool, true, false, Option, none,
  some, List, map, arith, length, length-set, length-map, get_or, set, map-set, get_or-map,
  set_same, Result, ok, item_inside, store_inside, Bool-cases, inl, inr,
}
use zerocool.Simulation.Clock.{sweep}
use zerocool.Simulation.Clock.Sweep.{sweep_stop, sweep_go}
use zerocool.Replay.Cache.{clock, Entry, Slots, scan}

abbrev pub key_of : Option Entry → Option ℕ
key_of none = none
key_of (some e) = some e.key

abbrev pub bit_of : Option Entry → Bool
bit_of none = false
bit_of (some e) = e.referenced

abbrev pub pins_of : Option Entry → ℕ
pins_of none = 0
pins_of (some e) = e.pins

-- no slot has a lease
abbrev pub Unpinned : Slots → Type 0
Unpinned slots = (i : ℕ) → get_or (map pins_of slots) i 0 ≡ 0

-- what the scan selects, and what it leaves
abbrev pub Scanned : ℕ → Slots → List Bool → ℕ → Result (Option ℕ × Slots × ℕ) → Type 0
Scanned capacity slots bits' hand' answer =
    (slots' : Slots) × (answer ≡ ok (some hand', slots', (hand' + 1) % capacity))
    × (map bit_of slots' ≡ bits')
    × (map key_of slots' ≡ map key_of slots)
    × (map pins_of slots' ≡ map pins_of slots)
    × (length slots' ≡ length slots)

abbrev pub cleared : Entry → Option Entry
cleared e = some (record e { referenced = false })

-- A new entry changes no part of the slots in which it agrees with the old one.
pub map-set_agrees {ℓ} :
    {A : Type ℓ} (f : Option Entry → A) (slots : Slots) (hand : ℕ) (e new : Entry)
    → get_or slots hand none ≡ some e
    → f (some new) ≡ f (some e)
    → map f (set slots hand (some new)) ≡ map f slots
map-set_agrees f slots hand e new there same =
    map-set f slots hand (some new)
    ∙ ap (λ o. set (map f slots) hand o) (same ∙ sym (get_or-map f slots hand none ∙ ap f there))
    ∙ set_same (map f slots) hand (f none)

module _ (capacity : ℕ) (slots : Slots) (hand rounds : ℕ) (inside : hand < length slots) where
  pub scan_take :
      (o : Option Entry)
      → get_or slots hand none ≡ o
      → bit_of o ≡ false
      → pins_of o ≡ 0
      → scan (suc rounds) clock capacity slots hand ≡ ok (some hand, slots, (hand + 1) % capacity)
  unfolding scan
  scan_take none there b p = rw (item_inside slots hand none inside, there)
  scan_take (some e) there b p = rw (item_inside slots hand none inside, there, scan) (ground arith)

  pub scan_pass :
      (o : Option Entry)
      → get_or slots hand none ≡ o
      → pins_of o ≢ 0
      → scan (suc rounds) clock capacity slots hand
        ≡ scan rounds clock capacity slots ((hand + 1) % capacity)
  unfolding scan
  scan_pass none there p = absurd (p refl)
  scan_pass (some e) there p = rw (item_inside slots hand none inside, there, scan) (ground arith)

  pub scan_clear :
      (e : Entry)
      → get_or slots hand none ≡ some e
      → e.referenced ≡ true
      → e.pins ≡ 0
      → scan (suc rounds) clock capacity slots hand
        ≡ scan rounds clock capacity (set slots hand (cleared e)) ((hand + 1) % capacity)
  unfolding scan
  scan_clear e there b p =
      ground (arith, item_inside slots hand none inside, store_inside slots hand (cleared e) inside)

pub some_bit :
    (o : Option Entry) → bit_of o ≡ true → (e : Entry) × (o ≡ some e) × (e.referenced ≡ true)
some_bit none h = cc
some_bit (some e) h = (e, refl, h)

pub pins_at : (slots : Slots) (i : ℕ) → Unpinned slots → pins_of (get_or slots i none) ≡ 0
pins_at slots i u = sym (get_or-map pins_of slots i none) ∙ u i

bit_at : (slots : Slots) (i : ℕ) → get_or (map bit_of slots) i false ≡ bit_of (get_or slots i none)
bit_at slots i = get_or-map bit_of slots i none

scan_stops :
    (capacity hand rounds : ℕ) (slots : Slots) (bits' : List Bool) (hand' : ℕ)
    → hand < length slots
    → Unpinned slots
    → bit_of (get_or slots hand none) ≡ false
    → ◌≡◌ {A = Result (List Bool × ℕ)} (ok (map bit_of slots, hand)) (ok (bits', hand'))
    → Scanned capacity slots bits' hand' (scan (suc rounds) clock capacity slots hand)
scan_stops capacity hand rounds slots bits' hand' h u t e =
    let same : hand ≡ hand' = cc in
    (
      slots,
      rw (← same) (
          scan_take capacity slots hand rounds h (get_or slots hand none) refl t
            (pins_at slots hand u)),
      cc,
      refl,
      refl,
      refl,
    )

-- Where the sweep ends, the scan selects the same slot, given as many rounds.
pub scan-sweep :
    (fuel capacity hand rounds : ℕ) (slots : Slots) (bits' : List Bool) (hand' : ℕ)
    → fuel ≤ rounds
    → hand < capacity
    → length slots ≡ capacity
    → Unpinned slots
    → sweep fuel capacity (map bit_of slots) hand ≡ ok (bits', hand')
    → Scanned capacity slots bits' hand' (scan rounds clock capacity slots hand)
scan-sweep zero capacity hand rounds slots bits' hand' f h l u e = unfold sweep in cc e
scan-sweep (suc fuel) capacity hand zero slots bits' hand' f h l u e = absurd (omega arith)
scan-sweep (suc fuel) capacity hand (suc rounds) slots bits' hand' f h l u e =
    let inside : hand < length (map bit_of slots) = omega (arith, length-map slots bit_of) in
    elim (Bool-cases (bit_of (get_or slots hand none))) [
      | inr t ↦ scan_stops capacity hand rounds slots bits' hand' (omega arith) u t (
          sym (sweep_stop fuel capacity (map bit_of slots) hand inside (bit_at slots hand ∙ t)) ∙ e)
      | inl t ↦
          let (held, there, b) = some_bit (get_or slots hand none) t in
          let after = set slots hand (cleared held) in
          let pins_kept =
            map-set_agrees pins_of slots hand held (record held { referenced = false }) there
              refl in
          let e_rest =
            sym (sweep_go fuel capacity (map bit_of slots) hand inside (bit_at slots hand ∙ t))
            ∙ e in
          let (slots', found, bits, keys, pins, size) =
            scan-sweep fuel capacity ((hand + 1) % capacity) rounds after bits' hand' (omega arith)
              (mod-lt _ (omega arith)) (length-set slots hand (cleared held) ∙ l)
              (λ i. rw pins_kept (u i)) (rw (map-set bit_of slots hand (cleared held)) e_rest) in
          (
            slots',
            scan_clear capacity slots hand rounds (omega arith) held there b
                  (ap pins_of (sym there) ∙ pins_at slots hand u)
                ∙ found,
            bits,
            keys
                ∙ map-set_agrees key_of slots hand held (record held { referenced = false }) there
                    refl,
            pins ∙ pins_kept,
            size ∙ length-set slots hand (cleared held),
          )
    ]
