-- ===== src/Replay/Cache/Leases.antt =====
-- The scan of `Cache.acquire` among leases: it passes every pinned slot, and it finds a slot
-- wherever one is free of leases.
use native.Mathlib.Decide.{ℕ_discrete}
use native.Mathlib.Nat.{mod-lt, mod-eq_of_lt, mod-eq-sub-mod}
use zerocool.Prelude.{
  ℕ, zero, suc, ◌+◌, ◌-◌, ◌%◌, ◌<◌, ◌≡◌, ◌≢◌, refl, sym, ◌∙◌, ap, true, false, Option, none, some,
  map, arith, length, length-set, get_or, set, get_or-map, get_or-set_ne, get_or-set_self, Result,
  ok, if◌then◌else◌, ◌==◌, nat_eq, Bool-cases, inl, inr,
}
use zerocool.Simulation.Clock.Sweep.{reach}
use zerocool.Replay.Cache.{clock, Entry, Slots, scan}
use zerocool.Replay.Cache.Scan.{
  key_of, bit_of, pins_of, cleared, scan_take, scan_pass, scan_clear, some_bit, map-set_agrees,
}

-- The hand comes one step nearer, or goes round.
next_reach :
    (capacity hand t : ℕ)
    → hand < capacity
    → t < capacity
    → reach capacity ((hand + 1) % capacity) t + 1
      ≡ (if hand == t then capacity else reach capacity hand t)
unfolding reach
next_reach capacity hand t h p = elim (ℕ_discrete (hand + 1) capacity) [
  | yes e ↦
      let z : (hand + 1) % capacity ≡ 0 =
        mod-eq-sub-mod (omega arith)
        ∙ (let d : hand + 1 - capacity ≡ 0 = omega arith in rw d (mod-eq_of_lt (omega arith))) in
      rw z (ground arith)
  | no n ↦
      let z : (hand + 1) % capacity ≡ hand + 1 = mod-eq_of_lt (omega arith) in rw z (ground arith)
]

-- the rounds that the scan needs at most to take slot `t`
unfoldable pub rounds_to : ℕ → Slots → ℕ → ℕ → ℕ
rounds_to capacity slots hand t =
    reach capacity hand t + (if bit_of (get_or slots t none) then capacity else 0)

-- What a scan that selects `slot` leaves.
pub record Selected (slots : Slots) (slot : ℕ) (slots' : Slots) : Type 0 where
  pub free : pins_of (get_or slots slot none) ≡ 0
  pub same_keys : map key_of slots' ≡ map key_of slots
  pub same_pins : map pins_of slots' ≡ map pins_of slots
  pub same_size : length slots' ≡ length slots

pub pins_agree :
    (slots slots' : Slots) (i : ℕ)
    → map pins_of slots ≡ map pins_of slots'
    → pins_of (get_or slots i none) ≡ pins_of (get_or slots' i none)
pins_agree slots slots' i e =
    sym (get_or-map pins_of slots i none)
    ∙ (ap (λ ps. get_or ps i 0) e ∙ get_or-map pins_of slots' i none)

abbrev Finds : ℕ → Slots → Result (Option ℕ × Slots × ℕ) → Type 0
Finds capacity slots answer =
    (slot : ℕ) × (slots' : Slots) × (answer ≡ ok (some slot, slots', (slot + 1) % capacity))
    × (slot < capacity)
    × Selected slots slot slots'

module _ (capacity t : ℕ) (t_inside : t < capacity) where
  further :
      (slots : Slots) (hand rounds : ℕ)
      → hand < capacity
      → hand ≢ t
      → rounds_to capacity slots hand t < suc rounds
      → rounds_to capacity slots ((hand + 1) % capacity) t < rounds
  unfolding rounds_to
  further slots hand rounds h ne f = ground (arith, next_reach capacity hand t h t_inside)

  after_clear :
      (slots : Slots) (hand rounds : ℕ) (e : Entry)
      → hand < capacity
      → length slots ≡ capacity
      → bit_of (get_or slots hand none) ≡ true
      → rounds_to capacity slots hand t < suc rounds
      → rounds_to capacity (set slots hand (cleared e)) ((hand + 1) % capacity) t < rounds
  unfolding rounds_to
  after_clear slots hand rounds e h l b f = elim (ℕ_discrete hand t) [
    | yes p ↦
        let gone : bit_of (get_or (set slots hand (cleared e)) t none) ≡ false =
          rw (← p) (ap bit_of (get_or-set_self slots hand (cleared e) none (omega arith))) in
        let was : bit_of (get_or slots t none) ≡ true = rw (← p) b in
        rw gone (ground (arith, next_reach capacity hand t h t_inside, was))
    | no p ↦
        rw (get_or-set_ne slots hand t (cleared e) none p)
          (ground (arith, next_reach capacity hand t h t_inside))
  ]

  -- A scan with rounds enough for one free slot selects a free slot.
  pub scan-Finds :
      (rounds hand : ℕ) (slots : Slots)
      → hand < capacity
      → length slots ≡ capacity
      → pins_of (get_or slots t none) ≡ 0
      → rounds_to capacity slots hand t < rounds
      → Finds capacity slots (scan rounds clock capacity slots hand)
  scan-Finds zero hand slots h l free f = absurd (omega arith)
  scan-Finds (suc rounds) hand slots h l free f =
      elim (ℕ_discrete (pins_of (get_or slots hand none)) 0) [
        | no p ↦
            let (slot, slots', e, inside, s) =
              scan-Finds rounds ((hand + 1) % capacity) slots (mod-lt _ (omega arith)) l free
                (further slots hand rounds h (λ e. p (rw e free)) f) in
            (
              slot,
              slots',
              scan_pass capacity slots hand rounds (omega arith) _ refl p ∙ e,
              inside,
              s,
            )
        | yes p ↦ elim (Bool-cases (bit_of (get_or slots hand none))) [
          | inr b ↦ (
            hand,
            slots,
            scan_take capacity slots hand rounds (omega arith) _ refl b p,
            h,
            record { free = p; same_keys = refl; same_pins = refl; same_size = refl },
          )
          | inl b ↦
              let (held, there, bit) = some_bit (get_or slots hand none) b in
              let after = set slots hand (cleared held) in
              let pins : map pins_of after ≡ map pins_of slots =
                map-set_agrees pins_of slots hand held (record held { referenced = false }) there
                  refl in
              let (slot, slots', e, inside, s) =
                scan-Finds rounds ((hand + 1) % capacity) after (mod-lt _ (omega arith))
                  (length-set slots hand (cleared held) ∙ l) (pins_agree after slots t pins ∙ free)
                  (after_clear slots hand rounds held h l b f) in
              (
                slot,
                slots',
                scan_clear capacity slots hand rounds (omega arith) held there bit
                      (ap pins_of (sym there) ∙ p)
                    ∙ e,
                inside,
                record {
                  free = sym (pins_agree after slots slot pins) ∙ s.free;
                  same_keys =
                      s.same_keys
                      ∙ map-set_agrees key_of slots hand held (record held { referenced = false })
                          there refl;
                  same_pins = s.same_pins ∙ pins;
                  same_size = s.same_size ∙ length-set slots hand (cleared held);
                },
              )
        ]
      ]
