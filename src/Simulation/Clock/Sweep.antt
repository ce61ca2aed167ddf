-- ===== src/Simulation/Clock/Sweep.antt =====
-- What the loop of `Clock.access` computes: it ends, and it takes the first clear bit from the
-- hand on, going round.
use native.Mathlib.Decide.{ℕ_discrete}
use native.Mathlib.Nat.{mod-lt, add-mod_right, mod-eq_of_lt, mod-eq-sub-mod, mod-add-mod}
use zerocool.Prelude.{
  ltb, leb, ltb→lt, if◌then◌else◌, ◌∙◌, sym, ℕ, zero, suc, ◌+◌, ◌-◌, ◌%◌, ◌≤◌, ◌<◌, ◌≡◌, ◌≢◌, refl,
  Bool, true, false, List, [], ◌∷◌, arith, length, get_or, set, length-set, get_or-set_ne, ok,
  item_inside, store_inside, Bool-cases, inl, inr,
}
use zerocool.Simulation.Clock.{sweep}

-- how many bits are set
abbrev pub count_set : List Bool → ℕ
count_set [] = 0
count_set (true ∷ bits) = suc (count_set bits)
count_set (false ∷ bits) = count_set bits

pub count_set-le-length : (bits : List Bool) → count_set bits ≤ length bits
count_set-le-length [] = omega arith
count_set-le-length (true ∷ bits) = omega (arith, count_set-le-length bits)
count_set-le-length (false ∷ bits) = omega (arith, count_set-le-length bits)

count_set-set :
    (bits : List Bool) (i : ℕ)
    → get_or bits i false ≡ true
    → count_set (set bits i false) + 1 ≡ count_set bits
count_set-set [] i h = cc
count_set-set (true ∷ bits) zero h = omega arith
count_set-set (false ∷ bits) zero h = cc
count_set-set (true ∷ bits) (suc i) h = omega (arith, count_set-set bits i h)
count_set-set (false ∷ bits) (suc i) h = omega (arith, count_set-set bits i h)

-- The bits and the hand after a sweep, against those before it.
pub record Swept (capacity : ℕ) (bits : List Bool) (hand : ℕ) (bits' : List Bool) (hand' : ℕ)
    : Type 0 where
  pub steps : ℕ
  pub lands : hand' ≡ (hand + steps) % capacity
  pub inside : hand' < capacity
  pub size : length bits' ≡ capacity
  pub stops : get_or bits' hand' false ≡ false
  pub passed : (m : ℕ) → m < steps → get_or bits ((hand + m) % capacity) false ≡ true
  pub kept :
      (i : ℕ)
      → ((m : ℕ) → m < steps → (hand + m) % capacity ≢ i)
      → get_or bits' i false ≡ get_or bits i false

next_hand :
    (capacity hand m : ℕ) → ((hand + 1) % capacity + m) % capacity ≡ (hand + suc m) % capacity
next_hand capacity hand m = let e : hand + 1 + m ≡ hand + suc m = omega arith in rw (mod-add-mod, e)

-- One more bit cleared before a sweep.
Swept-suc :
    {capacity : ℕ} {bits : List Bool} {hand : ℕ} {bits' : List Bool} {hand' : ℕ}
    → hand < capacity
    → length bits ≡ capacity
    → get_or bits hand false ≡ true
    → Swept capacity (set bits hand false) ((hand + 1) % capacity) bits' hand'
    → Swept capacity bits hand bits' hand'
Swept-suc {capacity} {bits} {hand} {bits'} h l t s = record {
  steps = suc s.steps;
  lands = s.lands ∙ next_hand capacity hand s.steps;
  inside = s.inside;
  size = s.size;
  stops = s.stops;
  passed = passed;
  kept = λ i outside.
      s.kept i (λ m p. rw next_hand (outside (suc m) (omega arith)))
      ∙ get_or-set_ne bits hand i false false (rw here at (outside 0 (omega arith)));
}
  where
    lowered : (i : ℕ) → get_or (set bits hand false) i false ≡ true → get_or bits i false ≡ true
    lowered i e = elim (ℕ_discrete hand i) [
      | yes p ↦ rw (← p) t
      | no p ↦ sym (get_or-set_ne bits hand i false false p) ∙ e
    ]

    here : (hand + 0) % capacity ≡ hand
    here = grind (arith, mod-eq_of_lt)

    passed : (m : ℕ) → m < suc s.steps → get_or bits ((hand + m) % capacity) false ≡ true
    passed zero p = rw here t
    passed (suc m) p = rw (← next_hand capacity hand m) (lowered _ (s.passed m (omega arith)))

-- A sweep that finds the first bit clear.
Swept-zero :
    {capacity : ℕ} {bits : List Bool} {hand : ℕ}
    → hand < capacity
    → length bits ≡ capacity
    → get_or bits hand false ≡ false
    → Swept capacity bits hand bits hand
Swept-zero {capacity} {bits} {hand} h l t = record {
  steps = 0;
  lands = grind (arith, mod-eq_of_lt);
  inside = h;
  size = l;
  stops = t;
  passed = λ m p. absurd (omega arith);
  kept = λ i outside. refl;
}

-- One round of the sweep.
pub sweep_stop :
    (fuel capacity : ℕ) (bits : List Bool) (hand : ℕ)
    → hand < length bits
    → get_or bits hand false ≡ false
    → sweep (suc fuel) capacity bits hand ≡ ok (bits, hand)
unfolding sweep
sweep_stop fuel capacity bits hand h t = rw (item_inside bits hand false h, t)

pub sweep_go :
    (fuel capacity : ℕ) (bits : List Bool) (hand : ℕ)
    → hand < length bits
    → get_or bits hand false ≡ true
    → sweep (suc fuel) capacity bits hand
      ≡ sweep fuel capacity (set bits hand false) ((hand + 1) % capacity)
unfolding sweep
sweep_go fuel capacity bits hand h t =
    rw (item_inside bits hand false h, t, store_inside bits hand false h)

-- With as much fuel as there are bits set, and one round more, the sweep ends.
pub sweep-Swept :
    (fuel capacity : ℕ) (bits : List Bool) (hand : ℕ)
    → count_set bits < fuel
    → hand < capacity
    → length bits ≡ capacity
    → (bits' : List Bool) × (hand' : ℕ) × (sweep fuel capacity bits hand ≡ ok (bits', hand'))
      × Swept capacity bits hand bits' hand'
sweep-Swept zero capacity bits hand f h l = absurd (omega arith)
sweep-Swept (suc fuel) capacity bits hand f h l = elim (Bool-cases (get_or bits hand false)) [
  | inl t ↦
      let (bits', hand', e, s) =
        sweep-Swept fuel capacity (set bits hand false) ((hand + 1) % capacity)
          (omega (arith, count_set-set bits hand t)) (mod-lt _ (omega arith))
          (length-set bits hand false ∙ l) in
      (bits', hand', sweep_go fuel capacity bits hand (omega arith) t ∙ e, Swept-suc h l t s)
  | inr t ↦ (bits, hand, sweep_stop fuel capacity bits hand (omega arith) t, Swept-zero h l t)
]

-- The hand reaches every slot within one round.
unfoldable pub reach : (capacity hand i : ℕ) → ℕ
reach capacity hand i = if leb hand i then i - hand else i + capacity - hand

pub reach_lem :
    (capacity hand i : ℕ)
    → hand < capacity
    → i < capacity
    → (reach capacity hand i < capacity) × ((hand + reach capacity hand i) % capacity ≡ i)
unfolding reach
reach_lem capacity hand i h p = elim (Bool-cases (leb hand i)) [
  | inl t ↦
      rw t (ground arith, let e : hand + (i - hand) ≡ i = ground arith in rw e (mod-eq_of_lt p))
  | inr t ↦ rw t (
    ground arith,
    let e : hand + (i + capacity - hand) ≡ i + capacity = ground arith in
        rw (e, add-mod_right) (mod-eq_of_lt p),
  )
]

wrap :
    (capacity hand m : ℕ)
    → hand < capacity
    → m < capacity
    → (hand + m) % capacity ≡ (if ltb (hand + m) capacity then hand + m else hand + m - capacity)
wrap capacity hand m h p = elim (Bool-cases (ltb (hand + m) capacity)) [
  | inl t ↦ rw t (mod-eq_of_lt (ground arith))
  | inr t ↦ rw t (mod-eq-sub-mod (ground arith) ∙ mod-eq_of_lt (omega arith))
]

-- Two places less than a round apart are different.
apart :
    (capacity hand m n : ℕ)
    → hand < capacity
    → m < n
    → n < capacity
    → (hand + m) % capacity ≢ (hand + n) % capacity
apart capacity hand m n h p q e =
    ground (arith, wrap capacity hand m h (omega arith), wrap capacity hand n h q)

-- A bit that the sweep stops at was set only if every bit was.
pub Swept-second_chance :
    {capacity : ℕ} {bits : List Bool} {hand : ℕ} {bits' : List Bool} {hand' : ℕ}
    → hand < capacity
    → Swept capacity bits hand bits' hand'
    → get_or bits hand' false ≡ true
    → (i : ℕ) → i < capacity
    → get_or bits i false ≡ true
Swept-second_chance {capacity} {bits} {hand} {bits'} {hand'} h s t i p =
    elim (Bool-cases (ltb s.steps capacity)) [
      | inl short ↦
          let same = s.kept hand' λ m before there.
            apart capacity hand m s.steps h before (ltb→lt _ _ short) (there ∙ s.lands) in
          cc
      | inr long ↦
          let (near, there) = reach_lem capacity hand i h p in
          rw there at (s.passed (reach capacity hand i) (ground arith))
    ]
