-- ===== src/Draft/Held.antt =====
-- The processes that `memory_observation` of scripts/qwen/perfect_draft.py looks at, each by the key
-- under which the report has it.
use zerocool.Prelude.{
  ℕ, ◌≤◌, ◌<◌, ◌≡◌, sym, Bool, true, ◌&&◌, List, [], ◌∷◌, ◌++◌, map, arith, max, ◌==◌, nat_eq, ltb,
  leb, ok, bind_inverse, ok_injective, all, String,
}
use mathlib.Core.Path.{subst}
use zerocool.Json.{Value, at, iterate}
use zerocool.Draft.Memory.{
  Process, budget, block_values, observed, process_of, processes, is_inside, is_clean, largest,
}

-- all the numbers are one
abbrev pub Each : ℕ → List ℕ → Type 0
Each n [] = Unit {0}
Each n (x ∷ xs) = (x ≡ n) × Each n xs

-- the process is within a peak, has nothing compressed, and sees this use of swap
abbrev pub IsObserved : ℕ → ℕ → Process → Type 0
IsObserved peak swap p =
    (0 < p.footprint)
    × (p.footprint ≤ p.footprint_peak)
    × (p.footprint_peak ≤ peak)
    × (p.compressed ≡ 0)
    × (p.compressed_peak ≡ 0)
    × (p.swap_used ≡ swap)

-- the numbers of a process are so
abbrev pub Held : ℕ → ℕ → Value → Type 0
Held peak swap v = (p : Process) × (process_of v ≡ ok p) × IsObserved peak swap p

abbrev pub AllHeld : ℕ → ℕ → List Value → Type 0
AllHeld peak swap [] = Unit {0}
AllHeld peak swap (v ∷ vs) = Held peak swap v × AllHeld peak swap vs

-- so are those of the process under a key
abbrev pub HeldAt : ℕ → ℕ → String → Value → Type 0
HeldAt peak swap k v = (u : Value) × (at k v ≡ ok u) × Held peak swap u

-- so are those before and after each of the blocks
abbrev pub BlocksHeld : ℕ → ℕ → List Value → Type 0
BlocksHeld peak swap [] = Unit {0}
BlocksHeld peak swap (block ∷ blocks) =
    HeldAt peak swap "memory_before" block
    × HeldAt peak swap "memory_after" block
    × BlocksHeld peak swap blocks

-- so are those of the whole report: before it, around its blocks, after it, and behind the end of the
-- session
abbrev pub ReportHeld : ℕ → ℕ → Value → Type 0
ReportHeld peak swap raw =
    ((before : Value) × (at "before" raw ≡ ok before) × HeldAt peak swap "process" before)
    × ((value : Value) × (blocks : List Value) × (at "blocks" raw ≡ ok value)
        × (iterate value ≡ ok blocks)
        × BlocksHeld peak swap blocks)
    × ((after : Value) × (at "after" raw ≡ ok after) × HeldAt peak swap "process" after)
    × HeldAt peak swap "process_after_destroy" raw

pub both : (a b : Bool) → (a && b) ≡ true → (a ≡ true) × (b ≡ true)
both a b h = ground (arith, h)

IsObserved-is_inside :
    (peak swap : ℕ) (p : Process)
    → is_inside p ≡ true
    → is_clean p ≡ true
    → p.footprint_peak ≤ peak
    → p.swap_used ≡ swap
    → IsObserved peak swap p
IsObserved-is_inside peak swap p inside clean low same_swap =
    let (inner, _) =
      both (ltb 0 p.footprint && leb p.footprint p.footprint_peak && leb p.footprint_peak budget)
        (leb p.compressed p.compressed_peak) inside in
    let (low_peak, _) =
      both (ltb 0 p.footprint && leb p.footprint p.footprint_peak) (leb p.footprint_peak budget)
        inner in
    let (used, ordered) = both (ltb 0 p.footprint) (leb p.footprint p.footprint_peak) low_peak in
    let (now, then_none) = both (p.compressed == 0) (p.compressed_peak == 0) clean in
    (
      ground (arith, used),
      ground (arith, ordered),
      low,
      ground (arith, now),
      ground (arith, then_none),
      same_swap,
    )

pub processes-AllHeld :
    (peak swap : ℕ) (vs : List Value) {ps : List Process}
    → processes vs ≡ ok ps
    → all is_inside ps ≡ true
    → all is_clean ps ≡ true
    → largest (λ p. p.footprint_peak) ps ≤ peak
    → Each swap (map (λ p. p.swap_used) ps)
    → AllHeld peak swap vs
unfolding processes all largest
processes-AllHeld peak swap [] h inside clean low each = tt
processes-AllHeld peak swap (v ∷ vs) h inside clean low each =
    let (p, e1, h1) = bind_inverse (process_of v) _ h in
    let (ps, e2, h2) = bind_inverse (processes vs) _ h1 in
    let back = sym (ok_injective h2) in
    let inside' : all is_inside (p ∷ ps) ≡ true = subst (λ x. all is_inside x ≡ true) back inside in
    let clean' : all is_clean (p ∷ ps) ≡ true = subst (λ x. all is_clean x ≡ true) back clean in
    let low' : max p.footprint_peak (largest (λ q. q.footprint_peak) ps) ≤ peak =
      subst (λ x. largest (λ q. q.footprint_peak) x ≤ peak) back low in
    let each' : Each swap (map (λ q. q.swap_used) (p ∷ ps)) =
      subst (λ x. Each swap (map (λ q. q.swap_used) x)) back each in
    let (inside_p, inside_ps) = both (is_inside p) (all is_inside ps) inside' in
    let (clean_p, clean_ps) = both (is_clean p) (all is_clean ps) clean' in
    let here : p.footprint_peak ≤ peak = ground (arith, low') in
    let there : largest (λ q. q.footprint_peak) ps ≤ peak = ground (arith, low') in
    (
      (p, e1, IsObserved-is_inside peak swap p inside_p clean_p here each'.0),
      processes-AllHeld peak swap vs e2 inside_ps clean_ps there each'.1,
    )

AllHeld-append :
    (peak swap : ℕ) (us vs : List Value)
    → AllHeld peak swap (us ++ vs)
    → AllHeld peak swap us × AllHeld peak swap vs
AllHeld-append peak swap [] vs held = (tt, held)
AllHeld-append peak swap (u ∷ us) vs held =
    let (first, rest) = AllHeld-append peak swap us vs held.1 in ((held.0, first), rest)

block_values-BlocksHeld :
    (peak swap : ℕ) (blocks : List Value) {vs : List Value}
    → block_values blocks ≡ ok vs
    → AllHeld peak swap vs
    → BlocksHeld peak swap blocks
unfolding block_values
block_values-BlocksHeld peak swap [] h held = tt
block_values-BlocksHeld peak swap (block ∷ blocks) h held =
    let (before, e1, h1) = bind_inverse (at "memory_before" block) _ h in
    let (after, e2, h2) = bind_inverse (at "memory_after" block) _ h1 in
    let (rest, e3, h3) = bind_inverse (block_values blocks) _ h2 in
    let all_held : AllHeld peak swap (before ∷ after ∷ rest) =
      subst (AllHeld peak swap) (sym (ok_injective h3)) held in
    (
      (before, e1, all_held.0),
      (after, e2, all_held.1.0),
      block_values-BlocksHeld peak swap blocks e3 all_held.1.1,
    )

pub observed-ReportHeld :
    (peak swap : ℕ) (raw : Value) {vs : List Value}
    → observed raw ≡ ok vs
    → AllHeld peak swap vs
    → ReportHeld peak swap raw
unfolding observed
observed-ReportHeld peak swap raw h held =
    let (before, e1, h1) = bind_inverse (at "before" raw) _ h in
    let (first, e2, h2) = bind_inverse (at "process" before) _ h1 in
    let (value, e3, h3) = bind_inverse (at "blocks" raw) _ h2 in
    let (blocks, e4, h4) = bind_inverse (iterate value) _ h3 in
    let (between, e5, h5) = bind_inverse (block_values blocks) _ h4 in
    let (after, e6, h6) = bind_inverse (at "after" raw) _ h5 in
    let (last, e7, h7) = bind_inverse (at "process" after) _ h6 in
    let (destroyed, e8, h8) = bind_inverse (at "process_after_destroy" raw) _ h7 in
    let all_held : AllHeld peak swap (first ∷ between ++ last ∷ destroyed ∷ []) =
      subst (AllHeld peak swap) (sym (ok_injective h8)) held in
    let (around, behind) = AllHeld-append peak swap between (last ∷ destroyed ∷ []) all_held.1 in
    (
      (before, e1, (first, e2, all_held.0)),
      (value, blocks, e3, e4, block_values-BlocksHeld peak swap blocks e5 around),
      (after, e6, (last, e7, behind.0)),
      (destroyed, e8, behind.1.0),
    )
