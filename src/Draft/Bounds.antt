-- ===== src/Draft/Bounds.antt =====
-- What `memory_observation` of scripts/qwen/perfect_draft.py says of the processes it has seen.
use zerocool.Prelude.{
  ℕ, ◌*◌, ◌^◌, ◌≤◌, ◌≡◌, refl, ap, ◌∙◌, true, ◌&&◌, List, [], ◌∷◌, map, arith, ◌==◌, nat_eq, ltb,
  leb, length, ok, bind_inverse, require, ok_injective, Bool-cases, inl, inr, all, sorted_set,
  insert_number,
}
use zerocool.Json.{Value}
use zerocool.Draft.Held.{Each, ReportHeld, both, processes-AllHeld, observed-ReportHeld}
use zerocool.Draft.Memory.{
  Process, Memory, budget, observed, processes, is_inside, is_clean, largest, memory_observation,
}

Each-insert_number : (n x : ℕ) (xs : List ℕ) → Each n (insert_number x xs) → (x ≡ n) × Each n xs
unfolding insert_number
Each-insert_number n x [] v = v
Each-insert_number n x (y ∷ xs) v = elim (Bool-cases (x == y)) [
  | inl same ↦
      let w : Each n (y ∷ xs) = rw same at v in
      let x_is_y : x ≡ y = ground (arith, same) in (x_is_y ∙ w.0, w)
  | inr differs ↦ elim (Bool-cases (ltb x y)) [
    | inl less ↦ rw (differs, less) at v
    | inr more ↦
        let w : Each n (y ∷ insert_number x xs) = rw (differs, more) at v in
        let (here, there) = Each-insert_number n x xs w.1 in (here, (w.0, there))
  ]
]

Each-sorted_set : (n : ℕ) (xs : List ℕ) → Each n (sorted_set xs) → Each n xs
unfolding sorted_set
Each-sorted_set n [] v = tt
Each-sorted_set n (x ∷ xs) v =
    let (here, there) = Each-insert_number n x (sorted_set xs) v in
    (here, Each-sorted_set n xs there)

one_number : (xs : List ℕ) → length xs ≡ 1 → (n : ℕ) × Each n xs
one_number [] h = absurd (omega (arith, h))
one_number (n ∷ []) h = (n, (refl, tt))
one_number (n ∷ m ∷ xs) h = absurd (omega (arith, h))

largest-is_inside :
    (ps : List Process) → all is_inside ps ≡ true → largest (λ p. p.footprint_peak) ps ≤ budget
unfolding all largest
largest-is_inside [] h = omega arith
largest-is_inside (p ∷ ps) h =
    let (first, rest) = both (is_inside p) (all is_inside ps) h in
    let later = largest-is_inside ps rest in
    let (inner, compressed) =
      both (ltb 0 p.footprint && leb p.footprint p.footprint_peak && leb p.footprint_peak budget)
        (leb p.compressed p.compressed_peak) first in
    let (low, high) =
      both (ltb 0 p.footprint && leb p.footprint p.footprint_peak) (leb p.footprint_peak budget)
        inner in
    let here : p.footprint_peak ≤ budget = ground (arith, high) in ground (arith, here, later)

largest-is_clean :
    (ps : List Process) → all is_clean ps ≡ true → largest (λ p. p.compressed_peak) ps ≡ 0
unfolding all largest
largest-is_clean [] h = refl
largest-is_clean (p ∷ ps) h =
    let (first, rest) = both (is_clean p) (all is_clean ps) h in
    let later = largest-is_clean ps rest in
    let (now, peak) = both (p.compressed == 0) (p.compressed_peak == 0) first in
    let here : p.compressed_peak ≡ 0 = ground (arith, peak) in ground (arith, here, later)

-- Where `memory_observation` answers that the memory was clean, the peak in its answer is within the
-- budget of 12 GiB, and each process of the report (at its begin, before and after each block, at its
-- end, and behind the end of the session) has a footprint above 0 that is within its own peak, which
-- is within the peak of the answer, has no compressed memory, now or at its peak, and saw the same use
-- of swap as the others.
pub memory_observation-is_clean :
    (raw : Value) {m : Memory}
    → memory_observation raw ≡ ok m
    → m.clean_memory ≡ true
    → (m.peak_physical_bytes ≤ 12 * 1024 ^ 3)
      × (m.peak_compressed_bytes ≡ 0)
      × ((n : ℕ) × Each n m.swap_observations_bytes × ReportHeld m.peak_physical_bytes n raw)
unfolding memory_observation
memory_observation-is_clean raw {m} h clean =
    let (values, e1, h1) = bind_inverse (observed raw) _ h in
    let (ps, e2, h2) = bind_inverse (processes values) _ h1 in
    let (u3, e3, h3) =
      bind_inverse (require (all is_inside ps) "Invalid or excessive process footprint") _ h2 in
    let inside : all is_inside ps ≡ true = ground (arith, e3) in
    let kept = ok_injective h3 in
    let decompressed = length (sorted_set (map (λ p. p.decompressions) ps)) == 1 in
    let swapped = length (sorted_set (map (λ p. p.swap_used) ps)) == 1 in
    let all_clean : (all is_clean ps && decompressed && swapped) ≡ true =
      ap (λ x. x.clean_memory) kept ∙ clean in
    let (first, same_swap) = both (all is_clean ps && decompressed) swapped all_clean in
    let (none_compressed, same_count) = both (all is_clean ps) decompressed first in
    let single : length (sorted_set (map (λ p. p.swap_used) ps)) ≡ 1 = ground (arith, same_swap) in
    let (n, each) = one_number (sorted_set (map (λ p. p.swap_used) ps)) single in
    let swaps = Each-sorted_set n (map (λ p. p.swap_used) ps) each in
    let peak = largest (λ p. p.footprint_peak) ps in
    let held = processes-AllHeld peak n values e2 inside none_compressed (omega arith) swaps in
    rw (← kept) (
      largest-is_inside ps inside,
      largest-is_clean ps none_compressed,
      (n, swaps, observed-ReportHeld peak n raw e1 held),
    )
