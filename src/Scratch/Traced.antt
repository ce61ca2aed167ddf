-- ===== src/Scratch/Traced.antt =====
-- The arms of a traced report that `lifetime_proof` of scripts/qwen/q4_scratch_lifetime.py accepts.
use zerocool.Prelude.{
  ℕ, ◌+◌, ◌*◌, ◌≡◌, sym, ap, ◌∙◌, Bool, true, ◌&&◌, List, [], ◌∷◌, ◌++◌, String, length, ok,
  bind_inverse, require, ok_injective,
}
use mathlib.Core.Path.{subst}
use zerocool.Json.{Value, int, at, get_key, is_text, iterate, same}
use zerocool.Scratch.Arena.{Scope, retained_bytes, boundaries, expected}
use zerocool.Scratch.Lifetime.{
  Captured, captured, Proof, check_state, check_totals, trace_arm, arm_captures, check_arm,
  check_arms, check_pairs, lifetime_proof,
}
use zerocool.Scratch.Reuses.{Counts}
use zerocool.Scratch.Chain.{AreNumbered}
use zerocool.Scratch.Rounds.{BatchesReuse}
use zerocool.Scratch.ArmReuses.{
  StateReuses, ArmReuses, check_state-StateReuses, trace_arm-BatchesReuse,
}

-- the capture is that of the arm, and has its 48 passes in order
abbrev pub IsCapture : Scope → Value → Value → Captured → Type 0
IsCapture scope pair arm c =
    (at "pair" pair ≡ ok c.pair)
    × (at "group" pair ≡ ok c.group)
    × (at "variant" arm ≡ ok c.variant)
    × (length c.passes ≡ 48)
    × AreNumbered scope 0 c.passes

-- the captures are those of the arms, one for each
abbrev pub ArmsTraced : Scope → Value → List Value → List Captured → Type 0
ArmsTraced scope pair [] [] = Unit {0}
ArmsTraced scope pair [] (c ∷ captures) = ⊥
ArmsTraced scope pair (arm ∷ arms) [] = ⊥
ArmsTraced scope pair (arm ∷ arms) (c ∷ captures) =
    ArmReuses arm × IsCapture scope pair arm c × ArmsTraced scope pair arms captures

-- the captures are those of the arms of the pairs
abbrev pub PairsTraced : Scope → List Value → List Captured → Type 0
PairsTraced scope [] captures = captures ≡ []
PairsTraced scope (pair ∷ pairs) captures =
    (value : Value) × (arms : List Value) × (here : List Captured) × (there : List Captured) × (at
        "arms" pair
      ≡ ok value)
    × (iterate value ≡ ok arms)
    × (captures ≡ here ++ there)
    × ArmsTraced scope pair arms here
    × PairsTraced scope pairs there

module _ (is_zero : String → Bool) (budget : ℕ) (scope : Scope) (raw mode : Value)
    (has_mode : at "mode" raw ≡ ok mode) (traced : is_text "trace" mode ≡ true) where
  arm_captures-IsCapture :
      (pair arm sample live before after : Value) (n m : ℕ) {captures : List Captured}
      → arm_captures is_zero budget scope raw pair arm sample live before after ≡ ok captures
      → Counts before n
      → Counts after m
      → ((value : Value) × (bs : List Value) × (at "batches" sample ≡ ok value)
          × (iterate value ≡ ok bs)
          × (length bs ≡ 48)
          × BatchesReuse n bs)
        × ((c : Captured) × (captures ≡ c ∷ []) × IsCapture scope pair arm c)
        × (m ≡ n + 48 * 27)
  unfolding arm_captures
  arm_captures-IsCapture pair arm sample live before after n m {captures} h starts ends =
      let (mode', e1, h1) = bind_inverse (at "mode" raw) _ h in
      let same_mode : mode' ≡ mode = ok_injective (sym e1 ∙ has_mode) in
      let is_traced : is_text "trace" mode' ≡ true = ap (is_text "trace") same_mode ∙ traced in
      let (summary, e2, h2) =
        bind_inverse (trace_arm budget scope live before after sample) _ (rw is_traced at h1) in
      let (number_of_pair, e3, h3) = bind_inverse (at "pair" pair) _ h2 in
      let (group, e4, h4) = bind_inverse (at "group" pair) _ h3 in
      let (variant, e5, h5) = bind_inverse (at "variant" arm) _ h4 in
      let (reuse, whole, numbered, total) =
        trace_arm-BatchesReuse budget scope live before after sample n m e2 starts ends in
      (
        reuse,
        (
          captured number_of_pair group variant summary,
          sym (ok_injective h5),
          (e3, e4, e5, whole, numbered),
        ),
        total,
      )

  check_arm-ArmReuses :
      (pair arm : Value) {captures : List Captured}
      → check_arm is_zero budget scope raw pair arm ≡ ok captures
      → ArmReuses arm × ((c : Captured) × (captures ≡ c ∷ []) × IsCapture scope pair arm c)
  unfolding check_arm
  check_arm-ArmReuses pair arm h =
      let (sample, e1, h1) = bind_inverse (at "sample" arm) _ h in
      let (begins, e2, h2) = bind_inverse (get_key "scope_begins" sample) _ h1 in
      let (ends, e3, h3) = bind_inverse (get_key "scope_ends" sample) _ h2 in
      let (retained, e4, h4) = bind_inverse (get_key "retained_scratch_bytes" sample) _ h3 in
      let (u5, e5, h5) =
        bind_inverse
          (require
            (same begins ends
              && same ends (int (boundaries scope))
              && same retained (int (retained_bytes scope)))
            "Missing arena boundaries or changed retained scratch payload")
          _ h4 in
      let (metal_before, e6, h6) = bind_inverse (at "metal_before" arm) _ h5 in
      let (metal_after, e7, h7) = bind_inverse (at "metal_after" arm) _ h6 in
      let (before, e8, h8) = bind_inverse (check_state budget scope metal_before) _ h7 in
      let (after, e9, h9) = bind_inverse (check_state budget scope metal_after) _ h8 in
      let (live_before, e10, h10) = bind_inverse (at "live_buffer_bytes" metal_before) _ h9 in
      let (live_after, e11, h11) = bind_inverse (at "live_buffer_bytes" metal_after) _ h10 in
      let (u12, e12, h12) = bind_inverse (check_totals live_before live_after before after) _ h11 in
      let (n, starts, state_before) = check_state-StateReuses budget scope metal_before e8 in
      let (m, ends_at, state_after) = check_state-StateReuses budget scope metal_after e9 in
      let (reuse, capture, total) =
        arm_captures-IsCapture pair arm sample live_before before after n m h12 starts ends_at in
      (
        (
          n,
          (metal_before, e6, state_before),
          (metal_after, e7, subst (StateReuses metal_after) total state_after),
          (sample, reuse.0, reuse.1, e1, reuse.2, reuse.3, reuse.4, reuse.5),
        ),
        capture,
      )

  check_arms-ArmsTraced :
      (pair : Value) (arms : List Value) {captures : List Captured}
      → check_arms is_zero budget scope raw pair arms ≡ ok captures
      → ArmsTraced scope pair arms captures
  unfolding check_arms
  check_arms-ArmsTraced pair [] {captures} h =
      let kept : [] ≡ captures = ok_injective h in rw (← kept) tt
  check_arms-ArmsTraced pair (arm ∷ arms) {captures} h =
      let (first, e1, h1) = bind_inverse (check_arm is_zero budget scope raw pair arm) _ h in
      let (rest, e2, h2) = bind_inverse (check_arms is_zero budget scope raw pair arms) _ h1 in
      let (reuses, (c, is_c, capture)) = check_arm-ArmReuses pair arm e1 in
      let all_rest = check_arms-ArmsTraced pair arms e2 in
      let kept : c ∷ rest ≡ captures = sym (ap (λ cs. cs ++ rest) is_c) ∙ ok_injective h2 in
      rw (← kept) (reuses, capture, all_rest)

  check_pairs-PairsTraced :
      (pairs : List Value) {captures : List Captured}
      → check_pairs is_zero budget scope raw pairs ≡ ok captures
      → PairsTraced scope pairs captures
  unfolding check_pairs
  check_pairs-PairsTraced [] h = sym (ok_injective h)
  check_pairs-PairsTraced (pair ∷ pairs) h =
      let (value, e1, h1) = bind_inverse (at "arms" pair) _ h in
      let (arms, e2, h2) = bind_inverse (iterate value) _ h1 in
      let (here, e3, h3) = bind_inverse (check_arms is_zero budget scope raw pair arms) _ h2 in
      let (there, e4, h4) = bind_inverse (check_pairs is_zero budget scope raw pairs) _ h3 in
      (
        value,
        arms,
        here,
        there,
        e1,
        e2,
        sym (ok_injective h4),
        check_arms-ArmsTraced pair arms e3,
        check_pairs-PairsTraced pairs e4,
      )

-- Where `lifetime_proof` accepts a report whose mode is "trace", its captures are those of the arms of
-- its pairs, in order and one for each, with 48 passes in order. Each arm has 48 batches, and the
-- first pool of its state before counts some n reuses: the pool of its i-th batch (from 0) counts
-- n + 27 * i of them before and behind the preparation, and 27 more behind the work, and the first
-- pool of its state after counts n + 1296, 27 for each of the 48.
pub lifetime_proof-PairsTraced :
    (is_zero : String → Bool) (budget : ℕ) (raw mode : Value) (scope : Scope) {r : Proof}
    → lifetime_proof is_zero budget raw scope ≡ ok r
    → at "mode" raw ≡ ok mode
    → is_text "trace" mode ≡ true
    → (value : Value) × (pairs : List Value) × (at "pairs" raw ≡ ok value)
      × (iterate value ≡ ok pairs)
      × PairsTraced scope pairs r.captures
unfolding lifetime_proof
lifetime_proof-PairsTraced is_zero budget raw mode scope h has_mode traced =
    let (protocol, e1, h1) = bind_inverse (get_key "scratch_lifetime" raw) _ h in
    let (u2, e2, h2) =
      bind_inverse (require (same protocol (expected scope)) "Changed scratch lifetime protocol") _
        h1 in
    let (value, e3, h3) = bind_inverse (at "pairs" raw) _ h2 in
    let (pairs, e4, h4) = bind_inverse (iterate value) _ h3 in
    let (captures, e5, h5) = bind_inverse (check_pairs is_zero budget scope raw pairs) _ h4 in
    let kept = ok_injective h5 in
    (
      value,
      pairs,
      e3,
      e4,
      subst (λ p. PairsTraced scope pairs p.captures) kept
          (check_pairs-PairsTraced is_zero budget scope raw mode has_mode traced pairs e5),
    )
