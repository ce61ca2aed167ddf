-- ===== src/Horizon/Coverage.antt =====
-- The forwards of `patterns` pass the check that block_cache_replay makes of them.
use zerocool.Prelude.{
  ℕ, zero, suc, ◌+◌, ◌-◌, ◌≤◌, ◌<◌, ◌≡◌, ◌⊎◌, refl, ◌∙◌, true, false, ◌&&◌, ◌||◌, List, [], ◌∷◌,
  arith, ◌==◌, nat_eq, ltb, leb, length, ok, Bool-cases, inl, inr,
}
use zerocool.Replay.Coverage.{Forward, prefill, decode, check_step, check_from, check_patterns}
use zerocool.Horizon.{rows_at, decode_from, patterns}

rows_bounds :
    (width count consumed : ℕ)
    → 1 ≤ width
    → width ≤ 8
    → consumed < count
    → (1 ≤ rows_at width count consumed)
      × (rows_at width count consumed ≤ 8)
      × (consumed + rows_at width count consumed ≤ count)
unfolding rows_at
rows_bounds width count consumed low high h = ground arith

-- The loop ends, and its forwards lead from the rows consumed to all of them.
decode_from_covers :
    (fuel width prompt count consumed : ℕ)
    → 1 ≤ width
    → width ≤ 8
    → prompt ≤ 128
    → count ≤ 64
    → consumed ≤ count
    → count - consumed < fuel
    → (fs : List Forward) × (decode_from fuel width prompt count consumed ≡ ok fs)
      × (check_from false (prompt + consumed) fs ≡ ok (prompt + count))
      × (length fs + consumed ≤ count)
      × (consumed < count → 1 ≤ length fs)
unfolding decode_from
decode_from_covers zero width prompt count consumed lo hi p c h f = absurd (omega arith)
decode_from_covers (suc fuel) width prompt count consumed lo hi p c h f =
    elim (Bool-cases (ltb consumed count)) [
      | inr done ↦
          let e : consumed ≡ count = ground arith in
          (
            [],
            rw done refl,
            rw e (unfold check_from in refl),
            omega arith,
            λ lt. absurd (omega arith),
          )
      | inl more ↦
          let (r1, r8, rc) = rows_bounds width count consumed lo hi (ground arith) in
          let (fs, made, checked, size, _) =
            decode_from_covers fuel width prompt count (consumed + rows_at width count consumed) lo
              hi p c rc (omega arith) in
          (
            record { at = prompt + consumed; count = rows_at width count consumed; phase = decode }
                ∷ fs,
            rw (more, decode_from, made) refl,
            check_step false (prompt + consumed) _ fs refl (omega arith) r1 (omega arith) refl
                ∙ (let same : prompt + consumed + rows_at width count consumed
                        ≡ prompt + (consumed + rows_at width count consumed) =
                      omega arith in
                    rw same checked),
            omega arith,
            λ lt. omega arith,
          )
    ]

width_bounds :
    (width : ℕ)
    → (width ≡ 4) ⊎ (width ≡ 8)
    → (1 ≤ width) × (width ≤ 8) × ((width == 4 || width == 8) ≡ true)
width_bounds width w = ground arith

-- At a width of 4 or 8, a prompt of 1 to 128 tokens and a continuation of 1 to 64, `patterns`
-- raises nothing and ends; its forwards are contiguous from offset 0, a prefill of the prompt and
-- then decodes, cover prompt and continuation exactly, and number between 2 and 65: they pass the
-- check that `decode` of block_cache_replay.py makes of them.
pub patterns-check_patterns :
    (width prompt count : ℕ)
    → (width ≡ 4) ⊎ (width ≡ 8)
    → 1 ≤ prompt
    → prompt ≤ 128
    → 1 ≤ count
    → count ≤ 64
    → (fs : List Forward) × (patterns width prompt count ≡ ok fs)
      × (check_patterns prompt count fs ≡ ok tt)
unfolding patterns check_patterns
patterns-check_patterns width prompt count w p1 p2 c1 c2 =
    let (lo, hi, test) = width_bounds width w in
    let (rest, made, checked, size, some_rows) =
      decode_from_covers (suc count) width prompt count 0 lo hi p2 c2 (omega arith) (omega arith) in
    let bounds : (leb 1 prompt && leb prompt 128 && (leb 1 count && leb count 64)) ≡ true =
      ground arith in
    let all : check_from true 0 (record { at = 0; count = prompt; phase = prefill } ∷ rest)
        ≡ ok (prompt + count) =
      check_step true 0 (record { at = 0; count = prompt; phase = prefill }) rest refl (omega arith)
        p1 p2 refl
      ∙ (let same : prompt + 0 ≡ 0 + prompt = omega arith in rw same at checked) in
    (
      record { at = 0; count = prompt; phase = prefill } ∷ rest,
      rw (test, bounds, made) refl,
      ground (arith, all, some_rows c1),
    )
