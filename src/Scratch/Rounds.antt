-- ===== src/Scratch/Rounds.antt =====
-- The pool at each observation of a round, by `lifetime_proof` of scripts/qwen/q4_scratch_lifetime.py.
use zerocool.Prelude.{
  ℕ, suc, ◌+◌, ◌≡◌, refl, sym, ap, ◌∙◌, Bool, String, Option, some, List, [], ◌∷◌, length, ok,
  bind_inverse, require, ok_injective,
}
use zerocool.Json.{Value, object, end, at, get_default, is_set_of, same}
use zerocool.Json.Equal.{at-same, at-same_number}
use zerocool.Scratch.Arena.{
  Scope, Pass, retained_bytes, entering_used, entering_active, final_used, final_active,
  scratch_snapshot,
}
use zerocool.Scratch.Passes.{
  check_entering, check_work, stages, settle, check_round, check_batch, check_batches,
}
use zerocool.Scratch.Reuses.{Counts, require-true, scratch_snapshot_pool}
use zerocool.Scratch.Chain.{
  HasReuses, Starts, check_work-Counts, check_entering-Starts, check_batch-Settled,
}

-- the pool counts so many reuses before and behind the preparation, and 27 more behind the work
abbrev pub RoundReuses : ℕ → Value → Value → Value → Type 0
RoundReuses n entering prepared done =
    HasReuses entering n × HasReuses prepared n × HasReuses done (n + 27)

-- so do the observations of a batch
abbrev pub BatchReuses : ℕ → Value → Type 0
BatchReuses n b =
    (lifetime : Value) × (entering : Value) × (prepared : Value) × (done : Value) × (get_default
        "lifetime" (object end) b
      ≡ ok lifetime)
    × (at "before_preparation" lifetime ≡ ok entering)
    × (at "after_preparation" lifetime ≡ ok prepared)
    × (at "after_work" lifetime ≡ ok done)
    × RoundReuses n entering prepared done

-- each batch starts with the reuses that the one before it left
abbrev pub BatchesReuse : ℕ → List Value → Type 0
BatchesReuse n [] = Unit {0}
BatchesReuse n (b ∷ bs) = BatchReuses n b × BatchesReuse (n + 27) bs

settle-Starts :
    (scope : Scope) (live before : Value) (index : ℕ) (previous : Option Value)
    (b entering prepared done a c : Value) (n k m : ℕ) {r : Value × Pass}
    → settle scope live before index previous b entering prepared done a c ≡ ok r
    → at "pool" entering ≡ ok a
    → Counts a k
    → Counts c m
    → Starts previous before n
    → (same entering prepared ≡ Bool.true) × (k ≡ n) × (m ≡ k + 27)
unfolding settle
settle-Starts scope live before index previous b entering prepared done a c n k m h pool_a starts_a
      ends_c starts =
    let message : String = "Read preparation changed a live scratch arena" in
    let (u1, e1, h1) = bind_inverse (require (same entering prepared) message) _ h in
    let (u2, e2, h2) = bind_inverse (check_work entering done live a c) _ h1 in
    let (u3, e3, h3) = bind_inverse (check_entering previous entering a before) _ h2 in
    (
      require-true (same entering prepared) message e1,
      check_entering-Starts previous entering a before e3 pool_a starts_a starts,
      check_work-Counts entering done live a c {n = k} {m = m} e2 starts_a ends_c,
    )

HasReuses-at : (v : Value) {n m : ℕ} → n ≡ m → HasReuses v n → HasReuses v m
HasReuses-at v e held = rw (← e) held

check_round-RoundReuses :
    (budget : ℕ) (scope : Scope) (live before : Value) (index : ℕ) (previous : Option Value)
    (b entering prepared done : Value) (n : ℕ) {r : Value × Pass}
    → check_round budget scope live before index previous b entering prepared done ≡ ok r
    → Starts previous before n
    → RoundReuses n entering prepared done
unfolding check_round
check_round-RoundReuses budget scope live before index previous b entering prepared done n h
      starts =
    let retained = retained_bytes scope in
    let used = entering_used scope index in
    let active = entering_active scope index in
    let used_c = final_used scope index in
    let active_c = final_active scope index in
    let (a, e1, h1) = bind_inverse (scratch_snapshot budget entering retained used active) _ h in
    let (w, e2, h2) = bind_inverse (scratch_snapshot budget prepared retained used active) _ h1 in
    let (c, e3, h3) = bind_inverse (scratch_snapshot budget done retained used_c active_c) _ h2 in
    let (pool_a, (k, starts_a)) = scratch_snapshot_pool budget entering retained used active e1 in
    let (pool_w, (j, starts_w)) = scratch_snapshot_pool budget prepared retained used active e2 in
    let (pool_c, (m, ends_c)) = scratch_snapshot_pool budget done retained used_c active_c e3 in
    let (kept, k_is, m_is) =
      settle-Starts scope live before index previous b entering prepared done a c n k m h3 pool_a
        starts_a ends_c starts in
    let (v, v_there, agree) = at-same "pool" entering prepared kept pool_a in
    let v_is : v ≡ w = ok_injective (sym v_there ∙ pool_w) in
    let j_is = at-same_number "reuses" a w (ap (same a) (sym v_is) ∙ agree) starts_a starts_w in
    (
      HasReuses-at entering {n = k} k_is (a, pool_a, starts_a),
      HasReuses-at prepared {n = j} (sym j_is ∙ k_is) (w, pool_w, starts_w),
      HasReuses-at done {n = m} (m_is ∙ ap (λ i. i + 27) k_is) (c, pool_c, ends_c),
    )

check_batch-BatchReuses :
    (budget : ℕ) (scope : Scope) (live before : Value) (index : ℕ) (previous : Option Value)
    (b : Value) (n : ℕ) {r : Value × Pass}
    → check_batch budget scope live before index previous b ≡ ok r
    → Starts previous before n
    → BatchReuses n b
unfolding check_batch
check_batch-BatchReuses budget scope live before index previous b n h starts =
    let (lifetime, e1, h1) = bind_inverse (get_default "lifetime" (object end) b) _ h in
    let (whole, e2, h2) = bind_inverse (is_set_of stages lifetime) _ h1 in
    let (u3, e3, h3) =
      bind_inverse (require whole "Missing complete scratch lifecycle observations") _ h2 in
    let (entering, e4, h4) = bind_inverse (at "before_preparation" lifetime) _ h3 in
    let (prepared, e5, h5) = bind_inverse (at "after_preparation" lifetime) _ h4 in
    let (done, e6, h6) = bind_inverse (at "after_work" lifetime) _ h5 in
    (
      lifetime,
      entering,
      prepared,
      done,
      e1,
      e4,
      e5,
      e6,
      check_round-RoundReuses budget scope live before index previous b entering prepared done n h6
          starts,
    )

pub check_batches-BatchesReuse :
    (budget : ℕ) (scope : Scope) (live before : Value) (index : ℕ) (previous : Option Value)
    (bs : List Value) (n : ℕ) {r : Option Value × List Pass}
    → check_batches budget scope live before index previous bs ≡ ok r
    → Starts previous before n
    → BatchesReuse n bs × (length bs ≡ length r.1)
unfolding check_batches
check_batches-BatchesReuse budget scope live before index previous [] n {r} h starts =
    let kept : (previous, []) ≡ r = ok_injective h in rw (← kept) (tt, refl)
check_batches-BatchesReuse budget scope live before index previous (b ∷ bs) n {r} h starts =
    let (round, e1, h1) =
      bind_inverse (check_batch budget scope live before index previous b) _ h in
    let (rest, e2, h2) =
      bind_inverse (check_batches budget scope live before (suc index) (some round.0) bs) _ h1 in
    let (next, _) = check_batch-Settled budget scope live before index previous b n e1 starts in
    let here = check_batch-BatchReuses budget scope live before index previous b n e1 starts in
    let (there, as_many) =
      check_batches-BatchesReuse budget scope live before (suc index) (some round.0) bs (n + 27) e2
        next in
    let kept : (rest.0, round.1 ∷ rest.1) ≡ r = ok_injective h2 in
    rw (← kept) ((here, there), ap suc as_many)
