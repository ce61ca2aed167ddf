-- ===== src/Scratch/Chain.antt =====
-- The passes of a traced arm, by `lifetime_proof` of scripts/qwen/q4_scratch_lifetime.py, hand the
-- arena on to each other, and account for every reuse of a buffer.
use zerocool.Prelude.{
  ℕ, suc, ◌+◌, ◌*◌, ◌≡◌, refl, sym, ap, ◌∙◌, Option, none, some, List, [], ◌∷◌, arith, String, ◌==◌,
  nat_eq, length, ok, bind_inverse, require, ok_injective,
}
use zerocool.Json.{Value, int, object, end, at, get_default, is_set_of, iterate, number, same}
use zerocool.Json.Equal.{at-same, at-same_number}
use zerocool.Scratch.Arena.{
  Scope, Pass, passes, retained_bytes, entering_used, entering_active, final_used, final_active,
  scratch_snapshot,
}
use zerocool.Scratch.Passes.{
  check_entering, check_work, stages, settle, check_round, check_batch, check_batches,
}
use zerocool.Scratch.Lifetime.{check_end, trace_arm}
use zerocool.Scratch.Reuses.{Counts, require-true, scratch_snapshot_pool}

-- an observation with a pool that counts so many reuses
abbrev pub HasReuses : Value → ℕ → Type 0
HasReuses observed n = (pool : Value) × (at "pool" observed ≡ ok pool) × Counts pool n

-- the reuses at the start of a pass
abbrev pub Starts : Option Value → Value → ℕ → Type 0
Starts none before n = Counts before n
Starts (some previous) before n = HasReuses previous n

-- the passes are numbered from an index on, and use the buffers that the scope has for each
unfoldable pub AreNumbered : Scope → ℕ → List Pass → Type 0
AreNumbered scope index [] = Unit {0}
AreNumbered scope index (p ∷ summary) =
    (p.pass_index ≡ index)
    × (p.used_buffers ≡ final_used scope index)
    × (p.active_after_work ≡ final_active scope index)
    × AreNumbered scope (suc index) summary

pub check_work-Counts :
    (entering done live a c : Value) {n m : ℕ}
    → check_work entering done live a c ≡ ok tt
    → Counts a n
    → Counts c m
    → m ≡ n + 27
unfolding check_work
check_work-Counts entering done live a c {n} {m} h starts ends =
    let (live_entering, e1, h1) = bind_inverse (at "live_buffer_bytes" entering) _ h in
    let (live_done, e2, h2) = bind_inverse (at "live_buffer_bytes" done) _ h1 in
    let (count_a, e3, h3) = bind_inverse (at "allocation_count" a) _ h2 in
    let (count_c, e4, h4) = bind_inverse (at "allocation_count" c) _ h3 in
    let (reuses_a, e5, h5) = bind_inverse (at "reuses" a) _ h4 in
    let (reuses_c, e6, h6) = bind_inverse (at "reuses" c) _ h5 in
    let (wait_a, e7, h7) = bind_inverse (at "wait_ns" a) _ h6 in
    let (wait_c, e8, h8) = bind_inverse (at "wait_ns" c) _ h7 in
    let first : n ≡ number reuses_a = ap number (ok_injective (sym starts ∙ e5)) in
    let last : m ≡ number reuses_c = ap number (ok_injective (sym ends ∙ e6)) in
    ground (arith, h8, first, last)

pub check_entering-Starts :
    (previous : Option Value) (entering a before : Value) {n m : ℕ}
    → check_entering previous entering a before ≡ ok tt
    → at "pool" entering ≡ ok a
    → Counts a m
    → Starts previous before n
    → m ≡ n
unfolding check_entering
check_entering-Starts none entering a before h pool counts starts =
    at-same_number "reuses" a before
      (require-true (same a before)
        "Initial captured scratch pool differs from the native arm boundary" h)
      counts starts
check_entering-Starts (some previous) entering a before h pool counts (q, there, starts) =
    let equal =
      require-true (same entering previous) "Scratch ownership changed between consecutive passes"
        h in
    let (b, b_there, agree) = at-same "pool" entering previous equal pool in
    let b_is : b ≡ q = ok_injective (sym b_there ∙ there) in
    at-same_number "reuses" a q (ap (same a) (sym b_is) ∙ agree) counts starts

-- What a pass leaves behind, from so many reuses.
abbrev pub Settled : Scope → ℕ → ℕ → Value × Pass → Type 0
Settled scope n index (done, p) = HasReuses done (n + 27) × AreNumbered scope index (p ∷ [])

settle-Settled :
    (scope : Scope) (live before : Value) (index : ℕ) (previous : Option Value)
    (b entering prepared done a c : Value) (n k m : ℕ) {r : Value × Pass}
    → settle scope live before index previous b entering prepared done a c ≡ ok r
    → at "pool" entering ≡ ok a
    → Counts a k
    → at "pool" done ≡ ok c
    → Counts c m
    → Starts previous before n
    → Settled scope n index r
unfolding settle AreNumbered
settle-Settled scope live before index previous b entering prepared done a c n k m {r} h pool_a
      starts_a pool_c ends_c starts =
    let (u1, e1, h1) =
      bind_inverse
        (require (same entering prepared) "Read preparation changed a live scratch arena") _ h in
    let (u2, e2, h2) = bind_inverse (check_work entering done live a c) _ h1 in
    let (u3, e3, h3) = bind_inverse (check_entering previous entering a before) _ h2 in
    let (cycle, e4, h4) = bind_inverse (at "cycle" b) _ h3 in
    let (number_of_batch, e5, h5) = bind_inverse (at "batch" b) _ h4 in
    let (prefix, e6, h6) = bind_inverse (at "active_prefix_bytes" done) _ h5 in
    let more = check_work-Counts entering done live a c {n = k} {m = m} e2 starts_a ends_c in
    let same_start = check_entering-Starts previous entering a before e3 pool_a starts_a starts in
    let total : m ≡ n + 27 = more ∙ ap (λ i. i + 27) same_start in
    let kept = ok_injective h6 in
    rw (← kept) ((c, pool_c, ends_c ∙ ap (λ i. ok (int i)) total), (refl, refl, refl, tt))

check_round-Settled :
    (budget : ℕ) (scope : Scope) (live before : Value) (index : ℕ) (previous : Option Value)
    (b entering prepared done : Value) (n : ℕ) {r : Value × Pass}
    → check_round budget scope live before index previous b entering prepared done ≡ ok r
    → Starts previous before n
    → Settled scope n index r
unfolding check_round
check_round-Settled budget scope live before index previous b entering prepared done n h starts =
    let retained = retained_bytes scope in
    let used = entering_used scope index in
    let active = entering_active scope index in
    let (a, e1, h1) = bind_inverse (scratch_snapshot budget entering retained used active) _ h in
    let (w, e2, h2) = bind_inverse (scratch_snapshot budget prepared retained used active) _ h1 in
    let (c, e3, h3) =
      bind_inverse
        (scratch_snapshot budget done retained (final_used scope index) (final_active scope index))
        _ h2 in
    let (pool_a, (k, starts_a)) = scratch_snapshot_pool budget entering retained used active e1 in
    let (pool_c, (m, ends_c)) =
      scratch_snapshot_pool budget done retained (final_used scope index) (final_active scope index)
        e3 in
    settle-Settled scope live before index previous b entering prepared done a c n k m h3 pool_a
      starts_a pool_c ends_c starts

pub check_batch-Settled :
    (budget : ℕ) (scope : Scope) (live before : Value) (index : ℕ) (previous : Option Value)
    (b : Value) (n : ℕ) {r : Value × Pass}
    → check_batch budget scope live before index previous b ≡ ok r
    → Starts previous before n
    → Settled scope n index r
unfolding check_batch
check_batch-Settled budget scope live before index previous b n h starts =
    let (lifetime, e1, h1) = bind_inverse (get_default "lifetime" (object end) b) _ h in
    let (whole, e2, h2) = bind_inverse (is_set_of stages lifetime) _ h1 in
    let (u3, e3, h3) =
      bind_inverse (require whole "Missing complete scratch lifecycle observations") _ h2 in
    let (entering, e4, h4) = bind_inverse (at "before_preparation" lifetime) _ h3 in
    let (prepared, e5, h5) = bind_inverse (at "after_preparation" lifetime) _ h4 in
    let (done, e6, h6) = bind_inverse (at "after_work" lifetime) _ h5 in
    check_round-Settled budget scope live before index previous b entering prepared done n h6 starts

Starts-at :
    (o : Option Value) (before : Value) {n m : ℕ} → n ≡ m → Starts o before n → Starts o before m
Starts-at o before e v = rw (← e) v

-- What the rounds from an index on leave behind, from so many reuses.
abbrev Chained : Scope → Value → ℕ → ℕ → Option Value × List Pass → Type 0
Chained scope before n index (last, summary) =
    Starts last before (n + 27 * length summary) × AreNumbered scope index summary

check_batches-Chained :
    (budget : ℕ) (scope : Scope) (live before : Value) (index : ℕ) (previous : Option Value)
    (bs : List Value) (n : ℕ) {r : Option Value × List Pass}
    → check_batches budget scope live before index previous bs ≡ ok r
    → Starts previous before n
    → Chained scope before n index r
unfolding check_batches AreNumbered
check_batches-Chained budget scope live before index previous [] n {r} h starts =
    let kept : (previous, []) ≡ r = ok_injective h in
    rw (← kept) (Starts-at previous before (omega arith) starts, tt)
check_batches-Chained budget scope live before index previous (b ∷ bs) n {r} h starts =
    let (round, e1, h1) =
      bind_inverse (check_batch budget scope live before index previous b) _ h in
    let (rest, e2, h2) =
      bind_inverse (check_batches budget scope live before (suc index) (some round.0) bs) _ h1 in
    let (starts_next, first) =
      check_batch-Settled budget scope live before index previous b n e1 starts in
    let (ends, others) =
      check_batches-Chained budget scope live before (suc index) (some round.0) bs (n + 27) e2
        starts_next in
    let kept : (rest.0, round.1 ∷ rest.1) ≡ r = ok_injective h2 in
    rw (← kept) (Starts-at rest.0 before (omega arith) ends, (first.0, first.1, first.2, others))

check_end-Counts :
    (before after : Value) (last : Option Value) (summary : List Pass) (n : ℕ) {m : ℕ}
    → check_end after last summary ≡ ok tt
    → Starts last before (n + 27 * length summary)
    → Counts after m
    → (length summary ≡ 48) × (m ≡ n + 1296)
unfolding check_end
check_end-Counts before after none summary n h starts ends = cc
check_end-Counts before after (some done) summary n {m} h (q, there, starts) ends =
    let message : String = "Scratch trace does not reach the final arm boundary" in
    let (u1, e1, h1) = bind_inverse (require (length summary == passes) message) _ h in
    let (pool, e2, h2) = bind_inverse (at "pool" done) _ h1 in
    let q_is : pool ≡ q = ok_injective (sym e2 ∙ there) in
    let agree = ap (λ x. same x after) (sym q_is) ∙ require-true (same pool after) message h2 in
    let counted = at-same_number "reuses" q after agree starts ends in
    let whole : length summary ≡ 48 = ground (arith, require-true _ message e1) in
    (whole, omega (arith, counted, whole))

-- Where the trace of an arm is accepted, it has 48 passes, numbered in order, each with the buffers
-- and the active slot that the scope says, and the reuses that the arm counts at its end are those
-- at its start and 27 for each pass.
pub trace_arm-AreNumbered :
    (budget : ℕ) (scope : Scope) (live before after sample : Value) (n m : ℕ) {summary : List Pass}
    → trace_arm budget scope live before after sample ≡ ok summary
    → at "reuses" before ≡ ok (int n)
    → at "reuses" after ≡ ok (int m)
    → (length summary ≡ 48) × AreNumbered scope 0 summary × (m ≡ n + 48 * 27)
unfolding trace_arm
trace_arm-AreNumbered budget scope live before after sample n m {summary} h starts ends =
    let (batches, e1, h1) = bind_inverse (at "batches" sample) _ h in
    let (bs, e2, h2) = bind_inverse (iterate batches) _ h1 in
    let (r, e3, h3) = bind_inverse (check_batches budget scope live before 0 none bs) _ h2 in
    let (u4, e4, h4) = bind_inverse (check_end after r.0 r.1) _ h3 in
    let (chained, numbered) =
      check_batches-Chained budget scope live before 0 none bs n e3 starts in
    let (whole, total) = check_end-Counts before after r.0 r.1 n e4 chained ends in
    let kept : r.1 ≡ summary = ok_injective h4 in rw (← kept) (whole, numbered, total)
