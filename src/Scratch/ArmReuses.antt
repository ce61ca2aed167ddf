-- ===== src/Scratch/ArmReuses.antt =====
-- The states around an arm and its batches, by `lifetime_proof` of
-- scripts/qwen/q4_scratch_lifetime.py.
use zerocool.Prelude.{
  ℕ, ◌+◌, ◌*◌, ◌/◌, ◌≡◌, ap, ◌∙◌, ◌&&◌, none, List, [], ◌∷◌, length, ok, bind_inverse, require,
  ok_injective,
}
use zerocool.Json.{Value, int, find, at, get_key, is_list, iterate, elements, same}
use zerocool.Scratch.Arena.{Scope, Pass, retained_bytes, no_slot}
use zerocool.Scratch.Passes.{check_batches}
use zerocool.Scratch.Lifetime.{two_pools, check_state, check_end, trace_arm}
use zerocool.Scratch.Reuses.{Counts, scratch_snapshot_pool}
use zerocool.Scratch.Chain.{AreNumbered, trace_arm-AreNumbered}
use zerocool.Scratch.Rounds.{BatchesReuse, check_batches-BatchesReuse}

-- the first of the two pools of a state counts so many reuses
abbrev pub StateReuses : Value → ℕ → Type 0
StateReuses state n =
    (pools : Value) × (first : Value) × (second : Value) × (get_key "scratch_pools" state
      ≡ ok pools)
    × (elements pools ≡ first ∷ second ∷ [])
    × Counts first n

-- The batches of an arm, 48 of them, reuse the buffers one behind the other, from the reuses of its
-- state before on to those of its state after.
abbrev pub ArmReuses : Value → Type 0
ArmReuses arm =
    (n : ℕ) × ((before : Value) × (at "metal_before" arm ≡ ok before) × StateReuses before n)
    × ((after : Value) × (at "metal_after" arm ≡ ok after) × StateReuses after (n + 48 * 27))
    × ((sample : Value) × (value : Value) × (bs : List Value) × (at "sample" arm ≡ ok sample)
        × (at "batches" sample ≡ ok value)
        × (iterate value ≡ ok bs)
        × (length bs ≡ 48)
        × BatchesReuse n bs)

two_pools-is :
    (pools : List Value) {r : Value × Value} → two_pools pools ≡ ok r → pools ≡ r.0 ∷ r.1 ∷ []
unfolding two_pools
two_pools-is [] h = cc
two_pools-is (a ∷ []) h = cc
two_pools-is (a ∷ b ∷ []) {r} h = ap (λ q. q.0 ∷ q.1 ∷ []) (ok_injective h)
two_pools-is (a ∷ b ∷ c ∷ pools) h = cc

pub check_state-StateReuses :
    (budget : ℕ) (scope : Scope) (state : Value) {pool : Value}
    → check_state budget scope state ≡ ok pool
    → (n : ℕ) × Counts pool n × StateReuses state n
unfolding check_state at find
check_state-StateReuses budget scope state h =
    let (pools, e1, h1) = bind_inverse (get_key "scratch_pools" state) _ h in
    let (u2, e2, h2) =
      bind_inverse (require (is_list pools) "Unexpected secondary scratch pool") _ h1 in
    let (both, e3, h3) = bind_inverse (two_pools (elements pools)) _ h2 in
    let (allocated, e4, h4) = bind_inverse (get_key "allocated_bytes" both.1) _ h3 in
    let (capacity, e5, h5) = bind_inverse (get_key "capacity_bytes" both.1) _ h4 in
    let (u6, e6, h6) =
      bind_inverse
        (require (same allocated (int 0) && same capacity (int 0))
          "Unexpected secondary scratch pool")
        _ h5 in
    let (slot, e7, h7) = bind_inverse (at "active_scratch_slot" state) _ h6 in
    let (groups, e8, h8) = bind_inverse (at "live_command_groups" state) _ h7 in
    let (live, e9, h9) = bind_inverse (at "live_buffer_bytes" state) _ h8 in
    let retained = retained_bytes scope in
    let (there, (n, counts)) =
      scratch_snapshot_pool budget _ retained (retained / 16384) no_slot h9 in
    let is_first = ok_injective there in
    (
      n,
      counts,
      (
        pools,
        both.0,
        both.1,
        e1,
        two_pools-is (elements pools) e3,
        ap (at "reuses") is_first ∙ counts,
      ),
    )

-- the batches of a traced arm, and its passes
pub trace_arm-BatchesReuse :
    (budget : ℕ) (scope : Scope) (live before after sample : Value) (n m : ℕ) {summary : List Pass}
    → trace_arm budget scope live before after sample ≡ ok summary
    → Counts before n
    → Counts after m
    → ((value : Value) × (bs : List Value) × (at "batches" sample ≡ ok value)
        × (iterate value ≡ ok bs)
        × (length bs ≡ 48)
        × BatchesReuse n bs)
      × (length summary ≡ 48)
      × AreNumbered scope 0 summary
      × (m ≡ n + 48 * 27)
unfolding trace_arm
trace_arm-BatchesReuse budget scope live before after sample n m {summary} h starts ends =
    let (whole, numbered, total) =
      trace_arm-AreNumbered budget scope live before after sample n m h starts ends in
    let (value, e1, h1) = bind_inverse (at "batches" sample) _ h in
    let (bs, e2, h2) = bind_inverse (iterate value) _ h1 in
    let (r, e3, h3) = bind_inverse (check_batches budget scope live before 0 none bs) _ h2 in
    let (u4, e4, h4) = bind_inverse (check_end after r.0 r.1) _ h3 in
    let (reuse, as_many) =
      check_batches-BatchesReuse budget scope live before 0 none bs n e3 starts in
    let kept : r.1 ≡ summary = ok_injective h4 in
    ((value, bs, e1, e2, as_many ∙ ap length kept ∙ whole, reuse), whole, numbered, total)
