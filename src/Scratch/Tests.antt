-- ===== src/Scratch/Tests.antt =====
-- A traced arm of 48 passes that share a batch scratch, and a report without a trace.
use zerocool.Prelude.{
  ℕ, zero, suc, ◌+◌, ◌-◌, ◌*◌, ◌≡◌, refl, true, false, List, [], ◌∷◌, length, ok, ok_of, is_ok,
  String,
}
use zerocool.Json.{
  Value, str, int, list, object, as_items, end, field, find, at, get_key, get_default, is_set_of,
  iterate, are_uint, is_member, are_members, are_hashable, is_truthy, same,
}
use zerocool.Scratch.Arena.{batch, Pass, check_pool, scratch_snapshot, expected, no_slot}
use zerocool.Scratch.Passes.{
  check_entering, check_work, settle, check_round, check_batch, check_batches,
}
use zerocool.Scratch.Lifetime.{
  two_pools, check_state, check_totals, check_end, trace_arm, arm_captures, check_arm, check_arms,
  check_pairs, lifetime_proof, Proof,
}
use zerocool.Scratch.Traced.{PairsTraced, lifetime_proof-PairsTraced}
use zerocool.Scratch.Chain.{AreNumbered, trace_arm-AreNumbered}

-- a pool of 27 buffers, all in use, that counts so many reuses
abbrev pool : ℕ → Value
pool reuses = object (
    field "capacity_bytes" (int 134217728) (
      field "allocated_bytes" (int 442368) (
        field "peak_bytes" (int 442368) (
          field "unused_retained_bytes" (int 0) (
            field "reuses" (int reuses)
              (field "allocation_count" (int 27) (field "wait_ns" (int 3) end)))))))

abbrev snapshot : ℕ → Value
snapshot reuses = object (
    field "active_scratch_slot" no_slot (
      field "live_command_groups" (int 0) (
        field "live_buffer_bytes" (int 9) (
          field "pool" (pool reuses) (
            field "active_prefix_bytes" (int 442368)
              (field "inferred_used_buffers" (int 27) end))))))

abbrev round : ℕ → Value
round index = object (
    field "cycle" (int 0) (
      field "batch" (int index) (
        field "lifetime"
          (object (
            field "before_preparation" (snapshot (5 + index * 27)) (
              field "after_preparation" (snapshot (5 + index * 27))
                (field "after_work" (snapshot (32 + index * 27)) end))))
          end)))

-- the last `n` of the 48 rounds
abbrev rounds : ℕ → List Value
rounds zero = []
rounds (suc n) = round (47 - n) ∷ rounds n

abbrev sample : Value
sample = object (field "batches" (list (as_items (rounds 48))) end)

arm_accepted : is_ok (trace_arm 12884901888 batch (int 9) (pool 5) (pool 1301) sample) ≡ true
unfolding trace_arm check_batches check_batch check_round settle check_work check_entering check_end
    scratch_snapshot check_pool at get_key get_default find is_set_of iterate are_uint is_member
    are_members are_hashable same
arm_accepted = refl

arm_end : (r : List Pass) × (trace_arm 12884901888 batch (int 9) (pool 5) (pool 1301) sample ≡ ok r)
arm_end = ok_of (trace_arm 12884901888 batch (int 9) (pool 5) (pool 1301) sample) arm_accepted

trace_arm-AreNumbered_example :
    (length arm_end.0 ≡ 48) × AreNumbered batch 0 arm_end.0 × (1301 ≡ 5 + 48 * 27)
unfolding at find
trace_arm-AreNumbered_example =
    trace_arm-AreNumbered 12884901888 batch (int 9) (pool 5) (pool 1301) sample 5 1301 arm_end.1
      refl refl

-- a state of the native arm
abbrev native : ℕ → Value
native reuses = object (
    field "scratch_pools"
      (list (
        as_items (
          pool reuses
          ∷ object (field "allocated_bytes" (int 0) (field "capacity_bytes" (int 0) end))
          ∷ [])))
      (field "active_scratch_slot" no_slot
        (field "live_command_groups" (int 0) (field "live_buffer_bytes" (int 9) end))))

-- a report of one arm, in a mode, whose sample has a last field
abbrev report : String → String → Value → Value
report mode last value = object (
    field "scratch_lifetime" (expected batch) (
      field "mode" (str mode) (
        field "pairs"
          (list (
            as_items (
              object (
                field "pair" (int 0) (
                  field "group" (int 2) (
                    field "arms"
                      (list (
                        as_items (
                          object (
                            field "variant" (str "packed-r2") (
                              field "sample"
                                (object (
                                  field "scope_begins" (int 48) (
                                    field "scope_ends" (int 48) (
                                      field "retained_scratch_bytes" (int 442368)
                                        (field last value end)))))
                                (field "metal_before" (native 5)
                                  (field "metal_after" (native 1301) end))))
                          ∷ [])))
                      end)))
              ∷ [])))
          end)))

timing_accepted :
    is_ok (lifetime_proof (λ s. false) 12884901888 (report "timing" "batches" (int 0)) batch) ≡ true
unfolding lifetime_proof check_pairs check_arms check_arm arm_captures check_state check_totals
    two_pools scratch_snapshot check_pool at get_key get_default find iterate are_uint is_truthy
    same
timing_accepted = refl

abbrev traced : Value
traced = report "trace" "batches" (list (as_items (rounds 48)))

traced_accepted : is_ok (lifetime_proof (λ s. false) 12884901888 traced batch) ≡ true
unfolding lifetime_proof check_pairs check_arms check_arm arm_captures check_state check_totals
    two_pools trace_arm check_batches check_batch check_round settle check_work check_entering
    check_end scratch_snapshot check_pool at get_key get_default find is_set_of iterate are_uint
    is_member are_members are_hashable same
traced_accepted = refl

traced_end : (r : Proof) × (lifetime_proof (λ s. false) 12884901888 traced batch ≡ ok r)
traced_end = ok_of (lifetime_proof (λ s. false) 12884901888 traced batch) traced_accepted

traced_mode : at "mode" traced ≡ ok (str "trace")
unfolding at find
traced_mode = refl

lifetime_proof-PairsTraced_example :
    (value : Value) × (pairs : List Value) × (at "pairs" traced ≡ ok value)
    × (iterate value ≡ ok pairs)
    × PairsTraced batch pairs traced_end.0.captures
lifetime_proof-PairsTraced_example =
    lifetime_proof-PairsTraced (λ s. false) 12884901888 traced (str "trace") batch traced_end.1
      traced_mode refl
