-- ===== src/Scratch/Passes.antt =====
-- The passes of an arm in `lifetime_proof` of scripts/qwen/q4_scratch_lifetime.py.
use zerocool.Prelude.{
  ℕ, suc, ◌+◌, ◌&&◌, Option, none, some, List, [], ◌∷◌, ◌==◌, nat_eq, leb, Result, ok, ◌>>=◌, ◌>>◌,
  require,
}
use zerocool.Json.{Value, str, object, end, at, get_default, is_set_of, number, same}
use zerocool.Scratch.Arena.{
  Scope, Pass, buffers, retained_bytes, entering_used, entering_active, final_used, final_active,
  scratch_snapshot,
}

-- the ownership at the start of a pass: that behind the last one, or of the arm
unfoldable pub check_entering : Option Value → Value → Value → Value → Result (Unit {0})
check_entering none entering pool before =
    require (same pool before) "Initial captured scratch pool differs from the native arm boundary"
check_entering (some previous) entering pool before =
    require (same entering previous) "Scratch ownership changed between consecutive passes"

-- the work of a pass: no allocation, and as many reuses as it has buffers
unfoldable pub check_work : Value → Value → Value → Value → Value → Result (Unit {0})
check_work entering done live a c = do
  live_entering ← at "live_buffer_bytes" entering
  live_done ← at "live_buffer_bytes" done
  count_a ← at "allocation_count" a
  count_c ← at "allocation_count" c
  reuses_a ← at "reuses" a
  reuses_c ← at "reuses" c
  wait_a ← at "wait_ns" a
  wait_c ← at "wait_ns" c
  require
      (same live_entering live_done
        && same live_done live
        && same count_c count_a
        && number reuses_c == number reuses_a + buffers
        && leb (number wait_a) (number wait_c))
      "Scratch work allocated, released or failed to retain the declared temporaries"

abbrev pub stages : List Value
stages = str "before_preparation" ∷ str "after_preparation" ∷ str "after_work" ∷ []

-- the summary of a pass whose snapshots have the pools `a` and `c`, and what it leaves behind
unfoldable pub settle :
    Scope
    → Value
    → Value
    → ℕ
    → Option Value
    → Value
    → Value
    → Value
    → Value
    → Value
    → Value
    → Result (Value × Pass)
settle scope live before index previous b entering prepared done a c = do
  require (same entering prepared) "Read preparation changed a live scratch arena"
  check_work entering done live a c
  check_entering previous entering a before
  cycle ← at "cycle" b
  number_of_batch ← at "batch" b
  prefix ← at "active_prefix_bytes" done
  ok (
    done,
    record {
      pass_index = index;
      cycle = cycle;
      batch = number_of_batch;
      active_after_work = final_active scope index;
      used_buffers = final_used scope index;
      active_prefix_bytes = prefix;
      retained_bytes = retained_bytes scope;
    },
  )

-- the three observations of a pass
unfoldable pub check_round :
    ℕ
    → Scope
    → Value
    → Value
    → ℕ
    → Option Value
    → Value
    → Value
    → Value
    → Value
    → Result (Value × Pass)
check_round budget scope live before index previous b entering prepared done = do
  let retained = retained_bytes scope
  let used = entering_used scope index
  let active = entering_active scope index
  a ← scratch_snapshot budget entering retained used active
  ignored ← scratch_snapshot budget prepared retained used active
  c ← scratch_snapshot budget done retained (final_used scope index) (final_active scope index)
  settle scope live before index previous b entering prepared done a c

-- a round of the loop over the batches: the state behind it, and its summary
unfoldable pub check_batch :
    ℕ → Scope → Value → Value → ℕ → Option Value → Value → Result (Value × Pass)
check_batch budget scope live before index previous b = do
  lifetime ← get_default "lifetime" (object end) b
  whole ← is_set_of stages lifetime
  require whole "Missing complete scratch lifecycle observations"
  entering ← at "before_preparation" lifetime
  prepared ← at "after_preparation" lifetime
  done ← at "after_work" lifetime
  check_round budget scope live before index previous b entering prepared done

unfoldable pub check_batches :
    ℕ → Scope → Value → Value → ℕ → Option Value → List Value → Result (Option Value × List Pass)
check_batches budget scope live before index previous [] = ok (previous, [])
check_batches budget scope live before index previous (b ∷ bs) = do
  (done, p) ← check_batch budget scope live before index previous b
  (last, summary) ← check_batches budget scope live before (suc index) (some done) bs
  ok (last, p ∷ summary)
