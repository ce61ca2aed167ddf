-- ===== src/Capture/Phases.antt =====
-- `validate_phase_memory` of scripts/qwen/benchmark_exact.py.
use zerocool.Prelude.{
  ℕ, suc, ◌+◌, ◌%◌, Bool, true, not, List, [], ◌∷◌, String, ◌==◌, nat_eq, if◌then◌else◌, ltb,
  length, Result, ok, ◌>>=◌, ◌>>◌, require,
}
use zerocool.Json.{
  Value, int, str, object, end, at, get_default, has_key, iterate, is_truthy, is_text, same,
}
use zerocool.Json.Numbers.{◌&?◌, has, check, minus}
use zerocool.Capture.Machine.{Host, is_equal, is_below, agree}

-- What the host does with two values that are not both natural numbers.
pub record Others : Type 0 where
  pub above : Value → Value → Result Bool
  pub minus : Value → Value → Result Value
  pub plus : Value → ℕ → Result Value

-- `v > w`, `v - w` and `v + n`
unfoldable pub value_above : Others → Value → Value → Result Bool
value_above others (int a) (int b) = ok (ltb b a)
value_above others v w = others.above v w

unfoldable pub value_minus : Others → Value → Value → Result Value
value_minus others (int a) (int b) = ok (minus a b)
value_minus others v w = others.minus v w

unfoldable pub value_plus : Others → Value → ℕ → Result Value
value_plus others (int a) n = ok (int (a + n))
value_plus others v n = others.plus v n

-- a plan of a phase is that of the budget
unfoldable pub check_plan : Host → ℕ → Value → String → Result (Unit {0})
check_plan host budget phase name = do
  plan ← at name phase
  check
      ((at "limit_bytes" plan >>= λ v. ok (is_equal host v budget))
        &? is_below host budget "planned_bytes" plan)
      "Phase exceeds budget"

-- a round of the loop over the two boundaries
unfoldable pub check_phase : Host → ℕ → Value → Value → Value → Result (Unit {0})
check_phase host budget policy state phase = do
  check (has "policy" policy phase &? has "phase" (str "generation") phase)
      "Incomplete phase transition"
  check_plan host budget phase "prompt_plan"
  check_plan host budget phase "generation_plan"
  check (agree "memory_plan" state "generation_plan" phase) "Generation allocation changed"

-- `[e for e in transitions if e['sequence'] > count]`
unfoldable pub events_after : Others → Value → List Value → Result (List Value)
events_after others count [] = ok []
events_after others count (e ∷ events) = do
  sequence ← at "sequence" e
  later ← value_above others sequence count
  rest ← events_after others count events
  ok (if later then e ∷ rest else rest)

abbrev pub target : Bool → String
target ingest = if ingest then "prompt_plan" else "generation_plan"

abbrev pub reason : Bool → String
reason ingest = if ingest then "ingest_panel" else "ingest_complete"

-- the transition goes on from the plan before it, to the target
abbrev pub is_declared : Others → Value → Value → ℕ → Bool → Value → Value → Result Bool
is_declared others after count index ingest previous e =
    (at "sequence" e >>= λ v. value_plus others count (index + 1) >>= λ w. ok (same v w))
    &? (at "reason" e >>= λ v. ok (same v (str (reason ingest))))
    &? (at "before" e >>= λ v. ok (same v previous))
    &? agree "after" e (target ingest) after

-- the prompt workspaces are gone behind the transition to the generation plan
unfoldable pub check_scratch : Host → List Value → Result (Unit {0})
check_scratch host [] = ok tt
check_scratch host (p ∷ pools) = do
  allocated ← at "allocated_bytes" p
  require (not (is_truthy (λ s. host.equals s 0) allocated))
      "Prompt workspaces retained after reclamation"
  check_scratch host pools

-- a round of the loop over the transitions; the answer is the plan after it
unfoldable pub on_transition :
    Host → Others → ℕ → Value → Value → ℕ → Bool → Value → Value → Result Value
on_transition host others budget after count index ingest previous e = do
  check (is_declared others after count index ingest previous e) "Undeclared allocation transition"
  check (is_below host budget "live_buffer_bytes" e) "Transition exceeds budget"
  if ingest
      then ok tt
      else (do scratch ← at "scratch_after" e; pools ← iterate scratch; check_scratch host pools)
  at "after" e

-- the loop over the transitions, which go to the prompt plan and back in turns
unfoldable pub on_transitions :
    Host → Others → ℕ → Value → Value → ℕ → Bool → Value → List Value → Result Value
on_transitions host others budget after count index ingest previous [] = ok previous
on_transitions host others budget after count index ingest previous (e ∷ events) = do
  next ← on_transition host others budget after count index ingest previous e
  on_transitions host others budget after count (suc index) (not ingest) next events

-- the transitions of a request that says what it ingested
unfoldable pub check_ingestion : Others → Value → Value → Value → ℕ → Result (Unit {0})
check_ingestion others row config after n =
    if has_key "prefill_tokens" row
    then (do
      plan ← at "prompt_plan" after
      panel ← get_default "panel_tokens" (int 0) plan
      chunk ← get_default "chunk" (int 128) config
      needs ←
          value_above others panel chunk
          &? (at "prefill_tokens" row >>= λ tokens. value_above others tokens chunk)
      require (n == (if needs then 2 else 0)) "Missing or unnecessary ingestion transition")
    else ok tt

-- the transitions between the boundaries
unfoldable pub check_transitions :
    Host → Others → ℕ → Value → Value → Value → Value → Result (Unit {0})
check_transitions host others budget row config before after = do
  check
      (agree "prompt_plan" before "prompt_plan" after
        &? agree "generation_plan" before "generation_plan" after)
      "Declared phase plans changed"
  count ← at "transition_count" before
  value ← at "transitions" after
  transitions ← iterate value
  events ← events_after others count transitions
  total ← at "transition_count" after
  left ← value_minus others total count
  require (same (int (length events)) left) "Missing transition evidence"
  previous ← at "generation_plan" before
  last ← on_transitions host others budget after count 0 true previous events
  require (length events % 2 == 0) "Unfinished memory transition"
  check_ingestion others row config after (length events)

unfoldable pub check_reclaim :
    Host → Others → ℕ → Value → Value → Value → Value → Value → Result (Unit {0})
check_reclaim host others budget row config policy before after = do
  check (ok (is_text "reclaim" policy) &? has "prefill_pipeline" (str "double") config)
      "Invalid phase policy"
  state_before ← at "before" row
  check_phase host budget policy state_before before
  state_after ← at "after" row
  check_phase host budget policy state_after after
  check_transitions host others budget row config before after

-- `validate_phase_memory`
unfoldable pub validate_phase_memory : Host → Others → Value → Value → ℕ → Result (Unit {0})
validate_phase_memory host others row config budget = do
  policy ← get_default "phase_memory" (str "fixed") config
  state_before ← at "before" row
  before ← get_default "phase_memory" (object end) state_before
  state_after ← at "after" row
  after ← get_default "phase_memory" (object end) state_after
  resizes ← get_default "pressure_resizes" (int 0) after
  expected ← get_default "pressure_resizes" (int 0) before
  require (same resizes expected) "Emergency pressure resize invalidates comparison"
  if is_text "fixed" policy
      then (do
        kept ← get_default "policy" (str "fixed") after
        require (is_text "fixed" kept) "Phase policy changed")
      else check_reclaim host others budget row config policy before after
