-- ===== src/Draft/Execution.antt =====
-- What `observe` of scripts/qwen/perfect_draft.py asks of the rollback checks, and of the counters
-- of a run that is timed.
use zerocool.Prelude.{
  ℕ, zero, suc, ◌-◌, Bool, true, false, not, ◌&&◌, List, [], ◌∷◌, ◌++◌, String, ◌==◌, nat_eq,
  string_eq, if◌then◌else◌, ltb, filter, Result, ok, raise, type_error, ◌>>=◌, ◌>>◌, sum_of, all,
}
use zerocool.Json.{
  Value, int, str, list, nil, as_items, at, get_key, get_default, iterate, is_list, is_true,
  is_uint, are_uint, numbers, elements, is_member, are_hashable, same,
}
use zerocool.Json.Numbers.{◌&?◌, all_of, check, counts, size_of}
use zerocool.Trace.State.{decimal, ◌&◌}
use zerocool.Capture.Machine.{is_equal}
use zerocool.Capture.Phases.{value_above, value_minus}
use zerocool.Draft.Probe.{Probe}

-- `[d.get(k) for d in ds]`
unfoldable pub get_each : String → List Value → Result (List Value)
get_each k [] = ok []
get_each k (d ∷ ds) = do v ← get_key k d; rest ← get_each k ds; ok (v ∷ rest)

-- `[f'accepted_prefix_replay_{k}' for k in range(1, width)]`, from `k` on
unfoldable pub replay_names : ℕ → ℕ → List Value
replay_names k zero = []
replay_names k (suc n) = str ("accepted_prefix_replay_" & decimal k) ∷ replay_names (suc k) n

-- `expected_checks`
unfoldable pub expected_checks : Bool → ℕ → List Value
expected_checks validation width =
    if validation && ltb 1 width
    then str "causal_prefix_unchanged"
      ∷ str "zero_accept_restores_state"
      ∷ replay_names 1 (width - 1)
    else []

unfoldable pub check_rollback : Value → Bool → ℕ → Result (Unit {0})
check_rollback raw validation width =
    check
      (counts is_list "rollback_checks" raw
        &? (do
          checks ← at "rollback_checks" raw
          names ← get_each "name" (elements checks)
          ok (same (list (as_items names)) (list (as_items (expected_checks validation width)))))
        &? (do
          checks ← at "rollback_checks" raw
          all_of (counts is_true "passed") (elements checks)))
      "Missing, duplicate or failed rollback checks"

abbrev pub native_counters : List String
native_counters = "dispatches" ∷ "submissions" ∷ "gpu_command_ns" ∷ []

-- `all(b[k] > a[k] for k in ks)`
unfoldable pub all_grow : Probe → Value → Value → List String → Result Bool
all_grow probe a b [] = ok true
all_grow probe a b (k ∷ ks) = do
  later ← at k b
  earlier ← at k a
  grew ← value_above probe.others later earlier
  if grew then all_grow probe a b ks else ok false

unfoldable pub check_counters : Probe → Value → Value → Result (Unit {0})
check_counters probe a b =
    check
      (are_uint native_counters a
        &? are_uint native_counters b
        &? all_grow probe a b native_counters)
      "Missing native execution counters"

-- `b.get(k, 0)-a.get(k, 0)`; a key that is not a text is that of a value without `get`
unfoldable pub change_at : Probe → Value → Value → Value → Result Value
change_at probe a b (str k) = do
  later ← get_default k (int 0) b
  earlier ← get_default k (int 0) a
  value_minus probe.others later earlier
change_at probe a b _ = raise type_error

unfoldable pub changes_at : Probe → Value → Value → List Value → Result (List Value)
changes_at probe a b [] = ok []
changes_at probe a b (k ∷ ks) = do
  v ← change_at probe a b k
  rest ← changes_at probe a b ks
  ok (v ∷ rest)

-- `set(v)`
unfoldable pub key_set : Value → Result (List Value)
key_set v = do ks ← iterate v; if are_hashable ks then ok ks else raise type_error

-- the dispatches of the kernels make up all dispatches
unfoldable pub check_dispatches : Probe → Value → Value → Result (Unit {0})
check_dispatches probe a b = do
  kernels_a ← at "kernel_dispatches" a
  of_a ← key_set kernels_a
  kernels_b ← at "kernel_dispatches" b
  of_b ← key_set kernels_b
  delta ← changes_at probe kernels_a kernels_b (of_a ++ filter (λ k. not (is_member k of_a)) of_b)
  check
      (ok (all is_uint delta) &? (do
        later ← at "dispatches" b
        earlier ← at "dispatches" a
        total ← value_minus probe.others later earlier
        ok (same (int (sum_of (λ n. n) (numbers delta))) total)))
      "Native dispatch population does not reconcile"

-- `all(b-a == n for a, b in zip(before, after))`
unfoldable pub all_differ_by : Probe → ℕ → List Value → List Value → Result Bool
all_differ_by probe n (a ∷ before) (b ∷ after) = do
  d ← value_minus probe.others b a
  if is_equal probe.host d n then all_differ_by probe n before after else ok false
all_differ_by probe n _ _ = ok true

-- `len(d.get('layer_expert_passes', []))`
abbrev pub layer_count : Value → Result ℕ
layer_count d = do v ← get_default "layer_expert_passes" (list nil) d; size_of v

-- a pass is one of the blocks' kind at the width
unfoldable pub is_scheduled : Probe → Value → Value → ℕ → ℕ → String → Result Bool
is_scheduled probe before after width rounds name = do
  passes_after ← at "passes" after
  later ← at name passes_after
  passes_before ← at "passes" before
  earlier ← at name passes_before
  d ← value_minus probe.others later earlier
  let planned : String = if width == 1 then "decode" else "short_append"
  ok (is_equal probe.host d (if name == planned then rounds else 0))

unfoldable pub check_passes : Probe → Value → Value → ℕ → ℕ → Result (Unit {0})
check_passes probe before after width rounds =
    check
      ((do n ← layer_count before; m ← layer_count after; ok (n == m && m == 48))
        &? (do
          layers_before ← at "layer_expert_passes" before
          layers_after ← at "layer_expert_passes" after
          earlier ← iterate layers_before
          later ← iterate layers_after
          all_differ_by probe rounds earlier later)
        &? all_of (is_scheduled probe before after width rounds)
            ("decode" ∷ "short_append" ∷ "prefill" ∷ "panel" ∷ []))
      "Missing full-layer forward coverage or unplanned schedule work"

-- what a run that is timed has executed
unfoldable pub check_execution : Probe → Value → ℕ → ℕ → Result (Unit {0})
check_execution probe raw width rounds = do
  before ← at "before" raw
  after ← at "after" raw
  a ← at "metal" before
  b ← at "metal" after
  check_counters probe a b
  check_dispatches probe a b
  check_passes probe before after width rounds
