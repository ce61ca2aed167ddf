-- ===== src/Draft/Tests.antt =====
-- A clean report of memory, and a state of 48 layers behind the prompt.
use zerocool.Prelude.{
  item, String, ℕ, zero, suc, ◌-◌, ◌*◌, ◌^◌, ◌≤◌, ◌≡◌, refl, true, List, [], ◌∷◌, replicate, ok,
  all, sorted_set, insert_number, take, drop,
}
use zerocool.Dict.{get, put, lookup_item}
use zerocool.Trace.State.{digits}
use zerocool.Json.{
  Value, null, bool, int, str, list, object, as_items, end, field, find, at, get_key, get_default,
  iterate, are_uint, same, is_set_of, is_member, are_members, are_hashable,
}
use zerocool.Draft.Work.{Work, valid_sha256, ids, valid_work}
use zerocool.Draft.Memory.{
  Memory, observed, block_values, processes, process_of, largest, memory_observation,
}
use zerocool.Draft.State.{
  is_buffer, are_buffers, bytes_of, all_bytes, expected_bytes, check_layer, check_layers,
  check_state,
}
use zerocool.Draft.Held.{Each, ReportHeld}
use zerocool.Draft.Bounds.{memory_observation-is_clean}
use zerocool.Draft.Compare.{
  Observed, by_prefix, same_rows, check_names, check_named, check_prefixes, check_validation,
  compare,
}
use zerocool.Draft.Prefixes.{AreMatched, compare-AreMatched}
use zerocool.Draft.Sizes.{state_size, check_state-size}

abbrev pub process : ℕ → Value
process footprint = object (
    field "physical_footprint_bytes" (int footprint) (
      field "physical_footprint_peak_bytes" (int 4096) (
        field "compressed_bytes" (int 0) (
          field "compressed_peak_bytes" (int 0)
            (field "decompressions" (int 3) (field "system_swap_used_bytes" (int 7) end))))))

abbrev memory : Value
memory = object (
    field "before" (object (field "process" (process 1024) end)) (
      field "blocks"
        (list (
          as_items (
            object (field "memory_before" (process 2048) (field "memory_after" (process 4096) end))
            ∷ [])))
        (field "after" (object (field "process" (process 4096) end))
          (field "process_after_destroy" (process 512) end))))

abbrev observation : Memory
observation = record {
  clean_memory = true;
  peak_physical_bytes = 4096;
  peak_compressed_bytes = 0;
  swap_observations_bytes = replicate 5 7;
}

memory_accepted : memory_observation memory ≡ ok observation
unfolding memory_observation observed block_values processes process_of largest all sorted_set
    insert_number at get_key find iterate are_uint
memory_accepted = refl

memory_observation-is_clean_example :
    (observation.peak_physical_bytes ≤ 12 * 1024 ^ 3)
    × (observation.peak_compressed_bytes ≡ 0)
    × ((n : ℕ) × Each n observation.swap_observations_bytes
        × ReportHeld observation.peak_physical_bytes n memory)
memory_observation-is_clean_example =
    memory_observation-is_clean memory {m = observation} memory_accepted refl

abbrev pub hash : Value
hash = str "0123456789abcdef0123456789abcdef0123456789abcdef0123456789abcdef"

-- a buffer of so many bytes, or none
abbrev pub buffer : Value → Value
buffer null = null
buffer bytes = object (field "bytes" bytes (field "sha256" hash end))

abbrev pub buffers : List Value → List Value
buffers [] = []
buffers (b ∷ bs) = buffer b ∷ buffers bs

-- the last `n` layers, at a position
abbrev pub layers : ℕ → ℕ → List Value
layers position zero = []
layers position (suc n) =
    object (
      field "position" (int position)
        (field "buffers" (list (as_items (buffers (expected_bytes (47 - n))))) end))
    ∷ layers position n

-- the state behind so many tokens, the last two of which are given
abbrev pub state_at : ℕ → ℕ → Value
state_at position token = object (
    field "artifact_revision" (str "r") (
      field "valid" (bool true) (
        field "tokens" (int position) (
          field "history" (list (as_items (int token ∷ int token ∷ [])))
            (field "layers" (list (as_items (layers position 48))) end)))))

abbrev state : Value
state = state_at 72 5

abbrev work : Work
work = record {
  prompt_ids = replicate 72 5;
  continuation_ids = replicate 16 6;
  expected_next_ids = replicate 16 6;
  expected_prompt_id = 6;
}

state_accepted : check_state state work 0 (str "r") ≡ ok tt
unfolding check_state check_layers check_layer are_buffers is_buffer all_bytes bytes_of
    expected_bytes valid_sha256 at get_key get_default find iterate same take drop
state_accepted = refl

check_state-size_example : state_size state ≡ 571023360
check_state-size_example = check_state-size state work 0 (str "r") state_accepted

abbrev pub tokens : ℕ → ℕ → Value
tokens n token = list (as_items (replicate n (int token)))

abbrev pub recorded_work : Value
recorded_work = object (
    field "prompt_ids" (tokens 72 5) (
      field "continuation_ids" (tokens 16 6)
        (field "expected_next_ids" (tokens 16 6) (field "expected_prompt_id" (int 6) end))))

work_accepted : valid_work recorded_work ≡ ok work
unfolding valid_work ids at find iterate is_set_of is_member are_members are_hashable same all take
work_accepted = refl

-- an answer at a width whose only checks are those of a validation
abbrev answer : ℕ → List Value → Observed
answer width checks = record {
  width = width;
  validation = true;
  verified_tokens = 4;
  prime = object (field "state" (str "s") end);
  row_logits = str "a" ∷ str "b" ∷ str "c" ∷ str "d" ∷ [];
  snapshot_allocated_bytes = 1;
  host_logits_bound_bytes = 2;
  endpoints =
      record { consumed = 1; state = str "s1"; routes = str "r1" }
      ∷ record { consumed = 2; state = str "s2"; routes = str "r2" }
      ∷ [];
  rollback_checks = checks;
}

abbrev check : String → Value → Value → Value
check name recovered logits =
    object (
      field "name" (str name) (field "recovery_state" recovered (field "logits_sha256" logits end)))

abbrev candidate : Observed
candidate = answer 2 (
    check "causal_prefix_unchanged" null (list (as_items (str "a" ∷ [])))
    ∷ check "zero_accept_restores_state" (str "s") null
    ∷ check "accepted_prefix_replay_1" (str "s1") (str "a")
    ∷ [])

compare_accepted : compare (answer 1 []) candidate ≡ ok (2, 2)
unfolding compare check_validation check_prefixes check_names check_named by_prefix get put
    lookup_item at get_key find same take item all digits
compare_accepted = refl

compare-AreMatched_example :
    AreMatched (answer 1 []).endpoints candidate.endpoints
    × (same_rows (answer 1 []).row_logits candidate.row_logits ≡ true)
compare-AreMatched_example =
    compare-AreMatched (answer 1 []) candidate {r = (2, 2)} compare_accepted
