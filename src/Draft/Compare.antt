-- ===== src/Draft/Compare.antt =====
-- `compare` of scripts/qwen/perfect_draft.py, of two answers of observe.
use zerocool.Prelude.{
  ℕ, zero, suc, ◌-◌, Bool, true, false, not, ◌&&◌, ◌||◌, Option, none, some, List, [], ◌∷◌, String,
  ◌==◌, nat_eq, if◌then◌else◌, length, Result, ok, raise, key_error, type_error, ◌>>=◌, ◌>>◌,
  require, take, item, all,
}
use zerocool.Dict.{Dict, get, put, lookup_item}
use zerocool.Json.{Value, list, as_items, at, get_key, is_hashable, is_text, same}
use zerocool.Trace.State.{decimal, ◌&◌}

-- an entry of `endpoints`
pub record Endpoint : Type 0 where
  pub consumed : ℕ
  pub state : Value
  pub routes : Value

-- what `compare` reads of an answer
pub record Observed : Type 0 where
  pub width : ℕ
  pub validation : Bool
  pub verified_tokens : ℕ
  pub prime : Value
  pub row_logits : List Value
  pub snapshot_allocated_bytes : ℕ
  pub host_logits_bound_bytes : ℕ
  pub endpoints : List Endpoint
  pub rollback_checks : List Value

abbrev pub same_bool : Bool → Bool → Bool
same_bool true b = b
same_bool false b = not b

abbrev pub same_rows : List Value → List Value → Bool
same_rows xs ys = same (list (as_items xs)) (list (as_items ys))

-- `{p['consumed']: p for p in endpoints}`, behind the entries of a dict
unfoldable pub by_prefix : List Endpoint → Dict ℕ Endpoint → Dict ℕ Endpoint
by_prefix [] d = d
by_prefix (p ∷ ps) d = by_prefix ps (put p.consumed p d)

-- `p == q`
abbrev pub same_endpoint : Endpoint → Endpoint → Bool
same_endpoint p q = p.consumed == q.consumed && same p.state q.state && same p.routes q.routes

abbrev pub matches : Endpoint → Option Endpoint → Bool
matches p none = false
matches p (some q) = same_endpoint p q

-- the keys of `{c['name']: c for c in checks}` are there, and may be keys
unfoldable pub check_names : List Value → Result (Unit {0})
check_names [] = ok tt
check_names (c ∷ cs) = do
  name ← at "name" c
  if is_hashable name then check_names cs else raise type_error

-- the last check of a name
unfoldable pub check_named : String → List Value → Result Value
check_named k [] = raise key_error
check_named k (c ∷ cs) = elim (check_named k cs) [
  | ok d ↦ ok d
  | raise e ↦ do name ← at "name" c; if is_text k name then ok c else raise key_error
]

-- the rounds of the loop over the accepted prefixes, from one on
unfoldable pub check_prefixes : Observed → Dict ℕ Endpoint → List Value → ℕ → ℕ → Result (Unit {0})
check_prefixes reference prefixes checks count zero = ok tt
check_prefixes reference prefixes checks count (suc rounds) = do
  check ← check_named ("accepted_prefix_replay_" & decimal count) checks
  recovered ← get_key "recovery_state" check
  p ← lookup_item count prefixes
  require (same recovered p.state) "Accepted-prefix recovery differs from serial reference"
  logits ← get_key "logits_sha256" check
  row ← item reference.row_logits (count - 1)
  require (same logits row) "Accepted-prefix recovery differs from serial reference"
  check_prefixes reference prefixes checks (suc count) rounds

-- the checks of a validation
unfoldable pub check_validation : Observed → Observed → Dict ℕ Endpoint → Result (Unit {0})
check_validation reference candidate prefixes = do
  check_names candidate.rollback_checks
  zero_accept ← check_named "zero_accept_restores_state" candidate.rollback_checks
  recovered ← get_key "recovery_state" zero_accept
  state ← at "state" reference.prime
  require (same recovered state)
      "Zero acceptance or causal-prefix validation differs from serial reference"
  causal ← check_named "causal_prefix_unchanged" candidate.rollback_checks
  logits ← get_key "logits_sha256" causal
  require (same logits (list (as_items (take (candidate.width - 1) reference.row_logits))))
      "Zero acceptance or causal-prefix validation differs from serial reference"
  check_prefixes reference prefixes candidate.rollback_checks 1 (candidate.width - 1)

-- the width and the number of matched prefixes; the source also says that all is exact
unfoldable pub compare : Observed → Observed → Result (ℕ × ℕ)
compare reference candidate = do
  require
      (reference.width == 1
        && (candidate.width == 2 || candidate.width == 4)
        && same_bool reference.validation candidate.validation
        && reference.verified_tokens == candidate.verified_tokens)
      "Incompatible verifier comparison"
  require
      (same reference.prime candidate.prime
        && same_rows reference.row_logits candidate.row_logits
        && reference.snapshot_allocated_bytes == candidate.snapshot_allocated_bytes
        && reference.host_logits_bound_bytes == candidate.host_logits_bound_bytes)
      "Block verification changed prompt, row logits or reserved allocation"
  let prefixes = by_prefix reference.endpoints []
  require (all (λ p. matches p (get p.consumed prefixes)) candidate.endpoints)
      "Block verification changed persistent state or exact routes"
  if candidate.validation then check_validation reference candidate prefixes else ok tt
  ok (candidate.width, length candidate.endpoints)
