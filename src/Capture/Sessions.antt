-- ===== src/Capture/Sessions.antt =====
-- `compare` and `check_prime` of scripts/qwen/qualify_exact_sessions.py.
use zerocool.Prelude.{
  ℕ, Bool, not, ◌&&◌, Option, none, some, List, [], ◌∷◌, String, ◌==◌, nat_eq, Result, ok, raise,
  value_error, ◌>>=◌, ◌>>◌, require,
}
use zerocool.Json.{
  Value, str, list, nil, at, get_key, get_default, iterate, is_object, is_text, is_true, is_truthy,
  same,
}
use zerocool.Json.Numbers.{◌&?◌, has, check}
use zerocool.Capture.Machine.{Host, size_of, is_equal, agree}
use zerocool.Capture.Configuration.{check_configuration}

module _ (host : Host) where
  -- `bool(v)`
  abbrev pub truth : Value → Bool
  truth v = is_truthy (λ s. host.equals s 0) v

  -- `d[k]` as a truth, and `d[k] == n`
  unfoldable pub truth_at : String → Value → Result Bool
  truth_at k d = do v ← at k d; ok (truth v)

  unfoldable pub equal_at : String → ℕ → Value → Result Bool
  equal_at k n d = do v ← at k d; ok (is_equal host v n)

  -- the negation of a test that may raise
  abbrev pub negate : Result Bool → Result Bool
  negate m = m >>= λ b. ok (not b)

  -- `configs`
  unfoldable pub config_of : Option Value → Value → Result Value
  config_of none report = get_key "case" report
  config_of (some config) report = ok config

  -- the loop over the runs of a report, with both of their states
  unfoldable pub check_rows : Value → List Value → Result (Unit {0})
  check_rows config [] = ok tt
  check_rows config (row ∷ rows) = do
    continued ← at "continued_statistics" row
    check_configuration host continued config
    fresh ← at "after_fresh" row
    check_configuration host fresh config
    check_rows config rows

  unfoldable pub check_report : Value → Value → Result (Unit {0})
  check_report report config = do
    recorded ← get_key "case" report
    require (same recorded config) "Session case differs from requested configuration"
    runs ← get_default "runs" (list nil) report
    rows ← iterate runs
    check_rows config rows

  abbrev pub passed : Value → Result Bool
  passed report = get_key "passed" report >>= λ v. ok (truth v)

  -- the stages have all their layers and routes
  unfoldable pub check_stages : List Value → Result (Unit {0})
  check_stages [] = ok tt
  check_stages (stage ∷ stages) = do
    check
        ((at "layers" stage >>= size_of >>= λ n. ok (n == 48))
          &? (at "routes" stage >>= size_of >>= λ n. ok (n == 48)))
        "Incomplete layer or route proof"
    check_stages stages

  unfoldable pub check_run : Value → Value → Result (Unit {0})
  check_run build r = do
    s ← at "continued_statistics" r
    check
        ((do
          metal ← at "metal" s
          fingerprint ← at "build_fingerprint" metal
          ok (same fingerprint build))
          &? negate (truth_at "diagnostic_stream_trunk" s)
          &? (do plan ← at "memory_plan" s; agree "panel_tokens" plan "panel" r))
        "Wrong build, diagnostic execution, or reduced panel"
    value ← at "stages" r
    stages ← iterate value
    check_stages stages

  unfoldable pub check_pairs : Value → List Value → List Value → Result (Unit {0})
  check_pairs build (a ∷ rest) (b ∷ others) = do
    check (agree "panel" a "panel" b &? agree "stages" a "stages" b)
        "Changed logits, route identities, or persistent state"
    check_run build a
    check_run build b
    check_pairs build rest others
  check_pairs build _ _ = ok tt

  -- `compare`, which returns True or raises
  unfoldable pub compare : Value → Value → Value → Option Value → Option Value → Result (Unit {0})
  compare reference candidate build reference_config candidate_config = do
    first ← config_of reference_config reference
    second ← config_of candidate_config candidate
    require (is_object first && is_object second) "Missing requested session configurations"
    check
        ((do
          policy ← get_default "kernel_policy" (str "reference") first
          ok (is_text "reference" policy))
          &? has "kernel_policy" (str "candidate") second)
        "Requires original reference and explicit candidate configurations"
    check_report reference first
    check_report candidate second
    check (passed reference &? passed candidate) "State/failure harness failed"
    runs ← at "runs" reference
    check
        (ok (truth runs)
          &? (do n ← size_of runs; others ← at "runs" candidate; m ← size_of others; ok (n == m)))
        "Different or missing admitted panel coverage"
    rows ← iterate runs
    others ← at "runs" candidate
    candidates ← iterate others
    check_pairs build rows candidates

  -- the three runs of a report
  unfoldable pub three : List Value → Result (Value × Value × Value)
  three (a ∷ b ∷ c ∷ []) = ok (a, b, c)
  three _ = raise (value_error "not enough values to unpack")

  unfoldable pub check_builds : Value → List Value → Result (Unit {0})
  check_builds build [] = ok tt
  check_builds build (row ∷ rows) = do
    after ← at "after" row
    check
        ((do
          metal ← at "metal" after
          fingerprint ← at "build_fingerprint" metal
          ok (same fingerprint build))
          &? negate (truth_at "diagnostic_stream_trunk" after))
        "Wrong build or diagnostic Session execution"
    check_builds build rows

  -- `check_prime`
  unfoldable pub check_prime : Value → Value → ℕ → ℕ → Result Value
  check_prime report build prefix append = do
    check
        ((do complete ← get_key "complete" report; ok (is_true complete))
          &? (do runs ← get_default "runs" (list nil) report; n ← size_of runs; ok (n == 3)))
        "Incomplete prime/append check"
    value ← at "runs" report
    runs ← iterate value
    (prime, continued, fresh) ← three runs
    check
        ((do reason ← at "finish_reason" prime; ok (is_text "primed" reason))
          &? negate (truth_at "output_tokens" prime)
          &? equal_at "prompt_tokens" prefix prime)
        "Priming sampled a token or ingested the wrong prefix"
    check
        (equal_at "reused_tokens" prefix continued
          &? equal_at "prefill_tokens" append continued
          &? negate (truth_at "pending_tokens_ingested" continued))
        "Append included unrequested work or failed to retain the prime"
    check
        (negate (truth_at "reused_tokens" fresh)
          &? agree "output_token_ids" continued "output_token_ids" fresh
          &? equal_at "output_tokens" 2 continued)
        "Primed continuation differs from fresh replay"
    check_builds build runs
    at "output_token_ids" continued
