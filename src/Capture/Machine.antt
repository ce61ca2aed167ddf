-- ===== src/Capture/Machine.antt =====
-- `fixed_sampling` of scripts/qwen/benchmark_exact.py and `check_machine` of
-- scripts/qwen/selector_qualification.py.
use zerocool.Prelude.{
  ℕ, ◌*◌, ◌^◌, Bool, false, not, ◌&&◌, Option, none, some, String, ◌==◌, nat_eq, ltb, leb, Result,
  ok, raise, type_error, ◌>>=◌, ◌>>◌, require,
}
use zerocool.Json.{Value, bool, int, negative, float, object, Fields, size, find, at, bit, same}
unfoldable pub use zerocool.Json.Numbers.{size_of}
use zerocool.Json.Numbers.{◌&?◌, check}

-- What the host does with a float, of which the model has the text, and with a file.
pub record Host : Type 0 where
  -- `x == n`
  pub equals : String → ℕ → Bool
  -- `x > n`
  pub exceeds : String → ℕ → Bool
  -- `x-1 == n`
  pub precedes : String → ℕ → Bool
  -- `x in (0.95, native_top_p)`
  pub is_top_p : String → Bool
  -- `json.loads(Path(x).read_text())`
  pub policy : Value → Result Value

-- `v == n`, also for a float
unfoldable pub is_equal : Host → Value → ℕ → Bool
is_equal host (int m) n = m == n
is_equal host (bool b) n = bit b == n
is_equal host (float s) n = host.equals s n
is_equal host _ n = false

-- `v > n`
unfoldable pub is_above : Host → ℕ → Value → Result Bool
is_above host n (int m) = ok (ltb n m)
is_above host n (negative m) = ok false
is_above host n (bool b) = ok (ltb n (bit b))
is_above host n (float s) = ok (host.exceeds s n)
is_above host n _ = raise type_error

abbrev has_equal : Host → String → ℕ → Fields → Bool
has_equal host k n fs = elim (find k fs) [ none ↦ false | some v ↦ is_equal host v n ]

abbrev is_float : (String → Bool) → Option Value → Bool
is_float test (some (float s)) = test s
is_float test _ = false

-- `fixed_sampling`
unfoldable pub fixed_sampling : Host → Value → Bool
fixed_sampling host (object fs) =
    is_float host.is_top_p (find "top_p" fs)
    && size fs == 4
    && has_equal host "temperature" 0 fs
    && has_equal host "top_k" 20 fs
    && has_equal host "seed" 0 fs
fixed_sampling host _ = false

abbrev pub gib : ℕ
gib = 1024 ^ 3

-- `a[j] == b[k]`
unfoldable pub agree : String → Value → String → Value → Result Bool
agree j a k b = do v ← at j a; w ← at k b; ok (same v w)

-- `a[k] <= n`, as the negation of `a[k] > n`
unfoldable pub is_below : Host → ℕ → String → Value → Result Bool
is_below host n k a = do v ← at k a; above ← is_above host n v; ok (not above)

-- the allocation and the process are within the budget
unfoldable pub check_budget : Host → ℕ → Value → Value → Result (Unit {0})
check_budget host budget machine state = do
  plan ← at "memory_plan" state
  check
      ((do limit ← at "limit_bytes" plan; ok (is_equal host limit budget))
        &? is_below host budget "planned_bytes" plan
        &? (do
          process ← at "process" state
          is_below host budget "physical_footprint_bytes" process)
        &? is_below host budget "peak_buffer_bytes" machine)
      "Execution exceeded or reduced the fixed memory budget"

-- `check_machine`
unfoldable pub check_machine : Host → ℕ → Value → Value → Result (Unit {0})
check_machine host budget state evidence = do
  require (ltb 0 budget && leb budget (22 * gib)) "Invalid explicit memory budget"
  machine ← at "metal" state
  check
      (agree "build_fingerprint" machine "build" evidence
        &? agree "device" machine "device" evidence
        &? agree "physical_bytes" machine "physical_bytes" evidence)
      "Execution machine or build differs"
  check
      (agree "artifact_revision" state "artifact_revision" evidence &? (do
        prepared ← at "prepared" state
        agree "manifest_sha256" prepared "prepared_manifest_sha256" evidence))
      "Execution artifact differs"
  check_budget host budget machine state
