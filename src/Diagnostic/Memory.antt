-- ===== src/Diagnostic/Memory.antt =====
-- `analyze_memory` of scripts/qwen/request_diagnostic_memory.py.
use zerocool.Prelude.{
  ℕ, ◌+◌, ◌-◌, ◌^◌, max, Bool, not, ◌&&◌, List, [], ◌∷◌, map, String, ◌==◌, nat_eq, string_eq,
  if◌then◌else◌, ltb, leb, length, Result, ok, raise, value_error, ◌>>=◌, ◌>>◌, require, all,
  sorted_set,
}
use zerocool.Json.{Value, str, get_key, is_object, is_list, is_true, elements}
use zerocool.Json.Numbers.{Floats}
use zerocool.Routes.Windows.{is_empty}
use zerocool.Draft.Memory.{Process}
use zerocool.Diagnostic.Observe.{State, Limits, Observation, Change, difference}
use zerocool.Diagnostic.Request.{Phase, on_request}

-- `require(uint(budget_bytes) and ...)`, for arguments that are not negative
unfoldable pub check_limits : Limits → Bool
check_limits limits =
    ltb limits.budget (2 ^ 64)
    && ltb 0 limits.budget
    && ltb limits.compression (2 ^ 64)
    && leb limits.compression limits.budget

-- a name that is a text with characters
unfoldable pub name_of : Value → Result String
name_of row = do
  require (is_object row) "Missing or duplicate request phase names"
  name ← get_key "name" row
  text name
  where
    text : Value → Result String
    text (str s) =
        if s == "" then raise (value_error "Missing or duplicate request phase names") else ok s
    text _ = raise (value_error "Missing or duplicate request phase names")

-- the two requests of a complete report
unfoldable pub two_runs : Value → Result (Value × Value)
two_runs raw = do
  require (is_object raw) "Memory diagnostic requires two complete request phases"
  complete ← get_key "complete" raw
  runs ← get_key "runs" raw
  require (is_true complete && is_list runs)
      "Memory diagnostic requires two complete request phases"
  two (elements runs)
  where
    two : List Value → Result (Value × Value)
    two (a ∷ b ∷ []) = ok (a, b)
    two _ = raise (value_error "Memory diagnostic requires two complete request phases")

-- the answer; what is constant in the source is left out
pub record Report : Type 0 where
  pub reasons : List String
  pub hard_limits_passed : Bool
  pub strict_memory_clean : Bool
  pub observations : List Observation
  pub phases : List Phase
  pub between_requests_process_change : Change
  pub observed_decompressions : ℕ
  pub stable_observed_swap : Bool
  pub maxima : Process

unfoldable pub maxima_of : List Observation → Process
maxima_of [] = record {
  footprint = 0;
  footprint_peak = 0;
  compressed = 0;
  compressed_peak = 0;
  decompressions = 0;
  swap_used = 0;
}
maxima_of (o ∷ os) =
    let p = o.process in
    let rest = maxima_of os in
    record {
      footprint = max p.footprint rest.footprint;
      footprint_peak = max p.footprint_peak rest.footprint_peak;
      compressed = max p.compressed rest.compressed;
      compressed_peak = max p.compressed_peak rest.compressed_peak;
      decompressions = max p.decompressions rest.decompressions;
      swap_used = max p.swap_used rest.swap_used;
    }

abbrev pub uncompressed : Observation → Bool
uncompressed o = o.process.compressed == 0 && o.process.compressed_peak == 0

abbrev pub request_decompressions : Phase → ℕ
request_decompressions f = f.request_after.decompressions - f.request_before.decompressions

-- the sums over both requests; the first observation is that before the first request, and the last
-- one that behind the second
unfoldable pub conclude : Phase → Phase → State → Result Report
conclude a b s = do
  let between = difference a.request_after b.request_before
  let total = b.request_after.decompressions - a.request_before.decompressions
  require
      (request_decompressions a
          + request_decompressions b
          + (b.request_before.decompressions - a.request_after.decompressions)
        == total)
      "Request decompression accounting does not reconcile"
  let stable = length (sorted_set (map (λ o. o.process.swap_used) s.observations)) == 1
  ok (record {
    reasons = s.reasons;
    hard_limits_passed = is_empty s.reasons;
    strict_memory_clean =
        is_empty s.reasons && all uncompressed s.observations && total == 0 && stable;
    observations = s.observations;
    phases = a ∷ b ∷ [];
    between_requests_process_change = between;
    observed_decompressions = total;
    stable_observed_swap = stable;
    maxima = maxima_of s.observations;
  })

unfoldable pub analyze_memory : Floats → Limits → Value → Result Report
analyze_memory floats limits raw = do
  require (check_limits limits) "Invalid diagnostic memory limits"
  (row_a, row_b) ← two_runs raw
  name_a ← name_of row_a
  name_b ← name_of row_b
  require (not (name_a == name_b)) "Missing or duplicate request phase names"
  (a, end_a, s) ←
      on_request floats limits name_a row_a 0 (record { observations = []; reasons = [] })
  (b, end_b, s') ← on_request floats limits name_b row_b end_a s
  conclude a b s'
