-- ===== src/Simulation/Curve.antt =====
-- `cache_curve` of scripts/qwen/cache_simulation.py, from its parsed source on. The texts of its answer
-- are left out.
use zerocool.Prelude.{
  ℕ, suc, ◌*◌, ◌/◌, ◌%◌, ◌^◌, Bool, true, false, not, ◌&&◌, Option, none, some, List, [], ◌∷◌,
  String, ◌==◌, nat_eq, if◌then◌else◌, leb, length, Result, ok, ◌>>=◌, ◌>>◌, require, sorted_set,
}
use zerocool.Json.{
  Value, null, object, end, at, get_key, has_key, is_list, is_object, elements, same,
}
use zerocool.Json.Numbers.{minus}
use zerocool.Trace.State.{decimal, ◌&◌}
use zerocool.Routes.Pass.{Identity, integer, check_format}
use zerocool.Routes.Windows.{Segment, is_empty, demands_of}
use zerocool.Routes.Loop.{Row, Coverage, route_segments}
use zerocool.Simulation.Counts.{clock, segmented_lru, belady, Counts, counts}

-- `DEFAULT_BUDGETS`
abbrev pub default_budgets : List ℕ
default_budgets = 0 ∷ 1024 ∷ 2048 ∷ 4096 ∷ 6144 ∷ 8192 ∷ []

-- `SLOT_BYTES`
abbrev pub slot_bytes : ℕ
slot_bytes = 2768896

unfoldable pub all_budgets : List Value → Result (List ℕ)
all_budgets [] = ok []
all_budgets (v ∷ vs) = do
  n ← integer v 0 (22 * 1024) "expert cache MiB"
  ns ← all_budgets vs
  ok (n ∷ ns)

unfoldable pub check_budgets : List ℕ → Result (List ℕ)
check_budgets budgets = do
  require (length (sorted_set budgets) == length budgets) "Cache budgets must be distinct"
  ok budgets

-- `budgets`, which are distinct numbers
unfoldable pub read_budgets : Value → Result (List ℕ)
read_budgets null = check_budgets default_budgets
read_budgets v = do
  require (is_list v && leb 1 (length (elements v)) && leb (length (elements v)) 12)
      "Choose 1..12 cache budgets"
  budgets ← all_budgets (elements v)
  check_budgets budgets

-- what the index holds: a profile, lines of routes, or what decode of route_trace.py gives for a trace
pub data Source : Type 0 where
  profile : Value → Source
  lines : List Row → Source
  trace : List Row → Value → Source

-- the records with their pointers, from a place on
unfoldable pub pointed : ℕ → List Value → List Row
pointed i [] = []
pointed i (v ∷ vs) = ("/expert_dependencies/" & decimal i, v) ∷ pointed (suc i) vs

unfoldable pub profile_rows : Value → Result (List Row)
profile_rows data_value = do
  require (is_object data_value) "Select native route JSONL or a profile with expert_dependencies"
  dependencies ← get_key "expert_dependencies" data_value
  require (is_list dependencies) "Select native route JSONL or a profile with expert_dependencies"
  require (leb (length (elements dependencies)) 100000)
      "Cache simulation refuses an oversized pass list"
  check_format data_value
  ok (pointed 0 (elements dependencies))

-- the rows, `data`, and whether there is a committed trace
unfoldable pub open_source : Source → Result (List Row × Value × Bool)
open_source (profile v) = do rows ← profile_rows v; ok (rows, v, false)
open_source (lines rows) = ok (rows, object end, false)
open_source (trace rows identity) = do check_format identity; ok (rows, identity, true)

-- a key of `data` is that of the recorded routes
unfoldable pub check_recorded : String → Value → Value → Result (Unit {0})
check_recorded k v source =
    if has_key k source
    then (do
      w ← at k source
      require (same w v) ("Profile identity differs from recorded routes: " & k))
    else ok tt

unfoldable pub check_identity : Option Identity → Value → Result (Unit {0})
check_identity none source = ok tt
check_identity (some (revision, build)) source = do
  check_recorded "build" build source
  check_recorded "artifact_revision" revision source

-- an entry of `curves`
pub record Curve : Type 0 where
  pub budget_mib : ℕ
  pub budget_bytes : ℕ
  pub slots : ℕ
  pub slot_allocation_bytes : ℕ
  pub unused_budget_bytes : ℕ
  pub policies : List Counts
  pub clock_minus_oracle_read_bytes : Value

unfoldable pub curve_of : List Segment → Bool → ℕ → Result Curve
curve_of segments per_layer mib = do
  let bytes = mib * 1024 ^ 2
  let slots = bytes / slot_bytes
  on_clock ← counts segments slots clock per_layer
  on_segmented ← counts segments slots segmented_lru per_layer
  on_oracle ← counts segments slots belady per_layer
  ok (record {
    budget_mib = mib;
    budget_bytes = bytes;
    slots = slots;
    slot_allocation_bytes = slots * slot_bytes;
    unused_budget_bytes = bytes % slot_bytes;
    policies = on_clock ∷ on_segmented ∷ on_oracle ∷ [];
    clock_minus_oracle_read_bytes =
        minus on_clock.application_miss_bytes on_oracle.application_miss_bytes;
  })

-- the loop over the budgets
unfoldable pub curves_of : List Segment → Bool → List ℕ → Result (List Curve)
curves_of segments per_layer [] = ok []
curves_of segments per_layer (mib ∷ budgets) = do
  c ← curve_of segments per_layer mib
  rest ← curves_of segments per_layer budgets
  ok (c ∷ rest)

-- `curves`: the distinct budgets in order, for a source that has segments
unfoldable pub bounded_curves : List Segment → Bool → List ℕ → Result (List Curve)
bounded_curves segments per_layer budgets = do
  require (leb (demands_of segments * length budgets * 3) 9000000)
      "Cache sweep exceeds bounded policy steps; select fewer budgets or a smaller source"
  if is_empty segments then ok [] else curves_of segments per_layer (sorted_set budgets)

-- the answer
pub record CacheCurve : Type 0 where
  pub is_simulated : Bool
  pub coverage : Coverage
  pub curves : List Curve

unfoldable pub cache_curve : Value → Source → Option String → Bool → Result CacheCurve
cache_curve budget_values source phase per_layer = do
  budgets ← read_budgets budget_values
  (rows, identity, explicit) ← open_source source
  (segments, coverage) ← route_segments rows phase explicit
  check_identity coverage.identity identity
  curves ← bounded_curves segments per_layer budgets
  ok (record { is_simulated = not (is_empty segments); coverage = coverage; curves = curves })
