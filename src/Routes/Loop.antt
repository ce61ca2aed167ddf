-- ===== src/Routes/Loop.antt =====
-- The loop of `route_segments` in scripts/qwen/cache_simulation.py over the rows, and the coverage
-- that it reports.
use zerocool.Prelude.{
  ℕ, ◌+◌, ◌-◌, Bool, false, not, ◌&&◌, Option, none, some, List, [], ◌∷◌, map, String, nat_eq,
  if◌then◌else◌, ltb, length, Result, ok, ◌>>=◌, ◌>>◌, require, sum_of, sorted_set, take,
}
use zerocool.Json.{Value, str, at, get_key, has_key, is_object, is_text, same}
use zerocool.Routes.Pass.{Pass, Identity, identity_of, pass_of}
use zerocool.Routes.Windows.{
  State, Segment, Barrier, initial, discard, on_pass, demands_of, split_last,
}

-- a source pointer and a row
abbrev pub Row : Type 0
Row = String × Value

-- `identity is not None and identity != current`
abbrev pub differs : Option Identity → Identity → Bool
differs none current = false
differs (some (revision, build)) (revision', build') =
    not (same revision revision' && same build build')

-- `phase is not None and row.get('request_phase') != phase`
unfoldable pub is_filtered : Option String → Value → Result Bool
is_filtered none row = ok false
is_filtered (some phase) row = do
  value ← get_key "request_phase" row
  ok (not (is_text phase value))

-- a row with routes
unfoldable pub on_routes : Bool → String → Value → State → Result State
on_routes explicit pointer row s = do
  current ← identity_of row
  require (not (differs s.identity current))
      "Do not combine artifact revisions or native builds in a cache curve"
  p ← pass_of explicit pointer row
  on_pass explicit p (record s { identity = some current })

abbrev pub skip_filtered : String → State → State
skip_filtered pointer s =
    let s' = discard (str "phase_filter") pointer s in record s' { filtered = s'.filtered + 1 }

abbrev pub skip_missing : String → State → State
skip_missing pointer s =
    let s' = discard (str "missing_routes") pointer s in
    record s' { missing_routes = s'.missing_routes + 1 }

abbrev pub on_boundary : Value → String → State → State
on_boundary reason pointer s =
    let s' = discard reason pointer s in record s' { explicit_events = s'.explicit_events + 1 }

-- a row that is no boundary
unfoldable pub on_recorded : Bool → Option String → String → Value → State → Result State
on_recorded explicit phase pointer row s = do
  skipped ← is_filtered phase row
  if skipped
      then ok (skip_filtered pointer s)
      else if has_key "routes" row
      then on_routes explicit pointer row s
      else ok (skip_missing pointer s)

-- one round
unfoldable pub step : Bool → Option String → Row → State → Result State
step explicit phase (pointer, row) s = do
  require (is_object row) "Route trace entries must be objects"
  if explicit && has_key "cache_boundary" row
      then (do reason ← at "cache_boundary" row; ok (on_boundary reason pointer s))
      else on_recorded explicit phase pointer row s

unfoldable pub run : Bool → Option String → List Row → State → Result State
run explicit phase [] s = ok s
run explicit phase (row ∷ rows) s = do s' ← step explicit phase row s; run explicit phase rows s'

-- a window that is pending behind the last row goes
unfoldable pub finish_pending : List Pass → State → Result State
finish_pending [] s = ok s
finish_pending (p ∷ rest) s = do
  (front, last) ← split_last (p ∷ rest)
  ok (discard (str "incomplete_final_window") last.pointer s)

unfoldable pub finish : State → Result State
finish s = finish_pending s.pending s

-- the counts of the report; the segments there are without their accesses
pub record Coverage : Type 0 where
  pub identity : Option Identity
  pub input_passes : ℕ
  pub explicit_boundary_events : ℕ
  pub included_passes : ℕ
  pub excluded_incomplete_passes : ℕ
  pub missing_route_passes : ℕ
  pub filtered_passes : ℕ
  pub incomplete_windows : ℕ
  pub logical_router_selections : ℕ
  pub demand_record_accesses : ℕ
  pub within_pass_grouped_selections : ℕ
  pub compulsory_misses : ℕ
  pub segment_count : ℕ
  pub cold_starts : ℕ
  pub boundary_count : ℕ
  pub boundaries : List Barrier
  pub boundary_details_truncated : Bool
  pub segments : List Segment
  pub segment_details_truncated : Bool

abbrev pub without_accesses : Segment → Segment
without_accesses g = record g { accesses = []; access_spans = [] }

unfoldable pub coverage_of : ℕ → State → Coverage
coverage_of rows s = record {
  identity = s.identity;
  input_passes = rows - s.explicit_events;
  explicit_boundary_events = s.explicit_events;
  included_passes = s.passes;
  excluded_incomplete_passes = s.excluded;
  missing_route_passes = s.missing_routes;
  filtered_passes = s.filtered;
  incomplete_windows = s.incomplete;
  logical_router_selections = s.logical_routes;
  demand_record_accesses = demands_of s.segments;
  within_pass_grouped_selections = s.logical_routes - demands_of s.segments;
  compulsory_misses = sum_of (λ g. length (sorted_set g.accesses)) s.segments;
  segment_count = length s.segments;
  cold_starts = length s.segments;
  boundary_count = length s.barriers;
  boundaries = take 20 s.barriers;
  boundary_details_truncated = ltb 20 (length s.barriers);
  segments = map without_accesses (take 20 s.segments);
  segment_details_truncated = ltb 20 (length s.segments);
}

unfoldable pub route_segments : List Row → Option String → Bool → Result (List Segment × Coverage)
route_segments rows phase explicit = do
  s ← run explicit phase rows initial
  s' ← finish s
  ok (s'.segments, coverage_of (length rows) s')
