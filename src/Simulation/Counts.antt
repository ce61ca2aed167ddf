-- ===== src/Simulation/Counts.antt =====
-- `counts` of scripts/qwen/cache_simulation.py: the segments of a trace on one policy at one
-- capacity. The fractions of hits, which are floats, are left out.
pub mod Accesses
pub mod Serves
pub mod Ends
pub mod Recorded
mod Tests
use zerocool.Prelude.{
  ℕ, ◌+◌, ◌*◌, ◌/◌, Bool, true, false, ◌&&◌, Option, none, some, List, [], ◌∷◌, if◌then◌else◌, leb,
  replicate, Result, ok, raise, index_error, ◌>>=◌, item, store, sum_of,
}
use zerocool.Json.{Value, same}
use zerocool.Routes.Pass.{layers, experts}
use zerocool.Routes.Windows.{Segment, Span, is_empty}
use zerocool.Simulation.Clock
use zerocool.Simulation.Segmented
use zerocool.Simulation.Belady

abbrev pub payload_bytes : ℕ
payload_bytes = 2764800

pub data Policy : Type 0 where
  clock segmented_lru belady : Policy

-- an entry of `request_phases`
pub record PhaseCount : Type 0 where
  pub request_id : Value
  pub phase : Value
  pub hits : ℕ
  pub misses : ℕ

-- `hits`, `misses` and `request_phases`
pub record Tally : Type 0 where
  pub hits : List ℕ
  pub misses : List ℕ
  pub phases : List PhaseCount

abbrev pub empty_tally : Tally
empty_tally = record { hits = replicate layers 0; misses = replicate layers 0; phases = [] }

-- `bucket[i] += 1`
unfoldable pub bump : List ℕ → ℕ → Result (List ℕ)
bump bucket i = do n ← item bucket i; store bucket i (n + 1)

-- `while position >= spans[span_index]['end']: span_index += 1`, on the spans from the index on
unfoldable pub skip_spans : ℕ → List Span → Result (List Span)
skip_spans position [] = raise index_error
skip_spans position (span ∷ spans) =
    let later = skip_spans position spans in
    if leb span.end position then later else ok (span ∷ spans)

abbrev pub count_hit : Bool → PhaseCount → PhaseCount
count_hit true p = record p { hits = p.hits + 1 }
count_hit false p = record p { misses = p.misses + 1 }

-- `request_phases.setdefault(...)`, and the count of an access there
unfoldable pub count_phase : Bool → Span → List PhaseCount → List PhaseCount
count_phase hit span [] =
    count_hit hit
      (record { request_id = span.request_id; phase = span.phase; hits = 0; misses = 0 })
    ∷ []
count_phase hit span (p ∷ phases) =
    let later = count_phase hit span phases in
    if same p.request_id span.request_id && same p.phase span.phase
    then count_hit hit p ∷ phases
    else p ∷ later

unfoldable pub first_span : List Span → Result Span
first_span [] = raise index_error
first_span (span ∷ spans) = ok span

-- the counts of an access: its layer's, and its phase's where the segment has spans
unfoldable pub count_layer : Bool → ℕ → Tally → Result Tally
count_layer true key t = do hits ← bump t.hits (key / experts); ok (record t { hits = hits })
count_layer false key t = do
  misses ← bump t.misses (key / experts)
  ok (record t { misses = misses })

unfoldable pub count_span : Bool → Bool → ℕ → List Span → Tally → Result (List Span × Tally)
count_span false hit position spans t = ok (spans, t)
count_span true hit position spans t = do
  rest ← skip_spans position spans
  span ← first_span rest
  ok (rest, record t { phases = count_phase hit span t.phases })

-- the loop over the accesses of a segment from a position on
module _ {S : Type 0} (access : ℕ → ℕ → S → Result (S × Bool)) (spanned : Bool) where
  unfoldable pub replay : List ℕ → ℕ → S → List Span → Tally → Result Tally
  replay [] position cache spans t = ok t
  replay (key ∷ keys) position cache spans t = do
    (cache', hit) ← access key position cache
    t1 ← count_layer hit key t
    (rest, t2) ← count_span spanned hit position spans t1
    replay keys (position + 1) cache' rest t2

abbrev pub access_clock : ℕ → ℕ → Clock.Clock → Result (Clock.Clock × Bool)
access_clock key position = Clock.access key

abbrev pub access_segmented : ℕ → ℕ → Segmented.Segmented → Result (Segmented.Segmented × Bool)
access_segmented key position = Segmented.access key

abbrev pub is_spanned : Segment → Bool
is_spanned g = if is_empty g.access_spans then false else true

-- a segment, on a cache that is empty at first
unfoldable pub count_segment : ℕ → Policy → Segment → Tally → Result Tally
count_segment capacity belady g t =
    replay Belady.access (is_spanned g) g.accesses 0 (Belady.belady capacity g.accesses)
      g.access_spans t
count_segment capacity clock g t =
    replay access_clock (is_spanned g) g.accesses 0 (Clock.clock capacity) g.access_spans t
count_segment capacity segmented_lru g t =
    replay access_segmented (is_spanned g) g.accesses 0 (Segmented.segmented capacity)
      g.access_spans t

unfoldable pub count_segments : ℕ → Policy → List Segment → Tally → Result Tally
count_segments capacity policy [] t = ok t
count_segments capacity policy (g ∷ segments) t = do
  t' ← count_segment capacity policy g t
  count_segments capacity policy segments t'

-- `answer`
pub record Counts : Type 0 where
  pub policy : Policy
  pub demands : ℕ
  pub hits : ℕ
  pub misses : ℕ
  pub application_miss_bytes : ℕ
  pub request_phases : List PhaseCount
  pub layers : Option (List ℕ × List ℕ)

-- the counts by layer go into the answer on demand
unfoldable pub answer : Policy → Bool → Tally → Counts
answer policy per_layer t = record {
  policy = policy;
  demands = sum_of (λ n. n) t.hits + sum_of (λ n. n) t.misses;
  hits = sum_of (λ n. n) t.hits;
  misses = sum_of (λ n. n) t.misses;
  application_miss_bytes = sum_of (λ n. n) t.misses * payload_bytes;
  request_phases = t.phases;
  layers = if per_layer then some (t.hits, t.misses) else none;
}

unfoldable pub counts : List Segment → ℕ → Policy → Bool → Result Counts
counts segments capacity policy per_layer = do
  t ← count_segments capacity policy segments empty_tally
  ok (answer policy per_layer t)
