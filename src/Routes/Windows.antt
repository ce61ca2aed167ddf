-- ===== src/Routes/Windows.antt =====
-- The local variables of `route_segments` in scripts/qwen/cache_simulation.py, and what it does with
-- a pass: windows of all layers, which extend a segment or begin one.
use zerocool.Prelude.{
  ℕ, ◌+◌, ◌*◌, Bool, true, false, not, ◌&&◌, ◌||◌, Option, none, List, [], ◌∷◌, ◌++◌, String, ◌==◌,
  nat_eq, if◌then◌else◌, ltb, length, Result, ok, raise, index_error, ◌>>=◌, ◌>>◌, require, sum_of,
}
use zerocool.Json.{Value, str, same}
use zerocool.Routes.Pass.{Pass, Identity, layers, top_k, max_accesses}

-- an entry of `access_spans`
pub record Span : Type 0 where
  pub start : ℕ
  pub end : ℕ
  pub request_id : Value
  pub phase : Value

-- an entry of `segments`; `phases` and `access_spans` stay empty without explicit boundaries, where
-- the source has no such keys
pub record Segment : Type 0 where
  pub start_offset : ℕ
  pub end_offset : ℕ
  pub phase : Value
  pub session_id : Value
  pub first_source_pointer : String
  pub last_source_pointer : String
  pub windows : ℕ
  pub single_token_windows : ℕ
  pub accesses : List ℕ
  pub phases : List Value
  pub access_spans : List Span

-- an entry of `barriers`
pub record Barrier : Type 0 where
  pub reason : Value
  pub source_pointer : String

pub record State : Type 0 where
  pub segments : List Segment
  pub pending : List Pass
  pub identity : Option Identity
  pub excluded : ℕ
  pub missing_routes : ℕ
  pub filtered : ℕ
  pub incomplete : ℕ
  pub explicit_events : ℕ
  pub logical_routes : ℕ
  pub passes : ℕ
  pub barriers : List Barrier
  pub can_continue : Bool

abbrev pub initial : State
initial = record {
  segments = [];
  pending = [];
  identity = none;
  excluded = 0;
  missing_routes = 0;
  filtered = 0;
  incomplete = 0;
  explicit_events = 0;
  logical_routes = 0;
  passes = 0;
  barriers = [];
  can_continue = false;
}

abbrev pub barrier : Value → String → Barrier
barrier reason pointer = record { reason = reason; source_pointer = pointer }

-- `if pending`
abbrev pub is_empty {ℓ} : {A : Type ℓ} → List A → Bool
is_empty [] = true
is_empty (x ∷ xs) = false

unfoldable pub discard : Value → String → State → State
discard reason pointer s = record s {
  excluded = if is_empty s.pending then s.excluded else s.excluded + length s.pending;
  incomplete = if is_empty s.pending then s.incomplete else s.incomplete + 1;
  pending = [];
  can_continue = false;
  barriers = s.barriers ++ barrier reason pointer ∷ [];
}

-- the list without its last element, and that: `xs[-1]`
unfoldable pub split_last {ℓ} : {A : Type ℓ} → List A → Result (List A × A)
split_last [] = raise index_error
split_last (x ∷ []) = ok ([], x)
split_last (x ∷ y ∷ xs) = do (front, last) ← split_last (y ∷ xs); ok (x ∷ front, last)

-- the pass belongs to the window of which `first` is the first pass
abbrev pub same_window : Pass → Pass → Bool
same_window p first =
    p.offset == first.offset
    && p.tokens == first.tokens
    && same p.phase first.phase
    && same p.session first.session
    && same p.request_id first.request_id

-- `pending and (layer != len(pending) or ...)`
abbrev pub is_discontinuous : Pass → List Pass → Bool
is_discontinuous p [] = false
is_discontinuous p (first ∷ rest) =
    not (p.layer == length (first ∷ rest)) || not (same_window p first)

-- the segment goes on at the window
abbrev pub continues : Bool → Segment → Pass → Pass → Bool
continues explicit g first p =
    g.end_offset == p.offset
    && (explicit || same g.phase first.phase)
    && same g.session_id first.session

abbrev pub new_segment : Pass → Pass → Segment
new_segment first p = record {
  start_offset = p.offset;
  end_offset = p.offset;
  phase = first.phase;
  session_id = first.session;
  first_source_pointer = first.pointer;
  last_source_pointer = p.pointer;
  windows = 0;
  single_token_windows = 0;
  accesses = [];
  phases = [];
  access_spans = [];
}

-- `phase in phases`
unfoldable pub has_phase : Value → List Value → Bool
has_phase phase [] = false
has_phase phase (p ∷ phases) = same p phase || has_phase phase phases

unfoldable pub all_keys : List Pass → List ℕ
all_keys [] = []
all_keys (p ∷ passes) = p.keys ++ all_keys passes

-- the spans with the accesses from `start` to `end` of the window of `first`
unfoldable pub add_span : ℕ → ℕ → Pass → List Span → List Span
add_span start end first [] =
    record { start = start; end = end; request_id = first.request_id; phase = first.phase } ∷ []
add_span start end first (s ∷ []) =
    if same s.request_id first.request_id && same s.phase first.phase
    then record s { end = end } ∷ []
    else s
      ∷ record { start = start; end = end; request_id = first.request_id; phase = first.phase }
      ∷ []
add_span start end first (s ∷ t ∷ spans) = s ∷ add_span start end first (t ∷ spans)

-- the segment with a window
unfoldable pub extend : Bool → Pass → Pass → List Pass → Segment → Segment
extend explicit first p window g =
    let accesses = g.accesses ++ all_keys window in
    record g {
      phases =
          if explicit && not (has_phase first.phase g.phases)
          then g.phases ++ first.phase ∷ []
          else g.phases;
      accesses = accesses;
      access_spans =
          if explicit
          then add_span (length g.accesses) (length accesses) first g.access_spans
          else g.access_spans;
      end_offset = p.offset + p.tokens;
      last_source_pointer = p.pointer;
      windows = g.windows + 1;
      single_token_windows = g.single_token_windows + (if p.tokens == 1 then 1 else 0);
    }

-- `sum(len(s['accesses']) for s in segments)`
abbrev pub demands_of : List Segment → ℕ
demands_of = sum_of (λ g. length g.accesses)

-- the segments before the one that the window goes to, and that one
unfoldable pub choose : Bool → Pass → Pass → State → Result (List Segment × Segment)
choose explicit first p s =
    if s.can_continue
    then (do
      (front, g) ← split_last s.segments
      if continues explicit g first p then ok (front, g) else ok (s.segments, new_segment first p))
    else ok (s.segments, new_segment first p)

-- the barrier where a segment begins though the last window could go on
unfoldable pub boundary : Bool → Pass → Pass → State → List Barrier
boundary explicit first p s =
    if s.can_continue
    then elim (split_last s.segments) [
      | raise e ↦ s.barriers
      | ok (front, g) ↦
          if continues explicit g first p
          then s.barriers
          else s.barriers ++ barrier (str "position_phase_or_session_boundary") first.pointer ∷ []
    ]
    else s.barriers

-- a complete window
unfoldable pub complete : Bool → Pass → Pass → List Pass → State → Result State
complete explicit first p window s = do
  (front, g) ← choose explicit first p s
  let segments = front ++ extend explicit first p window g ∷ []
  require (not (ltb max_accesses (demands_of segments)))
      "Cache trace exceeds bounded demand count; select a smaller source"
  ok (record s {
    segments = segments;
    barriers = boundary explicit first p s;
    logical_routes = s.logical_routes + p.tokens * top_k * layers;
    passes = s.passes + layers;
    pending = [];
    can_continue = true;
  })

unfoldable pub complete_first : Bool → Pass → List Pass → State → Result State
complete_first explicit p [] s = raise index_error
complete_first explicit p (first ∷ rest) s = complete explicit first p (first ∷ rest) s

-- a pass joins the pending ones, and may complete their window
unfoldable pub join : Bool → Pass → State → Result State
join explicit p s =
    let window = s.pending ++ p ∷ [] in
    if length window == layers
    then complete_first explicit p window s
    else ok (record s { pending = window })

-- a pass, from the check of the pending window on
unfoldable pub on_pass : Bool → Pass → State → Result State
on_pass explicit p s =
    let s' =
      if is_discontinuous p s.pending
      then discard (str "incomplete_or_discontinuous_window") p.pointer s
      else s in
    if is_empty s'.pending && not (p.layer == 0)
    then ok (record s' { excluded = s'.excluded + 1; can_continue = false })
    else join explicit p s'
