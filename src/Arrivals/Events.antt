-- ===== src/Arrivals/Events.antt =====
-- The events of a captured batch in `trace_batches` of scripts/qwen/q4_read_arrivals.py.
use zerocool.Prelude.{
  ℕ, suc, ◌-◌, max, Bool, true, false, not, ◌&&◌, Option, none, some, List, [], ◌∷◌, map, String,
  ◌==◌, nat_eq, if◌then◌else◌, ltb, leb, is_some, Result, ok, raise, key_error, type_error, ◌>>=◌,
  ◌>>◌, require, all, filter, sum_of, item,
}
use zerocool.Json.{Value, bool, int, str, at, get_key, bit, is_hashable, is_uint, number, same}
use zerocool.Json.Numbers.{◌&?◌, counts, has, check, all_of}

-- POSITIONS of native_q4_replay.py
abbrev pub positions : List ℕ
positions = 9 ∷ 1 ∷ 7 ∷ 3 ∷ 5 ∷ 0 ∷ 8 ∷ 4 ∷ []

-- what a value equals among the natural numbers
abbrev pub equal_number : Value → Option ℕ
equal_number (int n) = some n
equal_number (bool b) = some (bit b)
equal_number _ = none

-- `selected.get((layer, expert))` where `selected` gives each record its index; the last one counts
unfoldable pub index_from : ℕ → List (ℕ × ℕ) → ℕ → ℕ → Option ℕ
index_from i [] layer expert = none
index_from i ((l, e) ∷ records) layer expert =
    let rest = index_from (suc i) records layer expert in
    let here = if l == layer && e == expert then some i else none in
    elim rest [ none ↦ here | some j ↦ some j ]

unfoldable pub index_at : List (ℕ × ℕ) → Option ℕ → Option ℕ → Option ℕ
index_at records (some layer) (some expert) = index_from 0 records layer expert
index_at records _ _ = none

-- the index of `(r['layer'], r['expert'])`
unfoldable pub index_of : List (ℕ × ℕ) → Value → Result (Option ℕ)
index_of records r = do
  layer ← at "layer" r
  expert ← at "expert" r
  if is_hashable layer && is_hashable expert
      then ok (index_at records (equal_number layer) (equal_number expert))
      else raise type_error

unfoldable pub indices_of : List (ℕ × ℕ) → List Value → Result (List (Option ℕ))
indices_of records [] = ok []
indices_of records (r ∷ rs) = do i ← index_of records r; rest ← indices_of records rs; ok (i ∷ rest)

unfoldable pub holds_index : Option ℕ → List (Option ℕ) → Bool
holds_index i [] = false
holds_index none (j ∷ js) = not (is_some j) && holds_index none js
holds_index (some i) (none ∷ js) = holds_index (some i) js
holds_index (some i) (some j ∷ js) = if j == i then true else holds_index (some i) js

-- `{(r['layer'], r['expert']) for r in events} == set(selected)`
unfoldable pub covers : List (ℕ × ℕ) → List Value → Result Bool
covers records events = do
  found ← indices_of records events
  ok (
      all is_some found
      && all (λ key. holds_index (index_from 0 records key.0 key.1) found) records)

-- the nine timestamps of an event, its layer, its index among the records, and its acquisition
pub record Event : Type 0 where
  pub layer : ℕ
  pub index : ℕ
  pub is_hit : Bool
  pub admitted : ℕ
  pub read_queued : ℕ
  pub read_started : ℕ
  pub read_completed : ℕ
  pub encoded : ℕ
  pub submitted : ℕ
  pub gpu_start : ℕ
  pub gpu_end : ℕ
  pub released : ℕ

abbrev timestamps : List String
timestamps =
    "admitted_ns" ∷ "read_queued_ns" ∷ "read_started_ns" ∷ "read_completed_ns" ∷ "encoded_ns"
    ∷ "submitted_ns" ∷ "gpu_start_ns" ∷ "gpu_end_ns" ∷ "released_ns" ∷ []

-- `uint(v) and v > 0`
abbrev pub is_stamp : Value → Bool
is_stamp v = is_uint v && ltb 0 (number v)

unfoldable pub read_stamps : ℕ → ℕ → Bool → Value → Result Event
read_stamps layer index is_hit r = do
  admitted ← at "admitted_ns" r
  queued ← at "read_queued_ns" r
  started ← at "read_started_ns" r
  completed ← at "read_completed_ns" r
  encoded ← at "encoded_ns" r
  submitted ← at "submitted_ns" r
  begins ← at "gpu_start_ns" r
  ends ← at "gpu_end_ns" r
  released ← at "released_ns" r
  ok (record {
    layer = layer;
    index = index;
    is_hit = is_hit;
    admitted = number admitted;
    read_queued = number queued;
    read_started = number started;
    read_completed = number completed;
    encoded = number encoded;
    submitted = number submitted;
    gpu_start = number begins;
    gpu_end = number ends;
    released = number released;
  })

-- the layer of an event, which equals a number where the event has an index
abbrev pub layer_of : Value → ℕ
layer_of v = elim (equal_number v) [ none ↦ 0 | some n ↦ n ]

-- the index of an event that the coverage has found
unfoldable pub found_index : Option ℕ → Result ℕ
found_index none = raise key_error
found_index (some i) = ok i

abbrev pub holds_number : ℕ → List ℕ → Bool
holds_number n [] = false
holds_number n (m ∷ ms) = if m == n then true else holds_number n ms

unfoldable pub read_event : List (ℕ × ℕ) → List ℕ → Value → Result Event
read_event records hit_indices r = do
  found ← index_of records r
  index ← found_index found
  let is_hit = holds_number index hit_indices
  check
      ((do
        position ← get_key "position" r
        expected ← item positions index
        ok (same position (int expected)))
        &? has "acquisition" (str (if is_hit then "ready_hit" else "new_miss")) r)
      "Wrong expert destination or hit classification"
  check (all_of (λ k. counts is_stamp k r) timestamps) "Missing event timestamps"
  layer ← at "layer" r
  read_stamps (layer_of layer) index is_hit r

-- reading, encoding, submission, the GPU and the release come one after the other
abbrev pub is_forward : ℕ → Event → Bool
is_forward previous_release e =
    leb e.read_queued e.read_started
    && leb e.read_started e.read_completed
    && leb e.read_completed e.encoded
    && leb previous_release e.admitted
    && leb e.admitted e.encoded
    && leb e.encoded e.submitted
    && leb e.submitted e.gpu_start
    && leb e.gpu_start e.gpu_end
    && leb e.gpu_end e.released

-- a hit has been read before it is admitted
abbrev pub was_ready : Event → Bool
was_ready e = if e.is_hit then leb e.read_completed e.admitted else true

unfoldable pub check_event : ℕ → Event → Result (Unit {0})
check_event previous_release e = do
  require (is_forward previous_release e) "Reversed read, encoding, GPU or ownership timestamps"
  require (was_ready e) "Prepared hit was not ready at admission"

-- the loop over the events of a batch
unfoldable pub on_events : List (ℕ × ℕ) → List ℕ → ℕ → List Value → Result (List Event)
on_events records hit_indices previous_release [] = ok []
on_events records hit_indices previous_release (r ∷ rs) = do
  e ← read_event records hit_indices r
  check_event previous_release e
  rest ← on_events records hit_indices previous_release rs
  ok (e ∷ rest)

-- when the expert of an event is ready
abbrev pub ready : Event → ℕ
ready e = max e.admitted e.read_completed

abbrev missed : Event → Bool
missed e = not e.is_hit

-- `queue`, `service`, `ready_encode` and `ready_gpu`
abbrev pub queue_of : List Event → ℕ
queue_of events = sum_of (λ e. e.read_started - e.read_queued) (filter missed events)

abbrev pub service_of : List Event → ℕ
service_of events = sum_of (λ e. e.read_completed - e.read_started) (filter missed events)

abbrev pub ready_encode_of : List Event → ℕ
ready_encode_of = sum_of (λ e. e.encoded - ready e)

abbrev pub ready_gpu_of : List Event → ℕ
ready_gpu_of = sum_of (λ e. e.gpu_start - ready e)

-- the two lists of `readiness` for an acquisition
abbrev pub ready_to_submission : Bool → List Event → List ℕ
ready_to_submission hit events =
    map (λ e. e.submitted - ready e) (filter (λ e. if hit then e.is_hit else missed e) events)

abbrev pub read_to_submission : Bool → List Event → List ℕ
read_to_submission hit events =
    map (λ e. e.submitted - e.read_completed)
      (filter (λ e. if hit then e.is_hit else missed e) events)
