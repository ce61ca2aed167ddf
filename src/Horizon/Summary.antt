-- ===== src/Horizon/Summary.antt =====
-- `summarize` of scripts/qwen/horizon_cache_replay.py, over what decode of block_cache_replay.py
-- gives. The fractions of misses are left out, and the keys of a histogram are not sorted.
use zerocool.Prelude.{
  ℕ, ◌+◌, Bool, ◌&&◌, none, some, List, [], ◌∷◌, ◌++◌, map, ◌==◌, nat_eq, Result, ok, raise,
  index_error, ◌>>=◌, ◌>>◌, require, sum_of, drop, length,
}
use zerocool.Dict.{Dict, get, put}
use zerocool.Replay.Cache.{clock}
use zerocool.Replay.Coverage.{Phase}
use zerocool.Replay.Events.{Event, forward_begin, layer_boundary}
use zerocool.Replay.State.{State, Completed}
use zerocool.Replay.Simulate.{Simulation, simulate}

-- a Counter
abbrev pub Counter : Type 0
Counter = Dict ℕ ℕ

abbrev pub count_at : ℕ → Counter → ℕ
count_at k c = elim (get k c) [ none ↦ 0 | some n ↦ n ]

-- `c.update(ks)`
unfoldable pub update : List ℕ → Counter → Counter
update [] c = c
update (k ∷ ks) c = update ks (put k (count_at k c + 1) c)

-- an entry of `row_use`
pub record Window : Type 0 where
  pub offset : ℕ
  pub tokens : ℕ
  pub phase : Phase
  pub histogram : Counter

-- `row_use[-1]` counts how many tokens chose each expert of a layer
unfoldable pub count_layer : List ℕ → List Window → Result (List Window)
count_layer routes [] = raise index_error
count_layer routes (v ∷ []) =
    ok (record v { histogram = update (map (λ e. e.1) (update routes [])) v.histogram } ∷ [])
count_layer routes (v ∷ w ∷ vs) = do rest ← count_layer routes (w ∷ vs); ok (v ∷ rest)

-- a round of the loop over the events
unfoldable pub on_event : Event → List Window → Result (List Window)
on_event (forward_begin d input) windows =
    ok (windows ++ record { offset = d.at; tokens = d.count; phase = d.phase; histogram = [] } ∷ [])
on_event (layer_boundary d) windows = count_layer d.routes windows
on_event e windows = ok windows

unfoldable pub on_events : List Event → List Window → Result (List Window)
on_events [] windows = ok windows
on_events (e ∷ events) windows = do windows' ← on_event e windows; on_events events windows'

-- the sums that a window gets
abbrev pub selected_records : Window → ℕ
selected_records v = sum_of (λ e. e.1) v.histogram

abbrev pub single_row_records : Window → ℕ
single_row_records v = count_at 1 v.histogram

-- a forward without its demands
pub record ForwardRow : Type 0 where
  pub offset : ℕ
  pub tokens : ℕ
  pub phase : Phase
  pub hits : ℕ
  pub misses : ℕ
  pub distinct_records : ℕ

abbrev pub row_of : Completed → ForwardRow
row_of f = record {
  offset = f.offset;
  tokens = f.tokens;
  phase = f.phase;
  hits = f.hits;
  misses = f.misses;
  distinct_records = f.distinct_records;
}

-- `actual_hits` and `actual_misses`
abbrev pub actual_hits : State → ℕ
actual_hits s = sum_of (λ f. f.hits) (drop 1 s.forwards)

abbrev pub actual_misses : State → ℕ
actual_misses s = sum_of (λ f. f.misses) (drop 1 s.forwards)

-- the simulation of the capture itself counts as the capture did
unfoldable pub check_control : Simulation → State → Result (Unit {0})
check_control control s =
    require (control.decode_hits == actual_hits s && control.decode_misses == actual_misses s)
      "Control simulation differs from native continuation"

-- the answer
pub record Summary : Type 0 where
  pub capacity : ℕ
  pub snapshots_verified : ℕ
  pub max_pins : ℕ
  pub forwards : List ForwardRow
  pub row_use : List (Window × ℕ × ℕ)
  -- a curve, and whether its capacity is the admitted one
  pub curves : List (Simulation × Bool)

abbrev pub curve_at : State → ℕ → Result Simulation
curve_at s capacity = simulate s.requests (length s.forwards) capacity clock

-- `summarize` of a capture's capacity, its events and the end of decode
unfoldable pub summarize : ℕ → List Event → State → Result Summary
summarize capacity events s = do
  control ← curve_at s 1460
  middle ← curve_at s 1909
  large ← curve_at s 2048
  check_control control s
  windows ← on_events events []
  ok (record {
    capacity = capacity;
    snapshots_verified = length s.snapshots;
    max_pins = s.max_pins;
    forwards = map row_of s.forwards;
    row_use = map (λ v. (v, selected_records v, single_row_records v)) windows;
    curves = map (λ c. (c, c.capacity == 1460)) (control ∷ middle ∷ large ∷ []);
  })
