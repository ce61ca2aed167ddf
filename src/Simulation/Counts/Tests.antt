-- ===== src/Simulation/Counts/Tests.antt =====
-- `counts` on the segments of a recorded window, and on a segment with spans.
use zerocool.Prelude.{◌+◌, ◌≡◌, refl, true, false, none, [], ◌∷◌, ok, arith}
use zerocool.Json.{null, int, str}
use zerocool.Routes.Tests.{row, window, window_end}
use zerocool.Routes.Windows.{Segment, demands_of}
use zerocool.Simulation.Counts.{Counts, belady, segmented_lru, counts}
use zerocool.Simulation.Counts.Accesses.{reaches}
use zerocool.Simulation.Counts.Ends.{AllReplayable, counts_ends}
use zerocool.Simulation.Counts.Recorded.{counts-route_segments}

counts-route_segments_example :
    (c : Counts) × (counts window_end.0.0 3 belady true ≡ ok c)
    × (c.demands ≡ window_end.0.1.demand_record_accesses)
    × (c.hits + c.misses ≡ window_end.0.1.demand_record_accesses)
counts-route_segments_example =
    counts-route_segments (row 0 ∷ window 48) none false 3 belady true window_end.1

-- four accesses to two keys, the last two of a second request
abbrev spanned : Segment
spanned = record {
  start_offset = 0;
  end_offset = 2;
  phase = null;
  session_id = null;
  first_source_pointer = "line:1";
  last_source_pointer = "line:2";
  windows = 2;
  single_token_windows = 2;
  accesses = 5 ∷ 600 ∷ 5 ∷ 5 ∷ [];
  phases = [];
  access_spans =
      record { start = 0; end = 2; request_id = int 1; phase = str "prefill" }
      ∷ record { start = 2; end = 4; request_id = int 2; phase = str "decode" }
      ∷ [];
}

spanned-AllReplayable : AllReplayable (spanned ∷ [])
unfolding reaches
spanned-AllReplayable = (
  record {
    low = (omega arith, (omega arith, (omega arith, (omega arith, tt))));
    covered = λ e. refl;
  },
  tt,
)

counts_ends_example :
    (c : Counts) × (counts (spanned ∷ []) 1 segmented_lru false ≡ ok c)
    × (c.demands ≡ demands_of (spanned ∷ []))
    × (c.hits + c.misses ≡ demands_of (spanned ∷ []))
counts_ends_example = counts_ends (spanned ∷ []) 1 segmented_lru false spanned-AllReplayable
