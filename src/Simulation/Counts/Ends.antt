-- ===== src/Simulation/Counts/Ends.antt =====
-- `counts` of scripts/qwen/cache_simulation.py ends on segments with accesses to experts' keys.
use zerocool.Prelude.{
  ℕ, ◌+◌, ◌*◌, ◌≤◌, ◌≡◌, refl, Bool, true, List, [], ◌∷◌, arith, Result, ok, length, sum_of,
}
use zerocool.Routes.Keys.{AllBelow}
use zerocool.Routes.Windows.{Segment, Span, demands_of}
use zerocool.Simulation.Belady
use zerocool.Simulation.Counts.{
  Policy, clock, segmented_lru, belady, Tally, Counts, empty_tally, replay, is_spanned,
  count_segment, count_segments, counts, answer, access_clock, access_segmented, layers, experts,
}
use zerocool.Simulation.Counts.Accesses.{
  IsSized, total, reaches, count_layer_inside, count_span_inside,
}
use zerocool.Simulation.Counts.Serves.{
  Serves, access_clock-Serves, access_segmented-Serves, access_belady-Serves, segmented-IsValid,
  belady-IsReady,
}
use zerocool.Simulation.Clock.Initial.{clock-IsValid}

-- the keys are those of experts
abbrev pub AllLow : List ℕ → Type 0
AllLow = AllBelow (layers * experts)

-- the keys are those of experts, and the spans, if there are any, cover all accesses
pub record IsReplayable (g : Segment) : Type 0 where
  pub low : AllLow g.accesses
  pub covered : is_spanned g ≡ true → reaches (length g.accesses) g.access_spans ≡ true

abbrev pub AllReplayable : List Segment → Type 0
AllReplayable [] = Unit {0}
AllReplayable (g ∷ segments) = IsReplayable g × AllReplayable segments

-- what becomes of a tally under `n` accesses
pub record Adds (n : ℕ) (t : Tally) (r : Result Tally) : Type 0 where
  pub after : Tally
  pub ends : r ≡ ok after
  pub sized : IsSized after
  pub more : total after ≡ total t + n

-- A cache that serves makes the loop end, with one count for each access.
module _ {S : Type 0} (access : ℕ → ℕ → S → Result (S × Bool)) (size : ℕ) (Good : S → Type 0)
    (serves : Serves access size Good) (spanned : Bool) where
  replay-Adds :
      (keys : List ℕ) (position : ℕ) (s : S) (spans : List Span) (t : Tally)
      → Good s
      → AllLow keys
      → position + length keys ≤ size
      → (spanned ≡ true → reaches size spans ≡ true)
      → IsSized t
      → Adds (length keys) t (replay access spanned keys position s spans t)
  unfolding replay
  replay-Adds [] position s spans t good low fits reached v = record {
    after = t;
    ends = refl;
    sized = v;
    more = omega arith;
  }
  replay-Adds (key ∷ keys) position s spans t good low fits reached v =
      let (s', hit, served, good') = serves.ends key position s good (omega (arith, fits)) in
      let (t1, counted, v1, one) = count_layer_inside hit key t low.0 v in
      let (rest, t2, spanned_e, reached', v2, same) =
        count_span_inside spanned hit size position spans t1 (omega (arith, fits)) reached v1 in
      let later =
        replay-Adds keys (position + 1) s' rest t2 good' low.1 (omega (arith, fits)) reached' v2 in
      record {
        after = later.after;
        ends = rw (served, counted, spanned_e) later.ends;
        sized = later.sized;
        more = omega (arith, later.more, same, one);
      }

count_segment-Adds :
    (capacity : ℕ) (policy : Policy) (g : Segment) (t : Tally)
    → IsReplayable g
    → IsSized t
    → Adds (length g.accesses) t (count_segment capacity policy g t)
unfolding count_segment
count_segment-Adds capacity clock g t r v =
    let size = length g.accesses in
    replay-Adds access_clock size _ (access_clock-Serves size) (is_spanned g) g.accesses 0 _
      g.access_spans t (clock-IsValid capacity) r.low (omega arith) r.covered v
count_segment-Adds capacity segmented_lru g t r v =
    let size = length g.accesses in
    replay-Adds access_segmented size _ (access_segmented-Serves size) (is_spanned g) g.accesses 0 _
      g.access_spans t (segmented-IsValid capacity) r.low (omega arith) r.covered v
count_segment-Adds capacity belady g t r v =
    let size = length g.accesses in
    replay-Adds Belady.access size _ (access_belady-Serves size) (is_spanned g) g.accesses 0 _
      g.access_spans t (belady-IsReady capacity g.accesses) r.low (omega arith) r.covered v

count_segments-Adds :
    (capacity : ℕ) (policy : Policy) (segments : List Segment) (t : Tally)
    → AllReplayable segments
    → IsSized t
    → Adds (demands_of segments) t (count_segments capacity policy segments t)
unfolding count_segments sum_of
count_segments-Adds capacity policy [] t r v = record {
  after = t;
  ends = refl;
  sized = v;
  more = omega arith;
}
count_segments-Adds capacity policy (g ∷ segments) t r v =
    let one = count_segment-Adds capacity policy g t r.0 v in
    let later = count_segments-Adds capacity policy segments one.after r.1 one.sized in
    record {
      after = later.after;
      ends = rw one.ends later.ends;
      sized = later.sized;
      more = omega (arith, later.more, one.more);
    }

empty_total : total empty_tally ≡ 0
unfolding sum_of
empty_total = refl

-- On segments of accesses to experts' keys, whose spans cover the accesses, `counts` ends and raises
-- nothing at every capacity and policy, and counts each access once as a hit or a miss.
pub counts_ends :
    (segments : List Segment) (capacity : ℕ) (policy : Policy) (per_layer : Bool)
    → AllReplayable segments
    → (c : Counts) × (counts segments capacity policy per_layer ≡ ok c)
      × (c.demands ≡ demands_of segments)
      × (c.hits + c.misses ≡ demands_of segments)
unfolding counts answer
counts_ends segments capacity policy per_layer r =
    let start : IsSized empty_tally = record { hits = refl; misses = refl } in
    let a = count_segments-Adds capacity policy segments empty_tally r start in
    (
      answer policy per_layer a.after,
      rw a.ends refl,
      omega (arith, a.more, empty_total),
      omega (arith, a.more, empty_total),
    )
