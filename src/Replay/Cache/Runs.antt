-- ===== src/Replay/Cache/Runs.antt =====
-- Whole runs of accesses without leases, in both caches.
use zerocool.Prelude.{
  ℕ, ◌*◌, ◌≤◌, ◌<◌, ◌≡◌, refl, Bool, true, none, List, [], ◌∷◌, arith, length, get_or-replicate,
  map-replicate, ◌&&◌, Result, ok, ◌>>=◌, nat_eq, leb,
}
use zerocool.Simulation.Clock
use zerocool.Simulation.Clock.{Clock}
use zerocool.Simulation.Clock.Initial.{clock-IsValid}
use zerocool.Simulation.Clock.Access.{IsValid, access-IsValid}
use zerocool.Replay.Cache.{clock, Cache, layers, experts, empty_cache, cache, acquire}
use zerocool.Replay.Cache.Scan.{key_of, bit_of, pins_of}
use zerocool.Replay.Cache.Refines.{Related, acquire-access}

-- the hits of a run of `Clock.access`
unfoldable pub clock_hits : List ℕ → Clock → Result (List Bool)
clock_hits [] c = ok []
clock_hits (key ∷ keys) c = do
  (c', hit) ← Clock.access key c
  hits ← clock_hits keys c'
  ok (hit ∷ hits)

-- the hits of a run of `Cache.acquire` with no lease taken
unfoldable pub cache_hits : List ℕ → Cache → Result (List Bool)
cache_hits [] r = ok []
cache_hits (key ∷ keys) r = do
  (r', answer) ← acquire key none r
  hits ← cache_hits keys r'
  ok (answer.hit ∷ hits)

abbrev pub AllBelow : ℕ → List ℕ → Type 0
AllBelow n [] = Unit
AllBelow n (key ∷ keys) = (key < n) × AllBelow n keys

same_hits :
    (keys : List ℕ) (c : Clock) (r : Cache)
    → IsValid c
    → Related c r
    → 0 < c.capacity
    → AllBelow (layers * experts) keys
    → (hits : List Bool) × (clock_hits keys c ≡ ok hits)
      × (cache_hits keys r ≡ ok hits)
      × (length hits ≡ length keys)
unfolding clock_hits cache_hits
same_hits [] c r v h some_slots low = ([], refl, refl, refl)
same_hits (key ∷ keys) c r v h some_slots low =
    let (c', r', answer, accessed, acquired, related) =
      acquire-access key none v h some_slots low.0 in
    let (c_valid, accessed', v', same) = access-IsValid key c v in
    let one : c_valid ≡ c' = ground arith in
    let (hits, run_c, run_r, size) =
      same_hits keys c' r' (rw one at v') related (rw (← one) (omega arith)) low.1 in
    (answer.hit ∷ hits, rw (accessed, run_c) refl, rw (acquired, run_r) refl, omega arith)

-- the empty caches
cache_made :
    (capacity : ℕ)
    → 1 ≤ capacity
    → capacity ≤ 4096
    → cache capacity clock ≡ ok (empty_cache capacity clock)
unfolding cache
cache_made capacity low high =
    let t : (leb 1 capacity && leb capacity 4096) ≡ true = ground arith in rw (t, cache)

empty-Related : (capacity : ℕ) → Related (Clock.clock capacity) (empty_cache capacity clock)
empty-Related capacity = record {
  policy = refl;
  capacity = refl;
  hand = refl;
  lookup = refl;
  keys = map-replicate key_of capacity none;
  bits = map-replicate bit_of capacity none;
  unpinned = λ i. rw (map-replicate pins_of capacity none) (get_or-replicate capacity i 0);
  hit_layers = refl;
  miss_layers = refl;
}

-- From empty caches of the same capacity, a run of accesses to entries without leases gives the same
-- hits in both programs; neither raises an exception.
pub cache_hits-clock_hits :
    (capacity : ℕ) (keys : List ℕ)
    → 1 ≤ capacity
    → capacity ≤ 4096
    → AllBelow (layers * experts) keys
    → (r : Cache) × (hits : List Bool) × (cache capacity clock ≡ ok r)
      × (cache_hits keys r ≡ ok hits)
      × (clock_hits keys (Clock.clock capacity) ≡ ok hits)
      × (length hits ≡ length keys)
cache_hits-clock_hits capacity keys low high below =
    let (hits, run_c, run_r, size) =
      same_hits keys (Clock.clock capacity) (empty_cache capacity clock) (clock-IsValid capacity)
        (empty-Related capacity) low below in
    (empty_cache capacity clock, hits, cache_made capacity low high, run_r, run_c, size)
