-- ===== src/Replay/Cache/Tests.antt =====
-- Tests of `Cache`, and its theorems at concrete states.
use zerocool.Prelude.{
  ℕ, zero, suc, ◌<◌, ◌≡◌, ◌≢◌, refl, Bool, true, false, none, some, List, [], ◌∷◌, arith, length,
  get_or, ok, raise, value_error, nat_eq,
}
use zerocool.Dict.{get}
use zerocool.Simulation.Clock
use zerocool.Replay.Cache.{clock, Cache, empty_cache, cache, acquire}
use zerocool.Replay.Cache.Scan.{key_of, pins_of}
use zerocool.Replay.Cache.Runs.{clock_hits, cache_hits, cache_hits-clock_hits}
use zerocool.Replay.Cache.Evictions.{IsReady, acquire_exhausted, acquire_takes_free}

-- two slots; 7 has a lease, 9 has been used
abbrev leased : Cache
leased = record (empty_cache 2 clock) {
  slots =
      some (record { key = 7; referenced = false; pins = 1 })
      ∷ some (record { key = 9; referenced = true; pins = 0 })
      ∷ [];
  lookup = (7, 0) ∷ (9, 1) ∷ [];
}

leased_listed :
    (i k : ℕ) → key_of (get_or leased.slots i none) ≡ some k → get k leased.lookup ≡ some i
unfolding get
leased_listed zero k e = ground arith
leased_listed (suc zero) k e = ground arith
leased_listed (suc (suc i)) k e = cc

leased-IsReady : IsReady leased
leased-IsReady = record {
  policy = refl;
  size = refl;
  hand_inside = omega arith;
  miss_layers = refl;
  listed = leased_listed;
}

acquire_takes_free_example :
    (c' : Cache) × (slot : ℕ) × (acquire 5 none leased
      ≡ ok (
        c',
        record { hit = false; slot = slot; evicted = key_of (get_or leased.slots slot none) },
      ))
    × (slot < 2)
    × (pins_of (get_or leased.slots slot none) ≡ 0)
    × ((i : ℕ)
        → slot ≢ i
        → (key_of (get_or c'.slots i none) ≡ key_of (get_or leased.slots i none))
          × (pins_of (get_or c'.slots i none) ≡ pins_of (get_or leased.slots i none)))
unfolding get
acquire_takes_free_example =
    acquire_takes_free 5 none leased-IsReady (omega arith) refl 1 (omega arith) refl

abbrev one_leased : Cache
one_leased = record (empty_cache 1 clock) {
  slots = some (record { key = 7; referenced = false; pins = 1 }) ∷ [];
  lookup = (7, 0) ∷ [];
}

one_listed :
    (i k : ℕ) → key_of (get_or one_leased.slots i none) ≡ some k → get k one_leased.lookup ≡ some i
unfolding get
one_listed zero k e = ground arith
one_listed (suc i) k e = cc

one-IsReady : IsReady one_leased
one-IsReady = record {
  policy = refl;
  size = refl;
  hand_inside = omega arith;
  miss_layers = refl;
  listed = one_listed;
}

one_pinned : (i : ℕ) → i < 1 → pins_of (get_or one_leased.slots i none) ≢ 0
one_pinned zero h = λ e. omega arith
one_pinned (suc i) h = absurd (omega arith)

acquire_exhausted_example :
    acquire 5 none one_leased ≡ raise (value_error "Replay cache exhausted by leases")
unfolding get
acquire_exhausted_example = acquire_exhausted 5 none one-IsReady (omega arith) refl one_pinned

cache_hits-clock_hits_example :
    (r : Cache) × (hits : List Bool) × (cache 2 clock ≡ ok r)
    × (cache_hits (1 ∷ 2 ∷ 1 ∷ 3 ∷ []) r ≡ ok hits)
    × (clock_hits (1 ∷ 2 ∷ 1 ∷ 3 ∷ []) (Clock.clock 2) ≡ ok hits)
    × (length hits ≡ 4)
cache_hits-clock_hits_example =
    cache_hits-clock_hits 2 (1 ∷ 2 ∷ 1 ∷ 3 ∷ []) (omega arith) (omega arith) (omega arith)
