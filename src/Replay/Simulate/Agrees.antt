-- ===== src/Replay/Simulate/Agrees.antt =====
-- `simulate` of scripts/qwen/block_cache_replay.py at the capture's own capacity and policy gives
-- what `decode` counted.
use zerocool.Prelude.{
  ℕ, ◌+◌, ◌*◌, ◌≡◌, refl, ap, ◌∙◌, none, List, [], ◌∷◌, ◌++◌, map, length, replicate, arith, Result,
  ok, bind_inverse, ◌==◌, nat_eq, drop, sum_of, raise, zero_division_error, if◌then◌else◌,
}
use zerocool.Replay.Cache.{Cache, clock, cache, empty_cache, total_pins}
use zerocool.Replay.Cache.Plain.{plain}
use zerocool.Replay.Coverage.{check_patterns}
use zerocool.Replay.Events.{Capture, Event, payload_bytes}
use zerocool.Replay.State.{State, Completed, initial}
use zerocool.Replay.Decode.{decode_events, run}
use zerocool.Replay.Decode.Changes.{started}
use zerocool.Replay.Simulate.{Block, Simulation, apply_all, simulate}
use zerocool.Replay.Simulate.Blocks.{block_of}
use zerocool.Replay.Simulate.Follows.{initial-Follows, run-Follows}

-- What holds where `decode` accepts: the loop ended drained, at the expected number of forwards.
record IsComplete (w : Capture) (events : List Event) (s : State) : Type 0 where
  ran : run w events (initial (empty_cache w.capacity clock)) ≡ ok s
  drained : s.active ≡ none
  size : length s.forwards ≡ length w.patterns
  unpinned : total_pins s.cache.slots ≡ 0
  fits : cache w.capacity clock ≡ ok (empty_cache w.capacity clock)

cache_lem :
    (capacity : ℕ) {c : Cache} → cache capacity clock ≡ ok c → c ≡ empty_cache capacity clock
unfolding cache
cache_lem capacity h = ground arith

decode_events-IsComplete :
    (w : Capture) (prompt continuation : ℕ) (events : List Event) {s : State}
    → decode_events w prompt continuation events ≡ ok s
    → IsComplete w events s
unfolding decode_events
decode_events-IsComplete w prompt continuation events {s} h =
    let (c, made, h1) = bind_inverse (cache w.capacity clock) _ h in
    let (u, covered, h2) = bind_inverse (check_patterns prompt continuation w.patterns) _ h1 in
    let (s1, ran, h3) = bind_inverse (run w events (initial c)) _ h2 in
    let e = cache_lem w.capacity made in
    let same : s1 ≡ s = ground arith in
    record {
      ran = rw (← e, ← same) ran;
      drained = ground arith;
      size = ground arith;
      unpinned = ground arith;
      fits = rw (← e) made;
    }

append_nil {ℓ} : {A : Type ℓ} (xs : List A) → xs ++ [] ≡ xs
append_nil [] = refl
append_nil (x ∷ xs) = ap (λ l. x ∷ l) (append_nil xs)

sum_of-map {ℓ κ} :
    {A : Type ℓ} {B : Type κ} (f : B → ℕ) (g : A → B) (xs : List A)
    → sum_of f (map g xs) ≡ sum_of (λ x. f (g x)) xs
unfolding sum_of
sum_of-map f g [] = refl
sum_of-map f g (x ∷ xs) = rw (sum_of-map f g xs)

-- The sum over the blocks behind the first is that over the forwards behind the first.
decode_sum :
    (f : Block → ℕ) (forwards : List Completed)
    → sum_of f (drop 1 (map block_of forwards)) ≡ sum_of (λ d. f (block_of d)) (drop 1 forwards)
unfolding drop
decode_sum f [] = unfold sum_of in refl
decode_sum f (d ∷ forwards) = sum_of-map f block_of forwards

-- The requests that `decode` records, applied to an empty cache of the same capacity, end at the
-- cache of `decode` and at the hits and misses of its forwards.
apply_all-decode :
    (w : Capture) (events : List Event) {s : State}
    → IsComplete w events s
    → apply_all s.requests (empty_cache w.capacity clock, replicate (length s.forwards) (0, 0))
      ≡ ok (plain s.cache, map block_of s.forwards)
apply_all-decode w events {s} v =
    let start = empty_cache w.capacity clock in
    let f = run-Follows w start events (initial start) v.ran (initial-Follows w start refl) in
    let over : f.left ≡ 0 = omega (arith, f.size, v.size) in
    let last : f.later ≡ replicate f.left (0, 0) = rw (ap started v.drained) at f.current in
    let nothing : f.later ≡ [] = last ∙ ap (λ k. replicate k (0, 0)) over in
    rw v.size (
      f.applied
      ∙ ap (λ l. ok (plain s.cache, l))
          (ap (λ l. map block_of s.forwards ++ l) nothing ∙ append_nil (map block_of s.forwards)))

-- what `simulate` answers at given blocks
abbrev pub summary : ℕ → ℕ → ℕ → List Block → Result Simulation
summary capacity hits misses blocks =
    if hits + misses == 0
    then raise zero_division_error
    else ok (record {
      capacity = capacity;
      policy = clock;
      blocks = blocks;
      decode_hits = hits;
      decode_misses = misses;
      decode_application_read_bytes = misses * payload_bytes;
    })

-- Where `decode` accepts a capture, `simulate` on the requests that it recorded, at the capacity of
-- the capture under second chance, raises nothing but a division by zero where no forward behind
-- the first has an access. It gives the hits and misses of every forward as `decode` counted them,
-- and their sums over the forwards behind the first.
pub simulate-decode_events :
    (w : Capture) (prompt continuation : ℕ) (events : List Event) {s : State}
    → decode_events w prompt continuation events ≡ ok s
    → simulate s.requests (length s.forwards) w.capacity clock
      ≡ summary w.capacity
          (sum_of (λ f. f.hits) (drop 1 s.forwards))
          (sum_of (λ f. f.misses) (drop 1 s.forwards))
          (map block_of s.forwards)
unfolding simulate
simulate-decode_events w prompt continuation events {s} h =
    let v = decode_events-IsComplete w prompt continuation events h in
    rw (v.fits) (
      rw (apply_all-decode w events v) (
        rw (v.unpinned)
          (rw (decode_sum (λ b. b.0) s.forwards, decode_sum (λ b. b.1) s.forwards) refl)))
