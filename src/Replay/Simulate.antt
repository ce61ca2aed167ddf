-- ===== src/Replay/Simulate.antt =====
-- `simulate` of scripts/qwen/block_cache_replay.py: a captured order of requests on another cache.
pub mod Blocks
pub mod Follows
pub mod Agrees
pub mod Accesses
pub mod Tests
use zerocool.Prelude.{
  ℕ, ◌+◌, ◌*◌, Bool, true, false, List, [], ◌∷◌, ◌==◌, nat_eq, if◌then◌else◌, replicate, length,
  Result, ok, raise, zero_division_error, ◌>>=◌, ◌>>◌, require, item, store, drop, sum_of,
}
use zerocool.Replay.Cache.{Cache, Policy, clock, slru, cache, acquire, lease, total_pins}
use zerocool.Replay.Events.{Request, acquire_request, lease_request, payload_bytes}
use Prim.Native.Nat.{zero}
use mathlib.Core.Option.{none}

-- the hits and misses of a forward
abbrev pub Block : Type 0
Block = ℕ × ℕ

abbrev pub count_block : Bool → Block → Block
count_block hit (hits, misses) = if hit then (hits + 1, misses) else (hits, misses + 1)

-- one round of the loop over the requests
unfoldable pub apply : Request → Cache × List Block → Result (Cache × List Block)
apply (acquire_request key forward) (c, blocks) = do
  (c', answer) ← acquire key none c
  block ← item blocks forward
  blocks' ← store blocks forward (count_block answer.hit block)
  ok (c', blocks')
apply (lease_request released key forward) (c, blocks) = do
  (c', pins) ← lease key released c
  ok (c', blocks)

-- the loop
unfoldable pub apply_all : List Request → Cache × List Block → Result (Cache × List Block)
apply_all [] s = ok s
apply_all (r ∷ requests) s = do s' ← apply r s; apply_all requests s'

-- What `simulate` counts; the fraction of hits is `decode_hits / (decode_hits + decode_misses)`.
pub record Simulation : Type 0 where
  pub capacity : ℕ
  pub policy : Policy
  pub blocks : List Block
  pub decode_hits : ℕ
  pub decode_misses : ℕ
  pub decode_application_read_bytes : ℕ

unfoldable pub simulate : List Request → ℕ → ℕ → Policy → Result Simulation
simulate requests forwards capacity policy = do
  c ← cache capacity policy
  (c', blocks) ← apply_all requests (c, replicate forwards (0, 0))
  require (total_pins c'.slots == 0) "Simulation left live leases"
  let hit = sum_of (λ b. b.0) (drop 1 blocks)
  let miss = sum_of (λ b. b.1) (drop 1 blocks)
  if hit + miss == 0
      then raise zero_division_error
      else ok (record {
        capacity = capacity;
        policy = policy;
        blocks = blocks;
        decode_hits = hit;
        decode_misses = miss;
        decode_application_read_bytes = miss * payload_bytes;
      })

-- `curves`
unfoldable pub curves : List Request → ℕ → Result (List Simulation)
curves requests forwards = do
  c1 ← simulate requests forwards 1072 clock
  s1 ← simulate requests forwards 1072 slru
  c2 ← simulate requests forwards 1460 clock
  s2 ← simulate requests forwards 1460 slru
  c3 ← simulate requests forwards 1536 clock
  s3 ← simulate requests forwards 1536 slru
  ok (c1 ∷ s1 ∷ c2 ∷ s2 ∷ c3 ∷ s3 ∷ [])
