-- ===== src/Replay/Simulate/Accesses.antt =====
-- `simulate` of scripts/qwen/block_cache_replay.py counts every acquisition once.
use zerocool.Prelude.{
  ℕ, zero, suc, ◌+◌, ◌≡◌, refl, Bool, true, false, List, [], ◌∷◌, arith, replicate, ok,
  bind_inverse, item, store, sum_of, nat_eq,
}
use mathlib.Core.Option.{none}
use zerocool.Replay.Cache.{Cache, Policy, cache, acquire}
use zerocool.Replay.Events.{Request, acquire_request, lease_request}
use zerocool.Replay.Simulate.{Block, Simulation, apply, apply_all, simulate, count_block}

-- the accesses that a block counts
abbrev pub accesses_of : Block → ℕ
accesses_of b = b.0 + b.1

-- the acquisitions among the requests
abbrev pub acquisitions : List Request → ℕ
acquisitions [] = 0
acquisitions (acquire_request key forward ∷ requests) = 1 + acquisitions requests
acquisitions (lease_request released key forward ∷ requests) = acquisitions requests

acquisitions_cons :
    (r : Request) (requests : List Request)
    → acquisitions (r ∷ requests) ≡ acquisitions (r ∷ []) + acquisitions requests
acquisitions_cons (acquire_request key forward) requests = omega arith
acquisitions_cons (lease_request released key forward) requests = omega arith

replicate_none : (n : ℕ) → sum_of accesses_of (replicate n (0, 0)) ≡ 0
unfolding sum_of
replicate_none zero = refl
replicate_none (suc n) = rw (replicate_none n) refl

count_block_one : (hit : Bool) (b : Block) → accesses_of (count_block hit b) ≡ accesses_of b + 1
count_block_one true b = omega arith
count_block_one false b = omega arith

-- A block with one access more makes the sum one more.
store_one :
    (blocks : List Block) (i : ℕ) (b v : Block) {blocks' : List Block}
    → item blocks i ≡ ok b
    → store blocks i v ≡ ok blocks'
    → accesses_of v ≡ accesses_of b + 1
    → sum_of accesses_of blocks' ≡ sum_of accesses_of blocks + 1
unfolding item store sum_of
store_one [] i b v there stored more = cc
store_one (x ∷ blocks) zero b v there stored more = ground arith
store_one (x ∷ blocks) (suc i) b v there stored more =
    let (rest, later, h) = bind_inverse (store blocks i v) _ stored in
    ground (arith, store_one blocks i b v there later more)

apply_accesses :
    (r : Request) (c : Cache) (blocks : List Block) {s' : Cache × List Block}
    → apply r (c, blocks) ≡ ok s'
    → sum_of accesses_of s'.1 ≡ acquisitions (r ∷ []) + sum_of accesses_of blocks
unfolding apply
apply_accesses (acquire_request key forward) c blocks h =
    let ((c', answer), acquired, h1) = bind_inverse (acquire key none c) _ h in
    let (b, there, h2) = bind_inverse (item blocks forward) _ h1 in
    let (blocks', stored, h3) =
      bind_inverse (store blocks forward (count_block answer.hit b)) _ h2 in
    let more = store_one blocks forward b _ there stored (count_block_one answer.hit b) in
    ground (arith, more)
apply_accesses (lease_request released key forward) c blocks h = ground arith

apply_all_accesses :
    (requests : List Request) (s : Cache × List Block) {s' : Cache × List Block}
    → apply_all requests s ≡ ok s'
    → sum_of accesses_of s'.1 ≡ acquisitions requests + sum_of accesses_of s.1
unfolding apply_all
apply_all_accesses [] s h = ground arith
apply_all_accesses (r ∷ requests) (c, blocks) h =
    let (s1, applied, h1) = bind_inverse (apply r (c, blocks)) _ h in
    let one = apply_accesses r c blocks applied in
    let later = apply_all_accesses requests s1 h1 in
    let split = acquisitions_cons r requests in omega (arith, one, later, split)

-- Where `simulate` answers, whatever the capacity and the policy, the hits and misses of its blocks
-- are in sum the acquisitions among the requests.
pub simulate-accesses :
    (requests : List Request) (forwards capacity : ℕ) (policy : Policy) {t : Simulation}
    → simulate requests forwards capacity policy ≡ ok t
    → sum_of accesses_of t.blocks ≡ acquisitions requests
unfolding simulate
simulate-accesses requests forwards capacity policy h =
    let (c, made, h1) = bind_inverse (cache capacity policy) _ h in
    let ((c', blocks), applied, h2) =
      bind_inverse (apply_all requests (c, replicate forwards (0, 0))) _ h1 in
    let total = apply_all_accesses requests (c, replicate forwards (0, 0)) applied in
    ground (arith, total, replicate_none forwards)
