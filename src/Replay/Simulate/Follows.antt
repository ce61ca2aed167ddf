-- ===== src/Replay/Simulate/Follows.antt =====
-- `simulate` of scripts/qwen/block_cache_replay.py on the requests that `decode` records, at the
-- capacity and policy of the capture, follows the replay of `decode`.
use zerocool.Prelude.{
  ℕ, suc, ◌+◌, ◌-◌, ◌≡◌, ◌<◌, refl, ap, sym, ◌∙◌, Bool, Option, none, some, List, [], ◌∷◌, ◌++◌,
  map, length, replicate, arith, ok, ok_injective, bind_inverse, length-append, nat_eq,
}
use zerocool.Replay.Cache.{Cache, Answer, acquire, lease}
use zerocool.Replay.Cache.Plain.{plain, acquire-plain, lease-plain}
use zerocool.Replay.Cache.Counts.{acquire-Counts, lease-SameCounts}
use zerocool.Replay.Events.{Capture, Event, acquire_request, lease_request}
use zerocool.Replay.State.{State, Completed, initial}
use zerocool.Replay.Decode.{run, step}
use zerocool.Replay.Decode.Changes.{
  Change, SameTrace, IsCount, step-Change, started, begins, keeps, acquires, leases, ends,
}
use zerocool.Replay.Simulate.{Block, apply, apply_all, count_block}
use zerocool.Replay.Simulate.Blocks.{
  block_of, block_of_lem, apply_all-append, item_current, store_current, map-append_one,
}

-- the blocks of the forwards from the one under way on, of which `left` are to come
abbrev pub Current : Option (ℕ × ℕ) → Cache → ℕ → List Block → Type 0
Current none c left blocks = blocks ≡ replicate left (0, 0)
Current (some before) c left blocks =
    (later : ℕ) × (hits : ℕ) × (misses : ℕ) × (left ≡ later + 1)
    × (blocks ≡ (hits, misses) ∷ replicate later (0, 0))
    × (before.0 + hits ≡ c.hits)
    × (before.1 + misses ≡ c.misses)

-- Those blocks depend on the counts of the cache alone.
Current-same :
    (before : Option (ℕ × ℕ)) (c c' : Cache) (left : ℕ) (blocks : List Block)
    → (c'.hits ≡ c.hits) × (c'.misses ≡ c.misses)
    → Current before c left blocks
    → Current before c' left blocks
Current-same none c c' left blocks same h = h
Current-same (some before) c c' left blocks same (later, hits, misses, enough, split, hit, missed) =
    (later, hits, misses, enough, split, hit ∙ sym same.0, missed ∙ sym same.1)

-- `simulate` from `start`, on the requests so far, is at the cache of the replay and at its counts
pub record Follows (n : ℕ) (start : Cache) (s : State) : Type 0 where
  pub left : ℕ
  pub later : List Block
  pub applied :
      apply_all s.requests (start, replicate n (0, 0))
      ≡ ok (plain s.cache, map block_of s.forwards ++ later)
  pub size : length s.forwards + left ≡ n
  pub current : Current (started s.active) s.cache left later

-- The rounds that change neither the cache nor the requests, and keep the forward under way.
Follows-SameTrace :
    {n : ℕ} {start : Cache} (s s' : State)
    → SameTrace s s'
    → started s'.active ≡ started s.active
    → Follows n start s
    → Follows n start s'
Follows-SameTrace {n} {start} s s' t kept v = record {
  left = v.left;
  later = v.later;
  applied = rw (t.requests, t.cache, t.forwards) v.applied;
  size = rw t.forwards v.size;
  current = rw (kept, t.cache) v.current;
}

Follows-begin :
    {n : ℕ} {start : Cache} (s s' : State)
    → SameTrace s s'
    → length s.forwards < n
    → started s.active ≡ none
    → started s'.active ≡ some (s.cache.hits, s.cache.misses)
    → Follows n start s
    → Follows n start s'
Follows-begin {n} {start} s s' t more before after v =
    let fresh : v.later ≡ replicate v.left (0, 0) = rw before at v.current in
    let some_left : (k : ℕ) × (v.left ≡ suc k) = (v.left - 1, omega (arith, v.size, more)) in
    record {
      left = v.left;
      later = v.later;
      applied = rw (t.requests, t.cache, t.forwards) v.applied;
      size = rw t.forwards v.size;
      current =
          rw (after, t.cache)
            (
              some_left.0,
              0,
              0,
              omega (arith, some_left.1),
              fresh ∙ ap (λ k. replicate k (0, 0)) some_left.1,
              omega arith,
              omega arith,
            );
    }

-- An acquisition of the forward under way counts in its block.
apply-acquire :
    (key kind : ℕ) (c c' : Cache) (a : Answer) (forwards : List Completed) (b : Block)
    (later : List Block)
    → acquire key (some kind) c ≡ ok (c', a)
    → apply (acquire_request key (length forwards)) (plain c, map block_of forwards ++ b ∷ later)
      ≡ ok (plain c', map block_of forwards ++ count_block a.hit b ∷ later)
unfolding apply
apply-acquire key kind c c' a forwards b later acquired =
    rw (acquire-plain key (some kind) c, acquired)
      (rw (item_current forwards later b)
        (rw (store_current forwards later b (count_block a.hit b)) refl))

apply-lease :
    (released : Bool) (key pins i : ℕ) (c c' : Cache) (blocks : List Block)
    → lease key released c ≡ ok (c', pins)
    → apply (lease_request released key i) (plain c, blocks) ≡ ok (plain c', blocks)
unfolding apply
apply-lease released key pins i c c' blocks leased = rw (lease-plain key released c, leased) refl

Follows-acquire :
    {n : ℕ} {start : Cache} (s s' : State) (key kind : ℕ) (a : Answer) (before : ℕ × ℕ)
    → acquire key (some kind) s.cache ≡ ok (s'.cache, a)
    → s'.forwards ≡ s.forwards
    → started s.active ≡ some before
    → started s'.active ≡ some before
    → s'.requests ≡ s.requests ++ acquire_request key (length s.forwards) ∷ []
    → Follows n start s
    → Follows n start s'
Follows-acquire {n} {start} s s' key kind a before acquired same now after added v =
    let (later, hits, misses, enough, split, hit, missed) = rw now at v.current in
    let counted = acquire-Counts key (some kind) s.cache acquired in
    let next : Block = count_block a.hit (hits, misses) in
    record {
      left = v.left;
      later = next ∷ replicate later (0, 0);
      applied =
          rw (added, same)
            (apply_all-append s.requests _ _
              ∙ (rw (v.applied, split)
                  (apply-acquire key kind s.cache s'.cache a s.forwards (hits, misses)
                    (replicate later (0, 0)) acquired)));
      size = rw same v.size;
      current = rw after (
        later,
        next.0,
        next.1,
        enough,
        refl,
        ground (arith, counted, hit),
        ground (arith, counted, missed),
      );
    }

Follows-lease :
    {n : ℕ} {start : Cache} (s s' : State) (released : Bool) (key pins : ℕ)
    → lease key released s.cache ≡ ok (s'.cache, pins)
    → s'.forwards ≡ s.forwards
    → started s'.active ≡ started s.active
    → s'.requests ≡ s.requests ++ lease_request released key (length s.forwards) ∷ []
    → Follows n start s
    → Follows n start s'
Follows-lease {n} {start} s s' released key pins leased same kept added v = record {
  left = v.left;
  later = v.later;
  applied =
      rw (added, same)
        (apply_all-append s.requests _ _
          ∙ (rw v.applied
              (apply-lease released key pins (length s.forwards) s.cache s'.cache _ leased)));
  size = rw same v.size;
  current = rw kept (
      Current-same (started s.active) s.cache s'.cache v.left v.later
        (lease-SameCounts key released s.cache leased) v.current);
}

Follows-end :
    {n : ℕ} {start : Cache} (s s' : State) (f : Completed) (before : ℕ × ℕ)
    → IsCount s.cache before f
    → s'.cache ≡ s.cache
    → s'.requests ≡ s.requests
    → s'.forwards ≡ s.forwards ++ f ∷ []
    → started s.active ≡ some before
    → started s'.active ≡ none
    → Follows n start s
    → Follows n start s'
Follows-end {n} {start} s s' f before counted same_cache same_requests added now after v =
    let (later, hits, misses, enough, split, hit, missed) = rw now at v.current in
    let block =
      block_of_lem f hits misses (omega (arith, counted.hits, hit))
        (omega (arith, counted.misses, missed)) in
    record {
      left = later;
      later = replicate later (0, 0);
      applied =
          rw (same_requests, same_cache, added)
            (v.applied
              ∙ ap (λ blocks. ok (plain s.cache, blocks))
                  (ap (λ l. map block_of s.forwards ++ l)
                      (split ∙ ap (λ b. b ∷ replicate later (0, 0)) block)
                    ∙ map-append_one s.forwards f (replicate later (0, 0))));
      size = omega (arith, ap length added, length-append s.forwards (f ∷ []), v.size, enough);
      current = rw after refl;
    }

Follows-Change :
    {w : Capture} {start : Cache} (s s' : State)
    → Change w s s'
    → Follows (length w.patterns) start s
    → Follows (length w.patterns) start s'
Follows-Change s s' (begins t more before after) v = Follows-begin s s' t more before after v
Follows-Change s s' (keeps t kept) v = Follows-SameTrace s s' t kept v
Follows-Change s s' (acquires key kind a before acquired same now after added) v =
    Follows-acquire s s' key kind a before acquired same now after added v
Follows-Change s s' (leases released key pins leased same kept added) v =
    Follows-lease s s' released key pins leased same kept added v
Follows-Change s s' (ends f before counted same_cache same_requests added now after) v =
    Follows-end s s' f before counted same_cache same_requests added now after v

pub run-Follows :
    (w : Capture) (start : Cache) (events : List Event) (s : State) {s' : State}
    → run w events s ≡ ok s'
    → Follows (length w.patterns) start s
    → Follows (length w.patterns) start s'
unfolding run
run-Follows w start [] s h v = rw (ok_injective h) at v
run-Follows w start (e ∷ events) s h v =
    let (s1, stepped, h1) = bind_inverse (step w e s) _ h in
    run-Follows w start events s1 h1 (Follows-Change s s1 (step-Change w e s stepped) v)

pub initial-Follows :
    (w : Capture) (c : Cache) → plain c ≡ c → Follows (length w.patterns) c (initial c)
unfolding apply_all
initial-Follows w c bare = record {
  left = length w.patterns;
  later = replicate (length w.patterns) (0, 0);
  applied = rw bare refl;
  size = omega arith;
  current = refl;
}
