-- ===== src/Timeline.antt =====
-- `partition` of scripts/qwen/decode_timeline.py: the time of a token, split into buckets. Its
-- `summarize` is in the modules below.
pub mod Totals
pub mod Groups
pub mod Experts
pub mod Summary
pub mod Sums
mod Tests
mod Runs
use zerocool.Prelude.{
  ℕ, zero, suc, ◌+◌, ◌-◌, Bool, true, false, not, ◌&&◌, Option, none, some, List, [], ◌∷◌, ◌++◌,
  map, if◌then◌else◌, ◌==◌, nat_eq, ltb, leb, get_or, set, replicate, Result, ok, ◌>>=◌, ◌>>◌,
  require, filter, length, sorted_set, max,
}
use Prim.Native.Nat.{min}
use zerocool.Dict.{Dict, get, put}

-- the members of `BUCKETS`, by their place there
pub data Bucket : Type 0 where
  gpu_active gpu_idle_submitted gpu_idle_ready_expert gpu_idle_pending_read gpu_idle_callback
        gpu_idle_other :
      Bucket

abbrev pub place : Bucket → ℕ
place gpu_active = 0
place gpu_idle_submitted = 1
place gpu_idle_ready_expert = 2
place gpu_idle_pending_read = 3
place gpu_idle_callback = 4
place gpu_idle_other = 5

pub record Interval : Type 0 where
  pub kind : Bucket
  pub from : ℕ
  pub to : ℕ

-- a change of a bucket's count: up (`true`) or down
abbrev pub Change : Type 0
Change = Bucket × Bool

abbrev pub Events : Type 0
Events = Dict ℕ (List Change)

abbrev pub changes_at : ℕ → Events → List Change
changes_at at events = elim (get at events) [ none ↦ [] | some changes ↦ changes ]

-- `events[at].append(change)`, where a missing key stands for `[]`
unfoldable pub append_at : ℕ → Change → Events → Events
append_at at change events = put at (changes_at at events ++ change ∷ []) events

-- the loop over the intervals
unfoldable pub collect : ℕ → ℕ → List Interval → Events → Result Events
collect begin end [] events = ok events
collect begin end (v ∷ intervals) events = do
  require (not (place v.kind == 5) && leb v.from v.to) "Invalid interval"
  let a = max begin v.from
  let b = min end v.to
  collect begin end intervals
      (if ltb a b then append_at b (v.kind, false) (append_at a (v.kind, true) events) else events)

abbrev pub is_change : ℕ → Bool → Change → Bool
is_change kind up (bucket, true) = place bucket == kind && up
is_change kind up (bucket, false) = place bucket == kind && not up

-- `active[k]` is not 0: the changes up are not as many as the changes down
unfoldable pub is_active : List Change → ℕ → Bool
is_active changes kind = not (
    length (filter (is_change kind true) changes) == length (filter (is_change kind false) changes))

-- the first active kind, or the last bucket
unfoldable pub current : List Change → ℕ
current changes =
    if is_active changes 0
    then 0
    else if is_active changes 1
    then 1
    else if is_active changes 2
    then 2
    else if is_active changes 3
    then 3
    else if is_active changes 4
    then 4
    else 5

-- the loop over the times: `changes` are those so far, which make up `active`
unfoldable pub walk : Events → List ℕ → ℕ → List Change → List ℕ → List ℕ
walk events [] previous changes totals = totals
walk events (at ∷ times) previous changes totals =
    let kind = current changes in
    walk events times at (changes ++ changes_at at events)
      (set totals kind (get_or totals kind 0 + (at - previous)))

-- the totals, each at its bucket's place; the assert on their sum behind the loop is left out
unfoldable pub partition : ℕ → ℕ → List Interval → Result (List ℕ)
partition begin end intervals = do
  require (ltb begin end) "Invalid token interval"
  events ← collect begin end intervals ((begin, []) ∷ (end, []) ∷ [])
  ok (walk events (sorted_set (map (λ e. e.0) events)) begin [] (replicate 6 0))
