-- ===== src/Simulation/Segmented.antt =====
-- `SegmentedLRU` of scripts/qwen/cache_simulation.py: a probation and a protected segment, both in
-- order of use. The dictionaries carry no values (`None` in the source).
pub mod Access
pub mod Miss
mod Tests
use zerocool.Prelude.{
  ℕ, ◌+◌, ◌*◌, ◌/◌, Bool, true, false, List, [], if◌then◌else◌, ◌==◌, nat_eq, ltb, length, Result,
  ok, ◌>>=◌,
}
use zerocool.Dict.{Dict, put, contains, delete, move_to_end, pop_first}

pub record Segmented : Type 0 where
  pub capacity : ℕ
  pub protected_limit : ℕ
  pub probation : Dict ℕ (Unit {0})
  pub protected : Dict ℕ (Unit {0})

-- `__init__`
abbrev pub segmented : ℕ → Segmented
segmented capacity = record {
  capacity = capacity;
  protected_limit = 3 * capacity / 4;
  probation = [];
  protected = [];
}

-- the demotion at the end of a probation hit: the oldest protected key goes back on probation
unfoldable pub demote : Segmented → Result Segmented
demote s =
    if ltb s.protected_limit (length s.protected)
    then (do
      (demoted, rest) ← pop_first s.protected
      ok (record s { protected = rest; probation = put demoted.0 tt s.probation }))
    else ok s

-- the eviction on a miss at full capacity
unfoldable pub make_room : Segmented → Result Segmented
make_room s =
    if length s.protected + length s.probation == s.capacity
    then (do (_, rest) ← pop_first s.probation; ok (record s { probation = rest }))
    else ok s

-- `access`: the new state, and whether the key was resident
unfoldable pub access : ℕ → Segmented → Result (Segmented × Bool)
access key s =
    if contains key s.protected
    then (do protected ← move_to_end key s.protected; ok (record s { protected = protected }, true))
    else if contains key s.probation
    then (do
      probation ← delete key s.probation
      s' ← demote (record s { probation = probation; protected = put key tt s.protected })
      ok (s', true))
    else if s.capacity == 0
    then ok (s, false)
    else (do s' ← make_room s; ok (record s' { probation = put key tt s'.probation }, false))
