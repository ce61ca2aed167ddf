-- ===== src/Replay/Coverage.antt =====
-- The check of the expected forwards at the head of `decode` in
-- scripts/qwen/block_cache_replay.py. `prompt` and `continuation` are the lengths of the workload's
-- two token lists.
use zerocool.Prelude.{
  ℕ, ◌+◌, ◌≡◌, ◌≤◌, arith, Bool, true, false, ◌&&◌, List, [], ◌∷◌, ◌==◌, nat_eq, leb, length,
  Result, ok, ◌>>=◌, ◌>>◌, require,
}

pub data Phase : Type 0 where
  prefill decode : Phase

-- a forward: its offset, its tokens and its phase
pub record Forward : Type 0 where
  pub at : ℕ
  pub count : ℕ
  pub phase : Phase

-- `phase == ('prefill' if i == 0 else 'decode')`
abbrev pub expected_phase : Bool → Phase → Bool
expected_phase true prefill = true
expected_phase false decode = true
expected_phase _ _ = false

-- the loop over the patterns, from a position: the position after them
unfoldable pub check_from : Bool → ℕ → List Forward → Result ℕ
check_from first position [] = ok position
check_from first position (f ∷ rest) = do
  require (leb f.at 8191) "forward offset must be an integer in 0..8191"
  require (leb 1 f.count && leb f.count 128) "forward tokens must be an integer in 1..128"
  require (f.at == position && expected_phase first f.phase) "Noncontiguous expected forwards"
  check_from false (position + f.count) rest

abbrev pub first_count : List Forward → ℕ
first_count [] = 0
first_count (f ∷ rest) = f.count

unfoldable pub check_patterns : ℕ → ℕ → List Forward → Result (Unit {0})
check_patterns prompt continuation patterns = do
  require (leb 2 (length patterns) && leb (length patterns) 65) "Missing bounded forward coverage"
  position ← check_from true 0 patterns
  require (position == prompt + continuation && first_count patterns == prompt)
      "Expected coverage does not match workload"

-- One forward that passes.
pub check_step :
    (first : Bool) (position : ℕ) (f : Forward) (rest : List Forward)
    → f.at ≡ position
    → position ≤ 8191
    → 1 ≤ f.count
    → f.count ≤ 128
    → expected_phase first f.phase ≡ true
    → check_from first position (f ∷ rest) ≡ check_from false (position + f.count) rest
unfolding check_from
check_step first position f rest e low one most phase = ground arith
