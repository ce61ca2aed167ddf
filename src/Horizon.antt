-- ===== src/Horizon.antt =====
-- `patterns` of scripts/qwen/horizon_cache_replay.py: the forwards that a capture at a fixed width
-- makes, over the lengths of the workload's prompt and continuation. Its `decode` and `summarize` are
-- in the modules below.
pub mod Coverage
pub mod Summary
pub mod Decode
pub mod Control
mod Tests
use zerocool.Prelude.{
  ℕ, zero, suc, ◌+◌, ◌-◌, Bool, ◌&&◌, ◌||◌, List, [], ◌∷◌, if◌then◌else◌, ◌==◌, nat_eq, ltb, leb,
  Result, ok, ◌>>=◌, ◌>>◌, require, raise, diverged,
}
use zerocool.Replay.Coverage.{Forward, prefill, decode}

-- the rows of one forward
unfoldable pub rows_at : ℕ → ℕ → ℕ → ℕ
rows_at width count consumed = if leb width (count - consumed) then width else 1

-- the `while consumed < count`; a round consumes a row at least, so `count` rounds and one more
-- are fuel enough
unfoldable pub decode_from : ℕ → ℕ → ℕ → ℕ → ℕ → Result (List Forward)
decode_from zero width prompt count consumed = raise diverged
decode_from (suc fuel) width prompt count consumed =
    let rows = rows_at width count consumed in
    let more = (do
      rest ← decode_from fuel width prompt count (consumed + rows)
      ok (record { at = prompt + consumed; count = rows; phase = decode } ∷ rest)) in
    if ltb consumed count then more else ok []

unfoldable pub patterns : ℕ → ℕ → ℕ → Result (List Forward)
patterns width prompt count = do
  require (width == 4 || width == 8) "Unsupported trace width"
  require (leb 1 prompt && leb prompt 128 && (leb 1 count && leb count 64))
      "Unbounded trace workload"
  rest ← decode_from (suc count) width prompt count 0
  ok (record { at = 0; count = prompt; phase = prefill } ∷ rest)
