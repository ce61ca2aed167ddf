-- ===== src/Horizon/Control.antt =====
-- The control of `summarize` in scripts/qwen/horizon_cache_replay.py never differs from a capture that
-- decode of block_cache_replay.py accepts.
use zerocool.Prelude.{
  ℕ, ◌+◌, ◌≡◌, refl, sym, ap, ◌∙◌, arith, true, ◌&&◌, List, ◌==◌, nat_eq, nat_equal_iff, ok,
  ok_injective, map, Bool-cases, inl, inr, raise, Exception,
}
use zerocool.Replay.Events.{Capture, Event}
use zerocool.Replay.State.{State}
use zerocool.Replay.Decode.{decode_events}
use zerocool.Replay.Simulate.{Simulation, Block}
use zerocool.Replay.Simulate.Agrees.{simulate-decode_events, summary}
use zerocool.Replay.Simulate.Blocks.{block_of}
use zerocool.Horizon.Summary.{check_control, curve_at, actual_hits, actual_misses}

raised : {e : Exception} {c : Simulation} → raise e ≡ ok c → ⊥
raised h = cc

summary-sums :
    (capacity hits misses : ℕ) (blocks : List Block) {c : Simulation}
    → summary capacity hits misses blocks ≡ ok c
    → (hits ≡ c.decode_hits) × (misses ≡ c.decode_misses)
summary-sums capacity hits misses blocks h = elim (Bool-cases (hits + misses == 0)) [
  | inl nothing ↦ elim (raised (rw nothing at h)) [ ]
  | inr counted ↦
      let made = ok_injective (rw counted at h) in
      (ap (λ c. c.decode_hits) made, ap (λ c. c.decode_misses) made)
]

-- Where decode accepts a capture, the simulation at the capture's capacity, if it answers at all,
-- counts the hits and misses of the capture behind its first forward, so that `summarize` takes it as
-- its control.
pub check_control-decode_events :
    (w : Capture) (prompt continuation : ℕ) (events : List Event) {s : State} {control : Simulation}
    → decode_events w prompt continuation events ≡ ok s
    → curve_at s w.capacity ≡ ok control
    → check_control control s ≡ ok tt
unfolding check_control
check_control-decode_events w prompt continuation events {s} {control} decoded simulated =
    let answered = sym (simulate-decode_events w prompt continuation events decoded) ∙ simulated in
    let (hits, misses) =
      summary-sums w.capacity (actual_hits s) (actual_misses s) (map block_of s.forwards)
        answered in
    let agrees : (control.decode_hits == actual_hits s && control.decode_misses == actual_misses s)
        ≡ true =
      ground (
        arith,
        hits,
        misses,
        nat_equal_iff control.decode_hits (actual_hits s),
        nat_equal_iff control.decode_misses (actual_misses s),
      ) in
    rw agrees refl
