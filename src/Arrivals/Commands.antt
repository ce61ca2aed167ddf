-- ===== src/Arrivals/Commands.antt =====
-- The commands of a captured batch in `trace_batches` of scripts/qwen/q4_read_arrivals.py: the events
-- by the time of their submission.
use zerocool.Prelude.{
  ℕ, ◌+◌, ◌-◌, max, Bool, ◌&&◌, List, [], ◌∷◌, ◌++◌, map, ◌==◌, nat_eq, if◌then◌else◌, ltb, leb,
  length, Result, ok, raise, key_error, ◌>>=◌, ◌>>◌, require, all, filter, sum_of, sorted_set,
}
use zerocool.Arrivals.Events.{Event}

pub record Command : Type 0 where
  pub cycle : ℕ
  pub batch : ℕ
  pub submitted : ℕ
  pub gpu_start : ℕ
  pub gpu_end : ℕ
  pub experts : ℕ

-- the keys of `by_submit` in order, and the events of one
abbrev pub submissions_of : List Event → List ℕ
submissions_of events = sorted_set (map (λ e. e.submitted) events)

abbrev pub members_of : ℕ → List Event → List Event
members_of submitted events = filter (λ e. e.submitted == submitted) events

-- the one interval of all the members
unfoldable pub interval_of : List Event → Result (ℕ × ℕ)
interval_of [] = raise key_error
interval_of (e ∷ events) = do
  require (all (λ f. f.gpu_start == e.gpu_start && f.gpu_end == e.gpu_end) events)
      "One command has conflicting GPU timestamps"
  ok (e.gpu_start, e.gpu_end)

unfoldable pub command_of : ℕ → ℕ → ℕ → List Event → ℕ → Result Command
command_of group cycle batch events submitted = do
  let members = members_of submitted events
  require (ltb 0 (length members) && leb (length members) group)
      "Captured command exceeds the ready-group cap"
  (begins, ends) ← interval_of members
  ok (record {
    cycle = cycle;
    batch = batch;
    submitted = submitted;
    gpu_start = begins;
    gpu_end = ends;
    experts = length members;
  })

-- the loop over the submissions
unfoldable pub commands_at : ℕ → ℕ → ℕ → List Event → List ℕ → Result (List Command)
commands_at group cycle batch events [] = ok []
commands_at group cycle batch events (submitted ∷ rest) = do
  command ← command_of group cycle batch events submitted
  commands ← commands_at group cycle batch events rest
  ok (command ∷ commands)

abbrev pub smaller : ℕ → ℕ → ℕ
smaller n m = if ltb m n then m else n

-- `max(start, prior['gpu_start_ns']) < min(end, prior['gpu_end_ns'])`
abbrev pub overlaps : Command → Command → Bool
overlaps a b = ltb (max a.gpu_start b.gpu_start) (smaller a.gpu_end b.gpu_end)

-- `overlapping_pairs`: each command with those before it
unfoldable pub overlaps_after : List Command → List Command → ℕ
overlaps_after before [] = 0
overlaps_after before (c ∷ commands) =
    length (filter (overlaps c) before) + overlaps_after (before ++ c ∷ []) commands

-- `batch_gpu`
abbrev pub gpu_of : List Command → ℕ
gpu_of = sum_of (λ c. c.gpu_end - c.gpu_start)

abbrev pub experts_of : List Command → ℕ
experts_of = sum_of (λ c. c.experts)
