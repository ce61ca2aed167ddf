-- ===== src/Timeline/Tests.antt =====
-- Runs of `partition`.
use zerocool.Prelude.{
  ℕ, ◌+◌, ◌≡◌, refl, List, [], ◌∷◌, arith, ok, sum_of, filter, sorted_set, insert_number, nat_eq,
}
use zerocool.Dict.{get, put}
use zerocool.Timeline.{
  Interval, partition, collect, append_at, walk, current, is_active, gpu_active,
  gpu_idle_pending_read,
}
use zerocool.Timeline.Totals.{sum-partition}

-- the device at work to 12 and a read pending from 11 to 15, of a token's time from 10 to 20
abbrev intervals : List Interval
intervals =
    record { kind = gpu_active; from = 8; to = 12 }
    ∷ record { kind = gpu_idle_pending_read; from = 11; to = 15 }
    ∷ []

partition_run : partition 10 20 intervals ≡ ok (2 ∷ 0 ∷ 0 ∷ 3 ∷ 0 ∷ 5 ∷ [])
unfolding partition collect append_at walk current is_active filter sorted_set insert_number get put
partition_run = refl

sum-partition_example :
    (totals : List ℕ) × (partition 10 20 intervals ≡ ok totals) × (sum_of (λ t. t) totals + 10 ≡ 20)
sum-partition_example =
    sum-partition 10 20 intervals (omega arith)
      ((omega arith, omega arith), ((omega arith, omega arith), tt))
