-- ===== src/Timeline/Groups.antt =====
-- The command groups of `summarize` in scripts/qwen/decode_timeline.py.
use zerocool.Prelude.{
  ℕ, ◌+◌, Bool, true, false, not, ◌&&◌, Option, none, some, List, [], ◌∷◌, ◌++◌, String, ◌==◌,
  nat_eq, if◌then◌else◌, leb, Result, ok, raise, value_error, type_error, ◌>>=◌, ◌>>◌, require,
  is_some,
}
use zerocool.Json.{Value, null, int, float, str, list, object, at, iterate, same}
use zerocool.Json.Numbers.{minus, size_of, ◌&?◌}
use zerocool.Timeline.{Interval, gpu_active, gpu_idle_submitted, gpu_idle_callback}

-- What the host does with floats, and with values that are not natural numbers.
pub record Clock : Type 0 where
  -- `int(x)` of a float that is finite and not negative
  pub nanoseconds : String → Option ℕ
  -- `int(x*1e9)` of a number for which that is finite and not negative
  pub of_seconds : Value → Option ℕ
  -- `abs(x-n) <= 2`
  pub is_near : String → ℕ → Bool
  -- `max(0, x-n)`
  pub gap : String → ℕ → Value
  -- `bool(x)` is false
  pub is_zero : String → Bool
  -- `v - w`, where not both are natural numbers
  pub subtract : Value → Value → Result Value
  -- `sorted(vs)`, where not all are natural numbers
  pub sort : List Value → Result (List Value)

abbrev some_ns : Option ℕ → Result ℕ
some_ns none = raise (value_error "Invalid timestamp")
some_ns (some n) = ok n

module _ (clock : Clock) where
  -- `ns(v)`
  unfoldable pub ns : Value → Result ℕ
  ns (int n) = ok n
  ns (float s) = some_ns (clock.nanoseconds s)
  ns _ = raise (value_error "Invalid timestamp")

  -- `ns(d[k])`
  abbrev pub ns_at : String → Value → Result ℕ
  ns_at k d = at k d >>= ns

  -- `ns(v*1e9)`
  unfoldable pub ns_of_seconds : Value → Result ℕ
  ns_of_seconds null = raise type_error
  ns_of_seconds (str s) = raise type_error
  ns_of_seconds (list vs) = raise type_error
  ns_of_seconds (object fs) = raise type_error
  ns_of_seconds v = some_ns (clock.of_seconds v)

  -- `v - w`
  unfoldable pub subtract : Value → Value → Result Value
  subtract (int a) (int b) = ok (minus a b)
  subtract v w = clock.subtract v w

-- an entry of `by_submit`, with its four times
pub record Group : Type 0 where
  pub submitted : ℕ
  pub completed : ℕ
  pub start : ℕ
  pub end : ℕ
  pub value : Value

-- `by_submit.get(submitted)`
unfoldable pub group_at : ℕ → List Group → Option Group
group_at submitted [] = none
group_at submitted (g ∷ groups) =
    if g.submitted == submitted then some g else group_at submitted groups

abbrev pub is_chained : Group → Bool
is_chained g = leb g.submitted g.start && leb g.start g.end && leb g.end g.completed

unfoldable pub read_group : Clock → Value → Result Group
read_group clock v = do
  submitted ← ns_at clock "submitted_ns" v
  completed ← ns_at clock "completed_ns" v
  from ← at "gpu_start_seconds" v
  start ← ns_of_seconds clock from
  to ← at "gpu_end_seconds" v
  end ← ns_of_seconds clock to
  ok (record { submitted = submitted; completed = completed; start = start; end = end; value = v })

-- the loop over the groups, behind those that were read
unfoldable pub read_groups : Clock → List Group → List Value → Result (List Group)
read_groups clock groups [] = ok groups
read_groups clock groups (v ∷ vs) = do
  g ← read_group clock v
  require (is_chained g && not (is_some (group_at g.submitted groups)))
      "Missing, reversed or duplicate command timestamps"
  read_groups clock (groups ++ g ∷ []) vs

-- `intervals`, of the groups
unfoldable pub group_intervals : List Group → List Interval
group_intervals [] = []
group_intervals (g ∷ groups) =
    record { kind = gpu_active; from = g.start; to = g.end }
    ∷ record { kind = gpu_idle_submitted; from = g.submitted; to = g.start }
    ∷ record { kind = gpu_idle_callback; from = g.end; to = g.completed }
    ∷ group_intervals groups

-- `sum(len(g['operations']) for g in groups)`
unfoldable pub operation_count : List Group → Result ℕ
operation_count [] = ok 0
operation_count (g ∷ groups) = do
  operations ← at "operations" g.value
  n ← size_of operations
  rest ← operation_count groups
  ok (n + rest)

-- `any(test(o) for o in vs)`
unfoldable pub any_of : (Value → Result Bool) → List Value → Result Bool
any_of test [] = ok false
any_of test (v ∷ vs) = do found ← test v; if found then ok true else any_of test vs

-- `d[k] == v`
unfoldable pub is_at : String → Value → Value → Result Bool
is_at k v d = do w ← at k d; ok (same w v)

-- `[g for g in groups if any(test(o) for o in g['operations'])]`
unfoldable pub groups_with : (Value → Result Bool) → List Group → Result (List Group)
groups_with test [] = ok []
groups_with test (g ∷ groups) = do
  value ← at "operations" g.value
  operations ← iterate value
  found ← any_of test operations
  rest ← groups_with test groups
  ok (if found then g ∷ rest else rest)

-- the groups of a token, and those that reduce the experts of a layer
abbrev pub active_groups : Value → List Group → Result (List Group)
active_groups offset =
    groups_with (λ o. is_at "request_phase" (str "decode") o &? is_at "offset" offset o)

abbrev pub reducing_groups : ℕ → List Group → Result (List Group)
reducing_groups layer =
    groups_with (λ o. is_at "stage" (str "expert_reduce") o &? is_at "layer" (int layer) o)
