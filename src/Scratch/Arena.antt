-- ===== src/Scratch/Arena.antt =====
-- `scratch_snapshot` of scripts/qwen/q4_scratch_lifetime.py, and what a scope is to hold. A comparison of
-- numbers with a subtraction is written as one with a sum.
use zerocool.Prelude.{
  ℕ, ◌+◌, ◌-◌, ◌*◌, ◌/◌, ◌^◌, ◌&&◌, List, [], ◌∷◌, String, ◌==◌, nat_eq, if◌then◌else◌, ltb, leb,
  Result, ok, ◌>>=◌, ◌>>◌, require,
}
use zerocool.Json.{
  Value, str, int, negative, object, end, field, at, get_key, get_default, is_object, is_uint,
  are_uint, number, same,
}

abbrev pub passes : ℕ
passes = 48

-- SCRATCH_BUFFERS_PER_PASS
abbrev pub buffers : ℕ
buffers = 27

-- SCOPES
pub data Scope : Type 0 where
  batch forward : Scope

abbrev pub scope_text : Scope → Value
scope_text batch = str "batch"
scope_text forward = str "forward"

-- the slot of no arena, -1
abbrev pub no_slot : Value
no_slot = negative 0

abbrev pub pool_fields : List String
pool_fields =
    "capacity_bytes" ∷ "allocated_bytes" ∷ "peak_bytes" ∷ "unused_retained_bytes" ∷ "reuses"
    ∷ "allocation_count" ∷ "wait_ns" ∷ []

-- the numbers of a pool
unfoldable pub check_pool : Value → ℕ → ℕ → Value → Result (Unit {0})
check_pool snapshot retained used pool = do
  counted ← are_uint pool_fields pool
  require counted "Scratch cursor, retained bytes or fixed buffer-charge inference differs"
  capacity ← at "capacity_bytes" pool
  allocated ← at "allocated_bytes" pool
  peak ← at "peak_bytes" pool
  unused ← at "unused_retained_bytes" pool
  prefix ← get_key "active_prefix_bytes" snapshot
  inferred ← get_key "inferred_used_buffers" snapshot
  require
      (number capacity == 128 * 1024 ^ 2
        && number allocated == retained
        && leb retained (number peak)
        && leb (number peak) (number capacity)
        && number unused + used * 16384 == retained
        && same prefix (int (used * 16384))
        && same inferred (int used))
      "Scratch cursor, retained bytes or fixed buffer-charge inference differs"

-- `scratch_snapshot`; the budget is that of q4_read_arrivals.py
unfoldable pub scratch_snapshot : ℕ → Value → ℕ → ℕ → Value → Result Value
scratch_snapshot budget snapshot retained used active = do
  require (is_object snapshot)
      "Scratch observation has wrong arena state, outstanding users or invalid live bytes"
  slot ← get_key "active_scratch_slot" snapshot
  groups ← get_key "live_command_groups" snapshot
  live ← get_key "live_buffer_bytes" snapshot
  require
      (same slot active
        && same groups (int 0)
        && is_uint live
        && ltb 0 (number live)
        && leb (number live) budget)
      "Scratch observation has wrong arena state, outstanding users or invalid live bytes"
  pool ← get_default "pool" (object end) snapshot
  check_pool snapshot retained used pool
  ok pool

abbrev pub expected : Scope → Value
expected scope = object (
    field "passes" (int passes) (
      field "scope" (scope_text scope) (
        field "retained_payload" (str "shared-and-routed-temporaries")
          (field "buffers_per_pass" (int buffers) (field "buffer_charge_bytes" (int 16384) end)))))

abbrev pub retained_bytes : Scope → ℕ
retained_bytes batch = buffers * 16384
retained_bytes forward = buffers * 16384 * passes

abbrev pub boundaries : Scope → ℕ
boundaries batch = passes
boundaries forward = 1

-- the buffers in use before a pass, and the slot that is active
abbrev pub entering_used : Scope → ℕ → ℕ
entering_used batch index = retained_bytes batch / 16384
entering_used forward index = if index == 0 then retained_bytes forward / 16384 else index * buffers

abbrev pub entering_active : Scope → ℕ → Value
entering_active batch index = no_slot
entering_active forward index = if index == 0 then no_slot else int 0

-- those behind it
abbrev pub final_used : Scope → ℕ → ℕ
final_used batch index = buffers
final_used forward index = (index + 1) * buffers

abbrev pub final_active : Scope → ℕ → Value
final_active batch index = no_slot
final_active forward index = if ltb index (passes - 1) then int 0 else no_slot

-- an entry of `summary`
pub record Pass : Type 0 where
  pub pass_index : ℕ
  pub cycle : Value
  pub batch : Value
  pub active_after_work : Value
  pub used_buffers : ℕ
  pub active_prefix_bytes : Value
  pub retained_bytes : ℕ
