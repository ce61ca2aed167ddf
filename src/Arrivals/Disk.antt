-- ===== src/Arrivals/Disk.antt =====
-- `disk_observation` of scripts/qwen/q4_read_arrivals.py.
use zerocool.Prelude.{
  ℕ, ◌-◌, Bool, not, ◌&&◌, Option, none, some, List, [], ◌∷◌, map, String, ◌==◌, nat_eq,
  if◌then◌else◌, ltb, length, Result, ok, ◌>>=◌, all, sorted_set, sum_of,
}
use zerocool.Dict.{Dict, get, contains}
use zerocool.Json.{Value, at, get_key, is_object, is_list, are_uint, elements, number}
use zerocool.Routes.Windows.{is_empty}

-- the counters of a device
pub record Device : Type 0 where
  pub registry_id : ℕ
  pub read_bytes : ℕ
  pub write_bytes : ℕ

-- the answer: the bytes between the snapshots, or why there are none
pub data Disk : Type 0 where
  available : ℕ → ℕ → Disk
  unavailable : String → Disk

unfoldable pub device_of : Value → Result Device
device_of d = do
  registry_id ← at "registry_id" d
  read_bytes ← at "read_bytes" d
  write_bytes ← at "write_bytes" d
  ok (record {
    registry_id = number registry_id;
    read_bytes = number read_bytes;
    write_bytes = number write_bytes;
  })

-- the devices, or none where the counters of one are not numbers
unfoldable pub devices_of : List Value → Result (Option (List Device))
devices_of [] = ok (some [])
devices_of (d ∷ ds) = do
  counted ← are_uint ("registry_id" ∷ "read_bytes" ∷ "write_bytes" ∷ []) d
  if counted
      then (do
        device ← device_of d
        rest ← devices_of ds
        ok (elim rest [ none ↦ none | some devices ↦ some (device ∷ devices) ]))
      else ok none

-- a snapshot, or the reason for none
pub data Snapshot : Type 0 where
  taken : Dict ℕ Device → Snapshot
  refused : String → Snapshot

unfoldable pub distinct : List Device → Snapshot
distinct devices =
    if length (sorted_set (map (λ d. d.registry_id) devices)) == length devices
    then taken (map (λ d. (d.registry_id, d)) devices)
    else refused "Duplicate device IDs"

-- `isinstance(raw.get('devices'), list) and raw['devices']`
abbrev pub is_filled : Value → Bool
is_filled v = is_list v && not (is_empty (elements v))

unfoldable pub snapshot_of : Value → Result Snapshot
snapshot_of raw =
    if is_object raw
    then (do
      value ← get_key "devices" raw
      if is_filled value
          then (do
            found ← devices_of (elements value)
            ok (elim found [
              | none ↦ refused "Invalid device counters"
              | some devices ↦ distinct devices
            ]))
          else ok (refused "Missing device counters"))
    else ok (refused "Missing device counters")

-- `before.keys() == after.keys()`
abbrev pub same_keys : Dict ℕ Device → Dict ℕ Device → Bool
same_keys before after =
    all (λ entry. contains entry.0 after) before && all (λ entry. contains entry.0 before) after

abbrev pub none_device : Device
none_device = record { registry_id = 0; read_bytes = 0; write_bytes = 0 }

-- `after[d]`, for a key that is there
abbrev pub device_at : ℕ → Dict ℕ Device → Device
device_at id after = elim (get id after) [ none ↦ none_device | some d ↦ d ]

-- the counters of every device do not fall
abbrev pub is_rising : (Device → ℕ) → Dict ℕ Device → Dict ℕ Device → Bool
is_rising counter before after =
    all (λ entry. not (ltb (counter (device_at entry.0 after)) (counter entry.1))) before

-- `sum(after[d][k]-before[d][k] for d in before)`, which is taken where no counter falls
abbrev pub added : (Device → ℕ) → Dict ℕ Device → Dict ℕ Device → ℕ
added counter before after =
    sum_of (λ entry. counter (device_at entry.0 after) - counter entry.1) before

unfoldable pub difference : Dict ℕ Device → Dict ℕ Device → Disk
difference before after =
    if same_keys before after
    then if is_rising (λ d. d.read_bytes) before after
        && is_rising (λ d. d.write_bytes) before after
      then available (added (λ d. d.read_bytes) before after)
          (added (λ d. d.write_bytes) before after)
      else unavailable "Device counter reset"
    else unavailable "Device inventory changed"

unfoldable pub after_of : Dict ℕ Device → Snapshot → Disk
after_of before (refused reason) = unavailable reason
after_of before (taken after) = difference before after

unfoldable pub before_of : Value → Snapshot → Result Disk
before_of arm (refused reason) = ok (unavailable reason)
before_of arm (taken before) = do
  raw ← get_key "disk_after" arm
  snapshot ← snapshot_of raw
  ok (after_of before snapshot)

unfoldable pub disk_observation : Value → Result Disk
disk_observation arm = do
  raw ← get_key "disk_before" arm
  snapshot ← snapshot_of raw
  before_of arm snapshot
