-- ===== src/Arrivals/Tests.antt =====
-- One device around an arm.
use zerocool.Prelude.{ℕ, ◌≡◌, refl, [], ◌∷◌, ok, all, sum_of, sorted_set, insert_number}
use zerocool.Dict.{Dict, get, contains}
use zerocool.Json.{Value, int, list, object, as_items, end, field, find, at, get_key, are_uint}
use zerocool.Arrivals.Disk.{
  Device, available, unavailable, device_of, devices_of, distinct, snapshot_of, difference,
  after_of, before_of, disk_observation,
}
use zerocool.Arrivals.Sums.{IsTaken, IsCounted, disk_observation-available}

abbrev counters : ℕ → ℕ → Value
counters read written = object (
    field "devices"
      (list (
        as_items (
          object (
            field "registry_id" (int 8)
              (field "read_bytes" (int read) (field "write_bytes" (int written) end)))
          ∷ [])))
      end)

abbrev arm : Value → Value → Value
arm before after = object (field "disk_before" before (field "disk_after" after end))

observed : disk_observation (arm (counters 5 6) (counters 9 6)) ≡ ok (available 4 0)
unfolding disk_observation before_of after_of snapshot_of devices_of device_of distinct difference
    get contains at get_key find are_uint all sum_of sorted_set insert_number
observed = refl

reset :
    disk_observation (arm (counters 5 6) (counters 4 6)) ≡ ok (unavailable "Device counter reset")
unfolding disk_observation before_of after_of snapshot_of devices_of device_of distinct difference
    get contains at get_key find are_uint all sum_of sorted_set insert_number
reset = refl

disk_observation-available_example :
    (before after : Dict ℕ Device) × IsTaken "disk_before"
      (arm (counters 5 6) (counters 9 6))
      before
    × IsTaken "disk_after" (arm (counters 5 6) (counters 9 6)) after
    × IsCounted before after 4 0
disk_observation-available_example =
    disk_observation-available (arm (counters 5 6) (counters 9 6)) 4 0 observed
