-- ===== src/Tests/Bounds.antt =====
-- The bounds of types/mod.rs and device/mod.rs at the small device, and the progress of two tasks.
use zoned.Base.{◌+◌, ◌-◌, ◌≤◌, ◌<◌, ◌≡◌, refl, ◌⊎◌, some, [], ◌∷◌, replicate, arith, u64_mod}
use zoned.Errors.{invalid_range}
use zoned.Types.{Zone, remaining_capacity, sequential_write_required, full}
use zoned.Types.Bounds.{remaining_capacity-bounds}
use zoned.Device.{reset_zones, open_zones, close_zones, finish_zones}
use zoned.Device.Bounds.{Checked, zone_commands-Checked}
use zoned.Async.Shared.{Tasks, Reach, takes_lock, here, next}
use zoned.Async.Shared.Progress.{Advances, steps, reach-Advances}
use zoned.Tests.{Medium, platform, device, blank, zone_at}
use zoned.Tests.Async.{threads, threads-Runs, two_sectors, before}

-- A full zone, whose pointer is at its end and so behind its capacity.
abbrev full_zone : Zone
full_zone = zone_at 16 sequential_write_required full (some 24)

remaining_capacity-bounds_example :
    ((24 ≤ 22) × (24 + remaining_capacity full_zone ≡ 22))
    ⊎ ((22 < 24) × (remaining_capacity full_zone + (24 - 22) ≡ u64_mod))
remaining_capacity-bounds_example =
    remaining_capacity-bounds full_zone 24 refl (omega arith) (omega arith) (omega arith)

zone_commands-Checked_example :
    Checked
      ((0 < 0) × (8 + 0 < u64_mod))
      (invalid_range 8 0)
      blank
      (platform.reset_zones 8 0 blank)
      (reset_zones device 8 0 blank)
    × Checked
        ((0 < 0) × (8 + 0 < u64_mod))
        (invalid_range 8 0)
        blank
        (platform.open_zones 8 0 blank)
        (open_zones device 8 0 blank)
    × Checked
        ((0 < 0) × (8 + 0 < u64_mod))
        (invalid_range 8 0)
        blank
        (platform.close_zones 8 0 blank)
        (close_zones device 8 0 blank)
    × Checked
        ((0 < 0) × (8 + 0 < u64_mod))
        (invalid_range 8 0)
        blank
        (platform.finish_zones 8 0 blank)
        (finish_zones device 8 0 blank)
zone_commands-Checked_example = zone_commands-Checked device 8 blank 0

-- One task writes, the other waits.
abbrev one_writes : Tasks Medium
one_writes = record before { lock = some (replicate 512 5); waiting = two_sectors ∷ [] }

abbrev one_turn : Reach threads before one_writes
one_turn = next here (takes_lock before (two_sectors ∷ []) [] (replicate 512 5) refl refl)

reach-Advances_example : Advances threads before (steps one_turn) one_writes
reach-Advances_example =
    reach-Advances threads threads-Runs device (λ buf offset w. tt) refl one_turn
