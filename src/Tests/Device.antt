-- ===== src/Tests/Device.antt =====
-- Reports and writes of device/mod.rs at the small device.
use zoned.Base.{ℕ, ◌*◌, ◌≡◌, refl, some, List, [], ◌∷◌, arith, replicate}
use zoned.Errors.{Returns, ok}
use zoned.Types.{Zone, sequential_write_required, empty, implicitly_open}
use zoned.Types.Filter.{ZoneFilter}
use zoned.Device.{report_all_zones, write_all_at}
use zoned.Device.Report.{report_all_zones_complete, report_all_zones-Returns}
use zoned.Device.Iter.{report_zones_filtered}
use zoned.Device.Iter.Complete.{report_zones_filtered-select}
use zoned.Device.Write.{Written, write_all_at-Written}
use zoned.Tests.{device, blank, four_zones, zone_at, device-Serves, device-Storage}

report_all_zones_complete_example : report_all_zones device 3 blank ≡ (ok four_zones, blank)
report_all_zones_complete_example =
    report_all_zones_complete device four_zones blank (device-Serves blank) 3 (omega arith)

report_all_zones-Returns_example : Returns (report_all_zones device 1 blank).0
unfolding zoned.Device.device_info zoned.Device.report_zones
report_all_zones-Returns_example =
    report_all_zones-Returns device (λ w. tt) (λ s count w. tt) 1 blank

abbrev empty_sequential : ZoneFilter
empty_sequential = record { zone_types = sequential_write_required ∷ []; conditions = empty ∷ [] }

report_zones_filtered-select_example : report_zones_filtered 5 device empty_sequential 2 blank ≡ (
  ok (
      zone_at 16 sequential_write_required empty (some 16)
      ∷ zone_at 24 sequential_write_required empty (some 24)
      ∷ []),
  blank,
)
unfolding zoned.Types.Filter.matches
report_zones_filtered-select_example =
    report_zones_filtered-select device four_zones blank (device-Serves blank) 5 empty_sequential 2
      (omega arith) (omega arith)

-- Five sectors, which the device takes in three writes.
abbrev five_sectors : List ℕ
five_sectors = replicate 2560 7

write_all_at-Written_example :
    Written (λ m. m) blank (4 * 512) five_sectors (write_all_at device 4 five_sectors blank)
write_all_at-Written_example =
    write_all_at-Written device (λ m. m) device-Storage 4 five_sectors blank (omega arith) refl
