-- ===== src/Tests/Handle.antt =====
-- Sequential writes of zone_handle/mod.rs at the small device.
use zoned.Base.{ℕ, ◌*◌, ◌-◌, refl, false, List, [], ◌∷◌, arith, length, min, replicate}
use zoned.Errors.{ok}
use zoned.Device
use zoned.Device.{ZonedDevice}
use zoned.Handle.{ZoneHandle, write_all_sequential}
use zoned.Handle.Write.{Appended, write_all_sequential-Appended}
use zoned.Handle.Tracked.{Call, writes, writes_all, finishes, resets}
use zoned.Tests.{Medium, platform, device, blank, device-Storage}

abbrev second_zone : ZoneHandle Medium
second_zone = record {
  device = device;
  zone_index = 1;
  start = 8;
  len = 8;
  capacity = 6;
  write_pointer = 10;
  registered = false;
}

-- Three sectors, which the device takes in two writes.
abbrev three_sectors : List ℕ
three_sectors = replicate 1536 7

write_all_sequential-Appended_example :
    Appended
      (λ m. m)
      blank
      second_zone
      three_sectors
      (write_all_sequential three_sectors (second_zone, blank))
write_all_sequential-Appended_example =
    write_all_sequential-Appended (λ m. m) second_zone three_sectors blank device-Storage
      (omega arith) refl

-- A device that takes no byte from the end of the second zone on.
abbrev fenced : ZonedDevice Medium
fenced = record {
  inner = record platform {
    write_at = λ buf offset m. (ok (min (length buf) (16 * 512 - offset)), m);
    writev_at = λ bufs offset m. (ok (16 * 512 - offset), m);
  };
}

abbrev fenced_zone : ZoneHandle Medium
fenced_zone = record second_zone { device = fenced }

abbrev calls : List Call
calls = writes_all three_sectors ∷ finishes ∷ writes three_sectors ∷ resets ∷ []
