-- ===== src/Tests/Cursor.antt =====
-- Seeks and writes of device/cursor.rs at the small device.
use zoned.Base.{ℕ, ◌≡◌, ◌⊎◌, List, arith, replicate, negsuc}
use zoned.Errors.{IoError, ok, err}
use zoned.Device.Cursor.{Cursor, current, write, seek}
use zoned.Device.Cursor.Laws.{Asks, Allowed, Puts, seek-Asks, write-Puts}
use zoned.Tests.{Medium, device, blank, device-Storage}

abbrev at_1024 : Cursor Medium
at_1024 = record { device = device; position = 1024 }

seek-Asks_example :
    ((t : ℕ) × Asks (current (negsuc 511)) 1024 t
      × Allowed t
      × (seek (current (negsuc 511)) (at_1024, blank)
          ≡ (ok t, (record at_1024 { position = t }, blank))))
    ⊎ ((e : IoError) × ((t : ℕ) → Asks (current (negsuc 511)) 1024 t → ¬ Allowed t)
        × (seek (current (negsuc 511)) (at_1024, blank) ≡ (err e, (at_1024, blank))))
seek-Asks_example = seek-Asks at_1024 blank (current (negsuc 511)) tt (omega arith)

abbrev one_sector : List ℕ
one_sector = replicate 512 9

write-Puts_example : Puts (λ m. m) blank at_1024 one_sector (write one_sector (at_1024, blank))
write-Puts_example = write-Puts (λ m. m) at_1024 one_sector blank device-Storage (omega arith)
