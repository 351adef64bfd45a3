-- ===== src/Platform/Freebsd/Args/Response.antt =====
-- What a report of platform/freebsd.rs reads out of the bytes that the kernel answers with.
use zoned.Base.{
  ℕ, zero, suc, ◌*◌, ◌/◌, ◌^◌, ◌≤◌, ◌<◌, ◌≡◌, refl, ap, arith, max, lt→ltb, List, [], ◌∷◌, map,
  length, take, drop, replicate, u32_mod,
}
use zoned.Base.Bytes.{to_le, from_le-to_le}
use zoned.Errors.{ok}
use zoned.Types.{Sector}
use zoned.Platform.Freebsd.{
  File, report_zones, report_zones_raw, filled_entries, min_report_entries,
}
use zoned.Platform.Freebsd.Entry.{DiskZoneRepEntry, DiskZoneDiskParams, entry_to_zone}
use zoned.Platform.Freebsd.Args.{
  DiskZoneReport, report_args, rwp_args, params_args, entries_filled_of, write_entry, read_entry,
  read_entries, RawIoctls, request, raw_report, raw_zone_ioctls,
}

-- The fields of an entry are in the range of their types.
pub record Fits (e : DiskZoneRepEntry) : Type 0 where
  pub zone_type_fits : e.zone_type < 256 ^ 1
  pub zone_condition_fits : e.zone_condition < 256 ^ 1
  pub zone_flags_fits : e.zone_flags < 256 ^ 1
  pub zone_length_fits : e.zone_length < 256 ^ 8
  pub zone_start_lba_fits : e.zone_start_lba < 256 ^ 8
  pub write_pointer_lba_fits : e.write_pointer_lba < 256 ^ 8

unfoldable pub AllFit : List DiskZoneRepEntry → Type 0
AllFit [] = Unit
AllFit (e ∷ es) = Fits e × AllFit es

read-write_entry :
    (e : DiskZoneRepEntry) (rest : List ℕ) → Fits e → read_entry (write_entry e rest) ≡ e
unfolding read_entry write_entry to_le
read-write_entry e rest h = λ i. record {
  zone_type = from_le-to_le 1 e.zone_type h.zone_type_fits i;
  zone_condition = from_le-to_le 1 e.zone_condition h.zone_condition_fits i;
  zone_flags = from_le-to_le 1 e.zone_flags h.zone_flags_fits i;
  zone_length = from_le-to_le 8 e.zone_length h.zone_length_fits i;
  zone_start_lba = from_le-to_le 8 e.zone_start_lba h.zone_start_lba_fits i;
  write_pointer_lba = from_le-to_le 8 e.write_pointer_lba h.write_pointer_lba_fits i;
}

drop-write_entry : (e : DiskZoneRepEntry) (rest : List ℕ) → drop 64 (write_entry e rest) ≡ rest
unfolding write_entry to_le
drop-write_entry e rest = refl

pub write_entries : List DiskZoneRepEntry → List ℕ → List ℕ
write_entries [] rest = rest
write_entries (e ∷ es) rest = write_entry e (write_entries es rest)

take-read_entries :
    (es : List DiskZoneRepEntry) (count : ℕ) (rest : List ℕ)
    → length es ≤ count
    → AllFit es
    → take (length es) (read_entries count (write_entries es rest)) ≡ es
unfolding read_entries write_entries AllFit
take-read_entries [] count rest h f = refl
take-read_entries (e ∷ es) zero rest h f = absurd (omega arith)
take-read_entries (e ∷ es) (suc count) rest h (fit, f) =
    rw (read-write_entry e (write_entries es rest) fit, drop-write_entry e (write_entries es rest))
      (ap (λ (xs : List DiskZoneRepEntry). e ∷ xs)
        (take-read_entries es count rest (omega arith) f))

entries_filled_of-report_args :
    (r : DiskZoneReport)
    → r.entries_filled < 256 ^ 4
    → entries_filled_of (report_args r) ≡ r.entries_filled
unfolding entries_filled_of report_args to_le
entries_filled_of-report_args r h = from_le-to_le 4 r.entries_filled h

-- The three arguments have the size of the kernel's struct.
pub length-args :
    (r : DiskZoneReport) (p : DiskZoneDiskParams) (cmd lba flags : ℕ) (small large : List ℕ)
    → length small ≡ 80
    → length large ≡ 104
    → (length (report_args r) ≡ 128)
      × (length (params_args p small) ≡ 128)
      × (length (rwp_args cmd lba flags large) ≡ 128)
unfolding report_args params_args rwp_args to_le
length-args r p cmd lba flags small large h k = (refl, omega arith, omega arith)

module _ {W : Type 0} (raw : RawIoctls W) (f : File) where
  report_zones_raw-answered :
      (start_lba count : ℕ) (r : DiskZoneReport) (es : List DiskZoneRepEntry) (rest : List ℕ)
      (w w' : W)
      → r.entries_filled ≡ length es
      → length es ≤ count
      → count < u32_mod
      → AllFit es
      → raw.dioczonecmd f.fd
          (report_args (request raw start_lba count))
          (replicate (64 * count) 0)
          w
        ≡ (ok (report_args r, write_entries es rest), w')
      → report_zones_raw (raw_zone_ioctls raw) f start_lba count w ≡ (ok es, w')
  unfolding report_zones_raw filled_entries raw_zone_ioctls raw_report
  report_zones_raw-answered start_lba count r es rest w w' filled few small fits answer =
      rw
        (
          answer,
          entries_filled_of-report_args r (omega arith),
          filled,
          take-read_entries es count rest few fits,
        )
        refl

  -- Where the kernel answers the report at the block of a sector with at most as many entries as it was asked
  -- for, at least 16384, report_zones reads the zones out of its bytes: the entries converted, in order, as many as
  -- were asked for, and one if none was.
  pub report_zones-answered :
      (sector : Sector) (max_zones : ℕ) (r : DiskZoneReport) (es : List DiskZoneRepEntry)
      (rest : List ℕ) (w w' : W)
      → 0 < f.lba_scale
      → max_zones < u32_mod
      → r.entries_filled ≡ length es
      → length es ≤ max (max max_zones 1) min_report_entries
      → AllFit es
      → raw.dioczonecmd f.fd
          (report_args
            (request raw (sector / f.lba_scale) (max (max max_zones 1) min_report_entries)))
          (replicate (64 * max (max max_zones 1) min_report_entries) 0)
          w
        ≡ (ok (report_args r, write_entries es rest), w')
      → report_zones (raw_zone_ioctls raw) f sector max_zones w
        ≡ (ok (map (λ e. entry_to_zone e f.lba_scale) (take (max max_zones 1) es)), w')
  unfolding report_zones
  report_zones-answered sector max_zones r es rest w w' scaled small filled few fits answer =
      rw
        (
          lt→ltb 0 f.lba_scale scaled,
          report_zones_raw-answered (sector / f.lba_scale)
              (max (max max_zones 1) min_report_entries) r es rest w w' filled few (omega arith)
              fits answer,
        )
        refl
