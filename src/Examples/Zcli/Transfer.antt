-- ===== src/Examples/Zcli/Transfer.antt =====
-- `run_read`, `run_write` and `run_pwrite` of examples/zcli.rs.
pub mod Parts
use zoned.Base.{
  ℕ, zero, suc, ◌+◌, ◌-◌, ◌/◌, min, String, Bool, Option, none, some, List, [], ◌∷◌, map,
  if◌then◌else◌, ltb, ◌||◌, length, take, drop, replicate, add_u64, mul_u64,
}
use zoned.Errors.{Io, Outcome, ok, err, panic, timeout, return, ◌>>=◌, ◌>>◌, and_then}
use zoned.Types.{Sector, Zone}
use zoned.Device
use zoned.Device.{ZonedDevice}
use zoned.Device.Builder
use zoned.Device.Builder.{Validate, Opener, open_device}
use zoned.Handle
use zoned.Handle.{ZoneHandle}
use zoned.Examples.{with_handle, slice}
use zoned.Examples.Zcli.{Cio, passes, Console, unless_skipped}
use zoned.Examples.Zcli.HexDump.{hex_dump}

-- What of each buffer a scattered read of `n` bytes has filled, behind the `consumed` bytes of those
-- before it.
unfoldable pub filled_parts : ℕ → ℕ → List (List ℕ) → List (List ℕ)
filled_parts n consumed [] = []
filled_parts n consumed (buf ∷ buffers) =
    take (min (length buf) (n - consumed)) buf ∷ filled_parts n (consumed + length buf) buffers

-- The two halves of the data, which the vectored writes take.
abbrev pub halves : List ℕ → List (List ℕ)
halves bytes = take (length bytes / 2) bytes ∷ drop (length bytes / 2) bytes ∷ []

-- What `run_write` prints.
pub record WriteReport : Type 0 where
  pub before : Zone
  pub written : ℕ
  pub after : Zone

module _ {W : Type 0} where
  -- The two branches of `run_read`: what each buffer is dumped as.
  unfoldable pub scatter_read : ZonedDevice W → Sector → List ℕ → Cio W (List (List (List ℕ)))
  scatter_read d read_sector sizes = do
    r ← passes (Device.readv_at d read_sector (map (λ s. replicate s 0) sizes))
    return (map hex_dump (filled_parts r.0 0 r.1))

  unfoldable pub plain_read : ZonedDevice W → Sector → ℕ → Cio W (List (List (List ℕ)))
  plain_read d read_sector bytes = do
    r ← passes (Device.read_at d read_sector (replicate bytes 0))
    buf ← slice 0 r.0 r.1
    return (hex_dump buf ∷ [])

  -- `run_read` from the device on.
  unfoldable pub read_zone :
      ZonedDevice W → ℕ → ℕ → Sector → Option (List ℕ) → Cio W (List (List (List ℕ)))
  read_zone d zone_idx bytes offset_sectors scatter = do
    info ← passes (Device.device_info d)
    let read_sector : Sector = add_u64 (mul_u64 info.zone_size zone_idx) offset_sectors
    elim scatter [
      | some sizes ↦ scatter_read d read_sector sizes
      | none ↦ plain_read d read_sector bytes
    ]

  -- `run_write` from the handle on.
  unfoldable pub write_in_zone : List ℕ → Bool → Cio (ZoneHandle W × W) WriteReport
  write_in_zone bytes use_writev = do
    before ← passes Handle.report
    written ← passes (
        if use_writev
        then Handle.writev_sequential (halves bytes)
        else Handle.write_sequential bytes)
    after ← passes Handle.report
    return (record { before = before; written = written; after = after })

  -- `run_pwrite` from the device on.
  unfoldable pub write_at_sector : ZonedDevice W → Sector → List ℕ → Bool → Cio W ℕ
  write_at_sector d offset bytes use_writev = passes (
      if use_writev
      then Device.writev_at d offset (halves bytes)
      else Device.write_at d offset bytes)

  module _ (validate : Validate W) (opener : Opener W) where
    pub run_read : String → ℕ → ℕ → Sector → Option (List ℕ) → Cio W (List (List (List ℕ)))
    run_read path zone_idx bytes offset_sectors scatter = do
      dev ← passes (open_device validate opener (Builder.validate_all (Builder.new path)))
      read_zone dev zone_idx bytes offset_sectors scatter

    pub run_write : Console W → String → ℕ → ℕ → ℕ → Bool → Bool → Cio W WriteReport
    run_write console path zone_idx bytes fill use_writev skip_confirm = do
      unless_skipped console skip_confirm
      dev ←
          passes (
            open_device validate opener
              (Builder.validate_all (Builder.writable (Builder.new path))))
      handle ← passes (Handle.new dev zone_idx)
      with_handle handle (write_in_zone (replicate bytes fill) use_writev)

    pub run_pwrite : Console W → String → Sector → ℕ → ℕ → Bool → Bool → Cio W ℕ
    run_pwrite console path sector bytes fill use_writev skip_confirm = do
      unless_skipped console skip_confirm
      dev ←
          passes (
            open_device validate opener
              (Builder.validate_all (Builder.writable (Builder.new path))))
      write_at_sector dev sector (replicate bytes fill) use_writev
