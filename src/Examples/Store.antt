-- ===== src/Examples/Store.antt =====
-- examples/zone_store.rs: a file in a zone, through a BufWriter.
pub mod Load
pub mod RoundTrip
pub mod Overflow
use zoned.Base.{
  ℕ, zero, suc, ◌+◌, ◌-◌, ◌%◌, String, Option, none, some, List, [], ◌∷◌, ◌++◌, ◌||◌, leb, ltb,
  ◌==◌, if◌then◌else◌, length, take, drop, replicate, add_u64, mul_u64,
}
use zoned.Base.Bytes.{to_le, from_le}
use zoned.Errors.{
  Io, ok, err, panic, timeout, fail, return, map_err, ◌>>=◌, ◌>>◌, and_then, ZonedError, IoError,
  io,
}
use zoned.Types.{Sector, ZoneIndex, to_bytes, from_bytes}
use zoned.FileSystem.{Fs}
use zoned.Device
use zoned.Device.{ZonedDevice, Zio}
use zoned.Device.Builder
use zoned.Device.Builder.{Validate, Opener, open_device}
use zoned.Handle
use zoned.Handle.{ZoneHandle}
use zoned.Examples.{
  Command, failed, exits, passes, with_handle, header_size, write_align, round_up, slice,
}
use zoned.Examples.BufWriter.{Wio, put, flush, with_writer}

abbrev pub writer_capacity : ℕ
writer_capacity = 131072

abbrev pub io_to_zoned : IoError → ZonedError
io_to_zoned e = io "<zone_handle>" e

-- `Sector::from_bytes(…).unwrap_or(Sector::ZERO)`.
abbrev or_start : Option Sector → Sector
or_start none = 0
or_start (some s) = s

module _ {W : Type 0} where
  -- The padding to the next multiple of `write_align`, if the file does not end at one.
  abbrev pub put_padding : ℕ → Wio W (Unit {0})
  put_padding remainder =
      if remainder == 0
      then return tt
      else put writer_capacity (replicate (write_align - remainder) 0)

  -- The block of `cmd_write` that uses the writer.
  unfoldable pub write_file : List ℕ → Wio W (Unit {0})
  write_file content = do
    put writer_capacity (to_le header_size (length content))
    put writer_capacity content
    put_padding (add_u64 header_size (length content) % write_align)
    flush

  -- `cmd_write` from the handle on.
  unfoldable pub store : List ℕ → Command (ZoneHandle W × W) (Unit {0})
  store content (h, w) =
      (if ltb (to_bytes h.capacity) (add_u64 header_size (length content))
          then fail (exits 1)
          else (do
            passes Handle.reset
            passes (map_err io_to_zoned (with_writer (write_file content)))))
        (h, w)

  -- The rest of a round of the read loop: the buffer with what was read from `so_far` on.
  abbrev after_read : (ℕ → List ℕ → Zio W (List ℕ)) → ℕ → List ℕ → ℕ × List ℕ → Zio W (List ℕ)
  after_read again so_far buf (n, filled) =
      if n == 0
      then return (take so_far buf ++ filled)
      else again (so_far + n) (take so_far buf ++ filled)

  unfoldable pub read_loop : ℕ → ZonedDevice W → Sector → ℕ → List ℕ → Zio W (List ℕ)
  read_loop zero d zone_start so_far buf w =
      if leb (length buf) so_far then (ok buf, w) else (timeout, w)
  read_loop (suc fuel) d zone_start so_far buf w =
      if leb (length buf) so_far
      then (ok buf, w)
      else and_then
          (Device.read_at d (add_u64 zone_start (or_start (from_bytes so_far))) (drop so_far buf) w)
          (after_read (read_loop fuel d zone_start) so_far buf)

  -- `cmd_read` from the header on. Each round of the loop reads a byte, so that the length is fuel enough.
  unfoldable pub load_content :
      Fs W → ZonedDevice W → Sector → Sector → String → ℕ → Command W (Unit {0})
  load_content fs d zone_size zone_start output file_size =
      if file_size == 0 || ltb (to_bytes zone_size) file_size then fail (exits 1) else (do
        raw ← passes (
            read_loop (round_up (add_u64 header_size file_size)) d zone_start 0
              (replicate (round_up (add_u64 header_size file_size)) 0))
        stored ← slice header_size (add_u64 header_size file_size) raw
        map_err (λ e. failed (io output e)) (fs.write output stored))

  -- `cmd_read` from the device on.
  unfoldable pub load : Fs W → ZonedDevice W → ZoneIndex → String → Command W (Unit {0})
  load fs d zone_num output = do
    info ← passes (Device.device_info d)
    let zone_start : Sector = mul_u64 info.zone_size zone_num
    first_sector ← passes (Device.read_at d zone_start (replicate write_align 0))
    load_content fs d info.zone_size zone_start output (from_le (take header_size first_sector.1))

  module _ (validate : Validate W) (opener : Opener W) (fs : Fs W) where
    pub cmd_write : String → ZoneIndex → String → Command W (Unit {0})
    cmd_write device zone_num file = do
      content ← map_err (λ e. failed (io file e)) (fs.read file)
      dev ← passes (
          open_device validate opener
            (Builder.validate_all (Builder.writable (Builder.new device))))
      handle ← passes (Handle.new dev zone_num)
      with_handle handle (store content)

    pub cmd_read : String → ZoneIndex → String → Command W (Unit {0})
    cmd_read device zone_num output = do
      dev ← passes (open_device validate opener (Builder.validate_all (Builder.new device)))
      load fs dev zone_num output
