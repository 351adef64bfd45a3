-- ===== src/Examples/StoreAsync.antt =====
-- examples/zone_store_async.rs: a file in a zone, through the async functions.
pub mod Load
pub mod RoundTrip
use zoned.Base.{
  ℕ, ◌+◌, String, Option, none, some, List, [], ◌∷◌, ◌++◌, ◌||◌, ltb, ◌==◌, if◌then◌else◌, length,
  take, map, add_u64, sub_u64, mul_u64,
}
use zoned.Base.Bytes.{from_le}
use zoned.Errors.{ok, err, panic, timeout, fail, return, map_err, ◌>>=◌, ◌>>◌, and_then, io}
use zoned.Types.{
  Sector, ZoneIndex, Zone, ZoneType, ZoneCondition, DeviceInfo, to_bytes, sequential_write_required,
  empty,
}
use zoned.Types.Filter
use zoned.FileSystem.{Fs}
use zoned.Device.Builder.{Opener}
use zoned.Handle.{ZoneHandle}
use zoned.Async.{Runtime}
use zoned.Async.Device
use zoned.Async.Device.{AsyncZonedDevice}
use zoned.Async.Handle
use zoned.Examples.{
  Command, failed, exits, passes, with_handle, header_size, write_align, padded, payload_of,
  round_up, slice,
}

module _ (rt : Runtime) {W : Type 0} where
  -- `cmd_write` from the handle on.
  unfoldable pub store : List ℕ → Command (ZoneHandle W × W) (Unit {0})
  store content (h, w) =
      let (capacity, s) = Handle.capacity (h, w) in
      (if ltb (to_bytes capacity) (add_u64 header_size (length content))
          then fail (exits 1)
          else (do
            passes (Handle.reset rt)
            passes (Handle.write_all_sequential rt (padded (payload_of content)))))
        s

  -- `cmd_read` from the header on.
  load_content : Fs W → AsyncZonedDevice W → Sector → Sector → String → ℕ → Command W (Unit {0})
  load_content fs dev zone_size zone_start output file_size =
      if file_size == 0 || ltb (to_bytes zone_size) file_size then fail (exits 1) else (do
        raw ← passes (Device.read_at rt dev zone_start (round_up (add_u64 header_size file_size)))
        stored ← slice header_size (add_u64 header_size file_size) raw
        map_err (λ e. failed (io output e)) (fs.write output stored))

  -- `cmd_read` from the device on.
  unfoldable pub load : Fs W → AsyncZonedDevice W → ZoneIndex → String → Command W (Unit {0})
  unfolding load_content
  load fs dev zone_num output = do
    info ← passes (Device.device_info dev)
    let zone_start : Sector = mul_u64 info.zone_size zone_num
    header ← passes (Device.read_at rt dev zone_start write_align)
    if ltb (length header) header_size
        then fail (exits 1)
        else load_content fs dev info.zone_size zone_start output
            (from_le (take header_size header))

  module _ (fs : Fs W) (opener : Opener W) where
    pub cmd_write : String → ZoneIndex → String → Command W (Unit {0})
    cmd_write device zone_num file = do
      content ← map_err (λ e. failed (io file e)) (fs.read file)
      dev ← passes (Device.open_writable rt opener device)
      handle ← passes (Device.zone_handle rt dev zone_num)
      with_handle handle.inner (store content)

    pub cmd_read : String → ZoneIndex → String → Command W (Unit {0})
    cmd_read device zone_num output = do
      dev ← passes (Device.open_path rt opener device)
      load fs dev zone_num output
