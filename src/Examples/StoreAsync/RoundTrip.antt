-- ===== src/Examples/StoreAsync/RoundTrip.antt =====
-- What examples/zone_store_async.rs reads back of a file that it stored.
use zoned.Base.{
  ℕ, ◌+◌, ◌*◌, ◌≤◌, ◌<◌, ◌≡◌, String, false, List, inl, inr, Bool-cases, arith, ltb, ltb_false→le,
  length, u64_mod, add_u64, mul_u64,
}
use zoned.Errors.{ok, and_then-value, convert_err-value}
use zoned.Types.{ZoneIndex, DeviceInfo, sector_size, to_bytes}
use zoned.FileSystem.{Fs}
use zoned.Device.Storage.{overlay, Same, Storage}
use zoned.Device.Reads.{Readable, FullReads}
use zoned.Handle
use zoned.Handle.{ZoneHandle}
use zoned.Handle.Lifecycle.{reset-start, written-Same}
use zoned.Async.{Runtime, Runs, spawn_blocking-value}
use zoned.Async.Device.{AsyncZonedDevice, device_info}
use zoned.Async.Handle.{reset, write_all_sequential, capacity}
use zoned.Examples.{failed, header_size, write_align, padded, payload_of}
use zoned.Examples.Layout.{padded-whole}
use zoned.Examples.StoreAsync.{store, load}
use zoned.Examples.Restores.{Restores}
use zoned.Examples.StoreAsync.Load.{load-Restores}

module _ (rt : Runtime) (runs : Runs rt) {W : Type 0} (media : W → ℕ → ℕ) where
  -- A file that was stored stands at the start of the zone, and fits its capacity.
  store-Stored :
      (content : List ℕ) (h h' : ZoneHandle W) (w w' : W)
      → Storage h.device media
      → h.start * sector_size + length (padded (payload_of content)) ≤ u64_mod
      → store rt content (h, w) ≡ (ok tt, (h', w'))
      → (m₀ : ℕ → ℕ) × Same
          (media w')
          (overlay m₀ (h.start * sector_size) (padded (payload_of content)))
        × (ltb (to_bytes h.capacity) (add_u64 header_size (length content)) ≡ false)
  unfolding store capacity reset write_all_sequential
  store-Stored content h h' w w' storage fits e =
      elim (Bool-cases (ltb (to_bytes h.capacity) (add_u64 header_size (length content)))) [
        | inl large ↦ (let e' = rw large at e in absurd cc)
        | inr small ↦
            (let payload : List ℕ = padded (payload_of content) in
              let e' = rw small at e in
              let (u, (h1, w1), did_reset, rest) = and_then-value _ _ tt (h', w') e' in
              let reset_done =
                spawn_blocking-value rt runs Handle.reset (h, w) (h1, w1) u
                  (convert_err-value failed _ u (h1, w1) did_reset) in
              let written =
                spawn_blocking-value rt runs (Handle.write_all_sequential payload) (h1, w1) (h', w')
                  tt (convert_err-value failed _ tt (h', w') rest) in
              (
                media w1,
                written-Same media payload h h1 w1 h' w' storage (reset-start h h1 w w1 reset_done)
                    fits (padded-whole content).0 written,
                small,
              ))
      ]

-- The program stored a file of at least one byte in a zone that lies within its size and below 2^64
-- bytes, on a device whose reads and writes are honest and whose reads are full, in a runtime that
-- runs its calls. Then reading the zone again writes the content of the file to the output file,
-- unless a call on the device fails. (The zone begins where its number times the zone size says, and
-- the device's info is at hand.)
pub load-store :
    (rt : Runtime)
    → Runs rt
    → {W : Type 0} (media : W → ℕ → ℕ) (fs : Fs W) (h h' : ZoneHandle W) (d : AsyncZonedDevice W)
      (w w' : W) (zone_num : ZoneIndex) (info : DeviceInfo) (content : List ℕ) (output : String)
    → Storage h.device media
    → Readable d.inner media
    → FullReads d.inner
    → device_info d w' ≡ (ok info, w')
    → mul_u64 info.zone_size zone_num ≡ h.start
    → h.capacity ≤ info.zone_size
    → info.zone_size * sector_size < u64_mod
    → h.start * sector_size + length (padded (payload_of content)) ≤ u64_mod
    → 0 < length content
    → header_size + length content + write_align < u64_mod
    → store rt content (h, w) ≡ (ok tt, (h', w'))
    → Restores media (media w') fs output content (load rt fs d zone_num output w')
unfolding to_bytes
load-store rt runs media fs h h' d w w' zone_num info content output storage readable full answer
      at_start within small fits some_bytes room e =
    let (m₀, stands, checked) = store-Stored rt runs media content h h' w w' storage fits e in
    load-Restores rt runs media fs d readable full output content h.start m₀ room zone_num info w'
      answer at_start stands some_bytes
      (omega (arith, ltb_false→le _ _ checked, within, small, room))
