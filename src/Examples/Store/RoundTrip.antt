-- ===== src/Examples/Store/RoundTrip.antt =====
-- What examples/zone_store.rs has in the zone after it stored a file.
use zoned.Base.{
  String, mul_u64, ltb_false→le, ℕ, ◌+◌, ◌-◌, ◌*◌, ◌%◌, ◌≤◌, ◌<◌, ◌≡◌, refl, sym, ap, ◌∙◌, subst,
  false, List, [], inl, inr, Bool-cases, arith, ltb, ◌==◌, length, length-replicate, replicate,
  u64_mod, add_u64, ==_false→lt,
}
use zoned.Base.Bytes.{to_le, length-to_le}
use zoned.Errors.{Outcome, IoError, ok, and_then-value, convert_err-value}
use zoned.Types.{ZoneIndex, DeviceInfo, sector_size, to_bytes}
use zoned.Device
use zoned.Device.Storage.{overlay, Same, Storage}
use zoned.Handle
use zoned.Handle.{ZoneHandle}
use zoned.Handle.Lifecycle.{reset-start, written-Same, written-device}
use zoned.Examples.{failed, header_size, write_align, padded, payload_of}
use zoned.Examples.Layout.{padded-whole, length-payload_of}
use zoned.FileSystem.{Fs}
use zoned.Device.Reads.{Readable, FullReads}
use zoned.Examples.Restores.{Restores}
use zoned.Examples.Store.Load.{load-Restores}
use zoned.Examples.BufWriter.{flush, with_writer}
use zoned.Examples.BufWriter.Flushed.{put-room, flush-value, with_writer-value}
use zoned.Examples.Store.{writer_capacity, io_to_zoned, write_file, store, load}

module _ {W : Type 0} (content : List ℕ)
    (room : header_size + length content ≤ writer_capacity) where
  -- A file that the writer's buffer holds is flushed as one padded payload.
  write_file-flush :
      (s : ZoneHandle W × W) → write_file content ([], s) ≡ flush (padded (payload_of content), s)
  unfolding write_file
  write_file-flush s =
      rw
        (
          put-room writer_capacity (to_le header_size (length content)) [] s
              (omega (arith, header, room)) (omega (arith, header)),
          put-room writer_capacity content (to_le header_size (length content)) s
              (omega (arith, header, room)) (omega (arith, room)),
          remainder,
        )
        (elim (Bool-cases ((length (payload_of content) % write_align) == 0)) [
          | inl whole ↦ rw whole refl
          | inr more ↦
              rw
                (
                  more,
                  put-room writer_capacity
                      (replicate (write_align - length (payload_of content) % write_align) 0)
                      (payload_of content) s
                      (omega (
                        arith,
                        room,
                        ==_false→lt (length (payload_of content) % write_align) more,
                        length-payload_of content,
                        length-replicate {A = ℕ}
                            (write_align - length (payload_of content) % write_align) 0,
                      ))
                      (omega (
                        arith,
                        length-replicate {A = ℕ}
                            (write_align - length (payload_of content) % write_align) 0,
                      )),
                )
                refl
        ])
    where
      header : length (to_le header_size (length content)) ≡ header_size
      header = length-to_le header_size (length content)

      remainder :
          add_u64 header_size (length content) % write_align
          ≡ length (payload_of content) % write_align
      remainder = omega (arith, room, length-payload_of content)

  with_writer-wrote :
      (s s' : ZoneHandle W × W)
      → with_writer (write_file content) s ≡ (ok tt, s')
      → (s1 : ZoneHandle W × W) × (Handle.write_all_sequential (padded (payload_of content)) s
          ≡ (ok tt, s1))
        × (Handle.flush s1 ≡ (ok tt, s'))
  with_writer-wrote s s' e =
      let emptied = with_writer-value (write_file content) s s' e (λ left s1 b.
        (flush-value (padded (payload_of content)) left s s1 (sym (write_file-flush s) ∙ b)).1) in
      let (s1, none_left, written, flushed) =
        flush-value (padded (payload_of content)) [] s s' (sym (write_file-flush s) ∙ emptied) in
      (s1, written, flushed)

  written-flush-Same :
      (media : W → ℕ → ℕ) (h h1 h2 h' : ZoneHandle W) (w1 w2 w' : W)
      → Storage h.device media
      → ((w : W) → Same (media (Device.fsync h.device w).1) (media w))
      → h1 ≡ record h { write_pointer = h.start }
      → h.start * sector_size + length (padded (payload_of content)) ≤ u64_mod
      → Handle.write_all_sequential (padded (payload_of content)) (h1, w1) ≡ (ok tt, (h2, w2))
      → Handle.flush (h2, w2) ≡ (ok tt, (h', w'))
      → Same (media w') (overlay (media w1) (h.start * sector_size) (padded (payload_of content)))
  unfolding Handle.flush
  written-flush-Same media h h1 h2 h' w1 w2 w' storage synced at_start fits written flushed i =
      let same_device : h1.device ≡ h.device = ap (λ (x : ZoneHandle W). x.device) at_start in
      let pointer : h1.write_pointer ≡ h.start =
        ap (λ (x : ZoneHandle W). x.write_pointer) at_start in
      let kept : h2.device ≡ h.device =
        written-device media (padded (payload_of content)) h1 w1 h2 w2
          (subst (λ d. Storage d media) (sym same_device) storage) (omega (arith, fits, pointer))
          (padded-whole content).0 written
        ∙ same_device in
      ap (λ (x : Outcome IoError (Unit {0}) × (ZoneHandle W × W)). media x.1.1 i) (sym flushed)
      ∙ ap (λ d. media (Device.fsync d w2).1 i) kept
      ∙ synced w2 i
      ∙ written-Same media (padded (payload_of content)) h h1 w1 h2 w2 storage at_start fits
          (padded-whole content).0 written i

  -- A file that was stored stands at the start of the zone, and fits its capacity.
  pub store-Stored :
      (media : W → ℕ → ℕ) (h h' : ZoneHandle W) (w w' : W)
      → Storage h.device media
      → ((w : W) → Same (media (Device.fsync h.device w).1) (media w))
      → h.start * sector_size + length (padded (payload_of content)) ≤ u64_mod
      → store content (h, w) ≡ (ok tt, (h', w'))
      → (m₀ : ℕ → ℕ) × Same
          (media w')
          (overlay m₀ (h.start * sector_size) (padded (payload_of content)))
        × (ltb (to_bytes h.capacity) (add_u64 header_size (length content)) ≡ false)
  unfolding store
  store-Stored media h h' w w' storage synced fits e =
      elim (Bool-cases (ltb (to_bytes h.capacity) (add_u64 header_size (length content)))) [
        | inl large ↦ (let e' = rw large at e in absurd cc)
        | inr small ↦
            (let e' = rw small at e in
              let (u, (h1, w1), did_reset, rest) = and_then-value _ _ tt (h', w') e' in
              let reset_done =
                convert_err-value failed (Handle.reset (h, w)) u (h1, w1) did_reset in
              let ((h2, w2), written, flushed) =
                with_writer-wrote (h1, w1) (h', w')
                  (convert_err-value io_to_zoned (with_writer (write_file content) (h1, w1)) tt
                    (h', w') (convert_err-value failed _ tt (h', w') rest)) in
              (
                media w1,
                written-flush-Same media h h1 h2 h' w1 w2 w' storage synced
                    (reset-start h h1 w w1 reset_done) fits written flushed,
                small,
              ))
      ]

-- The program stored a file of at least one byte and at most 131,064, which its writer's buffer holds
-- with the header, in a zone that lies within its size and below 2^64 bytes, on a device whose reads
-- and writes are honest, whose reads are full, and whose fsync keeps the medium. Then reading the zone
-- again writes the content of the file to the output file, unless a call on the device fails. (The
-- zone begins where its number times the zone size says, and the device's info is at hand.)
pub load-store_buffered :
    {W : Type 0} (media : W → ℕ → ℕ) (fs : Fs W) (h h' : ZoneHandle W) (d : Device.ZonedDevice W)
    (w w' : W) (zone_num : ZoneIndex) (info : DeviceInfo) (content : List ℕ) (output : String)
    → Storage h.device media
    → ((w : W) → Same (media (Device.fsync h.device w).1) (media w))
    → Readable d media
    → FullReads d
    → Device.device_info d w' ≡ (ok info, w')
    → mul_u64 info.zone_size zone_num ≡ h.start
    → h.capacity ≤ info.zone_size
    → info.zone_size * sector_size < u64_mod
    → h.start * sector_size + length (padded (payload_of content)) ≤ u64_mod
    → 0 < length content
    → header_size + length content ≤ writer_capacity
    → store content (h, w) ≡ (ok tt, (h', w'))
    → Restores media (media w') fs output content (load fs d zone_num output w')
unfolding to_bytes
load-store_buffered media fs h h' d w w' zone_num info content output storage synced readable full
      answer at_start within small fits some_bytes room e =
    let (m₀, stands, checked) = store-Stored content room media h h' w w' storage synced fits e in
    load-Restores media fs d readable full output content h.start
      (omega (arith, fits, (padded-whole content).1)) m₀ (omega (arith, room)) zone_num info w'
      answer at_start stands some_bytes
      (omega (arith, ltb_false→le _ _ checked, within, small, room))
