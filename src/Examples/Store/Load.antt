-- ===== src/Examples/Store/Load.antt =====
-- What examples/zone_store.rs reads of a payload that stands in a zone.
use zoned.Base.{
  ℕ, zero, suc, ◌+◌, ◌-◌, ◌*◌, ◌≤◌, ◌<◌, ◌≡◌, refl, sym, ap, ◌∙◌, subst, String, false, List, inl,
  arith, ltb, leb, ◌==◌, le→leb, lt→leb_false, le→ltb_false, lt→==_false, length, take, replicate,
  take-length, length-replicate, u64_mod, add_u64, mul_u64,
}
use zoned.Base.Bytes.{from_le}
use zoned.Errors.{Outcome, ok, err, panic, timeout, and_then, convert_err, ZonedError}
use zoned.Types.{Sector, ZoneIndex, DeviceInfo, sector_size, to_bytes, from_bytes}
use zoned.FileSystem.{Fs}
use zoned.Device
use zoned.Device.{ZonedDevice}
use zoned.Device.Storage.{overlay, Same}
use zoned.Device.Reads.{Readable, FullReads, ReadsAll, FillsWith, read_at-FillsWith}
use zoned.Examples.{failed, header_size, write_align, padded, payload_of, round_up}
use zoned.Examples.Layout.{padded-round_up, padded-whole, header-length}
use zoned.Examples.Restores.{Restores, ReadsAll-Same, content-Restores}
use zoned.Examples.Store.{after_read, read_loop, load_content, load}

module _ {W : Type 0} (media : W → ℕ → ℕ) (d : ZonedDevice W) (start : Sector) where
  -- The loop ends when the buffer is full.
  read_loop-full :
      (fuel so_far : ℕ) (buf : List ℕ) (w : W)
      → length buf ≤ so_far
      → read_loop fuel d start so_far buf w ≡ (ok buf, w)
  unfolding read_loop
  read_loop-full zero so_far buf w h = rw (le→leb (length buf) so_far h) refl
  read_loop-full (suc fuel) so_far buf w h = rw (le→leb (length buf) so_far h) refl

  -- The first round, from what its read came to.
  after_read-ReadsAll :
      (fuel : ℕ) (m : ℕ → ℕ) (buf bytes : List ℕ) (r : Outcome ZonedError (ℕ × List ℕ) × W)
      → 0 < length bytes
      → FillsWith media m bytes r
      → ReadsAll media m bytes (and_then r (after_read (read_loop fuel d start) 0 buf))
  after_read-ReadsAll fuel m buf bytes (ok (n, filled), w) some (count, whole, same) =
      let more : (n == 0) ≡ false = lt→==_false n (omega (arith, count, some)) in
      rw
        (
          more,
          read_loop-full fuel (0 + n) filled w
              (omega (arith, count, ap (λ (xs : List ℕ). length xs) whole)),
        )
        (whole, same)
  after_read-ReadsAll fuel m buf bytes (err e, w) some h = h
  after_read-ReadsAll fuel m buf bytes (panic, w) some h = h
  after_read-ReadsAll fuel m buf bytes (timeout, w) some h = h

  read_loop-ReadsAll :
      (size : ℕ) (written : List ℕ) (m₀ : ℕ → ℕ) (w : W)
      → Readable d media
      → FullReads d
      → start < u64_mod
      → Same (media w) (overlay m₀ (start * sector_size) written)
      → length written ≡ suc size
      → ReadsAll media (media w) written (read_loop (suc size) d start 0 (replicate (suc size) 0) w)
  unfolding read_loop from_bytes
  read_loop-ReadsAll size written m₀ w readable full small same e =
      let count = length-replicate {A = ℕ} (suc size) 0 in
      let first : leb (length (replicate {A = ℕ} (suc size) 0)) 0 ≡ false =
        lt→leb_false _ _ (omega (arith, count)) in
      let here : add_u64 start 0 ≡ start = omega (arith, small) in
      let fills : FillsWith media (media w) written
          (Device.read_at d start (replicate (suc size) 0) w) =
        subst (λ b. FillsWith media (media w) b (Device.read_at d start (replicate (suc size) 0) w))
          (take-length (length (replicate {A = ℕ} (suc size) 0)) written (omega (arith, count, e)))
          (read_at-FillsWith media d start written (replicate (suc size) 0) m₀ w readable full same
            (omega (arith, count, e))) in
      rw (first, here)
        (after_read-ReadsAll size (media w) (replicate (suc size) 0) written _ (omega (arith, e))
          fills)

module _ {W : Type 0} (media : W → ℕ → ℕ) (fs : Fs W) (d : ZonedDevice W)
    (readable : Readable d media) (full : FullReads d) (output : String) (content : List ℕ)
    (start : Sector) (small : start < u64_mod) (m₀ : ℕ → ℕ)
    (fits : header_size + length content + write_align < u64_mod) where
  load_content-Restores :
      (zone_size : Sector) (m : ℕ → ℕ) (w : W)
      → Same m (overlay m₀ (start * sector_size) (padded (payload_of content)))
      → Same (media w) m
      → 0 < length content
      → length content ≤ to_bytes zone_size
      → Restores media m fs output content
          (load_content fs d zone_size start output (length content) w)
  unfolding load_content
  load_content-Restores zone_size m w stands same some_bytes within =
      let some : (length content == 0) ≡ false = lt→==_false (length content) some_bytes in
      let checked : ltb (to_bytes zone_size) (length content) ≡ false = le→ltb_false _ _ within in
      rw (some, checked)
        (content-Restores media fs output content m (read_loop size d start 0 (replicate size 0) w)
          fits
          (ReadsAll-Same media (media w) m (padded (payload_of content)) _ same (
            subst
              (λ k.
                ReadsAll media (media w) (padded (payload_of content))
                  (read_loop k d start 0 (replicate k 0) w))
              (sym pred ∙ padded-round_up content fits)
              (read_loop-ReadsAll media d start (length (padded (payload_of content)) - 1)
                (padded (payload_of content)) m₀ w readable full small (λ i. same i ∙ stands i)
                pred))))
    where
      size : ℕ
      size = round_up (add_u64 header_size (length content))

      pred : length (padded (payload_of content)) ≡ suc (length (padded (payload_of content)) - 1)
      pred = omega (arith, (padded-whole content).1)

  -- From what the read of the first sectors came to.
  header-Restores :
      (zone_size : Sector) (m : ℕ → ℕ) (r : Outcome ZonedError (ℕ × List ℕ) × W)
      → Same m (overlay m₀ (start * sector_size) (padded (payload_of content)))
      → 0 < length content
      → length content ≤ to_bytes zone_size
      → FillsWith media m (take write_align (padded (payload_of content))) r
      → Restores media m fs output content (
          and_then {B = Unit {0}}
            (convert_err failed r.0, r.1)
            (λ first_sector.
              load_content fs d zone_size start output (from_le (take header_size first_sector.1))))
  header-Restores zone_size m (ok (n, filled), w) stands some_bytes within (count, whole, same) =
      let size : from_le (take header_size filled) ≡ length content =
        ap (λ xs. from_le (take header_size xs)) whole
        ∙ header-length content (omega (arith, fits)) in
      rw size (load_content-Restores zone_size m w stands same some_bytes within)
  header-Restores zone_size m (err e, w) stands some_bytes within same = inl (e, w, refl)
  header-Restores zone_size m (panic, w) stands some_bytes within h = elim h [ ]
  header-Restores zone_size m (timeout, w) stands some_bytes within h = elim h [ ]

  pub load-Restores :
      (zone_num : ZoneIndex) (info : DeviceInfo) (w : W)
      → Device.device_info d w ≡ (ok info, w)
      → mul_u64 info.zone_size zone_num ≡ start
      → Same (media w) (overlay m₀ (start * sector_size) (padded (payload_of content)))
      → 0 < length content
      → length content ≤ to_bytes info.zone_size
      → Restores media (media w) fs output content (load fs d zone_num output w)
  unfolding load
  load-Restores zone_num info w answer at_start stands some_bytes within =
      rw (answer, at_start)
        (header-Restores info.zone_size (media w)
          (Device.read_at d start (replicate write_align 0) w) stands some_bytes within
          (read_at-FillsWith media d start (padded (payload_of content)) (replicate write_align 0)
            m₀ w readable full stands
            (omega (arith, (padded-whole content).1, length-replicate {A = ℕ} write_align 0))))
