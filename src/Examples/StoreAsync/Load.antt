-- ===== src/Examples/StoreAsync/Load.antt =====
-- What examples/zone_store_async.rs reads of a payload that stands in a zone.
use zoned.Base.{
  ℕ, ◌+◌, ◌*◌, ◌≤◌, ◌<◌, ◌≡◌, refl, ap, ◌∙◌, subst, String, false, List, inl, arith, ltb, ◌==◌,
  if◌then◌else◌, le→ltb_false, lt→==_false, length, take, take-length, length-take, u64_mod,
  add_u64, mul_u64,
}
use zoned.Base.Bytes.{from_le}
use zoned.Errors.{Outcome, ok, err, panic, timeout, and_then, fail, convert_err, ZonedError}
use zoned.Types.{Sector, ZoneIndex, DeviceInfo, sector_size, to_bytes}
use zoned.FileSystem.{Fs}
use zoned.Device.Storage.{overlay, Same}
use zoned.Device.Reads.{Readable, FullReads}
use zoned.Async.{Runtime, Runs}
use zoned.Async.Device.{AsyncZonedDevice, read_at, device_info}
use zoned.Async.Reads.{read_at-ReadsAll}
use zoned.Device.Reads.{ReadsAll}
use zoned.Examples.{failed, exits, header_size, write_align, padded, payload_of, round_up}
use zoned.Examples.Layout.{padded-round_up, padded-whole, header-length}
use zoned.Examples.StoreAsync.{load_content, load}
use zoned.Examples.Restores.{Restores, ReadsAll-Same, content-Restores}

module _ (rt : Runtime) (runs : Runs rt) {W : Type 0} (media : W → ℕ → ℕ) where
  module _ (fs : Fs W) (d : AsyncZonedDevice W) (readable : Readable d.inner media)
      (full : FullReads d.inner) (output : String) (content : List ℕ) (start : Sector) (m₀ : ℕ → ℕ)
      (fits : header_size + length content + write_align < u64_mod) where
    load_content-Restores :
        (zone_size : Sector) (m : ℕ → ℕ) (w : W)
        → Same m (overlay m₀ (start * sector_size) (padded (payload_of content)))
        → Same (media w) m
        → 0 < length content
        → length content ≤ to_bytes zone_size
        → Restores media m fs output content
            (load_content rt fs d zone_size start output (length content) w)
    unfolding load_content
    load_content-Restores zone_size m w stands same some_bytes within =
        let some : (length content == 0) ≡ false = lt→==_false (length content) some_bytes in
        let small : ltb (to_bytes zone_size) (length content) ≡ false = le→ltb_false _ _ within in
        let size : ℕ = round_up (add_u64 header_size (length content)) in
        let whole : take size (padded (payload_of content)) ≡ padded (payload_of content) =
          take-length _ _ (omega (arith, padded-round_up content fits)) in
        let reads =
          read_at-ReadsAll media rt runs d start (padded (payload_of content)) size m₀ w readable
            full (λ i. same i ∙ stands i) (omega (arith, padded-round_up content fits)) in
        rw (some, small)
          (content-Restores media fs output content m (read_at rt d start size w) fits (
            ReadsAll-Same media (media w) m _ _ same
              (subst (λ b. ReadsAll media (media w) b (read_at rt d start size w)) whole reads)))

    -- From what the read of the header came to.
    header-Restores :
        (zone_size : Sector) (m : ℕ → ℕ) (r : Outcome ZonedError (List ℕ) × W)
        → Same m (overlay m₀ (start * sector_size) (padded (payload_of content)))
        → 0 < length content
        → length content ≤ to_bytes zone_size
        → ReadsAll media m (take write_align (padded (payload_of content))) r
        → Restores media m fs output content (
            and_then {B = Unit {0}}
              (convert_err failed r.0, r.1)
              (λ header.
                if ltb (length header) header_size
                then fail (exits 1)
                else load_content rt fs d zone_size start output
                    (from_le (take header_size header))))
    header-Restores zone_size m (ok header, w) stands some_bytes within (whole, same) =
        let long : ltb (length header) header_size ≡ false = le→ltb_false _ _ (
          omega (
            arith,
            ap (λ (xs : List ℕ). length xs) whole,
            length-take write_align (padded (payload_of content)),
            (padded-whole content).1,
          )) in
        let size : from_le (take header_size header) ≡ length content =
          ap (λ xs. from_le (take header_size xs)) whole
          ∙ header-length content (omega (arith, fits)) in
        rw (long, size) (load_content-Restores zone_size m w stands same some_bytes within)
    header-Restores zone_size m (err e, w) stands some_bytes within same = inl (e, w, refl)
    header-Restores zone_size m (panic, w) stands some_bytes within h = elim h [ ]
    header-Restores zone_size m (timeout, w) stands some_bytes within h = elim h [ ]

    pub load-Restores :
        (zone_num : ZoneIndex) (info : DeviceInfo) (w : W)
        → device_info d w ≡ (ok info, w)
        → mul_u64 info.zone_size zone_num ≡ start
        → Same (media w) (overlay m₀ (start * sector_size) (padded (payload_of content)))
        → 0 < length content
        → length content ≤ to_bytes info.zone_size
        → Restores media (media w) fs output content (load rt fs d zone_num output w)
    unfolding load
    load-Restores zone_num info w answer at_start stands some_bytes within =
        rw (answer, at_start)
          (header-Restores info.zone_size (media w) (read_at rt d start write_align w) stands
            some_bytes within
            (read_at-ReadsAll media rt runs d start (padded (payload_of content)) write_align m₀ w
              readable full stands (padded-whole content).1))
