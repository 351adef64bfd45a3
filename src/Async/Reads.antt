-- ===== src/Async/Reads.antt =====
-- What is read back through async_api/device.rs.
use zoned.Base.{
  ℕ, ◌+◌, ◌*◌, ◌%◌, ◌≤◌, ◌≡◌, refl, sym, ap, subst, ◌∙◌, inl, inr, List, ◌++◌, arith, leb,
  Bool-cases, leb→le, le→leb, take, drop, length, take-length, length-replicate, take-append_length,
  replicate, u64_mod,
}
use zoned.Errors.{Outcome, ok, err, panic, timeout, ZonedError, and_then, return, Returns, OnOk}
use zoned.Types.{Sector, sector_size}
use zoned.Device
use zoned.Device.{ZonedDevice}
use zoned.Device.Storage.{overlay, Same, Storage}
use zoned.Device.Reads.{
  ReadsAll, bytes_at, HonestRead, Readable, FullReads, bytes_at-overlay, bytes_at-Same,
  read_at-bytes, read_at-beyond, length-bytes_at,
}
use zoned.Device.Write.{Written, write_all_at-Written}
use zoned.Async.{Runtime, Runs, spawn_blocking-Returns, spawn_blocking-value}
use zoned.Async.Device.{AsyncZonedDevice, read_block, read_at, write_all_at}

-- What a read of `len` bytes gives, where `buf` was written: the first bytes of it, or an error. It
-- does not change the medium.
abbrev pub ReadsBack :
    {W : Type 0} → (W → ℕ → ℕ) → (ℕ → ℕ) → List ℕ → ℕ → Outcome ZonedError (List ℕ) × W → Type 0
ReadsBack media m buf len (ok bytes, w) =
    (length bytes ≤ len) × (bytes ≡ take (length bytes) buf) × Same (media w) m
ReadsBack media m buf len (err e, w) = Same (media w) m
ReadsBack media m buf len (panic, w) = ⊥
ReadsBack media m buf len (timeout, w) = ⊥

module _ {W : Type 0} (media : W → ℕ → ℕ) where
  ReadsBack-Returns :
      (m : ℕ → ℕ) (buf : List ℕ) (len : ℕ) (r : Outcome ZonedError (List ℕ) × W)
      → ReadsBack media m buf len r
      → Returns r.0
  ReadsBack-Returns m buf len (ok bytes, w) h = tt
  ReadsBack-Returns m buf len (err e, w) h = tt
  ReadsBack-Returns m buf len (panic, w) h = h
  ReadsBack-Returns m buf len (timeout, w) h = h

  taken-bytes_at :
      (m : ℕ → ℕ) (offset n len : ℕ) (filled : List ℕ)
      → filled ≡ bytes_at m offset n ++ drop n (replicate len 0)
      → take n filled ≡ bytes_at m offset n
  taken-bytes_at m offset n len filled e =
      ap (take n) e
      ∙ subst (λ k. take k (bytes_at m offset n ++ drop n (replicate len 0)) ≡ bytes_at m offset n)
          (length-bytes_at m offset n)
          (take-append_length (bytes_at m offset n) (drop n (replicate len 0)))

  -- The closure of `read_at`, from what the call on the device came to.
  truncated-ReadsBack :
      (m m₀ : ℕ → ℕ) (offset len : ℕ) (buf : List ℕ) (r : Outcome ZonedError (ℕ × List ℕ) × W)
      → Same m (overlay m₀ offset buf)
      → len ≤ length buf
      → HonestRead media m offset (replicate len 0) r
      → ReadsBack media m buf len (and_then r (λ x. return (take x.0 x.1)))
  truncated-ReadsBack m m₀ offset len buf (ok (n, filled), w) same fits
        (le, filled_with, unchanged) =
      let taken : take n filled ≡ bytes_at m offset n =
        taken-bytes_at m offset n len filled filled_with in
      let count : length (take n filled) ≡ n = rw taken (length-bytes_at m offset n) in
      (
        omega (arith, count, le, length-replicate {A = ℕ} len 0),
        rw count (
            taken
            ∙ bytes_at-Same m (overlay m₀ offset buf) offset n (λ i a b. same i)
            ∙ bytes_at-overlay m₀ offset n buf (omega (arith, le, length-replicate {A = ℕ} len 0))),
        unchanged,
      )
  truncated-ReadsBack m m₀ offset len buf (err e, w) same fits h = h
  truncated-ReadsBack m m₀ offset len buf (panic, w) same fits h = h
  truncated-ReadsBack m m₀ offset len buf (timeout, w) same fits h = h

  read_block-ReadsBack :
      (d : ZonedDevice W) (s : Sector) (buf : List ℕ) (len : ℕ) (m₀ : ℕ → ℕ) (w : W)
      → Readable d media
      → Same (media w) (overlay m₀ (s * sector_size) buf)
      → len ≤ length buf
      → ReadsBack media (media w) buf len (read_block d s len w)
  unfolding read_block
  read_block-ReadsBack d s buf len m₀ w readable same fits =
      elim (Bool-cases (leb u64_mod (s * sector_size))) [
        | inl beyond ↦
            rw (read_at-beyond d s (replicate len 0) w (leb→le u64_mod (s * sector_size) beyond))
              (λ i. refl)
        | inr below ↦
            rw
              (read_at-bytes d s (replicate len 0) w
                (ground (arith, le→leb u64_mod (s * sector_size))))
              (truncated-ReadsBack (media w) m₀ (s * sector_size) len buf _ same fits
                (readable.honest (replicate len 0) (s * sector_size) w))
      ]

module _ {W : Type 0} (media : W → ℕ → ℕ) where
  ReadsBack-ReadsAll :
      (m : ℕ → ℕ) (buf : List ℕ) (len : ℕ) (r : Outcome ZonedError (List ℕ) × W)
      → ReadsBack media m buf len r
      → OnOk (λ bytes. length bytes ≡ len) r.0
      → ReadsAll media m (take len buf) r
  ReadsBack-ReadsAll m buf len (ok bytes, w) h e = (h.1 ∙ ap (λ n. take n buf) e, h.2)
  ReadsBack-ReadsAll m buf len (err x, w) h e = h
  ReadsBack-ReadsAll m buf len (panic, w) h e = h
  ReadsBack-ReadsAll m buf len (timeout, w) h e = h

  truncated-length :
      (m : ℕ → ℕ) (offset len : ℕ) (r : Outcome ZonedError (ℕ × List ℕ) × W)
      → HonestRead media m offset (replicate len 0) r
      → OnOk (λ x. x.0 ≡ length (replicate {A = ℕ} len 0)) r.0
      → OnOk (λ bytes. length bytes ≡ len) (and_then r (λ x. return (take x.0 x.1))).0
  truncated-length m offset len (ok (n, filled), w) h e = omega (
    arith,
    ap (λ bytes. length bytes) (taken-bytes_at media m offset n len filled h.1),
    length-bytes_at m offset n,
    e,
    length-replicate {A = ℕ} len 0,
  )
  truncated-length m offset len (err x, w) h e = tt
  truncated-length m offset len (panic, w) h e = tt
  truncated-length m offset len (timeout, w) h e = tt

  read_block-length :
      (d : ZonedDevice W) (s : Sector) (len : ℕ) (w : W)
      → Readable d media
      → FullReads d
      → OnOk (λ bytes. length bytes ≡ len) (read_block d s len w).0
  unfolding read_block
  read_block-length d s len w readable full = elim (Bool-cases (leb u64_mod (s * sector_size))) [
    | inl beyond ↦
        rw (read_at-beyond d s (replicate len 0) w (leb→le u64_mod (s * sector_size) beyond)) tt
    | inr below ↦
        rw
          (read_at-bytes d s (replicate len 0) w (ground (arith, le→leb u64_mod (s * sector_size))))
          (truncated-length (media w) (s * sector_size) len _
            (readable.honest (replicate len 0) (s * sector_size) w)
            (full.full (replicate len 0) (s * sector_size) w))
  ]

  -- Where reads are full, an async read of no more bytes than were written gives them all.
  pub read_at-ReadsAll :
      (rt : Runtime)
      → Runs rt
      → (d : AsyncZonedDevice W) (s : Sector) (buf : List ℕ) (len : ℕ) (m₀ : ℕ → ℕ) (w : W)
      → Readable d.inner media
      → FullReads d.inner
      → Same (media w) (overlay m₀ (s * sector_size) buf)
      → len ≤ length buf
      → ReadsAll media (media w) (take len buf) (read_at rt d s len w)
  unfolding read_at
  read_at-ReadsAll rt runs d s buf len m₀ w readable full same le =
      let back = read_block-ReadsBack media d.inner s buf len m₀ w readable same le in
      rw
        (spawn_blocking-Returns rt runs (read_block d.inner s len) w
          (ReadsBack-Returns media (media w) buf len _ back))
        (ReadsBack-ReadsAll (media w) buf len _ back
          (read_block-length d.inner s len w readable full))

-- After a write that succeeded, the medium has all of the buffer.
Written-all :
    {W : Type 0} (media : W → ℕ → ℕ) (m : ℕ → ℕ) (offset : ℕ) (buf : List ℕ)
    (r : Outcome ZonedError (Unit {0}) × W) (w' : W)
    → Written media m offset buf r
    → r ≡ (ok tt, w')
    → Same (media w') (overlay m offset buf)
Written-all {W} media m offset buf r w' v e i =
    ap (λ (x : W). media x i) (sym (ap (λ x. x.1) e))
    ∙ v.bytes i
    ∙ ap (λ b. overlay m offset b i)
        (take-length v.count buf (omega (arith, v.whole (ap (λ x. x.0) e))))

-- On a device whose reads and writes are honest and in whole sectors, in a runtime that runs its
-- calls, a buffer of whole sectors that ends below 2^64 bytes was written by `write_all_at`, which
-- succeeded. Then a `read_at` of no more bytes at the same sector comes back with the first bytes of the
-- buffer, or with an error.
pub read_at-written :
    (rt : Runtime)
    → Runs rt
    → {W : Type 0} (media : W → ℕ → ℕ) (d : AsyncZonedDevice W) → Storage d.inner media
    → Readable d.inner media
    → (s : Sector) (buf : List ℕ) (len : ℕ) (w w' : W) → s * sector_size + length buf ≤ u64_mod
    → length buf % sector_size ≡ 0
    → len ≤ length buf
    → write_all_at rt d s buf w ≡ (ok tt, w')
    → ReadsBack media (media w') buf len (read_at rt d s len w')
unfolding write_all_at read_at
read_at-written rt runs media d storage readable s buf len w w' fits whole le e =
    let v = write_all_at-Written d.inner media storage s buf w fits whole in
    let e' = spawn_blocking-value rt runs (Device.write_all_at d.inner s buf) w w' tt e in
    let back =
      read_block-ReadsBack media d.inner s buf len (media w) w' readable
        (Written-all media (media w) (s * sector_size) buf _ w' v e') le in
    rw
      (spawn_blocking-Returns rt runs (read_block d.inner s len) w'
        (ReadsBack-Returns media (media w') buf len _ back))
      back
