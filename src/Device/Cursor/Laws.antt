-- ===== src/Device/Cursor/Laws.antt =====
-- The laws of device/cursor.rs: where a seek leads, and what a write does at the position.
use zoned.Base.{
  ℕ, suc, ◌+◌, ◌*◌, ◌-◌, ◌/◌, ◌%◌, ◌^◌, ◌≤◌, ◌<◌, ◌≡◌, ◌⊎◌, inl, inr, refl, ap, some, List, arith,
  leb, ◌==◌, Bool-cases, take, length, u64_mod, pos, negsuc,
}
use zoned.Errors.{
  ZonedError, wrapped, convert_err, and_then, return, ◌>>◌, custom, unsupported, Outcome, IoError,
  ok, err, panic, timeout,
}
use zoned.Types.{Sector, sector_size, from_bytes}
use zoned.Device.{ZonedDevice}
use zoned.Device.Storage.{Same, overlay, Honest, Storage}
use zoned.Device.Write.{write_at-bytes}
use zoned.Device.Cursor.{
  Cursor, SeekFrom, start, current, end, at_sector, sector_position, advance, write, seek,
  seek_overflow, seek_underflow, seek_unaligned,
}

-- The position `t` that a seek from `p` asks for, over unbounded integers.
abbrev pub Asks : SeekFrom → ℕ → ℕ → Type 0
Asks (start offset) p t = t ≡ offset
Asks (current (pos n)) p t = t ≡ p + n
Asks (current (negsuc n)) p t = t + suc n ≡ p
Asks (end _) p t = ⊥

-- A position that a cursor may take.
abbrev pub Allowed : ℕ → Type 0
Allowed t = (t < u64_mod) × (t % sector_size ≡ 0)

abbrev InRange : SeekFrom → Type 0
InRange (start offset) = offset < u64_mod
InRange (current _) = Unit {0}
InRange (end _) = Unit {0}

module _ {W : Type 0} (c : Cursor W) (w : W) where
  -- A seek goes to the position that it asks for, if that is a multiple of 512 that fits 64 bits.
  -- If no such position is asked for, it fails and leaves the cursor as it was. The world below is
  -- never touched.
  pub seek-Asks :
      (from : SeekFrom)
      → InRange from
      → c.position < u64_mod
      → ((t : ℕ) × Asks from c.position t
          × Allowed t
          × (seek from (c, w) ≡ (ok t, (record c { position = t }, w))))
        ⊎ ((e : IoError) × ((t : ℕ) → Asks from c.position t → ¬ Allowed t)
            × (seek from (c, w) ≡ (err e, (c, w))))
  unfolding seek
  seek-Asks (start offset) h k = elim (Bool-cases (offset % sector_size == 0)) [
    | inl whole ↦ inl (offset, refl, (h, ground arith), rw whole)
    | inr part ↦ inr (seek_unaligned, (λ t e a. ground (arith, a)), rw part)
  ]
  seek-Asks (current (pos n)) h k = elim (Bool-cases (leb u64_mod (c.position + n))) [
    | inl over ↦ inr (seek_overflow, (λ t e a. ground (arith, a)), rw over)
    | inr fits ↦ rw fits (elim (Bool-cases ((c.position + n) % sector_size == 0)) [
      | inl whole ↦ inl (c.position + n, refl, (ground arith, ground arith), rw whole)
      | inr part ↦ inr (seek_unaligned, (λ t e a. ground (arith, a)), rw part)
    ])
  ]
  seek-Asks (current (negsuc n)) h k = elim (Bool-cases (leb (suc n) c.position)) [
    | inr under ↦ inr (seek_underflow, (λ t e a. ground (arith, a)), rw under)
    | inl fits ↦ rw fits (elim (Bool-cases ((c.position - suc n) % sector_size == 0)) [
      | inl whole ↦ inl (c.position - suc n, ground arith, (ground arith, ground arith), rw whole)
      | inr part ↦ inr (seek_unaligned, (λ t e a. ground (arith, a)), rw part)
    ])
  ]
  seek-Asks (end k') h k = inr (
    custom unsupported
        "SeekFrom::End is not supported for block devices (unknown size at this layer)",
    (λ t e a. e),
    refl,
  )

-- The position of a cursor that is put at a sector is that sector modulo 2^55, for the byte offset
-- is taken modulo 2^64: below 2^55 it is the sector itself.
pub sector_position-at_sector :
    {W : Type 0} (d : ZonedDevice W) (s : Sector)
    → sector_position (at_sector d s) ≡ some (s % 2 ^ 55)
unfolding sector_position at_sector
sector_position-at_sector d s = ground arith

module _ {W : Type 0} (media : W → ℕ → ℕ) where
  -- What a write of `buf` through the cursor `c` may come to, over the medium `m`.
  abbrev pub Puts : (ℕ → ℕ) → Cursor W → List ℕ → Outcome IoError ℕ × (Cursor W × W) → Type 0
  Puts m c buf (ok n, (c', w)) =
      (c.position % sector_size ≡ 0)
      × (n ≤ length buf)
      × Same (media w) (overlay m c.position (take n buf))
      × (c' ≡ record c { position = c.position + n })
      × (length buf % sector_size ≡ 0 → (c.position + n) % sector_size ≡ 0)
  Puts m c buf (err e, (c', w)) = Same (media w) m × (c' ≡ c)
  Puts m c buf (panic, s) = ⊥
  Puts m c buf (timeout, s) = ⊥

  advance-Puts :
      (m : ℕ → ℕ) (c : Cursor W) (buf : List ℕ) (r : Outcome ZonedError ℕ × W)
      → c.position % sector_size ≡ 0
      → c.position + length buf < u64_mod
      → Honest media m c.position buf r
      → Puts m c buf (and_then (convert_err wrapped r.0, (c, r.1)) (λ n. advance n >> return n))
  advance-Puts m c buf (ok n, w) whole fits h = (
    whole,
    h.0,
    h.2,
    ap (λ (k : ℕ). record c { position = k }) (omega (arith, h.0)),
    λ p. omega (arith, h.1 p),
  )
  advance-Puts m c buf (err e, w) whole fits h = (h, refl)
  advance-Puts m c buf (panic, w) whole fits h = elim h [ ]
  advance-Puts m c buf (timeout, w) whole fits h = elim h [ ]

  -- On a device whose writes are honest, a write through a cursor puts the bytes that it reports at
  -- the cursor's byte position and moves the position behind them, to a multiple of 512 if the
  -- buffer is whole sectors. It succeeds only from a position that is a multiple of 512, and an
  -- error changes neither the medium nor the cursor.
  pub write-Puts :
      (c : Cursor W) (buf : List ℕ) (w : W)
      → Storage c.device media
      → c.position + length buf < u64_mod
      → Puts (media w) c buf (write buf (c, w))
  unfolding write from_bytes
  write-Puts c buf w storage fits = elim (Bool-cases (c.position % sector_size == 0)) [
    | inr part ↦ rw part ((λ i. refl), refl)
    | inl whole ↦
        let sector : c.position / sector_size * sector_size ≡ c.position = ground arith in
        rw (whole, write_at-bytes c.device (c.position / sector_size) buf w (omega arith), sector)
          (advance-Puts (media w) c buf _ (ground arith) fits (storage.honest buf c.position w))
  ]
