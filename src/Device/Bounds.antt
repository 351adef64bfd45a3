-- ===== src/Device/Bounds.antt =====
-- The sectors and byte offsets that device/mod.rs passes to a platform, within machine words.
use zoned.Base.{
  ℕ, ◌+◌, ◌*◌, ◌<◌, ◌≡◌, refl, ◌⊎◌, inl, inr, Bool-cases, arith, leb, ◌==◌, leb→le, le→leb, ==_iff,
  ==_false→lt, List, u64_mod,
}
use zoned.Errors.{Outcome, err, ZonedError, invalid_range}
use zoned.Types.{Sector, sector_size}
use zoned.Device.{
  ZonedDevice, validate_range, reset_zones, open_zones, close_zones, finish_zones, write_at,
  read_at, writev_at, readv_at,
}

-- A call either goes to the platform, where its bound holds, or is refused with nothing changed.
abbrev pub Checked :
    {W A : Type 0}
    → (Bound : Type 0) → (refused : ZonedError) → W
    → Outcome ZonedError A × W
    → Outcome ZonedError A × W
    → Type 0
Checked Bound refused w asked r = (Bound × (r ≡ asked)) ⊎ ((Bound → ⊥) × (r ≡ (err refused, w)))

module _ {W : Type 0} (d : ZonedDevice W) (s : Sector) (w : W) where
  -- The four positional calls go to the platform at the byte offset of their sector if it fits 64
  -- bits, and are refused with `InvalidRange` otherwise.
  pub positional-Checked :
      (buf : List ℕ) (bufs : List (List ℕ))
      → Checked
          (s * sector_size < u64_mod)
          (invalid_range s 0)
          w
          (d.inner.write_at buf (s * sector_size) w)
          (write_at d s buf w)
        × Checked
            (s * sector_size < u64_mod)
            (invalid_range s 0)
            w
            (d.inner.read_at buf (s * sector_size) w)
            (read_at d s buf w)
        × Checked
            (s * sector_size < u64_mod)
            (invalid_range s 0)
            w
            (d.inner.writev_at bufs (s * sector_size) w)
            (writev_at d s bufs w)
        × Checked
            (s * sector_size < u64_mod)
            (invalid_range s 0)
            w
            (d.inner.readv_at bufs (s * sector_size) w)
            (readv_at d s bufs w)
  unfolding write_at read_at writev_at readv_at
  positional-Checked buf bufs = elim (Bool-cases (leb u64_mod (s * sector_size))) [
    | inl beyond ↦
        (let no : s * sector_size < u64_mod → ⊥ =
            λ h. absurd (omega (arith, h, leb→le _ _ beyond)) in
          rw beyond (inr (no, refl), inr (no, refl), inr (no, refl), inr (no, refl)))
    | inr below ↦
        (let yes : s * sector_size < u64_mod = ground (arith, le→leb u64_mod (s * sector_size)) in
          rw below (inl (yes, refl), inl (yes, refl), inl (yes, refl), inl (yes, refl)))
  ]

  -- The four zone commands go to the platform if their range is not empty and ends below 2^64, and
  -- are refused with `InvalidRange` otherwise.
  pub zone_commands-Checked :
      (n : Sector)
      → Checked
          ((0 < n) × (s + n < u64_mod))
          (invalid_range s n)
          w
          (d.inner.reset_zones s n w)
          (reset_zones d s n w)
        × Checked
            ((0 < n) × (s + n < u64_mod))
            (invalid_range s n)
            w
            (d.inner.open_zones s n w)
            (open_zones d s n w)
        × Checked
            ((0 < n) × (s + n < u64_mod))
            (invalid_range s n)
            w
            (d.inner.close_zones s n w)
            (close_zones d s n w)
        × Checked
            ((0 < n) × (s + n < u64_mod))
            (invalid_range s n)
            w
            (d.inner.finish_zones s n w)
            (finish_zones d s n w)
  unfolding reset_zones open_zones close_zones finish_zones validate_range
  zone_commands-Checked n = elim (Bool-cases (n == 0)) [
    | inl none ↦
        (let no : (0 < n) × (s + n < u64_mod) → ⊥ =
            λ h. absurd (omega (arith, h.0, (==_iff n 0).0 none)) in
          rw none (inr (no, refl), inr (no, refl), inr (no, refl), inr (no, refl)))
    | inr some ↦ elim (Bool-cases (leb u64_mod (s + n))) [
      | inl beyond ↦
          (let no : (0 < n) × (s + n < u64_mod) → ⊥ =
              λ h. absurd (omega (arith, h.1, leb→le _ _ beyond)) in
            rw (some, beyond) (inr (no, refl), inr (no, refl), inr (no, refl), inr (no, refl)))
      | inr below ↦
          (let yes : (0 < n) × (s + n < u64_mod) =
              (==_false→lt n some, ground (arith, le→leb u64_mod (s + n))) in
            rw (some, below) (inl (yes, refl), inl (yes, refl), inl (yes, refl), inl (yes, refl)))
    ]
  ]
