-- ===== src/Examples/Zcli/Bench/Writes.antt =====
-- The writes of a bench thread of examples/zcli.rs: what they leave of the handle, and how much they report.
use zoned.Base.{
  ℕ, ◌+◌, ◌-◌, ◌/◌, ◌≤◌, ◌≡◌, refl, ap, inl, inr, List, [], ◌∷◌, arith, Bool-cases, leb, length,
  take, drop, min, length-take, length-append, take-append-drop,
}
use zoned.Errors.{Outcome, ok, err, panic, timeout, ZonedError, OnOk, ◌>>◌, return, and_then}
use zoned.Types.{to_bytes}
use zoned.Device.{ZonedDevice}
use zoned.Device.Bounds.{positional-Checked}
use zoned.Handle.{ZoneHandle, advance, capacity_end, write_sequential, writev_sequential}
use zoned.Examples.Zcli.Transfer.{halves}
use zoned.Examples.Zcli.Bench.{Writer, piece, write_some}

-- The bytes of some buffers.
abbrev pub total_length : List (List ℕ) → ℕ
total_length [] = 0
total_length (buf ∷ bufs) = length buf + total_length bufs

-- A device whose writes report at most what they were given.
pub record Bounded {W : Type 0} (d : ZonedDevice W) : Type 0 where
  pub write :
      (buf : List ℕ) (offset : ℕ) (w : W)
      → OnOk (λ n. n ≤ length buf) (d.inner.write_at buf offset w).0
  pub writev :
      (bufs : List (List ℕ)) (offset : ℕ) (w : W)
      → OnOk (λ n. n ≤ total_length bufs) (d.inner.writev_at bufs offset w).0

-- A call on a handle that left its device and capacity, and reported at most `most` bytes.
abbrev pub Reports :
    {W : Type 0} → ZoneHandle W → ℕ → Outcome ZonedError ℕ × (ZoneHandle W × W) → Type 0
Reports h most r =
    OnOk (λ n. n ≤ most) r.0 × (r.1.0.device ≡ h.device) × (r.1.0.capacity ≡ h.capacity)

module _ {W : Type 0} (h : ZoneHandle W) (most : ℕ) where
  advance-Reports :
      (r : Outcome ZonedError ℕ × W)
      → OnOk (λ n. n ≤ most) r.0
      → Reports h most (and_then (r.0, (h, r.1)) (λ n. advance n >> return n))
  advance-Reports (ok n, w) k = (k, refl, refl)
  advance-Reports (err e, w) k = (tt, refl, refl)
  advance-Reports (panic, w) k = (tt, refl, refl)
  advance-Reports (timeout, w) k = (tt, refl, refl)

Reports-le :
    {W : Type 0} (h : ZoneHandle W) (a b : ℕ) (r : Outcome ZonedError ℕ × (ZoneHandle W × W))
    → a ≤ b
    → Reports h a r
    → Reports h b r
Reports-le h a b (ok n, s) le v = (omega (arith, v.0), v.1, v.2)
Reports-le h a b (err e, s) le v = v
Reports-le h a b (panic, s) le v = v
Reports-le h a b (timeout, s) le v = v

length-halves : (bytes : List ℕ) → total_length (halves bytes) ≡ length bytes
length-halves bytes = omega (
  arith,
  length-append (take (length bytes / 2) bytes) (drop (length bytes / 2) bytes),
  ap length (take-append-drop (length bytes / 2) bytes),
)

length-piece :
    {W : Type 0} (t : Writer W) (h : ZoneHandle W)
    → length (piece t h) ≤ to_bytes h.capacity - t.zone_bytes
length-piece t h =
    omega (arith, length-take (min (to_bytes h.capacity - t.zone_bytes) (length t.buf)) t.buf)

module _ {W : Type 0} (h : ZoneHandle W) (w : W) (bounded : Bounded h.device) where
  write_sequential-Reports : (buf : List ℕ) → Reports h (length buf) (write_sequential buf (h, w))
  unfolding write_sequential
  write_sequential-Reports buf = elim (Bool-cases (leb (capacity_end h) h.write_pointer)) [
    | inl full ↦ rw full (tt, refl, refl)
    | inr before ↦ rw before (elim ((positional-Checked h.device h.write_pointer w buf []).0) [
      | inl (fits, e) ↦ rw e (advance-Reports h (length buf) _ (bounded.write buf _ w))
      | inr (beyond, e) ↦ rw e (tt, refl, refl)
    ])
  ]

  writev_sequential-Reports :
      (bufs : List (List ℕ)) → Reports h (total_length bufs) (writev_sequential bufs (h, w))
  unfolding writev_sequential
  writev_sequential-Reports bufs = elim (Bool-cases (leb (capacity_end h) h.write_pointer)) [
    | inl full ↦ rw full (tt, refl, refl)
    | inr before ↦ rw before (elim ((positional-Checked h.device h.write_pointer w [] bufs).2) [
      | inl (fits, e) ↦ rw e (advance-Reports h (total_length bufs) _ (bounded.writev bufs _ w))
      | inr (beyond, e) ↦ rw e (tt, refl, refl)
    ])
  ]

  -- A thread writes at most what its zone has left, in one piece or in two.
  pub write_some-Reports :
      (t : Writer W) → Reports h (to_bytes h.capacity - t.zone_bytes) (write_some t (h, w))
  write_some-Reports t = elim (Bool-cases t.use_writev) [
    | inl vectored ↦ rw vectored (
        Reports-le h _ _ (writev_sequential (halves (piece t h)) (h, w))
          (omega (arith, length-halves (piece t h), length-piece t h))
          (writev_sequential-Reports (halves (piece t h))))
    | inr plain ↦ rw plain (
        Reports-le h _ _ (write_sequential (piece t h) (h, w)) (omega (arith, length-piece t h))
          (write_sequential-Reports (piece t h)))
  ]
