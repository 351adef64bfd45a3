-- ===== src/Device/Write.antt =====
-- `write_all_at` of device/mod.rs: what it leaves on the medium, its errors included.
use zoned.Base.{
  ℕ, zero, suc, ◌+◌, ◌*◌, ◌/◌, ◌%◌, ◌≤◌, ◌<◌, ◌≡◌, refl, ◌∙◌, inl, inr, List, [], ◌∷◌, arith, ◌==◌,
  Bool-cases, lt→leb_false, le→ltb_false, take, drop, length, length-drop, u64_mod, add_u64,
  checked_mul, some,
}
use zoned.Errors.{Outcome, ok, err, panic, timeout, ZonedError, and_then, Returns}
use zoned.Types.{Sector, sector_size}
use zoned.Device.{writev_at, ZonedDevice, Zio, write_at, after_write, write_loop, write_all_at}
use zoned.Device.Storage.{overlay, Same, Honest, Storage, overlay-nil, overlay-take}

-- A call returned `r` and wrote the first `count` bytes of the buffer at the offset, all of them if
-- it succeeded, and nothing else.
pub record Written {W : Type 0} (media : W → ℕ → ℕ) (m : ℕ → ℕ) (offset : ℕ) (buf : List ℕ)
    (r : Outcome ZonedError (Unit {0}) × W) : Type 0 where
  pub count : ℕ
  pub within : count ≤ length buf
  pub bytes : Same (media r.1) (overlay m offset (take count buf))
  pub whole : r.0 ≡ ok tt → count ≡ length buf
  pub returned : Returns r.0

module _ {W : Type 0} (d : ZonedDevice W) where
  checked_mul_below :
      (s : Sector) → s * sector_size < u64_mod → checked_mul s sector_size ≡ some (s * sector_size)
  checked_mul_below s h = rw (lt→leb_false u64_mod (s * sector_size) h)

  pub write_at-bytes :
      (s : Sector) (buf : List ℕ) (w : W)
      → s * sector_size < u64_mod
      → write_at d s buf w ≡ d.inner.write_at buf (s * sector_size) w
  unfolding write_at
  write_at-bytes s buf w h = rw (checked_mul_below s h)

  pub writev_at-bytes :
      (s : Sector) (bufs : List (List ℕ)) (w : W)
      → s * sector_size < u64_mod
      → writev_at d s bufs w ≡ d.inner.writev_at bufs (s * sector_size) w
  unfolding writev_at
  writev_at-bytes s bufs w h = rw (checked_mul_below s h)

module _ {W : Type 0} (media : W → ℕ → ℕ) where
  -- A write of `n` bytes, followed by a call that writes the rest of the buffer behind them.
  Written-after :
      (m : ℕ → ℕ) (offset n : ℕ) (buf : List ℕ) (w : W) (r : Outcome ZonedError (Unit {0}) × W)
      → n ≤ length buf
      → Same (media w) (overlay m offset (take n buf))
      → Written media (media w) (offset + n) (drop n buf) r
      → Written media m offset buf r
  Written-after m offset n buf w r h same v = record {
    count = n + v.count;
    within = omega (arith, v.within, length-drop n buf);
    bytes = λ i. v.bytes i ∙ overlay-take (media w) m offset n v.count buf h same i;
    whole = λ e. omega (arith, v.whole e, length-drop n buf);
    returned = v.returned;
  }

  Written-none :
      (m : ℕ → ℕ) (offset : ℕ) (buf : List ℕ) (e : ZonedError) (w : W)
      → Same (media w) m
      → Written media m offset buf (err e, w)
  Written-none m offset buf e w h = record {
    count = 0;
    within = omega arith;
    bytes = λ i. h i ∙ overlay-nil m offset i;
    whole = λ p. cc;
    returned = tt;
  }

module _ {W : Type 0} (d : ZonedDevice W) (media : W → ℕ → ℕ) where
  -- The rest of a round, where the next round does its part.
  round-Written :
      (again : Sector → List ℕ → Zio W (Unit {0})) (s : Sector) (buf : List ℕ) (m : ℕ → ℕ)
      (r : Outcome ZonedError ℕ × W)
      → s * sector_size + length buf ≤ u64_mod
      → length buf % sector_size ≡ 0
      → ((s' : Sector) (n : ℕ) (w : W)
          → 0 < n
          → n ≤ length buf
          → n % sector_size ≡ 0
          → s' * sector_size ≡ s * sector_size + n
          → Written media (media w) (s' * sector_size) (drop n buf) (again s' (drop n buf) w))
      → Honest media m (s * sector_size) buf r
      → Written media m (s * sector_size) buf (and_then r (after_write again d s buf))
  unfolding after_write
  round-Written again s buf m (ok n, w) fits whole rest h = elim (Bool-cases (n == 0)) [
    | inl zero_written ↦
        rw zero_written
          (record { count = n; within = h.0; bytes = h.2; whole = λ p. cc; returned = tt })
    | inr some_written ↦
        rw (some_written, le→ltb_false (length buf) n h.0)
          (Written-after media m (s * sector_size) n buf w _ h.0 h.2
            (rw (← moved) (rest _ n w (ground arith) h.0 (h.1 whole) moved)))
  ]
    where
      moved : add_u64 s (n / sector_size) * sector_size ≡ s * sector_size + n
      moved = omega (arith, h.0, h.1 whole)
  round-Written again s buf m (err e, w) fits whole rest h =
      Written-none media m (s * sector_size) buf e w h
  round-Written again s buf m (panic, w) fits whole rest h = elim h [ ]
  round-Written again s buf m (timeout, w) fits whole rest h = elim h [ ]

module _ {W : Type 0} (d : ZonedDevice W) (media : W → ℕ → ℕ) (storage : Storage d media) where
  write_loop-Written :
      (fuel : ℕ) (s : Sector) (buf : List ℕ) (w : W)
      → length buf ≤ fuel
      → s * sector_size + length buf ≤ u64_mod
      → length buf % sector_size ≡ 0
      → Written media (media w) (s * sector_size) buf (write_loop fuel d s buf w)
  unfolding write_loop
  write_loop-Written fuel s [] w enough fits whole = record {
    count = 0;
    within = omega arith;
    bytes = overlay-nil (media w) (s * sector_size);
    whole = λ p. refl;
    returned = tt;
  }
  write_loop-Written zero s (b ∷ bs) w enough fits whole = absurd (omega arith)
  write_loop-Written (suc fuel) s (b ∷ bs) w enough fits whole =
      rw (write_at-bytes d s (b ∷ bs) w (omega arith)) (
        round-Written d media (write_loop fuel d) s (b ∷ bs) (media w) _ fits whole
          (λ s' n w' pos le units moved.
            write_loop-Written fuel s' (drop n (b ∷ bs)) w' (omega (arith, length-drop n (b ∷ bs)))
              (omega (arith, length-drop n (b ∷ bs))) (omega (arith, length-drop n (b ∷ bs))))
          (storage.honest (b ∷ bs) (s * sector_size) w))

  -- On a device whose writes are honest and in whole sectors, a call of `write_all_at` with a
  -- buffer of whole sectors that ends below 2^64 bytes comes back, having written the first
  -- `count` bytes of the buffer at the sector and changed no other byte. If it succeeds, that is
  -- all of the buffer.
  pub write_all_at-Written :
      (s : Sector) (buf : List ℕ) (w : W)
      → s * sector_size + length buf ≤ u64_mod
      → length buf % sector_size ≡ 0
      → Written media (media w) (s * sector_size) buf (write_all_at d s buf w)
  unfolding write_all_at
  write_all_at-Written s buf w fits whole =
      write_loop-Written (length buf) s buf w (omega arith) fits whole
