-- ===== src/Handle/Write.antt =====
-- `write_all_sequential` of zone_handle/mod.rs: the medium and the tracked write pointer.
use zoned.Base.{
  ℕ, zero, suc, ◌+◌, ◌*◌, ◌-◌, ◌/◌, ◌%◌, ◌≤◌, ◌<◌, ◌≡◌, refl, ap, sym, ◌∙◌, subst, inl, inr, List,
  [], ◌∷◌, arith, leb, ◌==◌, Bool-cases, le→ltb_false, take, drop, length, length-drop, u64_mod,
  add_u64,
}
use zoned.Errors.{Outcome, ok, err, panic, timeout, ZonedError, ◌>>◌, return, and_then, Returns}
use zoned.Types.{sector_size}
use zoned.Device.Storage.{overlay, Same, Honest, Storage, overlay-nil, overlay-take}
use zoned.Device.Write.{write_at-bytes}
use zoned.Handle.{
  ZoneHandle, Hio, advance, capacity_end, write_sequential, after_write, write_loop,
  write_all_sequential,
}

-- A call on the handle `h` returned `r` and wrote the first `count` bytes of the buffer, a whole
-- number of sectors, at the write pointer, which moved behind them; all of them if it succeeded.
pub record Appended {W : Type 0} (media : W → ℕ → ℕ) (m : ℕ → ℕ) (h : ZoneHandle W) (buf : List ℕ)
    (r : Outcome ZonedError (Unit {0}) × (ZoneHandle W × W)) : Type 0 where
  pub count : ℕ
  pub within : count ≤ length buf
  pub units : count % sector_size ≡ 0
  pub bytes : Same (media r.1.1) (overlay m (h.write_pointer * sector_size) (take count buf))
  pub handle : r.1.0 ≡ record h { write_pointer = h.write_pointer + count / sector_size }
  pub whole : r.0 ≡ ok tt → count ≡ length buf
  pub returned : Returns r.0

-- The same of one write of the buffer.
abbrev Wrote :
    {W : Type 0}
    → (W → ℕ → ℕ)
    → (ℕ → ℕ)
    → ZoneHandle W
    → List ℕ
    → Outcome ZonedError ℕ × (ZoneHandle W × W)
    → Type 0
Wrote media m h buf (ok n, (h', w)) =
    (n ≤ length buf)
    × (n % sector_size ≡ 0)
    × Same (media w) (overlay m (h.write_pointer * sector_size) (take n buf))
    × (h' ≡ record h { write_pointer = h.write_pointer + n / sector_size })
Wrote media m h buf (err e, (h', w)) = Same (media w) m × (h' ≡ h)
Wrote media m h buf (panic, s) = ⊥
Wrote media m h buf (timeout, s) = ⊥

module _ {W : Type 0} (media : W → ℕ → ℕ) where
  Appended-after :
      (m : ℕ → ℕ) (h h' : ZoneHandle W) (n : ℕ) (buf : List ℕ) (w : W)
      (r : Outcome ZonedError (Unit {0}) × (ZoneHandle W × W))
      → n ≤ length buf
      → n % sector_size ≡ 0
      → Same (media w) (overlay m (h.write_pointer * sector_size) (take n buf))
      → h' ≡ record h { write_pointer = h.write_pointer + n / sector_size }
      → Appended media (media w) h' (drop n buf) r
      → Appended media m h buf r
  Appended-after m h h' n buf w r le units same moved v = record {
    count = n + v.count;
    within = omega (arith, v.within, length-drop n buf);
    units = omega (arith, v.units);
    bytes = λ i.
        v.bytes i
        ∙ subst
            (λ k.
              overlay (media w) k (take v.count (drop n buf)) i
              ≡ overlay m (h.write_pointer * sector_size) (take (n + v.count) buf) i)
            (sym behind)
            (overlay-take (media w) m (h.write_pointer * sector_size) n v.count buf le same i);
    handle =
        v.handle
        ∙ ap
            (λ (x : ZoneHandle W). record x {
              write_pointer = x.write_pointer + v.count / sector_size;
            })
            moved
        ∙ ap (λ (k : ℕ). record h { write_pointer = k }) (omega arith);
    whole = λ e. omega (arith, v.whole e, length-drop n buf);
    returned = v.returned;
  }
    where
      behind : h'.write_pointer * sector_size ≡ h.write_pointer * sector_size + n
      behind = omega (arith, ap (λ (x : ZoneHandle W). x.write_pointer) moved)

  -- `self.device.write_at(…)?`, and the pointer behind what it wrote.
  advance-Wrote :
      (h : ZoneHandle W) (buf : List ℕ) (m : ℕ → ℕ) (r : Outcome ZonedError ℕ × W)
      → h.write_pointer * sector_size + length buf ≤ u64_mod
      → 0 < length buf
      → length buf % sector_size ≡ 0
      → Honest media m (h.write_pointer * sector_size) buf r
      → Wrote media m h buf (and_then (r.0, (h, r.1)) (λ n. advance n >> return n))
  advance-Wrote h buf m (ok n, w) fits some_bytes whole a =
      (a.0, a.1 whole, a.2, ap (λ (k : ℕ). record h { write_pointer = k }) moved)
    where
      moved : add_u64 h.write_pointer (n / sector_size) ≡ h.write_pointer + n / sector_size
      moved = omega (arith, a.0, a.1 whole)
  advance-Wrote h buf m (err e, w) fits some_bytes whole a = (a, refl)
  advance-Wrote h buf m (panic, w) fits some_bytes whole a = elim a [ ]
  advance-Wrote h buf m (timeout, w) fits some_bytes whole a = elim a [ ]

  write_sequential-Wrote :
      (h : ZoneHandle W) (buf : List ℕ) (w : W)
      → Storage h.device media
      → h.write_pointer * sector_size + length buf ≤ u64_mod
      → 0 < length buf
      → length buf % sector_size ≡ 0
      → Wrote media (media w) h buf (write_sequential buf (h, w))
  unfolding write_sequential
  write_sequential-Wrote h buf w storage fits some_bytes whole =
      elim (Bool-cases (leb (capacity_end h) h.write_pointer)) [
        | inl at_end ↦ rw at_end ((λ i. refl), refl)
        | inr before ↦
            rw (before, write_at-bytes h.device h.write_pointer buf w (omega arith))
              (advance-Wrote h buf (media w) _ fits some_bytes whole
                (storage.honest buf (h.write_pointer * sector_size) w))
      ]

  round-Appended :
      (again : List ℕ → Hio W (Unit {0})) (h : ZoneHandle W) (buf : List ℕ) (m : ℕ → ℕ)
      (r : Outcome ZonedError ℕ × (ZoneHandle W × W))
      → ((n : ℕ) (h' : ZoneHandle W) (w : W)
          → 0 < n
          → n ≤ length buf
          → n % sector_size ≡ 0
          → h' ≡ record h { write_pointer = h.write_pointer + n / sector_size }
          → Appended media (media w) h' (drop n buf) (again (drop n buf) (h', w)))
      → Wrote media m h buf r
      → Appended media m h buf (and_then r (after_write again buf))
  unfolding after_write
  round-Appended again h buf m (ok n, (h', w)) rest a = elim (Bool-cases (n == 0)) [
    | inl none_written ↦ rw none_written (record {
      count = n;
      within = a.0;
      units = a.1;
      bytes = a.2;
      handle = a.3;
      whole = λ p. cc;
      returned = tt;
    })
    | inr some_written ↦
        rw (some_written, le→ltb_false (length buf) n a.0)
          (Appended-after m h h' n buf w _ a.0 a.1 a.2 a.3 (rest n h' w (ground arith) a.0 a.1 a.3))
  ]
  round-Appended again h buf m (err e, (h', w)) rest a = record {
    count = 0;
    within = omega arith;
    units = omega arith;
    bytes = λ i. a.0 i ∙ overlay-nil m (h.write_pointer * sector_size) i;
    handle = a.1 ∙ ap (λ (k : ℕ). record h { write_pointer = k }) (omega arith);
    whole = λ p. cc;
    returned = tt;
  }
  round-Appended again h buf m (panic, s) rest a = elim a [ ]
  round-Appended again h buf m (timeout, s) rest a = elim a [ ]

  write_loop-Appended :
      (fuel : ℕ) (h : ZoneHandle W) (buf : List ℕ) (w : W)
      → Storage h.device media
      → length buf ≤ fuel
      → h.write_pointer * sector_size + length buf ≤ u64_mod
      → length buf % sector_size ≡ 0
      → Appended media (media w) h buf (write_loop fuel buf (h, w))
  unfolding write_loop
  write_loop-Appended fuel h [] w storage enough fits whole = record {
    count = 0;
    within = omega arith;
    units = omega arith;
    bytes = overlay-nil (media w) (h.write_pointer * sector_size);
    handle = ap (λ (k : ℕ). record h { write_pointer = k }) (omega arith);
    whole = λ p. refl;
    returned = tt;
  }
  write_loop-Appended zero h (b ∷ bs) w storage enough fits whole = absurd (omega arith)
  write_loop-Appended (suc fuel) h (b ∷ bs) w storage enough fits whole =
      round-Appended (write_loop fuel) h (b ∷ bs) (media w) _
        (λ n h' w' pos le units moved.
          let ahead : h'.write_pointer ≡ h.write_pointer + n / sector_size =
            ap (λ (x : ZoneHandle W). x.write_pointer) moved in
          let left : length (drop n (b ∷ bs)) ≡ length (b ∷ bs) - n = length-drop n (b ∷ bs) in
          write_loop-Appended fuel h' (drop n (b ∷ bs)) w'
            (subst (λ (x : ZoneHandle W). Storage x.device media) (sym moved) storage) (omega arith)
            (omega arith) (omega arith))
        (write_sequential-Wrote h (b ∷ bs) w storage fits (omega arith) whole)

  -- On a device whose writes are honest and in whole sectors, a call of `write_all_sequential` with
  -- a buffer of whole sectors that ends below 2^64 bytes comes back, having written the first
  -- `count` bytes of the buffer at the write pointer and changed no other byte. The tracked write
  -- pointer has moved by those `count / 512` sectors, and nothing else of the handle has changed.
  -- If the call succeeds, `count` is all of the buffer.
  pub write_all_sequential-Appended :
      (h : ZoneHandle W) (buf : List ℕ) (w : W)
      → Storage h.device media
      → h.write_pointer * sector_size + length buf ≤ u64_mod
      → length buf % sector_size ≡ 0
      → Appended media (media w) h buf (write_all_sequential buf (h, w))
  unfolding write_all_sequential
  write_all_sequential-Appended h buf w storage fits whole =
      write_loop-Appended (length buf) h buf w storage (omega arith) fits whole
