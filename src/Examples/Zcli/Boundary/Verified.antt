-- ===== src/Examples/Zcli/Boundary/Verified.antt =====
-- The test of a conventional zone of examples/zcli.rs on a device that works.
use zoned.Base.{
  ℕ, zero, suc, ◌+◌, ◌*◌, ◌-◌, ◌≤◌, ◌<◌, ◌≡◌, refl, ap, ◌∙◌, true, List, arith, le→leb,
  lt→leb_false, length, get_or, replicate, take-length, drop-length, get_or_beyond, append-nil,
  length-replicate, u64_mod, ==_iff,
}
use zoned.Errors.{Outcome, ok, err, panic, timeout, ZonedError, OnOk, and_then}
use zoned.Types.{Sector, sector_size}
use zoned.Device
use zoned.Device.{ZonedDevice}
use zoned.Device.Storage.{overlay, Same, Honest, Storage}
use zoned.Device.Reads.{bytes_at, HonestRead, Readable, FullReads, length-bytes_at, read_at-bytes}
use zoned.Device.Write.{write_at-bytes}
use zoned.Examples.Zcli.Boundary.{Tested, all_bytes, block_of, rewritten, conv_test}

-- A device whose writes take as much as they are given.
pub record FullWrites {W : Type 0} (d : ZonedDevice W) : Type 0 where
  pub full :
      (buf : List ℕ) (offset : ℕ) (w : W)
      → OnOk (λ n. n ≡ length buf) (d.inner.write_at buf offset w).0

-- All bytes of a range have a value, and those outside of it are as on another medium.
abbrev pub Holds : ℕ → ℕ → ℕ → (ℕ → ℕ) → Type 0
Holds fill offset size m = (i : ℕ) → offset ≤ i → i < offset + size → m i ≡ fill

pub record Outside (offset size : ℕ) (m m' : ℕ → ℕ) : Type 0 where
  pub below : (i : ℕ) → i < offset → m' i ≡ m i
  pub behind : (i : ℕ) → offset + size ≤ i → m' i ≡ m i

Outside-trans :
    (offset size : ℕ) (m m' m'' : ℕ → ℕ)
    → Outside offset size m m'
    → Outside offset size m' m''
    → Outside offset size m m''
Outside-trans offset size m m' m'' a b = record {
  below = λ i h. b.below i h ∙ a.below i h;
  behind = λ i h. b.behind i h ∙ a.behind i h;
}

Same-Outside : (offset size : ℕ) (m m' : ℕ → ℕ) → Same m' m → Outside offset size m m'
Same-Outside offset size m m' s = record { below = λ i h. s i; behind = λ i h. s i }

get_or-replicate : (n a i d : ℕ) → i < n → get_or (replicate n a) i d ≡ a
get_or-replicate zero a i d h = absurd (omega arith)
get_or-replicate (suc n) a zero d h = refl
get_or-replicate (suc n) a (suc i) d h = get_or-replicate n a i d (omega arith)

pub length-block_of : (fill : ℕ) → length (block_of fill) ≡ 4096
unfolding block_of
length-block_of fill = length-replicate 4096 fill

get_or-block_of : (fill i d : ℕ) → i < 4096 → get_or (block_of fill) i d ≡ fill
unfolding block_of
get_or-block_of fill i d h = get_or-replicate 4096 fill i d h

get_or_beyond_block : (fill i d : ℕ) → 4096 ≤ i → get_or (block_of fill) i d ≡ d
get_or_beyond_block fill i d h =
    get_or_beyond (block_of fill) i d (omega (arith, length-block_of fill))

all_bytes-bytes_at :
    (fill : ℕ) (m : ℕ → ℕ) (offset n : ℕ)
    → Holds fill offset n m
    → all_bytes fill (bytes_at m offset n) ≡ true
unfolding all_bytes
all_bytes-bytes_at fill m offset zero h = refl
all_bytes-bytes_at fill m offset (suc n) h =
    rw
      (
        (==_iff (m offset) fill).1 (h offset (omega arith) (omega arith)),
        all_bytes-bytes_at fill m (suc offset) n (λ i a b. h i (omega arith) (omega arith)),
      )
      refl

-- What holds of a call that comes back: `P` of its value and the world after it, `Q` of the world after an
-- error.
abbrev pub Ensures :
    {W A : Type 0} → (A → W → Type 0) → (W → Type 0) → Outcome ZonedError A × W → Type 0
Ensures P Q (ok a, w) = P a w
Ensures P Q (err e, w) = Q w
Ensures P Q (panic, w) = ⊥
Ensures P Q (timeout, w) = ⊥

and_then-Ensures :
    {W A B : Type 0} (P : A → W → Type 0) (P' : B → W → Type 0) (Q : W → Type 0)
    (r : Outcome ZonedError A × W) (f : A → W → Outcome ZonedError B × W)
    → Ensures P Q r
    → ((a : A) (w : W) → P a w → Ensures P' Q (f a w))
    → Ensures P' Q (and_then r f)
and_then-Ensures P P' Q (ok a, w) f h k = k a w h
and_then-Ensures P P' Q (err e, w) f h k = h
and_then-Ensures P P' Q (panic, w) f h k = elim h [ ]
and_then-Ensures P P' Q (timeout, w) f h k = elim h [ ]

module _ {W : Type 0} (media : W → ℕ → ℕ) (d : ZonedDevice W) (storage : Storage d media)
    (readable : Readable d media) (full_writes : FullWrites d) (full_reads : FullReads d)
    (start : Sector) (fits : start * sector_size + 4096 ≤ u64_mod) (m : ℕ → ℕ) where
  abbrev offset : ℕ
  offset = start * sector_size

  abbrev Kept : W → Type 0
  Kept w = Outside offset 4096 m (media w)

  -- The range holds a byte, and the rest is as it was.
  abbrev Block : ℕ → W → Type 0
  Block fill w = Holds fill offset 4096 (media w) × Kept w

  written-Block :
      (fill : ℕ) (w : W) (r : Outcome ZonedError ℕ × W)
      → Kept w
      → Honest media (media w) offset (block_of fill) r
      → OnOk (λ n. n ≡ length (block_of fill)) r.0
      → Ensures (λ n w'. Block fill w') Kept r
  written-Block fill w (ok n, w') kept a e =
      (holds, Outside-trans offset 4096 m (media w) (media w') kept out)
    where
      bytes : (i : ℕ) → media w' i ≡ overlay (media w) offset (block_of fill) i
      bytes i =
          a.2 i
          ∙ ap (λ xs. overlay (media w) offset xs i)
              (take-length n (block_of fill) (omega (arith, e)))

      holds : Holds fill offset 4096 (media w')
      holds i le lt =
          bytes i
          ∙ rw (le→leb offset i le) (get_or-block_of fill (i - offset) (media w i) (omega arith))

      out : Outside offset 4096 (media w) (media w')
      out = record {
        below = λ i h. bytes i ∙ rw (lt→leb_false offset i h) refl;
        behind = λ i h.
            bytes i
            ∙ rw (le→leb offset i (omega arith))
                (get_or_beyond_block fill (i - offset) (media w i) (omega arith));
      }
  written-Block fill w (err x, w') kept a e =
      Outside-trans offset 4096 m (media w) (media w') kept (Same-Outside offset 4096 _ _ a)
  written-Block fill w (panic, w') kept a e = elim a [ ]
  written-Block fill w (timeout, w') kept a e = elim a [ ]

  write-Block :
      (fill : ℕ) (w : W)
      → Kept w
      → Ensures (λ n w'. Block fill w') Kept (Device.write_at d start (block_of fill) w)
  write-Block fill w kept = rw (write_at-bytes d start (block_of fill) w (omega arith)) (
      written-Block fill w _ kept (storage.honest (block_of fill) offset w)
        (full_writes.full (block_of fill) offset w))

  -- What a read behind a write gives: a buffer of that byte.
  abbrev Filled : ℕ → ℕ × List ℕ → W → Type 0
  Filled fill r w = (all_bytes fill r.1 ≡ true) × (length r.1 ≡ 4096) × Block fill w

  read-Filled :
      (fill : ℕ) (buf : List ℕ) (w : W) (r : Outcome ZonedError (ℕ × List ℕ) × W)
      → length buf ≡ 4096
      → Block fill w
      → HonestRead media (media w) offset buf r
      → OnOk (λ x. x.0 ≡ length buf) r.0
      → Ensures (Filled fill) Kept r
  read-Filled fill buf w (ok (n, buf'), w') l b a e =
      let whole : buf' ≡ bytes_at (media w) offset n =
        a.1 ∙ rw (e, drop-length buf, append-nil (bytes_at (media w) offset (length buf))) refl in
      let size : n ≡ 4096 = omega (arith, e) in
      (
        ap (all_bytes fill) whole
            ∙ all_bytes-bytes_at fill (media w) offset n (λ i x y. b.0 i x (omega arith)),
        omega (arith, ap length whole, length-bytes_at (media w) offset n),
        (
          (λ i x y. a.2 i ∙ b.0 i x y),
          Outside-trans offset 4096 m (media w) (media w') b.1 (Same-Outside offset 4096 _ _ a.2),
        ),
      )
  read-Filled fill buf w (err x, w') l b a e =
      Outside-trans offset 4096 m (media w) (media w') b.1 (Same-Outside offset 4096 _ _ a)
  read-Filled fill buf w (panic, w') l b a e = elim a [ ]
  read-Filled fill buf w (timeout, w') l b a e = elim a [ ]

  read_at-Filled :
      (fill : ℕ) (buf : List ℕ) (w : W)
      → length buf ≡ 4096
      → Block fill w
      → Ensures (Filled fill) Kept (Device.read_at d start buf w)
  read_at-Filled fill buf w l b =
      rw (read_at-bytes d start buf w (omega arith))
        (read-Filled fill buf w _ l b (readable.honest buf offset w) (full_reads.full buf offset w))

  -- The test passes, its buffer is full, and the block holds the second byte.
  abbrev pub Passed : ℕ → Tested → W → Type 0
  Passed fill t w = (t.0 ≡ true) × (length t.1 ≡ 4096) × Block fill w

  rewritten-Passed :
      (first second : ℕ) (r : ℕ × List ℕ) (w : W)
      → Filled first r w
      → Ensures (Passed second) Kept (rewritten d start first second r w)
  rewritten-Passed first second r w h = rw (h.0) (
      and_then-Ensures _ (Passed second) Kept (Device.write_at d start (block_of second) w) _
        (write-Block second w h.2.1)
        λ n w1 b.
          and_then-Ensures _ (Passed second) Kept (Device.read_at d start r.1 w1) _
            (read_at-Filled second r.1 w1 h.1 b) λ r' w2 f. f)

  conv_test-Kept :
      (first second : ℕ) (buf : List ℕ) (w : W)
      → length buf ≡ 4096
      → Kept w
      → Ensures (Passed second) Kept (conv_test d start first second buf w)
  unfolding conv_test
  conv_test-Kept first second buf w l kept =
      and_then-Ensures _ (Passed second) Kept (Device.write_at d start (block_of first) w) _
        (write-Block first w kept)
        λ n w1 b.
          and_then-Ensures _ (Passed second) Kept (Device.read_at d start buf w1) _
            (read_at-Filled first buf w1 l b) (rewritten-Passed first second)

-- On a device whose writes and reads are honest and take and give all they are asked for, the test of a conventional
-- zone that ends below 2^64 bytes comes back and passes, or with an error of the device; if it passes, the 4096 bytes
-- of the zone hold the second byte, and in any case no other byte has changed.
pub conv_test-Passed :
    {W : Type 0} (media : W → ℕ → ℕ) (d : ZonedDevice W) (storage : Storage d media)
    (readable : Readable d media) (full_writes : FullWrites d) (full_reads : FullReads d)
    (start : Sector) (fits : start * sector_size + 4096 ≤ u64_mod) (first second : ℕ) (buf : List ℕ)
    (w : W)
    → length buf ≡ 4096
    → Ensures
        (λ t w'.
          (t.0 ≡ true)
          × (length t.1 ≡ 4096)
          × (Holds second (start * sector_size) 4096 (media w')
              × Outside (start * sector_size) 4096 (media w) (media w')))
        (λ w'. Outside (start * sector_size) 4096 (media w) (media w'))
        (conv_test d start first second buf w)
conv_test-Passed media d storage readable full_writes full_reads start fits first second buf w l =
    conv_test-Kept media d storage readable full_writes full_reads start fits (media w) first second
      buf w l (record { below = λ i h. refl; behind = λ i h. refl })
