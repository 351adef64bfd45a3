-- ===== src/Device/Reads.antt =====
-- What a read through device/mod.rs relies on: what a platform's read call gives of the medium.
use zoned.Base.{
  inl, inr, Bool-cases, leb→le, drop-length, append-nil, length-take, ◌∙◌, leb, ℕ, zero, suc, ◌+◌,
  ◌-◌, ◌*◌, ◌≤◌, ◌<◌, ◌≡◌, refl, List, [], ◌∷◌, ◌++◌, arith, le→leb, lt→leb_false, take, drop,
  length, u64_mod,
}
use zoned.Errors.{Outcome, ok, err, panic, timeout, OnOk, ZonedError, invalid_range}
use zoned.Types.{Sector, sector_size}
use zoned.Device.{ZonedDevice, read_at}
use zoned.Device.Storage.{overlay, Same}

-- The `n` bytes of a medium from an offset on.
abbrev pub bytes_at : (ℕ → ℕ) → ℕ → ℕ → List ℕ
bytes_at m offset zero = []
bytes_at m offset (suc n) = m offset ∷ bytes_at m (suc offset) n

-- What a read into `buf` at `offset` may come to. A success fills the first bytes of the buffer and
-- leaves the rest of it; no read changes the medium.
abbrev pub HonestRead :
    {W E : Type 0} → (W → ℕ → ℕ) → (ℕ → ℕ) → ℕ → List ℕ → Outcome E (ℕ × List ℕ) × W → Type 0
HonestRead media m offset buf (ok (n, buf'), w) =
    (n ≤ length buf) × (buf' ≡ bytes_at m offset n ++ drop n buf) × Same (media w) m
HonestRead media m offset buf (err e, w) = Same (media w) m
HonestRead media m offset buf (panic, w) = ⊥
HonestRead media m offset buf (timeout, w) = ⊥

-- A device whose read calls are honest about the medium `media` in the world.
pub record Readable {W : Type 0} (d : ZonedDevice W) (media : W → ℕ → ℕ) : Type 0 where
  pub honest :
      (buf : List ℕ) (offset : ℕ) (w : W)
      → HonestRead media (media w) offset buf (d.inner.read_at buf offset w)

-- A device whose reads give as much as they are asked for.
pub record FullReads {W : Type 0} (d : ZonedDevice W) : Type 0 where
  pub full :
      (buf : List ℕ) (offset : ℕ) (w : W)
      → OnOk (λ r. r.0 ≡ length buf) (d.inner.read_at buf offset w).0

-- A read that gives exactly the bytes `bytes`, or an error.
abbrev pub ReadsAll :
    {W : Type 0} → (W → ℕ → ℕ) → (ℕ → ℕ) → List ℕ → Outcome ZonedError (List ℕ) × W → Type 0
ReadsAll media m bytes (ok read, w) = (read ≡ bytes) × Same (media w) m
ReadsAll media m bytes (err e, w) = Same (media w) m
ReadsAll media m bytes (panic, w) = ⊥
ReadsAll media m bytes (timeout, w) = ⊥

pub length-bytes_at : (m : ℕ → ℕ) (offset n : ℕ) → length (bytes_at m offset n) ≡ n
length-bytes_at m offset zero = refl
length-bytes_at m offset (suc n) = omega (arith, length-bytes_at m (suc offset) n)

-- A medium is read by the bytes in the range.
pub bytes_at-Same :
    (m k : ℕ → ℕ) (offset n : ℕ)
    → ((i : ℕ) → offset ≤ i → i < offset + n → m i ≡ k i)
    → bytes_at m offset n ≡ bytes_at k offset n
bytes_at-Same m k offset zero h = refl
bytes_at-Same m k offset (suc n) h =
    rw
      (
        h offset (omega arith) (omega arith),
        bytes_at-Same m k (suc offset) n (λ i a b. h i (omega arith) (omega arith)),
      )
      refl

overlay-cons :
    (m : ℕ → ℕ) (offset x : ℕ) (xs : List ℕ) (i : ℕ)
    → suc offset ≤ i
    → overlay m offset (x ∷ xs) i ≡ overlay m (suc offset) xs i
overlay-cons m offset x xs i h =
    let behind : i - offset ≡ suc (i - suc offset) = omega (arith, h) in
    rw (le→leb offset i (omega arith), le→leb (suc offset) i h, behind) refl

overlay-first : (m : ℕ → ℕ) (offset x : ℕ) (xs : List ℕ) → overlay m offset (x ∷ xs) offset ≡ x
overlay-first m offset x xs =
    let here : offset - offset ≡ 0 = omega arith in
    rw (le→leb offset offset (omega arith), here) refl

-- What was written is read back.
pub bytes_at-overlay :
    (m : ℕ → ℕ) (offset n : ℕ) (xs : List ℕ)
    → n ≤ length xs
    → bytes_at (overlay m offset xs) offset n ≡ take n xs
bytes_at-overlay m offset zero xs h = refl
bytes_at-overlay m offset (suc n) [] h = absurd (omega arith)
bytes_at-overlay m offset (suc n) (x ∷ xs) h =
    rw
      (
        overlay-first m offset x xs,
        bytes_at-Same (overlay m offset (x ∷ xs)) (overlay m (suc offset) xs) (suc offset) n
            (λ i a b. overlay-cons m offset x xs i a),
        bytes_at-overlay m (suc offset) n xs (omega arith),
      )
      refl

-- `read_at`, by bytes.
pub read_at-bytes :
    {W : Type 0} (d : ZonedDevice W) (s : Sector) (buf : List ℕ) (w : W)
    → s * sector_size < u64_mod
    → read_at d s buf w ≡ d.inner.read_at buf (s * sector_size) w
unfolding read_at
read_at-bytes d s buf w h = rw (lt→leb_false u64_mod (s * sector_size) h) refl

pub read_at-beyond :
    {W : Type 0} (d : ZonedDevice W) (s : Sector) (buf : List ℕ) (w : W)
    → u64_mod ≤ s * sector_size
    → read_at d s buf w ≡ (err (invalid_range s 0), w)
unfolding read_at
read_at-beyond d s buf w h = rw (le→leb u64_mod (s * sector_size) h) refl

-- A read that fills its whole buffer with the bytes `bytes`, or an error.
abbrev pub FillsWith :
    {W : Type 0} → (W → ℕ → ℕ) → (ℕ → ℕ) → List ℕ → Outcome ZonedError (ℕ × List ℕ) × W → Type 0
FillsWith media m bytes (ok (n, filled), w) =
    (n ≡ length bytes) × (filled ≡ bytes) × Same (media w) m
FillsWith media m bytes (err e, w) = Same (media w) m
FillsWith media m bytes (panic, w) = ⊥
FillsWith media m bytes (timeout, w) = ⊥

module _ {W : Type 0} (media : W → ℕ → ℕ) where
  HonestRead-FillsWith :
      (m m₀ : ℕ → ℕ) (offset : ℕ) (written buf : List ℕ) (r : Outcome ZonedError (ℕ × List ℕ) × W)
      → Same m (overlay m₀ offset written)
      → length buf ≤ length written
      → HonestRead media m offset buf r
      → OnOk (λ x. x.0 ≡ length buf) r.0
      → FillsWith media m (take (length buf) written) r
  HonestRead-FillsWith m m₀ offset written buf (ok (n, filled), w) same le h e = (
    omega (arith, e, length-take (length buf) written),
    h.1
        ∙ rw (e, drop-length buf, append-nil (bytes_at m offset (length buf)))
            (bytes_at-Same m (overlay m₀ offset written) offset (length buf) (λ i a b. same i)
              ∙ bytes_at-overlay m₀ offset (length buf) written le),
    h.2,
  )
  HonestRead-FillsWith m m₀ offset written buf (err x, w) same le h e = h
  HonestRead-FillsWith m m₀ offset written buf (panic, w) same le h e = h
  HonestRead-FillsWith m m₀ offset written buf (timeout, w) same le h e = h

  -- Where reads are full, a read of no more bytes than were written fills its buffer with them.
  pub read_at-FillsWith :
      (d : ZonedDevice W) (s : Sector) (written buf : List ℕ) (m₀ : ℕ → ℕ) (w : W)
      → Readable d media
      → FullReads d
      → Same (media w) (overlay m₀ (s * sector_size) written)
      → length buf ≤ length written
      → FillsWith media (media w) (take (length buf) written) (read_at d s buf w)
  read_at-FillsWith d s written buf m₀ w readable full same le =
      elim (Bool-cases (leb u64_mod (s * sector_size))) [
        | inl beyond ↦
            rw (read_at-beyond d s buf w (leb→le u64_mod (s * sector_size) beyond)) (λ i. refl)
        | inr below ↦
            rw (read_at-bytes d s buf w (ground (arith, le→leb u64_mod (s * sector_size)))) (
              HonestRead-FillsWith (media w) m₀ (s * sector_size) written buf _ same le
                (readable.honest buf (s * sector_size) w) (full.full buf (s * sector_size) w))
      ]
