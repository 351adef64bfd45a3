-- ===== src/Device/Storage.antt =====
-- What a write through device/mod.rs relies on: how a platform's write call changes the medium.
use zoned.Base.{
  subst, ◌∙◌, drop, take-add, length-take, ℕ, ◌+◌, ◌-◌, ◌%◌, ◌≤◌, ◌≡◌, List, [], ◌++◌, arith, leb,
  if◌then◌else◌, get_or, get_or_beyond, get_or-append_left, get_or-append_right, take, length,
}
use zoned.Errors.{Outcome, ok, err, panic, timeout}
use zoned.Types.{sector_size}
use zoned.Device.{ZonedDevice}

-- A medium is its bytes by position. `overlay m offset xs` is `m` with `xs` written at `offset`.
abbrev pub overlay : (ℕ → ℕ) → ℕ → List ℕ → ℕ → ℕ
overlay m offset xs i = if leb offset i then get_or xs (i - offset) (m i) else m i

abbrev pub Same : (ℕ → ℕ) → (ℕ → ℕ) → Type 0
Same m n = (i : ℕ) → m i ≡ n i

-- What a write of `buf` at `offset` may come to. A success writes the first bytes of the buffer, a
-- whole number of sectors where the buffer is one; an error leaves the medium alone.
abbrev pub Honest : {W E : Type 0} → (W → ℕ → ℕ) → (ℕ → ℕ) → ℕ → List ℕ → Outcome E ℕ × W → Type 0
Honest media m offset buf (ok n, w) =
    (n ≤ length buf)
    × (length buf % sector_size ≡ 0 → n % sector_size ≡ 0)
    × Same (media w) (overlay m offset (take n buf))
Honest media m offset buf (err e, w) = Same (media w) m
Honest media m offset buf (panic, w) = ⊥
Honest media m offset buf (timeout, w) = ⊥

-- A device whose write calls are honest about the medium `media` in the world.
pub record Storage {W : Type 0} (d : ZonedDevice W) (media : W → ℕ → ℕ) : Type 0 where
  pub honest :
      (buf : List ℕ) (offset : ℕ) (w : W)
      → Honest media (media w) offset buf (d.inner.write_at buf offset w)

pub overlay-nil : (m : ℕ → ℕ) (offset : ℕ) → Same m (overlay m offset [])
overlay-nil m offset i = ground arith

-- Two writes in a row are one of the two buffers in a row.
pub overlay-append :
    (m : ℕ → ℕ) (offset : ℕ) (xs ys : List ℕ)
    → Same (overlay (overlay m offset xs) (offset + length xs) ys) (overlay m offset (xs ++ ys))
overlay-append m offset xs ys i = ground (
  arith,
  get_or_beyond xs (i - offset) (m i),
  get_or-append_left xs ys (i - offset) (m i),
  get_or-append_right xs ys (i - offset) (i - (offset + length xs)) (m i),
)

-- A write depends on the medium's bytes only.
pub overlay-Same :
    (m n : ℕ → ℕ) (offset : ℕ) (xs : List ℕ)
    → Same m n
    → Same (overlay m offset xs) (overlay n offset xs)
overlay-Same m n offset xs h i = rw (h i)

-- The first `n` bytes of a buffer, and then the next `k` behind them, are its first `n + k`.
pub overlay-take :
    (m' m : ℕ → ℕ) (offset n k : ℕ) (buf : List ℕ)
    → n ≤ length buf
    → Same m' (overlay m offset (take n buf))
    → Same (overlay m' (offset + n) (take k (drop n buf))) (overlay m offset (take (n + k) buf))
overlay-take m' m offset n k buf h same i =
    overlay-Same m' (overlay m offset (take n buf)) (offset + n) (take k (drop n buf)) same i
    ∙ rw (take-add n k buf) (
        subst
          (λ l.
            overlay (overlay m offset (take n buf)) (offset + l) (take k (drop n buf)) i
            ≡ overlay m offset (take n buf ++ take k (drop n buf)) i)
          taken (overlay-append m offset (take n buf) (take k (drop n buf)) i))
  where
    taken : length (take n buf) ≡ n
    taken = omega (arith, length-take n buf)
