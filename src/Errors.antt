-- ===== src/Errors.antt =====
-- error/mod.rs: the crate's errors, and the monad of its fallible operations.
use zoned.Base.{ℕ, ◌≡◌, refl, String, List}

-- The kinds of std::io::Error that the crate names; any other comes with its code.
pub data ErrorKind : Type 0 where
  not_found write_zero invalid_input unsupported other : ErrorKind
  os_kind : ℕ → ErrorKind

mutual
  -- std::io::Error as the crate meets it: from the system, built with a message, or wrapping an
  -- error of the crate (`io::Error::other`).
  pub data IoError : Type 0 where
    os_error : ErrorKind → IoError
    custom : ErrorKind → String → IoError
    wrapped : ZonedError → IoError

  -- Paths are texts, sectors, indices and errno values numbers.
  pub data ZonedError : Type 0 where
    device_not_found : String → ZonedError
    not_zoned : String → ZonedError
    io : String → IoError → ZonedError
    ioctl : String → ℕ → ZonedError
    sysfs : String → String → IoError → ZonedError
    sysfs_parse : String → String → String → ZonedError
    invalid_range : ℕ → ℕ → ZonedError
    read_only : String → ZonedError
    zone_already_allocated : ℕ → ZonedError
    zone_not_allocated : ℕ → ZonedError
    zone_full : ℕ → ZonedError
    not_a_block_device : String → ℕ → ZonedError
    device_mounted : String → String → ZonedError
    device_has_partitions : String → List String → ZonedError
    unsupported_platform : ZonedError

-- What a call comes to: the two cases of `Result`, a panic, or a loop that ran out of its fuel.
pub data Outcome (E A : Type 0) : Type 0 where
  ok : A → Outcome E A
  err : E → Outcome E A
  panic : Outcome E A
  timeout : Outcome E A

-- A call reads and changes the world that it runs in.
abbrev pub Io : Type 0 → Type 0 → Type 0 → Type 0
Io W E A = W → Outcome E A × W

-- `?` on a finished call: the rest runs on a value only, in the world that the call left.
abbrev pub and_then : {W E A B : Type 0} → Outcome E A × W → (A → Io W E B) → Outcome E B × W
and_then (ok a, w) f = f a w
and_then (err e, w) f = (err e, w)
and_then (panic, w) f = (panic, w)
and_then (timeout, w) f = (timeout, w)

infixl 5 ◌>>=◌ ◌>>◌
abbrev pub ◌>>=◌ : {W E A B : Type 0} → Io W E A → (A → Io W E B) → Io W E B
◌>>=◌ m f w = and_then (m w) f

abbrev pub ◌>>◌ : {W E B : Type 0} → Io W E (Unit {0}) → Io W E B → Io W E B
m >> k = m >>= λ _. k

abbrev pub return : {W E A : Type 0} → A → Io W E A
return a w = (ok a, w)

abbrev pub fail : {W E A : Type 0} → E → Io W E A
fail e w = (err e, w)

-- `Result::map_err`.
abbrev pub convert_err : {E F A : Type 0} → (E → F) → Outcome E A → Outcome F A
convert_err g (ok a) = ok a
convert_err g (err e) = err (g e)
convert_err g panic = panic
convert_err g timeout = timeout

abbrev pub map_err : {W E F A : Type 0} → (E → F) → Io W E A → Io W F A
map_err g m w = (convert_err g (m w).0, (m w).1)

-- A call that comes back: with a value or an error, and not by a panic or an endless loop.
abbrev pub Returns : {E A : Type 0} → Outcome E A → Type 0
Returns (ok a) = Unit {0}
Returns (err e) = Unit {0}
Returns panic = ⊥
Returns timeout = ⊥

pub and_then-Returns :
    {W E A B : Type 0} (r : Outcome E A × W) (f : A → Io W E B)
    → Returns r.0
    → ((a : A) (w : W) → Returns (f a w).0)
    → Returns (and_then r f).0
and_then-Returns (ok a, w) f h k = k a w
and_then-Returns (err e, w) f h k = tt
and_then-Returns (panic, w) f h k = elim h [ ]
and_then-Returns (timeout, w) f h k = elim h [ ]

-- A postcondition of the value, if there is one.
abbrev pub OnOk : {E A : Type 0} → (A → Type 0) → Outcome E A → Type 0
OnOk P (ok a) = P a
OnOk P (err e) = Unit {0}
OnOk P panic = Unit {0}
OnOk P timeout = Unit {0}

pub and_then-OnOk :
    {W E A B : Type 0} (P : B → Type 0) (r : Outcome E A × W) (f : A → Io W E B)
    → ((a : A) (w : W) → OnOk P (f a w).0)
    → OnOk P (and_then r f).0
and_then-OnOk P (ok a, w) f k = k a w
and_then-OnOk P (err e, w) f k = tt
and_then-OnOk P (panic, w) f k = tt
and_then-OnOk P (timeout, w) f k = tt

-- What a call and the rest behind it came to, if they succeeded.
pub and_then-value :
    {W E A B : Type 0} (r : Outcome E A × W) (f : A → Io W E B) (b : B) (w' : W)
    → and_then r f ≡ (ok b, w')
    → (a : A) × (w : W) × (r ≡ (ok a, w)) × (f a w ≡ (ok b, w'))
and_then-value (ok a, w) f b w' e = (a, w, refl, e)
and_then-value (err x, w) f b w' e = absurd cc
and_then-value (panic, w) f b w' e = absurd cc
and_then-value (timeout, w) f b w' e = absurd cc

pub convert_err-value :
    {W E F A : Type 0} (g : E → F) (r : Outcome E A × W) (a : A) (w : W)
    → Path (Outcome F A × W) (convert_err g r.0, r.1) (ok a, w)
    → r ≡ (ok a, w)
convert_err-value g (ok b, w') a w e = cc
convert_err-value g (err x, w') a w e = absurd cc
convert_err-value g (panic, w') a w e = absurd cc
convert_err-value g (timeout, w') a w e = absurd cc
