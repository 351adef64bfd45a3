-- ===== src/Platform/Kernel.antt =====
-- The system calls below src/platform: the kernel and libc are a parameter of the model.
use zoned.Base.{ℕ, String, List, ℤ}
use zoned.Errors.{Io, IoError}

-- What `OpenOptions` of a platform asks for.
pub data OpenMode : Type 0 where
  for_reading for_writing for_direct : OpenMode

-- The calls that both platforms make on an open file; a file is its descriptor. `pwritev` and
-- `preadv` return a negative number on an error, which `last_os_error` then tells.
pub record Kernel (W : Type 0) : Type 0 where
  pub open_file : String → OpenMode → Io W IoError ℕ
  pub sync_all : ℕ → Io W IoError (Unit {0})
  pub pwrite : ℕ → List ℕ → ℕ → Io W IoError ℕ
  pub pread : ℕ → List ℕ → ℕ → Io W IoError (ℕ × List ℕ)
  pub pwritev : ℕ → List (List ℕ) → ℤ → Io W IoError ℤ
  pub preadv : ℕ → List (List ℕ) → ℤ → Io W IoError (ℤ × List (List ℕ))
  pub last_os_error : W → IoError
