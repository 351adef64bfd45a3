-- ===== src/Platform/Files.antt =====
-- The part of `PlatformDevice` that platform/linux.rs and platform/freebsd.rs have word for word
-- alike: opening, flushing and positional I/O on the file.
use zoned.Base.{
  ℕ, ◌-◌, String, Bool, true, false, List, ltb, if◌then◌else◌, u64_mod, ℤ, pos, negsuc,
}
use zoned.Errors.{
  Io, IoError, not_found, os_error, custom, ok, err, fail, return, map_err, ◌>>=◌, ZonedError,
  device_not_found, io,
}
use zoned.Platform.Kernel.{Kernel, OpenMode}

-- `e.kind() == NotFound`.
is_not_found : IoError → Bool
is_not_found (os_error not_found) = true
is_not_found (custom not_found _) = true
is_not_found _ = false

-- The error of the three ways to open.
pub open_error : String → IoError → ZonedError
unfolding is_not_found
open_error path e = if is_not_found e then device_not_found path else io path e

-- `byte_offset as libc::off_t`.
abbrev pub as_off_t : ℕ → ℤ
as_off_t n = if ltb n 9223372036854775808 then pos n else negsuc (u64_mod - n - 1)

module _ {W : Type 0} (k : Kernel W) where
  pub open_path : String → OpenMode → Io W ZonedError ℕ
  unfolding open_error
  open_path path mode = map_err (open_error path) (k.open_file path mode)

  pub fsync : String → ℕ → Io W ZonedError (Unit {0})
  fsync path fd = map_err (io path) (k.sync_all fd)

  unfoldable pub write_at : String → Bool → ℕ → List ℕ → ℕ → Io W ZonedError ℕ
  write_at path writable fd buf byte_offset =
      if writable
      then map_err (io path) (k.pwrite fd buf byte_offset)
      else fail (ZonedError.read_only path)

  unfoldable pub read_at : String → ℕ → List ℕ → ℕ → Io W ZonedError (ℕ × List ℕ)
  read_at path fd buf byte_offset = map_err (io path) (k.pread fd buf byte_offset)

  -- `if ret < 0 { return Err(last_os_error()) }`, and `ret as usize`.
  unfoldable pub count_or_error : String → ℤ → Io W ZonedError ℕ
  count_or_error path (pos n) w = (ok n, w)
  count_or_error path (negsuc n) w = (err (io path (k.last_os_error w)), w)

  unfoldable pub writev_at : String → Bool → ℕ → List (List ℕ) → ℕ → Io W ZonedError ℕ
  unfolding count_or_error
  writev_at path writable fd bufs byte_offset =
      if writable
      then (do
        ret ← map_err (io path) (k.pwritev fd bufs (as_off_t byte_offset))
        count_or_error path ret)
      else fail (ZonedError.read_only path)

  pub readv_at : String → ℕ → List (List ℕ) → ℕ → Io W ZonedError (ℕ × List (List ℕ))
  unfolding count_or_error
  readv_at path fd bufs byte_offset = do
    (ret, bufs') ← map_err (io path) (k.preadv fd bufs (as_off_t byte_offset))
    n ← count_or_error path ret
    return (n, bufs')
