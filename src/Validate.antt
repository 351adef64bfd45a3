-- ===== src/Validate.antt =====
-- validate/mod.rs: the checks of a device's path before it is opened, on Linux. The file system is a
-- parameter.
pub mod Mounts
pub mod Partitions
pub mod Checks
use zoned.Base.{
  ℕ, ◌*◌, ◌/◌, ◌%◌, String, Bool, true, false, ◌&&◌, ◌||◌, Option, none, some, List, [], ◌∷◌, ltb,
  ◌==◌, if◌then◌else◌, length, u32_mod,
}
use zoned.Base.Text.{words, lines, split_once, parse_uint}
use zoned.Errors.{
  Io, IoError, Outcome, ok, err, panic, timeout, map_err, fail, return, ◌>>=◌, and_then, ZonedError,
  io, not_a_block_device, device_mounted,
}
use zoned.FileSystem.{Metadata, Fs}
use zoned.Platform.Files.{open_error}

-- `mode & 0o170000` is that of a block or a character device.
unfoldable pub is_device : ℕ → Bool
is_device mode = let file_type : ℕ = (mode / 4096) % 16 in file_type == 6 || file_type == 2

-- `rdev >> 8` and `rdev & 0xFF`.
abbrev pub dev_major : ℕ → ℕ
dev_major rdev = (rdev / 256) % u32_mod

abbrev pub dev_minor : ℕ → ℕ
dev_minor rdev = rdev % 256

-- Whether a text is `major:minor`.
both_are : ℕ → ℕ → Option ℕ → Option ℕ → Bool
both_are major minor (some maj) (some min) = maj == major && min == minor
both_are major minor _ _ = false

device_is : ℕ → ℕ → Option (String × String) → Bool
unfolding both_are
device_is major minor none = false
device_is major minor (some (maj_str, min_str)) =
    both_are major minor (parse_uint u32_mod maj_str) (parse_uint u32_mod min_str)

-- The mount point of a line that is about the device, from the line's fields.
pub mount_of : ℕ → ℕ → List String → Option String
unfolding device_is
mount_of major minor (_ ∷ (_ ∷ (dev ∷ (_ ∷ (point ∷ _))))) =
    if device_is major minor (split_once 58 dev) then some point else none
mount_of major minor _ = none

or_rest : Option String → Option String → Option String
or_rest (some point) rest = some point
or_rest none rest = rest

-- The `for` of `is_not_mounted`.
pub first_mount : ℕ → ℕ → List String → Option String
unfolding mount_of or_rest
first_mount major minor [] = none
first_mount major minor (line ∷ rest) =
    or_rest (mount_of major minor (words line)) (first_mount major minor rest)

module _ {W : Type 0} (fs : Fs W) where
  -- The error where there is no file is that of an open.
  unfoldable pub is_block_device : String → Io W ZonedError (Unit {0})
  unfolding is_device
  is_block_device path = do
    metadata ← map_err (open_error path) (fs.metadata path)
    if is_device metadata.mode then return tt else fail (not_a_block_device path metadata.mode)

  -- `unwrap_or_default`: a file that cannot be read counts as empty.
  unwrap_or_default : Outcome IoError String × W → Outcome ZonedError String × W
  unwrap_or_default (ok text, w) = (ok text, w)
  unwrap_or_default (err e, w) = (ok "", w)
  unwrap_or_default (panic, w) = (panic, w)
  unwrap_or_default (timeout, w) = (timeout, w)

  abbrev pub mounted_error : String → Option String → Io W ZonedError (Unit {0})
  mounted_error path none = return tt
  mounted_error path (some point) = fail (device_mounted path point)

  unfoldable pub is_not_mounted : String → Io W ZonedError (Unit {0})
  unfolding first_mount unwrap_or_default
  is_not_mounted path = do
    dev_stat ← map_err (io path) (fs.metadata path)
    mountinfo ← λ w. unwrap_or_default (fs.read_to_string "/proc/self/mountinfo" w)
    mounted_error path
        (first_mount (dev_major dev_stat.rdev) (dev_minor dev_stat.rdev) (lines mountinfo))
