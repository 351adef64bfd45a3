-- ===== src/Validate/Partitions.antt =====
-- validate/mod.rs: the partition checks of Linux and FreeBSD.
pub mod Listed
use Prim.Native.Char.{code}
use zoned.Base.{
  ℕ, String, Bool, true, false, ◌&&◌, ◌||◌, Option, none, some, List, [], ◌∷◌, leb, ◌==◌,
  if◌then◌else◌,
}
use zoned.Base.Text.{push}
use zoned.Base.Text.Edit.{file_name}
use zoned.Base.Text.Order.{strip_prefix, starts_with, sort}
use zoned.Errors.{
  Io, IoError, Outcome, ok, err, panic, timeout, map_err, fail, return, ◌>>=◌, and_then, ZonedError,
  io, device_not_found, device_has_partitions,
}
use zoned.FileSystem.{Fs, DirItem, entry, failed}

-- `all(is_ascii_digit)`.
abbrev all_digits : String → Bool
all_digits String.[] = true
all_digits (String.◌∷◌ c s) = leb 48 (code c) && (leb (code c) 57 && all_digits s)

-- A suffix of `p` or `s` and a number.
abbrev partition_suffix : Option String → Bool
partition_suffix none = false
partition_suffix (some String.[]) = false
partition_suffix (some (String.◌∷◌ c String.[])) = false
partition_suffix (some (String.◌∷◌ c (String.◌∷◌ d s))) =
    (code c == 112 || code c == 115) && all_digits (String.◌∷◌ d s)

-- Whether a name in /dev is that of a partition of the device, on FreeBSD.
unfoldable pub is_partition_name : String → String → Bool
is_partition_name dev_name name = partition_suffix (strip_prefix dev_name name)

-- `entries.flatten()`: an entry that cannot be read is passed over.
unfoldable pub names : List DirItem → List String
names [] = []
names (entry name ∷ items) = name ∷ names items
names (failed e ∷ items) = names items

abbrev pub select_names : (String → Bool) → List String → List String
select_names p [] = []
select_names p (s ∷ ss) =
    let rest : List String = select_names p ss in if p s then s ∷ rest else rest

abbrev pub partition_file : String → String → String
partition_file dev_name name =
    push "/sys/block/" (push dev_name (push "/" (push name "/partition")))

abbrev pub sysfs_dir : String → String
sysfs_dir dev_name = push "/sys/block/" dev_name

module _ {W : Type 0} (fs : Fs W) where
  -- `ok_or_else` on the name of the device.
  abbrev pub dev_name_or_error : String → Option String → Io W ZonedError String
  dev_name_or_error path none = fail (device_not_found path)
  dev_name_or_error path (some name) = return name

  -- Whether an entry of the device's directory is one of its partitions, on Linux.
  unfoldable pub is_partition : String → W → String → Bool
  is_partition dev_name w name =
      starts_with dev_name name && fs.exists (partition_file dev_name name) w

  -- The `for` over the entries of the device's directory.
  unfoldable pub collect : String → String → List DirItem → Io W ZonedError (List String)
  collect path dev_name [] w = (ok [], w)
  collect path dev_name (failed e ∷ items) w = (err (io path e), w)
  collect path dev_name (entry name ∷ items) w =
      and_then (collect path dev_name items w)
        λ rest. return (if is_partition dev_name w name then name ∷ rest else rest)

  -- The end of both checks.
  unfoldable pub partitions_error : String → List String → Io W ZonedError (Unit {0})
  partitions_error path [] = return tt
  partitions_error path (s ∷ ss) = fail (device_has_partitions path (sort (s ∷ ss)))

  -- On Linux.
  unfoldable pub has_no_partitions : String → Io W ZonedError (Unit {0})
  has_no_partitions path = do
    dev_name ← dev_name_or_error path (file_name path)
    λ w.
        (if fs.exists (sysfs_dir dev_name) w
            then (do
              entries ← map_err (io path) (fs.read_dir (sysfs_dir dev_name))
              partitions ← collect path dev_name entries
              partitions_error path partitions)
            else fail (device_not_found path))
          w

  -- `if let Ok(entries)`: a directory that cannot be read counts as empty.
  entries_or_none : Outcome IoError (List DirItem) × W → Outcome ZonedError (List DirItem) × W
  entries_or_none (ok entries, w) = (ok entries, w)
  entries_or_none (err e, w) = (ok [], w)
  entries_or_none (panic, w) = (panic, w)
  entries_or_none (timeout, w) = (timeout, w)

  -- On FreeBSD.
  unfoldable pub has_no_device_nodes : String → Io W ZonedError (Unit {0})
  unfolding entries_or_none
  has_no_device_nodes path = do
    dev_name ← dev_name_or_error path (file_name path)
    entries ← λ w. entries_or_none (fs.read_dir "/dev" w)
    partitions_error path (select_names (is_partition_name dev_name) (names entries))
