-- ===== src/Tests/Checks.antt =====
-- The partition checks of validate/mod.rs, and the builder behind all of the module's checks.
use zoned.Base.{
  ℕ, ◌≡◌, ◌≢◌, refl, String, true, false, some, List, [], ◌∷◌, inl, inr, if◌then◌else◌,
}
use zoned.Base.Text.{push}
use zoned.Base.Text.Edit.{text_eq}
use zoned.Base.Text.Decimal.{show}
use zoned.Errors.{Io, IoError, ok, err, os_error, not_found}
use zoned.Types.{host_managed, unzoned}
use zoned.Platform.{unsupported_device}
use zoned.FileSystem.{Fs, entry, Metadata}
use zoned.Device.{ZonedDevice}
use zoned.Device.Builder.{Opener, DeviceBuilder, open_device}
use zoned.Validate.{is_device}
use zoned.Validate.Mounts.{table, NoneNames}
use zoned.Validate.Partitions.{
  is_partition_name, select_names, is_partition, has_no_partitions, has_no_device_nodes,
}
use zoned.Validate.Partitions.Listed.{Listing, has_no_partitions-Listing}
use zoned.Validate.Checks.{linux_checks}
use zoned.Validate.Checks.Safe.{AtRest, open_device-Safe}
use zoned.Tests.{no_files}
use zoned.Tests.Validate.{root_mount, root_mount-WellFormed}

abbrev partitioned : Fs (Unit {0})
partitioned = record no_files {
  read_dir = λ path w. (ok (entry "sdb2" ∷ entry "queue" ∷ entry "sdb1" ∷ []), w);
  exists = λ path w. true;
}

has_no_partitions-Listing_example :
    Listing "/dev/sdb" ("sdb2" ∷ "sdb1" ∷ []) tt (has_no_partitions partitioned "/dev/sdb" tt)
unfolding zoned.Base.Text.Edit.file_name zoned.Base.Text.Order.strip_prefix is_partition
has_no_partitions-Listing_example =
    has_no_partitions-Listing partitioned "/dev/sdb" "sdb" ("sdb2" ∷ "queue" ∷ "sdb1" ∷ []) tt tt
      refl refl refl

-- A device at rest, with all that the checks ask for.
abbrev files : String → Io (Unit {0}) IoError String
files file w =
    if text_eq file "/sys/block/sdb/queue/zoned"
    then (ok "host-managed\n", w)
    else if text_eq file "/proc/self/mountinfo"
    then (ok (table (root_mount ∷ [])), w)
    else (err (os_error not_found), w)

abbrev node : Metadata
node = record { mode = 25008; rdev = 2064 }

abbrev at_rest : Fs (Unit {0})
at_rest = record no_files {
  metadata = λ path w. (ok node, w);
  read_to_string = files;
  read_dir = λ path w. (ok (entry "queue" ∷ []), w);
  exists = λ path w. text_eq path "/sys/block/sdb";
}

at_rest-AtRest : AtRest at_rest "/dev/sdb"
unfolding zoned.Base.Text.Edit.file_name zoned.Sysfs.device_model zoned.Sysfs.model_of
    zoned.Sysfs.read_attr
at_rest-AtRest = record {
  stat = node;
  mounts = root_mount ∷ [];
  dev_name = "sdb";
  entries = "queue" ∷ [];
  model = host_managed;
  stat_answer = λ w. refl;
  mounts_answer = λ w. refl;
  mounts_formed = (root_mount-WellFormed, tt);
  named = refl;
  has_dir = λ w. refl;
  dir_answer = λ w. refl;
  model_answer = λ w. refl;
}

abbrev opened : ZonedDevice (Unit {0})
opened = record { inner = unsupported_device }

abbrev opener : Opener (Unit {0})
opener = record {
  open_path = λ path w. (ok opened, w);
  open_writable = λ path w. (ok opened, w);
  open_direct = λ path w. (ok opened, w);
}

abbrev all_checks : DeviceBuilder
all_checks = record {
  path = "/dev/sdb";
  is_writable = true;
  is_direct_io = false;
  check_block_device = true;
  check_not_mounted = true;
  check_no_partitions = true;
  check_is_zoned = true;
}

open_device-Safe_example :
    (is_device 25008 ≡ true)
    × NoneNames 8 16 (root_mount ∷ [])
    × (select_names (is_partition at_rest "sdb" tt) ("queue" ∷ []) ≡ [])
    × (host_managed ≢ unzoned)
unfolding open_device linux_checks zoned.Validate.is_block_device is_device
    zoned.Validate.is_not_mounted has_no_partitions zoned.Validate.Partitions.collect
    zoned.Validate.Partitions.partitions_error is_partition zoned.Validate.Checks.is_zoned_device
    zoned.Sysfs.device_model zoned.Sysfs.model_of zoned.Sysfs.read_attr zoned.Base.Text.lines
    zoned.Base.Text.words zoned.Base.Text.split_once zoned.Base.Text.parse_uint
    zoned.Base.Text.parse_digits zoned.Base.Text.Decimal.show_onto zoned.Base.Text.Edit.file_name
    zoned.Base.Text.Order.strip_prefix at_rest-AtRest
open_device-Safe_example =
    open_device-Safe at_rest "/dev/sdb" at_rest-AtRest opener all_checks opened tt tt refl refl refl
      refl refl refl
