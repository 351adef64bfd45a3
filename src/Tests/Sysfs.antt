-- ===== src/Tests/Sysfs.antt =====
-- sysfs.rs over a directory with the three required attributes.
use zoned.Base.{ℕ, ◌≡◌, refl, String, some, if◌then◌else◌, arith, Bool-cases, inl, inr}
use zoned.Base.Text.{push}
use zoned.Base.Text.Edit.{text_eq}
use zoned.Errors.{Io, IoError, ok, err, os_error, not_found, Returns}
use zoned.Types.{host_managed}
use zoned.FileSystem.{Fs}
use zoned.Tests.{no_files}
use zoned.Sysfs.{parse_active_scheduler, device_properties}
use zoned.Sysfs.Scheduler.{parse_active_scheduler-brackets}
use zoned.Sysfs.Required.{Gives, Says, device_properties-Gives}

parse_active_scheduler-brackets_example : parse_active_scheduler "no [bfq] mq" ≡ some "bfq"
parse_active_scheduler-brackets_example =
    parse_active_scheduler-brackets "no " "bfq" " mq" (refl, (refl, (refl, tt)))
      (refl, (refl, (refl, tt))) (refl, (refl, (refl, tt))) (omega arith)

abbrev attributes : String → Io (Unit {0}) IoError String
attributes file w =
    if text_eq file "/sys/block/sdb/queue/zoned"
    then (ok "host-managed\n", w)
    else if text_eq file "/sys/block/sdb/queue/chunk_sectors"
    then (ok "8\n", w)
    else if text_eq file "/sys/block/sdb/queue/nr_zones"
    then (ok "4\n", w)
    else (err (os_error not_found), w)

abbrev fs : Fs (Unit {0})
fs = record no_files { read_to_string = attributes }

answered : (file : String) (w : Unit {0}) → Returns (fs.read_to_string file w).0
answered file w = elim (Bool-cases (text_eq file "/sys/block/sdb/queue/zoned")) [
  | inl a ↦ rw a tt
  | inr a ↦ elim (Bool-cases (text_eq file "/sys/block/sdb/queue/chunk_sectors")) [
    | inl b ↦ rw (a, b) tt
    | inr b ↦ elim (Bool-cases (text_eq file "/sys/block/sdb/queue/nr_zones")) [
      | inl c ↦ rw (a, b, c) tt
      | inr c ↦ rw (a, b, c) tt
    ]
  ]
]

device_properties-Gives_example : Gives (Says host_managed 8 4) (device_properties fs "/dev/sdb" tt)
unfolding zoned.Base.Text.Edit.file_name zoned.Sysfs.device_model zoned.Sysfs.model_of
    zoned.Sysfs.number zoned.Base.Text.parse_uint zoned.Base.Text.parse_digits
device_properties-Gives_example =
    device_properties-Gives fs answered "/dev/sdb" "sdb" host_managed 8 4 tt tt tt tt refl refl refl
      refl
