-- ===== src/Tests/Linux.antt =====
-- platform/linux.rs over a kernel that answers for two zones.
use zoned.Base.{
  ◌%◌, ◌≡◌, refl, false, true, List, [], ◌∷◌, arith, pos, ◌==◌, if◌then◌else◌, take, drop, u32_mod,
}
use zoned.Base.Bytes.{to_le, from_le, from_le-to_le}
use zoned.Errors.{ok, os_error, unsupported}
use zoned.Platform.Kernel.{Kernel}
use zoned.Platform.Linux.{Ioctls, File, request, platform}
use zoned.Platform.Linux.Struct.{BlkZone, Fits, blk_zone_to_zone}
use zoned.Platform.Linux.Report.{response, convert, entries_from, Answers, platform-Serves}
use zoned.Device.Layout.{Serves}

-- A conventional zone, and an open one of 8 sectors of which 6 can be written.
abbrev raw_conventional : BlkZone
raw_conventional = record {
  start = 0;
  len = 8;
  wp = 18446744073709551615;
  zone_type = 1;
  cond = 0;
  non_seq = 0;
  reset = 0;
  capacity = 8;
}

abbrev raw_open : BlkZone
raw_open = record {
  start = 8;
  len = 8;
  wp = 10;
  zone_type = 2;
  cond = 2;
  non_seq = 0;
  reset = 1;
  capacity = 6;
}

abbrev raw_zones : List BlkZone
raw_zones = raw_conventional ∷ raw_open ∷ []

raw_conventional-Fits : Fits raw_conventional
raw_conventional-Fits = record {
  start_fits = omega arith;
  len_fits = omega arith;
  wp_fits = omega arith;
  zone_type_fits = omega arith;
  cond_fits = omega arith;
  non_seq_fits = omega arith;
  reset_fits = omega arith;
  capacity_fits = omega arith;
}

raw_open-Fits : Fits raw_open
raw_open-Fits = record {
  start_fits = omega arith;
  len_fits = omega arith;
  wp_fits = omega arith;
  zone_type_fits = omega arith;
  cond_fits = omega arith;
  non_seq_fits = omega arith;
  reset_fits = omega arith;
  capacity_fits = omega arith;
}

abbrev kernel : Kernel (Unit {0})
kernel = record {
  open_file = λ path mode w. (ok 3, w);
  sync_all = λ fd w. (ok tt, w);
  pwrite = λ fd buf offset w. (ok 0, w);
  pread = λ fd buf offset w. (ok (0, buf), w);
  pwritev = λ fd bufs offset w. (ok (pos 0), w);
  preadv = λ fd bufs offset w. (ok (pos 0, bufs), w);
  last_os_error = λ w. os_error unsupported;
}

-- The kernel reads the sector and the count out of the request.
abbrev ioctls : Ioctls (Unit {0})
ioctls = record {
  kernel = kernel;
  ioctl_read_u32 = λ fd nr w. (ok (if nr == 132 then 8 else 2), w);
  ioctl_report = λ fd buf w. (
    ok (
        response (from_le (take 8 buf)) 1
          (take (from_le (take 4 (drop 8 buf))) (entries_from (from_le (take 8 buf)) raw_zones))
          []),
    w,
  );
  ioctl_range = λ fd nr range w. (ok tt, w);
}

abbrev file : File
file = record { fd = 3; path = "/dev/sdb"; writable = false }

ioctls-Answers : Answers ioctls file 1 raw_zones tt
unfolding request to_le
ioctls-Answers = record {
  zone_size = 8;
  size_answer = refl;
  size_positive = omega arith;
  count_answer = refl;
  count_fits = omega arith;
  flags_fit = omega arith;
  all_fit = (raw_conventional-Fits, (raw_open-Fits, tt));
  tail = λ s count. [];
  report_answer = λ s count range some small.
      let whole : count % u32_mod ≡ count = omega arith in
      rw (from_le-to_le 8 s (omega arith), from_le-to_le 4 (count % u32_mod) (omega arith), whole);
}

platform-Serves_example :
    Serves (record { inner = platform ioctls file }) (convert true raw_zones) tt
unfolding blk_zone_to_zone
platform-Serves_example = platform-Serves ioctls file 1 raw_zones tt ioctls-Answers (omega arith)
