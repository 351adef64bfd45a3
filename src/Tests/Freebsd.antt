-- ===== src/Tests/Freebsd.antt =====
-- platform/freebsd.rs over a device of two zones of two blocks, each block of 4096 bytes. The world
-- is the list of the blocks that a command named, the latest first.
use zoned.Base.{
  replicate, ◌<◌, ℕ, ◌≡◌, refl, true, List, [], ◌∷◌, arith, pos, ltb, if◌then◌else◌, take, map,
}
use zoned.Errors.{ok, os_error, unsupported}
use zoned.Types.{Sector, Zone}
use zoned.Device.Layout.{Contiguous, from_sector}
use zoned.Platform.Kernel.{Kernel}
use zoned.Platform.Freebsd.{Ioctls, File, report_zones, zone_cmd_single, for_each_zone_in_range}
use zoned.Platform.Freebsd.Entry.{DiskZoneRepEntry, entry_to_zone}
use zoned.Platform.Freebsd.Args.{DiskZoneReport, report_args, RawIoctls, raw_zone_ioctls}
use zoned.Platform.Freebsd.Args.Response.{Fits, AllFit, write_entries, report_zones-answered}
use zoned.Platform.Freebsd.Range.{each, for_each_zone_in_range-each}

abbrev Log : Type 0
Log = List ℕ

abbrev entry_at : ℕ → DiskZoneRepEntry
entry_at lba = record {
  zone_type = 2;
  zone_condition = 1;
  zone_flags = 0;
  zone_length = 2;
  zone_start_lba = lba;
  write_pointer_lba = lba;
}

abbrev reported : ℕ → List DiskZoneRepEntry
reported lba =
    if ltb lba 2 then entry_at 0 ∷ entry_at 2 ∷ [] else if ltb lba 4 then entry_at 2 ∷ [] else []

abbrev kernel : Kernel Log
kernel = record {
  open_file = λ path mode w. (ok 3, w);
  sync_all = λ fd w. (ok tt, w);
  pwrite = λ fd buf offset w. (ok 0, w);
  pread = λ fd buf offset w. (ok (0, buf), w);
  pwritev = λ fd bufs offset w. (ok (pos 0), w);
  preadv = λ fd bufs offset w. (ok (pos 0, bufs), w);
  last_os_error = λ w. os_error unsupported;
}

abbrev ioctls : Ioctls Log
ioctls = record {
  kernel = kernel;
  sector_size = λ fd w. (ok 4096, w);
  media_size = λ fd w. (ok (pos 16384), w);
  params = λ fd w. (
    ok (record {
      zone_mode = 4;
      flags = 0;
      optimal_seq_zones = 0;
      optimal_nonseq_zones = 0;
      max_seq_zones = 0;
    }),
    w,
  );
  report = λ fd lba allocated w. (ok (reported lba, 2), w);
  command = λ fd cmd lba flags w. (ok tt, lba ∷ w);
}

abbrev file : File
file = record { fd = 3; path = "/dev/da0"; writable = true; sector_size = 4096; lba_scale = 8 }

abbrev two_zones : List Zone
two_zones = map (λ e. entry_to_zone e 8) (entry_at 0 ∷ entry_at 2 ∷ [])

two_zones-Contiguous : Contiguous 0 two_zones
unfolding entry_to_zone
two_zones-Contiguous = omega arith

answers :
    (s : Sector) (w : Log)
    → report_zones ioctls file s 1 w ≡ (ok (map (λ z. z) (take 1 (from_sector s two_zones))), w)
unfolding report_zones entry_to_zone
answers s w = ground arith

for_each_zone_in_range-each_example :
    for_each_zone_in_range ioctls file 0 32 (zone_cmd_single ioctls file 0) [] ≡ (ok tt, 2 ∷ 0 ∷ [])
unfolding zone_cmd_single entry_to_zone each
for_each_zone_in_range-each_example =
    for_each_zone_in_range-each ioctls file (omega arith) (zone_cmd_single ioctls file 0) two_zones
      (λ w z. z) two_zones-Contiguous (λ w z. refl) (λ w z. refl) answers [] two_zones [] [] refl

-- The answer of a kernel with the two entries to a report.
abbrev answer : DiskZoneReport
answer = record {
  starting_id = 0;
  rep_options = 0;
  same = 1;
  maximum_lba = 3;
  entries_allocated = 16384;
  entries_filled = 2;
  entries_available = 2;
  entries = 4096;
}

abbrev raw_ioctls : RawIoctls Log
raw_ioctls = record {
  kernel = kernel;
  diocgsectorsize = λ fd w. (ok 4096, w);
  diocgmediasize = λ fd w. (ok (pos 16384), w);
  dioczonecmd = λ fd args vector w.
      (ok (report_args answer, write_entries (entry_at 0 ∷ entry_at 2 ∷ []) (7 ∷ [])), w);
  address = 4096;
  unset = λ n. replicate n 0;
}

entry_at-Fits : (lba : ℕ) → lba < 100 → Fits (entry_at lba)
entry_at-Fits lba h = record {
  zone_type_fits = omega arith;
  zone_condition_fits = omega arith;
  zone_flags_fits = omega arith;
  zone_length_fits = omega arith;
  zone_start_lba_fits = omega arith;
  write_pointer_lba_fits = omega arith;
}

report_zones-answered_example :
    report_zones (raw_zone_ioctls raw_ioctls) file 7 1 []
    ≡ (ok (entry_to_zone (entry_at 0) 8 ∷ []), [])
unfolding entry_to_zone AllFit
report_zones-answered_example =
    report_zones-answered raw_ioctls file 7 1 answer (entry_at 0 ∷ entry_at 2 ∷ []) (7 ∷ []) [] []
      (omega arith) (omega arith) refl (omega arith)
      (entry_at-Fits 0 (omega arith), (entry_at-Fits 2 (omega arith), tt)) refl
