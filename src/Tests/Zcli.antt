-- ===== src/Tests/Zcli.antt =====
-- The commands of examples/zcli.rs at the small device.
use zoned.Base.{
  ℕ, suc, ◌+◌, ◌*◌, ◌/◌, ◌<◌, ◌≤◌, ◌≡◌, refl, sym, ap, ◌∙◌, ◌↔◌, ◌⊎◌, Bool, true, false, some, none,
  List, [], ◌∷◌, arith, length, ◌==◌, ==_iff, lt→leb_false, u64_mod, if◌then◌else◌, min, select,
  take-length, drop-length, append-nil, mul_u64, String,
}
use zoned.Errors.{ok, err, timeout, invalid_range, return}
use zoned.Types.{Zone, DeviceInfo, ZoneCondition, empty}
use zoned.Device.{ZonedDevice, reset_zones}
use zoned.Device.Builder.{Validate}
use zoned.Device.Storage.{overlay, Storage}
use zoned.Device.Reads.{Readable, bytes_at}
use zoned.Handle.{ZoneHandle}
use zoned.Allocator.Set.{count}
use zoned.Examples.Zcli.{Console, message}
use zoned.Examples.Zcli.Arguments.{parse_zone_range, block_device, is_zoned}
use zoned.Examples.Zcli.Arguments.Parsed.{show_range, parse_zone_range-show}
use zoned.Examples.Zcli.Bench.{run_threads, spawn_from, run}
use zoned.Examples.Zcli.Bench.Writes.{Bounded}
use zoned.Examples.Zcli.Bench.Scheduled.{bytes_of, Filled, run-Filled}
use zoned.Examples.Zcli.Bench.Stuck.{TakesNothing, Unfinished, run_threads-stuck}
use zoned.Examples.Zcli.Bench.Phases.{allocate_zones, allocate_all, allocate_for}
use zoned.Examples.Zcli.Bench.Distinct.{all_indices, EachHas, allocate_zones-Distinct}
use zoned.Examples.Zcli.Boundary.{conv_test, block_of}
use zoned.Examples.Zcli.Boundary.Verified.{
  length-block_of, Holds, Outside, Ensures, conv_test-Passed,
}
use zoned.Examples.Zcli.Info.{Census, report_of, take_census}
use zoned.Examples.Zcli.Info.Counted.{Counts, take_census-Counts}
use zoned.Examples.Zcli.Manage.{already_empty, reset_all, reset_each}
use zoned.Examples.Zcli.Manage.Resets.{Resettable, Reset, reset_each-Reset, reset_all-unreported}
use zoned.Examples.Zcli.Validation.{Verdict, run_validate}
use zoned.Examples.Zcli.Validation.Passed.{AllPass, run_validate-AllPass}
use zoned.Tests.{Medium, platform, device, blank, four_zones, device-Serves}

abbrev info : DeviceInfo
info = record { zone_size = 8; nr_zones = 4 }

take_census-Counts_example :
    (c : Census) × (take_census 5 device none info true 2 blank
      ≡ (ok (report_of none info c), blank))
    × Counts true four_zones c
    × ((report_of none info c).total_zones ≡ 4)
take_census-Counts_example =
    take_census-Counts device four_zones blank (device-Serves blank) 5 none info true 2
      (omega arith) (omega arith) (omega arith)

parse_zone_range-show_example :
    (3 ≤ 17 → parse_zone_range (show_range 3 17) blank ≡ (ok (3, 17), blank))
    × (17 < 3
        → (m : String) × (parse_zone_range (show_range 3 17) blank ≡ (err (message m), blank)))
    × (parse_zone_range "3" blank ≡ (ok (3, 3), blank))
unfolding zoned.Base.Text.Decimal.show_onto
parse_zone_range-show_example = parse_zone_range-show 3 17 blank (omega arith) (omega arith)

-- Every check passes and counts itself.
abbrev passing : Validate ℕ
passing = record {
  is_block_device = λ path n. (ok tt, n + 1);
  is_not_mounted = λ path n. (ok tt, n + 1);
  has_no_partitions = λ path n. (ok tt, n + 1);
  is_zoned_device = λ path n. (ok tt, n + 1);
}

run_validate-AllPass_example :
    ((v : Verdict) × (run_validate passing "/dev/sdb" (block_device ∷ is_zoned ∷ []) 0 ≡ (ok v, 2)))
    ↔ AllPass passing "/dev/sdb" (block_device ∷ is_zoned ∷ []) 0 2
run_validate-AllPass_example =
    run_validate-AllPass passing "/dev/sdb" (block_device ∷ is_zoned ∷ []) 0 2 (omega arith)

-- A reset puts 0 at the index of its zone.
abbrev resetting : ZonedDevice Medium
resetting = record {
  inner = record platform { reset_zones = λ s n m. (ok tt, λ i. if i == s / 8 then 0 else m i) };
}

other_index : (i idx : ℕ) → (i ≡ idx → ⊥) → (i == idx) ≡ false
other_index i idx h = ground (arith, h)

resetting-Resettable : Resettable resetting 8 4 (λ (m : Medium). m) 0
unfolding reset_zones zoned.Device.validate_range
resetting-Resettable = record {
  clears = λ idx w h.
      let at : mul_u64 8 idx ≡ 8 * idx = omega (arith, h) in
      let index : 8 * idx / 8 ≡ idx = omega arith in
      rw (at, lt→leb_false u64_mod (8 * idx + 8) (omega (arith, h)), index)
        (rw ((==_iff idx idx).1 refl) refl, λ i other. rw (other_index i idx other) refl);
}

abbrev written : Medium
written i = i + 5

reset_each-Reset_example :
    Reset resetting 8 4 (λ (m : Medium). m) 0 1 2 written (reset_each resetting 8 2 1 written)
reset_each-Reset_example =
    reset_each-Reset resetting 8 4 (λ (m : Medium). m) 0 resetting-Resettable 2 1 written
      (omega arith)

abbrev silent : Console Medium
silent = record { flush = return tt; read_line = return "yes" }

abbrev unreported : ZonedDevice Medium
unreported = record {
  inner = record platform { report_zones = λ s n m. (err (invalid_range 0 0), m) };
}

reset_all-unreported_example :
    reset_all silent 2 unreported info true blank ≡ (ok already_empty, blank)
unfolding zoned.Device.report_zones
reset_all-unreported_example =
    reset_all-unreported silent unreported info 0 true (invalid_range 0 0) blank blank refl

-- Writes and reads that are never short.
abbrev complete : ZonedDevice Medium
complete = record {
  inner = record platform {
    write_at = λ buf offset m. (ok (length buf), overlay m offset buf);
    read_at = λ buf offset m. (ok (length buf, bytes_at m offset (length buf)), m);
  };
}

complete-Storage : Storage complete (λ (m : Medium). m)
complete-Storage = record {
  honest = λ buf offset w. (
    omega arith,
    (λ whole. whole),
    (λ i. ap (λ xs. overlay w offset xs i) (sym (take-length (length buf) buf (omega arith)))),
  );
}

complete-Readable : Readable complete (λ (m : Medium). m)
complete-Readable = record {
  honest = λ buf offset w. (
    omega arith,
    rw (drop-length buf) (sym (append-nil (bytes_at w offset (length buf)))),
    (λ i. refl),
  );
}

conv_test-Passed_example :
    Ensures
      (λ t m.
        (t.0 ≡ true)
        × (length t.1 ≡ 4096)
        × (Holds 0x55 (8 * 512) 4096 m × Outside (8 * 512) 4096 blank m))
      (λ m. Outside (8 * 512) 4096 blank m)
      (conv_test complete 8 0xAA 0x55 (block_of 0) blank)
conv_test-Passed_example =
    conv_test-Passed (λ (m : Medium). m) complete complete-Storage complete-Readable
      (record { full = λ buf offset w. refl }) (record { full = λ buf offset w. refl }) 8
      (omega arith) 0xAA 0x55 (block_of 0) blank (length-block_of 0)

abbrev zone_of : ZonedDevice Medium → ℕ → ZoneHandle Medium
zone_of d idx = record {
  device = d;
  zone_index = idx;
  start = idx * 8;
  len = 8;
  capacity = 6;
  write_pointer = idx * 8;
  registered = true;
}

device-Bounded : Bounded device
device-Bounded = record {
  write = λ buf offset w. omega arith;
  writev = λ bufs offset w. omega arith;
}

abbrev two_threads : List (List (ZoneHandle Medium))
two_threads = (zone_of device 2 ∷ []) ∷ (zone_of device 3 ∷ zone_of device 1 ∷ []) ∷ []

-- The second thread begins, and the first gets its turns between those of the second.
abbrev turns : List ℕ
turns = 1 ∷ 0 ∷ 1 ∷ 1 ∷ 0 ∷ []

run-Filled_example :
    ((run turns (spawn_from 1024 false 0 two_threads) (0, blank)).1.0
      ≡ bytes_of (run turns (spawn_from 1024 false 0 two_threads) (0, blank)).0)
    × Filled two_threads (run turns (spawn_from 1024 false 0 two_threads) (0, blank)).0
unfolding zoned.Types.to_bytes
run-Filled_example =
    run-Filled turns 1024 false two_threads blank
      (
        (omega arith),
        (device-Bounded, tt),
        ((omega arith), (device-Bounded, (device-Bounded, tt)), tt),
      )
      (omega arith)

-- A write of no byte succeeds.
abbrev refusing : ZonedDevice Medium
refusing = record {
  inner = record platform {
    write_at = λ buf offset m. (ok 0, m);
    writev_at = λ bufs offset m. (ok 0, m);
  };
}

refusing-TakesNothing : TakesNothing (zone_of refusing 2)
unfolding zoned.Types.to_bytes
refusing-TakesNothing = record {
  write_at = λ buf m. refl;
  writev_at = λ bufs m. refl;
  some_room = omega arith;
  before = omega arith;
  fits = omega arith;
}

-- The refused thread stands behind one that fills its zone.
run_threads-stuck_example :
    Unfinished (
      run_threads turns
        (spawn_from 1024 true 0 ((zone_of device 1 ∷ []) ∷ (zone_of refusing 2 ∷ []) ∷ []))
        blank)
    × ((w' : Medium) × (run_threads turns
            (spawn_from 1024 true 0 ((zone_of refusing 2 ∷ []) ∷ []))
            blank
          ≡ (timeout, w')))
run_threads-stuck_example =
    run_threads-stuck (zone_of refusing 2) refusing-TakesNothing 1024 true []
      ((zone_of device 1 ∷ []) ∷ []) [] turns blank

abbrev handles : List (List (ZoneHandle Medium))
handles = (zone_of device 2 ∷ []) ∷ (zone_of device 3 ∷ []) ∷ []

given_out : allocate_zones device 2 1 blank ≡ (ok (handles, 2 ∷ 3 ∷ []), blank)
unfolding allocate_zones allocate_all allocate_for zoned.Allocator.allocate
    zoned.Device.report_all_zones zoned.Device.report_loop zoned.Device.device_info
    zoned.Device.report_zones zoned.Allocator.first_eligible zoned.Allocator.eligible
    zoned.Allocator.Set.contains zoned.Allocator.Set.insert zoned.Handle.new_with_allocator
    zoned.Handle.new_inner zoned.Handle.reset zoned.Device.reset_zones zoned.Device.validate_range
    zoned.Allocator.allocate_zone zoned.Allocator.try_allocate zoned.Allocator.allocated_zones
given_out = refl

allocate_zones-Distinct_example :
    ((z : ℕ)
      → (count z (all_indices handles) ≤ 1)
        × (count z (2 ∷ 3 ∷ []) ≡ count z (all_indices handles)))
    × (length handles ≡ 2)
    × EachHas 1 handles
allocate_zones-Distinct_example =
    allocate_zones-Distinct device 2 1 handles (2 ∷ 3 ∷ []) blank blank given_out
