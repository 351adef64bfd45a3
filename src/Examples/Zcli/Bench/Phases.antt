-- ===== src/Examples/Zcli/Bench/Phases.antt =====
-- `run_bench` of examples/zcli.rs: its checks, the allocation of the zones, the threads, and the reset.
-- Times and rates, which are printed, are left out.
use zoned.Base.{
  ℕ, zero, suc, ◌*◌, ◌%◌, String, Bool, Option, none, some, List, [], ◌∷◌, ◌&&◌, not, ltb, ◌==◌,
  if◌then◌else◌, mul_u64,
}
use zoned.Base.Text.{push}
use zoned.Base.Text.Decimal.{show}
use zoned.Errors.{
  Io, Outcome, ok, err, panic, timeout, ZonedError, fail, return, map_err, ◌>>=◌, ◌>>◌,
}
use zoned.Types.{Sector, ZoneIndex}
use zoned.Types.Properties.{DeviceProperties}
use zoned.Device
use zoned.Device.{ZonedDevice}
use zoned.Device.Builder
use zoned.Device.Builder.{Validate, Opener, DeviceBuilder, open_device}
use zoned.Handle
use zoned.Handle.{ZoneHandle}
use zoned.Allocator
use zoned.Allocator.{ZoneAllocator, Allocated, fresh}
use zoned.Examples.Zcli.{Cio, CliError, passes, attempt, message, context, Console, unless_skipped}
use zoned.Examples.Zcli.Bench.{ThreadResult, spawn_from, run_threads}

-- What `run_bench` prints: the results of the threads, the bytes of their counter, and the zones.
pub record BenchReport : Type 0 where
  pub results : List ThreadResult
  pub total_bytes : ℕ
  pub allocated : List ZoneIndex

abbrev pub max_open_of : Option DeviceProperties → Option ℕ
max_open_of none = none
max_open_of (some p) = p.limits.max_open_zones

abbrev too_many : {W : Type 0} → ℕ → ℕ → Cio W (Unit {0})
too_many threads max_open = fail (
    message (
      push "requested " (
        show threads (
          push " threads but device only supports "
            (show max_open (push " open zones. Use --threads " (show max_open "")))))))

abbrev check_threads : {W : Type 0} → ℕ → Option ℕ → Cio W (Unit {0})
check_threads threads none = return tt
check_threads threads (some max_open) =
    if ltb max_open threads then too_many threads max_open else return tt

abbrev check_buffer : {W : Type 0} → Bool → ℕ → Cio W (Unit {0})
check_buffer o_direct buf_size_kib =
    if o_direct && not (buf_size_kib * 1024 % 4096 == 0)
    then fail (
        message (
          push "O_DIRECT requires buffer size to be a multiple of 4 KiB, got "
            (show buf_size_kib " KiB")))
    else return tt

abbrev builder_of : Bool → String → DeviceBuilder
builder_of o_direct path =
    Builder.validate_all (
      if o_direct
      then Builder.direct_io (Builder.new path)
      else Builder.writable (Builder.new path))

-- The allocation runs in the allocator's set beside the world. On an error the allocator goes with its
-- handles.
abbrev pub Bio : Type 0 → Type 0 → Type 0
Bio W A = Io (Allocated × W) CliError A

module _ {W : Type 0} where
  -- The reset of a new handle, which leaves the set as it is.
  abbrev pub reset_result :
      Allocated
      → Outcome ZonedError (Unit {0}) × (ZoneHandle W × W)
      → Outcome ZonedError (ZoneHandle W) × (Allocated × W)
  reset_result set (ok _, (h, w)) = (ok h, (set, w))
  reset_result set (err e, (h, w)) = (err e, (set, w))
  reset_result set (panic, (h, w)) = (panic, (set, w))
  reset_result set (timeout, (h, w)) = (timeout, (set, w))

  abbrev pub reset_new :
      ZoneHandle W → Allocated × W → Outcome ZonedError (ZoneHandle W) × (Allocated × W)
  reset_new h (set, w) = reset_result set (Handle.reset (h, w))

  abbrev reset_message : ℕ → ZoneHandle W → String
  reset_message t h =
      push "failed to reset zone " (show h.zone_index (push " for thread " (show t "")))

  unfoldable pub allocate_for : ZoneAllocator W → ℕ → ℕ → Bio W (List (ZoneHandle W))
  allocate_for a t zero = return []
  allocate_for a t (suc count) = do
    handle ←
        map_err (context (push "failed to allocate zone for thread " (show t "")))
          (Allocator.allocate a)
    handle' ← map_err (context (reset_message t handle)) (reset_new handle)
    handles ← allocate_for a t count
    return (handle' ∷ handles)

  -- The `for` over `count` threads from `t` on.
  unfoldable pub allocate_all : ZoneAllocator W → ℕ → ℕ → ℕ → Bio W (List (List (ZoneHandle W)))
  allocate_all a zones_per_thread t zero = return []
  allocate_all a zones_per_thread t (suc count) = do
    handles ← allocate_for a t zones_per_thread
    thread_zones ← allocate_all a zones_per_thread (suc t) count
    return (handles ∷ thread_zones)

  -- From a new allocator on; then the allocated zones are listed.
  abbrev pub listed :
      {A : Type 0}
      → Outcome CliError A × (Allocated × W)
      → Outcome CliError (A × List ZoneIndex) × W
  listed (ok a, s) = (ok (a, Allocator.allocated_zones s), s.1)
  listed (err e, s) = (err e, s.1)
  listed (panic, s) = (panic, s.1)
  listed (timeout, s) = (timeout, s.1)

  unfoldable pub allocate_zones :
      ZonedDevice W → ℕ → ℕ → Cio W (List (List (ZoneHandle W)) × List ZoneIndex)
  allocate_zones d threads zones_per_thread w =
      listed (allocate_all (record { device = d }) zones_per_thread 0 threads (fresh, w))

  unfoldable pub reset_listed : ZonedDevice W → Sector → List ZoneIndex → Cio W (Unit {0})
  reset_listed d zone_size [] = return tt
  reset_listed d zone_size (zone_idx ∷ zones) = do
    map_err (context (push "failed to reset zone " (show zone_idx "")))
        (Device.reset_zones d (mul_u64 zone_size zone_idx) zone_size)
    reset_listed d zone_size zones

  abbrev fsync_if : Bool → ZonedDevice W → Cio W (Unit {0})
  fsync_if do_fsync d = if do_fsync then passes (Device.fsync d) else return tt

  -- From the confirmation on. The schedule is the order in which the threads get to run.
  unfoldable pub bench :
      List ℕ → ZonedDevice W → Sector → ℕ → ℕ → ℕ → Bool → Bool → Cio W BenchReport
  bench schedule d zone_size threads zones_per_thread buf_size_kib use_writev do_fsync = do
    zones ← allocate_zones d threads zones_per_thread
    r ← run_threads schedule (spawn_from (buf_size_kib * 1024) use_writev 0 zones.0)
    fsync_if do_fsync d
    reset_listed d zone_size zones.1
    return (record { results = r.0; total_bytes = r.1; allocated = zones.1 })

  -- `properties` is `sysfs::device_properties`.
  module _ (validate : Validate W) (opener : Opener W)
      (properties : String → Io W ZonedError DeviceProperties) (console : Console W) where
    pub run_bench : List ℕ → String → ℕ → ℕ → ℕ → Bool → Bool → Bool → Bool → Cio W BenchReport
    run_bench schedule path threads zones_per_thread buf_size_kib o_direct use_writev do_fsync
          skip_confirm =
        do
          check_buffer o_direct buf_size_kib
          props ← attempt (properties path)
          check_threads threads (max_open_of props)
          dev ← passes (open_device validate opener (builder_of o_direct path))
          info ← passes (Device.device_info dev)
          unless_skipped console skip_confirm
          bench schedule dev info.zone_size threads zones_per_thread buf_size_kib use_writev
              do_fsync
