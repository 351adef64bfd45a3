-- ===== src/Examples/Zcli/Boundary.antt =====
-- `run_boundary_test` of examples/zcli.rs: writes to the first and last zones of each kind, read back.
pub mod Verified
use zoned.Base.{
  ℕ, zero, suc, ◌+◌, ◌/◌, ◌%◌, String, Bool, true, false, List, [], ◌∷◌, ◌&&◌, ◌==◌, ltb,
  if◌then◌else◌, u32_mod, replicate, last_or,
}
use zoned.Errors.{
  Io, Outcome, ok, err, panic, timeout, ZonedError, fail, return, ◌>>=◌, ◌>>◌, and_then,
}
use zoned.Types.{Sector, Zone, DeviceInfo, condition_eq, conventional, empty}
use zoned.Types.Filter
use zoned.Device
use zoned.Device.{ZonedDevice, Zio}
use zoned.Device.Iter
use zoned.Device.Builder
use zoned.Device.Builder.{Validate, Opener, open_device}
use zoned.Handle
use zoned.Handle.{ZoneHandle, Hio, on_device}
use zoned.Examples.{with_handle}
use zoned.Examples.Listing.{empty_required}
use zoned.Examples.Zcli.{Cio, passes, exits, message, Console, unless_skipped}

-- `passed` and `failed`.
pub record Score : Type 0 where
  pub passed : ℕ
  pub failed : ℕ

abbrev pub score : Bool → Score → Score
score true s = record s { passed = (s.passed + 1) % u32_mod }
score false s = record s { failed = (s.failed + 1) % u32_mod }

-- `buf.iter().all(|&b| b == pattern)`.
unfoldable pub all_bytes : ℕ → List ℕ → Bool
all_bytes fill [] = true
all_bytes fill (b ∷ bs) = b == fill && all_bytes fill bs

unfoldable pub block_of : ℕ → List ℕ
block_of fill = replicate 4096 fill

-- A test's verdict, and the buffer that the next test reads into.
abbrev pub Tested : Type 0
Tested = Bool × List ℕ

module _ {W : Type 0} where
  -- The rest of a test of a conventional zone behind its first read.
  abbrev rewritten : ZonedDevice W → Sector → ℕ → ℕ → ℕ × List ℕ → Zio W Tested
  rewritten d start first second r =
      if all_bytes first r.1
      then (do
        _ ← Device.write_at d start (block_of second)
        r' ← Device.read_at d start r.1
        return (all_bytes second r'.1, r'.1))
      else return (false, r.1)

  -- Write, verify, rewrite, verify.
  unfoldable pub conv_test : ZonedDevice W → Sector → ℕ → ℕ → List ℕ → Zio W Tested
  conv_test d start first second buf = do
    _ ← Device.write_at d start (block_of first)
    r ← Device.read_at d start buf
    rewritten d start first second r

  -- The rest of a test of a sequential zone behind the reset.
  abbrev refilled : Sector → ℕ → List ℕ → Zone → Hio W Tested
  refilled start second buf zone =
      if condition_eq zone.condition empty
      then (do
        _ ← Handle.write_sequential (block_of second)
        r ← on_device (λ d. Device.read_at d start buf)
        Handle.reset
        return (all_bytes second r.1, r.1))
      else return (false, buf)

  abbrev verified : Sector → ℕ → ℕ → ℕ × List ℕ → Hio W Tested
  verified start first second r =
      if all_bytes first r.1
      then (do Handle.reset; zone ← Handle.report; refilled start second r.1 zone)
      else (do Handle.reset; return (false, r.1))

  -- Write, verify, reset, rewrite, verify, reset.
  unfoldable pub seq_test : Sector → ℕ → ℕ → List ℕ → Hio W Tested
  seq_test start first second buf = do
    _ ← Handle.write_sequential (block_of first)
    r ← on_device (λ d. Device.read_at d start buf)
    verified start first second r

  -- `start.raw() / zone_size.raw()`, which panics on 0.
  abbrev zone_index : Sector → Sector → Zio W ℕ
  zone_index start zone_size w = if zone_size == 0 then (panic, w) else (ok (start / zone_size), w)

  -- The block of the conventional zones. The last of the zones is `last_or first zones`.
  unfoldable pub conv_tests : ZonedDevice W → DeviceInfo → List Zone → Score → Zio W Score
  conv_tests d info [] s = return s
  conv_tests d info (first ∷ []) s = return s
  conv_tests d info (first ∷ (z ∷ zones)) s = do
    _ ← zone_index first.start info.zone_size
    _ ← zone_index (last_or z zones).start info.zone_size
    t ← conv_test d first.start 0xAA 0x55 (block_of 0)
    t' ← conv_test d (last_or z zones).start 0xBB 0x66 t.1
    return (score t'.0 (score t.0 s))

  abbrev seq_test_at : ZonedDevice W → ℕ → Sector → ℕ → ℕ → List ℕ → Zio W Tested
  seq_test_at d idx start first second buf = do
    handle ← Handle.new d (idx % u32_mod)
    with_handle handle (seq_test start first second buf)

  -- The block of the sequential zones.
  unfoldable pub seq_tests : ZonedDevice W → DeviceInfo → List Zone → Score → Zio W Score
  seq_tests d info [] s = return s
  seq_tests d info (first ∷ []) s = return s
  seq_tests d info (first ∷ (z ∷ zones)) s = do
    first_idx ← zone_index first.start info.zone_size
    last_idx ← zone_index (last_or z zones).start info.zone_size
    t ← seq_test_at d first_idx first.start 0xCC 0x33 (block_of 0)
    t' ← seq_test_at d last_idx (last_or z zones).start 0xDD 0x44 t.1
    return (score t'.0 (score t.0 s))

  abbrev some_zones : List Zone → Cio W (Unit {0})
  some_zones [] = fail (message "no zones found")
  some_zones (z ∷ zones) = return tt

  abbrev exit_if_failed : Score → Cio W Score
  exit_if_failed s = if ltb 0 s.failed then fail (exits 1) else return s

  -- `run_boundary_test` from the device on.
  unfoldable pub boundary_test : ℕ → ZonedDevice W → Cio W Score
  boundary_test fuel d = do
    info ← passes (Device.device_info d)
    first_zones ← passes (Device.report_zones d 0 1)
    some_zones first_zones
    conv_zones ←
        passes (Iter.report_zones_filtered fuel d (Filter.zone_type Filter.new conventional) 512)
    seq_zones ← passes (Iter.report_zones_filtered fuel d empty_required 512)
    s ← passes (conv_tests d info conv_zones (record { passed = 0; failed = 0 }))
    s' ← passes (seq_tests d info seq_zones s)
    exit_if_failed s'

  pub run_boundary_test : Validate W → Opener W → Console W → ℕ → String → Bool → Cio W Score
  run_boundary_test validate opener console fuel path skip_confirm = do
    unless_skipped console skip_confirm
    dev ←
        passes
          (open_device validate opener (Builder.validate_all (Builder.writable (Builder.new path))))
    boundary_test fuel dev
