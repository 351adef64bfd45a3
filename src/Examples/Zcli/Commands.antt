-- ===== src/Examples/Zcli/Commands.antt =====
-- The subcommands of examples/zcli.rs with their arguments, and `main` behind the parser of clap.
use zoned.Base.{ℕ, String, Bool, Option, List}
use zoned.Errors.{Io, ZonedError, return, ◌>>=◌}
use zoned.Types.{Sector}
use zoned.Types.Properties.{DeviceProperties}
use zoned.Device.Builder.{Validate, Opener}
use zoned.Examples.Zcli.{Cio, Console}
use zoned.Examples.Zcli.Arguments.{ZoneTypeArg, ZoneCondArg, ValidateCheck}
use zoned.Examples.Zcli.Info.{run_info}
use zoned.Examples.Zcli.Table.{run_zones, run_report}
use zoned.Examples.Zcli.Manage.{run_zone_op, run_reset}
use zoned.Examples.Zcli.Transfer.{run_read, run_write, run_pwrite}
use zoned.Examples.Zcli.Validation.{run_validate}
use zoned.Examples.Zcli.Boundary.{run_boundary_test}
use zoned.Examples.Zcli.Bench.Phases.{run_bench}

pub data Commands : Type 0 where
  info : String → Bool → ℕ → Commands
  zones : String → Option ZoneTypeArg → Option ZoneCondArg → Option ℕ → Bool → ℕ → Commands
  reset : String → Option String → Bool → Bool → Commands
  report : String → ℕ → ℕ → Commands
  open_zone close_zone finish : String → ℕ → Option ℕ → Commands
  read : String → ℕ → ℕ → Sector → Option (List ℕ) → Commands
  write : String → ℕ → ℕ → ℕ → Bool → Bool → Commands
  pwrite : String → Sector → ℕ → ℕ → Bool → Bool → Commands
  validate : String → List ValidateCheck → Commands
  boundary_test : String → Bool → Commands
  bench : String → ℕ → ℕ → ℕ → Bool → Bool → Bool → Bool → Commands

-- What a subcommand printed is not looked at.
abbrev quiet : {W A : Type 0} → Cio W A → Cio W (Unit {0})
quiet m = do _ ← m; return tt

-- The schedule is that of the threads of `bench`, the fuel that of the loops over the iterator.
module _ {W : Type 0} (checks : Validate W) (opener : Opener W)
    (properties : String → Io W ZonedError DeviceProperties) (console : Console W)
    (schedule : List ℕ) (fuel : ℕ) where
  -- The `match` of `main`. The verbose table of `zones` has more columns.
  pub dispatch : Commands → Cio W (Unit {0})
  dispatch (info device all_zones batch_size) =
      quiet (run_info checks opener properties fuel device all_zones batch_size)
  dispatch (zones device zone_type condition count verbose batch_size) =
      quiet (run_zones checks opener fuel device zone_type condition count batch_size)
  dispatch (reset device zone all yes_given) =
      quiet (run_reset checks opener console fuel device zone all yes_given)
  dispatch (report device start max_zones) = quiet (run_report checks opener device start max_zones)
  dispatch (open_zone device zone range) =
      quiet (run_zone_op checks opener device zone range "open")
  dispatch (close_zone device zone range) =
      quiet (run_zone_op checks opener device zone range "close")
  dispatch (finish device zone range) = quiet (run_zone_op checks opener device zone range "finish")
  dispatch (read device zone bytes offset scatter) =
      quiet (run_read checks opener device zone bytes offset scatter)
  dispatch (write device zone bytes fill writev yes_given) =
      quiet (run_write checks opener console device zone bytes fill writev yes_given)
  dispatch (pwrite device sector bytes fill writev yes_given) =
      quiet (run_pwrite checks opener console device sector bytes fill writev yes_given)
  dispatch (validate device given) = quiet (run_validate checks device given)
  dispatch (boundary_test device yes_given) =
      quiet (run_boundary_test checks opener console fuel device yes_given)
  dispatch (bench device threads zones_per_thread buf_size_kib o_direct writev fsync yes_given) =
      quiet (
        run_bench checks opener properties console schedule device threads zones_per_thread
          buf_size_kib o_direct writev fsync yes_given)
