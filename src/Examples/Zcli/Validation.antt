-- ===== src/Examples/Zcli/Validation.antt =====
-- `run_validate` of examples/zcli.rs.
pub mod Passed
use zoned.Base.{
  ℕ, ◌+◌, ◌%◌, String, Option, none, some, List, [], ◌∷◌, ◌++◌, ltb, if◌then◌else◌, u32_mod,
}
use zoned.Errors.{Io, Outcome, ok, err, panic, timeout, ZonedError, fail, return, ◌>>=◌, and_then}
use zoned.Device.Builder.{Validate}
use zoned.Examples.Zcli.{Cio, CliError, exits}
use zoned.Examples.Zcli.Arguments.{
  ValidateCheck, block_device, not_mounted, no_partitions, is_zoned,
}

-- The lines with PASS, or FAIL and an error, and the two counters.
pub record Verdict : Type 0 where
  pub lines : List (String × Option ZonedError)
  pub passed : ℕ
  pub failed : ℕ

abbrev pub name_of : ValidateCheck → String
name_of block_device = "block-device"
name_of not_mounted = "not-mounted"
name_of no_partitions = "no-partitions"
name_of is_zoned = "is-zoned"

-- No check asked for is all of them.
abbrev pub check_list : List ValidateCheck → List ValidateCheck
check_list [] = block_device ∷ not_mounted ∷ no_partitions ∷ is_zoned ∷ []
check_list (check ∷ checks) = check ∷ checks

abbrev pub nothing_run : Verdict
nothing_run = record { lines = []; passed = 0; failed = 0 }

-- The rest of a round: the line and the counter, or the panic of the check.
abbrev pub counted :
    {W : Type 0}
    → (Verdict → Cio W Verdict)
    → String
    → Verdict
    → Outcome ZonedError (Unit {0}) × W
    → Outcome CliError Verdict × W
counted rest name v (ok _, w) =
    rest (record v { lines = v.lines ++ (name, none) ∷ []; passed = (v.passed + 1) % u32_mod }) w
counted rest name v (err e, w) =
    rest (record v { lines = v.lines ++ (name, some e) ∷ []; failed = (v.failed + 1) % u32_mod }) w
counted rest name v (panic, w) = (panic, w)
counted rest name v (timeout, w) = (timeout, w)

abbrev pub exit_if_failed : {W : Type 0} → Verdict → Cio W Verdict
exit_if_failed v = if ltb 0 v.failed then fail (exits 1) else return v

module _ {W : Type 0} (validate : Validate W) (path : String) where
  abbrev pub result_of : ValidateCheck → Io W ZonedError (Unit {0})
  result_of block_device = validate.is_block_device path
  result_of not_mounted = validate.is_not_mounted path
  result_of no_partitions = validate.has_no_partitions path
  result_of is_zoned = validate.is_zoned_device path

  unfoldable pub check_loop : List ValidateCheck → Verdict → Cio W Verdict
  check_loop [] v w = (ok v, w)
  check_loop (check ∷ checks) v w =
      counted (check_loop checks) (name_of check) v (result_of check w)

  pub run_validate : List ValidateCheck → Cio W Verdict
  run_validate checks = do v ← check_loop (check_list checks) nothing_run; exit_if_failed v
