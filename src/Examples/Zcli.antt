-- ===== src/Examples/Zcli.antt =====
-- examples/zcli.rs: what its subcommands share. What a subcommand prints is its result, as the values
-- that it formats; the exit of the process is an outcome.
pub mod Arguments
pub mod HexDump
pub mod Table
pub mod Info
pub mod Manage
pub mod Transfer
pub mod Validation
pub mod Boundary
pub mod Bench
pub mod Commands
use zoned.Base.{ℕ, String, Bool, Option, none, some, List, map, if◌then◌else◌, ◌/◌, ltb}
use zoned.Base.Text.Decimal.{show}
use zoned.Base.Text.Edit.{trim, text_eq}
use zoned.Errors.{
  Io, Outcome, ok, err, panic, timeout, IoError, ZonedError, fail, return, map_err, ◌>>=◌, ◌>>◌,
}
use zoned.Types.{Sector, Zone}
use zoned.Types.Display.{sector_text, type_text, condition_text}

-- `Box<dyn Error>`: an error of the crate, of the system, a message, or a message that
-- ends in the text of an error of the crate; and `process::exit`.
pub data CliError : Type 0 where
  failed : ZonedError → CliError
  io : IoError → CliError
  message : String → CliError
  context : String → ZonedError → CliError
  exits : ℕ → CliError

abbrev pub Cio : Type 0 → Type 0 → Type 0
Cio W A = Io W CliError A

abbrev pub passes : {W A : Type 0} → Io W ZonedError A → Cio W A
passes = map_err failed

-- `.ok()` on the result of a call.
abbrev pub attempt : {W E F A : Type 0} → Io W E A → Io W F (Option A)
attempt m w = elim ((m w).0) [
  | ok a ↦ (ok (some a), (m w).1)
  | err e ↦ (ok none, (m w).1)
  | panic ↦ (panic, (m w).1)
  | timeout ↦ (timeout, (m w).1)
]

-- Standard output and input, which belong to the process.
pub record Console (W : Type 0) : Type 0 where
  pub flush : Io W IoError (Unit {0})
  pub read_line : Io W IoError String

abbrev pub answered : {W : Type 0} → String → Cio W (Unit {0})
answered input = if text_eq (trim input) "yes" then return tt else fail (message "Aborted.")

pub confirm : {W : Type 0} → Console W → Cio W (Unit {0})
confirm console = do map_err io console.flush; input ← map_err io console.read_line; answered input

-- `if !skip_confirm { …; confirm()? }`.
abbrev pub unless_skipped : {W : Type 0} → Console W → Bool → Cio W (Unit {0})
unless_skipped console skip_confirm = if skip_confirm then return tt else confirm console

unfoldable pub format_limit : Option ℕ → String
format_limit (some v) = show v ""
format_limit none = "unlimited"

unfoldable pub format_wp : Option Sector → String
format_wp (some s) = sector_text s
format_wp none = "-"

-- A line of a table of zones: the index, the zone whose numbers and flags are shown, and the texts of
-- its write pointer, type and condition.
pub record ZoneRow : Type 0 where
  pub index : ℕ
  pub zone : Zone
  pub write_ptr : String
  pub type_column : String
  pub condition_column : String

-- The index of a zone by its start.
abbrev pub index_of : Sector → Zone → ℕ
index_of zone_size zone = if ltb 0 zone_size then zone.start / zone_size else 0

abbrev pub zone_row : ℕ → Zone → ZoneRow
zone_row idx zone = record {
  index = idx;
  zone = zone;
  write_ptr = format_wp zone.write_pointer;
  type_column = type_text zone.zone_type;
  condition_column = condition_text zone.condition;
}

abbrev pub zone_rows : Sector → List Zone → List ZoneRow
zone_rows zone_size = map (λ zone. zone_row (index_of zone_size zone) zone)
