-- ===== src/Examples/Zcli/Manage.antt =====
-- `run_zone_op` and `run_reset` of examples/zcli.rs: the commands that manage zones.
pub mod Resets
use zoned.Base.{
  ℕ, zero, suc, ◌+◌, ◌-◌, String, Bool, Option, none, some, List, [], ◌∷◌, ◌&&◌, not, ltb, ◌==◌,
  if◌then◌else◌, mul_u64,
}
use zoned.Base.Text.{push}
use zoned.Base.Text.Edit.{text_eq}
use zoned.Errors.{
  Io, Outcome, ok, err, panic, timeout, fail, return, ZonedError, ◌>>=◌, ◌>>◌, and_then,
}
use zoned.Types.{Sector, Zone, DeviceInfo, type_eq, condition_eq, sequential_write_required, empty}
use zoned.Device
use zoned.Device.{ZonedDevice, Zio}
use zoned.Device.Iter
use zoned.Device.Iter.{ZoneIterator, Next, next}
use zoned.Device.Builder
use zoned.Device.Builder.{Validate, Opener, open_device}
use zoned.Handle
use zoned.Handle.{ZoneHandle}
use zoned.Examples.{with_handle}
use zoned.Examples.Zcli.{
  CliError, Cio, message, passes, Console, unless_skipped, ZoneRow, zone_rows,
}
use zoned.Examples.Zcli.Arguments.{parse_zone_range}

-- What `run_zone_op` prints: the zones of the range behind the operation, or the zone before and after.
pub data OpReport : Type 0 where
  range : List ZoneRow → OpReport
  single : Zone → Zone → OpReport

-- What `run_reset` prints: that there is nothing to do, or how much it has reset.
pub data ResetReport : Type 0 where
  already_empty : ResetReport
  reset_zones : ℕ → ResetReport
  reset_range : ℕ → ℕ → ResetReport

abbrev unknown_operation : {W A : Type 0} → String → Cio W A
unknown_operation op = fail (message (push "unknown operation: " op))

-- A zone that `--all` counts.
abbrev pub is_dirty : Zone → Bool
is_dirty z = type_eq z.zone_type sequential_write_required && not (condition_eq z.condition empty)

module _ {W : Type 0} where
  -- The two `match op`.
  unfoldable pub range_op : String → ZonedDevice W → Sector → Sector → Cio W (Unit {0})
  range_op op d sector nr_sectors =
      if text_eq op "open"
      then passes (Device.open_zones d sector nr_sectors)
      else if text_eq op "close"
      then passes (Device.close_zones d sector nr_sectors)
      else if text_eq op "finish"
      then passes (Device.finish_zones d sector nr_sectors)
      else unknown_operation op

  unfoldable pub handle_op : String → Cio (ZoneHandle W × W) (Unit {0})
  handle_op op =
      if text_eq op "open"
      then passes Handle.open_zone
      else if text_eq op "close"
      then passes Handle.close_zone
      else if text_eq op "finish"
      then passes Handle.finish
      else unknown_operation op

  unfoldable pub op_on_range : ZonedDevice W → ℕ → ℕ → String → Cio W OpReport
  op_on_range d zone_idx count op = do
    info ← passes (Device.device_info d)
    let sector : Sector = mul_u64 info.zone_size zone_idx
    range_op op d sector (mul_u64 info.zone_size count)
    zones ← passes (Device.report_zones d sector count)
    return (range (zone_rows info.zone_size zones))

  unfoldable pub op_on_handle : String → Cio (ZoneHandle W × W) OpReport
  op_on_handle op = do
    before ← passes Handle.report
    handle_op op
    after ← passes Handle.report
    return (single before after)

  -- `run_zone_op` from the device on.
  unfoldable pub zone_op : ZonedDevice W → ℕ → Option ℕ → String → Cio W OpReport
  zone_op d zone_idx (some count) op = op_on_range d zone_idx count op
  zone_op d zone_idx none op = do
    handle ← passes (Handle.new d zone_idx)
    with_handle handle (op_on_handle op)

  -- `filter_map(|r| r.ok())` and `count`: an error of the iterator is passed over. A panic is not.
  abbrev count_item : (ZoneIterator W → ℕ → Zio W ℕ) → ℕ → Next W → Outcome ZonedError ℕ × W
  count_item rest n (none, it, w) = (ok n, w)
  count_item rest n (some (ok zone), it, w) = rest it (if is_dirty zone then suc n else n) w
  count_item rest n (some (err e), it, w) = rest it n w
  count_item rest n (some panic, it, w) = (panic, w)
  count_item rest n (some timeout, it, w) = (timeout, w)

  unfoldable pub count_loop : ℕ → ZoneIterator W → ℕ → Zio W ℕ
  count_loop zero it n w = (timeout, w)
  count_loop (suc fuel) it n w = count_item (λ it' n'. count_loop fuel it' n') n (next it w)

  abbrev reset_counted : Console W → ZonedDevice W → DeviceInfo → Bool → ℕ → Cio W ResetReport
  reset_counted console d info skip_confirm non_empty_count =
      if non_empty_count == 0 then return already_empty else (do
        unless_skipped console skip_confirm
        passes (Device.reset_zones d 0 (mul_u64 info.zone_size info.nr_zones))
        return (reset_zones non_empty_count))

  -- The branch of `--all`.
  unfoldable pub reset_all : Console W → ℕ → ZonedDevice W → DeviceInfo → Bool → Cio W ResetReport
  reset_all console fuel d info skip_confirm = do
    non_empty_count ← passes (count_loop fuel (Iter.zone_iter d 512) 0)
    reset_counted console d info skip_confirm non_empty_count

  -- The `for` over `count` indices from `idx` on.
  unfoldable pub reset_each : ZonedDevice W → Sector → ℕ → ℕ → Zio W (Unit {0})
  reset_each d zone_size zero idx w = (ok tt, w)
  reset_each d zone_size (suc count) idx w =
      and_then (Device.reset_zones d (mul_u64 zone_size idx) zone_size w)
        λ _. reset_each d zone_size count (suc idx)

  unfoldable pub reset_between :
      Console W → ZonedDevice W → DeviceInfo → String → Bool → Cio W ResetReport
  reset_between console d info zone_str skip_confirm = do
    bounds ← parse_zone_range zone_str
    unless_skipped console skip_confirm
    passes (reset_each d info.zone_size (suc bounds.1 - bounds.0) bounds.0)
    return (reset_range bounds.0 bounds.1)

  -- `run_reset` from the device on.
  unfoldable pub reset_command :
      Console W → ℕ → ZonedDevice W → Option String → Bool → Bool → Cio W ResetReport
  reset_command console fuel d zone_arg all skip_confirm = do
    info ← passes (Device.device_info d)
    if all then reset_all console fuel d info skip_confirm else elim zone_arg [
      | some zone_str ↦ reset_between console d info zone_str skip_confirm
      | none ↦ fail (message "specify a zone index/range or --all")
    ]

  module _ (validate : Validate W) (opener : Opener W) where
    pub run_zone_op : String → ℕ → Option ℕ → String → Cio W OpReport
    run_zone_op path zone_idx count op = do
      dev ←
          passes (
            open_device validate opener
              (Builder.validate_all (Builder.writable (Builder.new path))))
      zone_op dev zone_idx count op

    pub run_reset : Console W → ℕ → String → Option String → Bool → Bool → Cio W ResetReport
    run_reset console fuel path zone_arg all skip_confirm = do
      dev ←
          passes (
            open_device validate opener
              (Builder.validate_all (Builder.writable (Builder.new path))))
      reset_command console fuel dev zone_arg all skip_confirm
