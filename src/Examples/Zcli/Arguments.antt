-- ===== src/Examples/Zcli/Arguments.antt =====
-- The arguments of examples/zcli.rs: its value enums, and the parsers of bytes and ranges of zones.

pub mod Parsed
use Prim.Native.Char.{Char, code}
use zoned.Base.{
  ℕ, ◌+◌, ◌-◌, ◌*◌, String, Bool, true, false, Option, none, some, ◌&&◌, ◌||◌, leb, ltb, ◌==◌,
  if◌then◌else◌, u32_mod,
}
use zoned.Base.Text.{push, split_once, parse_uint}
use zoned.Base.Text.Decimal.{show}
use zoned.Errors.{Io, fail, return, ◌>>=◌, and_then}
use zoned.Types
use zoned.Types.{ZoneType, ZoneCondition}
use zoned.Examples.Zcli.{Cio, message}

pub data ZoneTypeArg : Type 0 where
  conventional seq_req seq_pref : ZoneTypeArg

unfoldable pub to_zone_type : ZoneTypeArg → ZoneType
to_zone_type conventional = Types.conventional
to_zone_type seq_req = Types.sequential_write_required
to_zone_type seq_pref = Types.sequential_write_preferred

pub data ZoneCondArg : Type 0 where
  not_wp empty imp_open exp_open closed read_only full offline : ZoneCondArg

unfoldable pub to_zone_condition : ZoneCondArg → ZoneCondition
to_zone_condition not_wp = Types.not_write_pointer
to_zone_condition empty = Types.empty
to_zone_condition imp_open = Types.implicitly_open
to_zone_condition exp_open = Types.explicitly_open
to_zone_condition closed = Types.closed
to_zone_condition read_only = Types.read_only
to_zone_condition full = Types.full
to_zone_condition offline = Types.offline

pub data ValidateCheck : Type 0 where
  block_device not_mounted no_partitions is_zoned : ValidateCheck

-- The value of a hexadecimal digit, of either case.
abbrev pub hex_digit : Char → Option ℕ
hex_digit c =
    if leb 48 (code c) && leb (code c) 57
    then some (code c - 48)
    else if leb 97 (code c) && leb (code c) 102
    then some (code c - 87)
    else if leb 65 (code c) && leb (code c) 70
    then some (code c - 55)
    else none

abbrev below : ℕ → ℕ → Option ℕ
below limit n = if ltb n limit then some n else none

abbrev plus_digit : ℕ → ℕ → Option ℕ → Option ℕ
plus_digit limit value none = none
plus_digit limit value (some d) = below limit (value * 16 + d)

-- The digits behind a value, as long as it stays below the limit.
unfoldable pub hex_digits : ℕ → Option ℕ → String → Option ℕ
hex_digits limit none s = none
hex_digits limit (some value) String.[] = some value
hex_digits limit (some value) (String.◌∷◌ c s) =
    hex_digits limit (plus_digit limit value (hex_digit c)) s

-- `from_str_radix` with radix 16: digits behind a plus sign or none, at least one.
unfoldable pub from_hex : ℕ → String → Option ℕ
from_hex limit String.[] = none
from_hex limit (String.◌∷◌ c String.[]) = hex_digits limit (some 0) (String.◌∷◌ c String.[])
from_hex limit (String.◌∷◌ c (String.◌∷◌ d s)) =
    if code c == 43
    then hex_digits limit (some 0) (String.◌∷◌ d s)
    else hex_digits limit (some 0) (String.◌∷◌ c (String.◌∷◌ d s))

-- `strip_prefix("0x")`, and if that fails `strip_prefix("0X")`.
abbrev pub hex_prefix : String → Option String
hex_prefix String.[] = none
hex_prefix (String.◌∷◌ c String.[]) = none
hex_prefix (String.◌∷◌ c (String.◌∷◌ d s)) =
    if code c == 48 && (code d == 120 || code d == 88) then some s else none

abbrev byte_of : String → Option String → Option ℕ
byte_of s (some hex) = from_hex 256 hex
byte_of s none = parse_uint 256 s

-- `none` is the error, whose text is left out.
pub parse_hex_byte : String → Option ℕ
parse_hex_byte s = byte_of s (hex_prefix s)

abbrev index_or_error : {W : Type 0} → String → Option ℕ → Cio W ℕ
index_or_error s none = fail (message (push "invalid zone index: " s))
index_or_error s (some idx) = return idx

abbrev parse_index : {W : Type 0} → String → Cio W ℕ
parse_index s = index_or_error s (parse_uint u32_mod s)

abbrev ordered : {W : Type 0} → ℕ → ℕ → Cio W (ℕ × ℕ)
ordered start end =
    if ltb end start
    then fail (message (push "invalid range: " (show start (push "-" (show end " (end < start)")))))
    else return (start, end)

abbrev parse_parts : {W : Type 0} → String → Option (String × String) → Cio W (ℕ × ℕ)
parse_parts s (some (a, b)) = do start ← parse_index a; end ← parse_index b; ordered start end
parse_parts s none = do idx ← parse_index s; return (idx, idx)

pub parse_zone_range : {W : Type 0} → String → Cio W (ℕ × ℕ)
parse_zone_range s = parse_parts s (split_once 45 s)
