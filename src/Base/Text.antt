-- ===== src/Base/Text.antt =====
-- Texts, and the functions of Rust's `str` that the crate calls, by the numbers of the characters.
pub mod Rows
pub mod Edit
pub mod Order
pub mod Decimal
use Prim.Native.Nat.{ℕ, zero, suc, ◌+◌, ◌-◌, ◌*◌}
use Prim.Native.Char.{Char, code}
use Prim.Native.String.{String}
use mathlib.Core.Bool.{Bool, true, false, not, ◌&&◌, ◌||◌}
use mathlib.Core.Option.{Option, none, some}
use mathlib.Core.List.{List, [], ◌∷◌}
use zoned.Base.Tests.{ltb, leb, ◌==◌, if◌then◌else◌}

-- A text in front of another.
abbrev pub push : String → String → String
push String.[] t = t
push (String.◌∷◌ c s) t = String.◌∷◌ c (push s t)

-- `char::is_whitespace`.
abbrev pub is_whitespace : Char → Bool
is_whitespace c =
    (leb 9 (code c) && leb (code c) 13)
    || (code c == 32
        || (code c == 133
            || (code c == 160
                || (code c == 5760
                    || ((leb 8192 (code c) && leb (code c) 8202)
                        || (code c == 8232
                            || (code c == 8233
                                || (code c == 8239 || (code c == 8287 || code c == 12288)))))))))

-- A character in front of the first of some texts.
abbrev pub onto_first : Char → List String → List String
onto_first c [] = String.◌∷◌ c String.[] ∷ []
onto_first c (s ∷ ss) = String.◌∷◌ c s ∷ ss

abbrev pub starts_word : String → Bool
starts_word String.[] = false
starts_word (String.◌∷◌ c s) = not (is_whitespace c)

-- `split_whitespace`.
unfoldable pub words : String → List String
words String.[] = []
words (String.◌∷◌ c s) =
    let rest : List String = words s in
    if is_whitespace c
    then rest
    else if starts_word s
    then onto_first c rest
    else String.◌∷◌ c String.[] ∷ rest

abbrev pub starts_newline : String → Bool
starts_newline String.[] = false
starts_newline (String.◌∷◌ c s) = code c == 10

-- `lines`: a line ends with a newline, or a carriage return and a newline.
unfoldable pub lines : String → List String
lines String.[] = []
lines (String.◌∷◌ c s) =
    let rest : List String = lines s in
    if code c == 10
    then String.[] ∷ rest
    else if code c == 13 && starts_newline s
    then rest
    else onto_first c rest

abbrev pub onto_left : Char → Option (String × String) → Option (String × String)
onto_left c none = none
onto_left c (some (a, b)) = some (String.◌∷◌ c a, b)

-- `split_once` on a character.
unfoldable pub split_once : ℕ → String → Option (String × String)
split_once n String.[] = none
split_once n (String.◌∷◌ c s) =
    let rest : Option (String × String) = split_once n s in
    if code c == n then some (String.[], s) else onto_left c rest

-- The digits of a number below `limit`, behind digits that make `value`.
unfoldable pub parse_digits : ℕ → ℕ → String → Option ℕ
parse_digits limit value String.[] = some value
parse_digits limit value (String.◌∷◌ c s) =
    let value' : ℕ = value * 10 + (code c - 48) in
    let rest : Option ℕ = parse_digits limit value' s in
    if leb 48 (code c) && (leb (code c) 57 && ltb value' limit) then rest else none

-- `parse` into an unsigned integer below `limit`: digits behind a plus sign or none, at least one.
unfoldable pub parse_uint : ℕ → String → Option ℕ
parse_uint limit String.[] = none
parse_uint limit (String.◌∷◌ c String.[]) = parse_digits limit 0 (String.◌∷◌ c String.[])
parse_uint limit (String.◌∷◌ c (String.◌∷◌ d s)) =
    if code c == 43
    then parse_digits limit 0 (String.◌∷◌ d s)
    else parse_digits limit 0 (String.◌∷◌ c (String.◌∷◌ d s))
