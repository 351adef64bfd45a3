-- ===== src/Examples/Zcli/HexDump.antt =====
-- `hex_dump` of examples/zcli.rs. A line is the numbers of its characters.
pub mod Undump
use zoned.Base.{
  ℕ, zero, suc, ◌+◌, ◌-◌, ◌*◌, ◌/◌, ◌%◌, ◌^◌, Bool, List, [], ◌∷◌, ◌++◌, ltb, leb, ◌==◌, ◌&&◌,
  if◌then◌else◌, take, drop, length, replicate,
}

-- A hexadecimal digit in lower case.
abbrev pub hex_code : ℕ → ℕ
hex_code n = if ltb n 10 then 48 + n else 87 + n

-- The last `width` digits of a number in front of a text.
unfoldable pub hex_fixed : ℕ → ℕ → List ℕ → List ℕ
hex_fixed zero n t = t
hex_fixed (suc width) n t = hex_fixed width (n / 16) (hex_code (n % 16) ∷ t)

hex_long : ℕ → ℕ → List ℕ → List ℕ
hex_long zero n t = t
hex_long (suc fuel) n t =
    let rest : List ℕ = hex_long fuel (n / 16) (hex_code (n % 16) ∷ t) in
    if ltb n 16 then hex_code n ∷ t else rest

-- `{:08x}`: eight digits, or more if the number needs them. It has fewer than its successor says.
unfoldable pub address : ℕ → List ℕ → List ℕ
unfolding hex_long
address n t = if ltb n (16 ^ 8) then hex_fixed 8 n t else hex_long (suc n) n t

-- The space in the middle of the sixteen columns.
abbrev pub gap : ℕ → List ℕ → List ℕ
gap j t = if j == 8 then 32 ∷ t else t

-- The columns of the bytes, from column `j` on, in front of a text.
unfoldable pub byte_columns : ℕ → List ℕ → List ℕ → List ℕ
byte_columns j [] t = t
byte_columns j (byte ∷ bytes) t =
    gap j (hex_code (byte / 16) ∷ (hex_code (byte % 16) ∷ (32 ∷ byte_columns (suc j) bytes t)))

-- `count` empty columns from column `j` on.
unfoldable pub blank_columns : ℕ → ℕ → List ℕ → List ℕ
blank_columns zero j t = t
blank_columns (suc count) j t = gap j (32 ∷ (32 ∷ (32 ∷ blank_columns count (suc j) t)))

-- A byte as it stands if it is a printable character of ASCII, and otherwise a dot.
abbrev pub printable : ℕ → ℕ
printable byte = if leb 32 byte && leb byte 126 then byte else 46

unfoldable pub characters : List ℕ → List ℕ
characters [] = 124 ∷ []
characters (byte ∷ bytes) = printable byte ∷ characters bytes

unfoldable pub dump_line : ℕ → List ℕ → List ℕ
dump_line i chunk =
    32
    ∷ (32
        ∷ address (i * 16) (
            32
            ∷ (32
                ∷ byte_columns 0 chunk (
                    blank_columns (16 - length chunk) (length chunk)
                      (32 ∷ (124 ∷ characters chunk))))))

-- The `for` over the chunks, from chunk `i` on; each has a byte, so that the length is fuel enough.
unfoldable pub dump_from : ℕ → ℕ → List ℕ → List (List ℕ)
dump_from fuel i [] = []
dump_from zero i (byte ∷ bytes) = []
dump_from (suc fuel) i (byte ∷ bytes) =
    dump_line i (take 16 (byte ∷ bytes)) ∷ dump_from fuel (suc i) (drop 16 (byte ∷ bytes))

unfoldable pub hex_dump : List ℕ → List (List ℕ)
hex_dump bytes = dump_from (length bytes) 0 bytes
