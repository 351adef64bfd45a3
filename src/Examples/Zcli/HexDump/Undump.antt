-- ===== src/Examples/Zcli/HexDump/Undump.antt =====
-- What `hex_dump` of examples/zcli.rs prints can be read back.
use zoned.Base.{
  ℕ, zero, suc, ◌+◌, ◌-◌, ◌*◌, ◌/◌, ◌%◌, ◌^◌, ◌≤◌, ◌<◌, ◌≡◌, refl, sym, ap, ◌∙◌, List, [], ◌∷◌,
  ◌++◌, leb, ◌==◌, if◌then◌else◌, take, drop, length, min, arith, Bool-cases, inl, inr, length-take,
  length-drop, take-append-drop, lt→ltb,
}
use zoned.Examples.Zcli.HexDump.{
  hex_code, hex_fixed, address, gap, byte_columns, dump_line, dump_from, hex_dump,
}

-- The number that a digit stands for.
abbrev pub digit_value : ℕ → ℕ
digit_value c = if leb c 57 then c - 48 else c - 87

abbrev skip_gap : ℕ → List ℕ → List ℕ
skip_gap j line = if j == 8 then drop 1 line else line

abbrev pub pair_value : List ℕ → ℕ
pair_value (high ∷ (low ∷ _)) = digit_value high * 16 + digit_value low
pair_value _ = 0

-- The bytes of `count` columns from column `j` on: two digits and a space each.
unfoldable pub read_columns : ℕ → ℕ → List ℕ → List ℕ
read_columns zero j line = []
read_columns (suc count) j line =
    pair_value (skip_gap j line) ∷ read_columns count (suc j) (drop 3 (skip_gap j line))

-- The bytes of a dump of `count` bytes, sixteen from each line behind its address of eight digits.
unfoldable pub undump : ℕ → List (List ℕ) → List ℕ
undump count [] = []
undump count (line ∷ lines) =
    read_columns (min 16 count) 0 (drop 12 line) ++ undump (count - 16) lines

abbrev pub Bytes : List ℕ → Type 0
Bytes [] = Unit {0}
Bytes (b ∷ bs) = (b < 256) × Bytes bs

digit_value-hex_code : (n : ℕ) → n < 16 → digit_value (hex_code n) ≡ n
digit_value-hex_code n h = ground arith

skip_gap-gap : (j : ℕ) (t : List ℕ) → skip_gap j (gap j t) ≡ t
skip_gap-gap j t = elim (Bool-cases (j == 8)) [ inl at ↦ rw at refl | inr not_at ↦ rw not_at refl ]

read_columns-byte_columns :
    (j : ℕ) (bytes t : List ℕ)
    → Bytes bytes
    → read_columns (length bytes) j (byte_columns j bytes t) ≡ bytes
unfolding read_columns byte_columns
read_columns-byte_columns j [] t h = refl
read_columns-byte_columns j (b ∷ bs) t h =
    rw
      (
        skip_gap-gap j (hex_code (b / 16) ∷ (hex_code (b % 16) ∷ (32 ∷ byte_columns (suc j) bs t))),
        digit_value-hex_code (b / 16) (omega (arith, h.0)),
        digit_value-hex_code (b % 16) (omega arith),
        read_columns-byte_columns (suc j) bs t h.1,
      )
      (ap (λ (x : ℕ). x ∷ bs) (omega arith))

Bytes-take : (n : ℕ) (bytes : List ℕ) → Bytes bytes → Bytes (take n bytes)
Bytes-take zero bytes h = tt
Bytes-take (suc n) [] h = tt
Bytes-take (suc n) (b ∷ bs) h = (h.0, Bytes-take n bs h.1)

Bytes-drop : (n : ℕ) (bytes : List ℕ) → Bytes bytes → Bytes (drop n bytes)
Bytes-drop zero bytes h = h
Bytes-drop (suc n) [] h = tt
Bytes-drop (suc n) (b ∷ bs) h = Bytes-drop n bs h.1

drop-dump_line :
    (i : ℕ) (chunk : List ℕ)
    → i * 16 < 16 ^ 8
    → Bytes chunk
    → read_columns (length chunk) 0 (drop 12 (dump_line i chunk)) ≡ chunk
unfolding dump_line address hex_fixed
drop-dump_line i chunk h b = rw (lt→ltb (i * 16) (16 ^ 8) h) (read_columns-byte_columns 0 chunk _ b)

undump-dump_from :
    (fuel i : ℕ) (bytes : List ℕ)
    → length bytes ≤ fuel
    → i * 16 + length bytes ≤ 16 ^ 8
    → Bytes bytes
    → undump (length bytes) (dump_from fuel i bytes) ≡ bytes
unfolding undump dump_from
undump-dump_from fuel i [] enough fits h = refl
undump-dump_from zero i (b ∷ bs) enough fits h = absurd (omega arith)
undump-dump_from (suc fuel) i (b ∷ bs) enough fits h =
    let taken : length (take 16 (b ∷ bs)) ≡ min 16 (length (b ∷ bs)) = length-take 16 (b ∷ bs) in
    let dropped : length (drop 16 (b ∷ bs)) ≡ length (b ∷ bs) - 16 = length-drop 16 (b ∷ bs) in
    ap
      (λ k.
        read_columns k 0 (drop 12 (dump_line i (take 16 (b ∷ bs))))
        ++ undump (length (b ∷ bs) - 16) (dump_from fuel (suc i) (drop 16 (b ∷ bs))))
      (sym taken)
    ∙ ap
        (λ k.
          read_columns (length (take 16 (b ∷ bs))) 0 (drop 12 (dump_line i (take 16 (b ∷ bs))))
          ++ undump k (dump_from fuel (suc i) (drop 16 (b ∷ bs))))
        (sym dropped)
    ∙ rw
        (
          drop-dump_line i (take 16 (b ∷ bs)) (omega arith) (Bytes-take 16 (b ∷ bs) h),
          undump-dump_from fuel (suc i) (drop 16 (b ∷ bs)) (omega arith) (omega arith)
              (Bytes-drop 16 (b ∷ bs) h),
        )
        (take-append-drop 16 (b ∷ bs))

-- A dump of at most 2^32 bytes is read back from its lines: sixteen bytes from each line, from the two
-- digits of each column, behind an address of eight digits.
pub undump-hex_dump :
    (bytes : List ℕ)
    → length bytes ≤ 16 ^ 8
    → Bytes bytes
    → undump (length bytes) (hex_dump bytes) ≡ bytes
unfolding hex_dump
undump-hex_dump bytes fits h = undump-dump_from (length bytes) 0 bytes (omega arith) (omega arith) h
