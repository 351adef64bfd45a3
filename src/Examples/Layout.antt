-- ===== src/Examples/Layout.antt =====
-- The bytes of a stored file, header, content and padding, and what the programs take out of them.
use zoned.Base.{
  ℕ, ◌+◌, ◌-◌, ◌%◌, ◌≤◌, ◌<◌, ◌≡◌, refl, sym, ap, false, [], ◌∙◌, List, ◌++◌, arith, ltb,
  le→ltb_false, add_u64, ◌==◌, inl, inr, Bool-cases, append_assoc, append-nil, ==_iff, ==_false→lt,
  length, take, drop, replicate, length-append, length-replicate, take-append_length, take-take,
  u64_mod,
}
use zoned.Base.Bytes.{to_le, from_le, length-to_le, from_le-to_le, take-field, drop-field}
use zoned.Types.{sector_size}
use zoned.Examples.{header_size, write_align, padded, payload_of, round_up, slice}
use zoned.Errors.{ok}

-- A padded payload: the bytes behind it, and their number.
padding :
    (xs : List ℕ)
    → (ys : List ℕ) × (padded xs ≡ xs ++ ys)
      × (length ys ≡ (write_align - length xs % write_align) % write_align)
padding xs = elim (Bool-cases ((length xs % write_align) == 0)) [
  | inl whole ↦ ([], rw whole (sym (append-nil xs)), omega (arith, (==_iff _ _).0 whole))
  | inr more ↦ (
    replicate (write_align - length xs % write_align) 0,
    rw more refl,
    omega (
      arith,
      length-replicate {A = ℕ} (write_align - length xs % write_align) 0,
      ==_false→lt (length xs % write_align) more,
    ),
  )
]

module _ (content : List ℕ) where
  pub length-payload_of : length (payload_of content) ≡ header_size + length content
  length-payload_of = omega (
    arith,
    length-append (to_le header_size (length content)) content,
    length-to_le header_size (length content),
  )

  length-padded :
      length (padded (payload_of content))
      ≡ header_size
        + length content
        + (write_align - (header_size + length content) % write_align) % write_align
  length-padded =
      let (ys, e, l) = padding (payload_of content) in
      omega (
        arith,
        ap (λ (xs : List ℕ). length xs) e,
        length-append (payload_of content) ys,
        l,
        length-payload_of,
        ap (λ n. (write_align - n % write_align) % write_align) length-payload_of,
      )

  pub padded-round_up :
      header_size + length content + write_align < u64_mod
      → length (padded (payload_of content)) ≡ round_up (add_u64 header_size (length content))
  padded-round_up fits = omega (arith, length-padded)

  pub padded-whole :
      (length (padded (payload_of content)) % sector_size ≡ 0)
      × (write_align ≤ length (padded (payload_of content)))
  padded-whole = (omega (arith, length-padded), omega (arith, length-padded))

  -- The header and the content stand at the front of the padded payload.
  pub padded-front :
      (rest : List ℕ) × (padded (payload_of content)
        ≡ to_le header_size (length content) ++ (content ++ rest))
  padded-front =
      let (ys, e, l) = padding (payload_of content) in
      (ys, e ∙ append_assoc (to_le header_size (length content)) content ys)

  pub header-length :
      length content < u64_mod
      → from_le (take header_size (take write_align (padded (payload_of content)))) ≡ length content
  header-length fits =
      let (rest, e) = padded-front in
      ap from_le (
        take-take header_size write_align (padded (payload_of content)) (omega arith)
        ∙ ap (take header_size) e
        ∙ take-field header_size (length content) (content ++ rest))
      ∙ from_le-to_le header_size (length content) (omega (arith, fits))

  pub content-stored :
      take (length content) (drop header_size (padded (payload_of content))) ≡ content
  content-stored =
      let (rest, e) = padded-front in
      ap (λ xs. take (length content) (drop header_size xs)) e
      ∙ ap (take (length content)) (drop-field header_size (length content) (content ++ rest))
      ∙ take-append_length content rest

  pub slice-content :
      {W E : Type 0} (w : W)
      → header_size + length content + write_align < u64_mod
      → slice {E = E} header_size
          (add_u64 header_size (length content))
          (padded (payload_of content))
          w
        ≡ (ok content, w)
  slice-content w fits =
      let end : add_u64 header_size (length content) ≡ header_size + length content =
        omega (arith, fits) in
      let front : ltb (header_size + length content) header_size ≡ false =
        le→ltb_false _ _ (omega arith) in
      let within : ltb (length (padded (payload_of content))) (header_size + length content)
          ≡ false =
        le→ltb_false _ _ (omega (arith, length-padded)) in
      let count : header_size + length content - header_size ≡ length content = omega arith in
      rw (end, front, within, count, content-stored) refl
