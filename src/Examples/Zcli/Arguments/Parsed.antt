-- ===== src/Examples/Zcli/Arguments/Parsed.antt =====
-- Ranges of zones as they are written, and what `parse_zone_range` of examples/zcli.rs makes of them.
use Prim.Native.Char.{code}
use zoned.Base.{
  ℕ, suc, ◌≤◌, ◌<◌, ◌≡◌, refl, ap, ◌∙◌, String, false, none, some, ◌==◌, arith, u32_mod,
  le→ltb_false, lt→ltb,
}
use zoned.Base.Text.{push, split_once, onto_left}
use zoned.Base.Text.Decimal.{show, show_onto-push, Each, is_digit, Each-show_onto, parse_uint-show}
use zoned.Errors.{ok, err}
use zoned.Examples.Zcli.{message}
use zoned.Examples.Zcli.Arguments.{parse_zone_range}

-- Two indices with a dash between them.
abbrev pub show_range : ℕ → ℕ → String
show_range a b = show a (push "-" (show b ""))

split_once-dash :
    (s t : String) → Each is_digit s → split_once 45 (push s (push "-" t)) ≡ some (s, t)
unfolding split_once
split_once-dash String.[] t h = refl
split_once-dash (String.◌∷◌ c s) t h = rw no_dash (ap (onto_left c) (split_once-dash s t h.1))
  where
    no_dash : (code c == 45) ≡ false
    no_dash = ground arith

split_once-digits : (s : String) → Each is_digit s → split_once 45 s ≡ none
unfolding split_once
split_once-digits String.[] h = refl
split_once-digits (String.◌∷◌ c s) h = rw no_dash (ap (onto_left c) (split_once-digits s h.1))
  where
    no_dash : (code c == 45) ≡ false
    no_dash = ground arith

show-digits : (a : ℕ) → Each is_digit (show a "")
show-digits a = Each-show_onto is_digit (suc a) a "" (λ c h. h) tt

split_once-show_range : (a b : ℕ) → split_once 45 (show_range a b) ≡ some (show a "", show b "")
split_once-show_range a b =
    ap (split_once 45) (show_onto-push (suc a) a "" (push "-" (show b "")))
    ∙ split_once-dash (show a "") (show b "") (show-digits a)

-- Two indices of 32 bits with a dash between them are read as the range, or refused if the second is
-- below the first; a single index is the range of that zone.
pub parse_zone_range-show :
    {W : Type 0} (a b : ℕ) (w : W)
    → a < u32_mod
    → b < u32_mod
    → (a ≤ b → parse_zone_range (show_range a b) w ≡ (ok (a, b), w))
      × (b < a → (m : String) × (parse_zone_range (show_range a b) w ≡ (err (message m), w)))
      × (parse_zone_range (show a "") w ≡ (ok (a, a), w))
unfolding parse_zone_range
parse_zone_range-show a b w h k = (
  (λ le.
      rw
        (
          split_once-show_range a b,
          parse_uint-show u32_mod a h,
          parse_uint-show u32_mod b k,
          le→ltb_false b a le,
        )
        refl),
  (λ lt. (
    push "invalid range: " (show a (push "-" (show b " (end < start)"))),
    rw
        (
          split_once-show_range a b,
          parse_uint-show u32_mod a h,
          parse_uint-show u32_mod b k,
          lt→ltb b a lt,
        )
        refl,
  )),
  rw (split_once-digits (show a "") (show-digits a), parse_uint-show u32_mod a h) refl,
)
