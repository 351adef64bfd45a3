-- ===== src/Base/Text/Decimal.antt =====
-- Numbers in decimal, and their reading by `parse`.
use Prim.Native.Nat.{ℕ, zero, suc, ◌+◌, ◌-◌, ◌*◌, ◌/◌, ◌%◌, ◌<◌}
use Prim.Native.Char.{Char, code}
use Prim.Native.String.{String}
use mathlib.Core.Path.{◌≡◌, refl, sym, ap, subst, ◌∙◌}
use mathlib.Core.Bool.{Bool, true, false, not, ◌&&◌}
use mathlib.Core.Option.{some}
use mathlib.Core.Logic.{inl, inr}
use native.Mathlib.Omega.{arith}
use zoned.Base.Tests.{ltb, leb, ◌==◌, if◌then◌else◌, Bool-cases, le→leb, lt→ltb, ltb→lt}
use zoned.Base.Text.{push, is_whitespace, split_once, onto_left, parse_digits, parse_uint}
use zoned.Base.Text.Rows.{IsWord}

-- The digit of a number below 10.
abbrev pub digit : ℕ → Char
digit zero = "0"
digit (suc zero) = "1"
digit (suc (suc zero)) = "2"
digit (suc (suc (suc zero))) = "3"
digit (suc (suc (suc (suc zero)))) = "4"
digit (suc (suc (suc (suc (suc zero))))) = "5"
digit (suc (suc (suc (suc (suc (suc zero)))))) = "6"
digit (suc (suc (suc (suc (suc (suc (suc zero))))))) = "7"
digit (suc (suc (suc (suc (suc (suc (suc (suc zero)))))))) = "8"
digit (suc (suc (suc (suc (suc (suc (suc (suc (suc n))))))))) = "9"

-- The digits of a number in front of a text; a number has fewer digits than its successor says.
unfoldable pub show_onto : ℕ → ℕ → String → String
show_onto zero n t = t
show_onto (suc fuel) n t =
    let rest : String = show_onto fuel (n / 10) (String.◌∷◌ (digit (n % 10)) t) in
    if ltb n 10 then String.◌∷◌ (digit n) t else rest

abbrev pub show : ℕ → String → String
show n t = show_onto (suc n) n t

code-digit : (n : ℕ) → n < 10 → code (digit n) ≡ 48 + n
code-digit zero h = refl
code-digit (suc zero) h = refl
code-digit (suc (suc zero)) h = refl
code-digit (suc (suc (suc zero))) h = refl
code-digit (suc (suc (suc (suc zero)))) h = refl
code-digit (suc (suc (suc (suc (suc zero))))) h = refl
code-digit (suc (suc (suc (suc (suc (suc zero)))))) h = refl
code-digit (suc (suc (suc (suc (suc (suc (suc zero))))))) h = refl
code-digit (suc (suc (suc (suc (suc (suc (suc (suc zero)))))))) h = refl
code-digit (suc (suc (suc (suc (suc (suc (suc (suc (suc n))))))))) h = omega arith

parse_digits-digit :
    (limit v n : ℕ) (t : String)
    → n < 10
    → v * 10 + n < limit
    → parse_digits limit v (String.◌∷◌ (digit n) t) ≡ parse_digits limit (v * 10 + n) t
unfolding parse_digits
parse_digits-digit limit v n t h k =
    let value : 48 + n - 48 ≡ n = omega arith in
    rw (
      code-digit n h,
      value,
      le→leb 48 (48 + n) (omega arith),
      le→leb (48 + n) 57 (omega arith),
      lt→ltb (v * 10 + n) limit k,
    )

parse_digits-show_onto :
    (limit fuel n : ℕ) (t : String)
    → n < fuel
    → n < limit
    → parse_digits limit 0 (show_onto fuel n t) ≡ parse_digits limit n t
unfolding show_onto
parse_digits-show_onto limit zero n t h k = absurd (omega arith)
parse_digits-show_onto limit (suc fuel) n t h k = elim (Bool-cases (ltb n 10)) [
  | inl small ↦ rw small (
      parse_digits-digit limit 0 n t (ltb→lt n 10 small) (omega arith)
      ∙ ap (λ m. parse_digits limit m t) (omega arith))
  | inr big ↦ rw big (
      parse_digits-show_onto limit fuel (n / 10) (String.◌∷◌ (digit (n % 10)) t) (ground arith)
        (ground arith)
      ∙ parse_digits-digit limit (n / 10) (n % 10) t (ground arith) (ground arith)
      ∙ ap (λ m. parse_digits limit m t) (omega arith))
]

-- Every character of a text passes a test.
abbrev pub Each : (Char → Bool) → String → Type 0
Each p String.[] = Unit {0}
Each p (String.◌∷◌ c s) = (p c ≡ true) × Each p s

abbrev pub is_digit : Char → Bool
is_digit c = leb 48 (code c) && leb (code c) 57

is_digit-digit : (n : ℕ) → n < 10 → is_digit (digit n) ≡ true
is_digit-digit n h =
    rw (code-digit n h, le→leb 48 (48 + n) (omega arith)) (le→leb (48 + n) 57 (omega arith))

pub Each-show_onto :
    (p : Char → Bool) (fuel n : ℕ) (t : String)
    → ((c : Char) → is_digit c ≡ true → p c ≡ true)
    → Each p t
    → Each p (show_onto fuel n t)
unfolding show_onto
Each-show_onto p zero n t k h = h
Each-show_onto p (suc fuel) n t k h = elim (Bool-cases (ltb n 10)) [
  | inl small ↦ rw small (k (digit n) (is_digit-digit n (ltb→lt n 10 small)), h)
  | inr big ↦ rw big (
      Each-show_onto p fuel (n / 10) (String.◌∷◌ (digit (n % 10)) t) k
        (k (digit (n % 10)) (is_digit-digit (n % 10) (omega arith)), h))
]

-- A number begins with a digit.
pub show_onto-first :
    (fuel n : ℕ) (t : String)
    → n < fuel
    → (c : Char) × (s : String) × (is_digit c ≡ true) × (show_onto fuel n t ≡ String.◌∷◌ c s)
unfolding show_onto
show_onto-first zero n t h = absurd (omega arith)
show_onto-first (suc fuel) n t h = elim (Bool-cases (ltb n 10)) [
  | inl small ↦ (digit n, t, is_digit-digit n (ltb→lt n 10 small), rw small refl)
  | inr big ↦ rw big (show_onto-first fuel (n / 10) (String.◌∷◌ (digit (n % 10)) t) (ground arith))
]

pub show_onto-push :
    (fuel n : ℕ) (s t : String) → show_onto fuel n (push s t) ≡ push (show_onto fuel n s) t
unfolding show_onto
show_onto-push zero n s t = refl
show_onto-push (suc fuel) n s t = elim (Bool-cases (ltb n 10)) [
  | inl small ↦ rw small refl
  | inr big ↦ rw big (show_onto-push fuel (n / 10) (String.◌∷◌ (digit (n % 10)) s) t)
]

parse_uint-plain :
    (limit : ℕ) (c : Char) (s : String)
    → is_digit c ≡ true
    → parse_uint limit (String.◌∷◌ c s) ≡ parse_digits limit 0 (String.◌∷◌ c s)
unfolding parse_uint
parse_uint-plain limit c String.[] h = refl
parse_uint-plain limit c (String.◌∷◌ d s) h = rw not_plus refl
  where
    not_plus : (code c == 43) ≡ false
    not_plus = ground arith

-- A number below the limit is read back from its digits.
pub parse_uint-show : (limit n : ℕ) → n < limit → parse_uint limit (show n "") ≡ some n
unfolding parse_digits
parse_uint-show limit n h =
    let (c, s, d, e) = show_onto-first (suc n) n "" (omega arith) in
    ap (parse_uint limit) e
    ∙ parse_uint-plain limit c s d
    ∙ ap (parse_digits limit 0) (sym e)
    ∙ parse_digits-show_onto limit (suc n) n "" (omega arith) h

split_once-push :
    (s t : String) → Each is_digit s → split_once 58 (push s (push ":" t)) ≡ some (s, t)
unfolding split_once
split_once-push String.[] t h = refl
split_once-push (String.◌∷◌ c s) t h = rw not_colon (ap (onto_left c) (split_once-push s t h.1))
  where
    not_colon : (code c == 58) ≡ false
    not_colon = ground arith

-- Two numbers with a colon between them, in front of a text.
abbrev pub show_pair : ℕ → ℕ → String
show_pair a b = show a (push ":" (show b ""))

pub split_once-show_pair : (a b : ℕ) → split_once 58 (show_pair a b) ≡ some (show a "", show b "")
split_once-show_pair a b =
    ap (split_once 58) (show_onto-push (suc a) a "" (push ":" (show b "")))
    ∙ split_once-push (show a "") (show b "") (Each-show_onto is_digit (suc a) a "" (λ c h. h) tt)

abbrev is_solid : Char → Bool
is_solid c = not (is_whitespace c)

solid-IsWord : (c : Char) (s : String) → Each is_solid (String.◌∷◌ c s) → IsWord (String.◌∷◌ c s)
solid-IsWord c String.[] h = ground (arith, h.0)
solid-IsWord c (String.◌∷◌ d s) h = (ground (arith, h.0), solid-IsWord d s h.1)

digit-solid : (c : Char) → is_digit c ≡ true → is_solid c ≡ true
digit-solid c h = ground arith

pub show_pair-IsWord : (a b : ℕ) → IsWord (show_pair a b)
show_pair-IsWord a b =
    let (c, s, d, e) = show_onto-first (suc a) a (push ":" (show b "")) (omega arith) in
    subst IsWord (sym e) (
      solid-IsWord c s (
        subst (Each is_solid) e (
          Each-show_onto is_solid (suc a) a (push ":" (show b "")) digit-solid
            (refl, Each-show_onto is_solid (suc b) b "" digit-solid tt))))
