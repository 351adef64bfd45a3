-- ===== src/Base/Text/Order.antt =====
-- Texts in their order, the sorting of texts, and prefixes.
use Prim.Native.Nat.{ℕ}
use Prim.Native.Char.{code}
use Prim.Native.String.{String}
use mathlib.Core.Path.{◌≡◌, refl}
use mathlib.Core.Bool.{Bool, true, false}
use mathlib.Core.Logic.{inl, inr}
use mathlib.Core.Option.{Option, none, some}
use mathlib.Core.List.{List, [], ◌∷◌, Perm}
use mathlib.Core.List.Perm
use native.Mathlib.Omega.{arith}
use zoned.Base.Tests.{ltb, ◌==◌, if◌then◌else◌, Bool-cases}
use zoned.Base.Text.{push}

-- `<=` on `str`: by the numbers of the characters, which order their UTF-8 alike.
abbrev pub text_leb : String → String → Bool
text_leb String.[] t = true
text_leb (String.◌∷◌ c s) String.[] = false
text_leb (String.◌∷◌ c s) (String.◌∷◌ d t) =
    let rest : Bool = text_leb s t in
    if ltb (code c) (code d) then true else if code c == code d then rest else false

pub text_leb_total : (s t : String) → text_leb s t ≡ false → text_leb t s ≡ true
text_leb_total String.[] t h = cc
text_leb_total (String.◌∷◌ c s) String.[] h = refl
text_leb_total (String.◌∷◌ c s) (String.◌∷◌ d t) h = ground (arith, text_leb_total s t)

place : String → List String → List String
place s [] = s ∷ []
place s (t ∷ ts) =
    let rest : List String = place s ts in if text_leb s t then s ∷ t ∷ ts else t ∷ rest

-- `sort`.
pub sort : List String → List String
unfolding place
sort [] = []
sort (s ∷ ss) = place s (sort ss)

-- The bound is before the first text, and each text before the next.
abbrev Before : String → List String → Type 0
Before b [] = Unit {0}
Before b (s ∷ ss) = (text_leb b s ≡ true) × Before s ss

abbrev pub Sorted : List String → Type 0
Sorted [] = Unit {0}
Sorted (s ∷ ss) = Before s ss

place-Before :
    (b s : String) (ss : List String) → text_leb b s ≡ true → Before b ss → Before b (place s ss)
unfolding place
place-Before b s [] h k = (h, tt)
place-Before b s (t ∷ ts) h k = elim (Bool-cases (text_leb s t)) [
  | inl le ↦ rw le (h, (le, k.1))
  | inr gt ↦ rw gt (k.0, place-Before t s ts (text_leb_total s t gt) k.1)
]

place-Sorted : (s : String) (ss : List String) → Sorted ss → Sorted (place s ss)
unfolding place
place-Sorted s [] h = tt
place-Sorted s (t ∷ ts) h = elim (Bool-cases (text_leb s t)) [
  | inl le ↦ rw le (le, h)
  | inr gt ↦ rw gt (place-Before t s ts (text_leb_total s t gt) h)
]

pub sort-Sorted : (ss : List String) → Sorted (sort ss)
unfolding sort
sort-Sorted [] = tt
sort-Sorted (s ∷ ss) = place-Sorted s (sort ss) (sort-Sorted ss)

place-Perm : (s : String) (ss : List String) → Perm (place s ss) (s ∷ ss)
unfolding place
place-Perm s [] = Perm.refl (s ∷ [])
place-Perm s (t ∷ ts) = elim (Bool-cases (text_leb s t)) [
  | inl le ↦ rw le (Perm.refl (s ∷ t ∷ ts))
  | inr gt ↦ rw gt (Perm.trans (Perm.cons t (place-Perm s ts)) (Perm.swap s t ts))
]

pub sort-Perm : (ss : List String) → Perm (sort ss) ss
unfolding sort
sort-Perm [] = Perm.refl []
sort-Perm (s ∷ ss) = Perm.trans (place-Perm s (sort ss)) (Perm.cons s (sort-Perm ss))

-- `strip_prefix`, with the prefix first.
unfoldable pub strip_prefix : String → String → Option String
strip_prefix String.[] t = some t
strip_prefix (String.◌∷◌ c s) String.[] = none
strip_prefix (String.◌∷◌ c s) (String.◌∷◌ d t) =
    let rest : Option String = strip_prefix s t in if code c == code d then rest else none

abbrev is_given : Option String → Bool
is_given none = false
is_given (some s) = true

-- `starts_with`, with the prefix first.
abbrev pub starts_with : String → String → Bool
starts_with s t = is_given (strip_prefix s t)

same_code : (c : ℕ) → (c == c) ≡ true
same_code c = ground arith

pub strip_prefix-push : (s t : String) → strip_prefix s (push s t) ≡ some t
unfolding strip_prefix
strip_prefix-push String.[] t = refl
strip_prefix-push (String.◌∷◌ c s) t = rw (same_code (code c)) (strip_prefix-push s t)
