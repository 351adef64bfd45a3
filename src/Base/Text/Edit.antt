-- ===== src/Base/Text/Edit.antt =====
-- More of Rust's `str`: trimming, comparing, finding a character and cutting a text. Positions count
-- characters, where Rust's count bytes: they order and cut a text alike.
use Prim.Native.Nat.{ℕ, zero, suc, ◌+◌}
use Prim.Native.Char.{Char, code}
use Prim.Native.String.{String}
use mathlib.Core.Path.{◌≡◌, refl, ap}
use mathlib.Core.Bool.{Bool, true, false, ◌&&◌}
use native.Mathlib.Omega.{arith}
use mathlib.Core.Option.{Option, none, some}
use zoned.Base.Tests.{◌==◌, if◌then◌else◌}
use mathlib.Core.List.{List, [], ◌∷◌}
use zoned.Base.Text.{push, is_whitespace, onto_first}

abbrev is_blank : String → Bool
is_blank String.[] = true
is_blank (String.◌∷◌ c s) = false

abbrev pub trim_end : String → String
trim_end String.[] = String.[]
trim_end (String.◌∷◌ c s) =
    let rest : String = trim_end s in
    if is_blank rest && is_whitespace c then String.[] else String.◌∷◌ c rest

abbrev pub trim_start : String → String
trim_start String.[] = String.[]
trim_start (String.◌∷◌ c s) =
    let rest : String = trim_start s in if is_whitespace c then rest else String.◌∷◌ c s

abbrev pub trim : String → String
trim s = trim_end (trim_start s)

abbrev pub text_eq : String → String → Bool
text_eq String.[] String.[] = true
text_eq String.[] (String.◌∷◌ d t) = false
text_eq (String.◌∷◌ c s) String.[] = false
text_eq (String.◌∷◌ c s) (String.◌∷◌ d t) = code c == code d && text_eq s t

abbrev pub size : String → ℕ
size String.[] = 0
size (String.◌∷◌ c s) = suc (size s)

abbrev next_position : Option ℕ → Option ℕ
next_position none = none
next_position (some i) = some (suc i)

-- `find` of a character.
unfoldable pub find_char : ℕ → String → Option ℕ
find_char n String.[] = none
find_char n (String.◌∷◌ c s) =
    let rest : Option ℕ = find_char n s in if code c == n then some 0 else next_position rest

abbrev pub take_text : ℕ → String → String
take_text zero s = String.[]
take_text (suc n) String.[] = String.[]
take_text (suc n) (String.◌∷◌ c s) = String.◌∷◌ c (take_text n s)

abbrev pub drop_text : ℕ → String → String
drop_text zero s = s
drop_text (suc n) String.[] = String.[]
drop_text (suc n) (String.◌∷◌ c s) = drop_text n s

-- No character of a text has the number.
abbrev pub Lacks : ℕ → String → Type 0
Lacks n String.[] = Unit {0}
Lacks n (String.◌∷◌ c s) = ((code c == n) ≡ false) × Lacks n s

pub find_char-push :
    (n : ℕ) (s : String) (c : Char) (t : String)
    → Lacks n s
    → (code c == n) ≡ true
    → find_char n (push s (String.◌∷◌ c t)) ≡ some (size s)
unfolding find_char
find_char-push n String.[] c t h k = rw k refl
find_char-push n (String.◌∷◌ d s) c t h k = rw h.0 (ap next_position (find_char-push n s c t h.1 k))

pub drop_text-push : (s t : String) → drop_text (size s) (push s t) ≡ t
drop_text-push String.[] t = refl
drop_text-push (String.◌∷◌ c s) t = drop_text-push s t

pub take_text-push : (s t : String) → take_text (size s) (push s t) ≡ s
take_text-push String.[] t = refl
take_text-push (String.◌∷◌ c s) t = ap (String.◌∷◌ c) (take_text-push s t)

pub push_assoc : (s t u : String) → push (push s t) u ≡ push s (push t u)
push_assoc String.[] t u = refl
push_assoc (String.◌∷◌ c s) t u = ap (String.◌∷◌ c) (push_assoc s t u)

pub Lacks-push : (n : ℕ) (s t : String) → Lacks n s → Lacks n t → Lacks n (push s t)
Lacks-push n String.[] t h k = k
Lacks-push n (String.◌∷◌ c s) t h k = (h.0, Lacks-push n s t h.1 k)

pub size-push : (s t : String) → size (push s t) ≡ size s + size t
size-push String.[] t = omega arith
size-push (String.◌∷◌ c s) t = omega (arith, size-push s t)

-- The parts of a path, without its empty ones and those that are a dot.
segments : String → List String
segments String.[] = String.[] ∷ []
segments (String.◌∷◌ c s) =
    let rest : List String = segments s in
    if code c == 47 then String.[] ∷ rest else onto_first c rest

last_component : Option String → List String → Option String
last_component found [] = found
last_component found (s ∷ ss) =
    let skipped : Option String = last_component found ss in
    let kept : Option String = last_component (some s) ss in
    if is_blank s then skipped else if text_eq s "." then skipped else kept

not_parent : Option String → Option String
not_parent none = none
not_parent (some s) = if text_eq s ".." then none else some s

-- `Path::file_name`.
unfoldable pub file_name : String → Option String
unfolding segments last_component not_parent
file_name path = not_parent (last_component none (segments path))
