-- ===== src/Base/Text/Rows.antt =====
-- A text of rows of words: what `lines` and `split_whitespace` make of it.
use Prim.Native.Char.{Char, code}
use Prim.Native.String.{String}
use mathlib.Core.Path.{◌≡◌, refl, sym, ap, ◌∙◌}
use mathlib.Core.Bool.{true, false, not}
use mathlib.Core.List.{List, [], ◌∷◌, map}
use native.Mathlib.Omega.{arith}
use zoned.Base.Tests.{◌==◌}
use zoned.Base.Text.{push, is_whitespace, onto_first, starts_word, words, lines}

-- A word has a character and no whitespace.
abbrev pub IsWord : String → Type 0
IsWord String.[] = ⊥
IsWord (String.◌∷◌ c String.[]) = is_whitespace c ≡ false
IsWord (String.◌∷◌ c (String.◌∷◌ d s)) = (is_whitespace c ≡ false) × IsWord (String.◌∷◌ d s)

abbrev pub AllWords : List String → Type 0
AllWords [] = Unit {0}
AllWords (w ∷ ws) = IsWord w × AllWords ws

-- Words with a space between them, and rows with a newline behind each.
abbrev pub unwords : List String → String
unwords [] = ""
unwords (w ∷ []) = w
unwords (w ∷ (v ∷ ws)) = push w (push " " (unwords (v ∷ ws)))

abbrev pub unlines : List String → String
unlines [] = ""
unlines (l ∷ ls) = push l (push "\n" (unlines ls))

IsWord-starts : (w t : String) → IsWord w → starts_word (push w t) ≡ true
IsWord-starts String.[] t h = elim h [ ]
IsWord-starts (String.◌∷◌ c String.[]) t h = ap not h
IsWord-starts (String.◌∷◌ c (String.◌∷◌ d s)) t h = ap not h.0

words-inside :
    (c : Char) (s : String)
    → is_whitespace c ≡ false
    → starts_word s ≡ true
    → words (String.◌∷◌ c s) ≡ onto_first c (words s)
unfolding words
words-inside c s h k = rw (h, k) refl

words-end :
    (c : Char) (s : String)
    → is_whitespace c ≡ false
    → starts_word s ≡ false
    → words (String.◌∷◌ c s) ≡ String.◌∷◌ c "" ∷ words s
unfolding words
words-end c s h k = rw (h, k) refl

words-push : (w t : String) → IsWord w → starts_word t ≡ false → words (push w t) ≡ w ∷ words t
words-push String.[] t h k = elim h [ ]
words-push (String.◌∷◌ c String.[]) t h k = words-end c t h k
words-push (String.◌∷◌ c (String.◌∷◌ d s)) t h k =
    words-inside c (push (String.◌∷◌ d s) t) h.0 (IsWord-starts (String.◌∷◌ d s) t h.1)
    ∙ ap (onto_first c) (words-push (String.◌∷◌ d s) t h.1 k)

push-nil : (s : String) → push s "" ≡ s
push-nil String.[] = refl
push-nil (String.◌∷◌ c s) = ap (String.◌∷◌ c) (push-nil s)

-- The words of a row of words are those words.
pub words-unwords : (ws : List String) → AllWords ws → words (unwords ws) ≡ ws
unfolding words
words-unwords [] h = refl
words-unwords (w ∷ []) h = ap words (sym (push-nil w)) ∙ words-push w "" h.0 refl
words-unwords (w ∷ (v ∷ ws)) h =
    words-push w (push " " (unwords (v ∷ ws))) h.0 refl ∙ ap (◌∷◌ w) (words-unwords (v ∷ ws) h.1)

-- A text without a character that can end a line.
abbrev pub NoBreak : String → Type 0
NoBreak String.[] = Unit {0}
NoBreak (String.◌∷◌ c s) = ((code c == 10) ≡ false) × ((code c == 13) ≡ false) × NoBreak s

lines-push : (l t : String) → NoBreak l → lines (push l (push "\n" t)) ≡ l ∷ lines t
unfolding lines
lines-push String.[] t h = refl
lines-push (String.◌∷◌ c s) t h = rw (h.0, h.1) (ap (onto_first c) (lines-push s t h.2))

NoBreak-push : (s t : String) → NoBreak s → NoBreak t → NoBreak (push s t)
NoBreak-push String.[] t h k = k
NoBreak-push (String.◌∷◌ c s) t h k = (h.0, h.1, NoBreak-push s t h.2 k)

not-break :
    (c : Char) → is_whitespace c ≡ false → ((code c == 10) ≡ false) × ((code c == 13) ≡ false)
not-break c h = ground arith

IsWord-NoBreak : (w : String) → IsWord w → NoBreak w
IsWord-NoBreak String.[] h = elim h [ ]
IsWord-NoBreak (String.◌∷◌ c String.[]) h = ((not-break c h).0, (not-break c h).1, tt)
IsWord-NoBreak (String.◌∷◌ c (String.◌∷◌ d s)) h =
    ((not-break c h.0).0, (not-break c h.0).1, IsWord-NoBreak (String.◌∷◌ d s) h.1)

unwords-NoBreak : (ws : List String) → AllWords ws → NoBreak (unwords ws)
unwords-NoBreak [] h = tt
unwords-NoBreak (w ∷ []) h = IsWord-NoBreak w h.0
unwords-NoBreak (w ∷ (v ∷ ws)) h =
    NoBreak-push w (push " " (unwords (v ∷ ws))) (IsWord-NoBreak w h.0)
      (refl, refl, unwords-NoBreak (v ∷ ws) h.1)

abbrev pub AllRows : List (List String) → Type 0
AllRows [] = Unit {0}
AllRows (r ∷ rs) = AllWords r × AllRows rs

-- The lines of a text of rows are the rows.
pub lines-unlines :
    (rows : List (List String))
    → AllRows rows
    → lines (unlines (map unwords rows)) ≡ map unwords rows
unfolding lines
lines-unlines [] h = refl
lines-unlines (r ∷ rs) h =
    lines-push (unwords r) (unlines (map unwords rs)) (unwords-NoBreak r h.0)
    ∙ ap (◌∷◌ (unwords r)) (lines-unlines rs h.1)
