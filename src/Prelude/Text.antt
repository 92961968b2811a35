-- ===== src/Prelude/Text.antt =====
-- Python's `str.strip` and the tests that the validators make on a text.
use Prim.Native.Nat.{ℕ}
use Prim.Native.Char.{Char, code}
use Prim.Native.String.{String}
use mathlib.Core.Bool.{Bool, true, false, ◌||◌, ◌&&◌}
use mathlib.Core.List.{List, [], ◌∷◌, reverse}
use guide_os.Prelude.Tests.{eqb, leb, ltb, if◌then◌else◌}

abbrev pub chars : String → List Char
chars String.[] = []
chars (String.◌∷◌ c s) = c ∷ chars s

abbrev pub of_chars : List Char → String
of_chars [] = String.[]
of_chars (c ∷ s) = String.◌∷◌ c (of_chars s)

-- `str.isspace` of one character, over all of Unicode.
is_space : ℕ → Bool
is_space n =
    (leb 9 n && leb n 13)
    || (leb 28 n && leb n 32)
    || eqb n 133
    || eqb n 160
    || eqb n 5760
    || (leb 8192 n && leb n 8202)
    || eqb n 8232
    || eqb n 8233
    || eqb n 8239
    || eqb n 8287
    || eqb n 12288

strip_left : List Char → List Char
unfolding is_space
strip_left [] = []
strip_left (c ∷ s) = if is_space (code c) then strip_left s else c ∷ s

-- `str.strip()`
unfoldable pub strip : String → String
unfolding strip_left
strip s = of_chars (reverse (strip_left (reverse (strip_left (chars s)))))

chars_before : List Char → List Char → Bool
chars_before s [] = false
chars_before [] (d ∷ t) = true
chars_before (c ∷ s) (d ∷ t) =
    let rest = chars_before s t in ltb (code c) (code d) || (eqb (code c) (code d) && rest)

-- `s < t` of two texts, code point by code point.
unfoldable pub text_before : String → String → Bool
unfolding chars_before
text_before s t = chars_before (chars s) (chars t)
