-- ===== src/Prelude/Text.antt =====
-- Python's string methods on native texts, by recursion on the characters.
pub mod Strip
pub mod Order
pub mod Parts
pub mod Split
pub mod Lower
use Prim.Native.Nat.{ℕ, zero, suc}
use Prim.Native.Char.{Char, code}
use Prim.Native.String.{String}
use mathlib.Core.Path.{◌≡◌, refl}
use mathlib.Core.Bool.{Bool, true, false, ◌&&◌, ◌||◌}
use mathlib.Core.List.{List, [], ◌∷◌}
use text.Mathlib.Text.{◌==◌}
use rpa_group.Prelude.Tests.{ltb, leb, eqb, if◌then◌else◌}

-- len(s): the number of characters.
abbrev pub chars : String → ℕ
chars String.[] = 0
chars (String.◌∷◌ c s) = suc (chars s)

abbrev pub is_empty : String → Bool
is_empty String.[] = true
is_empty (String.◌∷◌ c s) = false

-- s + t
abbrev pub join2 : String → String → String
join2 String.[] t = t
join2 (String.◌∷◌ c s) t = String.◌∷◌ c (join2 s t)

-- s[:n]
unfoldable pub prefix : ℕ → String → String
prefix zero s = ""
prefix (suc n) String.[] = ""
prefix (suc n) (String.◌∷◌ c s) = String.◌∷◌ c (prefix n s)

-- s[-n:], which is the whole of a shorter text.
unfoldable pub suffix : ℕ → String → String
suffix n String.[] = ""
suffix n (String.◌∷◌ c s) = if leb (suc (chars s)) n then String.◌∷◌ c s else suffix n s

-- The order of SQLite's BINARY collation, by code points: `s <= t`.
unfoldable pub text_le : String → String → Bool
text_le String.[] t = true
text_le (String.◌∷◌ c s) String.[] = false
text_le (String.◌∷◌ c s) (String.◌∷◌ d t) =
    ltb (code c) (code d) || (eqb (code c) (code d) && text_le s t)

-- The characters for which str.isspace() holds, which strip() removes.
unfoldable pub is_space : ℕ → Bool
is_space c =
    (leb 9 c && leb c 13)
    || (leb 28 c && leb c 32)
    || eqb c 133
    || eqb c 160
    || eqb c 5760
    || (leb 8192 c && leb c 8202)
    || eqb c 8232
    || eqb c 8233
    || eqb c 8239
    || eqb c 8287
    || eqb c 12288

unfoldable pub lstrip : String → String
lstrip String.[] = ""
lstrip (String.◌∷◌ c s) = if is_space (code c) then lstrip s else String.◌∷◌ c s

unfoldable pub keep_unless_blank : Char → String → String
keep_unless_blank c String.[] = if is_space (code c) then "" else String.◌∷◌ c ""
keep_unless_blank c (String.◌∷◌ d s) = String.◌∷◌ c (String.◌∷◌ d s)

unfoldable pub rstrip : String → String
unfolding keep_unless_blank
rstrip String.[] = ""
rstrip (String.◌∷◌ c s) = keep_unless_blank c (rstrip s)

unfoldable pub strip : String → String
unfolding lstrip rstrip is_space
strip s = rstrip (lstrip s)

-- s.split(sep) for a separator of one character.
unfoldable pub attach : Char → List String → List String
attach c [] = String.◌∷◌ c "" ∷ []
attach c (w ∷ ws) = String.◌∷◌ c w ∷ ws

unfoldable pub split_on : ℕ → String → List String
unfolding attach
split_on sep String.[] = "" ∷ []
split_on sep (String.◌∷◌ c s) =
    if eqb (code c) sep then "" ∷ split_on sep s else attach c (split_on sep s)

-- sep.join(words)
unfoldable pub join_with : String → List String → String
join_with sep [] = ""
join_with sep (w ∷ []) = w
join_with sep (w ∷ v ∷ ws) = join2 w (join2 sep (join_with sep (v ∷ ws)))

-- s.startswith(t)
unfoldable pub has_prefix : String → String → Bool
has_prefix s String.[] = true
has_prefix String.[] (String.◌∷◌ d t) = false
has_prefix (String.◌∷◌ c s) (String.◌∷◌ d t) = eqb (code c) (code d) && has_prefix s t

-- t in s
unfoldable pub has_infix : String → String → Bool
unfolding has_prefix
has_infix String.[] t = is_empty t
has_infix (String.◌∷◌ c s) t = has_prefix (String.◌∷◌ c s) t || has_infix s t

-- x in {…}
abbrev pub one_of : String → List String → Bool
one_of s [] = false
one_of s (t ∷ ts) = if s == t then true else one_of s ts

strip_words : strip "  a b " ≡ "a b"
unfolding strip
strip_words = refl

split_path : join_with "/" (split_on b'/' "a/b//c") ≡ "a/b//c"
unfolding split_on join_with
split_path = refl

suffix_four : suffix 4 "abcdefg" ≡ "defg"
unfolding suffix
suffix_four = refl
