-- ===== src/Prelude/Text/Lower.antt =====
-- str.lower(), as far as a test against words of ASCII letters sees it: other letters than those
-- whose lower case has an ASCII letter are kept as they are.
use Prim.Native.Nat.{◌-◌}
use Prim.Native.Char.{Char, code}
use Prim.Native.String.{String, char_at}
use mathlib.Core.Path.{◌≡◌, refl}
use mathlib.Core.Bool.{◌&&◌}
use rpa_group.Prelude.Tests.{leb, eqb, if◌then◌else◌}
use rpa_group.Prelude.Text.{join2}

-- U+212A is the Kelvin sign.
unfoldable pub lower_char : Char → Char
lower_char c =
    if leb 65 (code c) && leb (code c) 90
    then char_at "abcdefghijklmnopqrstuvwxyz" (code c - 65)
    else if eqb (code c) 8490
    then char_at "k" 0
    else c

-- The lower case of U+0130 is an i and a combining dot.
unfoldable pub lower : String → String
unfolding lower_char
lower String.[] = ""
lower (String.◌∷◌ c s) =
    let rest = lower s in
    if eqb (code c) 304 then join2 "i̇" rest else String.◌∷◌ (lower_char c) rest

lower_word : lower "Api-KEY_İK" ≡ "api-key_i̇k"
unfolding lower
lower_word = refl
