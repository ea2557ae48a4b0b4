-- ===== src/Prelude/Text/Parts.antt =====
-- Lengths, prefixes and suffixes of joined texts.
use Prim.Native.Nat.{ℕ, zero, suc, ◌+◌, ◌≤◌}
use Prim.Native.Char.{code}
use Prim.Native.String.{String}
use mathlib.Core.Path.{◌≡◌, refl, ap}
use mathlib.Core.Bool.{Bool, false, ◌||◌}
use native.Mathlib.Omega.{arith}
use rpa_group.Prelude.Tests.{eqb}
use rpa_group.Prelude.Text.{chars, join2, prefix, suffix}

pub chars-join2 : (s t : String) → chars (join2 s t) ≡ chars s + chars t
chars-join2 String.[] t = omega arith
chars-join2 (String.◌∷◌ c s) t = omega (arith, chars-join2 s t)

pub chars-prefix : (n : ℕ) (s : String) → n ≤ chars s → chars (prefix n s) ≡ n
unfolding prefix
chars-prefix zero s h = refl
chars-prefix (suc n) String.[] h = omega arith
chars-prefix (suc n) (String.◌∷◌ c s) h = omega (arith, chars-prefix n s)

pub chars-suffix : (n : ℕ) (s : String) → n ≤ chars s → chars (suffix n s) ≡ n
unfolding suffix
chars-suffix n String.[] h = omega arith
chars-suffix n (String.◌∷◌ c s) h = ground (arith, chars-suffix n s)

pub prefix-join2 : (s t : String) → prefix (chars s) (join2 s t) ≡ s
unfolding prefix
prefix-join2 String.[] t = refl
prefix-join2 (String.◌∷◌ c s) t = ap (String.◌∷◌ c) (prefix-join2 s t)

pub suffix_all : (n : ℕ) (s : String) → chars s ≤ n → suffix n s ≡ s
unfolding suffix
suffix_all n String.[] h = refl
suffix_all n (String.◌∷◌ c s) h = ground arith

-- A suffix of a joined text that lies in its second part.
pub suffix-join2 : (n : ℕ) (s t : String) → n ≤ chars t → suffix n (join2 s t) ≡ suffix n t
unfolding suffix
suffix-join2 n String.[] t h = refl
suffix-join2 n (String.◌∷◌ c s) t h = ground (arith, suffix-join2 n s t, chars-join2 s t)

-- The text holds a character with that code.
abbrev pub has_char : ℕ → String → Bool
has_char n String.[] = false
has_char n (String.◌∷◌ c s) = eqb (code c) n || has_char n s

pub has_char-join2 :
    (n : ℕ) (s t : String) → has_char n (join2 s t) ≡ (has_char n s || has_char n t)
has_char-join2 n String.[] t = refl
has_char-join2 n (String.◌∷◌ c s) t = ground (arith, has_char-join2 n s t)

pub has_char-prefix :
    (n k : ℕ) (s : String) → has_char n s ≡ false → has_char n (prefix k s) ≡ false
unfolding prefix
has_char-prefix n zero s h = refl
has_char-prefix n (suc k) String.[] h = refl
has_char-prefix n (suc k) (String.◌∷◌ c s) h = ground (arith, has_char-prefix n k s)

pub has_char-suffix :
    (n k : ℕ) (s : String) → has_char n s ≡ false → has_char n (suffix k s) ≡ false
unfolding suffix
has_char-suffix n k String.[] h = refl
has_char-suffix n k (String.◌∷◌ c s) h = ground (arith, has_char-suffix n k s)
