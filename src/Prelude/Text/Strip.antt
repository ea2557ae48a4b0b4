-- ===== src/Prelude/Text/Strip.antt =====
-- strip() removes all that it would remove: a second call changes nothing.
use Prim.Native.Char.{Char, code}
use Prim.Native.String.{String}
use mathlib.Core.Path.{◌≡◌, refl, ap}
use mathlib.Core.Bool.{false}
use mathlib.Core.Logic.{inl, inr}
use rpa_group.Prelude.Tests.{Bool-cases}
use rpa_group.Prelude.Text.{is_space, lstrip, keep_unless_blank, rstrip, strip}

rstrip-keep :
    (c : Char) (s : String) → rstrip s ≡ s → rstrip (keep_unless_blank c s) ≡ keep_unless_blank c s
unfolding rstrip
rstrip-keep c String.[] h = elim (Bool-cases (is_space (code c))) [
  | inl blank ↦ rw blank
  | inr kept ↦ rw (kept, kept)
]
rstrip-keep c (String.◌∷◌ d s) h = ap (keep_unless_blank c) h

rstrip_idem : (s : String) → rstrip (rstrip s) ≡ rstrip s
unfolding rstrip
rstrip_idem String.[] = refl
rstrip_idem (String.◌∷◌ c s) = rstrip-keep c (rstrip s) (rstrip_idem s)

-- What begins with a character that is kept keeps it.
lstrip-keep :
    (c : Char) (s : String)
    → is_space (code c) ≡ false
    → lstrip (keep_unless_blank c s) ≡ keep_unless_blank c s
unfolding lstrip keep_unless_blank
lstrip-keep c String.[] h = rw (h, h)
lstrip-keep c (String.◌∷◌ d s) h = rw h

lstrip-rstrip-lstrip : (s : String) → lstrip (rstrip (lstrip s)) ≡ rstrip (lstrip s)
unfolding lstrip rstrip
lstrip-rstrip-lstrip String.[] = refl
lstrip-rstrip-lstrip (String.◌∷◌ c s) = elim (Bool-cases (is_space (code c))) [
  | inl blank ↦ rw blank (lstrip-rstrip-lstrip s)
  | inr kept ↦ rw kept (lstrip-keep c (rstrip s) kept)
]

pub strip_idem : (s : String) → strip (strip s) ≡ strip s
strip_idem s = unfold strip in rw (lstrip-rstrip-lstrip s) (rstrip_idem (lstrip s))
