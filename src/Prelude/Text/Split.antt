-- ===== src/Prelude/Text/Split.antt =====
-- split() and join() undo each other.
use Prim.Native.Nat.{ℕ}
use Prim.Native.Char.{Char, code}
use Prim.Native.String.{String}
use mathlib.Core.Path.{◌≡◌, refl, ap, ◌∙◌}
use mathlib.Core.Logic.{◌≢◌, inl, inr}
use mathlib.Core.Bool.{false}
use mathlib.Core.List.{List, [], ◌∷◌}
use native.Mathlib.Omega.{arith}
use rpa_group.Prelude.Tests.{eqb, Bool-cases}
use rpa_group.Prelude.Tables.{All}
use rpa_group.Prelude.Text.{join2, attach, split_on, join_with}
use rpa_group.Prelude.Text.Parts.{has_char}

abbrev pub AllFree : ℕ → List String → Type 0
AllFree n = All (λ w. has_char n w ≡ false)

attach-free :
    (n : ℕ) (c : Char) (ws : List String)
    → eqb (code c) n ≡ false
    → AllFree n ws
    → AllFree n (attach c ws)
unfolding attach
attach-free n c [] h f = ground arith
attach-free n c (w ∷ ws) h f = ground arith

-- No word of a split text holds the separator.
pub split_on-free : (n : ℕ) (s : String) → AllFree n (split_on n s)
unfolding split_on
split_on-free n String.[] = (refl, tt)
split_on-free n (String.◌∷◌ c s) = elim (Bool-cases (eqb (code c) n)) [
  | inl e ↦ rw e (refl, split_on-free n s)
  | inr e ↦ rw e (attach-free n c (split_on n s) e (split_on-free n s))
]

attach-ne-nil : (c : Char) (ws : List String) → attach c ws ≢ []
unfolding attach
attach-ne-nil c [] h = cc
attach-ne-nil c (w ∷ ws) h = cc

pub split_on-ne-nil : (n : ℕ) (s : String) → split_on n s ≢ []
unfolding split_on
split_on-ne-nil n String.[] h = cc
split_on-ne-nil n (String.◌∷◌ c s) h = elim (Bool-cases (eqb (code c) n)) [
  | inl e ↦ cc (rw e at h)
  | inr e ↦ attach-ne-nil c (split_on n s) (rw e at h)
]

split_on_word : (n : ℕ) (w : String) → has_char n w ≡ false → split_on n w ≡ w ∷ []
unfolding split_on
split_on_word n String.[] h = refl
split_on_word n (String.◌∷◌ c w) h = ground (arith, split_on_word n w)

split_on-join2 :
    (c : Char) (w t : String)
    → has_char (code c) w ≡ false
    → split_on (code c) (join2 w (String.◌∷◌ c t)) ≡ w ∷ split_on (code c) t
unfolding split_on
split_on-join2 c String.[] t h = ground arith
split_on-join2 c (String.◌∷◌ d w) t h = ground (arith, split_on-join2 c w t)

-- Splitting what was joined gives the words back, if none of them holds the separator.
pub split_on-join_with :
    (c : Char) (w : String) (ws : List String)
    → AllFree (code c) (w ∷ ws)
    → split_on (code c) (join_with (String.◌∷◌ c "") (w ∷ ws)) ≡ w ∷ ws
unfolding join_with
split_on-join_with c w [] h = split_on_word (code c) w h.0
split_on-join_with c w (v ∷ ws) h =
    split_on-join2 c w (join_with (String.◌∷◌ c "") (v ∷ ws)) h.0
    ∙ ap (◌∷◌ w) (split_on-join_with c v ws h.1)
