-- ===== src/Prelude/Tables/Counting.antt =====
-- COUNT(*) after an UPDATE.
use Prim.Native.Nat.{◌+◌, ◌≤◌, ◌<◌}
use mathlib.Core.Path.{◌≡◌, refl, sym, ap, ◌∙◌}
use mathlib.Core.Bool.{Bool, true, false}
use mathlib.Core.Logic.{inl, inr}
use mathlib.Core.List.{List, [], ◌∷◌}
use native.Mathlib.Omega.{arith}
use rpa_group.Prelude.Tables.{count_where, update_where, select}
use rpa_group.Prelude.Tables.Ordered.{Elem}

module _ {A : Type 0} (p q : A → Bool) (f : A → A) where
  -- The UPDATE leaves no row that passes.
  pub count_cleared :
      (xs : List A)
      → ((x : A) → q x ≡ true → p (f x) ≡ false)
      → ((x : A) → p x ≡ true → q x ≡ true)
      → count_where p (update_where q f xs) ≡ 0
  count_cleared [] h k = refl
  count_cleared (x ∷ xs) h k = ground (arith, h x, k x, count_cleared xs h k)

  -- The rows that it changes come to those that pass.
  pub count_moved :
      (xs : List A)
      → ((x : A) → p (f x) ≡ true)
      → ((x : A) → q x ≡ true → p x ≡ false)
      → count_where p (update_where q f xs) ≡ count_where p xs + count_where q xs
  count_moved [] h k = refl
  count_moved (x ∷ xs) h k = ground (arith, h x, k x, count_moved xs h k)

  -- It does not touch the test.
  pub count_kept :
      (xs : List A)
      → ((x : A) → q x ≡ true → p (f x) ≡ p x)
      → count_where p (update_where q f xs) ≡ count_where p xs
  count_kept [] h = refl
  count_kept (x ∷ xs) h = ground (arith, h x, count_kept xs h)

  -- No row that it changes passes afterwards.
  pub count_le :
      (xs : List A)
      → ((x : A) → p (f x) ≡ false)
      → count_where p (update_where q f xs) ≤ count_where p xs
  count_le [] h = omega arith
  count_le (x ∷ xs) h = ground (arith, h x, count_le xs h)

  -- And one of them did pass.
  pub count_lt :
      (xs : List A) (y : A)
      → ((x : A) → p (f x) ≡ false)
      → Elem y xs
      → p y ≡ true
      → q y ≡ true
      → count_where p (update_where q f xs) < count_where p xs
  count_lt [] y h m k l = absurd m
  count_lt (x ∷ xs) y h (inl e) k l =
      ground (arith, sym (ap p e) ∙ k, sym (ap q e) ∙ l, h x, count_le xs h)
  count_lt (x ∷ xs) y h (inr m) k l = ground (arith, h x, count_lt xs y h m k l)

pub count-select_none {ℓ} :
    {A : Type ℓ} (p : A → Bool) (xs : List A) → select p xs ≡ [] → count_where p xs ≡ 0
count-select_none p [] h = refl
count-select_none p (x ∷ xs) h = ground (arith, count-select_none p xs)
