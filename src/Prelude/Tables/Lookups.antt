-- ===== src/Prelude/Tables/Lookups.antt =====
-- SELECT by a key after the statements that change a table.
use mathlib.Core.Path.{◌≡◌, refl, subst, ap, ◌∙◌}
use mathlib.Core.Bool.{Bool, true, false, ◌&&◌}
use mathlib.Core.Logic.{inl, inr}
use mathlib.Core.Option.{Option, none, some}
use mathlib.Core.List.{List, [], ◌∷◌, ◌++◌}
use native.Mathlib.Omega.{arith}
use rpa_group.Prelude.Tests.{if◌then◌else◌, Bool-cases, is_some, some_injective}
use rpa_group.Prelude.Tables.{All, any, find, select, update_where}

abbrev pub on_some {ℓ κ} : {A : Type ℓ} {B : Type κ} → (A → B) → Option A → Option B
on_some f none = none
on_some f (some a) = some (f a)

pub on_some-on_some {ℓ κ μ} :
    {A : Type ℓ} {B : Type κ} {C : Type μ} (g : B → C) (f : A → B) (o : Option A)
    → on_some g (on_some f o) ≡ on_some (λ a. g (f a)) o
on_some-on_some g f none = refl
on_some-on_some g f (some a) = refl

module _ {A : Type 0} where
  -- What is found passes the test.
  pub find_sound : (p : A → Bool) (xs : List A) (x : A) → find p xs ≡ some x → p x ≡ true
  find_sound p [] x h = cc
  find_sound p (y ∷ ys) x h = ground (arith, find_sound p ys x)

  pub any-find : (p : A → Bool) (xs : List A) → any p xs ≡ is_some (find p xs)
  any-find p [] = refl
  any-find p (y ∷ ys) = ground (arith, any-find p ys)

  pub find-append :
      (p : A → Bool) (xs ys : List A)
      → find p (xs ++ ys) ≡ (if is_some (find p xs) then find p xs else find p ys)
  find-append p [] ys = refl
  find-append p (x ∷ xs) ys = ground (arith, find-append p xs ys)

  pub any-append :
      (p : A → Bool) (xs ys : List A) → any p (xs ++ ys) ≡ (if any p xs then true else any p ys)
  any-append p [] ys = refl
  any-append p (x ∷ xs) ys = ground (arith, any-append p xs ys)

  -- A row that an UPDATE may have changed: the test of the lookup is not touched by it.
  pub find-update_where :
      (p q : A → Bool) (f : A → A) (xs : List A)
      → ((x : A) → p (f x) ≡ p x)
      → find p (update_where q f xs) ≡ on_some (λ x. if q x then f x else x) (find p xs)
  find-update_where p q f [] keeps = refl
  find-update_where p q f (x ∷ xs) keeps = ground (arith, keeps x, find-update_where p q f xs keeps)

  -- The row that an UPDATE by the same test has found.
  pub find-update_self :
      (p : A → Bool) (f : A → A) (xs : List A) (x : A)
      → ((y : A) → p (f y) ≡ p y)
      → find p xs ≡ some x
      → find p (update_where p f xs) ≡ some (f x)
  find-update_self p f [] x keeps h = cc
  find-update_self p f (y ∷ ys) x keeps h = elim (Bool-cases (p y)) [
    | inl e ↦ rw (e, keeps y ∙ e) (ap some (ap f (some_injective (rw e at h))))
    | inr e ↦ rw (e, e) (find-update_self p f ys x keeps (rw e at h))
  ]

  pub any-update_where :
      (p q : A → Bool) (f : A → A) (xs : List A)
      → ((x : A) → p (f x) ≡ p x)
      → any p (update_where q f xs) ≡ any p xs
  any-update_where p q f [] keeps = refl
  any-update_where p q f (x ∷ xs) keeps = ground (arith, keeps x, any-update_where p q f xs keeps)

  -- An UPDATE that keeps a property of each row keeps it of the table.
  pub All-update_where :
      (P : A → Type 0) (q : A → Bool) (f : A → A) (xs : List A)
      → ((x : A) → q x ≡ true → P x → P (f x))
      → All P xs
      → All P (update_where q f xs)
  All-update_where P q f [] keeps h = tt
  All-update_where P q f (x ∷ xs) keeps h = elim (Bool-cases (q x)) [
    | inl e ↦ rw e (keeps x e h.0, All-update_where P q f xs keeps h.1)
    | inr e ↦ rw e (h.0, All-update_where P q f xs keeps h.1)
  ]

  -- An UPDATE gives its rows a property that the others have already.
  pub All-updated :
      (P : A → Type 0) (q : A → Bool) (f : A → A) (xs : List A)
      → ((x : A) → q x ≡ true → P (f x))
      → ((x : A) → q x ≡ false → P x)
      → All P (update_where q f xs)
  All-updated P q f [] gives has = tt
  All-updated P q f (x ∷ xs) gives has = elim (Bool-cases (q x)) [
    | inl e ↦ (rw e (gives x e), All-updated P q f xs gives has)
    | inr e ↦ (rw e (has x e), All-updated P q f xs gives has)
  ]

  -- Two UPDATEs of the same rows, of which the second gives them the property.
  pub All-update_twice :
      (P : A → Type 0) (q : A → Bool) (f g : A → A) (xs : List A)
      → ((x : A) → q (f x) ≡ q x)
      → ((x : A) → P (g (f x)))
      → All P xs
      → All P (update_where q g (update_where q f xs))
  All-update_twice P q f g [] keeps gives h = tt
  All-update_twice P q f g (x ∷ xs) keeps gives h = elim (Bool-cases (q x)) [
    | inl e ↦ (rw (e, keeps x ∙ e) (gives x), All-update_twice P q f g xs keeps gives h.1)
    | inr e ↦ (rw (e, e) h.0, All-update_twice P q f g xs keeps gives h.1)
  ]

  pub All-append : (P : A → Type 0) (xs ys : List A) → All P xs → All P ys → All P (xs ++ ys)
  All-append P [] ys h k = k
  All-append P (x ∷ xs) ys h k = (h.0, All-append P xs ys h.1 k)

  -- An UPDATE of rows that the lookup passes over.
  pub find-update_other :
      (p q : A → Bool) (f : A → A) (xs : List A)
      → ((x : A) → p (f x) ≡ p x)
      → ((x : A) → p x ≡ true → q x ≡ false)
      → find p (update_where q f xs) ≡ find p xs
  find-update_other p q f [] keeps apart = refl
  find-update_other p q f (x ∷ xs) keeps apart =
      ground (arith, keeps x, apart x, find-update_other p q f xs keeps apart)

  -- Nor are all of them together.
  pub select-update_other :
      (p q : A → Bool) (f : A → A) (xs : List A)
      → ((x : A) → p (f x) ≡ p x)
      → ((x : A) → p x ≡ true → q x ≡ false)
      → select p (update_where q f xs) ≡ select p xs
  select-update_other p q f [] keeps apart = refl
  select-update_other p q f (x ∷ xs) keeps apart =
      ground (arith, keeps x, apart x, select-update_other p q f xs keeps apart)

  -- A second condition that the first row found meets.
  pub find-and :
      (p q : A → Bool) (xs : List A) (x : A)
      → find p xs ≡ some x
      → q x ≡ true
      → find (λ y. p y && q y) xs ≡ some x
  find-and p q [] x h k = cc
  find-and p q (y ∷ ys) x h k = ground (arith, find-and p q ys x)

  -- A row that is found has what every row has.
  pub find_elem_All :
      (P : A → Type 0) (p : A → Bool) (xs : List A) (x : A) → All P xs → find p xs ≡ some x → P x
  find_elem_All P p [] x h e = cc
  find_elem_All P p (y ∷ ys) x h e = elim (Bool-cases (p y)) [
    | inl passes ↦ subst P (some_injective (rw passes at e)) h.0
    | inr fails ↦ find_elem_All P p ys x h.1 (rw fails at e)
  ]
