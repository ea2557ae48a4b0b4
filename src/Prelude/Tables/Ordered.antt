-- ===== src/Prelude/Tables/Ordered.antt =====
-- Rows that are in a table, and the first row of an ordered table.
use mathlib.Core.Path.{◌≡◌, refl, sym, ap, ◌∙◌, subst}
use mathlib.Core.Bool.{Bool, true, false}
use mathlib.Core.Logic.{◌⊎◌, inl, inr}
use mathlib.Core.Option.{none, some}
use mathlib.Core.List.{List, [], ◌∷◌}
use rpa_group.Prelude.Tests.{Bool-cases}
use rpa_group.Prelude.Tables.{All, select, insert_by, order_by, head?}

module _ {A : Type 0} where
  -- `x` is a row of the table.
  abbrev pub Elem : A → List A → Type 0
  Elem x [] = ⊥
  Elem x (y ∷ ys) = (x ≡ y) ⊎ Elem x ys

  pub All-Elem : (P : A → Type 0) (x : A) (xs : List A) → All P xs → Elem x xs → P x
  All-Elem P x [] h m = absurd m
  All-Elem P x (y ∷ ys) h (inl e) = subst P (sym e) h.0
  All-Elem P x (y ∷ ys) h (inr m) = All-Elem P x ys h.1 m

  All-map : (P Q : A → Type 0) (xs : List A) → ((x : A) → P x → Q x) → All P xs → All Q xs
  All-map P Q [] f h = tt
  All-map P Q (y ∷ ys) f h = (f y h.0, All-map P Q ys f h.1)

  in_tail :
      (p : A → Bool) (x y : A) (ys : List A)
      → Elem x ys × (p x ≡ true)
      → Elem x (y ∷ ys) × (p x ≡ true)
  in_tail p x y ys h = (inr h.0, h.1)

  -- A row of a selection is a row of the table that passes.
  pub Elem-select :
      (p : A → Bool) (x : A) (xs : List A) → Elem x (select p xs) → Elem x xs × (p x ≡ true)
  Elem-select p x [] m = absurd m
  Elem-select p x (y ∷ ys) m = elim (Bool-cases (p y)) [
    | inl e ↦ from_head e (Elem-select p x ys) (rw e at m)
    | inr e ↦ in_tail p x y ys (Elem-select p x ys (rw e at m))
  ]
    where
      from_head :
          p y ≡ true
          → (Elem x (select p ys) → Elem x ys × (p x ≡ true))
          → (x ≡ y) ⊎ Elem x (select p ys)
          → Elem x (y ∷ ys) × (p x ≡ true)
      from_head e ih (inl same) = (inl same, ap p same ∙ e)
      from_head e ih (inr there) = in_tail p x y ys (ih there)

  pub select-Elem :
      (p : A → Bool) (x : A) (xs : List A) → Elem x xs → p x ≡ true → Elem x (select p xs)
  select-Elem p x [] m h = absurd m
  select-Elem p x (y ∷ ys) (inl same) h = rw (sym (ap p same) ∙ h) (inl same)
  select-Elem p x (y ∷ ys) (inr there) h = elim (Bool-cases (p y)) [
    | inl e ↦ rw e (inr (select-Elem p x ys there h))
    | inr e ↦ rw e (select-Elem p x ys there h)
  ]

module _ {A : Type 0} (before : A → A → Bool) (order_refl : (x : A) → before x x ≡ true)
    (order_total : (x y : A) → before x y ≡ false → before y x ≡ true)
    (order_trans : (x y z : A) → before x y ≡ true → before y z ≡ true → before x z ≡ true) where
  -- `m` stands in front of every row.
  abbrev IsFirst : A → List A → Type 0
  IsFirst m = All (λ y. before m y ≡ true)

  insert_by-IsFirst :
      (x y : A) (ys xs : List A)
      → Elem y xs
      → IsFirst y xs
      → (m : A) × (ms : List A) × (insert_by before x (y ∷ ys) ≡ m ∷ ms)
        × Elem m (x ∷ xs)
        × IsFirst m (x ∷ xs)
  insert_by-IsFirst x y ys xs m all = elim (Bool-cases (before x y)) [
    | inl e ↦ (
      x,
      y ∷ ys,
      rw e,
      inl refl,
      (order_refl x, All-map _ (λ z. before x z ≡ true) xs (λ z k. order_trans x y z e k) all),
    )
    | inr e ↦ (y, insert_by before x ys, rw e, inr m, (order_total x y e, all))
  ]

  -- An ordered table is empty if the table is, and else begins with a row that stands in front of
  -- every row.
  order_by-IsFirst :
      (x : A) (xs : List A)
      → (m : A) × (ms : List A) × (order_by before (x ∷ xs) ≡ m ∷ ms)
        × Elem m (x ∷ xs)
        × IsFirst m (x ∷ xs)
  order_by-IsFirst x [] = (x, [], refl, inl refl, (order_refl x, tt))
  order_by-IsFirst x (y ∷ ys) = go (order_by-IsFirst y ys)
    where
      go :
          ((m : A) × (ms : List A) × (order_by before (y ∷ ys) ≡ m ∷ ms)
            × Elem m (y ∷ ys)
            × IsFirst m (y ∷ ys))
          → (m : A) × (ms : List A) × (order_by before (x ∷ y ∷ ys) ≡ m ∷ ms)
            × Elem m (x ∷ y ∷ ys)
            × IsFirst m (x ∷ y ∷ ys)
      go (m, ms, e, there, first) =
          let (n, ns, e', there', first') = insert_by-IsFirst x m ms (y ∷ ys) there first in
          (n, ns, ap (insert_by before x) e ∙ e', there', first')

  -- ORDER BY … LIMIT 1 gives a row of the table that stands in front of every row.
  pub head?-order_by :
      (xs : List A) (m : A)
      → head? (order_by before xs) ≡ some m
      → Elem m xs × All (λ y. before m y ≡ true) xs
  head?-order_by [] m h = cc
  head?-order_by (x ∷ xs) m h =
      let (n, ns, e, there, first) = order_by-IsFirst x xs in
      let same : n ≡ m = cc (sym (ap head? e) ∙ h) in
      subst (λ k. Elem k (x ∷ xs) × IsFirst k (x ∷ xs)) same (there, first)

  -- It gives none only from an empty table.
  pub head?-order_by-none : (xs : List A) → head? (order_by before xs) ≡ none → xs ≡ []
  head?-order_by-none [] h = refl
  head?-order_by-none (x ∷ xs) h =
      let (n, ns, e, there, first) = order_by-IsFirst x xs in cc (ap head? e)
