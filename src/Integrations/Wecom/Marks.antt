-- ===== src/Integrations/Wecom/Marks.antt =====
-- What `_check_target_privileges` marks.
use rpa_group.Prelude.{
  Bool, true, false, ◌||◌, ◌≡◌, refl, sym, ap, ap₂, ◌∙◌, ◌==◌, some, if◌then◌else◌, Bool-cases, inl,
  inr, Result,
}
use rpa_group.Prelude.Value.{
  Value, null, bool, int, str, arr, obj, Items, nil, cons, Fields, end, field, get, put, ℤ,
}
use rpa_group.Prelude.Value.Dicts.{get-put}
use rpa_group.Integrations.Wecom.Privileges.{
  is_target, privilege_id, check_target_privileges, check_items, check_fields, marked,
}

-- The value without its check marks, at any depth.
abbrev mutual
  pub without_marks : Value → Value
  without_marks (obj d) = obj (fields_without d)
  without_marks (arr vs) = arr (items_without vs)
  without_marks null = null
  without_marks (bool b) = bool b
  without_marks (int n) = int n
  without_marks (str s) = str s

  pub items_without : Items → Items
  items_without nil = nil
  items_without (cons v vs) = cons (without_marks v) (items_without vs)

  pub fields_without : Fields → Fields
  fields_without end = end
  fields_without (field k v d) =
      let rest = fields_without d in if k == "b_check" then rest else field k (without_marks v) rest

either_false : (a b : Bool) → a || b ≡ false → (a ≡ false) × (b ≡ false)
either_false true b h = cc
either_false false b h = (refl, h)

without-put : (w : Value) (d : Fields) → fields_without (put "b_check" w d) ≡ fields_without d
without-put w end = refl
without-put w (field k v d) = elim (Bool-cases (k == "b_check")) [
  | inl e ↦ rw (e, e) refl
  | inr e ↦ rw (e, e) (ap (field k (without_marks v)) (without-put w d))
]

module _ (int_of : Value → Result ℤ) where
  -- A dict with the id of a target stands in the value, at any depth.
  abbrev mutual
    pub has_target : Value → Bool
    has_target (obj d) = is_target (privilege_id int_of d) || fields_target d
    has_target (arr vs) = items_target vs
    has_target null = false
    has_target (bool b) = false
    has_target (int n) = false
    has_target (str s) = false

    pub items_target : Items → Bool
    items_target nil = false
    items_target (cons v vs) = has_target v || items_target vs

    pub fields_target : Fields → Bool
    fields_target end = false
    fields_target (field k v d) = has_target v || fields_target d

  -- Every dict that is a target or has one in it carries the mark.
  abbrev mutual
    pub AllMarked : Value → Type 0
    AllMarked (obj d) =
        (has_target (obj d) ≡ true → get "b_check" d ≡ some (bool true)) × FieldsMarked d
    AllMarked (arr vs) = ItemsMarked vs
    AllMarked null = Unit
    AllMarked (bool b) = Unit
    AllMarked (int n) = Unit
    AllMarked (str s) = Unit

    pub ItemsMarked : Items → Type 0
    ItemsMarked nil = Unit
    ItemsMarked (cons v vs) = AllMarked v × ItemsMarked vs

    pub FieldsMarked : Fields → Type 0
    FieldsMarked end = Unit
    FieldsMarked (field k v d) = AllMarked v × FieldsMarked d

  marked_flag : (b : Bool) (d : Fields) → (marked int_of b d).0 ≡ b
  marked_flag true d = refl
  marked_flag false d = refl

  mutual
    unfolding check_target_privileges

    check_flag : (v : Value) → (check_target_privileges int_of v).0 ≡ has_target v
    check_flag (obj d) =
        marked_flag _ _ ∙ ap (λ b. is_target (privilege_id int_of d) || b) (fields_flag d)
    check_flag (arr vs) = items_flag vs
    check_flag null = refl
    check_flag (bool b) = refl
    check_flag (int n) = refl
    check_flag (str s) = refl

    items_flag : (vs : Items) → (check_items int_of vs).0 ≡ items_target vs
    items_flag nil = refl
    items_flag (cons v vs) = ap₂ (λ a b. a || b) (check_flag v) (items_flag vs)

    fields_flag : (d : Fields) → (check_fields int_of d).0 ≡ fields_target d
    fields_flag end = refl
    fields_flag (field k v d) = ap₂ (λ a b. a || b) (check_flag v) (fields_flag d)

  mutual
    unfolding check_target_privileges

    unchanged : (v : Value) → has_target v ≡ false → (check_target_privileges int_of v).1 ≡ v
    unchanged (obj d) h =
        let (own, inside) = either_false (is_target (privilege_id int_of d)) (fields_target d) h in
        rw (own, fields_flag d ∙ inside) (ap obj (fields_unchanged d inside))
    unchanged (arr vs) h = ap arr (items_unchanged vs h)
    unchanged null h = refl
    unchanged (bool b) h = refl
    unchanged (int n) h = refl
    unchanged (str s) h = refl

    items_unchanged : (vs : Items) → items_target vs ≡ false → (check_items int_of vs).1 ≡ vs
    items_unchanged nil h = refl
    items_unchanged (cons v vs) h =
        let (p, q) = either_false (has_target v) (items_target vs) h in
        ap₂ cons (unchanged v p) (items_unchanged vs q)

    fields_unchanged : (d : Fields) → fields_target d ≡ false → (check_fields int_of d).1 ≡ d
    fields_unchanged end h = refl
    fields_unchanged (field k v d) h =
        let (p, q) = either_false (has_target v) (fields_target d) h in
        ap₂ (field k) (unchanged v p) (fields_unchanged d q)

  put-Marked : (d : Fields) → FieldsMarked d → FieldsMarked (put "b_check" (bool true) d)
  put-Marked end h = (tt, tt)
  put-Marked (field k v d) h = elim (Bool-cases (k == "b_check")) [
    | inl e ↦ rw e (tt, h.1)
    | inr e ↦ rw e (h.0, put-Marked d h.1)
  ]

  plain :
      (d : Fields)
      → is_target (privilege_id int_of d) || (check_fields int_of d).0 ≡ false
      → has_target (obj (check_fields int_of d).1) ≡ true
      → ⊥
  unfolding check_target_privileges
  plain d e h =
      let (own, inside) = either_false (is_target (privilege_id int_of d)) _ e in
      let same = fields_unchanged d (sym (fields_flag d) ∙ inside) in
      cc (rw (same, own, sym (fields_flag d) ∙ inside) at h)

  mutual
    unfolding check_target_privileges

    check_marks : (v : Value) → AllMarked (check_target_privileges int_of v).1
    check_marks (obj d) =
        elim (Bool-cases (is_target (privilege_id int_of d) || (check_fields int_of d).0)) [
          | inl e ↦ rw e (
            (λ h. get-put "b_check" "b_check" (bool true) (check_fields int_of d).1),
            put-Marked (check_fields int_of d).1 (fields_marks d),
          )
          | inr e ↦ rw e ((λ h. absurd (plain d e h)), fields_marks d)
        ]
    check_marks (arr vs) = items_marks vs
    check_marks null = tt
    check_marks (bool b) = tt
    check_marks (int n) = tt
    check_marks (str s) = tt

    items_marks : (vs : Items) → ItemsMarked (check_items int_of vs).1
    items_marks nil = tt
    items_marks (cons v vs) = (check_marks v, items_marks vs)

    fields_marks : (d : Fields) → FieldsMarked (check_fields int_of d).1
    fields_marks end = tt
    fields_marks (field k v d) = (check_marks v, fields_marks d)

  mutual
    unfolding check_target_privileges

    check_keeps : (v : Value) → without_marks (check_target_privileges int_of v).1 ≡ without_marks v
    check_keeps (obj d) =
        elim (Bool-cases (is_target (privilege_id int_of d) || (check_fields int_of d).0)) [
          | inl e ↦
              rw e (ap obj (without-put (bool true) (check_fields int_of d).1 ∙ fields_keep d))
          | inr e ↦ rw e (ap obj (fields_keep d))
        ]
    check_keeps (arr vs) = ap arr (items_keep vs)
    check_keeps null = refl
    check_keeps (bool b) = refl
    check_keeps (int n) = refl
    check_keeps (str s) = refl

    items_keep : (vs : Items) → items_without (check_items int_of vs).1 ≡ items_without vs
    items_keep nil = refl
    items_keep (cons v vs) = ap₂ cons (check_keeps v) (items_keep vs)

    fields_keep : (d : Fields) → fields_without (check_fields int_of d).1 ≡ fields_without d
    fields_keep end = refl
    fields_keep (field k v d) = elim (Bool-cases (k == "b_check")) [
      | inl e ↦ rw e (fields_keep d)
      | inr e ↦ rw e (ap₂ (field k) (check_keeps v) (fields_keep d))
    ]

  -- Checking a value finds whether a target stands in it at any depth, marks every dict that is a
  -- target or has one in it, and changes nothing but marks; a value without a target stays as it is.
  pub check_target_privileges_lem :
      (v : Value)
      → let out = check_target_privileges int_of v in
        (out.0 ≡ has_target v)
        × AllMarked out.1
        × (without_marks out.1 ≡ without_marks v)
        × (has_target v ≡ false → out.1 ≡ v)
  check_target_privileges_lem v = (check_flag v, check_marks v, check_keeps v, unchanged v)
