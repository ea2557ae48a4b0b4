-- ===== src/Domain/Redaction/Hiding.antt =====
-- What a redacted context still shows.
use rpa_group.Prelude.{
  String, Bool, true, false, ◌≡◌, refl, sym, ap, ap₂, ◌∙◌, ◌==◌, eq_iff, if◌then◌else◌, one_of,
  Bool-cases, inl, inr,
}
use rpa_group.Prelude.Value.{
  Value, null, bool, int, str, arr, obj, Items, nil, cons, Fields, end, field, put,
}
use rpa_group.Domain.Redaction.{
  secret_keys, masked_identifier_keys, wecom_url_keys, mask_identifier, mask_wecom_url,
  redact_entry, redact_context, redact_items, redact_fields,
}
use rpa_group.Domain.Redaction.Masks.{mask_identifier_idem, mask_wecom_url_idem}

-- At every depth, the value under a secret key is the text "***".
abbrev mutual
  pub HidesSecrets : Value → Type 0
  HidesSecrets (obj d) = HidesSecretsFields d
  HidesSecrets (arr vs) = HidesSecretsItems vs
  HidesSecrets null = Unit
  HidesSecrets (bool b) = Unit
  HidesSecrets (int n) = Unit
  HidesSecrets (str s) = Unit

  pub HidesSecretsItems : Items → Type 0
  HidesSecretsItems nil = Unit
  HidesSecretsItems (cons v vs) = HidesSecrets v × HidesSecretsItems vs

  pub HidesSecretsFields : Fields → Type 0
  HidesSecretsFields end = Unit
  HidesSecretsFields (field k v d) =
      (one_of k secret_keys ≡ true → v ≡ str "***") × HidesSecrets v × HidesSecretsFields d

abbrev is_str : Value → Bool
is_str (str _) = true
is_str _ = false

-- `redact_entry` by its branches.
module _ (k : String) (w : Value) where
  entry_secret : (v : Value) → one_of k secret_keys ≡ true → redact_entry k v w ≡ str "***"
  unfolding redact_entry
  entry_secret null h = rw h
  entry_secret _ h = rw h

  entry_identifier :
      (s : String)
      → one_of k secret_keys ≡ false
      → one_of k masked_identifier_keys ≡ true
      → redact_entry k (str s) w ≡ str (mask_identifier s)
  unfolding redact_entry
  entry_identifier s h h' = rw (h, h')

  entry_url :
      (s : String)
      → one_of k secret_keys ≡ false
      → one_of k masked_identifier_keys ≡ false
      → one_of k wecom_url_keys ≡ true
      → redact_entry k (str s) w ≡ str (mask_wecom_url s)
  unfolding redact_entry
  entry_url s h h' h'' = rw (h, h', h'')

  entry_text :
      (s : String)
      → one_of k secret_keys ≡ false
      → one_of k masked_identifier_keys ≡ false
      → one_of k wecom_url_keys ≡ false
      → redact_entry k (str s) w ≡ w
  unfolding redact_entry
  entry_text s h h' h'' = rw (h, h', h'')

  entry_other :
      (v : Value) → is_str v ≡ false → one_of k secret_keys ≡ false → redact_entry k v w ≡ w
  unfolding redact_entry
  entry_other null n h = rw h
  entry_other (str s) n h = cc
  entry_other _ n h = rw h

HidesSecrets-if :
    (b : Bool) (v w : Value) → HidesSecrets v → HidesSecrets w → HidesSecrets (if b then v else w)
HidesSecrets-if true v w h h' = h
HidesSecrets-if false v w h h' = h'

redact_entry-HidesSecrets :
    (k : String) (v w : Value) → HidesSecrets w → HidesSecrets (redact_entry k v w)
unfolding redact_entry
redact_entry-HidesSecrets k (str s) w h = HidesSecrets-if (one_of k secret_keys) _ _ tt (
    HidesSecrets-if (one_of k masked_identifier_keys) _ _ tt
      (HidesSecrets-if (one_of k wecom_url_keys) _ _ tt h))
redact_entry-HidesSecrets k _ w h = HidesSecrets-if (one_of k secret_keys) _ _ tt h

mutual
  unfolding redact_context

  redact_context_hides : (v : Value) → HidesSecrets (redact_context v)
  redact_context_hides (obj d) = redact_fields_hides d
  redact_context_hides (arr vs) = redact_items_hides vs
  redact_context_hides null = tt
  redact_context_hides (bool b) = tt
  redact_context_hides (int n) = tt
  redact_context_hides (str s) = tt

  redact_items_hides : (vs : Items) → HidesSecretsItems (redact_items vs)
  redact_items_hides nil = tt
  redact_items_hides (cons v vs) = (redact_context_hides v, redact_items_hides vs)

  redact_fields_hides : (d : Fields) → HidesSecretsFields (redact_fields d)
  redact_fields_hides end = tt
  redact_fields_hides (field k v d) = (
    entry_secret k (redact_context v) v,
    redact_entry-HidesSecrets k v (redact_context v) (redact_context_hides v),
    redact_fields_hides d,
  )

-- A redacted context shows the value of no secret key, at any depth.
pub redact_context-HidesSecrets : (v : Value) → HidesSecrets (redact_context v)
redact_context-HidesSecrets v = redact_context_hides v

abbrev again : String → Value → Value
again k v = redact_entry k v (redact_context v)

again_text : (k s : String) → again k (again k (str s)) ≡ again k (str s)
unfolding redact_context
again_text k s = elim (Bool-cases (one_of k secret_keys)) [
  | inl h ↦ rw (entry_secret k (str s) (str s) h) (entry_secret k _ _ h)
  | inr h ↦ elim (Bool-cases (one_of k masked_identifier_keys)) [
    | inl h' ↦
        rw (entry_identifier k (str s) s h h')
          (entry_identifier k _ _ h h' ∙ ap str (mask_identifier_idem s))
    | inr h' ↦ elim (Bool-cases (one_of k wecom_url_keys)) [
      | inl h'' ↦
          rw (entry_url k (str s) s h h' h'')
            (entry_url k _ _ h h' h'' ∙ ap str (mask_wecom_url_idem s))
      | inr h'' ↦ rw (entry_text k (str s) s h h' h'') (entry_text k _ _ h h' h'')
    ]
  ]
]

again_other :
    (k : String) (v : Value)
    → is_str v ≡ false
    → is_str (redact_context v) ≡ false
    → redact_context (redact_context v) ≡ redact_context v
    → again k (again k v) ≡ again k v
again_other k v n n' e = elim (Bool-cases (one_of k secret_keys)) [
  | inl h ↦ rw (entry_secret k (redact_context v) v h) (entry_secret k _ _ h)
  | inr h ↦ rw (entry_other k (redact_context v) v n h) (entry_other k _ _ n' h ∙ e)
]

again_idem :
    (k : String) (v : Value)
    → redact_context (redact_context v) ≡ redact_context v
    → again k (again k v) ≡ again k v
unfolding redact_context
again_idem k (str s) e = again_text k s
again_idem k null e = again_other k null refl refl e
again_idem k (bool b) e = again_other k (bool b) refl refl e
again_idem k (int n) e = again_other k (int n) refl refl e
again_idem k (arr vs) e = again_other k (arr vs) refl refl e
again_idem k (obj d) e = again_other k (obj d) refl refl e

mutual
  unfolding redact_context

  redact_twice : (v : Value) → redact_context (redact_context v) ≡ redact_context v
  redact_twice (obj d) = ap obj (redact_fields_twice d)
  redact_twice (arr vs) = ap arr (redact_items_twice vs)
  redact_twice null = refl
  redact_twice (bool b) = refl
  redact_twice (int n) = refl
  redact_twice (str s) = refl

  redact_items_twice : (vs : Items) → redact_items (redact_items vs) ≡ redact_items vs
  redact_items_twice nil = refl
  redact_items_twice (cons v vs) = ap₂ cons (redact_twice v) (redact_items_twice vs)

  redact_fields_twice : (d : Fields) → redact_fields (redact_fields d) ≡ redact_fields d
  redact_fields_twice end = refl
  redact_fields_twice (field k v d) =
      ap₂ (field k) (again_idem k v (redact_twice v)) (redact_fields_twice d)

-- Redacting a context twice is redacting it once.
redact_context_idem : (v : Value) → redact_context (redact_context v) ≡ redact_context v
redact_context_idem v = redact_twice v

redact_put :
    (k : String) (v w : Value) (d : Fields)
    → one_of k secret_keys ≡ true
    → redact_fields (put k v d) ≡ redact_fields (put k w d)
unfolding redact_context
redact_put k v w end h =
    rw (entry_secret k (redact_context v) v h, entry_secret k (redact_context w) w h)
redact_put k v w (field j x d) h = elim (Bool-cases (j == k)) [
  | inl e ↦
      let same = (eq_iff j k).0 e in
      rw e (
        ap (λ u. field j u (redact_fields d))
          (entry_secret j (redact_context v) v (rw same h)
            ∙ sym (entry_secret j (redact_context w) w (rw same h))))
  | inr e ↦ rw e (ap (field j (again j x)) (redact_put k v w d h))
]

-- What is stored under a secret key of a dict does not show in the redacted dict.
redact_context-put_secret :
    (k : String) (v w : Value) (d : Fields)
    → one_of k secret_keys ≡ true
    → redact_context (obj (put k v d)) ≡ redact_context (obj (put k w d))
unfolding redact_context
redact_context-put_secret k v w d h = ap obj (redact_put k v w d h)
