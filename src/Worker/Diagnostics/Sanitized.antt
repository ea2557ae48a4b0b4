-- ===== src/Worker/Diagnostics/Sanitized.antt =====
-- What a payload that has been sanitized holds.
use rpa_group.Prelude.{
  ◌≤◌, String, false, ◌≡◌, refl, arith, List, [], ◌∷◌, ◌++◌, if◌then◌else◌, prefix, chars, ltb, ok,
  ◌>>◌, ok_injective, subst, Bool-cases, inl, inr,
}
use rpa_group.Prelude.Text.Parts.{chars-join2, chars-prefix}
use rpa_group.Prelude.Value.{
  Value, null, bool, int, str, arr, obj, Items, nil, cons, Fields, end, field,
}
use rpa_group.Worker.Diagnostics.{
  is_sensitive, iter_sensitive_keys, keys_of_fields, keys_of_items, no_key,
  ensure_diagnostic_payload_safe, redact_string, sanitize_value, sanitize_items, sanitize_fields,
  sanitize_diagnostic_payload,
}

-- At every depth no key is sensitive, and no text is longer than 514 characters.
abbrev mutual
  pub IsSanitized : Value → Type 0
  IsSanitized (obj d) = FieldsSanitized d
  IsSanitized (arr vs) = ItemsSanitized vs
  IsSanitized (str s) = chars s ≤ 514
  IsSanitized null = Unit
  IsSanitized (bool b) = Unit
  IsSanitized (int n) = Unit

  pub ItemsSanitized : Items → Type 0
  ItemsSanitized nil = Unit
  ItemsSanitized (cons v vs) = IsSanitized v × ItemsSanitized vs

  pub FieldsSanitized : Fields → Type 0
  FieldsSanitized end = Unit
  FieldsSanitized (field key v d) = (is_sensitive key ≡ false) × IsSanitized v × FieldsSanitized d

both_empty : (a b : List String) → a ++ b ≡ [] → (a ≡ []) × (b ≡ [])
both_empty [] b h = (refl, h)
both_empty (x ∷ a) b h = cc

not_sensitive :
    (key : String) (word : String)
    → (if is_sensitive key then word ∷ [] else []) ≡ []
    → is_sensitive key ≡ false
not_sensitive key word h = elim (Bool-cases (is_sensitive key)) [
  | inl e ↦ cc (rw e at h)
  | inr e ↦ e
]

module _ (substitute : String → String) where
  -- However long what the substitutions leave is, a redacted text has at most 514 characters.
  pub chars-redact_string : (s : String) → chars (redact_string substitute s) ≤ 514
  unfolding redact_string
  chars-redact_string s = elim (Bool-cases (ltb 500 (chars (substitute s)))) [
    | inl long ↦ rw long (
        omega (
          arith,
          chars-join2 (prefix 500 (substitute s)) "...[truncated]",
          chars-prefix 500 (substitute s) (ground (arith, long)),
        ))
    | inr short ↦ rw short (ground (arith, short))
  ]

  mutual
    unfolding iter_sensitive_keys sanitize_value

    sanitized : (v : Value) → iter_sensitive_keys v ≡ [] → IsSanitized (sanitize_value substitute v)
    sanitized (obj d) h = fields_sanitized d h
    sanitized (arr vs) h = items_sanitized vs h
    sanitized (str s) h = chars-redact_string s
    sanitized null h = tt
    sanitized (bool b) h = tt
    sanitized (int n) h = tt

    items_sanitized :
        (vs : Items) → keys_of_items vs ≡ [] → ItemsSanitized (sanitize_items substitute vs)
    items_sanitized nil h = tt
    items_sanitized (cons v vs) h =
        let (p, q) = both_empty (iter_sensitive_keys v) (keys_of_items vs) h in
        (sanitized v p, items_sanitized vs q)

    fields_sanitized :
        (d : Fields) → keys_of_fields d ≡ [] → FieldsSanitized (sanitize_fields substitute d)
    fields_sanitized end h = tt
    fields_sanitized (field key v d) h =
        let (own, rest) = both_empty _ (iter_sensitive_keys v ++ keys_of_fields d) h in
        let (p, q) = both_empty (iter_sensitive_keys v) (keys_of_fields d) rest in
        (not_sensitive key _ own, sanitized v p, fields_sanitized d q)

  -- A payload that the sanitizer lets through has, at every depth, no sensitive key and no text of more
  -- than 514 characters.
  pub sanitize_diagnostic_payload-IsSanitized :
      (payload safe : Fields)
      → sanitize_diagnostic_payload substitute payload ≡ ok safe
      → IsSanitized (obj safe)
  unfolding sanitize_diagnostic_payload ensure_diagnostic_payload_safe iter_sensitive_keys
  sanitize_diagnostic_payload-IsSanitized payload safe h = go (keys_of_fields payload) refl h
    where
      go :
          (keys : List String)
          → keys_of_fields payload ≡ keys
          → (no_key keys >> ok (sanitize_fields substitute payload)) ≡ ok safe
          → IsSanitized (obj safe)
      go [] q k = subst (λ d. IsSanitized (obj d)) (ok_injective k) (fields_sanitized payload q)
      go (key ∷ keys) q k = cc
