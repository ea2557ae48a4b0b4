-- ===== src/Protocol/Envelopes/Safety.antt =====
-- Which envelopes are built and which are accepted.
use rpa_group.Prelude.{
  String, Bool, true, false, ◌||◌, ◌≡◌, refl, sym, arith, List, [], ◌∷◌, has_infix, if◌then◌else◌,
  All, value_error, ok, err, ok_injective, ◌>>◌, Bool-cases, inl, inr,
}
use rpa_group.Prelude.Text.Lower.{lower}
use rpa_group.Prelude.Value.{
  Value, null, bool, int, str, arr, obj, Items, nil, cons, Fields, end, field, get_or, has_key,
  is_obj,
}
use rpa_group.Protocol.Envelopes.{
  is_sensitive_key, contains_sensitive_key, fields_contain, any_contains, refuse_sensitive,
  envelope, build_envelope, required_fields, missing_fields, require_none, require_object,
  parse_envelope,
}

-- No key at any depth is a sensitive one.
abbrev mutual
  pub KeysSafe : Value → Type 0
  KeysSafe (obj d) = FieldsSafe d
  KeysSafe (arr vs) = ItemsSafe vs
  KeysSafe null = Unit
  KeysSafe (bool b) = Unit
  KeysSafe (int n) = Unit
  KeysSafe (str s) = Unit

  pub FieldsSafe : Fields → Type 0
  FieldsSafe end = Unit
  FieldsSafe (field k v d) = (is_sensitive_key k ≡ false) × KeysSafe v × FieldsSafe d

  pub ItemsSafe : Items → Type 0
  ItemsSafe nil = Unit
  ItemsSafe (cons v vs) = KeysSafe v × ItemsSafe vs

or_false : (a b : Bool) → (a || b) ≡ false → (a ≡ false) × (b ≡ false)
or_false a b h = ground arith

mutual
  unfolding contains_sensitive_key

  contains-KeysSafe : (v : Value) → contains_sensitive_key v ≡ false → KeysSafe v
  contains-KeysSafe (obj d) h = contains-FieldsSafe d h
  contains-KeysSafe (arr vs) h = contains-ItemsSafe vs h
  contains-KeysSafe null h = tt
  contains-KeysSafe (bool b) h = tt
  contains-KeysSafe (int n) h = tt
  contains-KeysSafe (str s) h = tt

  contains-FieldsSafe : (d : Fields) → fields_contain d ≡ false → FieldsSafe d
  contains-FieldsSafe end h = tt
  contains-FieldsSafe (field k v d) h =
      let (a, b) = or_false (is_sensitive_key k || contains_sensitive_key v) (fields_contain d) h in
      let (c, e) = or_false (is_sensitive_key k) (contains_sensitive_key v) a in
      (c, contains-KeysSafe v e, contains-FieldsSafe d b)

  contains-ItemsSafe : (vs : Items) → any_contains vs ≡ false → ItemsSafe vs
  contains-ItemsSafe nil h = tt
  contains-ItemsSafe (cons v vs) h =
      let (a, b) = or_false (contains_sensitive_key v) (any_contains vs) h in
      (contains-KeysSafe v a, contains-ItemsSafe vs b)

refuse_sensitive-ok :
    (d e : Fields) → refuse_sensitive d ≡ ok e → (e ≡ d) × (contains_sensitive_key (obj d) ≡ false)
unfolding refuse_sensitive
refuse_sensitive-ok d e h = elim (Bool-cases (contains_sensitive_key (obj d))) [
  | inl yes' ↦ cc (rw yes' at h)
  | inr no' ↦ (sym (ok_injective (rw no' at h)), no')
]

-- The six keys of an envelope are safe: what is sensitive in it stands in the payload.
envelope_contains :
    (type machine robot id at : String) (payload : Fields)
    → contains_sensitive_key (obj (envelope type machine robot payload id at))
      ≡ contains_sensitive_key (obj payload)
unfolding envelope contains_sensitive_key is_sensitive_key lower has_infix
envelope_contains type machine robot id at payload = ground arith

-- An envelope is built exactly if no key of its payload is sensitive, at any depth.
pub build_envelope_lem :
    (type machine robot id at : String) (payload : Fields)
    → build_envelope type machine robot payload id at ≡ (
        if contains_sensitive_key (obj payload)
        then err (value_error "WebSocket envelope contains sensitive keys")
        else ok (envelope type machine robot payload id at))
unfolding build_envelope refuse_sensitive
build_envelope_lem type machine robot id at payload =
    rw (envelope_contains type machine robot id at payload) refl

parse_envelope_kept :
    (raw : Fields)
    → missing_fields required_fields raw ≡ []
    → is_obj (get_or "payload" null raw) ≡ true
    → contains_sensitive_key (obj raw) ≡ false
    → parse_envelope raw ≡ ok raw
unfolding parse_envelope require_none require_object refuse_sensitive
parse_envelope_kept raw complete has_payload safe = rw (complete, has_payload, safe) refl

envelope_complete :
    (type machine robot id at : String) (payload : Fields)
    → (missing_fields required_fields (envelope type machine robot payload id at) ≡ [])
      × (is_obj (get_or "payload" null (envelope type machine robot payload id at)) ≡ true)
unfolding envelope missing_fields
envelope_complete type machine robot id at payload = (refl, refl)

-- What is built is accepted by the other side, as it was built, and has no sensitive key.
pub build_envelope-parse_envelope :
    (type machine robot id at : String) (payload e : Fields)
    → build_envelope type machine robot payload id at ≡ ok e
    → (parse_envelope e ≡ ok e) × KeysSafe (obj e)
unfolding build_envelope
build_envelope-parse_envelope type machine robot id at payload e h =
    let (same, safe) = refuse_sensitive-ok (envelope type machine robot payload id at) e h in
    let (complete, has_payload) = envelope_complete type machine robot id at payload in
    rw same (
      parse_envelope_kept (envelope type machine robot payload id at) complete has_payload safe,
      contains-KeysSafe (obj (envelope type machine robot payload id at)) safe,
    )

parse_parts :
    (ms : List String) (b : Bool) (d e : Fields)
    → (require_none ms >> (require_object b >> refuse_sensitive d)) ≡ ok e
    → (ms ≡ []) × (b ≡ true) × (refuse_sensitive d ≡ ok e)
unfolding require_none require_object
parse_parts [] true d e h = (refl, refl, h)
parse_parts [] false d e h = cc
parse_parts (m ∷ ms) b d e h = cc

none_missing :
    (ks : List String) (raw : Fields)
    → missing_fields ks raw ≡ []
    → All (λ k. has_key k raw ≡ true) ks
unfolding missing_fields
none_missing [] raw h = tt
none_missing (k ∷ ks) raw h = elim (Bool-cases (has_key k raw)) [
  | inl e ↦ (e, none_missing ks raw (rw e at h))
  | inr e ↦ cc (rw e at h)
]

-- What is accepted is the message as it came: it has the six fields, its payload is a dict, and no key
-- of it is sensitive, at any depth.
parse_envelope_lem :
    (raw e : Fields)
    → parse_envelope raw ≡ ok e
    → (e ≡ raw)
      × All (λ k. has_key k raw ≡ true) required_fields
      × (is_obj (get_or "payload" null raw) ≡ true)
      × KeysSafe (obj raw)
unfolding parse_envelope
parse_envelope_lem raw e h =
    let (complete, has_payload, accepted) =
      parse_parts (missing_fields required_fields raw) (is_obj (get_or "payload" null raw)) raw e
        h in
    let (same, safe) = refuse_sensitive-ok raw e accepted in
    (same, none_missing required_fields raw complete, has_payload, contains-KeysSafe (obj raw) safe)
