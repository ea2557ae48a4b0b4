-- ===== src/Integrations/Wecom/Apps.antt =====
-- Which app `resolve_unique_custom_app` takes.
use rpa_group.Prelude.{
  String, ◌≡◌, refl, sym, ap, ◌∙◌, subst, List, [], ◌∷◌, ◌==◌, ◌&&◌, eq_iff, if◌then◌else◌, All,
  Result, ok, err, Bool-cases, inl, inr, ok_injective, >>=-eq-ok,
}
use rpa_group.Prelude.Logged.{lift, ◌>>=◌}
use rpa_group.Prelude.Value.{
  Value, null, bool, int, str, arr, obj, Items, nil, cons, Fields, get_or, ℤ,
}
use rpa_group.Integrations.Answers.{or_zero, text_of}
use rpa_group.Integrations.Wecom.Answers.{WecomCustomApp, extract_corpapp_rows, parse_custom_app}
use rpa_group.Integrations.Wecom.{
  WecomRequest, matching, only_app, app_list_request, resolve_unique_custom_app,
}

module _ (transport : WecomRequest → Result Fields) (repr : Value → String)
    (int_of : Value → Result ℤ) where
  -- A row carries the names that were asked for.
  abbrev pub IsNamed : String → String → Fields → Type 0
  IsNamed enterprise_name suite_name row =
      (text_of repr "authcorp_name" row ≡ enterprise_name) × (text_of repr "name" row ≡ suite_name)

  -- One row more.
  keep_row-IsNamed :
      (enterprise_name suite_name : String) (row : Fields) (rest : List Fields)
      → All (IsNamed enterprise_name suite_name) rest
      → All (IsNamed enterprise_name suite_name) (
          if text_of repr "authcorp_name" row == enterprise_name
            && text_of repr "name" row == suite_name
          then row ∷ rest
          else rest)
  keep_row-IsNamed enterprise_name suite_name row rest h =
      elim (Bool-cases (text_of repr "authcorp_name" row == enterprise_name)) [
        | inl e ↦ elim (Bool-cases (text_of repr "name" row == suite_name)) [
          | inl k ↦ rw (e, k) (((eq_iff _ _).0 e, (eq_iff _ _).0 k), h)
          | inr k ↦ rw (e, k) h
        ]
        | inr e ↦ rw e h
      ]

  matching_step :
      (enterprise_name suite_name : String) (row : Fields) (rows : Items) (found : List Fields)
      (r : Result (List Fields))
      → matching transport repr int_of enterprise_name suite_name rows ≡ r
      → ((rest : List Fields) → r ≡ ok rest → All (IsNamed enterprise_name suite_name) rest)
      → matching transport repr int_of enterprise_name suite_name (cons (obj row) rows) ≡ ok found
      → All (IsNamed enterprise_name suite_name) found
  unfolding matching
  matching_step enterprise_name suite_name row rows found (err e) q ih h = cc (rw q at h)
  matching_step enterprise_name suite_name row rows found (ok rest) q ih h =
      subst (All (IsNamed enterprise_name suite_name)) (ok_injective (rw q at h))
        (keep_row-IsNamed enterprise_name suite_name row rest (ih rest refl))

  matching-IsNamed :
      (enterprise_name suite_name : String) (rows : Items) (found : List Fields)
      → matching transport repr int_of enterprise_name suite_name rows ≡ ok found
      → All (IsNamed enterprise_name suite_name) found
  unfolding matching
  matching-IsNamed enterprise_name suite_name nil found h =
      subst (All (IsNamed enterprise_name suite_name)) (ok_injective h) tt
  matching-IsNamed enterprise_name suite_name (cons (obj row) rows) found h =
      matching_step enterprise_name suite_name row rows found _ refl
        (matching-IsNamed enterprise_name suite_name rows) h
  matching-IsNamed enterprise_name suite_name (cons null rows) found h = cc
  matching-IsNamed enterprise_name suite_name (cons (bool b) rows) found h = cc
  matching-IsNamed enterprise_name suite_name (cons (int n) rows) found h = cc
  matching-IsNamed enterprise_name suite_name (cons (str s) rows) found h = cc
  matching-IsNamed enterprise_name suite_name (cons (arr vs) rows) found h = cc

  parse_custom_app_lem :
      (row : Fields) (app : WecomCustomApp)
      → parse_custom_app repr int_of row ≡ ok app
      → (row ≡ app.raw)
        × (text_of repr "authcorp_name" row ≡ app.authcorp_name)
        × (text_of repr "name" row ≡ app.name)
  unfolding parse_custom_app
  parse_custom_app_lem row app h =
      let (status, p, q) =
        >>=-eq-ok (int_of (or_zero (get_or "customized_app_status" null row))) _ h in
      let same = ok_injective q in
      (
        ap (λ (x : WecomCustomApp). x.raw) same,
        ap (λ (x : WecomCustomApp). x.authcorp_name) same,
        ap (λ (x : WecomCustomApp). x.name) same,
      )

  -- An app that is returned comes from the only row of the answer with the names that were asked for,
  -- and has these names itself.
  pub resolve_unique_custom_app_lem :
      (suiteid : ℤ) (enterprise_name suite_name : String) (answer : Fields) (rows : Items)
      (app : WecomCustomApp)
      → transport (app_list_request transport repr int_of suiteid enterprise_name) ≡ ok answer
      → extract_corpapp_rows repr answer ≡ ok rows
      → (resolve_unique_custom_app transport repr int_of suiteid enterprise_name suite_name).0
        ≡ ok app
      → (matching transport repr int_of enterprise_name suite_name rows ≡ ok (app.raw ∷ []))
        × (app.authcorp_name ≡ enterprise_name)
        × (app.name ≡ suite_name)
  unfolding resolve_unique_custom_app
  resolve_unique_custom_app_lem suiteid enterprise_name suite_name answer rows app answered read h =
      go _ refl (rw (answered, read) at h)
    where
      go :
          (r : Result (List Fields))
          → matching transport repr int_of enterprise_name suite_name rows ≡ r
          → (lift {W = WecomRequest} r >>= λ found. lift (only_app transport repr int_of found)).0
            ≡ ok app
          → (matching transport repr int_of enterprise_name suite_name rows ≡ ok (app.raw ∷ []))
            × (app.authcorp_name ≡ enterprise_name)
            × (app.name ≡ suite_name)
      go (err e) q k = cc
      go (ok []) q k = cc
      go (ok (row ∷ other ∷ rest)) q k = cc
      go (ok (row ∷ [])) q k =
          let (raw, corp, name) = parse_custom_app_lem row app k in
          let (named, end) = matching-IsNamed enterprise_name suite_name rows (row ∷ []) q in
          (q ∙ ap (λ x. ok (x ∷ [])) raw, sym corp ∙ named.0, sym name ∙ named.1)
