-- ===== src/Integrations/Jdy/Corps.antt =====
-- Which row of a search `resolve_unique_corp` takes.
use rpa_group.Prelude.{
  String, false, ◌≡◌, ◌↔◌, refl, ap, List, [], ◌∷◌, ◌==◌, if◌then◌else◌, is_empty, select, strip,
  Result, ok, Bool-cases, inl, inr, ok_injective,
}
use rpa_group.Prelude.Value.{Value, int, str, Fields, end, field, ℤ, pos}
use rpa_group.Integrations.Jdy.{
  JdyRequest, JdyCorpDeploy, only_row, corp_rows, search_corp_deploy_list, resolve_unique_corp,
}

-- The request of a search.
abbrev pub search_request : String → JdyRequest
search_request filter_text = record {
  path = "/api/fx_sa/wxwork/get_corp_deploy_list";
  payload =
      field "filter" (str (strip filter_text))
        (field "skip" (int (pos 0)) (field "limit" (int (pos 10)) end));
}

-- What is searched for, and which of the rows found come into question: all of them where the CorpID
-- is given, and those of exactly this name where it is not.
abbrev pub key_of : String → String → String
key_of plain_corp_id enterprise_name =
    if is_empty (strip plain_corp_id) then strip enterprise_name else strip plain_corp_id

abbrev pub candidates : String → String → List JdyCorpDeploy → List JdyCorpDeploy
candidates plain_corp_id enterprise_name rows =
    if is_empty (strip plain_corp_id)
    then select (λ row. row.name == strip enterprise_name) rows
    else rows

only_row_lem :
    (l : List JdyCorpDeploy) (many few : String) (r : JdyCorpDeploy)
    → (only_row l many few ≡ ok r) ↔ (l ≡ r ∷ [])
only_row_lem [] many few r = ((λ e. cc e), (λ e. cc e))
only_row_lem (q ∷ []) many few r = ((λ e. ap (λ x. x ∷ []) (ok_injective e)), (λ e. cc e))
only_row_lem (q ∷ p ∷ rest) many few r = ((λ e. cc e), (λ e. cc e))

module _ (post_json : JdyRequest → Result Fields) (repr : Value → String)
    (int_of : Value → Result ℤ) where
  -- Where a CorpID or a name is given and the search is answered with rows, the method returns a row
  -- exactly when that row is the only one in question: of those found by CorpID, or of those found by
  -- name that have exactly this name. It makes the one request.
  pub resolve_unique_corp_lem :
      (plain_corp_id enterprise_name : String) (answer : Fields) (rows : List JdyCorpDeploy)
      (r : JdyCorpDeploy)
      → is_empty (key_of plain_corp_id enterprise_name) ≡ false
      → post_json (search_request (key_of plain_corp_id enterprise_name)) ≡ ok answer
      → corp_rows post_json repr int_of answer ≡ ok rows
      → let out = resolve_unique_corp post_json repr int_of plain_corp_id enterprise_name in
        ((out.0 ≡ ok r) ↔ (candidates plain_corp_id enterprise_name rows ≡ r ∷ []))
        × (out.1 ≡ search_request (key_of plain_corp_id enterprise_name) ∷ [])
  unfolding resolve_unique_corp search_corp_deploy_list
  resolve_unique_corp_lem plain_corp_id enterprise_name answer rows r given answered parsed =
      elim (Bool-cases (is_empty (strip plain_corp_id))) [
        | inl e ↦ rw (e, rw e at given, rw e at answered, parsed) (only_row_lem _ _ _ r, refl)
        | inr e ↦ rw (e, rw e at answered, parsed) (only_row_lem _ _ _ r, refl)
      ]
