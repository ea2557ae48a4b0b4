-- ===== src/Services/Write/Names.antt =====
-- The names by which the preflight and the write know an enterprise.
use rpa_group.Prelude.{
  true, not, ◌&&◌, ◌||◌, ◌≡◌, refl, subst, is_empty, strip, one_of, Bool-cases, inl, inr, Option,
  none, some,
}
use rpa_group.Services.Bind.Backends.{JdyWecomBindInput, JdyCorpDeploy, JdyOwnerCheckResult}
use rpa_group.Services.Bind.{
  or_text, corp_uses_education_suite, with_resolved_wecom_suite, with_corp_default_userid,
}
use rpa_group.Services.Preflight.{
  acceptable_enterprise_names, recover_corp_from_owner, authcorp_name,
}

-- The names of a request stay as they are while it is completed.
pub with_resolved-names :
    (request : JdyWecomBindInput) (corp : JdyCorpDeploy)
    → acceptable_enterprise_names (with_resolved_wecom_suite request corp)
      ≡ acceptable_enterprise_names request
unfolding with_resolved_wecom_suite
with_resolved-names request corp =
    elim (Bool-cases (not request.wecom_suite_explicit && corp_uses_education_suite corp)) [
      | inl e ↦ rw e refl
      | inr e ↦ rw e refl
    ]

pub with_default-names :
    (request : JdyWecomBindInput) (corp : JdyCorpDeploy)
    → acceptable_enterprise_names (with_corp_default_userid request corp)
      ≡ acceptable_enterprise_names request
unfolding with_corp_default_userid
with_default-names request corp =
    elim (Bool-cases
      (not (is_empty (strip request.requested_user_id)) || is_empty (strip corp.default_userid))) [
        | inl e ↦ rw e refl
        | inr e ↦ rw e refl
      ]

pub authcorp_name-acceptable :
    (request : JdyWecomBindInput) (corp : JdyCorpDeploy)
    → one_of corp.name (acceptable_enterprise_names request) ≡ true
    → authcorp_name request corp
      ≡ or_text request.enterprise_short_name (or_text corp.name request.enterprise_name)
unfolding authcorp_name
authcorp_name-acceptable request corp h = rw h refl

pub recovered-acceptable :
    (request : JdyWecomBindInput) (owner : JdyOwnerCheckResult) (corp : JdyCorpDeploy)
    → recover_corp_from_owner request owner ≡ some corp
    → one_of corp.name (acceptable_enterprise_names request) ≡ true
unfolding recover_corp_from_owner
recovered-acceptable request owner corp h =
    elim (Bool-cases (not owner.can_update_corp_secret || is_empty owner.owner_corp_id)) [
      | inl e ↦ cc (rw e at h)
      | inr e ↦
          (elim (Bool-cases (
            one_of
              (or_text owner.corp_name
                (or_text request.enterprise_short_name request.enterprise_name))
              (acceptable_enterprise_names request))) [
                | inl f ↦
                    subst
                      (λ (c : Option JdyCorpDeploy).
                        elim c [
                          | none ↦ true
                          | some x ↦ one_of x.name (acceptable_enterprise_names request)
                        ]
                        ≡ true)
                      (rw (e, f) at h) f
                | inr f ↦ cc (rw (e, f) at h)
              ])
    ]
