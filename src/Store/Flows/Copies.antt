-- ===== src/Store/Flows/Copies.antt =====
-- New versions: what `create_flow_version` stores, and that a copy has the steps of its source.
use rpa_group.Prelude.{
  ℕ, ◌+◌, ◌<◌, ◌≤◌, ◌⊎◌, eqb, ltb, ap, subst, sym, ◌&&◌, String, true, false, some, none, List, [],
  ◌∷◌, ◌++◌, ◌≡◌, refl, arith, ◌==◌, eq_iff, Bool-cases, inl, inr, find, any, update_where, All,
  Result, ok, err, Error, value_error,
}
use rpa_group.Prelude.Tables.Lookups.{All-append, find_elem_All}
use rpa_group.Prelude.Value.{Value, arr, Items}
use rpa_group.Domain.FlowSteps.{validate_steps}
use rpa_group.Domain.FlowSteps.Rules.{validate_steps_idem}
use rpa_group.Store.Rows.{FlowVersion, Db, draft, template_is, version_is}
use rpa_group.Store.Flows.{
  max_version, create_flow_version, copy_flow_version, get_flow_version, new_version, set_draft,
}
use rpa_group.Store.Flows.Versions.{next_number_free}

-- Every stored version passes the checks of `validate_steps`, unchanged.
abbrev pub StepsValid : (Value → String) → List FlowVersion → Type 0
StepsValid repr = All (λ v. validate_steps repr (arr v.steps) false ≡ ok v.steps)

-- One more than the greatest number of a version of the template, or 1 if it has none.
abbrev pub IsNext : String → ℕ → List FlowVersion → Type 0
IsNext template n vs =
    All (λ v. (v.flow_template_id == template) ≡ true → v.version_no < n) vs
    × ((n ≡ 1) ⊎ (any (λ v. v.flow_template_id == template && eqb (v.version_no + 1) n) vs ≡ true))

greatest :
    (template : String) (vs : List FlowVersion) (n : ℕ)
    → max_version template vs ≤ n
    → All (λ v. (v.flow_template_id == template) ≡ true → v.version_no < n + 1) vs
unfolding max_version
greatest template [] n h = tt
greatest template (v ∷ vs) n h =
    ((λ own. ground (arith, h, own)), greatest template vs n (ground (arith, h)))

abbrev Attained : String → ℕ → List FlowVersion → Type 0
Attained template n vs =
    (n ≡ 0)
    ⊎ (any (λ v. v.flow_template_id == template && eqb (v.version_no + 1) (n + 1)) vs ≡ true)

Attained-later :
    (template : String) (n : ℕ) (v : FlowVersion) (vs : List FlowVersion)
    → Attained template n vs
    → Attained template n (v ∷ vs)
Attained-later template n v vs (inl e) = inl e
Attained-later template n v vs (inr h) = inr (ground (arith, h))

Attained-first :
    (template : String) (v : FlowVersion) (vs : List FlowVersion)
    → (v.flow_template_id == template) ≡ true
    → Attained template v.version_no (v ∷ vs)
Attained-first template v vs own = inr (ground (arith, own))

max_version-Attained :
    (template : String) (vs : List FlowVersion) → Attained template (max_version template vs) vs
unfolding max_version
max_version-Attained template [] = inl refl
max_version-Attained template (v ∷ vs) =
    elim (Bool-cases
      (v.flow_template_id == template && ltb (max_version template vs) v.version_no)) [
        | inl newer ↦
            let greatest_is : max_version template (v ∷ vs) ≡ v.version_no = rw newer refl in
            subst (λ n. Attained template n (v ∷ vs)) (sym greatest_is)
              (Attained-first template v vs (ground (arith, newer)))
        | inr older ↦
            let greatest_is : max_version template (v ∷ vs) ≡ max_version template vs =
              rw older refl in
            subst (λ n. Attained template n (v ∷ vs)) (sym greatest_is)
              (Attained-later template (max_version template vs) v vs
                (max_version-Attained template vs))
      ]

max_version-IsNext :
    (template : String) (vs : List FlowVersion) → IsNext template (max_version template vs + 1) vs
unfolding max_version
max_version-IsNext template vs = (
  greatest template vs (max_version template vs) (omega arith),
  (elim (max_version-Attained template vs) [ inl e ↦ inl (ap (λ n. n + 1) e) | inr h ↦ inr h ]),
)

module _ (repr : Value → String) (uuid now template created_by : String) (s : Db) where
  -- The database with the new draft.
  abbrev pub with_draft : Items → Db
  with_draft steps = record s {
    flow_versions =
        s.flow_versions
        ++ new_version uuid now template (max_version template s.flow_versions + 1) steps created_by
          ∷ [];
    flow_templates = update_where (template_is template) (set_draft uuid now) s.flow_templates;
  }

  -- Steps that pass the checks are stored under the next number of the template, which never breaks
  -- the UNIQUE constraint, as a draft that the template refers to.
  create_flow_version_lem :
      (steps : Value) (out : Items)
      → validate_steps repr steps false ≡ ok out
      → any (version_is uuid) s.flow_versions ≡ false
      → any (template_is template) s.flow_templates ≡ true
      → create_flow_version repr uuid now template steps created_by s ≡ (ok uuid, with_draft out)
  unfolding create_flow_version
  create_flow_version_lem steps out valid fresh known = rw (
    valid,
    fresh,
    next_number_free template s.flow_versions (max_version template s.flow_versions + 1)
        (omega arith),
    known,
  )

  -- Steps that do not pass are refused with the error of `validate_steps`, and nothing changes.
  pub create_refused :
      (steps : Value) (e : Error)
      → validate_steps repr steps false ≡ err e
      → create_flow_version repr uuid now template steps created_by s ≡ (err e, s)
  unfolding create_flow_version
  create_refused steps e invalid = rw invalid

  create_valid_steps :
      (steps : Value) (out : Items)
      → validate_steps repr steps false ≡ ok out
      → StepsValid repr s.flow_versions
      → StepsValid repr
          (create_flow_version repr uuid now template steps created_by s).1.flow_versions
  unfolding create_flow_version
  create_valid_steps steps out valid h = elim (Bool-cases (any (version_is uuid) s.flow_versions)) [
    | inl taken ↦ rw (valid, taken) h
    | inr fresh ↦ elim (Bool-cases (any (template_is template) s.flow_templates)) [
      | inr unknown ↦
          rw
            (
              valid,
              fresh,
              next_number_free template s.flow_versions (max_version template s.flow_versions + 1)
                  (omega arith),
              unknown,
            )
            h
      | inl known ↦ rw (create_flow_version_lem steps out valid fresh known) (
          All-append (λ (v : FlowVersion). validate_steps repr (arr v.steps) false ≡ ok v.steps)
            s.flow_versions _ h
            (unfold new_version in (validate_steps_idem repr steps false out valid, tt)))
    ]
  ]

  -- `create_flow_version` keeps every stored version valid, also where it raises.
  create-StepsValid :
      (steps : Value)
      → StepsValid repr s.flow_versions
      → StepsValid repr
          (create_flow_version repr uuid now template steps created_by s).1.flow_versions
  create-StepsValid steps h = go (validate_steps repr steps false) refl
    where
      go :
          (r : Result Items)
          → validate_steps repr steps false ≡ r
          → StepsValid repr
              (create_flow_version repr uuid now template steps created_by s).1.flow_versions
      go (ok out) valid = create_valid_steps steps out valid h
      go (err e) invalid = rw (create_refused steps e invalid) h

  -- Where every stored version is valid, a copy of a version of a known template, under a new id,
  -- never fails on its steps. Its row is the only one that is added: a draft of the template that was
  -- never published, with exactly the steps of its source, under a number that is one more than the
  -- greatest of the template's, or 1. Of the templates only the draft of this one is set, to the copy.
  pub copy_flow_version_lem :
      (source : String) (v : FlowVersion)
      → StepsValid repr s.flow_versions
      → find (version_is source) s.flow_versions ≡ some v
      → v.flow_template_id ≡ template
      → any (version_is uuid) s.flow_versions ≡ false
      → any (template_is template) s.flow_templates ≡ true
      → (number : ℕ) × IsNext template number s.flow_versions
        × (copy_flow_version repr uuid now template source created_by s ≡ (
          ok uuid,
          record s {
            flow_versions =
                s.flow_versions
                ++ record {
                  id = uuid;
                  flow_template_id = template;
                  version_no = number;
                  status = draft;
                  steps = v.steps;
                  created_by = created_by;
                  published_at = none;
                  created_at = now;
                  updated_at = now;
                }
                  ∷ [];
            flow_templates =
                update_where
                  (λ t. t.id == template)
                  (λ t. record t { draft_version_id = some uuid; updated_at = now })
                  s.flow_templates;
          },
        ))
  unfolding copy_flow_version get_flow_version new_version set_draft
  copy_flow_version_lem source v h found own fresh known =
      let valid =
        find_elem_All (λ (x : FlowVersion). validate_steps repr (arr x.steps) false ≡ ok x.steps)
          (version_is source) s.flow_versions v h found in
      (
        max_version template s.flow_versions + 1,
        max_version-IsNext template s.flow_versions,
        rw (found, (eq_iff v.flow_template_id template).1 own)
            (create_flow_version_lem (arr v.steps) v.steps valid fresh known),
      )

  -- A copy of a version that another template has is refused, and nothing changes.
  pub copy_refused :
      (source : String) (v : FlowVersion)
      → find (version_is source) s.flow_versions ≡ some v
      → (v.flow_template_id == template) ≡ false
      → copy_flow_version repr uuid now template source created_by s
        ≡ (err (value_error "Flow version does not belong to template"), s)
  unfolding copy_flow_version get_flow_version
  copy_refused source v found other = rw (found, other)
