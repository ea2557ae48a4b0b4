-- ===== src/Store/Flows/Versions.antt =====
-- Version numbers, publication and copies.
use rpa_group.Prelude.{
  ℕ, ◌<◌, String, true, false, ◌&&◌, none, some, List, [], ◌∷◌, ◌≡◌, ◌≢◌, refl, sym, ap, subst, ◌∙◌,
  arith, ◌==◌, eq_iff, some_injective, if◌then◌else◌, find, any, update_where, All, value_error, ok,
  err,
}
use rpa_group.Prelude.Tables.Lookups.{
  find_sound, find-update_self, find-update_where, find-and, on_some, on_some-on_some,
}
use rpa_group.Store.Rows.{published, FlowTemplate, FlowVersion, Db, template_is, version_is}
use rpa_group.Store.Flows.{
  max_version, same_number, is_published, archive, publish, publish_rows, publish_flow_version,
  set_published,
}

-- The number that `create_flow_version` gives is free: UNIQUE(flow_template_id, version_no) holds.
pub next_number_free :
    (template : String) (vs : List FlowVersion) (n : ℕ)
    → max_version template vs < n
    → any (same_number template n) vs ≡ false
unfolding max_version
next_number_free template [] n h = refl
next_number_free template (v ∷ vs) n h = ground (arith, next_number_free template vs n)

-- At most the version `id` of the template is published.
abbrev pub OnlyPublished : String → String → List FlowVersion → Type 0
OnlyPublished template id =
    All (λ v. (v.flow_template_id == template) ≡ true → is_published v ≡ true → v.id ≡ id)

-- Both UPDATEs on one row.
abbrev publish_row : String → String → String → FlowVersion → FlowVersion
publish_row now template version v =
    let w = (if v.flow_template_id == template && is_published v then archive now v else v) in
    if version_is version w then publish now w else w

publish_row-only :
    (now template version : String) (v : FlowVersion)
    → let w = publish_row now template version v in
      (w.flow_template_id == template) ≡ true → is_published w ≡ true → w.id ≡ version
unfolding archive publish
publish_row-only now template version v h k = ground (arith, eq_iff v.id version)

publish_rows-OnlyPublished :
    (now template version : String) (rows : List FlowVersion)
    → OnlyPublished template version (publish_rows now template version rows)
unfolding publish_rows
publish_rows-OnlyPublished now template version [] = tt
publish_rows-OnlyPublished now template version (v ∷ rows) =
    (publish_row-only now template version v, publish_rows-OnlyPublished now template version rows)

abbrev archive_row : String → String → FlowVersion → FlowVersion
archive_row now template v =
    if v.flow_template_id == template && is_published v then archive now v else v

-- The row of a version after both UPDATEs.
find-publish_rows :
    (now template version j : String) (rows : List FlowVersion)
    → find (version_is j) (publish_rows now template version rows)
      ≡ on_some (publish_row now template version) (find (version_is j) rows)
unfolding publish_rows
find-publish_rows now template version j rows =
    find-update_where (version_is j) (version_is version) (publish now)
      (update_where (λ v. v.flow_template_id == template && is_published v) (archive now) rows)
      (λ x. unfold publish in refl)
    ∙ ap (on_some (λ (w : FlowVersion). if version_is version w then publish now w else w)) (
        find-update_where (version_is j) (λ v. v.flow_template_id == template && is_published v)
          (archive now) rows (λ x. unfold archive in refl))
    ∙ on_some-on_some _ _ (find (version_is j) rows)

publish_row_chosen :
    (now template version : String) (v : FlowVersion)
    → v.id ≡ version
    → publish_row now template version v ≡ publish now v
unfolding archive publish
publish_row_chosen now template version v h = ground (arith, eq_iff v.id version)

publish_row_other :
    (now template version : String) (v : FlowVersion)
    → (v.flow_template_id == template) ≡ false
    → v.id ≢ version
    → publish_row now template version v ≡ v
unfolding archive publish
publish_row_other now template version v h k = ground (arith, eq_iff v.id version)

module _ (now template version : String) (s : Db) where
  -- A version that the template does not have is refused, and nothing changes.
  pub publish_refused :
      find (λ v. version_is version v && v.flow_template_id == template) s.flow_versions ≡ none
      → publish_flow_version now template version s
        ≡ (err (value_error "Flow version does not belong to template"), s)
  unfolding publish_flow_version
  publish_refused h = rw h

  publish_accepted :
      (v : FlowVersion)
      → find (version_is version) s.flow_versions ≡ some v
      → v.flow_template_id ≡ template
      → publish_flow_version now template version s ≡ (
        ok version,
        record s {
          flow_versions = publish_rows now template version s.flow_versions;
          flow_templates =
              update_where (template_is template) (set_published version now) s.flow_templates;
        },
      )
  unfolding publish_flow_version
  publish_accepted v h own = rw (
      find-and (version_is version) (λ x. x.flow_template_id == template) s.flow_versions v h
        ((eq_iff v.flow_template_id template).1 own))

  -- Publishing a version of the template succeeds. Afterwards it is the only published version of
  -- the template: its status and two times have changed, and its steps, its number and everything else
  -- are as they were; the template refers to it and has no draft; and a version of another template is
  -- untouched.
  pub publish_flow_version_lem :
      (v w : FlowVersion) (t : FlowTemplate) (j : String)
      → find (version_is version) s.flow_versions ≡ some v
      → v.flow_template_id ≡ template
      → find (template_is template) s.flow_templates ≡ some t
      → find (version_is j) s.flow_versions ≡ some w
      → (w.flow_template_id == template) ≡ false
      → let (r, s') = publish_flow_version now template version s in
        (r ≡ ok version)
        × OnlyPublished template version s'.flow_versions
        × (find (version_is version) s'.flow_versions
            ≡ some (record v { status = published; published_at = some now; updated_at = now }))
        × (find (template_is template) s'.flow_templates
            ≡ some (record t {
              published_version_id = some version;
              draft_version_id = none;
              updated_at = now;
            }))
        × (find (version_is j) s'.flow_versions ≡ some w)
  unfolding publish set_published
  publish_flow_version_lem v w t j h own known there apart = rw (publish_accepted v h own) (
    refl,
    publish_rows-OnlyPublished now template version s.flow_versions,
    find-publish_rows now template version version s.flow_versions
        ∙ ap (on_some (publish_row now template version)) h
        ∙ ap some (publish_row_chosen now template version v chosen),
    template_updated,
    other_kept,
  )
    where
      chosen : v.id ≡ version
      chosen = (eq_iff v.id version).0 (find_sound (version_is version) s.flow_versions v h)

      template_updated :
          find
            (template_is template)
            (update_where (template_is template) (set_published version now) s.flow_templates)
          ≡ some (set_published version now t)
      template_updated =
          find-update_self (template_is template) (set_published version now) s.flow_templates t
            (λ x. unfold set_published in refl) known

      clash : w.id ≢ version
      clash same =
          let row = (eq_iff w.id j).0 (find_sound (version_is j) s.flow_versions w there) in
          let chosen_row =
            subst (λ i. find (version_is i) s.flow_versions ≡ some w) (sym row ∙ same) there in
          let w_is_v : w ≡ v = some_injective (sym chosen_row ∙ h) in
          cc (
            apart,
            (eq_iff w.flow_template_id template).1
                (ap (λ (x : FlowVersion). x.flow_template_id) w_is_v ∙ own),
          )

      other_kept : find (version_is j) (publish_rows now template version s.flow_versions) ≡ some w
      other_kept =
          find-publish_rows now template version j s.flow_versions
          ∙ ap (on_some (publish_row now template version)) there
          ∙ ap some (publish_row_other now template version w apart clash)
