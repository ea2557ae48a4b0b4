-- ===== src/Worker/BindRunner/Keeps.antt =====
-- What the store's calls of the runner keep: that the failure of the run can be recorded.
use rpa_group.Prelude.{
  String, true, false, ◌≡◌, refl, ◌∙◌, Option-cases, Option, none, ◌==◌, any, find, Result, ok, err,
  Bool-cases, inl, inr,
}
use rpa_group.Prelude.Tables.Lookups.{any-append, any-update_where}
use rpa_group.Prelude.Value.{Fields}
use rpa_group.Domain.StateMachine.{TaskStatus}
use rpa_group.Store.Rows.{Task, Db, task_is, step_is}
use rpa_group.Store.Exec.{Exec, bind_result, ◌>>=◌}
use rpa_group.Store.Tasks.{
  get_task, get_task_context, merge_task_context, set_task_current_step, set_task_status,
}
use rpa_group.Store.Tasks.Records.{append_task_step}
use rpa_group.Store.Robots.{update_robot_status}

-- The task is known, and no step has the uuid that the failure record takes.
abbrev pub CanRecord : String → String → Db → Type 0
CanRecord uuid task_id s =
    (any (step_is uuid) s.task_steps ≡ false) × (any (task_is task_id) s.tasks ≡ true)

-- The method keeps `P`, whether it returns or raises.
abbrev pub Keeps : {A : Type 0} → (Db → Type 0) → Exec A → Type 0
Keeps P m = (s : Db) → P s → P (m s).1

module _ {A B : Type 0} (P : Db → Type 0) where
  bind_result-Keeps :
      (r : Result A) (f : A → Exec B) (s : Db)
      → ((a : A) → Keeps P (f a))
      → P s
      → P (bind_result r f s).1
  bind_result-Keeps (ok a) f s h p = h a s p
  bind_result-Keeps (err e) f s h p = p

  pub >>=-Keeps :
      (m : Exec A) (f : A → Exec B) → Keeps P m → ((a : A) → Keeps P (f a)) → Keeps P (m >>= f)
  >>=-Keeps m f k h s p = bind_result-Keeps (m s).0 f (m s).1 h (k s p)

module _ (uuid task_id : String) where
  abbrev pub P : Db → Type 0
  P = CanRecord uuid task_id

  pub set_task_current_step-Keeps :
      (now step_key : String) → Keeps P (set_task_current_step now task_id step_key)
  unfolding set_task_current_step
  set_task_current_step-Keeps now step_key s (fresh, known) =
      let kept =
        any-update_where (task_is task_id) (task_is task_id)
          (λ (t : Task). record t { current_step_key = step_key; updated_at = now }) s.tasks
          (λ x. refl)
        ∙ known in
      rw kept (fresh, kept)

  pub get_task_context-Keeps : Keeps P (get_task_context task_id)
  unfolding get_task_context get_task
  get_task_context-Keeps s p = elim (Option-cases (find (task_is task_id) s.tasks)) [
    | inl missing ↦ rw missing p
    | inr (t, found) ↦ rw found p
  ]

  pub merge_task_context-Keeps :
      (now : String) (patch : Fields) → Keeps P (merge_task_context now task_id patch)
  unfolding merge_task_context
  merge_task_context-Keeps now patch s (fresh, known) =
      elim (Option-cases (find (task_is task_id) s.tasks)) [
        | inl missing ↦ rw missing (fresh, known)
        | inr (t, found) ↦ rw found (
          fresh,
          any-update_where (task_is task_id) (task_is task_id) _ s.tasks (λ x. refl) ∙ known,
        )
      ]

  pub set_task_status-Keeps :
      (now : String) (status : TaskStatus) (at : Option String) (robot : Option String)
      → Keeps P (set_task_status now task_id status at none robot)
  unfolding set_task_status
  set_task_status-Keeps now status at robot s (fresh, known) =
      (fresh, any-update_where (task_is task_id) (task_is task_id) _ s.tasks (λ x. refl) ∙ known)

  pub update_robot_status-Keeps :
      (now robot_id status : String) → Keeps P (update_robot_status now robot_id status)
  unfolding update_robot_status
  update_robot_status-Keeps now robot_id status s p = p

  pub append_task_step-Keeps :
      (id now key name status : String) (input output : Fields)
      → id == uuid ≡ false
      → Keeps P (append_task_step id now task_id key name status input output)
  unfolding append_task_step
  append_task_step-Keeps id now key name status input output other s (fresh, known) =
      elim (Bool-cases (any (step_is id) s.task_steps)) [
        | inl taken ↦ rw taken (fresh, known)
        | inr free ↦
            rw (free, known)
              (any-append (step_is uuid) s.task_steps _ ∙ rw (fresh, other) refl, known)
      ]
