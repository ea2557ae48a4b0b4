-- ===== src/Store/Tasks/Resume.antt =====
-- What resuming a task does, and when it is refused.
use rpa_group.Prelude.{
  String, Bool, true, false, ◌&&◌, Option, none, some, List, [], ◌∷◌, ◌≡◌, refl, arith, ◌==◌,
  eq_iff, Bool-cases, inl, inr, if◌then◌else◌, find, select, update_where, All, ok, err,
  ok_injective, Error, key_error,
}
use rpa_group.Prelude.Tables.Lookups.{find-update_self, find-update_other, select-update_other}
use rpa_group.Prelude.Value.{Fields}
use rpa_group.Domain.StateMachine.{
  TaskStatus, waiting_login, waiting_manual_selection, waiting_manual_intervention,
  waiting_test_confirmation, check_transition,
}
use rpa_group.Store.Rows.{Task, ManualAction, Db, task_is}
use rpa_group.Store.Tasks.{get_task}
use rpa_group.Store.Tasks.Resumption.{
  resume_target_status, requeue, resolve, pending_action, resume_task,
}

-- The statuses that a person can resume a task from.
abbrev pub resumable : List TaskStatus
resumable =
    waiting_login ∷ waiting_manual_selection ∷ waiting_manual_intervention
    ∷ waiting_test_confirmation ∷ []

-- The target of a resumption is a transition of the table: `resume_task` never raises
-- InvalidTaskTransition.
pub resume_target_allowed :
    (s t : TaskStatus) → resume_target_status s ≡ ok t → check_transition s t ≡ ok tt
unfolding resume_target_status check_transition
resume_target_allowed waiting_login t h = rw (← ok_injective h)
resume_target_allowed waiting_manual_selection t h = rw (← ok_injective h)
resume_target_allowed waiting_manual_intervention t h = rw (← ok_injective h)
resume_target_allowed waiting_test_confirmation t h = rw (← ok_injective h)
resume_target_allowed _ t h = cc

and-false : (b : Bool) → (b && false) ≡ false
and-false true = refl
and-false false = refl

-- One row of the UPDATE of manual_actions is not pending afterwards.
not_pending :
    (now task_id by : String) (c : Option Fields) (a : ManualAction)
    → pending_action task_id (if pending_action task_id a then resolve now by c a else a) ≡ false
unfolding resolve
not_pending now task_id by c a = elim (Bool-cases (pending_action task_id a)) [
  | inl p ↦ rw p (and-false (a.task_id == task_id))
  | inr p ↦ rw p p
]

no_pending :
    (now task_id by : String) (c : Option Fields) (actions : List ManualAction)
    → All
        (λ a. pending_action task_id a ≡ false)
        (update_where (pending_action task_id) (resolve now by c) actions)
no_pending now task_id by c [] = tt
no_pending now task_id by c (a ∷ actions) =
    (not_pending now task_id by c a, no_pending now task_id by c actions)

module _ (uuid now later task_id by : String) (chosen : Option Fields) (s : Db) where
  -- The database after the transaction of `resume_task`.
  abbrev pub resumed : TaskStatus → Db
  resumed target = record s {
    tasks = update_where (task_is task_id) (requeue now target) s.tasks;
    manual_actions = update_where (pending_action task_id) (resolve now by chosen) s.manual_actions;
  }

  resume_missing :
      (note : String)
      → find (task_is task_id) s.tasks ≡ none
      → resume_task uuid now later task_id by chosen note s ≡ (err (key_error task_id), s)
  unfolding resume_task get_task
  resume_missing note absent = rw absent

  -- A task that is not waiting for a person is refused with ValueError, and nothing changes.
  pub resume_refused :
      (note : String) (t : Task) (e : Error)
      → find (task_is task_id) s.tasks ≡ some t
      → resume_target_status t.status ≡ err e
      → resume_task uuid now later task_id by chosen note s ≡ (err e, s)
  unfolding resume_task get_task
  resume_refused note t e known no_target = rw (known, no_target)

  resume_silent :
      (t : Task) (target : TaskStatus)
      → find (task_is task_id) s.tasks ≡ some t
      → resume_target_status t.status ≡ ok target
      → resume_task uuid now later task_id by chosen "" s ≡ (ok target, resumed target)
  unfolding resume_task get_task
  resume_silent t target known has_target =
      rw (known, has_target, resume_target_allowed t.status target has_target)

  -- Resuming a task that waits for a person, with no note: the task gets the target status and the
  -- time of the update and has no robot, its other columns and the other tasks do not change, none of its actions is pending any more, and every action of
  -- another task is what it was.
  pub resume_task_lem :
      (t : Task) (target : TaskStatus) (j : String)
      → find (task_is task_id) s.tasks ≡ some t
      → resume_target_status t.status ≡ ok target
      → (task_id == j) ≡ false
      → let (r, s') = resume_task uuid now later task_id by chosen "" s in
        (r ≡ ok target)
        × (find (task_is task_id) s'.tasks
            ≡ some (record t { status = target; assigned_robot_id = none; updated_at = now }))
        × (find (task_is j) s'.tasks ≡ find (task_is j) s.tasks)
        × All (λ a. (a.task_id == task_id && a.status == "pending") ≡ false) s'.manual_actions
        × (select (λ (a : ManualAction). a.task_id == j) s'.manual_actions
            ≡ select (λ (a : ManualAction). a.task_id == j) s.manual_actions)
  unfolding requeue
  resume_task_lem t target j known has_target apart = rw (resume_silent t target known has_target) (
    refl,
    find-update_self (task_is task_id) (requeue now target) s.tasks t (λ x. unfold requeue in refl)
        known,
    find-update_other (task_is j) (task_is task_id) (requeue now target) s.tasks
        (λ x. unfold requeue in refl)
        (λ x h. ground (arith, eq_iff x.id j, eq_iff x.id task_id, eq_iff task_id j)),
    no_pending now task_id by chosen s.manual_actions,
    select-update_other (λ (a : ManualAction). a.task_id == j) (pending_action task_id)
        (resolve now by chosen) s.manual_actions (λ x. unfold resolve in refl)
        (λ x h. ground (arith, eq_iff x.task_id j, eq_iff x.task_id task_id, eq_iff task_id j)),
  )
