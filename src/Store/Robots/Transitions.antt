-- ===== src/Store/Robots/Transitions.antt =====
-- The claim's change of a task's status, against the table of transitions.
use rpa_group.Prelude.{
  String, ◌≡◌, ◌≢◌, ◌↔◌, true, Option, some, refl, ok, Result, find, sym, subst, ◌∙◌, ok_injective,
  some_injective,
}
use rpa_group.Domain.StateMachine.{
  TaskStatus, pending, checking_login, running, waiting_login, waiting_manual_selection,
  waiting_manual_intervention, waiting_wecom_review, waiting_wecom_online_delay, ready_to_online,
  waiting_test_confirmation, jdy_callback_failed, success, failed, cancelled, check_transition,
}
use rpa_group.Prelude.Tables.Ordered.{Elem}
use rpa_group.Store.Rows.{Task, Db, task_is}
use rpa_group.Store.Robots.{
  runnable_in, is_runnable, claimed_by, claim_rows, claim_time, claim_next_runnable_task,
}
use rpa_group.Store.Robots.Claim.{
  HasUniqueIds, Outcome, unknown_robot, not_idle, nothing_runnable, claimed, claimed_row,
  claim-Outcome,
}

-- The statuses of the WHERE clause, against the row of checking_login in the table.
leaves_for_login :
    (now : String) (status : TaskStatus) (at : Option String)
    → runnable_in now status at ≡ true
    → (check_transition status checking_login ≡ ok tt) ↔ (status ≢ jdy_callback_failed)
unfolding runnable_in check_transition
leaves_for_login now pending at h = ((λ e k. cc k), (λ k. refl))
leaves_for_login now ready_to_online at h = ((λ e k. cc k), (λ k. refl))
leaves_for_login now waiting_wecom_review at h = ((λ e k. cc k), (λ k. refl))
leaves_for_login now waiting_wecom_online_delay at h = ((λ e k. cc k), (λ k. refl))
leaves_for_login now jdy_callback_failed at h = ((λ e. cc e), (λ k. absurd (k refl)))
leaves_for_login now checking_login at h = cc
leaves_for_login now running at h = cc
leaves_for_login now waiting_login at h = cc
leaves_for_login now waiting_manual_selection at h = cc
leaves_for_login now waiting_manual_intervention at h = cc
leaves_for_login now waiting_test_confirmation at h = cc
leaves_for_login now success at h = cc
leaves_for_login now failed at h = cc
leaves_for_login now cancelled at h = cc

module _ (robot now : String) (s : Db) (unique : HasUniqueIds s.tasks) where
  -- What is known of a task that was handed out, whose row is one of `s'`.
  abbrev pub HandedOut : Task → Db → Type 0
  HandedOut t' s' =
      (t : Task) × (find (task_is t'.id) s.tasks ≡ some t)
      × (t'.status ≡ checking_login)
      × (find (task_is t'.id) s'.tasks ≡ some t')
      × ((check_transition t.status t'.status ≡ ok tt) ↔ (t.status ≢ jdy_callback_failed))

  claimed-HandedOut :
      (t : Task)
      → Elem t s.tasks
      → is_runnable now t ≡ true
      → HandedOut (claimed_by robot now t) (claim_rows robot now t.id s)
  claimed-HandedOut t there passes =
      unfold claimed_by in
      (
        t,
        unique t there,
        refl,
        claimed_row robot now t s (unique t there),
        leaves_for_login now t.status t.next_check_at passes,
      )

  Outcome-HandedOut :
      {p : Result (Option Task) × Db} (t' : Task)
      → Outcome robot now s p
      → p.0 ≡ ok (some t')
      → HandedOut t' p.1
  Outcome-HandedOut t' (unknown_robot h) e = cc e
  Outcome-HandedOut t' (not_idle r h k) e = cc e
  Outcome-HandedOut t' (nothing_runnable r h k l) e = cc e
  Outcome-HandedOut t' (claimed r t h k there passes first) e =
      subst (λ x. HandedOut x (claim_rows robot now t.id s))
        (some_injective (sym (claimed_row robot now t s (unique t there)) ∙ ok_injective e))
        (claimed-HandedOut t there passes)

-- The task that a claim hands out, where each id is that of one row, was in the store under its id.
-- Its row there afterwards is the one that is handed out, in checking_login. The table of transitions
-- allows this change of its status unless its status was jdy_callback_failed, and only then.
pub claim_transition :
    (clock robot : String) (time : Option String) (s s' : Db) (t' : Task)
    → HasUniqueIds s.tasks
    → claim_next_runnable_task clock robot time s ≡ (ok (some t'), s')
    → (t : Task) × (find (task_is t'.id) s.tasks ≡ some t)
      × (t'.status ≡ checking_login)
      × (find (task_is t'.id) s'.tasks ≡ some t')
      × ((check_transition t.status t'.status ≡ ok tt) ↔ (t.status ≢ jdy_callback_failed))
claim_transition clock robot time s s' t' unique e =
    Outcome-HandedOut robot (claim_time time clock) s unique {p = (ok (some t'), s')} t'
      (subst (Outcome robot (claim_time time clock) s) e (claim-Outcome clock robot time s)) refl
