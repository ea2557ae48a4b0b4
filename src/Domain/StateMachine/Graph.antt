-- ===== src/Domain/StateMachine/Graph.antt =====
-- The transition table as a graph: which statuses are final, and what is reachable from where.
use rpa_group.Prelude.{
  String, ◌≡◌, refl, sym, ◌↔◌, true, false, if◌then◌else◌, List, [], ◌∷◌, eq_iff, arith,
  invalid_transition, ok, err,
}
use rpa_group.Domain.StateMachine.{
  TaskStatus, pending, running, success, failed, cancelled, status_value, parse_status,
  allowed_transitions, terminal_statuses, status_in, check_transition, ensure_task_transition,
  transition_message, all_statuses, member_of,
}

-- Every status is read back from its value.
pub parse_status-status_value : (s : TaskStatus) → parse_status (status_value s) ≡ ok s
unfolding parse_status
parse_status-status_value pending = refl
parse_status-status_value _ = refl

member_of_sound :
    (t : String) (l : List TaskStatus) (s : TaskStatus) → member_of t l ≡ ok s → status_value s ≡ t
unfolding member_of
member_of_sound t [] s h = cc
member_of_sound t (x ∷ xs) s h = ground (arith, eq_iff (status_value x) t, member_of_sound t xs s)

-- A text is read as a status exactly if it is that status's value.
pub parse_status_iff :
    (t : String) (s : TaskStatus) → (parse_status t ≡ ok s) ↔ (t ≡ status_value s)
unfolding parse_status
parse_status_iff t s =
    (λ h. sym (member_of_sound t all_statuses s h), λ e. rw e (parse_status-status_value s))

-- A status has no transition out of it exactly if it is one of TERMINAL_STATUSES.
pub terminal_iff_stuck :
    (s : TaskStatus) → (status_in s terminal_statuses ≡ true) ↔ (allowed_transitions s ≡ [])
terminal_iff_stuck pending = (λ h. cc, λ h. cc)
terminal_iff_stuck _ = (λ h. cc, λ h. cc)

infix 40 ◌⟶◌ ◌⟶*◌
-- One transition that `ensure_task_transition` accepts.
abbrev pub ◌⟶◌ : TaskStatus → TaskStatus → Type 0
s ⟶ t = check_transition s t ≡ ok tt

-- A sequence of them.
pub data ◌⟶*◌ : TaskStatus → TaskStatus → Type 0 where
  here : {s : TaskStatus} → s ⟶* s
  step_to : {s t u : TaskStatus} → s ⟶ t → t ⟶* u → s ⟶* u

-- `ensure_task_transition` on two statuses' values: it passes exactly for the table's pairs, and
-- otherwise it raises InvalidTaskTransition with both values in the message.
ensure_task_transition-values :
    (s t : TaskStatus)
    → ensure_task_transition (status_value s) (status_value t) ≡ (
        if status_in t (allowed_transitions s)
        then ok tt
        else err (invalid_transition (transition_message s t)))
unfolding ensure_task_transition
ensure_task_transition-values s t = rw (parse_status-status_value s, parse_status-status_value t)

step_from_terminal : (s t : TaskStatus) → status_in s terminal_statuses ≡ true → ¬ (s ⟶ t)
unfolding check_transition
step_from_terminal success t h e = cc
step_from_terminal failed t h e = cc
step_from_terminal cancelled t h e = cc
step_from_terminal _ t h e = cc

-- Nothing leads out of a terminal status.
terminal_absorbs : {s t : TaskStatus} → status_in s terminal_statuses ≡ true → s ⟶* t → t ≡ s
terminal_absorbs h here = refl
terminal_absorbs {s} h (step_to {t = u} e r) = absurd (step_from_terminal s u h e)

to_running : (s : TaskStatus) → status_in s terminal_statuses ≡ false → s ⟶* running
unfolding check_transition
to_running running h = here
to_running success h = cc
to_running failed h = cc
to_running cancelled h = cc
to_running pending h = step_to {t = running} refl here
to_running _ h = step_to {t = running} refl here

then_trans : {s t u : TaskStatus} → s ⟶* t → t ⟶* u → s ⟶* u
then_trans here r = r
then_trans (step_to e q) r = step_to e (then_trans q r)

-- A task that is not finished can still end in each of the three terminal statuses.
unfinished_can_end :
    (s t : TaskStatus)
    → status_in s terminal_statuses ≡ false
    → status_in t terminal_statuses ≡ true
    → s ⟶* t
unfolding check_transition
unfinished_can_end s success h k = then_trans (to_running s h) (step_to refl here)
unfinished_can_end s failed h k = then_trans (to_running s h) (step_to refl here)
unfinished_can_end s cancelled h k = then_trans (to_running s h) (step_to refl here)
unfinished_can_end s _ h k = cc
