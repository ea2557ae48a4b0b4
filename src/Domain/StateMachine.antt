-- ===== src/Domain/StateMachine.antt =====
-- rpa_platform/domain/state_machine.py: the statuses of a task and the transitions between them.
-- An exception's message is a text with the values in it, as the f-string builds it.
pub mod Graph
use rpa_group.Prelude.{
  String, ◌≡◌, refl, Bool, true, false, List, [], ◌∷◌, ◌==◌, if◌then◌else◌, is_empty, join2, Error,
  value_error, invalid_transition, Result, ok, err, ◌>>=◌,
}

pub data TaskStatus : Type 0 where
  pending checking_login running waiting_login waiting_manual_selection : TaskStatus
  waiting_manual_intervention waiting_wecom_review waiting_wecom_online_delay : TaskStatus
  ready_to_online waiting_test_confirmation jdy_callback_failed success failed : TaskStatus
  cancelled : TaskStatus

pub TaskStatus-discrete : Discrete TaskStatus
TaskStatus-discrete = hlevel

-- TaskStatus.value
abbrev pub status_value : TaskStatus → String
status_value pending = "pending"
status_value checking_login = "checking_login"
status_value running = "running"
status_value waiting_login = "waiting_login"
status_value waiting_manual_selection = "waiting_manual_selection"
status_value waiting_manual_intervention = "waiting_manual_intervention"
status_value waiting_wecom_review = "waiting_wecom_review"
status_value waiting_wecom_online_delay = "waiting_wecom_online_delay"
status_value ready_to_online = "ready_to_online"
status_value waiting_test_confirmation = "waiting_test_confirmation"
status_value jdy_callback_failed = "jdy_callback_failed"
status_value success = "success"
status_value failed = "failed"
status_value cancelled = "cancelled"

-- The members of the enum, in its order.
abbrev pub all_statuses : List TaskStatus
all_statuses =
    pending ∷ checking_login ∷ running ∷ waiting_login ∷ waiting_manual_selection
    ∷ waiting_manual_intervention ∷ waiting_wecom_review ∷ waiting_wecom_online_delay
    ∷ ready_to_online ∷ waiting_test_confirmation ∷ jdy_callback_failed ∷ success ∷ failed
    ∷ cancelled ∷ []

-- The member of a list with a given value; ValueError if there is none.
unfoldable pub member_of : String → List TaskStatus → Result TaskStatus
member_of s [] = err (value_error (join2 s " is not a valid TaskStatus"))
member_of s (t ∷ ts) = if status_value t == s then ok t else member_of s ts

-- TaskStatus(text)
unfoldable pub parse_status : String → Result TaskStatus
unfolding member_of
parse_status s = member_of s all_statuses

-- ALLOWED_TASK_TRANSITIONS[status]
abbrev pub allowed_transitions : TaskStatus → List TaskStatus
allowed_transitions pending = checking_login ∷ running ∷ cancelled ∷ []
allowed_transitions checking_login = running ∷ waiting_login ∷ failed ∷ []
allowed_transitions running =
    waiting_login ∷ waiting_manual_selection ∷ waiting_manual_intervention ∷ waiting_wecom_review
    ∷ waiting_wecom_online_delay ∷ ready_to_online ∷ waiting_test_confirmation ∷ jdy_callback_failed
    ∷ success ∷ failed ∷ cancelled ∷ []
allowed_transitions waiting_login = checking_login ∷ running ∷ cancelled ∷ []
allowed_transitions waiting_manual_selection =
    checking_login ∷ running ∷ waiting_manual_intervention ∷ cancelled ∷ []
allowed_transitions waiting_manual_intervention = checking_login ∷ running ∷ cancelled ∷ []
allowed_transitions waiting_wecom_review =
    checking_login ∷ running ∷ ready_to_online ∷ waiting_manual_intervention ∷ failed ∷ cancelled
    ∷ []
allowed_transitions waiting_wecom_online_delay =
    checking_login ∷ running ∷ success ∷ failed ∷ waiting_manual_intervention ∷ cancelled ∷ []
allowed_transitions ready_to_online = checking_login ∷ running ∷ success ∷ failed ∷ cancelled ∷ []
allowed_transitions waiting_test_confirmation =
    running ∷ waiting_manual_intervention ∷ cancelled ∷ []
allowed_transitions jdy_callback_failed = running ∷ success ∷ failed ∷ cancelled ∷ []
allowed_transitions success = []
allowed_transitions failed = []
allowed_transitions cancelled = []

-- TERMINAL_STATUSES
abbrev pub terminal_statuses : List TaskStatus
terminal_statuses = success ∷ failed ∷ cancelled ∷ []

-- `status in …`: members of an enum of texts are equal exactly if their values are.
abbrev pub same_status : TaskStatus → TaskStatus → Bool
same_status s t = status_value s == status_value t

abbrev pub status_in : TaskStatus → List TaskStatus → Bool
status_in s [] = false
status_in s (t ∷ ts) = if same_status s t then true else status_in s ts

unfoldable pub transition_message : TaskStatus → TaskStatus → String
transition_message s t =
    join2 "Invalid task transition: " (join2 (status_value s) (join2 " -> " (status_value t)))

-- The test of `ensure_task_transition` on two members.
unfoldable pub check_transition : TaskStatus → TaskStatus → Result (Unit {0})
check_transition s t =
    if status_in t (allowed_transitions s)
    then ok tt
    else err (invalid_transition (transition_message s t))

-- ensure_task_transition(current, target), each a status or the text of one.
unfoldable pub ensure_task_transition : String → String → Result (Unit {0})
unfolding check_transition
ensure_task_transition current target = do
  s ← parse_status current
  t ← parse_status target
  check_transition s t

parse_known : parse_status "ready_to_online" ≡ ok ready_to_online
unfolding parse_status
parse_known = refl

refused_transition :
    ensure_task_transition "success" "running"
    ≡ err (invalid_transition "Invalid task transition: success -> running")
unfolding ensure_task_transition parse_status transition_message
refused_transition = refl
