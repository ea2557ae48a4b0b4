-- ===== src/Worker/Ends.antt =====
-- What the runners share: how a run ends, and in what state a task and its robot are left.
use rpa_group.Prelude.{
  String, true, ◌≡◌, refl, ap, subst, Option, none, List, All, Error, Result, ok, err,
}
use rpa_group.Prelude.Tables.Lookups.{All-updated}
use rpa_group.Domain.StateMachine.{TaskStatus, status_in}
use rpa_group.Store.Rows.{Task, Robot, Db, task_is, robot_is}
use rpa_group.Store.Exec.{Exec, pure, raise, recover, attempt, bind_result, ◌>>=◌, ◌>>◌}
use rpa_group.Store.Tasks.{set_task_status}
use rpa_group.Store.Robots.{update_robot_status, with_status}

-- If the method returns, the tables have `Q` afterwards.
abbrev pub Ends : {A : Type 0} → (Db → Type 0) → Exec A → Type 0
Ends {A} Q m = (s s' : Db) (r : A) → m s ≡ (ok r, s') → Q s'

module _ {A B : Type 0} (Q : Db → Type 0) where
  bind_result-Ends :
      (r : Result A) (f : A → Exec B) (s s' : Db) (b : B)
      → ((a : A) → Ends Q (f a))
      → bind_result r f s ≡ (ok b, s')
      → Q s'
  bind_result-Ends (ok a) f s s' b h e = h a s s' b e
  bind_result-Ends (err x) f s s' b h e = cc (ap (λ (p : Result B × Db). p.0) e)

  -- Only the last call of a block counts.
  pub >>=-Ends : (m : Exec A) (f : A → Exec B) → ((a : A) → Ends Q (f a)) → Ends Q (m >>= f)
  >>=-Ends m f h s s' b e = bind_result-Ends (m s).0 f (m s).1 s' b h e

module _ {B : Type 0} (Q : Db → Type 0) where
  pub raise-Ends : (x : Error) → Ends Q (raise {A = B} x)
  raise-Ends x s s' b e = cc (ap (λ (p : Result B × Db). p.0) e)

module _ {A : Type 0} (Q : Db → Type 0) where
  recover-Ends :
      (r : Result A) (handler : Error → Exec A) (s s' : Db) (b : A)
      → (r ≡ ok b → s ≡ s' → Q s')
      → ((x : Error) → Ends Q (handler x))
      → recover r handler s ≡ (ok b, s')
      → Q s'
  recover-Ends (ok a) handler s s' b h k e =
      h (ap (λ (p : Result A × Db). p.0) e) (ap (λ (p : Result A × Db). p.1) e)
  recover-Ends (err x) handler s s' b h k e = k x s s' b e

  -- A block with a handler ends as its block does or as the handler does.
  pub attempt-Ends :
      (m : Exec A) (handler : Error → Exec A)
      → Ends Q m
      → ((x : Error) → Ends Q (handler x))
      → Ends Q (attempt m handler)
  attempt-Ends m handler h k s s' b e =
      recover-Ends (m s).0 handler (m s).1 s' b (λ p q. h s s' b (λ i. (p i, q i))) k e

-- The robot is idle, and the task is nobody's and in one of the statuses.
abbrev pub IsLeftIn : List TaskStatus → String → String → Db → Type 0
IsLeftIn statuses task_id robot_id s =
    All (λ (r : Robot). robot_is robot_id r ≡ true → r.status ≡ "idle") s.robots
    × All
        (λ (t : Task).
          task_is task_id t ≡ true
          → (status_in t.status statuses ≡ true) × (t.assigned_robot_id ≡ none))
        s.tasks

-- The two calls that end every branch of a runner, whatever the state was before.
abbrev pub let_go : String → String → String → String → TaskStatus → Option String → Exec (Unit {0})
let_go status_time robot_time task_id robot_id status next_check_at = do
  set_task_status status_time task_id status next_check_at none none
  update_robot_status robot_time robot_id "idle"

pub let_go-IsLeftIn :
    (statuses : List TaskStatus) (status_time robot_time task_id robot_id : String)
    (status : TaskStatus) (at : Option String) (s : Db)
    → status_in status statuses ≡ true
    → IsLeftIn statuses task_id robot_id
        (let_go status_time robot_time task_id robot_id status at s).1
unfolding set_task_status update_robot_status
let_go-IsLeftIn statuses status_time robot_time task_id robot_id status at s holds = (
  All-updated _ (robot_is robot_id) (with_status "idle" robot_time) s.robots (λ x h k. refl)
      (λ x h k. cc (h, k)),
  All-updated _ (task_is task_id) _ s.tasks (λ x h k. (holds, refl)) (λ x h k. cc (h, k)),
)

-- The same, where something that depends on neither is returned in the end.
pub let_go-Ends :
    {A : Type 0} (statuses : List TaskStatus) (status_time robot_time task_id robot_id : String)
    (status : TaskStatus) (at : Option String) (result : A)
    → status_in status statuses ≡ true
    → Ends (IsLeftIn statuses task_id robot_id) (do
      set_task_status status_time task_id status at none none
      update_robot_status robot_time robot_id "idle"
      pure result)
unfolding set_task_status update_robot_status
let_go-Ends {A} statuses status_time robot_time task_id robot_id status at result holds s s' r e =
    subst (IsLeftIn statuses task_id robot_id) (ap (λ (p : Result A × Db). p.1) e)
      (let_go-IsLeftIn statuses status_time robot_time task_id robot_id status at s holds)
