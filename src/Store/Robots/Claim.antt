-- ===== src/Store/Robots/Claim.antt =====
-- What a claim does, and what robots that claim in turn can never get.
pub mod Schedule
use rpa_group.Prelude.{
  ℕ, ◌+◌, String, Bool, true, false, Option, none, some, List, [], ◌∷◌, ◌≡◌, ◌≢◌, refl, sym, ap,
  ap₂, subst, ◌∙◌, arith, ◌==◌, eq_iff, eq_refl, Bool-cases, Option-cases, inl, inr, if◌then◌else◌,
  find, update_where, All, key_error, ok, err, Result,
}
use rpa_group.Prelude.Tables.Ordered.{Elem}
use rpa_group.Prelude.Tables.Lookups.{
  find-update_self, find-update_where, find-update_other, on_some, find_sound,
}
use rpa_group.Domain.StateMachine.{checking_login}
use rpa_group.Store.Rows.{Task, Robot, Db, task_is, robot_is}
use rpa_group.Store.Exec.{commit_or_rollback}
use rpa_group.Store.Robots.{
  is_runnable, claimed_before, next_task, claimed_by, claim_rows, with_status, claim_found,
  claim_next, claim_time, claim_next_runnable_task,
}
use rpa_group.Store.Robots.Order.{next_task-first, next_task-none}

-- Each id is that of one row.
abbrev pub HasUniqueIds : List Task → Type 0
HasUniqueIds tasks = (u : Task) → Elem u tasks → find (task_is u.id) tasks ≡ some u

-- The claimed row, read back after the UPDATE.
pub claimed_row :
    (robot now : String) (t : Task) (s : Db)
    → find (task_is t.id) s.tasks ≡ some t
    → find (task_is t.id) (claim_rows robot now t.id s).tasks ≡ some (claimed_by robot now t)
unfolding claim_rows
claimed_row robot now t s h =
    find-update_self (task_is t.id) (claimed_by robot now) s.tasks t
      (λ x. unfold claimed_by in refl) h

claimed_other :
    (robot now : String) (t : Task) (s : Db) (j : String)
    → (t.id == j) ≡ false
    → find (task_is j) (claim_rows robot now t.id s).tasks ≡ find (task_is j) s.tasks
unfolding claim_rows
claimed_other robot now t s j apart =
    find-update_other (task_is j) (task_is t.id) (claimed_by robot now) s.tasks
      (λ x. unfold claimed_by in refl)
      (λ x h. ground (arith, eq_iff x.id j, eq_iff x.id t.id, eq_iff t.id j))

-- The ways in which a claim by `robot` at the time `now` can end. The row that is handed out is read
-- back after the two UPDATEs.
pub data Outcome (robot now : String) (s : Db) : Result (Option Task) × Db → Type 0 where
  unknown_robot :
      find (robot_is robot) s.robots ≡ none → Outcome robot now s (err (key_error robot), s)
  not_idle :
      (r : Robot)
      → find (robot_is robot) s.robots ≡ some r
      → r.status ≢ "idle"
      → Outcome robot now s (ok none, s)
  nothing_runnable :
      (r : Robot)
      → find (robot_is robot) s.robots ≡ some r
      → r.status ≡ "idle"
      → ((u : Task) → Elem u s.tasks → is_runnable now u ≡ false)
      → Outcome robot now s (ok none, s)
  claimed :
      (r : Robot) (t : Task)
      → find (robot_is robot) s.robots ≡ some r
      → r.status ≡ "idle"
      → Elem t s.tasks
      → is_runnable now t ≡ true
      → ((u : Task) → Elem u s.tasks → is_runnable now u ≡ true → claimed_before t u ≡ true)
      → Outcome robot now s (
        ok (find (task_is t.id) (claim_rows robot now t.id s).tasks),
        claim_rows robot now t.id s,
      )

module _ (clock robot : String) (time : Option String) (s : Db) where
  abbrev now : String
  now = claim_time time clock

  claim_by_idle :
      (r : Robot) (found : Option Task)
      → find (robot_is robot) s.robots ≡ some r
      → r.status ≡ "idle"
      → next_task now s.tasks ≡ found
      → Outcome robot now s (claim_next robot now s)
  unfolding claim_next
  claim_by_idle r none known idle e =
      rw e (nothing_runnable r known idle (next_task-none now s.tasks e))
  claim_by_idle r (some t) known idle e =
      let (there, passes, first) = next_task-first now s.tasks t e in
      rw e (claimed r t known idle there passes first)

  -- No outcome leaves a change behind an exception.
  Outcome-commit :
      {p : Result (Option Task) × Db}
      → Outcome robot now s p
      → Outcome robot now s (commit_or_rollback p.0 s p.1)
  Outcome-commit (unknown_robot h) = unknown_robot h
  Outcome-commit (not_idle r h k) = not_idle r h k
  Outcome-commit (nothing_runnable r h k l) = nothing_runnable r h k l
  Outcome-commit (claimed r t h k l m n) = claimed r t h k l m n

  -- A claim raises KeyError for a robot that is not registered; it gives nothing and changes nothing
  -- if the robot is not idle or no task can be run; and else it hands out a task that can be run and
  -- that no other task that can be run comes before, with the two UPDATEs done.
  pub claim-Outcome : Outcome robot now s (claim_next_runnable_task clock robot time s)
  unfolding claim_next_runnable_task
  claim-Outcome = elim (Option-cases (find (robot_is robot) s.robots)) [
    | inl absent ↦ rw absent (unknown_robot absent)
    | inr (r, known) ↦ elim (Bool-cases (r.status == "idle")) [
      | inl idle ↦
          let same = (eq_iff r.status "idle").0 idle in
          rw (known)
            (rw idle (Outcome-commit (claim_by_idle r (next_task now s.tasks) known same refl)))
      | inr busy ↦ rw known (rw busy (not_idle r known (λ e. cc (rw e at busy))))
    ]
  ]

-- If each id is that of one row, the row that is handed out is the claimed task with the changes of
-- the claim. A task with another id is what it was.
claim_rows_lem :
    (robot now j : String) (t : Task) (s : Db)
    → HasUniqueIds s.tasks
    → Elem t s.tasks
    → (t.id == j) ≡ false
    → (find (task_is t.id) (claim_rows robot now t.id s).tasks ≡ some (claimed_by robot now t))
      × (find (task_is j) (claim_rows robot now t.id s).tasks ≡ find (task_is j) s.tasks)
claim_rows_lem robot now j t s unique there apart =
    (claimed_row robot now t s (unique t there), claimed_other robot now t s j apart)

-- A claim by an idle robot where a task can be run, whose id is its own.
pub claim_succeeds :
    (clock robot : String) (time : Option String) (s : Db) (r : Robot) (t : Task)
    → find (robot_is robot) s.robots ≡ some r
    → r.status ≡ "idle"
    → next_task (claim_time time clock) s.tasks ≡ some t
    → find (task_is t.id) s.tasks ≡ some t
    → claim_next_runnable_task clock robot time s ≡ (
      ok (some (claimed_by robot (claim_time time clock) t)),
      claim_rows robot (claim_time time clock) t.id s,
    )
unfolding claim_next_runnable_task claim_next claim_found
claim_succeeds clock robot time s r t has_robot idle next known =
    rw
      (
        has_robot,
        (eq_iff r.status "idle").1 idle,
        next,
        claimed_row robot (claim_time time clock) t s known,
      )
      refl

-- The robot is busy after its claim.
pub claim_rows-busy :
    (robot now id : String) (s : Db) (r : Robot)
    → find (robot_is robot) s.robots ≡ some r
    → find (robot_is robot) (claim_rows robot now id s).robots ≡ some (with_status "busy" now r)
unfolding claim_rows
claim_rows-busy robot now id s r h =
    find-update_self (robot_is robot) (with_status "busy" now) s.robots r (λ x. refl) h
