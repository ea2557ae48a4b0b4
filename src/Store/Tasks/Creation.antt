-- ===== src/Store/Tasks/Creation.antt =====
-- Tasks are created once for each idempotency key.
use rpa_group.Prelude.{
  String, true, false, none, some, List, [], ◌∷◌, ◌++◌, ◌≡◌, refl, ap, ◌∙◌, arith, eq_iff, eq_refl,
  Bool-cases, Option-cases, inl, inr, find, any, Result, ok, err, Error, value_error, if_true,
  ok_injective,
}
use rpa_group.Prelude.Tables.Lookups.{find-append}
use rpa_group.Store.Rows.{FlowVersion, Task, Db, task_is, team_is}
use rpa_group.Store.Tasks.{
  TaskRequest, TaskCreateResult, has_key, published_version, new_task,
  create_task_from_published_flow,
}

module _ (uuid now : String) (r : TaskRequest) (s : Db) where
  -- The database with the new task.
  abbrev pub with_task : FlowVersion → Db
  with_task v = record s { tasks = s.tasks ++ new_task uuid now r v ∷ [] }

  -- A key that a task has already gives that task's id, and nothing changes.
  pub create_task_again :
      (t : Task)
      → find (has_key r.idempotency_key) s.tasks ≡ some t
      → create_task_from_published_flow uuid now r s
        ≡ (ok (record { task_id = t.id; created = false }), s)
  unfolding create_task_from_published_flow
  create_task_again t h = rw h

  -- A new key for a template of the team with a published version gives a new pending task, which
  -- keeps the steps of that version.
  pub create_task_new :
      (v : FlowVersion)
      → find (has_key r.idempotency_key) s.tasks ≡ none
      → published_version r s ≡ some v
      → any (task_is uuid) s.tasks ≡ false
      → any (team_is r.team_id) s.teams ≡ true
      → create_task_from_published_flow uuid now r s
        ≡ (ok (record { task_id = uuid; created = true }), with_task v)
  unfolding create_task_from_published_flow
  create_task_new v new_key found fresh team = rw (new_key, found, fresh, team)

  -- With no published version the request is refused, and nothing changes.
  pub create_task_refused :
      find (has_key r.idempotency_key) s.tasks ≡ none
      → published_version r s ≡ none
      → create_task_from_published_flow uuid now r s
        ≡ (err (value_error "Flow template has no published version"), s)
  unfolding create_task_from_published_flow
  create_task_refused new_key absent = rw (new_key, absent)

-- The ways in which a call of `create_task_from_published_flow` can end.
pub data Creation (uuid now : String) (r : TaskRequest) (s : Db)
    : Result TaskCreateResult × Db → Type 0 where
  again :
      (t : Task)
      → find (has_key r.idempotency_key) s.tasks ≡ some t
      → Creation uuid now r s (ok (record { task_id = t.id; created = false }), s)
  created_new :
      (v : FlowVersion)
      → find (has_key r.idempotency_key) s.tasks ≡ none
      → published_version r s ≡ some v
      → Creation uuid now r s
          (ok (record { task_id = uuid; created = true }), with_task uuid now r s v)
  refused : (e : Error) → Creation uuid now r s (err e, s)

module _ (uuid now : String) (r : TaskRequest) (s : Db) where
  create_with_version :
      (v : FlowVersion)
      → find (has_key r.idempotency_key) s.tasks ≡ none
      → published_version r s ≡ some v
      → Creation uuid now r s (create_task_from_published_flow uuid now r s)
  unfolding create_task_from_published_flow
  create_with_version v new_key found = elim (Bool-cases (any (task_is uuid) s.tasks)) [
    | inl taken ↦ rw (new_key, found, taken) (refused _)
    | inr fresh ↦ elim (Bool-cases (any (team_is r.team_id) s.teams)) [
      | inl team ↦
          rw (create_task_new uuid now r s v new_key found fresh team) (created_new v new_key found)
      | inr no_team ↦ rw (new_key, found, fresh, no_team) (refused _)
    ]
  ]

  -- A request ends in one of three ways: it gives the id of the task that has its key; it adds one
  -- pending task for the published version; or it raises and changes nothing.
  create-Creation : Creation uuid now r s (create_task_from_published_flow uuid now r s)
  create-Creation = elim (Option-cases (find (has_key r.idempotency_key) s.tasks)) [
    | inr (t, h) ↦ rw (create_task_again uuid now r s t h) (again t h)
    | inl new_key ↦ elim (Option-cases (published_version r s)) [
      | inl absent ↦ rw (create_task_refused uuid now r s new_key absent) (refused _)
      | inr (v, found) ↦ create_with_version v new_key found
    ]
  ]

find_new :
    (uuid now key : String) (r : TaskRequest) (s : Db) (v : FlowVersion)
    → key ≡ r.idempotency_key
    → find (has_key r.idempotency_key) s.tasks ≡ none
    → find (has_key key) (with_task uuid now r s v).tasks ≡ some (new_task uuid now r v)
unfolding new_task
find_new uuid now key r s v same h = rw same (
    find-append (has_key r.idempotency_key) s.tasks (new_task uuid now r v ∷ [])
    ∙ (rw h (if_true _ _ (eq_refl r.idempotency_key))))

-- `p` is what the first request gave.
again_after :
    (uuid now uuid' now' : String) (r r' : TaskRequest) (s : Db) (x : TaskCreateResult)
    {p : Result TaskCreateResult × Db}
    → r'.idempotency_key ≡ r.idempotency_key
    → Creation uuid now r s p
    → p.0 ≡ ok x
    → create_task_from_published_flow uuid' now' r' p.1
      ≡ (ok (record { task_id = x.task_id; created = false }), p.1)
unfolding new_task
again_after uuid now uuid' now' r r' s x same (again t h) e =
    create_task_again uuid' now' r' s t (rw same h)
    ∙ ap (λ (y : TaskCreateResult). (ok (record { task_id = y.task_id; created = false }), s))
        (ok_injective e)
again_after uuid now uuid' now' r r' s x same (created_new v h k) e =
    create_task_again uuid' now' r' (with_task uuid now r s v) (new_task uuid now r v)
      (find_new uuid now r'.idempotency_key r s v same h)
    ∙ ap
        (λ (y : TaskCreateResult).
          (ok (record { task_id = y.task_id; created = false }), with_task uuid now r s v))
        (ok_injective e)
again_after uuid now uuid' now' r r' s x same (refused y) e = cc

-- Once a request has succeeded, every later request with its key, whatever else it asks for, gives
-- the id of the same task, says that nothing was created, and changes nothing.
pub create_task_once :
    (uuid now uuid' now' : String) (r r' : TaskRequest) (s : Db) (x : TaskCreateResult)
    → r'.idempotency_key ≡ r.idempotency_key
    → (create_task_from_published_flow uuid now r s).0 ≡ ok x
    → let s' = (create_task_from_published_flow uuid now r s).1 in
      create_task_from_published_flow uuid' now' r' s'
      ≡ (ok (record { task_id = x.task_id; created = false }), s')
create_task_once uuid now uuid' now' r r' s x same e =
    again_after uuid now uuid' now' r r' s x same (create-Creation uuid now r s) e

-- No two tasks have one idempotency key.
abbrev pub KeysDistinct : List Task → Type 0
KeysDistinct [] = Unit
KeysDistinct (t ∷ ts) = (find (has_key t.idempotency_key) ts ≡ none) × KeysDistinct ts

KeysDistinct-append :
    (ts : List Task) (n : Task)
    → KeysDistinct ts
    → find (has_key n.idempotency_key) ts ≡ none
    → KeysDistinct (ts ++ n ∷ [])
KeysDistinct-append [] n h k = (refl, tt)
KeysDistinct-append (t ∷ ts) n h k = ground (
  arith,
  KeysDistinct-append ts n h.1,
  find-append (has_key t.idempotency_key) ts (n ∷ []),
  eq_iff t.idempotency_key n.idempotency_key,
  eq_iff n.idempotency_key t.idempotency_key,
)

-- The UNIQUE constraint on the keys never fails: the keys stay distinct under every request.
create-KeysDistinct :
    (uuid now : String) (r : TaskRequest) (s : Db)
    → KeysDistinct s.tasks
    → KeysDistinct (create_task_from_published_flow uuid now r s).1.tasks
create-KeysDistinct uuid now r s h = go (create-Creation uuid now r s)
  where
    go : {p : Result TaskCreateResult × Db} → Creation uuid now r s p → KeysDistinct p.1.tasks
    go (again t e) = h
    go (refused e) = h
    go (created_new v e k) =
        KeysDistinct-append s.tasks (new_task uuid now r v) h (unfold new_task in e)
