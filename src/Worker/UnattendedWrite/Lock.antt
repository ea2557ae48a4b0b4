-- ===== src/Worker/UnattendedWrite/Lock.antt =====
-- Runs of wecom_bind_unattended_write.py side by side, which share the context's file and the lock's
-- file. A run reads the context before it takes the lock, so others can act between the two.
pub mod Runs
use rpa_group.Prelude.{
  ℕ, String, Bool, List, [], ◌∷◌, Result, Error, true, false, none, some, Option, ◌≡◌, ◌≢◌, ◌⊎◌,
  refl, sym, ap, subst, ◌∙◌, arith, eqb, inl, inr, if◌then◌else◌, Bool-cases, Option-cases,
  some_injective,
}
use rpa_group.Prelude.Value.{Value, Fields, ℤ}
use rpa_group.Services.Bind.Backends.{Secrets}
use rpa_group.Services.Write.{writes, asks, WriteClients}
use rpa_group.Services.Write
use rpa_group.Worker.UnattendedWrite.Reports.{Texts}
use rpa_group.Worker.UnattendedWrite.{
  Files, is_success_context, acquire_lock, release_lock, file_after, attempt_write, run_locked,
  run_unattended_write,
}

-- Where a run is in its function: not at the context yet, before the lock, in the `try`, or over.
pub data Phase : Type 0 where
  starting checked writing finished : Phase

pub record System : Type 0 where
  pub phases : ℕ → Phase
  pub files : Files

abbrev pub at_phase : ℕ → Phase → (ℕ → Phase) → ℕ → Phase
at_phase i p phases j = if eqb j i then p else phases j

-- One step of the run `i`, for the task `task i`.
pub data Step (task : ℕ → String) : System → System → Type 0 where
  already_completed :
      (i : ℕ) (s : System)
      → s.phases i ≡ starting
      → is_success_context s.files.context ≡ true
      → Step task s (record s { phases = at_phase i finished s.phases })
  context_read :
      (i : ℕ) (s : System)
      → s.phases i ≡ starting
      → is_success_context s.files.context ≡ false
      → Step task s (record s { phases = at_phase i checked s.phases })
  lock_taken :
      (i : ℕ) (s : System) (files' : Files)
      → s.phases i ≡ checked
      → acquire_lock (task i) s.files ≡ (true, files')
      → Step task s (record { phases = at_phase i writing s.phases; files = files' })
  lock_refused :
      (i : ℕ) (s : System) (files' : Files)
      → s.phases i ≡ checked
      → acquire_lock (task i) s.files ≡ (false, files')
      → Step task s (record { phases = at_phase i finished s.phases; files = files' })
  context_written :
      (i : ℕ) (s : System) (c : Fields)
      → s.phases i ≡ writing
      → Step task s (record s { files = record s.files { context = c } })
  lock_released :
      (i : ℕ) (s : System)
      → s.phases i ≡ writing
      → Step task s (record { phases = at_phase i finished s.phases; files = release_lock s.files })

-- The steps from one system to another.
pub data Steps (task : ℕ → String) (s : System) : System → Type 0 where
  no_step : Steps task s s
  then_step : {s' s'' : System} → Steps task s s' → Step task s' s'' → Steps task s s''

-- Runs that have not started, and the files as they find them.
abbrev pub initial : Files → System
initial files = record { phases = λ i. starting; files = files }

pub at_phase_self : (i : ℕ) (p : Phase) (phases : ℕ → Phase) → at_phase i p phases i ≡ p
at_phase_self i p phases = ground arith

at_phase_other :
    (i j : ℕ) (p : Phase) (phases : ℕ → Phase) → j ≢ i → at_phase i p phases j ≡ phases j
at_phase_other i j p phases apart = elim (Bool-cases (eqb j i)) [
  | inl same ↦ absurd (apart (ground (arith, same)))
  | inr other ↦ rw other refl
]

-- A run that is put into a phase other than `writing` is not one of those that write.
at_phase-writing :
    (i j : ℕ) (p : Phase) (phases : ℕ → Phase)
    → p ≢ writing
    → at_phase i p phases j ≡ writing
    → (phases j ≡ writing) × (j ≢ i)
at_phase-writing i j p phases idle e = elim (Bool-cases (eqb j i)) [
  | inl same ↦ absurd (idle (rw same at e))
  | inr other ↦ (rw other at e, λ h. ground (arith, other, h))
]

-- A lock that is held cannot be taken.
pub held_files :
    (task_id owner : String) (files : Files)
    → files.lock ≡ some owner
    → acquire_lock task_id files ≡ (false, files)
unfolding acquire_lock
held_files task_id owner files held =
    subst
      (λ lock.
        (elim lock as (λ _. Bool × Files) [
          | none ↦ (true, record files { lock = some task_id })
          | some owner ↦ (false, files)
        ])
        ≡ (false, files))
      (sym held) refl

-- A lock that is held is left as it is.
pub refused_files :
    (task_id : String) (files files' : Files)
    → acquire_lock task_id files ≡ (false, files')
    → files ≡ files'
unfolding acquire_lock
refused_files task_id files files' e = same files.lock e
  where
    same :
        (lock : Option String)
        → (elim lock as (λ _. Bool × Files) [
          | none ↦ (true, record files { lock = some task_id })
          | some owner ↦ (false, files)
        ])
          ≡ (false, files')
        → files ≡ files'
    same none e = cc e
    same (some owner) e = ap (λ (r : Bool × Files). r.1) e

module _ (task : ℕ → String) where
  -- The lock is free and no run writes, or one run writes and the lock has its task's id.
  abbrev pub IsExclusive : System → Type 0
  IsExclusive s =
      ((s.files.lock ≡ none) × ((i : ℕ) → s.phases i ≢ writing))
      ⊎ ((i : ℕ) × (s.phases i ≡ writing)
          × (s.files.lock ≡ some (task i))
          × ((j : ℕ) → s.phases j ≡ writing → j ≡ i))

  moved-IsExclusive :
      (i : ℕ) (p : Phase) (s : System)
      → s.phases i ≢ writing
      → p ≢ writing
      → IsExclusive s
      → IsExclusive (record s { phases = at_phase i p s.phases })
  moved-IsExclusive i p s before after (inl (free, idle)) =
      inl (free, λ j e. idle j (at_phase-writing i j p s.phases after e).0)
  moved-IsExclusive i p s before after (inr (k, w, held, only)) = inr (
    k,
    at_phase_other i k p s.phases (λ e. before (subst (λ n. s.phases n ≡ writing) e w)) ∙ w,
    held,
    λ j e. only j (at_phase-writing i j p s.phases after e).0,
  )

  taken-IsExclusive :
      (i : ℕ) (s : System) (files' : Files)
      → acquire_lock (task i) s.files ≡ (true, files')
      → IsExclusive s
      → IsExclusive (record { phases = at_phase i writing s.phases; files = files' })
  unfolding acquire_lock
  taken-IsExclusive i s files' e (inr (k, w, held, only)) = cc (rw held at e)
  taken-IsExclusive i s files' e (inl (free, idle)) = inr (
    i,
    at_phase_self i writing s.phases,
    ap (λ (r : Bool × Files). r.1.lock) (sym (rw free at e)),
    λ j h. (elim (Bool-cases (eqb j i)) [
      | inl same ↦ ground (arith, same)
      | inr other ↦ absurd (idle j (rw other at h))
    ]),
  )

  refused-IsExclusive :
      (i : ℕ) (s : System) (files' : Files)
      → s.phases i ≢ writing
      → acquire_lock (task i) s.files ≡ (false, files')
      → IsExclusive s
      → IsExclusive (record { phases = at_phase i finished s.phases; files = files' })
  refused-IsExclusive i s files' before e h =
      subst (λ f. IsExclusive (record { phases = at_phase i finished s.phases; files = f }))
        (refused_files (task i) s.files files' e)
        (moved-IsExclusive i finished s before (λ c. cc c) h)

  released-IsExclusive :
      (i : ℕ) (s : System)
      → s.phases i ≡ writing
      → IsExclusive s
      → IsExclusive (record { phases = at_phase i finished s.phases; files = release_lock s.files })
  unfolding release_lock
  released-IsExclusive i s w (inl (free, idle)) = absurd (idle i w)
  released-IsExclusive i s w (inr (k, v, held, only)) = inl (
    refl,
    λ j e.
        let (was, apart) = at_phase-writing i j finished s.phases (λ c. cc c) e in
        apart (only j was ∙ sym (only i w)),
  )

  Step-IsExclusive : {s s' : System} → Step task s s' → IsExclusive s → IsExclusive s'
  Step-IsExclusive (already_completed i s e k) h =
      moved-IsExclusive i finished s (λ w. cc (sym e ∙ w)) (λ c. cc c) h
  Step-IsExclusive (context_read i s e k) h =
      moved-IsExclusive i checked s (λ w. cc (sym e ∙ w)) (λ c. cc c) h
  Step-IsExclusive (lock_taken i s files' e k) h = taken-IsExclusive i s files' k h
  Step-IsExclusive (lock_refused i s files' e k) h =
      refused-IsExclusive i s files' (λ w. cc (sym e ∙ w)) k h
  Step-IsExclusive (context_written i s c e) (inl h) = inl h
  Step-IsExclusive (context_written i s c e) (inr h) = inr h
  Step-IsExclusive (lock_released i s e) h = released-IsExclusive i s e h

  pub Steps-IsExclusive : {s s' : System} → Steps task s s' → IsExclusive s → IsExclusive s'
  Steps-IsExclusive no_step h = h
  Steps-IsExclusive (then_step before step) h = Step-IsExclusive step (Steps-IsExclusive before h)

  pub Steps-append : {s s' s'' : System} → Steps task s s' → Steps task s' s'' → Steps task s s''
  Steps-append first no_step = first
  Steps-append first (then_step rest step) = then_step (Steps-append first rest) step

  -- The writes of a run, one after the other.
  pub writes-Steps :
      (i : ℕ) (s : System) (made : List Write.Step)
      → s.phases i ≡ writing
      → Steps task s
          (record s { files = record s.files { context = file_after made s.files.context } })
  unfolding file_after
  writes-Steps i s [] w = no_step
  writes-Steps i s (writes c ∷ made) w =
      Steps-append (then_step no_step (context_written i s c w))
        (writes-Steps i (record s { files = record s.files { context = c } }) made w)
  writes-Steps i s (asks c ∷ made) w = writes-Steps i s made w
