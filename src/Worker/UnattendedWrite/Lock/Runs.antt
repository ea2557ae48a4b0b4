-- ===== src/Worker/UnattendedWrite/Lock/Runs.antt =====
-- A whole run among the steps of others, and that two never write together.
use rpa_group.Prelude.{ℕ, String, Result, Error, ◌≡◌}
use rpa_group.Prelude.Value.{Value, Fields, ℤ}
use rpa_group.Services.Bind.Backends.{Secrets}
use rpa_group.Services.Write.{WriteClients}
use rpa_group.Worker.UnattendedWrite.Reports.{Texts}
use rpa_group.Worker.UnattendedWrite.{Files, run_unattended_write}
use rpa_group.Worker.UnattendedWrite.Lock.{checked, finished, System, at_phase, Steps}

module _ (clients : WriteClients) (repr : Value → String) (int_of : Value → Result ℤ)
    (shape : Fields → String) (str_exc : Error → String) (texts : Texts) (secrets : Secrets)
    (preflight : Result Fields) (login_recovery source : Fields) where
  -- The files after a run of the function for this task.
  abbrev pub files_after : String → Files → Files
  files_after task_id files =
      (run_unattended_write clients repr int_of shape str_exc texts secrets task_id preflight
        login_recovery source files).files

  -- What the run `i` for its task, which has not started, can come to.
  abbrev ReachesEnd : (ℕ → String) → ℕ → System → Type 0
  ReachesEnd task i s =
      (s' : System) × Steps task s s'
      × (s'.phases i ≡ finished)
      × (s'.files ≡ files_after (task i) s.files)

  module _ (task : ℕ → String) (i : ℕ) (s : System) where
    abbrev before : System
    before = record s { phases = at_phase i checked s.phases }
