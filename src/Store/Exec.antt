-- ===== src/Store/Exec.antt =====
-- A method of `SQLiteStore`: state and exceptions. The state comes back after an exception too.
use rpa_group.Prelude.{
  Bool, true, false, Option, none, some, Error, Result, ok, err, String, integrity_error,
}
use rpa_group.Store.Rows.{Db}

abbrev pub Exec : Type 0 → Type 0
Exec A = Db → Result A × Db

module _ {A : Type 0} where
  abbrev pub pure : A → Exec A
  pure a s = (ok a, s)

  abbrev pub raise : Error → Exec A
  raise e s = (err e, s)

  abbrev pub gets : (Db → A) → Exec A
  gets f s = (ok (f s), s)

  -- `fetchone` followed by a raise if there is no row.
  abbrev pub or_raise : Option A → Error → Exec A
  or_raise none e = raise e
  or_raise (some a) e = pure a

  -- A result of the code that does not touch the database.
  abbrev pub lift : Result A → Exec A
  lift r s = (r, s)

  abbrev pub commit_or_rollback : Result A → Db → Db → Result A × Db
  commit_or_rollback (ok a) before after = (ok a, after)
  commit_or_rollback (err e) before after = (err e, before)

  -- `with self._connect() as conn`: commits at the end of the block, rolls back if it raises.
  abbrev pub transact : Exec A → Exec A
  transact m s = let (r, s') = m s in commit_or_rollback r s s'

abbrev pub modify : (Db → Db) → Exec (Unit {0})
modify f s = (ok tt, f s)

-- A constraint of the schema, which INSERT checks.
abbrev pub require : Bool → String → Exec (Unit {0})
require true message = pure tt
require false message = raise (integrity_error message)

-- `try … except Exception as exc: …`. What the block has done before it raised stays done.
abbrev pub recover : {A : Type 0} → Result A → (Error → Exec A) → Exec A
recover (ok a) handler = pure a
recover (err e) handler = handler e

abbrev pub attempt : {A : Type 0} → Exec A → (Error → Exec A) → Exec A
attempt m handler s = let (r, s') = m s in recover r handler s'

abbrev pub bind_result : {A B : Type 0} → Result A → (A → Exec B) → Exec B
bind_result (ok a) f s = f a s
bind_result (err e) f s = (err e, s)

infixl 5 ◌>>=◌ ◌>>◌
abbrev pub ◌>>=◌ : {A B : Type 0} → Exec A → (A → Exec B) → Exec B
◌>>=◌ m f s = let (r, s') = m s in bind_result r f s'

abbrev pub ◌>>◌ : {A B : Type 0} → Exec A → Exec B → Exec B
m >> k = m >>= λ _. k
