-- ===== src/Store/Robots/Claim/Schedule.antt =====
-- Claims by any robots in any order. Each is one BEGIN IMMEDIATE transaction, so the claims of robots
-- that run at the same time happen one after another.
use rpa_group.Prelude.{
  String, true, false, Option, none, some, List, [], ◌∷◌, ◌≡◌, refl, sym, subst, ◌∙◌, arith, ◌==◌,
  eq_iff, Bool-cases, inl, inr, find, update_where, All, ok, err, Result, one_of, eq-false_of_ne,
}
use rpa_group.Prelude.Tables.Ordered.{Elem, All-Elem}
use rpa_group.Prelude.Tables.Lookups.{All-update_where, find_sound}
use rpa_group.Domain.StateMachine.{checking_login}
use rpa_group.Store.Rows.{Task, Db, task_is}
use rpa_group.Store.Robots.{
  is_runnable, runnable_in, claimed_by, claim_rows, claim_time, claim_next_runnable_task,
}
use rpa_group.Store.Robots.Claim.{
  Outcome, unknown_robot, not_idle, nothing_runnable, claimed, claim-Outcome,
}

-- A robot's call of `claim_next_runnable_task`.
pub record ClaimCall : Type 0 where
  pub clock : String
  pub robot_id : String
  pub time : Option String

abbrev claim : ClaimCall → Db → Result (Option Task) × Db
claim c s = claim_next_runnable_task c.clock c.robot_id c.time s

abbrev add_handed : Result (Option Task) → List String → List String
add_handed (ok (some t)) ids = t.id ∷ ids
add_handed (ok none) ids = ids
add_handed (err e) ids = ids

-- The ids of the tasks that a sequence of claims hands out.
unfoldable pub handed_out : List ClaimCall → Db → List String
handed_out [] s = []
handed_out (c ∷ cs) s = let (r, s') = claim c s in add_handed r (handed_out cs s')

-- No id stands twice.
abbrev pub AllDistinct : List String → Type 0
AllDistinct [] = Unit
AllDistinct (x ∷ xs) = (one_of x xs ≡ false) × AllDistinct xs

-- Every row with that id has been claimed, and is in nobody's reach.
abbrev IsTaken : String → Db → Type 0
IsTaken id s = All (λ (t : Task). t.id ≡ id → t.status ≡ checking_login) s.tasks

not_runnable_when_claimed :
    (now : String) (t : Task) → t.status ≡ checking_login → is_runnable now t ≡ false
unfolding runnable_in
not_runnable_when_claimed now t e = rw e

claim_rows-IsTaken :
    (robot now id i : String) (s : Db) → IsTaken id s → IsTaken id (claim_rows robot now i s)
unfolding claim_rows claimed_by
claim_rows-IsTaken robot now id i s h =
    All-update_where (λ (t : Task). t.id ≡ id → t.status ≡ checking_login) (task_is i)
      (claimed_by robot now) s.tasks (λ x _ _ _. refl) h

claim-All :
    (robot now id : String) (ts : List Task)
    → All
        (λ (t : Task). t.id ≡ id → t.status ≡ checking_login)
        (update_where (task_is id) (claimed_by robot now) ts)
unfolding claimed_by
claim-All robot now id [] = tt
claim-All robot now id (t ∷ ts) = elim (Bool-cases (t.id == id)) [
  | inl e ↦ rw e ((λ _. refl), claim-All robot now id ts)
  | inr e ↦ rw e ((λ same. cc (e, (eq_iff t.id id).1 same)), claim-All robot now id ts)
]

-- What a claim hands out was not taken before it, and is taken after it; what was taken stays so.
abbrev Respects : String → Db → Result (Option Task) × Db → Type 0
Respects id s (ok (some t), s') =
    (IsTaken id s → (t.id == id) ≡ false) × (IsTaken id s → IsTaken id s') × IsTaken t.id s'
Respects id s (ok none, s') = IsTaken id s → IsTaken id s'
Respects id s (err e, s') = IsTaken id s → IsTaken id s'

found-Respects :
    (robot now id : String) (s : Db) (t : Task) (found : Option Task)
    → Elem t s.tasks
    → is_runnable now t ≡ true
    → find (task_is t.id) (claim_rows robot now t.id s).tasks ≡ found
    → Respects id s (ok found, claim_rows robot now t.id s)
found-Respects robot now id s t none there runs e = claim_rows-IsTaken robot now id t.id s
found-Respects robot now id s t (some u) there runs e =
    let same : u.id ≡ t.id =
      (eq_iff u.id t.id).0 (find_sound (task_is t.id) (claim_rows robot now t.id s).tasks u e) in
    (
      λ taken. eq-false_of_ne u.id id (λ clash. cc (
        runs,
        not_runnable_when_claimed now t (
            All-Elem (λ (x : Task). x.id ≡ id → x.status ≡ checking_login) t s.tasks taken there
              (sym same ∙ clash)),
      )),
      claim_rows-IsTaken robot now id t.id s,
      subst (λ i. IsTaken i (claim_rows robot now t.id s)) (sym same)
          (unfold claim_rows in claim-All robot now t.id s.tasks),
    )

Outcome-Respects :
    (robot now id : String) (s : Db) {p : Result (Option Task) × Db}
    → Outcome robot now s p
    → Respects id s p
Outcome-Respects robot now id s (unknown_robot h) = λ taken. taken
Outcome-Respects robot now id s (not_idle r h k) = λ taken. taken
Outcome-Respects robot now id s (nothing_runnable r h k l) = λ taken. taken
Outcome-Respects robot now id s (claimed r t h k there runs n) =
    found-Respects robot now id s t (find (task_is t.id) (claim_rows robot now t.id s).tasks) there
      runs refl

claim-Respects : (c : ClaimCall) (id : String) (s : Db) → Respects id s (claim c s)
claim-Respects c id s =
    Outcome-Respects c.robot_id (claim_time c.time c.clock) id s
      (claim-Outcome c.clock c.robot_id c.time s)

one_of_cons :
    (x y : String) (ys : List String)
    → (y == x) ≡ false
    → one_of x ys ≡ false
    → one_of x (y ∷ ys) ≡ false
one_of_cons x y ys h k = ground (arith, eq_iff x y, eq_iff y x)

-- One more claim: `later` is what the claims after it hand out.
not_handed_step :
    (id : String) (s : Db) (r : Result (Option Task)) (s' : Db) (later : List String)
    → Respects id s (r, s')
    → IsTaken id s
    → (IsTaken id s' → one_of id later ≡ false)
    → one_of id (add_handed r later) ≡ false
not_handed_step id s (ok (some t)) s' later resp taken ih =
    one_of_cons id t.id later (resp.0 taken) (ih (resp.1 taken))
not_handed_step id s (ok none) s' later resp taken ih = ih (resp taken)
not_handed_step id s (err e) s' later resp taken ih = ih (resp taken)

not_handed :
    (id : String) (cs : List ClaimCall) (s : Db)
    → IsTaken id s
    → one_of id (handed_out cs s) ≡ false
unfolding handed_out
not_handed id [] s taken = refl
not_handed id (c ∷ cs) s taken =
    not_handed_step id s (claim c s).0 (claim c s).1 (handed_out cs (claim c s).1)
      (claim-Respects c id s) taken (not_handed id cs (claim c s).1)

distinct_step :
    (s : Db) (r : Result (Option Task)) (s' : Db) (later : List String)
    → ((id : String) → Respects id s (r, s'))
    → ((id : String) → IsTaken id s' → one_of id later ≡ false)
    → AllDistinct later
    → AllDistinct (add_handed r later)
distinct_step s (ok (some t)) s' later resp fresh ih = (fresh t.id (resp t.id).2, ih)
distinct_step s (ok none) s' later resp fresh ih = ih
distinct_step s (err e) s' later resp fresh ih = ih

-- In a sequence of claims, by whatever robots in whatever order and at whatever times, no task is
-- handed out twice.
pub handed_out-AllDistinct : (calls : List ClaimCall) (s : Db) → AllDistinct (handed_out calls s)
unfolding handed_out
handed_out-AllDistinct [] s = tt
handed_out-AllDistinct (c ∷ cs) s =
    distinct_step s (claim c s).0 (claim c s).1 (handed_out cs (claim c s).1)
      (λ id. claim-Respects c id s) (λ id. not_handed id cs (claim c s).1)
      (handed_out-AllDistinct cs (claim c s).1)
