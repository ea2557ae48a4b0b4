-- ===== src/Integrations/Wecom/Privileges.antt =====
-- The check marks of the privileges. A dict is marked where it or something in it is a target; the
-- marks go into copies.
use rpa_group.Prelude.{Bool, true, false, ◌||◌, eqb, Result, ok, err}
use rpa_group.Prelude.Value.{
  Value, null, bool, int, str, arr, obj, Items, nil, cons, Fields, end, field, get_or, put, ℤ, pos,
  negsuc,
}
use rpa_group.Integrations.Answers.{or_zero}

-- `… in TARGET_PRIVILEGE_IDS`
abbrev pub is_target : ℤ → Bool
is_target (pos n) = eqb n 310000 || (eqb n 10006 || eqb n 10010)
is_target (negsuc n) = false

module _ (int_of : Value → Result ℤ) where
  or_second : Value → Value → Value
  or_second null w = w
  or_second v w = v

  -- `_privilege_id`. An `id` of None counts as none.
  unfoldable pub privilege_id : Fields → ℤ
  unfolding or_second
  privilege_id d = elim (int_of (or_zero (or_second (get_or "id" null d) (get_or "val" null d)))) [
    | ok n ↦ n
    | err e ↦ pos 0
  ]

  -- `_check_target_privileges`: what it returns, and the value as it leaves it.
  abbrev pub marked : Bool → Fields → Bool × Value
  marked true d = (true, obj (put "b_check" (bool true) d))
  marked false d = (false, obj d)

  unfoldable mutual
    pub check_target_privileges : Value → Bool × Value
    check_target_privileges (obj d) =
        let (inside, checked) = check_fields d in
        marked (is_target (privilege_id d) || inside) checked
    check_target_privileges (arr vs) =
        let (inside, checked) = check_items vs in (inside, arr checked)
    check_target_privileges null = (false, null)
    check_target_privileges (bool b) = (false, bool b)
    check_target_privileges (int n) = (false, int n)
    check_target_privileges (str s) = (false, str s)

    pub check_items : Items → Bool × Items
    check_items nil = (false, nil)
    check_items (cons v vs) =
        let (here, w) = check_target_privileges v in
        let (there, ws) = check_items vs in (here || there, cons w ws)

    pub check_fields : Fields → Bool × Fields
    check_fields end = (false, end)
    check_fields (field k v d) =
        let (here, w) = check_target_privileges v in
        let (there, e) = check_fields d in (here || there, field k w e)
