-- ===== src/Worker/UnattendedWrite/Orders.antt =====
-- The order's status in the context's file.
use rpa_group.Prelude.{
  String, true, ◌≡◌, refl, subst, List, [], ◌∷◌, ◌++◌, any, ◌⊎◌, inl, inr, some, Option-cases,
  Error, Result, ok, err, ok_injective,
}
use rpa_group.Prelude.Tables.Lookups.{any-append}
use rpa_group.Prelude.Value.{Value, null, bool, str, int, arr, obj, Fields, get, get_or, put, pos}
use rpa_group.Prelude.Value.Dicts.{get-put, get_or_found}
use rpa_group.Integrations.Wecom.Answers.{dict_at}
use rpa_group.Services.Bind.Backends.{◌>>=◌}
use rpa_group.Services.Bind.{audit_order_id}
use rpa_group.Services.Write.{Step, writes, asks, Steps, WriteClients}
use rpa_group.Services.Write.Orders.{is_submission, SubmitsNothing}
use rpa_group.Worker.UnattendedWrite.{is_success_context, file_after, with_order_status}

pub file_after-append :
    (xs ys : List Step) (context : Fields)
    → file_after (xs ++ ys) context ≡ file_after ys (file_after xs context)
unfolding file_after
file_after-append [] ys context = refl
file_after-append (writes c ∷ xs) ys context = file_after-append xs ys c
file_after-append (asks c ∷ xs) ys context = file_after-append xs ys context

pub dict_at-found :
    (key : String) (e d : Fields) → get key d ≡ some (obj e) → dict_at key d ≡ some e
dict_at-found key e d h = rw (dict_at, h) refl

success_status :
    (wecom d : Fields)
    → dict_at "wecom" d ≡ some wecom
    → get_or "auditorder_status" null wecom ≡ int (pos 5)
    → is_success_context d ≡ true
unfolding is_success_context
success_status wecom d found status = rw (is_success_context, found, status) refl

-- The status of the order is in the context that is written.
pub with_order_status-success :
    (wecom context written : Fields)
    → get "wecom" context ≡ some (obj wecom)
    → with_order_status context (int (pos 5)) ≡ ok written
    → is_success_context written ≡ true
unfolding with_order_status
with_order_status-success wecom context written there h =
    let new = put "auditorder_status" (int (pos 5)) wecom in
    let made : put "wecom" (obj new) context ≡ written =
      ok_injective (rw (with_order_status, dict_at-found "wecom" wecom context there) at h) in
    subst (λ d. is_success_context d ≡ true) made
      (success_status new (put "wecom" (obj new) context)
        (dict_at-found "wecom" new (put "wecom" (obj new) context)
          (get-put "wecom" "wecom" (obj new) context))
        (get_or_found "auditorder_status" null (int (pos 5)) new
          (get-put "auditorder_status" "auditorder_status" (int (pos 5)) wecom)))

pub Result-cases :
    {A : Type 0} (r : Result A) → ((e : Error) × (r ≡ err e)) ⊎ ((a : A) × (r ≡ ok a))
Result-cases (err e) = inl (e, refl)
Result-cases (ok a) = inr (a, refl)

-- The context of an order that has an id has the dict with it.
pub audit_order_id-wecom :
    (clients : WriteClients) (repr : Value → String) (context : Fields) (id : String)
    → audit_order_id clients.online repr context ≡ ok id
    → (wecom : Fields) × (get "wecom" context ≡ some (obj wecom))
unfolding audit_order_id
audit_order_id-wecom clients repr context id h = elim (Option-cases (get "wecom" context)) [
  | inl e ↦ cc (rw (audit_order_id, e) at h)
  | inr (obj wecom, e) ↦ (wecom, e)
  | inr (arr vs, e) ↦ cc (rw (audit_order_id, e) at h)
  | inr (str s, e) ↦ cc (rw (audit_order_id, e) at h)
  | inr (int n, e) ↦ cc (rw (audit_order_id, e) at h)
  | inr (bool b, e) ↦ cc (rw (audit_order_id, e) at h)
  | inr (null, e) ↦ cc (rw (audit_order_id, e) at h)
]

-- Where the first block submits nothing, the second one has.
pub >>=-submits :
    {A B : Type 0} (m : Steps A) (f : A → Steps B)
    → SubmitsNothing m
    → any is_submission (m >>= f).1 ≡ true
    → (a : A) × (m.0 ≡ ok a) × (any is_submission (f a).1 ≡ true) × ((m >>= f).1 ≡ m.1 ++ (f a).1)
unfolding SubmitsNothing
>>=-submits (ok a, made) f h s =
    (a, refl, (rw (any-append is_submission made (f a).1, h) at s), refl)
>>=-submits (err e, made) f h s = cc (h, s)
