-- ===== src/Server/Webhook/Keys.antt =====
-- Which payloads ask for one task.
use Prim.Native.Char.{code}
use rpa_group.Prelude.{
  ℕ, zero, suc, eqb, String, Bool, false, ◌≡◌, refl, ap, arith, ok, err, join2, Result,
}
use rpa_group.Prelude.Text.Parts.{has_char}
use rpa_group.Prelude.Value.{Value, Fields}
use rpa_group.Store.Rows.{Db}
use rpa_group.Store.Tasks.{TaskCreateResult}
use rpa_group.Store.Tasks.Creation.{create_task_once}
use rpa_group.Server.Webhook.{
  JdyWebhookService, idempotency_key, required_text, request_of, receive,
}

abbrev tail : String → String
tail String.[] = ""
tail (String.◌∷◌ c s) = s

abbrev without_first : ℕ → String → String
without_first zero s = s
without_first (suc n) s = without_first n (tail s)

abbrev starts_with_colon : String → Bool
starts_with_colon String.[] = false
starts_with_colon (String.◌∷◌ c s) = eqb (code c) b':'

-- Two texts without a colon, each in front of a colon and another text.
parts_of_join :
    (a b u v : String)
    → has_char b':' a ≡ false
    → has_char b':' b ≡ false
    → join2 a (join2 ":" u) ≡ join2 b (join2 ":" v)
    → (a ≡ b) × (u ≡ v)
parts_of_join String.[] String.[] u v h k e = (refl, ap tail e)
parts_of_join String.[] (String.◌∷◌ d b) u v h k e =
    absurd (ground (arith, k, ap starts_with_colon e))
parts_of_join (String.◌∷◌ c a) String.[] u v h k e =
    absurd (ground (arith, h, ap starts_with_colon e))
parts_of_join (String.◌∷◌ c a) (String.◌∷◌ d b) u v h k e =
    let (same, rest) = parts_of_join a b u v (ground (arith, h)) (ground (arith, k)) (ap tail e) in
    (cc (e, same), rest)

-- Where neither CorpID has a colon, two requests have one key only if they are from one user for one
-- CorpID.
idempotency_key_injective :
    (corp corp' user user' : String)
    → has_char b':' corp ≡ false
    → has_char b':' corp' ≡ false
    → idempotency_key corp user ≡ idempotency_key corp' user'
    → (corp ≡ corp') × (user ≡ user')
unfolding idempotency_key
idempotency_key_injective corp corp' user user' h k e =
    parts_of_join corp corp' user user' h k (ap (without_first 17) e)

-- A payload that was accepted and another with the same user and CorpID, once trimmed, whatever else
-- the second one says: it is refused with the error on its enterprise name if that is wrong, else
-- answered with the task of the first. Nothing changes either way.
pub receive_again :
    (repr : Value → String) (service : JdyWebhookService) (uuid now uuid' now' : String)
    (payload payload' : Fields) (user corp name : String) (s : Db) (x : TaskCreateResult)
    → required_text repr payload "user_id" ≡ ok user
    → required_text repr payload "企业客户名称" ≡ ok name
    → required_text repr payload "企业微信明文 CorpID" ≡ ok corp
    → required_text repr payload' "user_id" ≡ ok user
    → required_text repr payload' "企业微信明文 CorpID" ≡ ok corp
    → (receive repr service uuid now payload s).0 ≡ ok x
    → let s' = (receive repr service uuid now payload s).1 in
      receive repr service uuid' now' payload' s' ≡ (
        (elim (required_text repr payload' "企业客户名称") [
          | err e ↦ err e
          | ok other ↦ ok (record { task_id = x.task_id; created = false })
        ]),
        s',
      )
unfolding receive request_of
receive_again repr service uuid now uuid' now' payload payload' user corp name s x hu hn hc hu' hc'
      h =
    answer (required_text repr payload' "企业客户名称") refl
  where
    answer :
        (r : Result String)
        → required_text repr payload' "企业客户名称" ≡ r
        → let s' = (receive repr service uuid now payload s).1 in
          receive repr service uuid' now' payload' s' ≡ (
            (elim r [
              | err e ↦ err e
              | ok other ↦ ok (record { task_id = x.task_id; created = false })
            ]),
            s',
          )
    answer (err e) wrong = rw (hu', wrong) refl
    answer (ok other) named =
        rw (hu, hn, hc, hu', named, hc')
          (create_task_once uuid now uuid' now' (request_of repr service payload user name corp)
            (request_of repr service payload' user other corp) s x refl (rw (hu, hn, hc) at h))
