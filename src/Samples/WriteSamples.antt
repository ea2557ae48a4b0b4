-- ===== src/Samples/WriteSamples.antt =====
-- The theorems about the preflight, the write and the unattended write at concrete inputs.
use rpa_group.Prelude.{
  is_empty, String, true, false, ◌≡◌, refl, subst, any, List, strip, one_of, none, some, Error,
  Result, ok, err, ok_injective, value_error, class_name,
}
use rpa_group.Prelude.Value.{int, Value, str, pos, ℤ, Fields, end, field}
use rpa_group.Services.Bind.Backends.{JdyWecomBindInput, WecomCustomApp}
use rpa_group.Services.Bind.{
  JdyWecomBindResult, start_bind, save_request, submit_bound_order, audit_order_id, context_of,
  with_corp_default_userid, with_resolved_wecom_suite,
}
use rpa_group.Services.Bind.Order.{is_write}
use rpa_group.Services.Preflight.Summaries.{summary}
use rpa_group.Services.Preflight
use rpa_group.Services.Preflight.{run_readonly_preflight}
use rpa_group.Services.Preflight.Reads.{run_readonly_preflight-OnlyReads}
use rpa_group.Services.Write.{
  WriteClients, prepare, Prepared, after_search, check_known, owner_of_known, install,
  write_binding, save_development_info_and_confirm, development_info_present,
  start_bind_with_recoverable_context,
}
use rpa_group.Services.Write.Refines.{start_bind-refined}
use rpa_group.Services.Write.Ready.{prepare-ready}
use rpa_group.Services.Write.Reports.{is_ready, IsUsable}
use rpa_group.Services.Write.Orders.{is_submission}
use rpa_group.Worker.UnattendedWrite.Reports.{Texts, preflight_for_write}
use rpa_group.Worker.UnattendedWrite.{
  Files, acquire_lock, run_unattended_write, run_locked, attempt_write, write_and_submit,
  submit_from, is_success_context,
}
use rpa_group.Prelude.{ℕ, eqb, if◌then◌else◌}
use rpa_group.Worker.UnattendedWrite.Lock.{System, at_phase, starting, checked, writing}
use rpa_group.Worker.UnattendedWrite.Once.{IsUntouched, run_unattended_write-once}
use rpa_group.Samples.ServiceSamples.{corp, app, clients, secrets}

-- The app has what the write is about to set.
abbrev set_app : WecomCustomApp
set_app = record app {
  raw = field "homeurl" (str "https://wxwork.jiandaoyun.com/wxwork/ww1/dashboard") (
      field "callbackurl" (str "https://wxwork.jiandaoyun.com/wxwork/corp/ww1/service") (
        field "redirect_domain" (str "wxwork.jiandaoyun.com")
          (field "token" (str "t") (field "aeskey" (str "k") end))));
}

abbrev both : WriteClients
both = record {
  online = record clients {
    find_app = λ suite name suite_name. ok set_app;
    submit_order = λ id.
        ok
          (record { auditorderid = "9"; corpappid = "a1"; authcorp_name = "Acme"; status = pos 5 });
  };
  save_app_raw = λ request. ok end;
}

abbrev acme : JdyWecomBindInput
acme = record {
  enterprise_name = "Acme";
  plain_corp_id = "ww1";
  requested_user_id = "u9";
  suite_id = pos 1;
  suite_scenario = "main";
  wecom_suiteid = pos 1009479;
  suite_name = "简道云";
  enterprise_short_name = "";
  wecom_suite_explicit = true;
}

abbrev repr : Value → String
repr v = "…"

abbrev shape : Fields → String
shape d = "{}"

abbrev str_exc : Error → String
str_exc e = class_name e

run_readonly_preflight-OnlyReads_example :
    any is_write (run_readonly_preflight clients str_exc acme).1 ≡ false
run_readonly_preflight-OnlyReads_example = run_readonly_preflight-OnlyReads clients str_exc acme

abbrev report : Fields
report =
    summary acme corp (some set_app) "ok" "ready_for_confirm_write" "can_bind_corp_secret" "payload"

reported : (run_readonly_preflight both.online str_exc acme).0 ≡ ok report
unfolding run_readonly_preflight Preflight.after_corp with_resolved_wecom_suite
    with_corp_default_userid Preflight.after_owner Preflight.check_app Preflight.after_app
    Preflight.verdict strip
reported = refl

is_ready-report : is_ready report ≡ true
unfolding summary
is_ready-report = refl

abbrev names : List String
names = Preflight.acceptable_enterprise_names acme

named : one_of "Acme" names ≡ true
unfolding strip
named = refl

prepare-ready_example :
    (p : Prepared) × ((prepare both repr shape acme).0 ≡ ok p) × IsUsable p.app p.owner
prepare-ready_example =
    prepare-ready both repr shape str_exc acme report reported is_ready-report
      (λ c e. subst (λ d. one_of d.name names ≡ true) (ok_injective e) named) (λ e h. cc h)

abbrev texts : Texts
texts = record { now = "t3"; next = "t8"; context_file = "f" }

abbrev no_int : Value → Result ℤ
no_int v = err (value_error "int")

abbrev source : Fields
source =
    field "enterprise_name" (str "Acme")
      (field "corp_id" (str "ww1") (field "userid" (str "u9") (field "suite_name" (str "简道云") end)))

abbrev ready : Result Fields
ready = ok (field "status" (str "ok") end)

abbrev blank : Files
blank = record { context = end; lock = none }

abbrev tasks : ℕ → String
tasks n = if eqb n 0 then "T1" else "T2"

-- Both runs have read the context, and the first one has the lock.
abbrev first_writes : System
first_writes = record {
  phases = at_phase 0 writing (at_phase 1 checked (at_phase 0 checked (λ n. starting)));
  files = record { context = end; lock = some "T1" };
}

abbrev both_checked : System
both_checked = record {
  phases = at_phase 1 checked (at_phase 0 checked (λ n. starting));
  files = blank;
}

submits :
    any is_submission
      (run_unattended_write both repr no_int shape str_exc texts secrets "T1" ready end source
        blank).steps
    ≡ true
unfolding run_unattended_write acquire_lock run_locked attempt_write write_and_submit submit_from
    preflight_for_write start_bind_with_recoverable_context prepare after_search check_known
    owner_of_known install write_binding save_development_info_and_confirm submit_bound_order
    audit_order_id is_success_context strip development_info_present save_request context_of
submits = refl

run_unattended_write-once_example :
    IsUntouched
      (run_unattended_write both repr no_int shape str_exc texts secrets "T2" ready end source
        (run_unattended_write both repr no_int shape str_exc texts secrets "T1" ready end source
          blank).files)
      (run_unattended_write both repr no_int shape str_exc texts secrets "T1" ready end source
        blank).files
run_unattended_write-once_example =
    run_unattended_write-once both repr no_int shape str_exc texts secrets "T1" ready end source
      blank (λ id. (_, refl, refl)) submits "T2" both texts secrets ready end source

abbrev written : JdyWecomBindResult
written = record {
  status = "waiting_wecom_online_delay";
  context = context_of acme corp set_app secrets "t1" "o1" (str "9") (int (pos 1)) (str "t3");
  next_check_at = some "t8";
}

bound : (start_bind_with_recoverable_context both repr shape acme secrets "t3" "t8").0 ≡ ok written
unfolding start_bind_with_recoverable_context prepare after_search check_known owner_of_known
    install write_binding save_development_info_and_confirm development_info_present save_request
    strip with_corp_default_userid with_resolved_wecom_suite
bound = refl

start_bind-refined_example : (start_bind both.online acme secrets "t3" "t8").0 ≡ ok written
start_bind-refined_example =
    start_bind-refined both repr shape "t3" "t8" acme secrets corp written refl
      (λ user scenario suite owner e.
        subst (λ o. is_empty o.existing_token ≡ true) (ok_injective e) refl)
      (λ change. (end, refl)) bound
