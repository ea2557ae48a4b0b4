-- ===== src/Worker/BindRunner/Output.antt =====
-- What the runner reads from a task and its context.
use rpa_group.Prelude.{
  String, Bool, false, none, some, if◌then◌else◌, attribute_error, Result, ok, err, ◌>>=◌,
}
use rpa_group.Prelude.Value.{Value, null, str, obj, Fields, end, field, get, get_or, truthy, pos}
use rpa_group.Store.Rows.{Task}
use rpa_group.Services.Bind.Backends.{JdyWecomBindInput}

-- `context.get(key, {})`, of which the program reads with `get`.
unfoldable pub sub_dict : String → Fields → Result Fields
sub_dict key context = elim (get key context) [
  | none ↦ ok end
  | some (obj d) ↦ ok d
  | some _ ↦ err (attribute_error "get")
]

abbrev pub hidden : Value → Value
hidden v = if truthy v then str "***" else str ""

abbrev or_blank : String → Fields → Value
or_blank key d = get_or key (str "") d

-- _step_output_from_context
unfoldable pub step_output_from_context : Fields → Result Fields
unfolding sub_dict
step_output_from_context context = sub_dict "jdy" context >>= λ jdy.
    sub_dict "wecom" context >>= λ wecom. ok (
      field "jdy"
        (obj (
          field "corp_secret_id" (or_blank "corp_secret_id" jdy) (
            field "requested_user_id" (or_blank "requested_user_id" jdy) (
              field "install_tenant_id" (or_blank "install_tenant_id" jdy) (
                field "install_owner_id" (or_blank "install_owner_id" jdy)
                  (field "bound_user_id" (or_blank "bound_user_id" jdy) end))))))
        (field "wecom"
          (obj (
            field "app_id" (or_blank "app_id" wecom) (
              field "aes_app_id" (or_blank "aes_app_id" wecom) (
                field "auditorderid" (or_blank "auditorderid" wecom) (
                  field "auditorder_status" (or_blank "auditorder_status" wecom) (
                    field "token" (hidden (or_blank "token" wecom)) (
                      field "encoding_aes_key" (hidden (or_blank "encoding_aes_key" wecom))
                        end)))))))
          end))

-- The request that the runner makes of a task.
unfoldable pub bind_request : Task → JdyWecomBindInput
bind_request task = record {
  enterprise_name = task.enterprise_name;
  plain_corp_id = task.corp_id;
  requested_user_id = task.source_user_id;
  suite_id = pos 1;
  suite_scenario = "main";
  wecom_suiteid = pos 1009479;
  suite_name = "简道云";
  enterprise_short_name = "";
  wecom_suite_explicit = false;
}

-- `_is_claimed_online_delay`, on a task and its context.
unfoldable pub has_order : Fields → Result Bool
unfolding sub_dict
has_order context =
    sub_dict "wecom" context >>= λ wecom. ok (truthy (get_or "auditorderid" null wecom))
