-- ===== src/Services/Bind/Backends.antt =====
-- The two back ends of the bind service: the calls of their clients, and what goes in and out.
use rpa_group.Prelude.{String, Bool, Result}
use rpa_group.Prelude.Logged.{Logged}
pub use rpa_group.Prelude.Logged.{pure, raise, lift, call, tried, ◌>>=◌, ◌>>◌}
pub use rpa_group.Integrations.Jdy.{
  JdyCorpDeploy, JdyOwnerCheckResult, JdyInstallRequest, JdyInstallResult,
}
pub use rpa_group.Integrations.Wecom.Answers.{WecomCustomApp, WecomOnlineOrder}
pub use rpa_group.Integrations.Wecom.{WecomSaveAppRequest}
use rpa_group.Prelude.Value.{ℤ, Items, Fields}

-- The calls that the service makes of its clients. All but the first three change a back end.
pub data Call : Type 0 where
  resolve_unique_corp resolve_unique_custom_app check_wework_owner install_corp_deploy : Call
  save_development_info set_target_privileges set_trial_rule set_sso_redirect_domain : Call
  create_online_order submit_online_order : Call

abbrev pub Calls : Type 0 → Type 0
Calls = Logged Call

pub record JdyWecomBindInput : Type 0 where
  pub enterprise_name : String
  pub plain_corp_id : String
  pub requested_user_id : String
  pub suite_id : ℤ
  pub suite_scenario : String
  pub wecom_suiteid : ℤ
  pub suite_name : String
  pub enterprise_short_name : String
  pub wecom_suite_explicit : Bool

pub record Secrets : Type 0 where
  pub token : String
  pub encoding_aes_key : String

-- The methods of the two clients.
pub record Clients : Type 0 where
  pub find_corp : String → String → Result JdyCorpDeploy
  pub find_app : ℤ → String → String → Result WecomCustomApp
  pub owner_of : String → ℤ → String → Result JdyOwnerCheckResult
  pub install : JdyInstallRequest → Result JdyInstallResult
  pub save_app : WecomSaveAppRequest → Result Fields
  pub privileges : ℤ → String → Result Items
  pub trial_rule : String → Result Fields
  pub sso_domain : ℤ → String → String → String → Result Fields
  pub new_order : ℤ → String → Result WecomOnlineOrder
  pub submit_order : String → Result WecomOnlineOrder
