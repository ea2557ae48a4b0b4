-- ===== src/Prelude/Errors.antt =====
-- Python exceptions as values. The text is that of the exception's argument.
use Prim.Native.String.{String}
use mathlib.Core.Path.{◌≡◌, refl}
use mathlib.Core.Option.{Option, none, some}

-- A subclass stands beside its base class; `class_name` has the names of the classes.
pub data Error : Type 0 where
  key_error value_error type_error attribute_error integrity_error flow_step_error
        invalid_transition payload_validation_error worker_config_error jdy_admin_error
        missing_corp_deploy_error ambiguous_corp_deploy_error owner_cannot_bind_error
        wecom_admin_error wecom_session_expired_error missing_wecom_app_error
        ambiguous_wecom_app_error retryable_wecom_order_error cookie_source_error json_http_error :
      String → Error

-- exc.__class__.__name__
unfoldable pub class_name : Error → String
class_name (key_error m) = "KeyError"
class_name (value_error m) = "ValueError"
class_name (type_error m) = "TypeError"
class_name (attribute_error m) = "AttributeError"
class_name (integrity_error m) = "IntegrityError"
class_name (flow_step_error m) = "FlowStepValidationError"
class_name (invalid_transition m) = "InvalidTaskTransition"
class_name (payload_validation_error m) = "PayloadValidationError"
class_name (worker_config_error m) = "C360WorkerConfigError"
class_name (jdy_admin_error m) = "JdyAdminError"
class_name (missing_corp_deploy_error m) = "MissingCorpDeployError"
class_name (ambiguous_corp_deploy_error m) = "AmbiguousCorpDeployError"
class_name (owner_cannot_bind_error m) = "OwnerCannotBindError"
class_name (wecom_admin_error m) = "WecomAdminError"
class_name (wecom_session_expired_error m) = "WecomSessionExpiredError"
class_name (missing_wecom_app_error m) = "MissingWecomAppError"
class_name (ambiguous_wecom_app_error m) = "AmbiguousWecomAppError"
class_name (retryable_wecom_order_error m) = "RetryableWecomOrderError"
class_name (cookie_source_error m) = "CookieSourceError"
class_name (json_http_error m) = "JsonHttpError"

-- What a call of fallible code comes back with: `err` holds the exception that it raises.
pub data Result {ℓ} (A : Type ℓ) : Type ℓ where
  err : Error → Result A
  ok : A → Result A

pub ok_injective {ℓ} : {A : Type ℓ} {a b : A} → ok a ≡ ok b → a ≡ b
ok_injective h = cc

module _ {ℓ κ} {A : Type ℓ} {B : Type κ} where
  infixl 5 ◌>>=◌ ◌>>◌
  -- An exception skips the rest of the block.
  abbrev pub ◌>>=◌ : Result A → (A → Result B) → Result B
  err raised >>= next = err raised
  ok value >>= next = next value

  abbrev pub ◌>>◌ : Result A → Result B → Result B
  err raised >> next = err raised
  ok value >> next = next

  -- A block that returns has returned from its first statement.
  pub >>=-eq-ok :
      (first : Result A) (next : A → Result B) {b : B}
      → (first >>= next) ≡ ok b
      → (a : A) × (first ≡ ok a) × (next a ≡ ok b)
  >>=-eq-ok (err raised) next h = cc
  >>=-eq-ok (ok value) next h = (value, refl, h)

abbrev pub or_raise {ℓ} : {A : Type ℓ} → Option A → Error → Result A
or_raise none e = err e
or_raise (some a) e = ok a
