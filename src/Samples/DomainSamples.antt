-- ===== src/Samples/DomainSamples.antt =====
-- The theorems about rpa_platform/domain at concrete inputs.
use rpa_group.Prelude.{String, ◌≡◌, ◌≢◌, refl, strip, true, [], ok}
use rpa_group.Prelude.Value.{Value, str, arr, obj, bool, Items, cons, nil, field, end, str_of}
use rpa_group.Domain.FlowSteps.{
  validate_steps, normalize_steps, normalize_step, required_text, required_value, save_step, saved,
  raise_if,
}
use rpa_group.Domain.FlowSteps.Steps.{AllRunnable}
use rpa_group.Domain.FlowSteps.Rules.{validate_steps-AllRunnable}
use rpa_group.Domain.Redaction.{redact_context}
use rpa_group.Domain.Redaction.Hiding.{HidesSecrets, redact_context-HidesSecrets}

-- No step of the samples holds a list or a dict where a text is expected.
abbrev pub no_repr : Value → String
no_repr v = ""

abbrev pub raw_steps : Value
raw_steps = arr (
    cons
      (obj (
        field "key" (str " open ")
          (field "name" (str "Open") (field "action" (str "open_url") end))))
      (cons
        (obj
          (field "key" (str "tap") (field "name" (str "Tap ") (field "action" (str "click") end))))
        nil))

abbrev pub checked_steps : Items
checked_steps =
    cons
      (obj (
        field "key" (str "open") (
          field "name" (str "Open") (
            field "action" (str "open_url")
              (field "config" (obj end) (field "enabled" (bool true) end))))))
      (cons
        (obj (
          field "key" (str "tap") (
            field "name" (str "Tap") (
              field "action" (str "click")
                (field "config" (obj end) (field "enabled" (bool true) end))))))
        nil)

steps_check : validate_steps no_repr raw_steps true ≡ ok checked_steps
unfolding validate_steps normalize_steps normalize_step required_text required_value save_step saved
    raise_if strip str_of
steps_check = refl

validate_steps-AllRunnable_example : (checked_steps ≢ nil) × AllRunnable true [] checked_steps
validate_steps-AllRunnable_example =
    validate_steps-AllRunnable no_repr raw_steps true checked_steps steps_check

abbrev context : Value
context = obj (
    field "corp_id" (str "ww1234567890") (
      field "app" (obj (field "token" (str "t0p") (field "homeurl" (str "a/wxwork/corp/x1") end)))
        end))

redact_context-HidesSecrets_example : HidesSecrets (redact_context context)
redact_context-HidesSecrets_example = redact_context-HidesSecrets context
