-- ===== src/Domain/Redaction.antt =====
-- rpa_platform/domain/redaction.py: masking of secrets and identifiers in a runtime context.
pub mod Masks
pub mod Hiding
use rpa_group.Prelude.{
  ℕ, suc, String, Bool, true, false, ◌&&◌, List, [], ◌∷◌, ◌≡◌, refl, ◌==◌, if◌then◌else◌, chars,
  leb, join2, prefix, suffix, one_of, split_on, join_with,
}
use rpa_group.Prelude.Value.{
  Value, null, bool, int, str, arr, obj, Items, nil, cons, Fields, end, field,
}

-- SECRET_KEYS
abbrev pub secret_keys : List String
secret_keys =
    "token" ∷ "aeskey" ∷ "encoding_aes_key" ∷ "encodingAesKey" ∷ "kitsecret" ∷ "cookie" ∷ []

-- MASKED_IDENTIFIER_KEYS
abbrev pub masked_identifier_keys : List String
masked_identifier_keys = "corp_secret_id" ∷ "corp_id" ∷ "app_id" ∷ "aes_app_id" ∷ []

-- WECOM_URL_KEYS
abbrev pub wecom_url_keys : List String
wecom_url_keys = "homeurl" ∷ "callbackurl" ∷ []

unfoldable pub mask_identifier : String → String
mask_identifier value =
    if leb (chars value) 8 then "***" else join2 (prefix 4 value) (join2 "***" (suffix 4 value))

-- What the loop of `mask_wecom_url` has still to do when it comes to a segment: nothing, the segment
-- after "wxwork", or the one after "wxwork/corp".
pub data Mode : Type 0 where
  plain after_wxwork after_corp : Mode

-- The loop writes ahead of the segment that it reads, and it reads what it wrote: a segment that
-- has been masked is what it compares with "wxwork" next.
next_mode : String → Mode
next_mode segment = if segment == "wxwork" then after_wxwork else plain

pub mask_segments : Mode → List String → List String
mask_segments mode [] = []
mask_segments plain (s ∷ rest) = s ∷ mask_segments (next_mode s) rest
mask_segments after_corp (s ∷ rest) =
    mask_identifier s ∷ mask_segments (next_mode (mask_identifier s)) rest
mask_segments after_wxwork (s ∷ []) = mask_identifier s ∷ []
mask_segments after_wxwork (s ∷ t ∷ rest) =
    if s == "corp"
    then s ∷ mask_segments after_corp (t ∷ rest)
    else mask_identifier s ∷ mask_segments (next_mode (mask_identifier s)) (t ∷ rest)

unfoldable pub mask_wecom_url : String → String
unfolding mask_segments next_mode
mask_wecom_url value = join_with "/" (mask_segments plain (split_on b'/' value))

-- The branches of `redact_context` for one entry of a dict: `redacted` is the recursive call.
unfoldable pub redact_entry : String → Value → Value → Value
redact_entry key (str s) redacted =
    if one_of key secret_keys
    then str "***"
    else if one_of key masked_identifier_keys
    then str (mask_identifier s)
    else if one_of key wecom_url_keys
    then str (mask_wecom_url s)
    else redacted
redact_entry key child redacted = if one_of key secret_keys then str "***" else redacted

unfoldable mutual
  pub redact_context : Value → Value
  redact_context (obj d) = obj (redact_fields d)
  redact_context (arr vs) = arr (redact_items vs)
  redact_context null = null
  redact_context (bool b) = bool b
  redact_context (int n) = int n
  redact_context (str s) = str s

  pub redact_items : Items → Items
  redact_items nil = nil
  redact_items (cons v vs) = cons (redact_context v) (redact_items vs)

  pub redact_fields : Fields → Fields
  redact_fields end = end
  redact_fields (field k v d) = field k (redact_entry k v (redact_context v)) (redact_fields d)

masked_url :
    mask_wecom_url "https://wxwork.jiandaoyun.com/wxwork/corp/ww1234567890abcd/service"
    ≡ "https://wxwork.jiandaoyun.com/wxwork/corp/ww12***abcd/service"
unfolding mask_wecom_url mask_identifier split_on join_with prefix suffix
masked_url = refl
