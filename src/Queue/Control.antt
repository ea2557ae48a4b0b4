-- ===== src/Queue/Control.antt =====
-- The table `queue_state` of database.py: the flag of the pause, and the token that ends it.
pub mod Tokens
use rpa_group.Prelude.{
  String, Bool, true, false, not, ◌&&◌, ◌||◌, Option, none, some, List, [], ◌∷◌, ◌++◌, ◌==◌,
  if◌then◌else◌, is_empty, find, select, text_le,
}

pub record Setting : Type 0 where
  pub key : String
  pub value : String
  pub expires_at : Option String

abbrev pub setting_is : String → Setting → Bool
setting_is k r = r.key == k

-- INSERT OR REPLACE: the row with the key is deleted and the new one inserted.
unfoldable pub replace : Setting → List Setting → List Setting
replace r rows = select (λ q. not (setting_is r.key q)) rows ++ r ∷ []

-- `token` is the random text, and `expires` the time RESUME_TOKEN_EXPIRE seconds from now.
unfoldable pub pause_queue : String → String → List Setting → List Setting
unfolding replace
pause_queue token expires rows =
    replace (record { key = "resume_token"; value = token; expires_at = some expires })
      (replace (record { key = "queue_paused"; value = "1"; expires_at = none }) rows)

-- `row['expires_at'] and now > row['expires_at']`
unfoldable pub has_expired : String → Option String → Bool
has_expired now none = false
has_expired now (some at) = not (is_empty at) && not (text_le now at)

-- The tests of `resume_queue` on the row of the token.
unfoldable pub token_accepted : String → String → Option Setting → Bool
unfolding has_expired
token_accepted now token none = false
token_accepted now token (some row) = (row.value == token) && not (has_expired now row.expires_at)

may_resume : String → Option String → List Setting → Bool
unfolding token_accepted
may_resume now none rows = true
may_resume now (some token) rows = token_accepted now token (find (setting_is "resume_token") rows)

-- DELETE … WHERE key IN ('queue_paused', 'resume_token')
unfoldable pub resumed : List Setting → List Setting
resumed = select (λ q. not (setting_is "queue_paused" q || setting_is "resume_token" q))

unfoldable pub resume_queue : String → Option String → List Setting → Bool × List Setting
unfolding may_resume
resume_queue now token rows =
    if may_resume now token rows then (true, resumed rows) else (false, rows)

flag_set : Option Setting → Bool
flag_set none = false
flag_set (some row) = row.value == "1"

unfoldable pub is_queue_paused : List Setting → Bool
unfolding flag_set
is_queue_paused rows = flag_set (find (setting_is "queue_paused") rows)

value_of : Option Setting → Option String
value_of none = none
value_of (some row) = some row.value

unfoldable pub get_resume_token : List Setting → Option String
unfolding value_of
get_resume_token rows = value_of (find (setting_is "resume_token") rows)
