-- ===== src/Queue/Control/Tokens.antt =====
-- What a token that `pause_queue` gave can do.
use rpa_group.Prelude.{
  String, Bool, true, false, not, ◌&&◌, ◌||◌, Option, none, some, List, [], ◌∷◌, ◌≡◌, refl, sym, ap,
  ◌∙◌, arith, ◌==◌, eq_iff, eq_refl, if◌then◌else◌, is_empty, text_le, find, select, Bool-cases,
  Option-cases, inl, inr,
}
use rpa_group.Prelude.Tables.Lookups.{find-append}
use rpa_group.Queue.Control.{
  Setting, setting_is, replace, pause_queue, has_expired, token_accepted, may_resume, resumed,
  resume_queue, flag_set, is_queue_paused, value_of, get_resume_token,
}

find-select-none :
    (p q : Setting → Bool) (rows : List Setting)
    → ((r : Setting) → p r ≡ true → q r ≡ false)
    → find p (select q rows) ≡ none
find-select-none p q [] h = refl
find-select-none p q (r ∷ rows) h = ground (arith, h r, find-select-none p q rows h)

find-select_kept :
    (p q : Setting → Bool) (rows : List Setting)
    → ((r : Setting) → p r ≡ true → q r ≡ true)
    → find p (select q rows) ≡ find p rows
find-select_kept p q [] h = refl
find-select_kept p q (r ∷ rows) h = ground (arith, h r, find-select_kept p q rows h)

find-replace :
    (r : Setting) (rows : List Setting) → find (setting_is r.key) (replace r rows) ≡ some r
unfolding replace
find-replace r rows = ground (
  arith,
  find-append (setting_is r.key) (select (λ q. not (setting_is r.key q)) rows) (r ∷ []),
  find-select-none (setting_is r.key) (λ q. not (setting_is r.key q)) rows
      (λ q h. ground (arith, h)),
  eq_refl r.key,
)

find-replace_other :
    (k : String) (r : Setting) (rows : List Setting)
    → (r.key == k) ≡ false
    → find (setting_is k) (replace r rows) ≡ find (setting_is k) rows
unfolding replace
find-replace_other k r rows h = ground (
  arith,
  find-append (setting_is k) (select (λ q. not (setting_is r.key q)) rows) (r ∷ []),
  find-select_kept (setting_is k) (λ q. not (setting_is r.key q)) rows
      (λ q e. ground (arith, eq_iff q.key k, eq_iff q.key r.key, eq_iff r.key k)),
  Option-cases (find (setting_is k) rows),
)

gone :
    (k : String) (rows : List Setting)
    → ((r : Setting)
        → setting_is k r ≡ true
        → (setting_is "queue_paused" r || setting_is "resume_token" r) ≡ true)
    → find (setting_is k) (resumed rows) ≡ none
unfolding resumed
gone k rows h =
    find-select-none (setting_is k)
      (λ q. not (setting_is "queue_paused" q || setting_is "resume_token" q)) rows
      (λ r e. ground (arith, h r e))

gone_other :
    (k : String) (rows : List Setting)
    → ("queue_paused" == k) ≡ false
    → ("resume_token" == k) ≡ false
    → find (setting_is k) (resumed rows) ≡ find (setting_is k) rows
unfolding resumed
gone_other k rows h h' =
    find-select_kept (setting_is k)
      (λ q. not (setting_is "queue_paused" q || setting_is "resume_token" q)) rows
      (λ r e. ground (
        arith,
        e,
        h,
        h',
        eq_iff r.key k,
        eq_iff r.key "queue_paused",
        eq_iff r.key "resume_token",
        eq_iff "queue_paused" k,
        eq_iff "resume_token" k,
      ))

module _ (token expires : String) (rows : List Setting) where
  abbrev paused : List Setting
  paused = pause_queue token expires rows

  paused_token :
      find (setting_is "resume_token") paused
      ≡ some (record { key = "resume_token"; value = token; expires_at = some expires })
  unfolding pause_queue
  paused_token =
      find-replace (record { key = "resume_token"; value = token; expires_at = some expires })
        (replace (record { key = "queue_paused"; value = "1"; expires_at = none }) rows)

  paused_flag :
      find (setting_is "queue_paused") paused
      ≡ some (record { key = "queue_paused"; value = "1"; expires_at = none })
  unfolding pause_queue
  paused_flag =
      find-replace_other "queue_paused"
        (record { key = "resume_token"; value = token; expires_at = some expires })
        (replace (record { key = "queue_paused"; value = "1"; expires_at = none }) rows) refl
      ∙ find-replace (record { key = "queue_paused"; value = "1"; expires_at = none }) rows

  paused_other :
      (k : String)
      → ("queue_paused" == k) ≡ false
      → ("resume_token" == k) ≡ false
      → find (setting_is k) paused ≡ find (setting_is k) rows
  unfolding pause_queue
  paused_other k h h' =
      find-replace_other k
        (record { key = "resume_token"; value = token; expires_at = some expires })
        (replace (record { key = "queue_paused"; value = "1"; expires_at = none }) rows) h'
      ∙ find-replace_other k (record { key = "queue_paused"; value = "1"; expires_at = none }) rows
          h

  accepted :
      (now given : String)
      → may_resume now (some given) paused
        ≡ ((token == given) && (is_empty expires || text_le now expires))
  unfolding may_resume token_accepted has_expired
  accepted now given = rw paused_token (ground arith)

  -- A pause is in force at once, and it gives a token. A text ends the pause if it is the token and
  -- the time is not past the one at which the token expires (an empty time never passes): then the
  -- queue is not paused and has no token. Any other attempt leaves the pause and the token. Neither
  -- the pause nor the attempt touches the settings under other keys.
  pub pause_queue_lem :
      (now given k : String)
      → ("queue_paused" == k) ≡ false
      → ("resume_token" == k) ≡ false
      → let (ended, rows') = resume_queue now (some given) paused in
        let in_time = is_empty expires || text_le now expires in
        (is_queue_paused paused ≡ true)
        × (get_resume_token paused ≡ some token)
        × (ended ≡ ((token == given) && in_time))
        × (is_queue_paused rows' ≡ not ((token == given) && in_time))
        × (get_resume_token rows' ≡ (if (token == given) && in_time then none else some token))
        × (find (setting_is k) rows' ≡ find (setting_is k) rows)
  unfolding is_queue_paused flag_set get_resume_token value_of resume_queue
  pause_queue_lem now given k h h' =
      elim (Bool-cases ((token == given) && (is_empty expires || text_le now expires))) [
        | inl e ↦
            rw
              (
                accepted now given,
                e,
                paused_flag,
                paused_token,
                gone "queue_paused" paused (λ r e. rw e refl),
                gone "resume_token" paused (λ r e. ground (arith, e)),
                gone_other k paused h h',
                paused_other k h h',
              )
              (refl, refl, refl, refl, refl, refl)
        | inr e ↦
            rw (accepted now given, e, paused_flag, paused_token, paused_other k h h')
              (refl, refl, refl, refl, refl, refl)
      ]

resumed_rows :
    (now : String) (token : Option String) (rows rows' : List Setting)
    → resume_queue now token rows ≡ (true, rows')
    → rows' ≡ resumed rows
unfolding resume_queue
resumed_rows now token rows rows' h = elim (Bool-cases (may_resume now token rows)) [
  | inl e ↦ sym (ap (λ (r : Bool × List Setting). r.1) (rw e at h))
  | inr e ↦ cc (ap (λ (r : Bool × List Setting). r.0) (rw e at h))
]

-- Once the queue has been resumed it is not paused, and no token resumes it again before it is paused
-- again.
resume_queue_once :
    (now later : String) (token : Option String) (given : String) (rows rows' : List Setting)
    → resume_queue now token rows ≡ (true, rows')
    → (is_queue_paused rows' ≡ false) × (resume_queue later (some given) rows' ≡ (false, rows'))
unfolding is_queue_paused flag_set resume_queue may_resume token_accepted
resume_queue_once now later token given rows rows' h =
    rw
      (
        resumed_rows now token rows rows' h,
        gone "queue_paused" rows (λ r e. rw e refl),
        gone "resume_token" rows (λ r e. ground (arith, e)),
      )
      (refl, refl)
