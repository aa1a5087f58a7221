-- ===== src/Slack/Notifier.antt =====
-- slackapp/notifier.go: notifications as direct messages, and the cache of Slack users by email.
pub mod Laws
use open_trove.Base.{
  ℕ, ◌+◌, ◌*◌, String, Bool, true, false, ◌||◌, ◌==◌, Option, none, some, List, [], ◌∷◌, any, ltb,
  if◌then◌else◌, Error, Result, ok, err, sentinel, wrap, wrap_both, is, undeliverable, ◌≡◌, refl,
  ◌⊎◌, inl, inr, ap, Bool-cases, Option-cases, Result-cases, arith, eq_iff, subst,
}
use open_trove.Base.Text.{is_empty, append}
use open_trove.Base.Dict.{Dict, get, put, get-put}
use open_trove.Comments.{
  ActivityKind, thread_created, reply_created, thread_resolved, thread_reopened,
}
use open_trove.Notify.{Notification}
use open_trove.Storage.S3.{api_code}
use open_trove.Slack.{User, Block, section, Api}
use open_trove.Slack.Guests.{minute}
use open_trove.Slack.Text.{escape, link_text}

abbrev pub user_cache_ttl : ℕ
user_cache_ttl = 60 * minute

abbrev pub missing_cache_ttl : ℕ
missing_cache_ttl = 10 * minute

abbrev pub undeliverable_codes : List String
undeliverable_codes =
    "users_not_found" ∷ "user_not_found" ∷ "user_disabled" ∷ "account_inactive" ∷ "cannot_dm_bot"
    ∷ []

-- The identifier is empty where there is no Slack user for an email.
pub record CachedUser : Type 0 where
  pub id : String
  pub expires : ℕ

abbrev hopeless : Option String → Bool
hopeless none = false
hopeless (some code) = any (λ c. c == code) undeliverable_codes

-- errors.As finds the first of Slack's own errors in the chain, with its code.
unfoldable pub classify : Error → Error
unfolding api_code
classify e = if hopeless (api_code e) then wrap_both (sentinel undeliverable) e else e

unfoldable pub verb : ActivityKind → String
verb thread_created = "commented on"
verb reply_created = "replied to a thread on"
verb thread_resolved = "resolved your thread on"
verb thread_reopened = "reopened your thread on"

unfoldable pub summary : Notification → String
unfolding escape link_text verb append
summary n = append "*" (
    append (escape n.actor_email) (
      append "* " (
        append (verb n.kind) (
          append " <"
            (append n.artifact_url (append "|" (append (link_text n.artifact_title) ">")))))))

unfoldable pub plain_summary : Notification → String
unfolding escape verb append
plain_summary n =
    escape (append n.actor_email (append " " (append (verb n.kind) (append " " n.artifact_title))))

unfoldable pub message_blocks : Notification → List Block
unfolding summary
message_blocks n =
    section (summary n)
    ∷ (if is_empty n.excerpt then [] else section (append "> " (escape n.excerpt)) ∷ [])

module _ {S : Type 0} (api : Api S) (clock : S → ℕ) where
  abbrev pub not_there : ℕ → CachedUser
  not_there now = record { id = ""; expires = now + missing_cache_ttl }

  abbrev pub after_lookup :
      ℕ → String → Dict CachedUser → Result User → S → Result String × Dict CachedUser × S
  after_lookup now email users (err e) s =
      let e' = classify (wrap "looking up slack user" e) in
      (err e', (if is e' undeliverable then put email (not_there now) users else users), s)
  after_lookup now email users (ok user) s =
      if user.deleted || user.is_bot
      then (
        err (wrap "slack user is deactivated or a bot" (sentinel undeliverable)),
        put email (not_there now) users,
        s,
      )
      else (
        ok user.id,
        put email (record { id = user.id; expires = now + user_cache_ttl }) users,
        s,
      )

  abbrev pub cached_id : CachedUser → Result String
  cached_id c =
      if is_empty c.id
      then err (wrap "no slack user for recipient" (sentinel undeliverable))
      else ok c.id

  abbrev pub unexpired : ℕ → Option CachedUser → Option CachedUser
  unexpired now none = none
  unexpired now (some c) = if ltb now c.expires then some c else none

  abbrev pub from_cache :
      ℕ → String → Dict CachedUser → Option CachedUser → S → Result String × Dict CachedUser × S
  from_cache now email users (some c) s = (cached_id c, users, s)
  from_cache now email users none s =
      after_lookup now email users (api.get_user_by_email email s).0
        (api.get_user_by_email email s).1

  unfoldable pub user_id : String → Dict CachedUser → S → Result String × Dict CachedUser × S
  unfolding classify
  user_id email users s = from_cache (clock s) email users (unexpired (clock s) (get email users)) s

  abbrev pub posted : Result (Unit {0}) → Result (Unit {0})
  posted (ok _) = ok tt
  posted (err e) = err (classify (wrap "posting message" e))

  abbrev pub post :
      Notification → Result String × Dict CachedUser × S → Result (Unit {0}) × Dict CachedUser × S
  post n (err e, users, s) = (err e, users, s)
  post n (ok id, users, s) =
      let r = api.post_message id (plain_summary n) (message_blocks n) s in (posted r.0, users, r.1)

  unfoldable pub notify :
      Notification → Dict CachedUser → S → Result (Unit {0}) × Dict CachedUser × S
  unfolding plain_summary message_blocks
  notify n users s = post n (user_id n.recipient_email users s)
