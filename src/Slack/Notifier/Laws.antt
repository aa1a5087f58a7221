-- ===== src/Slack/Notifier/Laws.antt =====
-- slackapp/notifier.go: whom a notification reaches.
use open_trove.Base.{
  ℕ, String, false, ◌||◌, ◌==◌, some, Result, ok, err, wrap, is, undeliverable, ◌≡◌, ◌≢◌, refl, ◌⊎◌,
  inl, inr, Bool-cases, Option-cases, Result-cases, arith, eq_iff, subst,
}
use open_trove.Base.Text.{is_empty}
use open_trove.Base.Dict.{Dict, get, put, get-put}
use open_trove.Notify.{Notification}
use open_trove.Slack.{User, Api}
use open_trove.Slack.Notifier.{
  CachedUser, classify, plain_summary, message_blocks, not_there, after_lookup, cached_id,
  unexpired, user_id, notify,
}

module _ {S : Type 0} (api : Api S) (clock : S → ℕ) where
  -- `Names email id` stands for: Slack has named the user `id`, who is in use and no bot, for the
  -- email.
  module _ (Names : String → String → Type 0)
      (named : (email : String) (s : S) (user : User)
        → (api.get_user_by_email email s).0 ≡ ok user
        → user.deleted ≡ false
        → user.is_bot ≡ false
        → Names email user.id) where
    -- Every identifier in the cache has been named by Slack.
    abbrev pub IsSound : Dict CachedUser → Type 0
    IsSound users =
        (email : String) (c : CachedUser)
        → get email users ≡ some c
        → is_empty c.id ≡ false
        → Names email c.id

    put-IsSound :
        (email : String) (c : CachedUser) (users : Dict CachedUser)
        → IsSound users
        → (is_empty c.id ≡ false → Names email c.id)
        → IsSound (put email c users)
    put-IsSound email c users sound right other d found given = elim (Bool-cases (email == other)) [
      | inl same ↦
          let it : c ≡ d = ground (arith, same, found, get-put email other c users) in
          subst (λ e. Names e d.id) ((eq_iff email other).0 same)
            (subst (λ (x : CachedUser). Names email x.id) it (right (ground (arith, it, given))))
      | inr another ↦
          sound other d (ground (arith, another, found, get-put email other c users)) given
    ]

    unknown_now :
        (email : String) (users : Dict CachedUser) (s : S)
        → IsSound users
        → IsSound (put email (not_there api clock (clock s)) users)
    unknown_now email users s sound = put-IsSound email _ users sound (λ given. absurd (cc given))

    ok-injective : (a b : String) → ◌≡◌ {A = Result String} (ok a) (ok b) → a ≡ b
    ok-injective a b h = cc h

    after_lookup-IsSound :
        (email : String) (users : Dict CachedUser) (r : Result User) (s t : S)
        → (api.get_user_by_email email s).0 ≡ r
        → IsSound users
        → IsSound (after_lookup api clock (clock s) email users r t).1
          × ((id : String)
              → (after_lookup api clock (clock s) email users r t).0 ≡ ok id
              → Names email id)
    unfolding classify
    after_lookup-IsSound email users (err e) s t got sound =
        elim (Bool-cases (is (classify (wrap "looking up slack user" e)) undeliverable)) [
          | inl never ↦ rw never ((unknown_now email users s sound, λ id h. cc h))
          | inr later ↦ rw later ((sound, λ id h. cc h))
        ]
    after_lookup-IsSound email users (ok user) s t got sound =
        elim (Bool-cases (user.deleted || user.is_bot)) [
          | inl unusable ↦ rw unusable ((unknown_now email users s sound, λ id h. cc h))
          | inr usable ↦
              let it = named email s user got (ground (arith, usable)) (ground (arith, usable)) in
              rw usable (
                (
                  put-IsSound email _ users sound (λ given. it),
                  λ id h. subst (Names email) (ok-injective user.id id h) it,
                ))
        ]

    user_id-IsSound :
        (email : String) (users : Dict CachedUser) (s : S)
        → IsSound users
        → IsSound (user_id api clock email users s).1
          × ((id : String) → (user_id api clock email users s).0 ≡ ok id → Names email id)
    unfolding user_id
    user_id-IsSound email users s sound =
        elim (Option-cases (unexpired api clock (clock s) (get email users))) [
          | inl expired ↦ rw expired (after_lookup-IsSound email users _ s _ refl sound)
          | inr (c, fresh) ↦ rw fresh ((sound, λ id h. held c id fresh h))
        ]
      where
        held :
            (c : CachedUser) (id : String)
            → unexpired api clock (clock s) (get email users) ≡ some c
            → cached_id api clock c ≡ ok id
            → Names email id
        held c id fresh h = elim (Option-cases (get email users)) [
          | inl unset ↦ absurd (ground (arith, unset, fresh))
          | inr (d, set) ↦
              subst (Names email) (ground (arith, set, fresh, h))
                (sound email d set (ground (arith, set, fresh, h)))
        ]

    -- What a notification does: nothing but the look-up, or one message to whom Slack names.
    abbrev pub Posts :
        Notification → Dict CachedUser → S → Result (Unit {0}) × Dict CachedUser × S → Type 0
    Posts n users s (r, users', s') =
        ((s' ≡ (user_id api clock n.recipient_email users s).2) × (r ≢ ok tt))
        ⊎ ((id : String) × Names n.recipient_email id
            × (s'
                ≡ (api.post_message id (plain_summary n) (message_blocks n)
                    (user_id api clock n.recipient_email users s).2).1))

    -- If every user in the cache has been named by Slack for the email, this still holds after a
    -- notification, which does nothing but the look-up and fails, or posts one message to a user
    -- whom Slack has named for the email of the recipient, and who was in use and no bot.
    pub notify-Posts :
        (n : Notification) (users : Dict CachedUser) (s : S)
        → IsSound users
        → IsSound (notify api clock n users s).1 × Posts n users s (notify api clock n users s)
    unfolding notify
    notify-Posts n users s sound =
        let (kept, right) = user_id-IsSound n.recipient_email users s sound in
        elim (Result-cases (user_id api clock n.recipient_email users s).0) [
          | inr (e, failed) ↦ rw failed ((kept, inl (refl, λ h. cc h)))
          | inl (id, found) ↦ rw found ((kept, inr (id, right id found, refl)))
        ]
