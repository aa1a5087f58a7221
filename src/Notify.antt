-- ===== src/Notify.antt =====
-- notify/notify.go: who is told of a comment, and how the dispatcher delivers. Logging is left out.
pub mod Laws
pub mod Dispatch
use open_trove.Base.{
  ℕ, zero, suc, String, Bool, true, false, not, ◌&&◌, ◌||◌, ◌==◌, Option, List, [], ◌∷◌, ◌++◌, any,
  is_some, if◌then◌else◌, Error, Result, ok, err, sentinel, wrap_both, wrap, is, undeliverable,
}
use open_trove.Base.Text.{is_empty, trim_space, Unicode, to_lower, equal_fold}
use open_trove.Base.Exec.{Exec, pure, ◌>>=◌}
use open_trove.Comments.{
  Comment, Activity, ActivityKind, thread_created, reply_created, thread_resolved, thread_reopened,
}

pub record Notification : Type 0 where
  pub kind : ActivityKind
  pub recipient_email : String
  pub actor_email : String
  pub recipient_is_owner : Bool
  pub artifact_title : String
  pub artifact_url : String
  pub excerpt : String

pub record Artifact : Type 0 where
  pub title : String
  pub owner_email : String

-- The authors of the visible comments of a thread.
unfoldable pub participants : String → List Comment → List String
participants thread_id [] = []
participants thread_id (c ∷ cs) =
    let rest = participants thread_id cs in
    if c.thread_id == thread_id && not (is_some c.deleted_at) then c.author_email ∷ rest else rest

-- The switch of Recipients.
unfoldable pub candidates : Activity → String → List Comment → List String
unfolding participants
candidates activity owner_email thread = elim activity.kind [
  | thread_created ↦ owner_email ∷ []
  | reply_created ↦ owner_email ∷ participants activity.comment.thread_id thread
  | thread_resolved ↦ activity.comment.author_email ∷ []
  | thread_reopened ↦ activity.comment.author_email ∷ []
]

module _ (u : Unicode) where
  abbrev pub normal : String → String
  normal email = to_lower u (trim_space email)

  -- The loop of Recipients. The map `seen` has the elements of `out` as its keys.
  unfoldable pub collect : String → List String → List String → List String
  collect actor out [] = out
  collect actor out (candidate ∷ candidates) =
      let email = normal candidate in
      let skip = collect actor out candidates in
      let take = collect actor (out ++ email ∷ []) candidates in
      if is_empty email || equal_fold u email actor
      then skip
      else if any (λ seen. seen == email) out
      then skip
      else take

  unfoldable pub recipients : Activity → String → List Comment → List String
  unfolding candidates collect
  recipients activity owner_email thread =
      collect activity.actor_email [] (candidates activity owner_email thread)

abbrev pub attempts : ℕ
attempts = 3

module _ {S : Type 0} (notify : Notification → Exec S (Unit {0}))
    (sleep : ℕ → Exec S (Unit {0})) where
  -- What follows a failed attempt that is not the last.
  abbrev slept : Error → Result (Unit {0}) → Exec S (Unit {0}) → Exec S (Unit {0})
  slept e (ok _) retry s = retry s
  slept e (err stopped) retry s = (err (wrap_both e stopped), s)

  abbrev tried : Result (Unit {0}) → ℕ → Exec S (Unit {0}) → Exec S (Unit {0})
  tried (ok _) attempt retry s = (ok tt, s)
  tried (err e) attempt retry s =
      if is e undeliverable
      then (err e, s)
      else slept e (sleep attempt s).0 retry (sleep attempt s).1

  -- The loop of deliver, with `left` attempts to come after this one.
  unfoldable pub deliver_from : ℕ → ℕ → Notification → Exec S (Unit {0})
  deliver_from zero attempt n s = notify n s
  deliver_from (suc left) attempt n s =
      tried (notify n s).0 attempt (deliver_from left (suc attempt) n) (notify n s).1

  unfoldable pub deliver : Notification → Exec S (Unit {0})
  unfolding deliver_from
  deliver = deliver_from 2 1
