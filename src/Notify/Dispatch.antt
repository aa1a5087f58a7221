-- ===== src/Notify/Dispatch.antt =====
-- notify/notify.go: the dispatcher's queue, what it does with one activity, and the links and
-- excerpts of a notification.
use open_trove.Base.{
  ℕ, ◌-◌, String, Bool, true, false, List, [], ◌∷◌, ◌++◌, length, ltb, leb, if◌then◌else◌, Result,
  ok, err,
}
use open_trove.Base.Text.{is_empty, append, join, trim_space, Unicode, equal_fold}
use open_trove.Base.Text.Append.{chars}
use open_trove.Base.Exec.{Exec}
use open_trove.Comments.{
  Comment, Activity, ActivityKind, thread_created, reply_created, thread_resolved, thread_reopened,
}
use open_trove.Preview.{fields, take_runes}
use open_trove.Notify.{Notification, Artifact, recipients, deliver}

abbrev pub queue_size : ℕ
queue_size = 1000

abbrev pub max_excerpt_runes : ℕ
max_excerpt_runes = 280

-- CommentActivity: what is queued afterwards.
unfoldable pub comment_activity : Activity → List Activity → List Activity
comment_activity activity queue =
    if ltb (length queue) queue_size then queue ++ activity ∷ [] else queue

unfoldable pub excerpt : String → String
excerpt body =
    let line = join " " (fields body) in
    if leb (chars line) max_excerpt_runes
    then line
    else append (trim_space (take_runes (max_excerpt_runes - 1) line)) "…"

-- `path_escape` and `query_escape` are those of Go's package url.
module _ (path_escape query_escape : String → String) where
  abbrev parameter : String → String → List String
  parameter name value =
      if is_empty value then [] else append name (append "=" (query_escape value)) ∷ []

  abbrev with_query : String → List String → String
  with_query url [] = url
  with_query url (q ∷ qs) = append url (append "?" (join "&" (q ∷ qs)))

  unfoldable pub comment_url : String → String → String → String → String
  comment_url base_url slug resource thread_id =
      with_query (append base_url (append "/" (path_escape slug)))
        (parameter "page" resource ++ parameter "comment" thread_id)

  abbrev pub is_creation : ActivityKind → Bool
  is_creation thread_created = true
  is_creation reply_created = true
  is_creation thread_resolved = false
  is_creation thread_reopened = false

  abbrev pub is_reply : ActivityKind → Bool
  is_reply reply_created = true
  is_reply _ = false

  module _ (u : Unicode) {S : Type 0} (artifact : String → Exec S Artifact)
      (list_comments : String → Exec S (List Comment)) (notify : Notification → Exec S (Unit {0}))
      (sleep : ℕ → Exec S (Unit {0})) (base_url : String) where
    unfoldable pub notification : Activity → Artifact → String → Notification
    unfolding excerpt comment_url
    notification activity about recipient = record {
      kind = activity.kind;
      recipient_email = recipient;
      actor_email = activity.actor_email;
      recipient_is_owner = equal_fold u recipient about.owner_email;
      artifact_title = about.title;
      artifact_url =
          comment_url base_url activity.slug activity.comment.anchor.resource
            activity.comment.thread_id;
      excerpt = if is_creation activity.kind then excerpt activity.comment.body else "";
    }

    -- A delivery that fails is logged, and the next recipient's follows.
    unfoldable pub deliver_all : Activity → Artifact → List String → S → S
    unfolding notification
    deliver_all activity about [] s = s
    deliver_all activity about (recipient ∷ rest) s =
        deliver_all activity about rest
          (deliver notify sleep (notification activity about recipient) s).1

    abbrev told : Activity → Artifact → Result (List Comment) → S → S
    told activity about (err e) s = s
    told activity about (ok thread) s =
        deliver_all activity about (recipients u activity about.owner_email thread) s

    -- The thread is looked up for a reply only.
    abbrev with_thread : Activity → Result Artifact → S → S
    with_thread activity (err e) s = s
    with_thread activity (ok about) s =
        if is_reply activity.kind
        then told activity about (list_comments activity.slug s).0 (list_comments activity.slug s).1
        else told activity about (ok []) s

    unfoldable pub handle : Activity → S → S
    unfolding deliver_all
    handle activity s =
        with_thread activity (artifact activity.slug s).0 (artifact activity.slug s).1
