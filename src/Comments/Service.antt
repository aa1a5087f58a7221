-- ===== src/Comments/Service.antt =====
-- comments/comments.go: the methods of Service that change a thread, and what they share.
pub mod Effects
pub mod Forms
pub mod Laws
pub mod WellFormed
pub mod Invariant
pub mod Steps
pub mod History
use open_trove.Base.{
  String, Bool, true, false, not, ◌&&◌, ◌||◌, Option, none, some, List, map, is_some, if◌then◌else◌,
  Error, wrap, sentinel, is, comment_not_found, comment_deleted, comment_forbidden, thread_resolved,
  Result, ok, err,
}
use open_trove.Base.Text.{is_empty, trim_space, Unicode, equal_fold}
use open_trove.Base.Exec.{Exec, pure, raise, lift, map_err, wrapping, ◌>>=◌, ◌>>◌}
use open_trove.Comments.{
  Time, Comment, Anchor, CreateInput, Activity, ActivityKind, thread_created, reply_created,
  thread_resolved as resolved_kind, thread_reopened, Repository,
}
use open_trove.Comments.Validate.{invalid, normalize_anchor, validate_create, validate_body}

-- The clock and the source of identifiers are arguments of the methods, since no method asks for
-- more than one time and one identifier.
pub record Service (S : Type 0) : Type 0 where
  pub repository : Repository S
  -- Option WithObserver
  pub observer : Option (Activity → S → S)

-- A record stored before threads had identifiers of their own.
unfoldable pub with_thread_id : Comment → Comment
with_thread_id c =
    if is_empty c.thread_id
    then record c { thread_id = if is_empty c.parent_id then c.id else c.parent_id }
    else c

unfoldable pub not_found_or_wrapped : Error → Error
not_found_or_wrapped e =
    if is e comment_not_found then sentinel comment_not_found else wrap "getting comment" e

abbrev pub edited : Comment → String → Time → String → Comment
edited c body now actor = record c { body = body; edited_at = some now; edited_by_email = actor }

abbrev pub tombstone : Comment → Time → String → Comment
tombstone c now actor = record c { body = ""; deleted_at = some now; deleted_by_email = actor }

abbrev pub with_resolution : Comment → Bool → Time → String → Comment
with_resolution c true now actor = record c { resolved_at = some now; resolved_by_email = actor }
with_resolution c false now actor = record c { resolved_at = none; resolved_by_email = "" }

abbrev pub kind_of_resolution : Bool → ActivityKind
kind_of_resolution true = resolved_kind
kind_of_resolution false = thread_reopened

-- The thread is in the requested state already.
abbrev pub settled : Comment → Bool → Bool
settled c true = is_some c.resolved_at
settled c false = not (is_some c.resolved_at)

unfoldable pub emit_to : {S : Type 0} → Option (Activity → S → S) → Activity → S → S
emit_to none activity s = s
emit_to (some observe) activity s = observe activity s

-- The first two assignments of Create.
abbrev pub normalized : CreateInput → CreateInput
normalized raw = record { body = trim_space raw.body; anchor = normalize_anchor raw.anchor }

-- The composite literals of Create and Reply, whose other fields are zero.
abbrev pub new_comment :
    String → String → String → String → String → String → Time → String → Anchor → Comment
new_comment id thread_id parent_id slug author_email body now artifact_version anchor = record {
  id = id;
  thread_id = thread_id;
  parent_id = parent_id;
  slug = slug;
  author_email = author_email;
  body = body;
  created_at = now;
  edited_at = none;
  edited_by_email = "";
  deleted_at = none;
  deleted_by_email = "";
  resolved_at = none;
  resolved_by_email = "";
  artifact_version = artifact_version;
  anchor = anchor;
}

module _ (u : Unicode) {S : Type 0} (svc : Service S) where
  unfoldable pub emit : ActivityKind → String → Comment → Exec S (Unit {0})
  unfolding emit_to
  emit kind actor comment s = (
    ok tt,
    emit_to svc.observer
        (record { kind = kind; slug = comment.slug; actor_email = actor; comment = comment }) s,
  )

  unfoldable pub stored_comment : String → String → Exec S Comment
  unfolding not_found_or_wrapped
  stored_comment slug id =
      if is_empty (trim_space slug) || is_empty (trim_space id)
      then raise (sentinel comment_not_found)
      else do
        comment ← map_err not_found_or_wrapped (svc.repository.get_comment slug id)
        pure (with_thread_id comment)

  unfoldable pub create : String → Time → String → String → String → CreateInput → Exec S Comment
  create id now slug author_email artifact_version raw = do
    let input = normalized raw
    lift (validate_create slug author_email input)
    let comment : Comment =
        new_comment id id "" slug author_email input.body now artifact_version input.anchor
    wrapping "creating comment" (svc.repository.create_comment comment)
    emit thread_created author_email comment
    pure comment

  -- The tests that Reply and Resolve make on the root of a thread.
  unfoldable pub open_root : Comment → Exec S Comment
  open_root root =
      if not (is_empty root.parent_id)
      then raise (sentinel comment_not_found)
      else if is_some root.deleted_at
      then raise (sentinel comment_deleted)
      else pure root

  unfoldable pub reply : String → Time → String → String → String → String → String → Exec S Comment
  reply id now slug thread_id author_email artifact_version raw_body = do
    body ← lift (validate_body raw_body)
    if is_empty (trim_space author_email) then lift (invalid "author email is required") else do
      stored ← stored_comment slug thread_id
      root ← open_root stored
      if is_some root.resolved_at then raise (sentinel thread_resolved) else do
        let reply : Comment =
            new_comment id root.id root.id slug author_email body now artifact_version root.anchor
        wrapping "creating reply" (svc.repository.create_comment reply)
        emit reply_created author_email reply
        pure reply

  unfoldable pub check_author : Comment → String → Exec S Comment
  check_author comment actor_email =
      if is_some comment.deleted_at
      then raise (sentinel comment_deleted)
      else if not (equal_fold u comment.author_email actor_email)
      then raise (sentinel comment_forbidden)
      else pure comment

  unfoldable pub comment_for_mutation : String → String → String → Exec S Comment
  comment_for_mutation slug comment_id actor_email =
      if is_empty (trim_space actor_email)
      then lift (invalid "actor email is required")
      else do comment ← stored_comment slug comment_id; check_author comment actor_email

  unfoldable pub edit : Time → String → String → String → String → Exec S Comment
  edit now slug comment_id actor_email raw_body = do
    body ← lift (validate_body raw_body)
    comment ← comment_for_mutation slug comment_id actor_email
    let changed : Comment = edited comment body now actor_email
    wrapping "updating comment" (svc.repository.update_comment changed)
    pure changed

  unfoldable pub delete : Time → String → String → String → Exec S Comment
  delete now slug comment_id actor_email = do
    comment ← comment_for_mutation slug comment_id actor_email
    let changed : Comment = tombstone comment now actor_email
    wrapping "deleting comment" (svc.repository.update_comment changed)
    pure changed

  unfoldable pub resolve : Time → String → String → String → Bool → Exec S Comment
  resolve now slug thread_id actor_email resolved =
      if is_empty (trim_space actor_email) then lift (invalid "actor email is required") else do
        stored ← stored_comment slug thread_id
        root ← open_root stored
        if settled root resolved then pure root else do
          let changed : Comment = with_resolution root resolved now actor_email
          wrapping "updating thread resolution" (svc.repository.update_comment changed)
          emit (kind_of_resolution resolved) actor_email changed
          pure changed

  pub list_stored : String → Exec S (List Comment)
  list_stored slug = if is_empty (trim_space slug) then lift (invalid "slug is required") else do
    items ← wrapping "listing comments" (svc.repository.list_comments slug)
    pure (map with_thread_id items)
