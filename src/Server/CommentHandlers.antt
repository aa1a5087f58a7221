-- ===== src/Server/CommentHandlers.antt =====
-- cmd/server/comments_handler.go: the requests on an artifact's comments. A request whose body
-- cannot be decoded comes as `none`.
use open_trove.Base.{
  ℕ, ◌+◌, String, Bool, true, false, not, ◌||◌, ◌==◌, Option, none, some, is_some, List, [], ◌∷◌,
  if◌then◌else◌, Error, Result, ok, err, is, not_found, invalid_comment, comment_forbidden,
  comment_not_found, thread_resolved, comment_deleted,
}
use open_trove.Base.Text.{is_empty, trim_space, Unicode}
use open_trove.Base.Dict.{Dict}
use open_trove.Storage.{FileMetadata, Store}
use open_trove.Comments.{
  Time, Comment, Thread, CreateInput, ResolutionFilter, open_only, include, only,
}
use open_trove.Comments.Service.{Service, create, reply, edit, delete, resolve}
use open_trove.Comments.Listing.{list, all_resources}
use open_trove.Server.{Handler, attempt, refuse, respond}
use open_trove.Server.Artifacts.{is_no_artifact_slug}
use open_trove.Server.SitePath.{normalize_comment_resource}

pub record CommentListResponse : Type 0 where
  pub threads : List Thread
  pub open_thread_count : ℕ
  pub current_version : String
  pub resource : String

-- The loop that counts the open threads.
unfoldable pub open_count : List Thread → ℕ
open_count [] = 0
open_count (t ∷ ts) =
    let rest = open_count ts in if is_some t.root.resolved_at then rest else 1 + rest

unfoldable pub parse_resolution_filter : String → Option ResolutionFilter
parse_resolution_filter raw =
    let value = trim_space raw in
    if is_empty value || value == "open"
    then some open_only
    else if value == "include"
    then some include
    else if value == "only"
    then some only
    else none

-- handleCommentError
unfoldable pub comment_error_status : Error → ℕ
comment_error_status e =
    if is e invalid_comment
    then 400
    else if is e comment_forbidden
    then 403
    else if is e comment_not_found
    then 404
    else if is e thread_resolved
    then 409
    else if is e comment_deleted
    then 409
    else 500

abbrev missing_or_internal : Error → ℕ
missing_or_internal e = if is e not_found then 404 else 500

abbrev or_index : String → String
or_index resource = if is_empty resource then "index.html" else resource

-- What commentArtifactContext returns: the resource and its version, or a status.
pub data Context : Type 0 where
  found : String → String → Context
  refused : ℕ → Context

abbrev page_context : String → Result FileMetadata → Context
page_context resource (ok meta) = found resource meta.version
page_context resource (err e) = refused (missing_or_internal e)

module _ {S : Type 0} (store : Store S) where
  -- From the normalized resource on.
  abbrev page_of : String → Result String → S → Context × S
  page_of slug (err e) s = (refused 400, s)
  page_of slug (ok resource) s = (
    page_context (or_index resource) (store.head_site_file slug (or_index resource) s).0,
    (store.head_site_file slug (or_index resource) s).1,
  )

  -- What follows HeadSite.
  abbrev site_context : String → String → Result Bool → S → Context × S
  site_context slug requested (err e) s = (refused 500, s)
  site_context slug requested (ok false) s = (refused 404, s)
  site_context slug requested (ok true) s = page_of slug (normalize_comment_resource requested) s

  -- What follows Metadata.
  abbrev file_context : String → String → Result FileMetadata → S → Context × S
  file_context slug requested (ok meta) s = (found "" meta.version, s)
  file_context slug requested (err e) s =
      if not (is e not_found)
      then (refused 500, s)
      else site_context slug requested (store.head_site slug s).0 (store.head_site slug s).1

  unfoldable pub comment_artifact_context : String → String → S → Context × S
  comment_artifact_context slug requested s =
      if is_no_artifact_slug slug
      then (refused 404, s)
      else file_context slug requested (store.metadata slug s).0 (store.metadata slug s).1

  abbrev in_context : {A : Type 0} → Context → (String → String → Handler S A) → Handler S A
  in_context (found resource version) next = next resource version
  in_context (refused status) next = refuse status

  -- A handler begins with the context of the artifact.
  abbrev pub with_context :
      {A : Type 0} → String → String → (String → String → Handler S A) → Handler S A
  with_context slug requested next s =
      in_context (comment_artifact_context slug requested s).0 next
        (comment_artifact_context slug requested s).1

  module _ (u : Unicode) (svc : Service S) where
    abbrev listed : String → String → List Thread → CommentListResponse
    listed resource version threads = record {
      threads = threads;
      open_thread_count = open_count threads;
      current_version = version;
      resource = resource;
    }

    -- `visit` is the order in which a map is visited, and `path`, `resolved` and `pages` are the parameters of the query.
    unfoldable pub handle_list_comments :
        (Dict Comment → List (String × Comment))
        → String
        → String
        → String
        → String
        → Handler S CommentListResponse
    unfolding comment_artifact_context open_count parse_resolution_filter
    handle_list_comments visit slug path resolved pages = with_context slug path λ resource version.
        elim (parse_resolution_filter resolved) [
          | none ↦ refuse 400
          | some filter ↦
              attempt
                (list visit u svc slug (if pages == "all" then all_resources else resource) filter)
                (λ e. if is e invalid_comment then refuse 400 else refuse 500)
                (λ threads. respond 200 (listed resource version threads))
        ]

    unfoldable pub handle_create_comment :
        String → Time → String → String → Option CreateInput → Handler S Comment
    unfolding comment_artifact_context comment_error_status
    handle_create_comment id now slug user_email none = refuse 400
    handle_create_comment id now slug user_email (some input) =
        with_context slug input.anchor.resource λ resource version.
          attempt
            (create u svc id now slug user_email version
              (record input { anchor = record input.anchor { resource = resource } }))
            (λ e. refuse (comment_error_status e)) (respond 201)

    unfoldable pub handle_reply_comment :
        String → Time → String → String → String → String → Option String → Handler S Comment
    unfolding comment_artifact_context comment_error_status
    handle_reply_comment id now slug path comment_id user_email none = refuse 400
    handle_reply_comment id now slug path comment_id user_email (some body) =
        with_context slug path λ resource version.
          attempt (reply u svc id now slug comment_id user_email version body)
            (λ e. refuse (comment_error_status e)) (respond 201)

    unfoldable pub handle_edit_comment :
        Time → String → String → String → String → Option String → Handler S Comment
    unfolding comment_artifact_context comment_error_status
    handle_edit_comment now slug path comment_id user_email none = refuse 400
    handle_edit_comment now slug path comment_id user_email (some body) =
        with_context slug path λ resource version.
          attempt (edit u svc now slug comment_id user_email body)
            (λ e. refuse (comment_error_status e)) (respond 200)

    unfoldable pub handle_delete_comment :
        Time → String → String → String → String → Handler S (Unit {0})
    unfolding comment_artifact_context comment_error_status
    handle_delete_comment now slug path comment_id user_email =
        with_context slug path λ resource version.
          attempt (delete u svc now slug comment_id user_email)
            (λ e. refuse (comment_error_status e)) (λ comment. respond 204 tt)

    unfoldable pub handle_resolve_comment_thread :
        Time → String → String → String → String → Option Bool → Handler S Comment
    unfolding comment_artifact_context comment_error_status
    handle_resolve_comment_thread now slug path comment_id user_email none = refuse 400
    handle_resolve_comment_thread now slug path comment_id user_email (some resolved) =
        with_context slug path λ resource version.
          attempt (resolve u svc now slug comment_id user_email resolved)
            (λ e. refuse (comment_error_status e)) (respond 200)
