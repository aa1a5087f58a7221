-- ===== src/Server/Files.antt =====
-- cmd/server/handlers.go: the requests that read and delete artifacts.
use open_trove.Base.{
  ℕ, String, not, ◌&&◌, Option, none, some, List, if◌then◌else◌, ok, err, is, not_found,
}
use open_trove.Base.Text.{is_empty, append, has_prefix}
use open_trove.Base.Path.{ext}
use open_trove.Activity.{ActivityRecord, UserManifest}
use open_trove.Storage.{FileMetadata, Store}
use open_trove.Server.{Handler, Response, answer, attempt, refuse, respond}
use open_trove.Server.Slug.{is_internal_slug}
use open_trove.Server.SitePath.{safe_site_path}
use open_trove.Server.Artifacts.{is_no_artifact_slug}

-- What the middlewares leave of the caller: userID and userEmail.
pub record Caller : Type 0 where
  pub user_id : String
  pub user_email : String

-- A composite literal of storage.ActivityRecord, whose other fields are zero.
abbrev pub activity_of : String → String → String → String → String → ActivityRecord
activity_of slug filename content_type user_email owner_email = record {
  slug = slug;
  filename = filename;
  content_type = content_type;
  user_email = user_email;
  owner_email = owner_email;
  at = "";
}

abbrev pub html_type : String
html_type = "text/html; charset=utf-8"

abbrev pub download_name : String → FileMetadata → String
download_name slug meta =
    if meta.custom_slug then append slug (ext meta.filename) else meta.filename

-- What the viewer page of a site and of a file is made from.
pub data Page : Type 0 where
  site_page : String → Page
  file_page : String → FileMetadata → String → Page

-- What a raw download carries: the body, the headers Content-Type and Content-Range, the version
-- in ETag, and the name in Content-Disposition.
pub record RawResponse : Type 0 where
  pub body : List ℕ
  pub content_type : String
  pub version : String
  pub filename : String
  pub content_range : String

module _ {S : Type 0} (store : Store S) where
  -- An error is logged, and goes no further.
  unfoldable pub record_view : Caller → String → String → String → String → S → S
  record_view caller slug filename content_type owner_email s =
      if is_empty caller.user_id
      then s
      else (store.record_view caller.user_id
          (activity_of slug filename content_type caller.user_email owner_email) s).1

  unfoldable pub view_file : Caller → String → Handler S Page
  unfolding record_view
  view_file caller slug =
      attempt (store.metadata slug) (λ e. if is e not_found then refuse 404 else refuse 500)
        (λ meta s. (
          answer 200 (file_page slug meta (download_name slug meta)),
          record_view caller slug meta.filename meta.content_type meta.owner_email s,
        ))

  unfoldable pub handle_view : Caller → String → Handler S Page
  unfolding record_view view_file
  handle_view caller slug =
      if is_internal_slug slug
      then refuse 404
      else attempt (store.get_site_manifest slug)
          (λ e. if is e not_found then view_file caller slug else refuse 500)
          (λ site s. (
            answer 200 (site_page slug),
            record_view caller slug slug html_type site.owner_email s,
          ))

  unfoldable pub handle_mine : Caller → Handler S (Option UserManifest)
  handle_mine caller =
      if is_empty caller.user_id
      then respond 200 none
      else attempt (store.get_manifest caller.user_id) (λ e. refuse 500) (λ m. respond 200 (some m))

  abbrev raw_of : String → List ℕ → FileMetadata → Response RawResponse
  raw_of slug body meta = answer (if is_empty meta.content_range then 200 else 206) (record {
    body = body;
    content_type = meta.content_type;
    version = meta.version;
    filename = if is_empty meta.filename then "" else download_name slug meta;
    content_range = meta.content_range;
  })

  unfoldable pub handle_raw : String → String → Handler S RawResponse
  handle_raw slug range =
      if is_internal_slug slug
      then refuse 404
      else attempt (store.get slug range) (λ e. if is e not_found then refuse 404 else refuse 500)
          (λ got s. (raw_of slug got.0 got.1, s))

  -- A page of a site counts as a view; the assets do not.
  unfoldable pub record_site_view : Caller → String → FileMetadata → S → S
  unfolding record_view
  record_site_view caller slug meta s =
      if not (is_empty caller.user_id) && has_prefix meta.content_type "text/html"
      then elim (store.get_site_manifest slug s).0 [
        | err e ↦ (store.get_site_manifest slug s).1
        | ok site ↦
            record_view caller slug slug html_type site.owner_email
              (store.get_site_manifest slug s).1
      ]
      else s

  unfoldable pub handle_site_asset : Caller → String → String → Handler S (List ℕ × String)
  unfolding record_site_view
  handle_site_asset caller slug path =
      if is_internal_slug slug then refuse 404 else elim (safe_site_path path "") [
        | err e ↦ refuse 404
        | ok safe_path ↦
            attempt (store.get_site_file slug safe_path)
              (λ e. if is e not_found then refuse 404 else refuse 500)
              (λ got s.
                (answer 200 (got.0, got.1.content_type), record_site_view caller slug got.1 s))
      ]

  -- The calls of DeleteComments and DeleteCard: their errors are logged, and go no further.
  abbrev clean_up : String → S → S
  clean_up slug s = (store.delete_card slug (store.delete_comments slug s).1).1

  unfoldable pub handle_delete : String → Handler S (Unit {0})
  handle_delete slug =
      if is_no_artifact_slug slug
      then refuse 404
      else attempt (store.delete slug) (λ e. if is e not_found then refuse 404 else refuse 500)
          (λ done s. (answer 204 tt, clean_up slug s))
