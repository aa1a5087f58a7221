-- ===== src/Server/Upload.antt =====
-- cmd/server/handlers.go: handleUpload. The hints for the uploader and the log are left out, and
-- the clean-up of the multipart form's temporary files.
pub mod Receive
pub mod Reads
pub mod Gated
use Prim.Native.String.{len}
use open_trove.Base.{
  ℕ, zero, suc, ◌+◌, ◌*◌, ◌^◌, String, Bool, true, false, not, ◌&&◌, ◌||◌, ◌==◌, eqb, Option, none,
  some, List, length, take, ltb, if◌then◌else◌, Error, Result, ok, err, is, version_mismatch,
  slug_conflict,
}
use open_trove.Base.Int.{ℤ, pos, negsuc}
use open_trove.Base.Text.{is_empty, append, trim_space, trim_prefix, has_suffix, Unicode, to_lower}
use open_trove.Base.Path.{ext}
use open_trove.Base.Dict.{Dict, get}
use open_trove.Base.Exec.{Exec}
use open_trove.Intake.{Input, Inspector, FailMode}
use open_trove.Activity.{ActivityRecord}
use open_trove.Storage.{PutOptions, FileMetadata, Store}
use open_trove.Storage.S3.Objects.{trim_quotes}
use open_trove.Server.{Handler, Response, answer, attempt, refuse, respond}
use open_trove.Server.Slug.{validate_slug, generate_slug}
use open_trove.Server.Gate.{inspect_upload, write_intake_rejection}
use open_trove.Server.Artifacts.{Urls, view_url_for, version_conflict}
use open_trove.Server.Files.{Caller, activity_of}

-- uploadLimits, as configured and with the defaults in place of what is not positive.
pub record ConfiguredLimits : Type 0 where
  pub max_bytes : ℤ
  pub max_site_files : ℤ
  pub max_site_bytes : ℤ
  pub max_site_file_bytes : ℤ

pub record Limits : Type 0 where
  pub max_bytes : ℕ
  pub max_site_files : ℕ
  pub max_site_bytes : ℕ
  pub max_site_file_bytes : ℕ

abbrev positive_or : ℕ → ℤ → ℕ
positive_or default (pos zero) = default
positive_or default (pos (suc n)) = suc n
positive_or default (negsuc n) = default

unfoldable pub with_defaults : ConfiguredLimits → Limits
with_defaults l = record {
  max_bytes = positive_or (200 * 2 ^ 20) l.max_bytes;
  max_site_files = positive_or 2000 l.max_site_files;
  max_site_bytes = positive_or (200 * 2 ^ 20) l.max_site_bytes;
  max_site_file_bytes = positive_or (100 * 2 ^ 20) l.max_site_file_bytes;
}

-- The tables of content types: extContentTypes, mime.TypeByExtension and http.DetectContentType.
pub record ContentTypes : Type 0 where
  pub by_ext : Dict String
  pub by_mime : String → String
  pub sniffed : List ℕ → String

abbrev octet_stream : String
octet_stream = "application/octet-stream"

-- What a file of the form is: its name, its Content-Type header and what reading it gives.
pub record FilePart : Type 0 where
  pub filename : String
  pub header_type : String
  pub content : Result (List ℕ)

pub record UploadForm : Type 0 where
  pub file : Option FilePart
  pub slug : String
  pub overwrite : String
  pub if_match : String
  pub if_match_header : String

abbrev pub first_match : UploadForm → String
first_match form =
    let v = trim_space form.if_match in if is_empty v then trim_space form.if_match_header else v

unfoldable pub requested_version : UploadForm → String
requested_version form = trim_quotes (trim_prefix (first_match form) "W/")

pub data UploadKind : Type 0 where
  single site : UploadKind

pub record UploadResponse : Type 0 where
  pub url : String
  pub slug : String
  pub kind : UploadKind
  pub version : String

abbrev pub max_retries : ℕ
max_retries = 5

-- The fields of the server that an upload reads. The configuration of the intake is in `intake` to
-- `context_error`, and `draw i` is what the random source gives for the slug number i of a request.
pub record Server (S : Type 0) : Type 0 where
  pub store : Store S
  pub urls : Urls
  pub uploads : ConfiguredLimits
  pub intake : Option (Inspector S)
  pub intake_fail : FailMode
  pub context_error : S → Option Error
  pub types : ContentTypes
  pub draw : ℕ → ℕ → Result ℕ

module _ (u : Unicode) (types : ContentTypes) where
  abbrev sniffed_or : String → List ℕ → String
  sniffed_or multipart bytes =
      let ct = types.sniffed (take 512 bytes) in
      if ltb 0 (length bytes) && not (ct == octet_stream)
      then ct
      else if not (is_empty multipart) && not (multipart == octet_stream)
      then multipart
      else octet_stream

  unfoldable pub detect_content_type : String → List ℕ → String → String
  detect_content_type filename bytes multipart =
      let e = to_lower u (ext filename) in
      elim (get e types.by_ext) [
        | some ct ↦ ct
        | none ↦
            if not (is_empty (types.by_mime e)) then types.by_mime e else sniffed_or multipart bytes
      ]

-- How an upload is written, once its slug and its condition are known.
pub record Target : Type 0 where
  pub slug : String
  pub user_provided_slug : Bool
  pub overwrite : Bool
  pub if_match : String

abbrev pub put_options : Caller → Target → String → String → PutOptions
put_options caller target filename content_type = record {
  content_type = content_type;
  filename = filename;
  owner_email = caller.user_email;
  custom_slug = target.user_provided_slug;
  overwrite = target.overwrite;
  if_match = target.if_match;
}

-- The target of an upload, or the status of a refusal.
pub data Prepared : Type 0 where
  usable : Target → Prepared
  unusable : ℕ → Prepared

-- The condition in the request, once there is a slug.
abbrev conditional : UploadForm → Bool → String → Prepared
conditional form user_provided slug =
    let version = requested_version form in
    if is_empty version
    then usable (record {
      slug = slug;
      user_provided_slug = user_provided;
      overwrite = form.overwrite == "true";
      if_match = "";
    })
    else if not user_provided
    then unusable 400
    else usable
        (record { slug = slug; user_provided_slug = true; overwrite = true; if_match = version })

unfoldable pub prepare : UploadForm → (ℕ → Result ℕ) → Prepared
unfolding requested_version
prepare form draw =
    if not (is_empty form.slug)
    then elim (validate_slug form.slug) [
      | err e ↦ unusable 400
      | ok valid ↦ conditional form true form.slug
    ]
    else elim (generate_slug draw) [ err e ↦ unusable 500 | ok slug ↦ conditional form false slug ]

-- The bounded copy of the file.
unfoldable pub read_file : Limits → FilePart → Result (List ℕ)
read_file limits part = elim part.content as (λ _. Result (List ℕ)) [
  | err e ↦ err e
  | ok bytes ↦ ok (take (limits.max_bytes + 1) bytes)
]

unfoldable pub is_zip : Unicode → String → String → Bool
is_zip u filename content_type =
    has_suffix (to_lower u filename) ".zip"
    || content_type == "application/zip"
    || content_type == "application/x-zip-compressed"

module _ {S : Type 0} (server : Server S) (caller : Caller) where
  abbrev version_of : Result FileMetadata → String
  version_of (ok meta) = meta.version
  version_of (err e) = ""

  abbrev pub record_upload : ActivityRecord → S → S
  record_upload activity s =
      if is_empty caller.user_id
      then s
      else (server.store.record_upload caller.user_id activity s).1

  -- What follows a Put that succeeds.
  unfoldable pub uploaded : String → String → String → Handler S UploadResponse
  uploaded slug filename content_type s =
      let activity = activity_of slug filename content_type caller.user_email caller.user_email in
      let after = record_upload activity s in
      (
        answer 200 (record {
          url = view_url_for server.urls slug;
          slug = slug;
          kind = single;
          version = version_of (server.store.metadata slug after).0;
        }),
        (server.store.metadata slug after).1,
      )

  -- The loop of Put, with the retries left; `i` numbers the slugs of the request.
  unfoldable pub put_from : ℕ → ℕ → Target → String → String → List ℕ → Handler S UploadResponse
  unfolding uploaded
  put_from zero i target filename content_type bytes =
      attempt (server.store.put target.slug bytes (put_options caller target filename content_type))
        (λ e.
          if is e version_mismatch
          then version_conflict server.urls server.store target.slug
          else if is e slug_conflict && target.user_provided_slug
          then refuse 409
          else refuse 500)
        (λ done. uploaded target.slug filename content_type)
  put_from (suc left) i target filename content_type bytes =
      attempt (server.store.put target.slug bytes (put_options caller target filename content_type))
        (λ e.
          if is e version_mismatch
          then version_conflict server.urls server.store target.slug
          else if not (is e slug_conflict)
          then refuse 500
          else if target.user_provided_slug
          then refuse 409
          else elim (generate_slug (server.draw i)) [
            | err e' ↦ refuse 500
            | ok slug ↦
                put_from left (suc i) (record target { slug = slug }) filename content_type bytes
          ])
        (λ done. uploaded target.slug filename content_type)

  unfoldable pub store_file : Target → String → String → List ℕ → Handler S UploadResponse
  unfolding put_from
  store_file target filename content_type bytes s =
      let input : Input = record {
        filename = filename;
        content_type = content_type;
        body = bytes;
      } in
      let gate = inspect_upload server.intake server.intake_fail server.context_error input s in
      elim gate.0 [
        | some rejection ↦ (write_intake_rejection rejection, gate.1)
        | none ↦ put_from max_retries 1 target filename content_type bytes gate.1
      ]
