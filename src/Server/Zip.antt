-- ===== src/Server/Zip.antt =====
-- cmd/server/handlers.go: handleSiteUploadFromZip. The hints for the uploader and the log are left
-- out.
pub mod Bounds
use open_trove.Base.{
  ℕ, zero, suc, ◌+◌, ◌-◌, ◌≤◌, String, Bool, true, false, not, ◌&&◌, ◌||◌, ◌==◌, Option, none, some,
  List, [], ◌∷◌, length, take, map, ltb, leb, if◌then◌else◌, Error, Result, ok, err, is, not_found,
}
use open_trove.Base.Text.{is_empty, has_prefix, trim_prefix, Unicode}
use open_trove.Base.Exec.{Exec, pure, ◌>>◌}
use open_trove.Intake.{Input}
use open_trove.Storage.{SiteManifest, Store}
use open_trove.Server.{Handler, Response, answer, attempt, refuse}
use open_trove.Server.Slug.{generate_slug}
use open_trove.Server.SitePath.{safe_site_path, zip_single_dir_prefix}
use open_trove.Server.Gate.{inspect_all, write_intake_rejection}
use open_trove.Server.Artifacts.{view_url_for, version_conflict}
use open_trove.Server.Files.{Caller, activity_of, html_type}
use open_trove.Server.Upload.{
  Limits, with_defaults, ContentTypes, detect_content_type, UploadResponse, site, Server, Target,
  record_upload,
}

-- An entry of an archive: its name, whether it is a directory, its declared size, whether it can
-- be opened, and what reading it gives.
pub record Entry : Type 0 where
  pub name : String
  pub is_dir : Bool
  pub uncompressed_size : ℕ
  pub opens : Bool
  pub content : Result (List ℕ)

pub record PendingFile : Type 0 where
  pub path : String
  pub content_type : String
  pub bytes : List ℕ

pub data Gathered : Type 0 where
  gathered : List PendingFile → Gathered
  rejected : ℕ → Gathered

abbrev pub skipped : Entry → Bool
skipped f = f.is_dir || has_prefix f.name "__MACOSX/"

unfoldable pub has_index : String → List Entry → Bool
has_index strip [] = false
has_index strip (f ∷ fs) =
    let rest = has_index strip fs in
    if skipped f then rest else trim_prefix f.name strip == "index.html" || rest

abbrev pub names : List Entry → List String
names = map (λ f. f.name)

abbrev and_before : PendingFile → Gathered → Gathered
and_before file (gathered files) = gathered (file ∷ files)
and_before file (rejected status) = rejected status

-- What one entry adds to a site that has `count` files and `expanded` bytes so far.
pub data Taken : Type 0 where
  taken : PendingFile → Taken
  refused : ℕ → Taken

module _ (u : Unicode) (types : ContentTypes) (limits : Limits) (strip : String) where
  abbrev read_entry : String → ℕ → Entry → Result (List ℕ) → Taken
  read_entry path expanded f (err e) = refused 500
  read_entry path expanded f (ok content) =
      let bytes = take (limits.max_site_file_bytes + 1) content in
      if ltb limits.max_site_file_bytes (length bytes)
      then refused 413
      else if ltb limits.max_site_bytes (expanded + length bytes)
      then refused 413
      else taken (record {
        path = path;
        content_type = detect_content_type u types path bytes "";
        bytes = bytes;
      })

  unfoldable pub take_entry : ℕ → ℕ → Entry → Taken
  take_entry count expanded f =
      if leb limits.max_site_files count then refused 413 else elim (safe_site_path f.name strip) [
        | err e ↦ refused 400
        | ok path ↦
            if ltb limits.max_site_file_bytes f.uncompressed_size
            then refused 413
            else if ltb (limits.max_site_bytes - expanded) f.uncompressed_size
            then refused 413
            else if not f.opens
            then refused 500
            else read_entry path expanded f f.content
      ]

  -- The loop that reads the entries.
  unfoldable pub gather : ℕ → ℕ → List Entry → Gathered
  unfolding take_entry
  gather count expanded [] = gathered []
  gather count expanded (f ∷ fs) =
      if skipped f then gather count expanded fs else elim (take_entry count expanded f) [
        | refused status ↦ rejected status
        | taken file ↦ and_before file (gather (suc count) (expanded + length file.bytes) fs)
      ]

abbrev pub input_of : PendingFile → Input
input_of file = record { filename = file.path; content_type = file.content_type; body = file.bytes }

-- The slug and the answer of the checks that come before reading: `unchecked` is a status.
pub data Checked : Type 0 where
  free : String → Checked
  conflict : Checked
  unchecked : ℕ → Checked

-- `unzip` is zip.NewReader on the bytes, and `digest` the version made of them with SHA-256.
module _ (u : Unicode) (unzip : List ℕ → Option (List Entry)) (digest : List ℕ → String)
    {S : Type 0} (server : Server S) (caller : Caller) where
  abbrev matches : Target → Result SiteManifest → Checked
  matches target (ok manifest) =
      if manifest.version == target.if_match then free target.slug else conflict
  matches target (err e) = if is e not_found then conflict else unchecked 500

  -- The test of a conditional overwrite against the manifest.
  unfoldable pub check_version : Target → S → Checked × S
  check_version target s = if is_empty target.if_match then (free target.slug, s) else (
    matches target (server.store.get_site_manifest target.slug s).0,
    (server.store.get_site_manifest target.slug s).1,
  )

  abbrev another_slug : Checked
  another_slug = elim (generate_slug (server.draw 1)) [
    | err e ↦ unchecked 500
    | ok slug ↦ free slug
  ]

  abbrev availability : Target → Result Bool → Checked
  availability target (err e) = unchecked 500
  availability target (ok exists) =
      if not exists
      then free target.slug
      else if target.user_provided_slug
      then unchecked 409
      else another_slug

  -- The test for a site at the slug.
  unfoldable pub check_slug : Target → S → Checked × S
  check_slug target s = if target.overwrite then (free target.slug, s) else (
    availability target (server.store.head_site target.slug s).0,
    (server.store.head_site target.slug s).1,
  )

  unfoldable pub put_files : String → List PendingFile → Exec S (Unit {0})
  put_files slug [] = pure tt
  put_files slug (file ∷ files) =
      server.store.put_site_file slug file.path file.bytes file.content_type >> put_files slug files

  abbrev manifest_of : List ℕ → List PendingFile → SiteManifest
  manifest_of zip_bytes files = record {
    entry = "index.html";
    file_count = length files;
    owner_email = caller.user_email;
    version = digest zip_bytes;
  }

  abbrev site_response : String → List ℕ → Response UploadResponse
  site_response slug zip_bytes = answer 200 (record {
    url = view_url_for server.urls slug;
    slug = slug;
    kind = site;
    version = digest zip_bytes;
  })

  unfoldable pub put_site : String → List ℕ → List PendingFile → Handler S UploadResponse
  unfolding put_files
  put_site slug zip_bytes files =
      attempt
        (put_files slug files >> server.store.put_site_manifest slug (manifest_of zip_bytes files))
        (λ e. refuse 500)
        (λ done s. (
          site_response slug zip_bytes,
          record_upload server caller
              (activity_of slug slug html_type caller.user_email caller.user_email) s,
        ))

  unfoldable pub inspect_site : String → List ℕ → List PendingFile → Handler S UploadResponse
  unfolding put_site
  inspect_site slug zip_bytes files s =
      let gate =
        inspect_all server.intake server.intake_fail server.context_error (map input_of files) s in
      elim gate.0 [
        | some rejection ↦ (write_intake_rejection rejection, gate.1)
        | none ↦ put_site slug zip_bytes files gate.1
      ]

  unfoldable pub gather_site : String → List ℕ → List Entry → Handler S UploadResponse
  unfolding inspect_site
  gather_site slug zip_bytes entries =
      elim (gather u server.types (with_defaults server.uploads)
        (zip_single_dir_prefix (names entries)) 0 0 entries) [
          | rejected status ↦ refuse status
          | gathered files ↦ inspect_site slug zip_bytes files
        ]

  abbrev pub on_checked :
      Target → Checked → (String → Handler S UploadResponse) → Handler S UploadResponse
  on_checked target (free slug) next = next slug
  on_checked target conflict next = version_conflict server.urls server.store target.slug
  on_checked target (unchecked status) next = refuse status

  unfoldable pub handle_site_upload_from_zip : Target → List ℕ → Handler S UploadResponse
  unfolding check_version check_slug gather_site has_index
  handle_site_upload_from_zip target zip_bytes = elim (unzip zip_bytes) [
    | none ↦ refuse 400
    | some entries ↦
        if not (has_index (zip_single_dir_prefix (names entries)) entries) then refuse 400 else λ s.
        on_checked target (check_version target s).0
          (λ slug s'.
            on_checked target (check_slug target s').0
              (λ slug'. gather_site slug' zip_bytes entries) (check_slug target s').1)
          (check_version target s).1
  ]
