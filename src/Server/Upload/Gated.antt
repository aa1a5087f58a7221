-- ===== src/Server/Upload/Gated.antt =====
-- cmd/server/handlers.go: what has to hold before an upload reaches the store.
use open_trove.Base.{
  ℕ, ◌≤◌, String, List, [], ◌∷◌, length, map, All, Option, none, some, ltb, ltb-false→le, ◌≡◌, refl,
  arith, Bool-cases, Option-cases, Result-cases, inl, inr, ◌⊎◌,
}
use open_trove.Base.Text.{is_empty, Unicode}
use open_trove.Intake.{Input, Inspector, fail_closed}
use open_trove.Server.{Response}
use open_trove.Server.Gate.{inspect_upload, inspect_all}
use open_trove.Server.Gate.Laws.{AllAllowed, inspect_all-AllAllowed, inspect_upload-Allowed}
use open_trove.Server.SitePath.{zip_single_dir_prefix}
use open_trove.Server.Files.{Caller}
use open_trove.Server.Upload.{
  Limits, with_defaults, FilePart, UploadForm, UploadResponse, Server, Target, Prepared, usable,
  unusable, prepare, read_file, detect_content_type, store_file, put_from, is_zip, max_retries,
}
use open_trove.Server.Upload.Receive.{receive, handle_upload}
use open_trove.Server.Zip.{
  Entry, PendingFile, gather, input_of, names, Checked, free, conflict, unchecked, check_version,
  check_slug, on_checked, put_site, inspect_site, gather_site, has_index,
  handle_site_upload_from_zip,
}
use open_trove.Server.Zip.Bounds.{total, IsWithin, Gathered-cases, gather-IsWithin}
use open_trove.Server.Upload.Reads.{
  Reads, IsRefusal, write_intake_rejection-IsRefusal, version_conflict-Kept,
  version_conflict-IsRefusal, inspect_upload-Kept, inspect_all-Kept,
}

Prepared-cases :
    (p : Prepared) → ((target : Target) × (p ≡ usable target)) ⊎ ((n : ℕ) × (p ≡ unusable n))
Prepared-cases (usable target) = inl (target, refl)
Prepared-cases (unusable n) = inr (n, refl)

module _ (u : Unicode) (unzip : List ℕ → Option (List Entry)) (digest : List ℕ → String)
    {S : Type 0} (server : Server S) (caller : Caller) (inspect : Inspector S)
    (Kept : S → S → Type 0) where
  abbrev limits : Limits
  limits = with_defaults server.uploads

  -- The files of a site, within the limits and allowed by the inspector.
  pub record IsClearedSite (files : List PendingFile) (s : S) : Type 0 where
    pub few : length files ≤ limits.max_site_files
    pub small : total files ≤ limits.max_site_bytes
    pub each : All (IsWithin limits) files
    pub allowed : AllAllowed inspect (map input_of files) s

  -- How a request of an upload ends: with a refusal and without a write, or with the writes of one file or of one
  -- site, begun only after the inspection of the contents.
  pub data Ends (s : S) (out : Response UploadResponse × S) : Type 0 where
    unwritten : IsRefusal (out.0) → Kept s (out.1) → Ends s out
    file_written :
        (target : Target) (input : Input) (t : S)
        → length input.body ≤ limits.max_bytes
        → AllAllowed inspect (input ∷ []) s
        → Kept s t
        → out
          ≡ put_from server caller max_retries 1 target input.filename input.content_type input.body
              t
        → Ends s out
    site_written :
        (slug : String) (zip_bytes : List ℕ) (files : List PendingFile) (before t : S)
        → length zip_bytes ≤ limits.max_bytes
        → IsClearedSite files before
        → Kept s before
        → Kept before t
        → out ≡ put_site u unzip digest server caller slug zip_bytes files t
        → Ends s out

  module _ (intake : server.intake ≡ some inspect) (closed : server.intake_fail ≡ fail_closed)
      (reads : Reads Kept server.store inspect) where
    inspect_site-Ends :
        (slug : String) (zip_bytes : List ℕ) (files : List PendingFile) (first s : S)
        → length zip_bytes ≤ limits.max_bytes
        → Kept first s
        → (length files ≤ limits.max_site_files)
          × (total files ≤ limits.max_site_bytes)
          × All (IsWithin limits) files
        → Ends first (inspect_site u unzip digest server caller slug zip_bytes files s)
    unfolding inspect_site
    inspect_site-Ends slug zip_bytes files first s size kept (few, small, each) =
        let gate =
          inspect_all server.intake server.intake_fail server.context_error (map input_of files)
            s in
        elim (Option-cases gate.0) [
          | inr (rejection, refusal) ↦
              unwritten (rw (inspect_site, refusal) (write_intake_rejection-IsRefusal rejection)) (
                rw (inspect_site, refusal)
                  (reads.transitive first s gate.1 kept
                    (inspect_all-Kept server inspect Kept intake reads (map input_of files) s)))
          | inl passed ↦
              site_written slug zip_bytes files s (gate.1) size
                (record {
                  few = few;
                  small = small;
                  each = each;
                  allowed =
                      inspect_all-AllAllowed inspect server.context_error (map input_of files) s
                        (rw (intake, closed) at passed);
                })
                kept (inspect_all-Kept server inspect Kept intake reads (map input_of files) s)
                (rw (inspect_site, passed) refl)
        ]

    gather_site-Ends :
        (slug : String) (zip_bytes : List ℕ) (entries : List Entry) (first s : S)
        → length zip_bytes ≤ limits.max_bytes
        → Kept first s
        → Ends first (gather_site u unzip digest server caller slug zip_bytes entries s)
    unfolding gather_site
    gather_site-Ends slug zip_bytes entries first s size kept =
        let strip = zip_single_dir_prefix (names entries) in
        elim (Gathered-cases (gather u server.types limits strip 0 0 entries)) [
          | inr (status, refusal) ↦
              unwritten (rw (gather_site, refusal) tt) (rw (gather_site, refusal) kept)
          | inl (files, read) ↦
              let (few, small, each) =
                gather-IsWithin u server.types limits strip 0 0 entries files (omega arith)
                  (omega arith) read in
              rw (gather_site, read)
                (inspect_site-Ends slug zip_bytes files first s size kept
                  (omega (arith, few), omega (arith, small), each))
        ]

    check_version-Kept :
        (target : Target) (s : S) → Kept s (check_version u unzip digest server caller target s).1
    unfolding check_version
    check_version-Kept target s = elim (Bool-cases (is_empty target.if_match)) [
      | inl free_for_all ↦ rw (check_version, free_for_all) (reads.reflexive s)
      | inr asked ↦ rw (check_version, asked) (reads.get_site_manifest target.slug s)
    ]

    check_slug-Kept :
        (target : Target) (s : S) → Kept s (check_slug u unzip digest server caller target s).1
    unfolding check_slug
    check_slug-Kept target s = elim (Bool-cases target.overwrite) [
      | inl over ↦ rw (check_slug, over) (reads.reflexive s)
      | inr fresh ↦ rw (check_slug, fresh) (reads.head_site target.slug s)
    ]

    -- Either check, and what follows it.
    on_checked-Ends :
        (target : Target) (c : Checked) (next : String → S → Response UploadResponse × S)
        (first s : S)
        → Kept first s
        → ((slug : String) → Ends first (next slug s))
        → Ends first (on_checked u unzip digest server caller target c next s)
    on_checked-Ends target (free slug) next first s kept h = h slug
    on_checked-Ends target conflict next first s kept h =
        unwritten (version_conflict-IsRefusal server inspect Kept intake reads target.slug s) (
          reads.transitive first s _ kept
            (version_conflict-Kept server inspect Kept intake reads target.slug s))
    on_checked-Ends target (unchecked status) next first s kept h = unwritten tt kept

    handle_site_upload_from_zip-Ends :
        (target : Target) (zip_bytes : List ℕ) (s : S)
        → length zip_bytes ≤ limits.max_bytes
        → Ends s (handle_site_upload_from_zip u unzip digest server caller target zip_bytes s)
    unfolding handle_site_upload_from_zip
    handle_site_upload_from_zip-Ends target zip_bytes s size =
        elim (Option-cases (unzip zip_bytes)) [
          | inl broken ↦ rw (handle_site_upload_from_zip, broken) (unwritten tt (reads.reflexive s))
          | inr (entries, read) ↦
              elim (Bool-cases (has_index (zip_single_dir_prefix (names entries)) entries)) [
                | inr no_index ↦
                    rw (handle_site_upload_from_zip, read, no_index)
                      (unwritten tt (reads.reflexive s))
                | inl index ↦
                    let (version, t) : Checked × S =
                      check_version u unzip digest server caller target s in
                    let (slug, w) : Checked × S =
                      check_slug u unzip digest server caller target t in
                    let kept = check_version-Kept target s in
                    let both = reads.transitive s t w kept (check_slug-Kept target t) in
                    rw (handle_site_upload_from_zip, read, index)
                      (on_checked-Ends target version _ s t kept λ slug'.
                        on_checked-Ends target slug _ s w both
                          λ slug''. gather_site-Ends slug'' zip_bytes entries s w size both)
              ]
        ]

    store_file-Ends :
        (target : Target) (filename content_type : String) (bytes : List ℕ) (s : S)
        → length bytes ≤ limits.max_bytes
        → Ends s (store_file server caller target filename content_type bytes s)
    unfolding store_file AllAllowed
    store_file-Ends target filename content_type bytes s size =
        let input : Input = record {
          filename = filename;
          content_type = content_type;
          body = bytes;
        } in
        let gate = inspect_upload server.intake server.intake_fail server.context_error input s in
        let kept = inspect_upload-Kept server inspect Kept intake reads input s in
        elim (Option-cases gate.0) [
          | inr (rejection, refusal) ↦
              unwritten (rw (store_file, refusal) (write_intake_rejection-IsRefusal rejection))
                (rw (store_file, refusal) kept)
          | inl passed ↦
              let (allowed, left) =
                inspect_upload-Allowed inspect server.context_error input s
                  (rw (intake, closed) at passed) in
              file_written target input (gate.1) size (allowed, tt) kept
                (rw (store_file, passed) refl)
        ]

    receive-Ends :
        (target : Target) (part : FilePart) (s : S)
        → Ends s (receive u unzip digest server caller target part s)
    unfolding receive
    receive-Ends target part s = elim (Result-cases (read_file limits part)) [
      | inr (e, failed) ↦ rw (receive, failed) (unwritten tt (reads.reflexive s))
      | inl (bytes, read) ↦ elim (Bool-cases (ltb limits.max_bytes (length bytes))) [
        | inl large ↦ rw (receive, read, large) (unwritten tt (reads.reflexive s))
        | inr fits ↦
            let size : length bytes ≤ limits.max_bytes =
              ltb-false→le limits.max_bytes (length bytes) fits in
            let content_type =
              detect_content_type u server.types part.filename bytes part.header_type in
            elim (Bool-cases (is_zip u part.filename content_type)) [
              | inl zip ↦
                  rw (receive, read, fits, zip)
                    (handle_site_upload_from_zip-Ends target bytes s size)
              | inr one ↦
                  rw (receive, read, fits, one)
                    (store_file-Ends target part.filename content_type bytes s size)
            ]
      ]
    ]

    -- With an inspector and in fail-closed mode, every upload ends in one of three ways: with an
    -- answer that is no success and nothing written; with the writing of one file, begun when its
    -- contents were within the limit and the inspector had allowed them; or with the writing of
    -- one site, begun when its files were within the limits on their number and sizes, had paths
    -- inside the site, and the inspector had allowed each of them. It holds for every store whose
    -- reads, and every inspector whose inspections, leave what is stored as it is.
    pub handle_upload-Ends :
        (form : Option UploadForm) (s : S)
        → Ends s (handle_upload u unzip digest server caller form s)
    unfolding handle_upload
    handle_upload-Ends none s = unwritten tt (reads.reflexive s)
    handle_upload-Ends (some form) s = elim (Option-cases form.file) [
      | inl absent ↦ rw (handle_upload, absent) (unwritten tt (reads.reflexive s))
      | inr (part, there) ↦ elim (Prepared-cases (prepare form (server.draw 0))) [
        | inr (status, refusal) ↦
            rw (handle_upload, there, refusal) (unwritten tt (reads.reflexive s))
        | inl (target, ready) ↦ rw (handle_upload, there, ready) (receive-Ends target part s)
      ]
    ]
