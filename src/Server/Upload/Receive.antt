-- ===== src/Server/Upload/Receive.antt =====
-- cmd/server/handlers.go: handleUpload as a whole.
use open_trove.Base.{ℕ, String, ltb, List, length, Option, none, some, if◌then◌else◌, ok, err}
use open_trove.Base.Text.{Unicode}
use open_trove.Server.{Handler, refuse}
use open_trove.Server.Files.{Caller}
use open_trove.Server.Upload.{
  with_defaults, detect_content_type, FilePart, UploadForm, UploadResponse, Server, Target, usable,
  unusable, prepare, read_file, is_zip, store_file,
}
use open_trove.Server.Zip.{Entry, handle_site_upload_from_zip}

module _ (u : Unicode) (unzip : List ℕ → Option (List Entry)) (digest : List ℕ → String)
    {S : Type 0} (server : Server S) (caller : Caller) where
  abbrev store_as : Target → FilePart → String → List ℕ → Handler S UploadResponse
  store_as target part content_type bytes =
      if is_zip u part.filename content_type
      then handle_site_upload_from_zip u unzip digest server caller target bytes
      else store_file server caller target part.filename content_type bytes

  unfoldable pub receive : Target → FilePart → Handler S UploadResponse
  receive target part = elim (read_file (with_defaults server.uploads) part) [
    | err e ↦ refuse 500
    | ok bytes ↦
        if ltb (with_defaults server.uploads).max_bytes (length bytes)
        then refuse 413
        else store_as target part
            (detect_content_type u server.types part.filename bytes part.header_type) bytes
  ]

  -- The form is there if it can be parsed within the bound on the request.
  unfoldable pub handle_upload : Option UploadForm → Handler S UploadResponse
  unfolding receive
  handle_upload none = refuse 400
  handle_upload (some form) = elim form.file [
    | none ↦ refuse 400
    | some part ↦ elim (prepare form (server.draw 0)) [
      | unusable status ↦ refuse status
      | usable target ↦ receive target part
    ]
  ]
