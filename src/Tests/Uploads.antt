-- ===== src/Tests/Uploads.antt =====
-- An upload to a server whose store counts its writes, behind an inspector that allows everything.
use open_trove.Base.{
  ℕ, suc, ◌+◌, ◌≤◌, String, true, false, Option, none, some, List, [], ◌∷◌, length, take, All, ◌≡◌,
  refl, ◌∙◌, arith, ok, err, sentinel, not_found,
}
use open_trove.Base.Int.{pos}
use open_trove.Base.Text.{has_prefix, trim_prefix, join, split}
use open_trove.Base.Path.{clean}
use open_trove.Base.Dict.{get}
use open_trove.Server.SitePath.{safe_site_path}
use open_trove.Base.Exec.{Exec}
use open_trove.Activity.{empty_manifest}
use open_trove.Intake.{Inspector, fail_closed}
use open_trove.Storage.{Store}
use open_trove.Server.Files.{Caller}
use open_trove.Server.Upload.{Limits, UploadForm, ContentTypes, Server, detect_content_type}
use open_trove.Server.Upload.Receive.{handle_upload}
use open_trove.Server.Upload.Reads.{Reads}
use open_trove.Server.Upload.Gated.{Ends, handle_upload-Ends}
use open_trove.Server.Zip.{Entry, PendingFile, gathered, gather}
use open_trove.Server.Zip.Bounds.{total, IsWithin, gather-IsWithin}
use open_trove.Tests.Data.{caseless}

abbrev missing : {A : Type 0} → Exec ℕ A
missing n = (err (sentinel not_found), n)

abbrev write : Exec ℕ (Unit {0})
write n = (ok tt, suc n)

abbrev store : Store ℕ
store = record {
  put = λ slug bytes options. write;
  get = λ slug range. missing;
  delete = λ slug. write;
  metadata = λ slug. missing;
  record_upload = λ user activity. write;
  record_view = λ user activity. write;
  get_manifest = λ user n. (ok empty_manifest, n);
  put_site_file = λ slug path bytes content_type. write;
  get_site_file = λ slug path. missing;
  head_site_file = λ slug path. missing;
  head_site = λ slug n. (ok false, n);
  put_site_manifest = λ slug manifest. write;
  get_site_manifest = λ slug. missing;
  delete_comments = λ slug. write;
  put_card = λ slug card. write;
  get_card = λ slug. missing;
  delete_card = λ slug. write;
}

abbrev inspect : Inspector ℕ
inspect input n = (ok (record { allowed = true; reason = ""; categories = [] }), n)

abbrev types : ContentTypes
types = record { by_ext = []; by_mime = λ e. "text/plain"; sniffed = λ bytes. "" }

abbrev server : Server ℕ
server = record {
  store = store;
  urls = record { base_url = "https://trove"; share_url_rules = [] };
  uploads = record {
    max_bytes = pos 10;
    max_site_files = pos 2;
    max_site_bytes = pos 9;
    max_site_file_bytes = pos 5;
  };
  intake = some inspect;
  intake_fail = fail_closed;
  context_error = λ n. none;
  types = types;
  draw = λ i j. ok 0;
}

abbrev caller : Caller
caller = record { user_id = "u1"; user_email = "ada@x" }

abbrev form : UploadForm
form = record {
  file = some (record { filename = "a.txt"; header_type = ""; content = ok (1 ∷ 2 ∷ []) });
  slug = "doc";
  overwrite = "";
  if_match = "";
  if_match_header = "";
}

-- The archives: one of two files, whatever the bytes.
abbrev entry : String → List ℕ → Entry
entry name bytes = record {
  name = name;
  is_dir = false;
  uncompressed_size = length bytes;
  opens = true;
  content = ok bytes;
}

abbrev entries : List Entry
entries = entry "site/index.html" (1 ∷ 2 ∷ []) ∷ entry "site/a.css" (3 ∷ []) ∷ []

abbrev unzip : List ℕ → Option (List Entry)
unzip bytes = some entries

Unwritten : ℕ → ℕ → Type 0
Unwritten m n = m ≡ n

reads : Reads Unwritten store inspect
unfolding Unwritten
reads = record {
  reflexive = λ s. refl;
  transitive = λ s t w first second. first ∙ second;
  metadata = λ slug s. refl;
  head_site = λ slug s. refl;
  get_site_manifest = λ slug s. refl;
  inspection = λ input s. refl;
}

handle_upload-Ends_example :
    Ends caseless unzip
      (λ bytes. "v1")
      server
      caller
      inspect
      Unwritten
      0
      (handle_upload caseless unzip (λ bytes. "v1") server caller (some form) 0)
handle_upload-Ends_example =
    handle_upload-Ends caseless unzip (λ bytes. "v1") server caller inspect Unwritten refl refl
      reads (some form) 0

abbrev limits : Limits
limits = record { max_bytes = 10; max_site_files = 2; max_site_bytes = 9; max_site_file_bytes = 5 }

abbrev files : List PendingFile
files =
    record { path = "index.html"; content_type = "text/plain"; bytes = 1 ∷ 2 ∷ [] }
    ∷ record { path = "a.css"; content_type = "text/plain"; bytes = 3 ∷ [] }
    ∷ []

gather_test : gather caseless types limits "site/" 0 0 entries ≡ gathered files
unfolding gather has_prefix safe_site_path trim_prefix clean join split take detect_content_type get
gather_test = refl

gather-IsWithin_example :
    (0 + length files ≤ limits.max_site_files)
    × (0 + total files ≤ limits.max_site_bytes)
    × All (IsWithin limits) files
gather-IsWithin_example =
    gather-IsWithin caseless types limits "site/" 0 0 entries files (omega arith) (omega arith)
      gather_test
