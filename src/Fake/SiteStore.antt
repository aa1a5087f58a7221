-- ===== src/Fake/SiteStore.antt =====
-- storage/fake/store.go: the methods for sites. SHA-256 and encoding/json are arguments.
use open_trove.Base.{
  ℕ, String, Bool, false, Option, none, some, is_some, List, Result, ok, err, sentinel, not_found,
}
use open_trove.Base.Text.{append}
use open_trove.Base.Dict.{get, put}
use open_trove.Base.Exec.{Exec}
use open_trove.Storage.{FileMetadata, SiteManifest}
use open_trove.Fake.{Store, StoredObject}

abbrev pub file_key : String → String → String
file_key slug path = append slug (append "/" path)

abbrev pub manifest_key : String → String
manifest_key slug = append slug "/_site_manifest.json"

-- A composite literal of storedObject whose other fields are zero.
abbrev site_object : List ℕ → String → String → StoredObject
site_object bytes content_type filename = record {
  contents = bytes;
  content_type = content_type;
  filename = filename;
  custom_slug = false;
  owner_email = "";
  flagged = false;
}

abbrev written : String → StoredObject → Store → Store
written key o s = record s { objects = put key o s.objects }

unfoldable pub put_site_file : String → String → List ℕ → String → Exec Store (Unit {0})
put_site_file slug path bytes content_type s =
    (ok tt, written (file_key slug path) (site_object bytes content_type path) s)

unfoldable pub head_site : String → Exec Store Bool
head_site slug s = (ok (is_some (get (manifest_key slug) s.objects)), s)

module _ (version : List ℕ → String) where
  abbrev site_metadata : StoredObject → FileMetadata
  site_metadata o = record {
    owner_email = "";
    content_type = o.content_type;
    filename = o.filename;
    version = version o.contents;
    custom_slug = false;
    flagged = false;
    flag_reason = "";
    flag_categories = List.[];
    content_range = "";
    content_length = 0;
  }

  abbrev file_of : Option StoredObject → Result (List ℕ × FileMetadata)
  file_of none = err (sentinel not_found)
  file_of (some o) = ok (o.contents, site_metadata o)

  abbrev head_of : Option StoredObject → Result FileMetadata
  head_of none = err (sentinel not_found)
  head_of (some o) = ok (site_metadata o)

  unfoldable pub get_site_file : String → String → Exec Store (List ℕ × FileMetadata)
  get_site_file slug path s = (file_of (get (file_key slug path) s.objects), s)

  unfoldable pub head_site_file : String → String → Exec Store FileMetadata
  head_site_file slug path s = (head_of (get (file_key slug path) s.objects), s)

-- The error of Marshal is dropped, so that it gives bytes here.
module _ (marshal : SiteManifest → List ℕ) (unmarshal : List ℕ → Result SiteManifest) where
  unfoldable pub put_site_manifest : String → SiteManifest → Exec Store (Unit {0})
  put_site_manifest slug m s = (
    ok tt,
    written (manifest_key slug) (site_object (marshal m) "application/json" "_site_manifest.json")
        s,
  )

  abbrev manifest_of : Option StoredObject → Result SiteManifest
  manifest_of none = err (sentinel not_found)
  manifest_of (some o) = unmarshal o.contents

  unfoldable pub get_site_manifest : String → Exec Store SiteManifest
  get_site_manifest slug s = (manifest_of (get (manifest_key slug) s.objects), s)
