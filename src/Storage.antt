-- ===== src/Storage.antt =====
-- storage/storage.go: the types of the interface Store.
pub mod S3
use open_trove.Base.Exec.{Exec}
use open_trove.Activity.{ActivityRecord, UserManifest}
use open_trove.Base.{ℕ, String, Bool, List}

pub record PutOptions : Type 0 where
  pub content_type : String
  pub filename : String
  pub owner_email : String
  pub custom_slug : Bool
  pub overwrite : Bool
  pub if_match : String

pub record FileMetadata : Type 0 where
  pub owner_email : String
  pub content_type : String
  pub filename : String
  pub version : String
  pub custom_slug : Bool
  pub flagged : Bool
  pub flag_reason : String
  pub flag_categories : List String
  pub content_range : String
  pub content_length : ℕ

pub record SiteManifest : Type 0 where
  pub entry : String
  pub file_count : ℕ
  pub owner_email : String
  pub version : String

-- preview/card.go: Card. The time is in nanoseconds.
pub record Card : Type 0 where
  pub image : List ℕ
  pub content_type : String
  pub width : ℕ
  pub height : ℕ
  pub alt : String
  pub sha256 : String
  pub artifact_version : String
  pub updated_at : ℕ
  pub updated_by_email : String

-- The methods of the interface Store for artifacts, sites, histories and cards. A body is given as
-- what reading it to its end gives.
pub record Store (S : Type 0) : Type 0 where
  pub put : String → List ℕ → PutOptions → Exec S (Unit {0})
  pub get : String → String → Exec S (List ℕ × FileMetadata)
  pub delete : String → Exec S (Unit {0})
  pub metadata : String → Exec S FileMetadata
  pub record_upload : String → ActivityRecord → Exec S (Unit {0})
  pub record_view : String → ActivityRecord → Exec S (Unit {0})
  pub get_manifest : String → Exec S UserManifest
  pub put_site_file : String → String → List ℕ → String → Exec S (Unit {0})
  pub get_site_file : String → String → Exec S (List ℕ × FileMetadata)
  pub head_site_file : String → String → Exec S FileMetadata
  pub head_site : String → Exec S Bool
  pub put_site_manifest : String → SiteManifest → Exec S (Unit {0})
  pub get_site_manifest : String → Exec S SiteManifest
  pub delete_comments : String → Exec S (Unit {0})
  pub put_card : String → Card → Exec S (Unit {0})
  pub get_card : String → Exec S Card
  pub delete_card : String → Exec S (Unit {0})
