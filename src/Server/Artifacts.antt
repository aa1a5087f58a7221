-- ===== src/Server/Artifacts.antt =====
-- cmd/server/artifacts_handler.go, and the URLs of handlers.go.
use open_trove.Base.{
  ℕ, String, Bool, true, false, not, ◌||◌, Option, none, some, List, [], ◌∷◌, if◌then◌else◌, Result,
  ok, err, sentinel, is, not_found, artifact_not_found,
}
use open_trove.Base.Text.{append, has_prefix}
use open_trove.Base.Exec.{Exec}
use open_trove.Storage.{FileMetadata, SiteManifest, Store}
use open_trove.Server.{Handler, attempt, refuse, respond, stale}
use open_trove.Server.Slug.{is_internal_slug, validate_slug}

pub record ShareUrlRule : Type 0 where
  pub slug_prefix : String
  pub base_url : String
  pub path_prefix : String

-- The fields of the server that make URLs.
pub record Urls : Type 0 where
  pub base_url : String
  pub share_url_rules : List ShareUrlRule

unfoldable pub share_url_rule_for : List ShareUrlRule → String → Option ShareUrlRule
share_url_rule_for [] slug = none
share_url_rule_for (rule ∷ rules) slug =
    let rest = share_url_rule_for rules slug in
    if has_prefix slug rule.slug_prefix then some rule else rest

abbrev pub under : String → String → String
under base slug = append base (append "/" slug)

unfoldable pub view_url_for : Urls → String → String
unfolding share_url_rule_for
view_url_for urls slug = elim (share_url_rule_for urls.share_url_rules slug) [
  | none ↦ under urls.base_url slug
  | some rule ↦ under (append rule.base_url rule.path_prefix) slug
]

unfoldable pub raw_url_for : Urls → String → String
unfolding share_url_rule_for
raw_url_for urls slug = elim (share_url_rule_for urls.share_url_rules slug) [
  | none ↦ append (under "" slug) "/raw"
  | some rule ↦ append (under (append rule.base_url rule.path_prefix) slug) "/raw"
]

pub data Kind : Type 0 where
  file site : Kind

pub record ArtifactResponse : Type 0 where
  pub slug : String
  pub kind : Kind
  pub version : String
  pub content_type : String
  pub filename : String
  pub owner_email : String
  pub file_count : ℕ
  pub url : String

abbrev pub of_file : Urls → String → FileMetadata → ArtifactResponse
of_file urls slug meta = record {
  slug = slug;
  kind = file;
  version = meta.version;
  content_type = meta.content_type;
  filename = meta.filename;
  owner_email = meta.owner_email;
  file_count = 0;
  url = view_url_for urls slug;
}

abbrev pub of_site : Urls → String → SiteManifest → ArtifactResponse
of_site urls slug manifest = record {
  slug = slug;
  kind = site;
  version = manifest.version;
  content_type = "";
  filename = "";
  owner_email = manifest.owner_email;
  file_count = manifest.file_count;
  url = view_url_for urls slug;
}

abbrev is_err : {A : Type 0} → Result A → Bool
is_err (ok a) = false
is_err (err e) = true

-- isInternalSlug(slug) || validateSlug(slug) != nil
unfoldable pub is_no_artifact_slug : String → Bool
is_no_artifact_slug slug = is_internal_slug slug || is_err (validate_slug slug)

abbrev site_result : Urls → String → Result SiteManifest → Result ArtifactResponse
site_result urls slug (ok manifest) = ok (of_site urls slug manifest)
site_result urls slug (err e) = if is e not_found then err (sentinel artifact_not_found) else err e

module _ (urls : Urls) {S : Type 0} (store : Store S) where
  -- What follows the call of Metadata.
  unfoldable pub lookup_by : String → Result FileMetadata → Exec S ArtifactResponse
  lookup_by slug (ok meta) s = (ok (of_file urls slug meta), s)
  lookup_by slug (err e) s = if not (is e not_found) then (err e, s) else (
    site_result urls slug (store.get_site_manifest slug s).0,
    (store.get_site_manifest slug s).1,
  )

  unfoldable pub lookup_artifact : String → Exec S ArtifactResponse
  unfolding is_no_artifact_slug lookup_by
  lookup_artifact slug s =
      if is_no_artifact_slug slug
      then (err (sentinel artifact_not_found), s)
      else lookup_by slug (store.metadata slug s).0 (store.metadata slug s).1

  unfoldable pub handle_get_artifact : String → Handler S ArtifactResponse
  unfolding lookup_artifact
  handle_get_artifact slug =
      attempt (lookup_artifact slug)
        (λ e. if is e artifact_not_found then refuse 404 else refuse 500) (respond 200)

  -- versionConflict
  unfoldable pub version_conflict : {A : Type 0} → String → Handler S A
  unfolding lookup_artifact
  version_conflict slug =
      attempt (lookup_artifact slug) (λ e s. (stale "", s)) (λ a s. (stale a.version, s))
