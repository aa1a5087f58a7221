-- ===== src/Storage/S3/Objects.antt =====
-- storage/s3.go: single artifacts and sites on S3.
use Prim.Native.Char.{code}
use Prim.Native.String.{[], ◌∷◌}
use open_trove.Base.{
  ℕ, String, Bool, true, false, not, ◌&&◌, ◌||◌, ◌==◌, eqb, Option, none, some, List, if◌then◌else◌,
  Error, Result, ok, err, Outcome, sentinel, wrap, slug_conflict, not_found, version_mismatch, ◌++◌,
}
use open_trove.Base.Text.{is_empty, append, split, trim_space}
use open_trove.Base.Dict.{Dict, get as lookup, put as insert}
use open_trove.Base.Exec.{Exec, pure, lift, map_err, wrapping, ◌>>=◌, ◌>>◌}
use open_trove.Storage.{PutOptions, FileMetadata, SiteManifest}
use open_trove.Storage.S3.{
  PutInput, HeadOutput, Client, api_code, s3_error_code, is_missing, missing_codes, conflict_codes,
  site_manifest_key, site_file_key,
}
use open_trove.Storage.S3.Codec.{Codec}

-- strconv.Quote, for the printable text that an ETag is.
unfoldable pub escape : String → String
escape [] = "\""
escape (c ∷ s) =
    let rest = escape s in if eqb (code c) 34 || eqb (code c) 92 then "\\" ∷ c ∷ rest else c ∷ rest

unfoldable pub quote : String → String
unfolding escape
quote s = append "\"" (escape s)

-- strings.Trim at the quotation mark.
unfoldable pub trim_quotes_left : String → String
trim_quotes_left [] = []
trim_quotes_left (c ∷ s) = let rest = trim_quotes_left s in if eqb (code c) 34 then rest else c ∷ s

unfoldable pub trim_quotes_right : String → String
trim_quotes_right [] = []
trim_quotes_right (c ∷ s) =
    let rest = trim_quotes_right s in if is_empty rest && eqb (code c) 34 then [] else c ∷ rest

unfoldable pub trim_quotes : String → String
unfolding trim_quotes_left trim_quotes_right
trim_quotes s = trim_quotes_right (trim_quotes_left s)

-- The parts that are not empty when trimmed, so trimmed.
unfoldable pub keep_parts : List String → List String
keep_parts List.[] = List.[]
keep_parts (List.◌∷◌ p ps) =
    let rest = keep_parts ps in
    if is_empty (trim_space p) then rest else List.◌∷◌ (trim_space p) rest

unfoldable pub split_csv : String → List String
unfolding keep_parts
split_csv s = if is_empty s then List.[] else keep_parts (split 44 s)

abbrev or_empty : Option String → String
or_empty none = ""
or_empty (some s) = s

abbrev pub meta_at : String → Dict String → String
meta_at key m = or_empty (lookup key m)

abbrev owner_meta : String → Dict String → Dict String
owner_meta owner m = if is_empty owner then m else insert "owner-email" owner m

abbrev slug_meta : Bool → Dict String → Dict String
slug_meta true m = insert "custom-slug" "true" m
slug_meta false m = m

abbrev pub put_input : String → List ℕ → PutOptions → PutInput
put_input slug body opts = record {
  key = slug;
  body = body;
  content_type = opts.content_type;
  metadata =
      slug_meta opts.custom_slug
        (owner_meta opts.owner_email (List.◌∷◌ ("filename", opts.filename) List.[]));
  if_none_match = false;
  if_match = if is_empty opts.if_match then "" else quote opts.if_match;
}

-- What HeadObject says of the slug: an error that is no API error counts as absence.
abbrev not_missing : Error → Option String → Outcome
not_missing e none = ok tt
not_missing e (some c) = if is_missing e then ok tt else err (wrap "checking slug existence" e)

abbrev checked : Result HeadOutput → Outcome
checked (ok _) = err (sentinel slug_conflict)
checked (err e) = not_missing e (api_code e)

abbrev put_failed : PutOptions → Error → Error
put_failed opts e =
    if not (is_empty opts.if_match) && s3_error_code e (conflict_codes ++ missing_codes)
    then sentinel version_mismatch
    else wrap "putting object" e

abbrev missing_or : String → Error → Error
missing_or text e = if is_missing e then sentinel not_found else wrap text e

abbrev metadata_from : Dict String → String → String → FileMetadata
metadata_from m content_type etag = record {
  owner_email = meta_at "owner-email" m;
  content_type = content_type;
  filename = meta_at "filename" m;
  version = trim_quotes etag;
  custom_slug = meta_at "custom-slug" m == "true";
  flagged = meta_at "intake-flagged" m == "true";
  flag_reason = meta_at "intake-flag-reason" m;
  flag_categories = split_csv (meta_at "intake-flag-categories" m);
  content_range = "";
  content_length = 0;
}

abbrev with_range : Option String → ℕ → FileMetadata → FileMetadata
with_range none length m = m
with_range (some range) length m = record m { content_range = range; content_length = length }

-- A file of a site carries no metadata of its own.
abbrev site_file_metadata : String → String → String → FileMetadata
site_file_metadata path content_type etag = record (metadata_from List.[] content_type etag) {
  filename = path;
}

abbrev exists_or : Result HeadOutput → Result Bool
exists_or (ok _) = ok true
exists_or (err e) = if is_missing e then ok false else err (wrap "checking site manifest" e)

module _ {S : Type 0} (client : Client S) where
  abbrev check_free : String → PutOptions → Exec S (Unit {0})
  check_free slug opts s =
      if not opts.overwrite && is_empty opts.if_match
      then (checked (client.head_object slug s).0, (client.head_object slug s).1)
      else (ok tt, s)

  unfoldable pub put : String → List ℕ → PutOptions → Exec S (Unit {0})
  put slug body opts =
      check_free slug opts
      >> map_err (put_failed opts) (client.put_object (put_input slug body opts))

  -- The body is handed on unread.
  unfoldable pub get : String → String → Exec S (Result (List ℕ) × FileMetadata)
  get slug range = do
    out ← map_err (missing_or "getting object") (client.get_object slug range)
    pure (
      out.body,
      with_range out.content_range out.content_length
          (metadata_from out.metadata out.content_type out.etag),
    )

  unfoldable pub delete : String → Exec S (Unit {0})
  delete slug = do
    map_err (missing_or "checking object") (client.head_object slug)
    wrapping "deleting object" (client.delete_object slug)

  unfoldable pub metadata : String → Exec S FileMetadata
  metadata slug = do
    out ← map_err (missing_or "heading object") (client.head_object slug)
    pure (metadata_from out.metadata out.content_type out.etag)

  abbrev plain_put : String → List ℕ → String → PutInput
  plain_put key body content_type = record {
    key = key;
    body = body;
    content_type = content_type;
    metadata = List.[];
    if_none_match = false;
    if_match = "";
  }

  unfoldable pub put_site_manifest : Codec SiteManifest → String → SiteManifest → Exec S (Unit {0})
  put_site_manifest json slug m = do
    bytes ← wrapping "marshaling site manifest" (lift (json.marshal m))
    wrapping "putting site manifest"
        (client.put_object (plain_put (site_manifest_key slug) bytes "application/json"))

  abbrev unread : Codec SiteManifest → Result (List ℕ) → Result SiteManifest
  unread json (ok bytes) = json.unmarshal bytes
  unread json (err e) = err e

  unfoldable pub get_site_manifest : Codec SiteManifest → String → Exec S SiteManifest
  get_site_manifest json slug = do
    out ←
        map_err (missing_or "getting site manifest") (client.get_object (site_manifest_key slug) "")
    wrapping "decoding site manifest" (lift (unread json out.body))

  unfoldable pub head_site : String → Exec S Bool
  head_site slug s = (
    exists_or (client.head_object (site_manifest_key slug) s).0,
    (client.head_object (site_manifest_key slug) s).1,
  )

  unfoldable pub put_site_file : String → String → List ℕ → String → Exec S (Unit {0})
  put_site_file slug path body content_type =
      wrapping "putting site file"
        (client.put_object (plain_put (site_file_key slug path) body content_type))

  unfoldable pub get_site_file : String → String → Exec S (Result (List ℕ) × FileMetadata)
  get_site_file slug path = do
    out ← map_err (missing_or "getting site file") (client.get_object (site_file_key slug path) "")
    pure (out.body, site_file_metadata path out.content_type out.etag)

  unfoldable pub head_site_file : String → String → Exec S FileMetadata
  head_site_file slug path = do
    out ← map_err (missing_or "heading site file") (client.head_object (site_file_key slug path))
    pure (site_file_metadata path out.content_type out.etag)
