-- ===== src/Storage/S3/Manifests.antt =====
-- storage/s3_activity.go: a user's history on S3, updated by compare and swap on its ETag.
pub mod Laws
use open_trove.Base.{
  ℕ, zero, suc, ◌+◌, String, Bool, true, false, not, Option, none, some, List, if◌then◌else◌, Error,
  Result, ok, err, plain, wrap,
}
use open_trove.Base.Text.{is_empty}
use open_trove.Base.Exec.{Exec, pure, raise, lift, map_err, wrapping, ◌>>=◌, ◌>>◌}
use open_trove.Activity.{ActivityRecord, UserManifest, empty_manifest, record_upload, record_view}
use open_trove.Storage.S3.{
  PutInput, GetOutput, Client, s3_error_code, is_missing, conflict_codes, manifest_key,
}
use open_trove.Storage.S3.Codec.{Codec}

abbrev unread : Codec UserManifest → Result (List ℕ) → Result UserManifest
unread json (ok bytes) = json.unmarshal bytes
unread json (err e) = err e

abbrev manifest_put : String → String → List ℕ → PutInput
manifest_put user_id etag body = record {
  key = manifest_key user_id;
  body = body;
  content_type = "application/json";
  metadata = List.[];
  if_none_match = is_empty etag;
  if_match = etag;
}

-- attempts
abbrev pub max_attempts : ℕ
max_attempts = 5

-- `wait` is the pause before another attempt, which the context can end.
module _ (json : Codec UserManifest) {S : Type 0} (client : Client S)
    (wait : ℕ → Exec S (Unit {0})) where
  -- What readManifest makes of the object, or of its absence.
  unfoldable pub opened : Result GetOutput → Exec S (UserManifest × String)
  opened (err e) =
      if is_missing e then pure (empty_manifest, "") else raise (wrap "getting manifest" e)
  opened (ok out) = do
    manifest ← wrapping "decoding manifest" (lift (unread json out.body))
    if is_empty out.etag
        then raise (plain "manifest response missing ETag")
        else pure (manifest, out.etag)

  unfoldable pub read_manifest : String → Exec S (UserManifest × String)
  unfolding opened
  read_manifest user_id s =
      opened (client.get_object (manifest_key user_id) "" s).0
        (client.get_object (manifest_key user_id) "" s).1

  unfoldable pub get_manifest : String → Exec S UserManifest
  unfolding read_manifest
  get_manifest user_id = do found ← read_manifest user_id; pure found.0

  -- What follows the conditional write, where `retry` is the rest of the loop, if there is any.
  abbrev put_done : Result (Unit {0}) → Exec S (Unit {0}) → Exec S (Unit {0})
  put_done (ok _) retry s = (ok tt, s)
  put_done (err e) retry s =
      if s3_error_code e conflict_codes then retry s else (err (wrap "putting manifest" e), s)

  abbrev swap : PutInput → Exec S (Unit {0}) → Exec S (Unit {0})
  swap input retry s = put_done (client.put_object input s).0 retry (client.put_object input s).1

  -- Another attempt, unless that was the last.
  abbrev pub retry_if : ℕ → Exec S (Unit {0}) → Exec S (Unit {0}) → Exec S (Unit {0})
  retry_if zero pause rest = raise (plain "manifest update conflict")
  retry_if (suc more) pause rest = pause >> rest

  unfoldable pub update_from : ℕ → ℕ → String → (UserManifest → UserManifest) → Exec S (Unit {0})
  unfolding read_manifest
  update_from zero attempt user_id update = raise (plain "manifest update conflict")
  update_from (suc left) attempt user_id update = do
    found ← read_manifest user_id
    bytes ← wrapping "marshaling manifest" (lift (json.marshal (update (found.0))))
    swap (manifest_put user_id (found.1) bytes)
        (retry_if left (wait (attempt + 1)) (update_from left (attempt + 1) user_id update))

  unfoldable pub update_manifest : String → (UserManifest → UserManifest) → Exec S (Unit {0})
  unfolding update_from
  update_manifest = update_from max_attempts 0

  -- `now` is the formatted time, and `parse` reads such a text.
  unfoldable pub record_upload_for :
      (String → ℕ) → String → String → ActivityRecord → Exec S (Unit {0})
  unfolding update_manifest
  record_upload_for parse now user_id r =
      update_manifest user_id (record_upload parse (record r { at = now }))

  unfoldable pub record_view_for :
      (String → ℕ) → String → String → ActivityRecord → Exec S (Unit {0})
  unfolding update_manifest
  record_view_for parse now user_id r =
      update_manifest user_id (record_view parse (record r { at = now }))
