-- ===== src/Storage/S3/Manifests/Laws.antt =====
-- storage/s3_activity.go: no update is lost, although other processes write the same object
-- between a read and the conditional write.
use open_trove.Base.{ℕ, String, false, none, some, List, ◌≡◌, ◌⊎◌, ok}
use open_trove.Base.Text.{is_empty}
use open_trove.Base.Exec.{Exec}
use open_trove.Activity.{UserManifest, empty_manifest}
use open_trove.Storage.S3.{PutInput, GetOutput, Client, manifest_key}
use open_trove.Storage.S3.Bucket.{Object, View, Allows, Wrote}
use open_trove.Storage.S3.Codec.{Codec}
use open_trove.Storage.S3.Manifests.{manifest_put}

-- A bucket that others write to as well: what a call finds need not be what the last one left. A
-- read tells what an ETag stands for, and a write is made over some state of the bucket.
pub record Shared {S : Type 0} (client : Client S) : Type 0 where
  pub view : S → View
  -- The contents that an ETag stands for.
  pub contents : String → List ℕ
  pub get_ok :
      (key : String) (s : S) (out : GetOutput) (b : List ℕ)
      → (client.get_object key "" s).0 ≡ ok out
      → out.body ≡ ok b
      → b ≡ contents out.etag
  pub put_ok :
      (input : PutInput) (s : S)
      → (client.put_object input s).0 ≡ ok tt
      → (v : View) × ((key : String) (o : Object) → v key ≡ some o → o.bytes ≡ contents o.etag)
        × Allows input (v input.key)
        × Wrote v input (view (client.put_object input s).1)

module _ (json : Codec UserManifest) {S : Type 0} (client : Client S) (wait : ℕ → Exec S (Unit {0}))
    (shared : Shared client) where
  -- The manifest that a bucket holds for a user.
  pub data Holds (v : View) (user_id : String) (m : UserManifest) : Type 0 where
    nothing : v (manifest_key user_id) ≡ none → m ≡ empty_manifest → Holds v user_id m
    stored :
        (o : Object)
        → v (manifest_key user_id) ≡ some o
        → json.unmarshal o.bytes ≡ ok m
        → Holds v user_id m

  -- What a read tells: an ETag for which the manifest stands, or none.
  abbrev Read : UserManifest → String → Type 0
  Read m etag =
      ((etag ≡ "") × (m ≡ empty_manifest))
      ⊎ ((is_empty etag ≡ false) × (json.unmarshal (shared.contents etag) ≡ ok m))

  -- What a successful update has done.
  abbrev pub Updated : String → (UserManifest → UserManifest) → S → Type 0
  Updated user_id update s' =
      (v : View) × (m : UserManifest) × (b : List ℕ) × (etag : String) × Holds v user_id m
      × (json.marshal (update m) ≡ ok b)
      × Wrote v (manifest_put user_id etag b) (shared.view s')
