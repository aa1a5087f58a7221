-- ===== src/Storage/S3/Bucket.antt =====
-- What the store expects of S3, as AWS documents it: reads are consistent, a conditional write is
-- made only if its condition holds, and a write that fails may have been made or not.
use open_trove.Base.{
  ℕ, String, Bool, true, Option, none, some, List, ◌≡◌, ◌≢◌, ◌⊎◌, ◌==◌, if◌then◌else◌, Error, ok,
  err,
}
use open_trove.Base.Text.{is_empty}
use open_trove.Base.Dict.{Dict}
use open_trove.Storage.S3.{PutInput, GetOutput, Client, is_missing}

pub record Object : Type 0 where
  pub bytes : List ℕ
  pub content_type : String
  pub metadata : Dict String
  pub etag : String

abbrev pub View : Type 0
View = String → Option Object

abbrev pub Same : View → View → Type 0
Same v w = (key : String) → w key ≡ v key

abbrev pub put_as : PutInput → String → Object
put_as input etag = record {
  bytes = input.body;
  content_type = input.content_type;
  metadata = input.metadata;
  etag = etag;
}

-- The condition of a write holds.
pub record Allows (input : PutInput) (o : Option Object) : Type 0 where
  pub fresh : input.if_none_match ≡ true → o ≡ none
  pub current :
      is_empty input.if_match ≡ Bool.false → (p : Object) × (o ≡ some p) × (p.etag ≡ input.if_match)

abbrev pub Wrote : View → PutInput → View → Type 0
Wrote v input w =
    (etag : String) × ((key : String)
      → w key ≡ (if input.key == key then some (put_as input etag) else v key))

abbrev pub Deleted : View → String → View → Type 0
Deleted v gone w = (key : String) → w key ≡ (if gone == key then none else v key)

module _ {S : Type 0} where
  pub record Bucket (client : Client S) : Type 0 where
    pub view : S → View
    pub get_keeps :
        (key range : String) (s : S) → Same (view s) (view (client.get_object key range s).1)
    pub get_ok :
        (key : String) (s : S) (out : GetOutput)
        → (client.get_object key "" s).0 ≡ ok out
        → (o : Object) × (view s key ≡ some o)
          × (out.etag ≡ o.etag)
          × ((b : List ℕ) → out.body ≡ ok b → b ≡ o.bytes)
    pub get_missing :
        (key range : String) (s : S) (e : Error)
        → (client.get_object key range s).0 ≡ err e
        → is_missing e ≡ true
        → view s key ≡ none
    pub put_result :
        (input : PutInput) (s : S)
        → (Allows input (view s input.key)
            × Wrote (view s) input (view (client.put_object input s).1))
          ⊎ (Same (view s) (view (client.put_object input s).1)
              × ((client.put_object input s).0 ≢ ok tt))
    pub delete_result :
        (key : String) (s : S)
        → Deleted (view s) key (view (client.delete_object key s).1)
          ⊎ (Same (view s) (view (client.delete_object key s).1)
              × ((client.delete_object key s).0 ≢ ok tt))
