-- ===== src/Tests/Manifests.antt =====
-- A bucket with one object, whose tag tells its contents, and an update of the history there.
use Prim.Native.String.{[], ◌∷◌}
use open_trove.Base.{
  ℕ, zero, suc, String, Bool, not, ◌&&◌, ◌==◌, Option, none, some, List, ◌≡◌, if◌then◌else◌, Result,
  ok, err, api, plain, length,
}
use open_trove.Base.Text.{is_empty}
use open_trove.Base.Exec.{Exec}
use open_trove.Activity.{ActivityRecord, UserManifest, empty_manifest}
use open_trove.Storage.S3.{PutInput, GetOutput, Client}
use open_trove.Storage.S3.Bucket.{Object, View, Allows, Wrote}
use open_trove.Storage.S3.Codec.{Codec}

-- The number of an object's contents, its type and its metadata.
abbrev key_of_ada : String
key_of_ada = "_users/ada.json"

pub record Cell : Type 0 where
  pub number : ℕ
  pub input : PutInput

abbrev Cells : Type 0
Cells = Option Cell

-- A tag is a row of as many letters as the number says, and one more.
abbrev letters : ℕ → String
letters zero = []
letters (suc n) = "x" ∷ letters n

abbrev tag : ℕ → String
tag n = "x" ∷ letters n

abbrev count_letters : String → ℕ
count_letters [] = 0
count_letters (c ∷ s) = suc (count_letters s)

abbrev untag : String → List ℕ
untag [] = List.[]
untag (c ∷ s) = List.◌∷◌ (count_letters s) List.[]

abbrev object_of : Cell → Object
object_of c = record {
  bytes = List.◌∷◌ c.number List.[];
  content_type = c.input.content_type;
  metadata = c.input.metadata;
  etag = tag c.number;
}

abbrev seen : Cells → View
seen none key = none
seen (some c) key = if c.input.key == key then some (object_of c) else none

abbrev single : List ℕ → Option ℕ
single (List.◌∷◌ n List.[]) = some n
single _ = none

-- A write of the one key, of one number, over nothing or over the tag that is named.
abbrev may_put : PutInput → Cells → Bool
may_put input none = is_empty input.if_match
may_put input (some c) =
    not input.if_none_match && c.input.key == input.key && tag c.number == input.if_match

abbrev put_number : Option ℕ → PutInput → Exec Cells (Unit {0})
put_number none input s = (err (plain "unsupported"), s)
put_number (some n) input s =
    if may_put input s
    then (ok tt, some (record { number = n; input = input }))
    else (err (api "PreconditionFailed"), s)

abbrev read_cell : String → Cells → Result GetOutput
read_cell key none = err (api "NoSuchKey")
read_cell key (some c) =
    if c.input.key == key
    then ok (record {
      body = ok (List.◌∷◌ c.number List.[]);
      closed = ok tt;
      content_type = c.input.content_type;
      metadata = c.input.metadata;
      etag = tag c.number;
      content_range = none;
      content_length = 1;
    })
    else err (api "NoSuchKey")

abbrev shared_client : Client Cells
shared_client = record {
  put_object = λ input. put_number (single input.body) input;
  get_object = λ key range s. (read_cell key s, s);
  delete_object = λ key s. (ok tt, none);
  head_object = λ key s. (err (plain "unsupported"), s);
  list_objects = λ prefix token s. (err (plain "unsupported"), s);
}

abbrev Done : PutInput → Cells → Cells → Type 0
Done input s s' =
    (v : View) × ((key : String) (o : Object) → v key ≡ some o → o.bytes ≡ untag o.etag)
    × Allows input (v input.key)
    × Wrote v input (seen s')

abbrev viewed : ActivityRecord
viewed = record {
  slug = "doc";
  filename = "a.html";
  content_type = "text/html";
  user_email = "ada@x";
  owner_email = "ada@x";
  at = "now";
}

-- A codec that keeps the number of the uploads.
abbrev json : Codec UserManifest
json = record {
  marshal = λ m. ok (List.◌∷◌ (length m.uploads) List.[]);
  unmarshal = λ b. ok empty_manifest;
}

abbrev add : UserManifest → UserManifest
add m = record m { uploads = List.◌∷◌ viewed m.uploads }

abbrev no_wait : ℕ → Exec Cells (Unit {0})
no_wait n s = (ok tt, s)
