-- ===== src/Tests/Objects.antt =====
-- An artifact that is put, and replaced only over the version that is named. The version of some
-- contents is their first byte, as a letter.
use open_trove.Base.{
  ℕ, String, true, false, List, [], ◌∷◌, ◌≡◌, refl, ok, err, sentinel, version_mismatch, eqb,
  if◌then◌else◌,
}
use open_trove.Base.Dict.{get}
use open_trove.Storage.{PutOptions}
use open_trove.Fake.{Store, new_store}
use open_trove.Fake.ObjectStore.{put_object, new_object}

abbrev version : List ℕ → String
version [] = "empty"
version (n ∷ ns) = if eqb n 1 then "one" else "other"

abbrev options : PutOptions
options = record {
  content_type = "text/html";
  filename = "a.html";
  owner_email = "ada@x";
  custom_slug = true;
  overwrite = false;
  if_match = "";
}

abbrev kept : Store
kept = record new_store { objects = ("doc", new_object version (1 ∷ []) options) ∷ [] }

put_object_test :
    (put_object version "doc" (ok (2 ∷ [])) (record options { if_match = "other" }) kept).0
    ≡ err (sentinel version_mismatch)
unfolding put_object get
put_object_test = refl
