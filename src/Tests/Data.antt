-- ===== src/Tests/Data.antt =====
-- The data that several test modules share.
use open_trove.Base.{none, [], ◌∷◌, true}
use open_trove.Base.Int.{pos}
use open_trove.Base.Text.{Unicode}
use open_trove.Auth.{Principal, proxy_jwt}
use open_trove.Comments.{Comment, Anchor, file}
use open_trove.Fake.{Store, new_store}

-- A case table without letters of two cases.
abbrev pub caseless : Unicode
caseless = record { lower = λ c. c; fold = λ c. c }

abbrev pub ada : Principal
ada = record { email = "ada@x"; source = proxy_jwt; verified = true }

abbrev pub anchor : Anchor
anchor = record {
  type = file;
  resource = "";
  stable_id = "";
  selector = "";
  label = "";
  tag = "";
  role = "";
  visible_text = "";
  container = "";
  quote = record { exact = ""; prefix = ""; suffix = "" };
  rect = record { x = pos 0; y = pos 0; width = pos 0; height = pos 0 };
}

abbrev pub root : Comment
root = record {
  id = "r1";
  thread_id = "r1";
  parent_id = "";
  slug = "doc";
  author_email = "ada@x";
  body = "first";
  created_at = 5;
  edited_at = none;
  edited_by_email = "";
  deleted_at = none;
  deleted_by_email = "";
  resolved_at = none;
  resolved_by_email = "";
  artifact_version = "v1";
  anchor = anchor;
}

abbrev pub answer : Comment
answer = record root {
  id = "r2";
  parent_id = "r1";
  author_email = "bob@x";
  body = "second";
  created_at = 7;
}

abbrev pub store : Store
store = record new_store { comments = ("doc", root ∷ answer ∷ []) ∷ [] }
