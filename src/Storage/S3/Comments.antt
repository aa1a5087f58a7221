-- ===== src/Storage/S3/Comments.antt =====
-- storage/s3.go: comments on S3, one object for each.
pub mod Keys
pub mod Refines
use open_trove.Base.{
  ℕ, zero, suc, String, false, Option, none, some, List, ◌++◌, if◌then◌else◌, Error, Result, ok,
  sentinel, plain, wrap, comment_not_found,
}
use open_trove.Base.Exec.{Exec, pure, raise, lift, map_err, wrapping, ◌>>=◌, ◌>>◌}
use open_trove.Comments.{Comment, Repository}
use open_trove.Storage.S3.{PutInput, Page, Client, is_missing, comment_key, comment_prefix}
use open_trove.Storage.S3.Codec.{Codec, read_json}

abbrev comment_put : Comment → List ℕ → PutInput
comment_put c bytes = record {
  key = comment_key c.slug c.id;
  body = bytes;
  content_type = "application/json";
  metadata = List.[];
  if_none_match = false;
  if_match = "";
}

abbrev get_failed : Error → Error
get_failed e = if is_missing e then sentinel comment_not_found else wrap "getting comment" e

-- The page that follows, if there is one.
abbrev pub next_page : Page → Option String
next_page page = if page.is_truncated then page.next_token else none

module _ (json : Codec Comment) {S : Type 0} (client : Client S) where
  unfoldable pub put_comment : String → Comment → Exec S (Unit {0})
  put_comment operation c = do
    bytes ← wrapping "marshaling comment" (lift (json.marshal c))
    wrapping operation (client.put_object (comment_put c bytes))

  unfoldable pub create_comment : Comment → Exec S (Unit {0})
  unfolding put_comment
  create_comment = put_comment "creating comment"

  unfoldable pub update_comment : Comment → Exec S (Unit {0})
  unfolding put_comment
  update_comment = put_comment "updating comment"

  unfoldable pub get_comment : String → String → Exec S Comment
  get_comment slug id = do
    out ← map_err get_failed (client.get_object (comment_key slug id) "")
    lift (read_json json "decoding comment" "closing comment" out)

  -- The loop over one page, with what is read so far.
  unfoldable pub read_page : List String → List Comment → Exec S (List Comment)
  read_page List.[] items = pure items
  read_page (List.◌∷◌ key keys) items = do
    out ← wrapping "getting comment" (client.get_object key "")
    c ← lift (read_json json "decoding comment" "closing comment" out)
    read_page keys (items ++ List.◌∷◌ c List.[])

  abbrev go_on {ℓ} :
      {A : Type ℓ} → Option String → A → (Option String → S → Result A × S) → S → Result A × S
  go_on none done rest s = (ok done, s)
  go_on (some token) done rest s = rest (some token) s

  -- The loops over the pages, of which there are at most `pages`: S3 ends every listing.
  unfoldable pub list_pages : ℕ → String → Option String → List Comment → Exec S (List Comment)
  unfolding read_page
  list_pages zero slug token items = raise (plain "the listing does not end")
  list_pages (suc pages) slug token items = do
    page ← wrapping "listing comments" (client.list_objects (comment_prefix slug) token)
    found ← read_page page.keys items
    go_on (next_page page) found (λ t. list_pages pages slug t found)

  unfoldable pub list_comments : ℕ → String → Exec S (List Comment)
  unfolding list_pages
  list_comments pages slug = list_pages pages slug none List.[]

  unfoldable pub delete_page : List String → Exec S (Unit {0})
  delete_page List.[] = pure tt
  delete_page (List.◌∷◌ key keys) =
      wrapping "deleting comment" (client.delete_object key) >> delete_page keys

  unfoldable pub delete_pages : ℕ → String → Option String → Exec S (Unit {0})
  unfolding delete_page
  delete_pages zero slug token = raise (plain "the listing does not end")
  delete_pages (suc pages) slug token = do
    page ←
        wrapping "listing comments for deletion" (client.list_objects (comment_prefix slug) token)
    delete_page page.keys
    go_on (next_page page) tt (λ t. delete_pages pages slug t)

  unfoldable pub delete_comments : ℕ → String → Exec S (Unit {0})
  unfolding delete_pages
  delete_comments pages slug = delete_pages pages slug none

  abbrev pub repository : ℕ → Repository S
  repository pages = record {
    create_comment = create_comment;
    update_comment = update_comment;
    get_comment = get_comment;
    list_comments = list_comments pages;
    delete_comments = delete_comments pages;
  }
