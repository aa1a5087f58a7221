-- ===== src/Storage/S3/Tokens.antt =====
-- storage/s3_tokens.go: the token repository on S3.
pub mod Laws
pub mod Refines
use Prim.Native.Char.{code}
use Prim.Native.String.{[], ◌∷◌}
use open_trove.Base.{
  ℕ, zero, suc, String, Bool, true, false, not, ◌==◌, eqb, ltb, Option, none, some, List, ◌++◌,
  if◌then◌else◌, Error, Result, ok, err, sentinel, plain, wrap, is, token_not_found, token_exists,
}
use open_trove.Base.Text.{append, Unicode, equal_fold}
use open_trove.Base.Exec.{Exec, pure, raise, lift, map_err, wrapping, ◌>>=◌, ◌>>◌}
use open_trove.Base.Sort.{sort}
use open_trove.Auth.Tokens.{Time, Token, TokenRepository}
use open_trove.Storage.S3.{
  PutInput, GetOutput, Page, Client, s3_error_code, is_missing, missing_codes, conflict_codes,
  token_key, token_owner_prefix, valid_token_id,
}
use open_trove.Storage.S3.Codec.{Codec, read_json}

abbrev pub json_put : String → List ℕ → PutInput
json_put key body = record {
  key = key;
  body = body;
  content_type = "application/json";
  metadata = List.[];
  if_none_match = false;
  if_match = "";
}

abbrev pub marker_put : String → PutInput
marker_put key = record (json_put key List.[]) { content_type = "" }

abbrev create_failed : Error → Error
create_failed e =
    if s3_error_code e conflict_codes then sentinel token_exists else wrap "creating token" e

abbrev get_failed : Error → Error
get_failed e = if is_missing e then sentinel token_not_found else wrap "getting token" e

abbrev touch_failed : Error → Error
touch_failed e =
    if s3_error_code e (conflict_codes ++ missing_codes)
    then sentinel token_not_found
    else wrap "touching token" e

-- path.Base, for a key that does not end in a slash.
base_from : String → String → String
base_from last [] = last
base_from last (c ∷ s) = base_from (if eqb (code c) 47 then s else last) s

pub base : String → String
unfolding base_from
base key = base_from key key

module _ (u : Unicode) (digest : String → String) (json : Codec Token) {S : Type 0}
    (client : Client S) where
  unfoldable pub create_token : Token → Exec S (Unit {0})
  create_token t = if not (valid_token_id t.id) then raise (sentinel token_not_found) else do
    bytes ← wrapping "marshaling token" (lift (json.marshal t))
    map_err create_failed
        (client.put_object (record (json_put (token_key t.id) bytes) { if_none_match = true }))
    wrapping "indexing token"
        (client.put_object (marker_put (append (token_owner_prefix digest t.owner_email) t.id)))

  -- The token and the ETag of its record.
  unfoldable pub get_record : String → Exec S (Token × String)
  get_record id = if not (valid_token_id id) then raise (sentinel token_not_found) else do
    out ← map_err get_failed (client.get_object (token_key id) "")
    token ← lift (read_json json "decoding token" "closing token" out)
    pure (token, out.etag)

  unfoldable pub get_token : String → Exec S Token
  unfolding get_record
  get_token id = do found ← get_record id; pure found.0

  abbrev taken : String → List Token → Result Token → List Token
  taken owner out (ok t) = if t.owner_email == owner then out ++ List.◌∷◌ t List.[] else out
  taken owner out (err e) = out

  abbrev stops : Result Token → Option Error
  stops (ok t) = none
  stops (err e) = if is e token_not_found then none else some e

  abbrev unless : Option Error → Exec S (List Token) → Exec S (List Token)
  unless none next = next
  unless (some e) next = raise e

  -- The loop over one page, with what is found so far.
  unfoldable pub take_page : String → List String → List Token → Exec S (List Token)
  unfolding base get_token
  take_page owner List.[] out s = (ok out, s)
  take_page owner (List.◌∷◌ key keys) out s =
      unless (stops (get_token (base key) s).0)
        (take_page owner keys (taken owner out (get_token (base key) s).0))
        (get_token (base key) s).1

  abbrev next_page : Page → Option String
  next_page page = if page.is_truncated then page.next_token else none

  abbrev go_on :
      Option String → List Token → (Option String → Exec S (List Token)) → Exec S (List Token)
  go_on none out rest = pure out
  go_on (some token) out rest = rest (some token)

  -- The loop over the pages, of which there are at most `pages`: S3 ends every listing.
  unfoldable pub take_pages : ℕ → String → Option String → List Token → Exec S (List Token)
  unfolding take_page
  take_pages zero owner token out = raise (plain "the listing does not end")
  take_pages (suc pages) owner token out = do
    page ← wrapping "listing tokens" (client.list_objects (token_owner_prefix digest owner) token)
    found ← take_page owner page.keys out
    go_on (next_page page) found (λ t. take_pages pages owner t found)

  unfoldable pub list_tokens : ℕ → String → Exec S (List Token)
  unfolding take_pages
  list_tokens pages owner = do
    tokens ← take_pages pages owner none List.[]
    pure (sort (λ t v. ltb v.created_at t.created_at) tokens)

  unfoldable pub delete_token : String → String → Exec S (Unit {0})
  unfolding get_token
  delete_token owner id = do
    token ← get_token id
    if not (equal_fold u token.owner_email owner) then raise (sentinel token_not_found) else do
      wrapping "deleting token" (client.delete_object (token_key id))
      wrapping "deleting token index"
          (client.delete_object (append (token_owner_prefix digest token.owner_email) id))

  unfoldable pub touch_token : String → Time → Exec S (Unit {0})
  unfolding get_record
  touch_token id used_at = do
    found ← get_record id
    bytes ←
        wrapping "marshaling token"
          (lift (json.marshal (record (found.0) { last_used_at = some used_at })))
    map_err touch_failed
        (client.put_object (record (json_put (token_key id) bytes) { if_match = found.1 }))

  abbrev pub repository : ℕ → TokenRepository S
  repository pages = record {
    create_token = create_token;
    get_token = get_token;
    list_tokens = list_tokens pages;
    delete_token = delete_token;
    touch_token = touch_token;
  }
