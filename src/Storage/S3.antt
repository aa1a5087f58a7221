-- ===== src/Storage/S3.antt =====
-- storage/s3.go: the part of the S3 client that the store calls (interface s3api), which is a
-- parameter, how its errors are read, and the keys of the objects. The bucket is fixed.
pub mod Bucket
pub mod Codec
pub mod Tokens
pub mod Manifests
pub mod Objects
pub mod Comments
pub mod Cards
pub mod Verdicts
use Prim.Native.Char.{Char, code}
use Prim.Native.String.{[], ◌∷◌, len}
use open_trove.Base.{
  ℕ, String, Bool, true, false, not, ◌&&◌, ◌||◌, ◌==◌, Option, none, some, List, leb, eqb, any,
  if◌then◌else◌, Error, sentinel, plain, api, wrap, wrap_both, Result, Outcome,
}
use open_trove.Base.Text.{append}
use open_trove.Base.Dict.{Dict, get}
use open_trove.Base.Exec.{Exec}

-- s3.PutObjectInput. `if_match` is empty where it is not set.
pub record PutInput : Type 0 where
  pub key : String
  pub body : List ℕ
  pub content_type : String
  pub metadata : Dict String
  pub if_none_match : Bool
  pub if_match : String

-- s3.GetObjectOutput, with what reading the body to its end and closing it give.
pub record GetOutput : Type 0 where
  pub body : Result (List ℕ)
  pub closed : Outcome
  pub content_type : String
  pub metadata : Dict String
  pub etag : String
  pub content_range : Option String
  pub content_length : ℕ

-- s3.HeadObjectOutput
pub record HeadOutput : Type 0 where
  pub content_type : String
  pub metadata : Dict String
  pub etag : String

-- s3.ListObjectsV2Output
pub record Page : Type 0 where
  pub keys : List String
  pub is_truncated : Bool
  pub next_token : Option String

pub record Client (S : Type 0) : Type 0 where
  pub put_object : PutInput → Exec S (Unit {0})
  -- the key and the range, empty where none is asked for
  pub get_object : String → String → Exec S GetOutput
  pub delete_object : String → Exec S (Unit {0})
  pub head_object : String → Exec S HeadOutput
  -- the prefix and the continuation token
  pub list_objects : String → Option String → Exec S Page

abbrev orelse : Option String → Option String → Option String
orelse none o = o
orelse (some c) o = some c

-- The code of the first API error in the chain, which errors.As finds.
unfoldable pub api_code : Error → Option String
api_code (sentinel s) = none
api_code (plain t) = none
api_code (api c) = some c
api_code (wrap t e) = api_code e
api_code (wrap_both d e) = orelse (api_code d) (api_code e)

abbrev code_among : List String → Option String → Bool
code_among codes none = false
code_among codes (some c) = any (λ code. c == code) codes

unfoldable pub s3_error_code : Error → List String → Bool
unfolding api_code
s3_error_code e codes = code_among codes (api_code e)

-- The errors that mean that there is no such object. The SDK's types NotFound and NoSuchKey carry
-- these codes.
abbrev pub missing_codes : List String
missing_codes = List.◌∷◌ "NoSuchKey" (List.◌∷◌ "NotFound" List.[])

abbrev pub conflict_codes : List String
conflict_codes = List.◌∷◌ "PreconditionFailed" (List.◌∷◌ "ConditionalRequestConflict" List.[])

unfoldable pub is_missing : Error → Bool
unfolding s3_error_code
is_missing e = s3_error_code e missing_codes

abbrev pub with_json : String → String
with_json name = append name ".json"

abbrev pub manifest_key : String → String
manifest_key user_id = append "_users/" (with_json user_id)

abbrev pub site_manifest_key : String → String
site_manifest_key slug = append "_sites/" (with_json slug)

abbrev pub site_file_key : String → String → String
site_file_key slug path = append slug (append "/" path)

abbrev pub comment_prefix : String → String
comment_prefix slug = append "_comments/" (append slug "/")

abbrev pub comment_key : String → String → String
comment_key slug id = append "_comments/" (append slug (append "/" (with_json id)))

abbrev pub token_key : String → String
token_key id = append "_tokens/" (with_json id)

-- `digest` is the hexadecimal SHA-256 of a text.
abbrev pub token_owner_prefix : (String → String) → String → String
token_owner_prefix digest owner_email = append "_token_owners/" (append (digest owner_email) "/")

unfoldable pub is_hex_char : Char → Bool
is_hex_char c =
    (leb 48 (code c) && leb (code c) 57)
    || (leb 97 (code c) && leb (code c) 102)
    || (leb 65 (code c) && leb (code c) 70)

unfoldable pub is_hex : String → Bool
unfolding is_hex_char
is_hex [] = true
is_hex (c ∷ s) = is_hex_char c && is_hex s

-- hex.DecodeString accepts a text of an even length of hexadecimal digits.
unfoldable pub valid_token_id : String → Bool
unfolding is_hex
valid_token_id id = eqb (len id) 64 && is_hex id
