-- ===== src/Storage/S3/Tokens/Laws.antt =====
-- storage/s3_tokens.go: on a bucket that behaves as documented, the repository meets the contract
-- of the token service.
use open_trove.Base.{
  String, true, false, Option, none, some, ◌≡◌, ap, eq_iff, if◌then◌else◌, Result, ok, err, arith,
}
use open_trove.Base.Text.{append, has_prefix}
use open_trove.Base.Text.Append.{append_cancel_left, append_cancel_right}
use open_trove.Auth.Tokens.{Token}
use open_trove.Auth.Tokens.Contract.{View, Same, Wrote, Removed}
use open_trove.Storage.S3.{PutInput, token_key, token_owner_prefix, valid_token_id}
use open_trove.Storage.S3.Bucket.{Object, Bucket, put_as}
use open_trove.Storage.S3.Bucket as B
use open_trove.Storage.S3.Codec.{Codec}

-- Different identifiers have different keys.
token_key_injective : (i j : String) → token_key i ≡ token_key j → i ≡ j
token_key_injective i j h =
    append_cancel_right ".json" i j
      (append_cancel_left "_tokens/" (append i ".json") (append j ".json") h)

clash : false ≡ true → ⊥
clash h = cc h

-- No marker has the key of a token.
pub marker-token_key :
    (digest : String → String) (owner id j : String)
    → append (token_owner_prefix digest owner) id ≡ token_key j
    → ⊥
unfolding append has_prefix
marker-token_key digest owner id j h = clash (ap (λ k. has_prefix k "_tokens/") h)

abbrev pub token_of : Result Token → Option Token
token_of (ok t) = some t
token_of (err e) = none

abbrev pub stored_token : Codec Token → Option Object → Option Token
stored_token json none = none
stored_token json (some o) = token_of (json.unmarshal o.bytes)

-- The tokens that a bucket holds.
abbrev pub tokens_in : Codec Token → B.View → View
tokens_in json v id = if valid_token_id id then stored_token json (v (token_key id)) else none

module _ (json : Codec Token) where
  pub tokens_in-Same : (v w : B.View) → B.Same v w → Same (tokens_in json v) (tokens_in json w)
  tokens_in-Same v w same id = ground (arith, same (token_key id))

  pub tokens_in-Wrote :
      (v w : B.View) (input : PutInput) (id : String) (t : Token)
      → input.key ≡ token_key id
      → valid_token_id id ≡ true
      → json.unmarshal input.body ≡ ok t
      → B.Wrote v input w
      → Wrote (tokens_in json v) id t (tokens_in json w)
  tokens_in-Wrote v w input id t at valid read (etag, wrote) j = ground (
    arith,
    wrote (token_key j),
    at,
    read,
    valid,
    eq_iff input.key (token_key j),
    eq_iff id j,
    token_key_injective id j,
  )

  pub tokens_in-other :
      (v w : B.View) (input : PutInput) (owner_key : (j : String) → input.key ≡ token_key j → ⊥)
      → B.Wrote v input w
      → Same (tokens_in json v) (tokens_in json w)
  tokens_in-other v w input other (etag, wrote) j =
      ground (arith, wrote (token_key j), eq_iff input.key (token_key j), other j)

  pub tokens_in-Deleted :
      (v w : B.View) (id : String)
      → valid_token_id id ≡ true
      → B.Deleted v (token_key id) w
      → Removed (tokens_in json v) id (tokens_in json w)
  tokens_in-Deleted v w id valid deleted j = ground (
    arith,
    deleted (token_key j),
    eq_iff (token_key id) (token_key j),
    eq_iff id j,
    token_key_injective id j,
  )

  pub tokens_in-other-Deleted :
      (v w : B.View) (key : String) (other : (j : String) → key ≡ token_key j → ⊥)
      → B.Deleted v key w
      → Same (tokens_in json v) (tokens_in json w)
  tokens_in-other-Deleted v w key other deleted j =
      ground (arith, deleted (token_key j), eq_iff key (token_key j), other j)
