-- ===== src/Auth/Tokens.antt =====
-- auth/tokens.go: personal access tokens and the service that issues, verifies, lists and revokes
-- them. The clock and the random bytes are arguments of the methods; SHA-256 is a parameter.
pub mod Contract
pub mod Calls
pub mod Laws
use Prim.Native.String.{count}
use open_trove.Base.{
  ℕ, zero, suc, ◌*◌, ◌+◌, ◌^◌, String, Bool, true, false, not, ◌&&◌, ◌||◌, Option, none, some, List,
  [], ◌∷◌, ltb, leb, eqb, length, if◌then◌else◌, Error, Result, ok, err, sentinel, wrap, wrap_both,
  is, token_not_found, token_expired, token_malformed, session_required, invalid_token_input,
  source_unavailable,
}
use open_trove.Base.Int.{ℤ, pos, negsuc}
use open_trove.Base.Text.{is_empty, trim_space, has_prefix, trim_prefix, append}
use open_trove.Base.Base64.{encode, decode}
use open_trove.Base.Exec.{Exec, pure, raise, lift, map_err, wrapping, ◌>>=◌, ◌>>◌}
use open_trove.Auth.{Source, proxy_jwt, Principal}

-- Nanoseconds.
abbrev pub Time : Type 0
Time = ℕ

abbrev pub hour : ℕ
hour = 3600 * 10 ^ 9

abbrev pub token_prefix : String
token_prefix = "trv_"

abbrev pub token_secret_bytes : ℕ
token_secret_bytes = 32

abbrev pub default_token_ttl : ℕ
default_token_ttl = 90 * 24 * hour

abbrev pub max_token_ttl : ℕ
max_token_ttl = 365 * 24 * hour

abbrev pub token_touch_interval : ℕ
token_touch_interval = hour

abbrev pub max_token_name_length : ℕ
max_token_name_length = 64

pub record Token : Type 0 where
  pub id : String
  pub owner_email : String
  pub name : String
  pub created_at : Time
  pub expires_at : Time
  pub last_used_at : Option Time

pub record TokenRepository (S : Type 0) : Type 0 where
  pub create_token : Token → Exec S (Unit {0})
  pub get_token : String → Exec S Token
  pub list_tokens : String → Exec S (List Token)
  pub delete_token : String → String → Exec S (Unit {0})
  pub touch_token : String → Time → Exec S (Unit {0})

abbrev is_proxy : Source → Bool
is_proxy proxy_jwt = true
is_proxy _ = false

unfoldable pub can_manage : Principal → Bool
can_manage p = p.verified && is_proxy p.source && not (is_empty p.email)

abbrev positive_ttl : ℕ → Result ℕ
positive_ttl n =
    if ltb max_token_ttl n
    then err (wrap "expiry must be positive and at most 365 days" (sentinel invalid_token_input))
    else ok n

-- The two tests on `ttl`, which is an int64 count of nanoseconds.
unfoldable pub checked_ttl : ℤ → Result ℕ
checked_ttl (pos n) = positive_ttl (if eqb n 0 then default_token_ttl else n)
checked_ttl (negsuc n) =
    err (wrap "expiry must be positive and at most 365 days" (sentinel invalid_token_input))

unfoldable pub checked_name : String → Result String
checked_name raw =
    let name = trim_space raw in
    if is_empty name || ltb max_token_name_length (count name)
    then err (wrap "name must be 1-64 characters" (sentinel invalid_token_input))
    else ok name

abbrev not_found_or_unavailable : Error → Error
not_found_or_unavailable e =
    if is e token_not_found then e else wrap_both (sentinel source_unavailable) e

-- now.Sub(*LastUsedAt) >= tokenTouchInterval
abbrev pub due : Time → Option Time → Bool
due now none = true
due now (some last) = leb (last + token_touch_interval) now

-- The tests on the text of a token.
unfoldable pub is_token_text : String → Bool
is_token_text plaintext =
    has_prefix plaintext token_prefix && elim (decode (trim_prefix plaintext token_prefix)) [
      | none ↦ false
      | some raw ↦ eqb (length raw) token_secret_bytes
    ]

module _ (hash_token : String → String) {S : Type 0} (repo : TokenRepository S) where
  -- `secret` is what filling the buffer from the random source gives.
  unfoldable pub create : Time → Result (List ℕ) → Principal → String → ℤ → Exec S (String × Token)
  create now secret owner raw_name ttl =
      if not (can_manage owner) then raise (sentinel session_required) else do
        name ← lift (checked_name raw_name)
        life ← lift (checked_ttl ttl)
        bytes ← wrapping "generating token" (lift secret)
        let plaintext = append token_prefix (encode bytes)
        let token : Token = record {
          id = hash_token plaintext;
          owner_email = owner.email;
          name = name;
          created_at = now;
          expires_at = now + life;
          last_used_at = none;
        }
        wrapping "storing token" (repo.create_token token)
        pure (plaintext, token)

  -- The write of the last-used time is advisory: its error is dropped.
  unfoldable pub touch_if_due : Time → Token → S → S
  touch_if_due now token s =
      if due now token.last_used_at then (repo.touch_token token.id now s).1 else s

  unfoldable pub accept : Time → Token → Exec S String
  unfolding touch_if_due
  accept now token s =
      if not (ltb now token.expires_at)
      then (err (sentinel token_expired), s)
      else (ok token.owner_email, touch_if_due now token s)

  unfoldable pub verify : Time → String → Exec S String
  verify now plaintext =
      if not (is_token_text plaintext) then raise (sentinel token_malformed) else do
        token ← map_err not_found_or_unavailable (repo.get_token (hash_token plaintext))
        accept now token

  unfoldable pub list : Principal → Exec S (List Token)
  list owner =
      if not (can_manage owner)
      then raise (sentinel session_required)
      else wrapping "listing tokens" (repo.list_tokens owner.email)

  unfoldable pub revoke : Principal → String → Exec S (Unit {0})
  revoke owner id =
      if not (can_manage owner)
      then raise (sentinel session_required)
      else wrapping "revoking token" (repo.delete_token owner.email id)
