-- ===== src/Server/Tokens.antt =====
-- cmd/server/tokens_handler.go: the requests that manage a caller's tokens.
pub mod Laws
use open_trove.Base.{
  ℕ, ◌*◌, ◌+◌, ◌-◌, ◌^◌, ◌%◌, String, Bool, Option, none, some, List, map, ltb, if◌then◌else◌,
  Error, Result, is, session_required, invalid_token_input, token_not_found,
}
use open_trove.Base.Int.{ℤ, pos, negsuc}
use open_trove.Base.Exec.{Exec}
use open_trove.Auth.{Principal}
use open_trove.Auth.Tokens.{Time, hour, Token, TokenRepository, create, list, revoke}
use open_trove.Server.{Handler, attempt, refuse, respond}

pub record CreateTokenRequest : Type 0 where
  pub name : String
  pub expires_in_days : ℤ

-- tokenResponse leaves out the owner. The plaintext is there only in the answer to a creation.
pub record TokenResponse : Type 0 where
  pub id : String
  pub name : String
  pub created_at : Time
  pub expires_at : Time
  pub last_used_at : Option Time

unfoldable pub to_token_response : Token → TokenResponse
to_token_response t = record {
  id = t.id;
  name = t.name;
  created_at = t.created_at;
  expires_at = t.expires_at;
  last_used_at = t.last_used_at;
}

-- The int64 with the value of `n` modulo 2 ^ 64.
unfoldable pub wrapped : ℕ → ℤ
wrapped n = let m = n % 2 ^ 64 in if ltb m (2 ^ 63) then pos m else negsuc (2 ^ 64 - 1 - m)

-- time.Duration(days) * 24 * time.Hour, for days that are not negative.
unfoldable pub ttl_of_days : ℕ → ℤ
unfolding wrapped
ttl_of_days days = wrapped (days * 24 * hour)

abbrev pub create_status : Error → ℕ
create_status e =
    if is e session_required then 403 else if is e invalid_token_input then 400 else 500

module _ (hash_token : String → String) {S : Type 0} (repo : TokenRepository S) where
  -- `body` is what binding the request gives, if it can be bound.
  unfoldable pub handle_create_token :
      Time
      → Result (List ℕ)
      → Principal
      → Option CreateTokenRequest
      → Handler S (TokenResponse × String)
  unfolding ttl_of_days to_token_response
  handle_create_token now secret owner none = refuse 400
  handle_create_token now secret owner (some req) = elim req.expires_in_days [
    | negsuc n ↦ refuse 400
    | pos days ↦
        attempt (create hash_token repo now secret owner req.name (ttl_of_days days))
          (λ e. refuse (create_status e)) (λ made. respond 201 (to_token_response made.1, made.0))
  ]

  unfoldable pub handle_list_tokens : Principal → Handler S (List TokenResponse)
  unfolding to_token_response
  handle_list_tokens owner =
      attempt (list hash_token repo owner)
        (λ e. if is e session_required then refuse 403 else refuse 500)
        (λ tokens. respond 200 (map to_token_response tokens))

  unfoldable pub handle_revoke_token : Principal → String → Handler S (Unit {0})
  handle_revoke_token owner id =
      attempt (revoke hash_token repo owner id)
        (λ e.
          if is e session_required
          then refuse 403
          else if is e token_not_found
          then refuse 404
          else refuse 500)
        (λ done. respond 204 tt)
