-- ===== src/Server/Identity.antt =====
-- cmd/server/identity.go: from a request to the identity that the handlers act on.
pub mod Laws
pub mod Wiring
use Prim.Native.Char.{code}
use Prim.Native.String.{[], ◌∷◌}
use open_trove.Base.{
  ℕ, String, Bool, true, false, not, ◌&&◌, ◌||◌, ◌==◌, eqb, Option, none, some, is_some,
  if◌then◌else◌,
}
use open_trove.Base.Text.{is_empty, trim_space, has_prefix, Unicode, equal_fold}
use open_trove.Auth.{Source, Principal, anonymous, Credentials, Decision}
use open_trove.Auth.Resolver.{Resolver, resolve}
use open_trove.Auth.Tokens.{token_prefix}
use open_trove.Auth.Email.{normalize_email}

-- What the middleware reads of a request.
pub record Request : Type 0 where
  pub method : String
  pub authorization : String
  pub access_header : String
  pub email_header : String
  pub email_cookie : Option String

pub data EmailSource : Type 0 where
  header cookie missing : EmailSource
  verified : Source → EmailSource

-- What it leaves for the handlers: the values in the context, and the canonical header. A value
-- that is not set is empty.
pub record Identity : Type 0 where
  pub verified_principal : Principal
  pub user_email : String
  pub email_source : Option EmailSource
  pub email_header : String

pub data Outcome : Type 0 where
  answered : ℕ → Outcome
  passed : Identity → Outcome

-- strings.Cut at the first space.
unfoldable pub cut : String → Option (String × String)
cut [] = none
cut (c ∷ s) =
    let rest = cut s in
    if eqb (code c) 32
    then some ("", s)
    else elim rest [ none ↦ none | some (before, after) ↦ some (c ∷ before, after) ]

unfoldable pub is_write_method : String → Bool
is_write_method m = m == "POST" || m == "PUT" || m == "PATCH" || m == "DELETE"

module _ (u : Unicode) (parse : String → Option String) where
  abbrev trove_value : Option (String × String) → String
  trove_value none = ""
  trove_value (some (scheme, value)) =
      if not (equal_fold u scheme "Bearer")
      then ""
      else if not (has_prefix (trim_space value) token_prefix)
      then ""
      else trim_space value

  unfoldable pub bearer_trove_token : Request → String
  unfolding cut
  bearer_trove_token r = trove_value (cut r.authorization)

  abbrev from_cookie : Option String → String × EmailSource
  from_cookie none = ("", missing)
  from_cookie (some value) =
      let email = normalize_email u parse value in
      if is_empty email then ("", missing) else (email, cookie)

  unfoldable pub resolve_request_user_email : Request → String × EmailSource
  resolve_request_user_email r =
      let email = normalize_email u parse r.email_header in
      if is_empty email then from_cookie r.email_cookie else (email, header)

  unfoldable pub credentials : Request → Credentials
  unfolding bearer_trove_token resolve_request_user_email
  credentials r = record {
    bearer_token = bearer_trove_token r;
    proxy_jwt = r.access_header;
    asserted_email = (resolve_request_user_email r).0;
  }

  abbrev pub source_of : Decision → EmailSource → EmailSource
  source_of d asserted = if d.principal.verified then verified d.principal.source else asserted

  abbrev pub identity_of : Request → Decision → EmailSource → Identity
  identity_of r d source =
      let proven = if d.verified.verified then d.verified else anonymous in
      if is_empty d.principal.email
      then record {
        verified_principal = proven;
        user_email = "";
        email_source = none;
        email_header = r.email_header;
      }
      else record {
        verified_principal = proven;
        user_email = d.principal.email;
        email_source = some source;
        email_header = d.principal.email;
      }

  -- From the decision to the answer.
  unfoldable pub act_on : Request → Decision → EmailSource → Outcome
  act_on r d source =
      if is_some d.unavailable
      then answered 503
      else if is_some d.deny
      then answered 401
      else if is_write_method r.method && is_empty d.principal.email
      then answered 400
      else passed (identity_of r d source)

  unfoldable pub identify : {S : Type 0} → Resolver S → Request → S → Outcome × S
  unfolding act_on credentials resolve_request_user_email
  identify resolver r s =
      let decision = resolve resolver (credentials r) (is_write_method r.method) s in
      (
        act_on r (decision.0) (source_of (decision.0) ((resolve_request_user_email r).1)),
        decision.1,
      )
