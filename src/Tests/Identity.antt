-- ===== src/Tests/Identity.antt =====
-- A request with a bearer token, and the tokens and paths of requests.
use open_trove.Base.{
  ℕ, ◌+◌, ◌*◌, ◌^◌, suc, String, true, false, none, some, Option, ◌≡◌, refl, arith, ok, err,
  sentinel, token_not_found, ◌==◌, if◌then◌else◌,
}
use open_trove.Base.Int.{pos}
use open_trove.Base.Text.{is_empty, equal_fold, has_prefix, trim_space, trim_prefix, join, split}
use open_trove.Base.Path.{clean}
use open_trove.Auth.{Verifier, Sources, enforce, writes, token}
use open_trove.Auth.Resolver.{Resolver, resolve, decide_by, verify_presented}
use open_trove.Auth.Resolver.Laws.{Proves}
use open_trove.Auth.Tokens.{hour}
use open_trove.Server.Identity.{
  Request, Identity, passed, verified, identify, credentials, is_write_method,
}
use open_trove.Server.Identity.Laws.{identify-Proves}
use open_trove.Server.SitePath.{safe_site_path}
use open_trove.Server.SitePath.Laws.{IsInside, safe_site_path-IsInside}
use open_trove.Server.Tokens.{ttl_of_days}
use open_trove.Server.Tokens.Laws.{ttl_of_days-bounded}
use open_trove.Tests.Data.{caseless}

abbrev check_token : Verifier ℕ
check_token t n =
    if t == "trv_ada" then (ok "ada@x", suc n) else (err (sentinel token_not_found), suc n)

abbrev sources : Sources ℕ
sources = record { proxy = none; tokens = some check_token }

abbrev resolver : Resolver ℕ
resolver = record { mode = enforce; enforce_on = writes; sources = sources }

abbrev parse : String → Option String
parse s = some s

abbrev request : Request
request = record {
  method = "POST";
  authorization = "Bearer trv_ada";
  access_header = "";
  email_header = "eve@x";
  email_cookie = none;
}

abbrev identity : Identity
identity = record {
  verified_principal = record { email = "ada@x"; source = token; verified = true };
  user_email = "ada@x";
  email_source = some (verified token);
  email_header = "ada@x";
}

identify_test : (identify caseless parse resolver request 0).0 ≡ passed identity
unfolding identify credentials resolve decide_by verify_presented equal_fold has_prefix trim_space
    is_write_method
identify_test = refl

identify-Proves_example :
    (identity.user_email ≡ identity.verified_principal.email)
    × (is_empty identity.user_email ≡ false)
    × (identity.email_header ≡ identity.user_email)
    × Proves resolver.sources (credentials caseless parse request) 0 identity.verified_principal
unfolding is_write_method
identify-Proves_example =
    identify-Proves caseless parse resolver request 0 identity refl refl identify_test

safe_site_path_test : safe_site_path "site/a/../b.html" "site/" ≡ ok "b.html"
unfolding safe_site_path trim_prefix clean join split
safe_site_path_test = refl

safe_site_path-IsInside_example : IsInside "b.html"
safe_site_path-IsInside_example =
    safe_site_path-IsInside "site/a/../b.html" "site/" "b.html" safe_site_path_test

-- A request for 2 ^ 48 + 1 days makes a token for one day.
ttl_of_days-bounded_example : ttl_of_days (1 + 1 * 2 ^ 48) ≡ pos (1 * 24 * hour)
ttl_of_days-bounded_example = ttl_of_days-bounded 1 1 (omega arith)
