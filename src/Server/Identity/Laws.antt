-- ===== src/Server/Identity/Laws.antt =====
-- cmd/server/identity.go with auth/auth.go: whom a handler acts for.
use open_trove.Base.{String, true, false, ◌||◌, Option, none, ◌≡◌, refl, arith}
use open_trove.Base.Text.{is_empty, Unicode}
use open_trove.Auth.{enforce, Decision}
use open_trove.Auth.Resolver.{Resolver, resolve, enforces_all}
use open_trove.Auth.Resolver.Laws.{Proves, resolve-Proves, resolve-enforced, resolve-verified}
use open_trove.Server.Identity.{
  Request, Identity, EmailSource, passed, identity_of, is_write_method, credentials, identify,
  act_on, source_of, resolve_request_user_email,
}

-- What the middleware leaves for a decision that it lets pass.
passed-Allowed :
    (u : Unicode) (parse : String → Option String) (r : Request) (d : Decision)
    (source : EmailSource) (i : Identity)
    → act_on u parse r d source ≡ passed i
    → (d.deny ≡ none) × (d.unavailable ≡ none) × (i ≡ identity_of u parse r d source)
unfolding act_on
passed-Allowed u parse r d source i h = ground arith

identity_of-verified :
    (u : Unicode) (parse : String → Option String) (r : Request) (d : Decision)
    (source : EmailSource)
    → is_empty d.principal.email ≡ false
    → d.principal ≡ d.verified
    → d.verified.verified ≡ true
    → ((identity_of u parse r d source).user_email ≡ d.principal.email)
      × ((identity_of u parse r d source).email_header ≡ d.principal.email)
      × ((identity_of u parse r d source).verified_principal ≡ d.principal)
identity_of-verified u parse r d source named same verified = ground arith

module _ (u : Unicode) (parse : String → Option String) {S : Type 0} where
  -- In enforce mode, if the middleware lets a request in the scope of enforcement pass, the
  -- handlers act for an email that is not empty, which is the email of the verified principal and
  -- stands in the identity header too, whatever the client sent there, and the presented
  -- credential proves that principal.
  pub identify-Proves :
      (resolver : Resolver S) (r : Request) (s : S) (i : Identity)
      → resolver.mode ≡ enforce
      → (is_write_method r.method || enforces_all resolver.enforce_on) ≡ true
      → (identify u parse resolver r s).0 ≡ passed i
      → (i.user_email ≡ i.verified_principal.email)
        × (is_empty i.user_email ≡ false)
        × (i.email_header ≡ i.user_email)
        × Proves resolver.sources (credentials u parse r) s i.verified_principal
  unfolding identify act_on
  identify-Proves resolver r s i mode scope h =
      let creds = credentials u parse r in
      let write = is_write_method r.method in
      let d = (resolve resolver creds write s).0 in
      let source = source_of u parse d (resolve_request_user_email u parse r).1 in
      let (allowed, up, same) = passed-Allowed u parse r d source i h in
      let (named, principal) = resolve-enforced resolver creds write s mode scope allowed up in
      let verified = resolve-verified resolver creds write s (rw principal at named) in
      let (email, canonical, acts) =
        identity_of-verified u parse r d source named principal verified in
      rw (same, email, canonical, acts)
        (refl, named, refl, resolve-Proves resolver creds write s (rw principal verified))
