-- ===== src/Server/Identity/Wiring.antt =====
-- cmd/server/identity.go: newIdentityResolver, from the configuration to the resolver.
use open_trove.Base.{
  String, true, false, Option, none, some, ◌==◌, ◌≡◌, refl, ◌⊎◌, inl, inr, if◌then◌else◌, Result,
  ok, err, wrap, arith, Bool-cases,
}
use open_trove.Auth.{
  Mode, off, shadow, enforce, other_mode, EnforceOn, writes, all, other_scope, Verifier, Sources,
}
use open_trove.Auth.Resolver.{Resolver, new_resolver}
use open_trove.Auth.Resolver.Construct.{HasVerifier, IsUsable, usable, new_resolver_of_IsUsable}
use open_trove.Config as C
use open_trove.Config.{configured, validate_auth, check_auth, completed}

-- The conversions of the configured texts to Mode and EnforceOn.
unfoldable pub mode_of : String → Mode
mode_of s =
    if s == "off"
    then off
    else if s == "shadow"
    then shadow
    else if s == "enforce"
    then enforce
    else other_mode s

unfoldable pub scope_of : String → EnforceOn
scope_of s = if s == "writes" then writes else if s == "all" then all else other_scope s

module _ {S : Type 0} (new_proxy : String → String → Result (Verifier S))
    (token_service : Verifier S) where
  abbrev sources_of : C.Auth → Option (Verifier S) → Sources S
  sources_of a proxy = record {
    proxy = proxy;
    tokens = if a.tokens_enabled then some token_service else none;
  }

  abbrev wrapped : Result (Resolver S) → Result (Resolver S)
  wrapped (ok r) = ok r
  wrapped (err e) = err (wrap "configuring identity resolver" e)

  abbrev resolver_of : C.Auth → Option (Verifier S) → Result (Resolver S)
  resolver_of a proxy =
      wrapped (new_resolver (mode_of a.mode) (scope_of a.enforce_on) (sources_of a proxy))

  abbrev with_proxy : C.Auth → Result (Verifier S) → Result (Resolver S)
  with_proxy a (err e) = err (wrap "configuring cloudflare access" e)
  with_proxy a (ok verifier) = resolver_of a (some verifier)

  unfoldable pub new_identity_resolver : C.Auth → Result (Resolver S)
  unfolding mode_of scope_of
  new_identity_resolver a =
      if configured a then with_proxy a (new_proxy a.team_domain a.audience) else resolver_of a none

  -- What the tests on the section establish.
  check_auth-IsUsable :
      (a b : C.Auth)
      → check_auth a ≡ ok b
      → (scope_of b.enforce_on ≡ writes)
        × ((mode_of b.mode ≡ off)
            ⊎ (((mode_of b.mode ≡ shadow) ⊎ (mode_of b.mode ≡ enforce)) × (configured b ≡ true)))
  unfolding mode_of scope_of
  check_auth-IsUsable a b h = (ground (arith, h), ground (arith, h))

  resolver_of-eq-ok :
      (b : C.Auth) (proxy : Option (Verifier S))
      → IsUsable (sources_of b proxy) (mode_of b.mode) (scope_of b.enforce_on)
      → resolver_of b proxy
        ≡ ok (record {
          mode = mode_of b.mode;
          enforce_on = scope_of b.enforce_on;
          sources = sources_of b proxy;
        })
  resolver_of-eq-ok b proxy h = rw (new_resolver_of_IsUsable (sources_of b proxy) h) refl

  -- From a section that validate accepts, and with a verifier for its team domain and audience,
  -- newIdentityResolver builds a resolver without an error, in the configured mode, which enforces
  -- on writes.
  pub new_identity_resolver-total :
      (a b : C.Auth) (verifier : Verifier S)
      → validate_auth a ≡ ok b
      → new_proxy b.team_domain b.audience ≡ ok verifier
      → (r : Resolver S) × (new_identity_resolver b ≡ ok r)
        × (r.mode ≡ mode_of b.mode)
        × (r.enforce_on ≡ writes)
  unfolding new_identity_resolver validate_auth
  new_identity_resolver-total a b verifier h made =
      let (scope, mode) = check_auth-IsUsable (completed a) b h in
      elim (Bool-cases (configured b)) [
        | inl set ↦ (
          record {
            mode = mode_of b.mode;
            enforce_on = scope_of b.enforce_on;
            sources = sources_of b (some verifier);
          },
          rw (new_identity_resolver, set, made)
              (resolver_of-eq-ok b (some verifier) (usable (sourced mode) (inl scope))),
          refl,
          scope,
        )
        | inr unset ↦ (
          record {
            mode = mode_of b.mode;
            enforce_on = scope_of b.enforce_on;
            sources = sources_of b none;
          },
          rw (new_identity_resolver, unset)
              (resolver_of-eq-ok b none (usable (inl (unsourced mode unset)) (inl scope))),
          refl,
          scope,
        )
      ]
    where
      sourced :
          (mode_of b.mode ≡ off)
            ⊎ (((mode_of b.mode ≡ shadow) ⊎ (mode_of b.mode ≡ enforce)) × (configured b ≡ true))
          → (mode_of b.mode ≡ off)
            ⊎ (((mode_of b.mode ≡ shadow) ⊎ (mode_of b.mode ≡ enforce))
                × HasVerifier (sources_of b (some verifier)))
      sourced (inl m) = inl m
      sourced (inr (m, c)) = inr (m, inl (verifier, refl))

      unsourced :
          (mode_of b.mode ≡ off)
            ⊎ (((mode_of b.mode ≡ shadow) ⊎ (mode_of b.mode ≡ enforce)) × (configured b ≡ true))
          → configured b ≡ false
          → mode_of b.mode ≡ off
      unsourced (inl m) missing = m
      unsourced (inr (m, c)) missing = absurd (cc (c, missing))
