-- ===== src/Tests/Resolver.antt =====
-- The resolver with one token, on a state that counts the look-ups.
use open_trove.Base.{
  ℕ, suc, true, false, none, some, ◌==◌, if◌then◌else◌, ◌≡◌, refl, ◌⊎◌, ok, err, sentinel, fail,
  invalid_config, source_unavailable, token_not_found,
}
use open_trove.Base.Text.{is_empty}
use open_trove.Auth.{enforce, writes, Credentials, Verifier, Sources}
use open_trove.Auth.Resolver.{
  Resolver, new_resolver, resolve, verify_presented, decide_by, enforced, switch_case, verify,
}
use open_trove.Auth.Resolver.Laws.{Proves, resolve-Proves, resolve-enforced}
use open_trove.Auth.Resolver.Construct.{IsUsable, new_resolver_decides}

-- It takes one token, and fails for another as a store does that is down.
abbrev check_token : Verifier ℕ
check_token t n =
    if t == "trv_ada"
    then (ok "ada@x", suc n)
    else if t == "trv_down"
    then (err (sentinel source_unavailable), suc n)
    else (err (sentinel token_not_found), suc n)

abbrev sources : Sources ℕ
sources = record { proxy = none; tokens = some check_token }

abbrev resolver : Resolver ℕ
resolver = record { mode = enforce; enforce_on = writes; sources = sources }

abbrev with_token : Credentials
with_token = record { bearer_token = "trv_ada"; proxy_jwt = ""; asserted_email = "eve@x" }

abbrev with_bad_token : Credentials
with_bad_token = record { bearer_token = "trv_eve"; proxy_jwt = ""; asserted_email = "eve@x" }

resolve_test : (resolve resolver with_token true 0).0.principal.email ≡ "ada@x"
unfolding resolve decide_by enforced verify_presented switch_case verify
resolve_test = refl

resolve-Proves_example :
    Proves sources with_token 0 (resolve resolver with_token true 0).0.principal
unfolding resolve decide_by enforced verify_presented switch_case verify
resolve-Proves_example = resolve-Proves resolver with_token true 0 refl

resolve-enforced_example :
    (is_empty (resolve resolver with_token true 0).0.principal.email ≡ false)
    × ((resolve resolver with_token true 0).0.principal
        ≡ (resolve resolver with_token true 0).0.verified)
unfolding resolve decide_by enforced verify_presented switch_case verify
resolve-enforced_example = resolve-enforced resolver with_token true 0 refl refl refl refl

new_resolver_decides_example :
    ((new_resolver enforce writes sources ≡ ok resolver) × IsUsable sources enforce writes)
    ⊎ ((new_resolver enforce writes sources ≡ fail invalid_config)
        × (IsUsable sources enforce writes → ⊥))
new_resolver_decides_example = new_resolver_decides enforce writes sources
