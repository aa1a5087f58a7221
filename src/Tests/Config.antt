-- ===== src/Tests/Config.antt =====
-- Versions of clients, read and compared, and a configuration with authentication.
use open_trove.Base.{ℕ, List, String, suc, true, false, some, ◌≡◌, ◌↔◌, refl, Result, ok}
use open_trove.Base.Text.{contains_code, split, trim_prefix, trim_space}
use open_trove.Auth.{Verifier, writes}
use open_trove.Auth.Resolver.{Resolver}
use open_trove.Config.{Auth, parse_version, valid_version, older_version, validate_auth}
use open_trove.Config.Versions.{Below, number_at, older_version-Below}
use open_trove.Server.Identity.Wiring.{mode_of, new_identity_resolver, new_identity_resolver-total}

unprefixed : valid_version " v1.3.0" ≡ true
unfolding valid_version split trim_prefix trim_space
unprefixed = refl

empty_part : valid_version "1..0" ≡ false
unfolding valid_version split trim_prefix trim_space
empty_part = refl

signed_part : valid_version "1.+3" ≡ true
unfolding valid_version split trim_prefix trim_space
signed_part = refl

by_number : older_version "1.9" "1.10" ≡ true
unfolding older_version split trim_prefix trim_space
by_number = refl

missing_is_zero : older_version "1.2" "1.2.0" ≡ false
unfolding older_version split trim_prefix trim_space
missing_is_zero = refl

older_version-Below_example : (older_version "1.9" "1.10" ≡ true) ↔ (
    (xs : List ℕ) × (ys : List ℕ) × (parse_version "1.9" ≡ some xs)
    × (parse_version "1.10" ≡ some ys)
    × Below (number_at xs) (number_at ys))
older_version-Below_example = older_version-Below "1.9" "1.10"

abbrev auth : Auth
auth = record {
  mode = "enforce";
  enforce_on = "writes";
  team_domain = "trove.example";
  audience = "aud";
  tokens_enabled = false;
}

abbrev verifier : Verifier ℕ
verifier jwt n = (ok "ada@x", suc n)

abbrev new_proxy : String → String → Result (Verifier ℕ)
new_proxy team_domain audience = ok verifier

new_identity_resolver-total_example :
    (r : Resolver ℕ) × (new_identity_resolver new_proxy verifier auth ≡ ok r)
    × (r.mode ≡ mode_of "enforce")
    × (r.enforce_on ≡ writes)
unfolding validate_auth trim_space contains_code
new_identity_resolver-total_example =
    new_identity_resolver-total new_proxy verifier auth auth verifier refl refl
