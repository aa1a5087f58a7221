-- ===== src/Config.antt =====
-- internal/config/config.go: versions of clients, and the tests on the sections of a configuration.
pub mod Versions
use Prim.Native.Char.{code}
use Prim.Native.String.{[], ◌∷◌}
use open_trove.Base.{
  ℕ, zero, suc, ◌+◌, ◌-◌, ◌*◌, ◌^◌, String, Bool, true, false, not, ◌&&◌, ◌||◌, ◌==◌, Option, none,
  some, List, ltb, leb, eqb, if◌then◌else◌, Result, ok, err, Outcome, plain,
}
use open_trove.Base.Int.{ℤ, pos, negsuc}
use open_trove.Base.Text.{
  is_empty, append, trim_space, has_prefix, trim_prefix, contains_code, split,
}

-- The value of a text of decimal digits, after those whose value is `n`.
unfoldable pub digits_from : ℕ → String → Option ℕ
digits_from n [] = some n
digits_from n (c ∷ s) =
    let rest = digits_from (n * 10 + (code c - 48)) s in
    if leb 48 (code c) && leb (code c) 57 then rest else none

abbrev digits : String → Option ℕ
digits s = if is_empty s then none else digits_from 0 s

abbrev within : ℕ → Option ℕ → Option ℕ
within bound none = none
within bound (some n) = if leb n bound then some n else none

abbrev negated : Option ℕ → Option ℤ
negated none = none
negated (some zero) = some (pos 0)
negated (some (suc n)) = some (negsuc n)

abbrev positive : Option ℕ → Option ℤ
positive none = none
positive (some n) = some (pos n)

-- strconv.Atoi, for an int of 64 bits: digits after at most one sign.
unfoldable pub atoi : String → Option ℤ
unfolding digits_from
atoi [] = none
atoi (c ∷ s) =
    if eqb (code c) 45
    then negated (within (2 ^ 63) (digits s))
    else if eqb (code c) 43
    then positive (within (2 ^ 63 - 1) (digits s))
    else positive (within (2 ^ 63 - 1) (digits (c ∷ s)))

abbrev number_before : Option ℤ → Option (List ℕ) → Option (List ℕ)
number_before (some (pos n)) (some ns) = some (List.◌∷◌ n ns)
number_before _ _ = none

-- The loop of parseVersion.
unfoldable pub numbers : List String → Option (List ℕ)
unfolding atoi
numbers List.[] = some List.[]
numbers (List.◌∷◌ p ps) = number_before (atoi p) (numbers ps)

-- Split gives at least one part, so that the test on the length is always met.
unfoldable pub parse_version : String → Option (List ℕ)
unfolding numbers
parse_version v = numbers (split 46 (trim_prefix (trim_space v) "v"))

unfoldable pub valid_version : String → Bool
unfolding parse_version
valid_version v = elim (parse_version v) [ none ↦ false | some ns ↦ true ]

-- The loop of OlderVersion, where a number that is missing counts as zero.
unfoldable pub older_numbers : List ℕ → List ℕ → Bool
older_numbers List.[] List.[] = false
older_numbers List.[] (List.◌∷◌ y ys) = if eqb 0 y then older_numbers List.[] ys else ltb 0 y
older_numbers (List.◌∷◌ x xs) List.[] = if eqb x 0 then older_numbers xs List.[] else ltb x 0
older_numbers (List.◌∷◌ x xs) (List.◌∷◌ y ys) = if eqb x y then older_numbers xs ys else ltb x y

abbrev both_older : Option (List ℕ) → Option (List ℕ) → Bool
both_older (some xs) (some ys) = older_numbers xs ys
both_older _ _ = false

unfoldable pub older_version : String → String → Bool
unfolding parse_version older_numbers
older_version a b = both_older (parse_version a) (parse_version b)

pub record Slack : Type 0 where
  pub enabled : Bool
  pub notifications : Bool
  pub unfurls : Bool
  pub bot_token : String
  pub app_token : String

unfoldable pub validate_slack : Slack → Outcome
validate_slack s =
    if not s.enabled
    then ok tt
    else if not s.notifications && not s.unfurls
    then err (plain "config: slack.enabled needs notifications or unfurls")
    else if not (has_prefix s.bot_token "xoxb-")
    then err (plain "config: slack.enabled requires SLACK_BOT_TOKEN (a bot token, xoxb-)")
    else if s.unfurls && not (has_prefix s.app_token "xapp-")
    then err (
        plain
          "config: slack.unfurls requires SLACK_APP_TOKEN (an app-level token, xapp-) for Socket Mode")
    else ok tt

pub record Auth : Type 0 where
  pub mode : String
  pub enforce_on : String
  pub team_domain : String
  pub audience : String
  pub tokens_enabled : Bool

-- The assignments that come before the tests.
abbrev pub completed : Auth → Auth
completed a = record {
  mode = if is_empty a.mode then "off" else a.mode;
  enforce_on = if is_empty a.enforce_on then "writes" else a.enforce_on;
  team_domain = trim_space a.team_domain;
  audience = trim_space a.audience;
  tokens_enabled = a.tokens_enabled;
}

-- CloudflareAccess.Configured
unfoldable pub configured : Auth → Bool
configured a = not (is_empty a.team_domain) || not (is_empty a.audience)

abbrev is_host : String → Bool
is_host s = not (contains_code s 47 || contains_code s 58) && contains_code s 46

abbrev pub check_auth : Auth → Result Auth
check_auth a =
    if not (a.mode == "off" || a.mode == "shadow" || a.mode == "enforce")
    then err (plain "config: auth.mode must be off, shadow, or enforce")
    else if not (a.enforce_on == "writes")
    then err (plain "config: auth.enforce_on must be writes")
    else if configured a && (is_empty a.team_domain || is_empty a.audience)
    then err (plain "config: auth.cloudflare_access requires team_domain and audience")
    else if configured a && not (is_host a.team_domain)
    then err (plain "config: auth.cloudflare_access.team_domain must be a bare host name")
    else if not (a.mode == "off") && not (configured a)
    then err (
        plain
          (append "config: auth.mode " (append a.mode " requires a verified credential source")))
    else if a.tokens_enabled && (a.mode == "off" || not (configured a))
    then err
        (plain "config: auth.tokens requires auth.mode shadow or enforce with cloudflare_access")
    else ok a

-- The section that is checked, as it is afterwards.
unfoldable pub validate_auth : Auth → Result Auth
unfolding configured
validate_auth a = check_auth (completed a)
