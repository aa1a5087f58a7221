-- ===== src/Base/Errors.antt =====
-- Go's error values: the sentinels that the packages export, errors with a text of their own, and
-- the wrappers that fmt.Errorf builds with %w. Error texts that nothing reads are left out.
use Prim.Native.String.{String}
use mathlib.Core.Path.{◌≡◌, refl}
use mathlib.Core.Logic.{◌⊎◌, inl, inr}
use mathlib.Core.Bool.{Bool, false, ◌||◌, decide}

pub data Sentinel : Type 0 where
  -- comments
  invalid_comment comment_not_found comment_forbidden thread_resolved comment_deleted : Sentinel
  -- auth
  missing_credential invalid_credential missing_email invalid_config : Sentinel
  source_unavailable : Sentinel
  token_not_found token_expired token_exists token_malformed : Sentinel
  session_required invalid_token_input : Sentinel
  -- storage
  slug_conflict not_found version_mismatch : Sentinel
  -- preview, notify
  card_not_found card_too_large card_format card_dimensions undeliverable : Sentinel
  -- cmd/server
  artifact_not_found : Sentinel
  -- intake
  inspector_failed : Sentinel

unfoldable pub Sentinel-discrete : Discrete Sentinel
Sentinel-discrete = hlevel

pub data Error : Type 0 where
  sentinel : Sentinel → Error
  -- an error from outside the program, or one of errors.New that is not exported
  plain : String → Error
  -- an error of the S3 client that implements ErrorCode()
  api : String → Error
  -- fmt.Errorf("text: %w", err)
  wrap : String → Error → Error
  -- fmt.Errorf("%w: %w", a, b)
  wrap_both : Error → Error → Error

-- errors.Is
unfoldable pub is : Error → Sentinel → Bool
unfolding Sentinel-discrete
is (sentinel a) b = decide (Sentinel-discrete a b)
is (plain t) b = false
is (api c) b = false
is (wrap t e) b = is e b
is (wrap_both d e) b = is d b || is e b

pub data Result {ℓ} (A : Type ℓ) : Type ℓ where
  ok : A → Result A
  err : Error → Result A

abbrev pub fail {ℓ} : {A : Type ℓ} → Sentinel → Result A
fail s = err (sentinel s)

-- What a call that returns only an error returns.
abbrev pub Outcome : Type 0
Outcome = Result (Unit {0})

pub Result-cases {ℓ} :
    {A : Type ℓ} (r : Result A) → ((a : A) × (r ≡ ok a)) ⊎ ((e : Error) × (r ≡ err e))
Result-cases (ok a) = inl (a, refl)
Result-cases (err e) = inr (e, refl)
