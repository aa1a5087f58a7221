-- ===== src/Intake/Cache.antt =====
-- intake/cache.go: the inspector that remembers what the one behind it has allowed.
pub mod Laws
use Prim.Native.String.{[], ◌∷◌, len}
use Prim.Native.Char.{Char}
use open_trove.Base.{
  ℕ, zero, suc, ◌+◌, ◌/◌, ◌%◌, String, Bool, true, false, Option, none, some, List, ltb,
  if◌then◌else◌, Error, Result, ok, err,
}
use open_trove.Base.Text.{append}
use open_trove.Base.Exec.{Exec}
use open_trove.Intake.{Verdict, Input, Inspector}

-- Both methods may fail, and change what they stand on.
pub record VerdictCache (S : Type 0) : Type 0 where
  pub has_allowed_verdict : String → Exec S Bool
  pub put_allowed_verdict : String → Exec S (Unit {0})

unfoldable pub digit_from : String → ℕ → Char
digit_from [] n = "0"
digit_from (c ∷ s) zero = c
digit_from (c ∷ s) (suc n) = digit_from s n

unfoldable pub digit : ℕ → Char
unfolding digit_from
digit n = digit_from "0123456789" n

-- The digits of a number before a text; a number has fewer digits than it counts, and one.
unfoldable pub decimal_onto : ℕ → ℕ → String → String
unfolding digit
decimal_onto zero n text = text
decimal_onto (suc more) n text =
    let rest = decimal_onto more (n / 10) (digit (n % 10) ∷ text) in
    if ltb n 10 then digit (n % 10) ∷ text else rest

-- "%d:%s" of the length of a text and the text.
unfoldable pub prefixed : String → String
unfolding decimal_onto
prefixed s = decimal_onto (len s + 1) (len s) (":" ∷ s)

-- `body_digest` and `text_digest` are the hexadecimal SHA-256 of bytes and of a text.
unfoldable pub cache_key : (List ℕ → String) → (String → String) → String → Input → String
unfolding prefixed
cache_key body_digest text_digest fingerprint input = text_digest (
    append (prefixed fingerprint) (
      append (prefixed input.filename)
        (append (prefixed input.content_type) (body_digest input.body))))

abbrev pub allow : Verdict
allow = record { allowed = true; reason = ""; categories = List.[] }

module _ (key : String → Input → String) {S : Type 0} (inner : Inspector S) where
  -- An inspector whose verdicts hang on settings has a fingerprint of them.
  module _ (fingerprint : Exec S String) (cache : VerdictCache S) where
    -- A failure to store is logged, and goes no further.
    unfoldable pub remember : String → Result Verdict → S → Result Verdict × S
    remember k (err e) s = (err e, s)
    remember k (ok verdict) s =
        if verdict.allowed then (ok verdict, (cache.put_allowed_verdict k s).1) else (ok verdict, s)

    -- What follows the look-up.
    unfoldable pub looked_up : Input → String → Result Bool → S → Result Verdict × S
    unfolding remember
    looked_up input k (ok true) s = (ok allow, s)
    looked_up input k (ok false) s = remember k (inner input s).0 (inner input s).1
    looked_up input k (err e) s = remember k (inner input s).0 (inner input s).1

    unfoldable pub with_key : Input → Result String → S → Result Verdict × S
    unfolding looked_up
    with_key input (err e) s = inner input s
    with_key input (ok print) s =
        looked_up input (key print input) (cache.has_allowed_verdict (key print input) s).0
          (cache.has_allowed_verdict (key print input) s).1

    unfoldable pub inspect : Inspector S
    unfolding with_key
    inspect input s = with_key input (fingerprint s).0 (fingerprint s).1

  unfoldable pub with_cache : Option (Exec S String) → Option (VerdictCache S) → Inspector S
  unfolding inspect
  with_cache none cache = inner
  with_cache (some fingerprint) none = inner
  with_cache (some fingerprint) (some cache) = inspect fingerprint cache
