-- ===== src/Auth.antt =====
-- auth/auth.go: the types of package auth. Its operations are in the modules below.
pub mod Resolver
pub mod Tokens
pub mod Email
use open_trove.Base.{String, Bool, false, Option, none, Error}
use open_trove.Base.Exec.{Exec}

-- `unset` is the empty string, the source of the zero Principal.
pub data Source : Type 0 where
  unset proxy_jwt asserted token : Source

pub record Principal : Type 0 where
  pub email : String
  pub source : Source
  pub verified : Bool

abbrev pub anonymous : Principal
anonymous = record { email = ""; source = unset; verified = false }

pub data Mode : Type 0 where
  off shadow enforce : Mode
  other_mode : String → Mode

pub data EnforceOn : Type 0 where
  writes all : EnforceOn
  other_scope : String → EnforceOn

pub record Credentials : Type 0 where
  pub bearer_token : String
  pub proxy_jwt : String
  pub asserted_email : String

-- ProxyVerifier and TokenVerifier: they may read and write what they stand on.
abbrev pub Verifier : Type 0 → Type 0
Verifier S = String → Exec S String

pub record Sources (S : Type 0) : Type 0 where
  pub proxy : Option (Verifier S)
  pub tokens : Option (Verifier S)

pub record Decision : Type 0 where
  pub principal : Principal
  pub verified : Principal
  pub mismatch : Bool
  pub verify_err : Option Error
  pub deny : Option Error
  pub unavailable : Option Error

-- var d Decision
abbrev pub undecided : Decision
undecided = record {
  principal = anonymous;
  verified = anonymous;
  mismatch = false;
  verify_err = none;
  deny = none;
  unavailable = none;
}
