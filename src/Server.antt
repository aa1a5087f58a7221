-- ===== src/Server.antt =====
-- cmd/server: the logic of the HTTP handlers. A handler takes the parts of the request that it
-- reads, and gives the status with what the body holds, or the status of an error.
pub mod Slug
pub mod Identity
pub mod SitePath
pub mod Gate
pub mod Artifacts
pub mod Files
pub mod Upload
pub mod Zip
pub mod Tokens
pub mod Cards
pub mod CommentHandlers
use open_trove.Base.{ℕ, String, Error, Result, ok, err}
use open_trove.Base.Exec.{Exec}
use open_trove.Intake.{Verdict}

-- `stale` is VersionConflictResponse with its current version, 412; `blocked` is the answer to an
-- upload that the content policy rejects, 403.
pub data Response {ℓ} (A : Type ℓ) : Type ℓ where
  answer : ℕ → A → Response A
  failure : ℕ → Response A
  stale : String → Response A
  blocked : Verdict → Response A

abbrev pub Handler : Type 0 → Type 0 → Type 0
Handler S A = S → Response A × S

module _ {S A B : Type 0} where
  abbrev branch : Result A → (Error → Handler S B) → (A → Handler S B) → Handler S B
  branch (ok a) bad good = good a
  branch (err e) bad good = bad e

  -- What follows a call: on its error, and on its result.
  abbrev pub attempt : Exec S A → (Error → Handler S B) → (A → Handler S B) → Handler S B
  attempt m bad good s = branch (m s).0 bad good (m s).1

module _ {S A : Type 0} where
  abbrev pub refuse : ℕ → Handler S A
  refuse n s = (failure n, s)

  abbrev pub respond : ℕ → A → Handler S A
  respond n a s = (answer n a, s)
