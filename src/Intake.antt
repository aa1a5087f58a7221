-- ===== src/Intake.antt =====
-- intake: the inspection that uploads pass before they are stored.
pub mod Source
pub mod Cache
pub mod Anthropic
pub mod Factory
use open_trove.Base.{ℕ, String, Bool, List}
use open_trove.Base.Exec.{Exec}

pub record Verdict : Type 0 where
  pub allowed : Bool
  pub reason : String
  pub categories : List String

pub record Input : Type 0 where
  pub filename : String
  pub content_type : String
  pub body : List ℕ

abbrev pub Inspector : Type 0 → Type 0
Inspector S = Input → Exec S Verdict

-- Any other value of the type FailMode closes too.
pub data FailMode : Type 0 where
  fail_closed fail_open : FailMode
