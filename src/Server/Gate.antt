-- ===== src/Server/Gate.antt =====
-- cmd/server/handlers.go: the intake gate in front of the store.
pub mod Laws
use open_trove.Base.{
  String, Bool, true, false, Option, none, some, is_some, List, [], ◌∷◌, if◌then◌else◌, Error,
  Result, ok, err,
}
use open_trove.Base.Exec.{Exec}
use open_trove.Intake.{Verdict, Input, Inspector, FailMode, fail_closed, fail_open}
use open_trove.Server.{Response, failure, blocked}

-- Why a file may not be stored: *intakeBlockedError, errIntakeUnavailable, the context's error.
pub data Rejection : Type 0 where
  policy : Verdict → Rejection
  inspection_unavailable : Rejection
  cancelled : Error → Rejection

abbrev on_failure : FailMode → Option Rejection
on_failure fail_open = none
on_failure fail_closed = some inspection_unavailable

-- What inspectUpload makes of an inspection, given the error of the context after it.
abbrev pub judged : FailMode → Option Error → Result Verdict → Option Rejection
judged fail_mode _ (ok verdict) = if verdict.allowed then none else some (policy verdict)
judged fail_mode none (err e) = on_failure fail_mode
judged fail_mode (some stop) (err e) = some (cancelled stop)

module _ {S : Type 0} (intake : Option (Inspector S)) (fail_mode : FailMode)
    (context_error : S → Option Error) where
  abbrev inspect_with : Inspector S → Input → S → Option Rejection × S
  inspect_with inspect input s = (
    judged fail_mode (context_error (inspect input s).1) (inspect input s).0,
    (inspect input s).1,
  )

  unfoldable pub inspect_upload : Input → S → Option Rejection × S
  inspect_upload input s = elim intake [
    | none ↦ (none, s)
    | some inspect ↦ elim (context_error s) [
      | some e ↦ (some (cancelled e), s)
      | none ↦ inspect_with inspect input s
    ]
  ]

  -- g.Wait() of the inspections of the files of a site: the first rejection, after which the
  -- group's context is cancelled and no further inspection begins.
  unfoldable pub inspect_all : List Input → S → Option Rejection × S
  unfolding inspect_upload
  inspect_all [] s = (none, s)
  inspect_all (input ∷ rest) s =
      let later = inspect_all rest (inspect_upload input s).1 in
      if is_some (inspect_upload input s).0 then inspect_upload input s else later

-- writeIntakeRejection, where there is a rejection.
abbrev pub write_intake_rejection : {A : Type 0} → Rejection → Response A
write_intake_rejection (policy verdict) = blocked verdict
write_intake_rejection inspection_unavailable = failure 503
write_intake_rejection (cancelled e) = failure 503
