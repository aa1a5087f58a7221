-- ===== src/Server/Gate/Laws.antt =====
-- cmd/server/handlers.go: what passes the intake gate.
use open_trove.Base.{
  List, [], ◌∷◌, true, Option, none, some, ◌≡◌, arith, ok, err, Error, Option-cases, Result-cases,
  inl, inr,
}
use open_trove.Intake.{Verdict, Input, Inspector, fail_closed}
use open_trove.Server.Gate.{inspect_upload, inspect_all}

module _ {S : Type 0} (inspect : Inspector S) where
  abbrev pub Allowed : Input → S → Type 0
  Allowed input s = (v : Verdict) × ((inspect input s).0 ≡ ok v) × (v.allowed ≡ true)

  -- Each file has been inspected, one after the other, and is allowed.
  unfoldable pub AllAllowed : List Input → S → Type 0
  AllAllowed [] s = Unit
  AllAllowed (input ∷ rest) s = Allowed input s × AllAllowed rest (inspect input s).1

  module _ (context_error : S → Option Error) where
    not_judged :
        (input : Input) (s : S) (e : Error)
        → context_error s ≡ none
        → (inspect input s).0 ≡ err e
        → (inspect_upload (some inspect) fail_closed context_error input s).0 ≡ none
        → ⊥
    unfolding inspect_upload
    not_judged input s e running failed h =
        elim (Option-cases (context_error (inspect input s).1)) [
          | inl still ↦ ground (arith, running, failed, still, h)
          | inr (stop, ended) ↦ ground (arith, running, failed, ended, h)
        ]

    pub inspect_upload-Allowed :
        (input : Input) (s : S)
        → (inspect_upload (some inspect) fail_closed context_error input s).0 ≡ none
        → Allowed input s
          × ((inspect_upload (some inspect) fail_closed context_error input s).1
              ≡ (inspect input s).1)
    unfolding inspect_upload
    inspect_upload-Allowed input s h = elim (Option-cases (context_error s)) [
      | inr (e, gone) ↦ absurd (ground (arith, gone, h))
      | inl running ↦ elim (Result-cases (inspect input s).0) [
        | inl (v, answered) ↦
            ((v, answered, ground (arith, running, answered, h)), ground (arith, running))
        | inr (e, failed) ↦ absurd (not_judged input s e running failed h)
      ]
    ]

    pub inspect_all-AllAllowed :
        (inputs : List Input) (s : S)
        → (inspect_all (some inspect) fail_closed context_error inputs s).0 ≡ none
        → AllAllowed inputs s
    unfolding inspect_all AllAllowed
    inspect_all-AllAllowed [] s h = tt
    inspect_all-AllAllowed (input ∷ rest) s h =
        elim (Option-cases (inspect_upload (some inspect) fail_closed context_error input s).0) [
          | inr (rejection, refusal) ↦ absurd (ground (arith, refusal, h))
          | inl passed ↦
              let (allowed, left) = inspect_upload-Allowed input s passed in
              (
                allowed,
                inspect_all-AllAllowed rest (inspect input s).1 (ground (arith, passed, left, h)),
              )
        ]
