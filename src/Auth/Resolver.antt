-- ===== src/Auth/Resolver.antt =====
-- auth/auth.go: NewResolver, Resolve and verify.
pub mod Laws
pub mod Construct
use open_trove.Base.{
  String, Bool, true, false, not, ◌&&◌, ◌||◌, Option, none, some, ◌==◌, if◌then◌else◌, Error,
  Result, ok, err, fail, sentinel, wrap_both, is, invalid_config, invalid_credential,
  missing_credential, source_unavailable,
}
use open_trove.Base.Text.{is_empty}
use open_trove.Auth.{
  Source, asserted, token, proxy_jwt, Principal, anonymous, Mode, off, shadow, enforce, other_mode,
  EnforceOn, writes, all, other_scope, Credentials, Verifier, Sources, Decision, undecided,
}

pub record Resolver (S : Type 0) : Type 0 where
  pub mode : Mode
  pub enforce_on : EnforceOn
  pub sources : Sources S

abbrev pub asserted_principal : String → Principal
asserted_principal email =
    if is_empty email
    then anonymous
    else record { email = email; source = asserted; verified = false }

abbrev pub enforces_all : EnforceOn → Bool
enforces_all all = true
enforces_all _ = false

-- The results of `verify`: a principal, and the error if there is one.
abbrev pub proven : Source → Result String → Principal × Option Error
proven source (ok email) = (record { email = email; source = source; verified = true }, none)
proven source (err e) = (anonymous, some e)

abbrev pub differs : Principal → Principal → Bool
differs p q = not (is_empty p.email) && not (is_empty q.email) && not (p.email == q.email)

module _ {S : Type 0} where
  abbrev pub has_source : Sources S → Bool
  has_source s = elim s.proxy [
    | none ↦ elim s.tokens [ none ↦ false | some v ↦ true ]
    | some v ↦ true
  ]

  -- the second switch of NewResolver
  check_scope : Mode → EnforceOn → Sources S → Result (Resolver S)
  check_scope mode (other_scope s) sources = fail invalid_config
  check_scope mode scope sources =
      ok (record { mode = mode; enforce_on = scope; sources = sources })

  unfoldable pub new_resolver : Mode → EnforceOn → Sources S → Result (Resolver S)
  unfolding check_scope
  new_resolver off scope sources = check_scope off scope sources
  new_resolver (other_mode m) scope sources = fail invalid_config
  new_resolver mode scope sources =
      if has_source sources then check_scope mode scope sources else fail invalid_config

  unfoldable pub verify : Verifier S → String → Source → S → (Principal × Option Error) × S
  verify v credential source s = (proven source (v credential s).0, (v credential s).1)

  -- One case of the switch on the credentials: the source decides if it is configured and the
  -- request presents its credential, and otherwise the cases below it do.
  unfoldable pub switch_case :
      Option (Verifier S)
      → String
      → Source
      → (S → (Principal × Option Error) × S)
      → S
      → (Principal × Option Error) × S
  unfolding verify
  switch_case none credential source below s = below s
  switch_case (some v) credential source below s =
      if is_empty credential then below s else verify v credential source s

  -- No case applies: Verified and VerifyErr keep their zero values.
  abbrev pub no_credential : S → (Principal × Option Error) × S
  no_credential s = ((anonymous, none), s)

  unfoldable pub verify_presented : Sources S → Credentials → S → (Principal × Option Error) × S
  unfolding switch_case
  verify_presented sources creds =
      switch_case sources.tokens creds.bearer_token token
        (switch_case sources.proxy creds.proxy_jwt proxy_jwt no_credential)

  -- The part of Resolve that follows the shadow case.
  unfoldable pub enforced : Resolver S → Bool → Principal → Decision → Decision
  enforced r write claimed d = elim d.verify_err [
    | some e ↦
        if is e source_unavailable
        then record d { unavailable = some e }
        else record d { deny = some (wrap_both (sentinel invalid_credential) e) }
    | none ↦
        if not (is_empty d.verified.email)
        then record d { principal = d.verified }
        else if write || enforces_all r.enforce_on
        then record d { deny = some (sentinel missing_credential) }
        else record d { principal = claimed }
  ]

  -- From the verified source's answer to the decision.
  unfoldable pub decide_by : Resolver S → Bool → Principal → Principal × Option Error → Decision
  unfolding enforced
  decide_by r write claimed (verified, e) =
      let d = record undecided {
        verified = verified;
        verify_err = e;
        mismatch = differs verified claimed;
      } in
      elim r.mode [
        | shadow ↦ record d { principal = if is_empty claimed.email then verified else claimed }
        | _ ↦ enforced r write claimed d
      ]

  unfoldable pub resolve : Resolver S → Credentials → Bool → S → Decision × S
  resolve r creds write s =
      let claimed = asserted_principal creds.asserted_email in
      elim r.mode [
        | off ↦ (record undecided { principal = claimed }, s)
        | _ ↦ (
          decide_by r write claimed (verify_presented r.sources creds s).0,
          (verify_presented r.sources creds s).1,
        )
      ]
