-- ===== src/Auth/Resolver/Laws.antt =====
-- What Resolve guarantees to the handlers: whom a verified principal speaks for, that a presented
-- credential is never skipped, and when a request is turned away.
use open_trove.Base.{
  String, Bool, true, false, ◌||◌, Option, none, some, if◌then◌else◌, Error, ◌≡◌, ◌≢◌, refl, ◌⊎◌,
  inl, inr, arith, Bool-cases, Result, ok, err, sentinel, wrap_both, is, invalid_credential,
  source_unavailable,
}
use open_trove.Base.Text.{is_empty}
use open_trove.Auth.{
  Source, token, proxy_jwt, Principal, anonymous, off, shadow, enforce, Credentials, Verifier,
  Sources, undecided,
}
use open_trove.Auth.Resolver.{
  Resolver, asserted_principal, enforces_all, proven, verify, switch_case, no_credential,
  verify_presented, decide_by, resolve,
}

proven-verified :
    (source : Source) (a : Result String)
    → (proven source a).0.verified ≡ true
    → ((proven source a).0.source ≡ source) × (a ≡ ok (proven source a).0.email)
proven-verified source (ok email) h = (refl, refl)
proven-verified source (err e) h = cc

asserted_principal-verified : (email : String) → (asserted_principal email).verified ≡ false
asserted_principal-verified email = ground arith

-- A principal with an email that the switch on the credentials finds is a verified one.
abbrev Named : Principal × Option Error → Type 0
Named (p, e) = is_empty p.email ≡ false → p.verified ≡ true

proven-Named : (source : Source) (a : Result String) → Named (proven source a)
proven-Named source (ok email) h = refl
proven-Named source (err e) h = cc

module _ {S : Type 0} where
  -- The configured source accepts the presented credential for `email`.
  pub record Accepts (v : Option (Verifier S)) (credential : String) (s : S) (email : String)
      : Type 0 where
    pub verifier : Verifier S
    pub configured : v ≡ some verifier
    pub presented : is_empty credential ≡ false
    pub answered : (verifier credential s).0 ≡ ok email

  abbrev pub Skipped : Option (Verifier S) → String → Type 0
  Skipped v credential = (v ≡ none) ⊎ (is_empty credential ≡ true)

  -- The principal is the one that the first presented credential proves: a bearer token where
  -- tokens are configured, and otherwise the proxy's assertion.
  pub data Proves (sources : Sources S) (creds : Credentials) (s : S) (p : Principal) : Type 0 where
    by_token :
        p.source ≡ token
        → Accepts sources.tokens creds.bearer_token s p.email
        → Proves sources creds s p
    by_proxy :
        p.source ≡ proxy_jwt
        → Skipped sources.tokens creds.bearer_token
        → Accepts sources.proxy creds.proxy_jwt s p.email
        → Proves sources creds s p

  -- Either the case is skipped, or its source answers.
  switch_case-verified :
      (v : Option (Verifier S)) (credential : String) (source : Source)
      (below : S → (Principal × Option Error) × S) (s : S)
      → (Skipped v credential × (switch_case v credential source below s ≡ below s))
        ⊎ ((switch_case v credential source below s).0.0.verified ≡ true
            → ((switch_case v credential source below s).0.0.source ≡ source)
              × Accepts v credential s (switch_case v credential source below s).0.0.email)
  unfolding switch_case verify
  switch_case-verified none credential source below s = inl (inl refl, refl)
  switch_case-verified (some v) credential source below s =
      elim (Bool-cases (is_empty credential)) [
        | inl absent ↦ inl (inr absent, rw absent)
        | inr sent ↦ inr (
            rw sent λ h.
              let (same, answered) = proven-verified source _ h in
              (
                same,
                record { verifier = v; configured = refl; presented = sent; answered = answered },
              ))
      ]

  below_tokens : Sources S → Credentials → S → (Principal × Option Error) × S
  below_tokens sources creds = switch_case sources.proxy creds.proxy_jwt proxy_jwt no_credential

  below_tokens-Proves :
      (sources : Sources S) (creds : Credentials) (s : S)
      → Skipped sources.tokens creds.bearer_token
      → (below_tokens sources creds s).0.0.verified ≡ true
      → Proves sources creds s (below_tokens sources creds s).0.0
  unfolding below_tokens
  below_tokens-Proves sources creds s skipped h =
      elim (switch_case-verified sources.proxy creds.proxy_jwt proxy_jwt no_credential s) [
        | inl (_, same) ↦ cc (rw same at h)
        | inr proves ↦ let (source, accepts) = proves h in by_proxy source skipped accepts
      ]

  verify_presented-Proves :
      (sources : Sources S) (creds : Credentials) (s : S)
      → (verify_presented sources creds s).0.0.verified ≡ true
      → Proves sources creds s (verify_presented sources creds s).0.0
  unfolding verify_presented below_tokens
  verify_presented-Proves sources creds s h =
      elim (switch_case-verified sources.tokens creds.bearer_token token
        (below_tokens sources creds) s) [
          | inl (skipped, same) ↦
              rw same (below_tokens-Proves sources creds s skipped (rw same at h))
          | inr proves ↦ let (source, accepts) = proves h in by_token source accepts
        ]

  -- An asserted email is never verified, so a verified principal is the verified source's.
  decide_by-principal :
      (r : Resolver S) (write : Bool) (email : String) (v : Principal) (e : Option Error)
      → (decide_by r write (asserted_principal email) (v, e)).principal.verified ≡ true
      → (decide_by r write (asserted_principal email) (v, e)).principal ≡ v
  unfolding decide_by
  decide_by-principal r write email v e h = ground arith

  -- Outside off mode the decision is made from what the switch on the credentials found.
  pub resolve-eq-decide_by :
      (r : Resolver S) (creds : Credentials) (write : Bool) (s : S)
      → (r.mode ≡ off)
        ⊎ ((resolve r creds write s).0
            ≡ decide_by r write
                (asserted_principal creds.asserted_email)
                (verify_presented r.sources creds s).0)
  unfolding resolve
  resolve-eq-decide_by r creds write s = ground arith

  resolve-off :
      (r : Resolver S) (creds : Credentials) (write : Bool) (s : S)
      → r.mode ≡ off
      → (resolve r creds write s).0
        ≡ record undecided { principal = asserted_principal creds.asserted_email }
  unfolding resolve
  resolve-off r creds write s h = ground arith

  -- A principal that Resolve marks as verified is the one that the first presented credential
  -- proves: the bearer token where tokens are configured, and otherwise the proxy assertion.
  pub resolve-Proves :
      (r : Resolver S) (creds : Credentials) (write : Bool) (s : S)
      → (resolve r creds write s).0.principal.verified ≡ true
      → Proves r.sources creds s (resolve r creds write s).0.principal
  resolve-Proves r creds write s h = elim (resolve-eq-decide_by r creds write s) [
    | inl off_mode ↦ cc (
      rw (resolve-off r creds write s off_mode) at h,
      asserted_principal-verified creds.asserted_email,
    )
    | inr e ↦
        let (v, error) = (verify_presented r.sources creds s).0 in
        let same = decide_by-principal r write creds.asserted_email v error (rw e at h) in
        rw (e, same) (verify_presented-Proves r.sources creds s (rw (e, same) at h))
  ]

  -- In enforce mode, a request in the scope of enforcement that is neither denied nor unavailable
  -- has a principal with an email, and it is the verified one, never the asserted one.
  pub resolve-enforced :
      (r : Resolver S) (creds : Credentials) (write : Bool) (s : S)
      → r.mode ≡ enforce
      → (write || enforces_all r.enforce_on) ≡ true
      → (resolve r creds write s).0.deny ≡ none
      → (resolve r creds write s).0.unavailable ≡ none
      → (is_empty (resolve r creds write s).0.principal.email ≡ false)
        × ((resolve r creds write s).0.principal ≡ (resolve r creds write s).0.verified)
  unfolding resolve decide_by
  resolve-enforced r creds write s mode scope allowed up = ground arith

  switch_case-Named :
      (v : Option (Verifier S)) (credential : String) (source : Source)
      (below : S → (Principal × Option Error) × S) (s : S)
      → Named (below s).0
      → Named (switch_case v credential source below s).0
  unfolding switch_case verify
  switch_case-Named none credential source below s h = h
  switch_case-Named (some v) credential source below s h = elim (Bool-cases (is_empty credential)) [
    | inl absent ↦ rw absent h
    | inr sent ↦ rw sent (proven-Named source (v credential s).0)
  ]

  verify_presented-Named :
      (sources : Sources S) (creds : Credentials) (s : S)
      → Named (verify_presented sources creds s).0
  unfolding verify_presented
  verify_presented-Named sources creds s =
      switch_case-Named sources.tokens creds.bearer_token token _ s
        (switch_case-Named sources.proxy creds.proxy_jwt proxy_jwt no_credential s λ h. cc)

  decide_by-verified :
      (r : Resolver S) (write : Bool) (claimed v : Principal) (e : Option Error)
      → (decide_by r write claimed (v, e)).verified ≡ v
  unfolding decide_by
  decide_by-verified r write claimed v e = ground arith

  pub resolve-verified :
      (r : Resolver S) (creds : Credentials) (write : Bool) (s : S)
      → is_empty (resolve r creds write s).0.verified.email ≡ false
      → (resolve r creds write s).0.verified.verified ≡ true
  resolve-verified r creds write s = elim (resolve-eq-decide_by r creds write s) [
    | inl off_mode ↦ rw (resolve-off r creds write s off_mode) λ h. cc
    | inr e ↦
        let (v, error) = (verify_presented r.sources creds s).0 in
        let claimed = asserted_principal creds.asserted_email in
        rw (e, decide_by-verified r write claimed v error)
          (verify_presented-Named r.sources creds s)
  ]

  -- In enforce mode, where a presented token fails at the configured token verifier, the decision
  -- acts on nobody and no other source runs: it is unavailable exactly if the error says that the
  -- source is, and denied otherwise.
  resolve-token_failure :
      (r : Resolver S) (creds : Credentials) (write : Bool) (s : S) (v : Verifier S) (e : Error)
      → r.mode ≡ enforce
      → r.sources.tokens ≡ some v
      → is_empty creds.bearer_token ≡ false
      → (v creds.bearer_token s).0 ≡ err e
      → ((resolve r creds write s).0.principal ≡ anonymous)
        × ((resolve r creds write s).0.unavailable
            ≡ (if is e source_unavailable then some e else none))
        × ((resolve r creds write s).0.deny ≡ (
            if is e source_unavailable
            then none
            else some (wrap_both (sentinel invalid_credential) e)))
        × ((resolve r creds write s).1 ≡ (v creds.bearer_token s).1)
  unfolding resolve decide_by verify_presented
  resolve-token_failure r creds write s v e mode configured sent failed = ground arith

  -- With authentication off or in shadow mode no request is turned away, and the principal is the
  -- asserted one where there is one, and otherwise the verified one.
  resolve_lenient :
      (r : Resolver S) (creds : Credentials) (write : Bool) (s : S)
      → (r.mode ≡ off) ⊎ (r.mode ≡ shadow)
      → ((resolve r creds write s).0.deny ≡ none)
        × ((resolve r creds write s).0.unavailable ≡ none)
        × ((resolve r creds write s).0.principal ≡ (
            if is_empty creds.asserted_email
            then (resolve r creds write s).0.verified
            else asserted_principal creds.asserted_email))
  unfolding resolve decide_by
  resolve_lenient r creds write s (inl h) = ground arith
  resolve_lenient r creds write s (inr h) = ground arith

  -- A request goes on, or is denied, or is unavailable; in the last two cases its principal is
  -- anonymous, and no request is both.
  resolve_trichotomy :
      (r : Resolver S) (creds : Credentials) (write : Bool) (s : S)
      → (((resolve r creds write s).0.deny ≡ none)
          × ((resolve r creds write s).0.unavailable ≡ none))
        ⊎ (((resolve r creds write s).0.deny ≢ none)
            × ((resolve r creds write s).0.unavailable ≡ none)
            × ((resolve r creds write s).0.principal ≡ anonymous))
        ⊎ (((resolve r creds write s).0.deny ≡ none)
            × ((resolve r creds write s).0.unavailable ≢ none)
            × ((resolve r creds write s).0.principal ≡ anonymous))
  unfolding resolve decide_by
  resolve_trichotomy r creds write s = ground arith
