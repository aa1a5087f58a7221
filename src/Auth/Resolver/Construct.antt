-- ===== src/Auth/Resolver/Construct.antt =====
-- auth/auth.go: what NewResolver accepts.
use open_trove.Base.{
  Option-cases, Bool-cases, some, refl, true, ◌≡◌, ◌⊎◌, inl, inr, arith, ok, fail, invalid_config,
}
use open_trove.Auth.{Mode, off, shadow, enforce, EnforceOn, writes, all, Sources, Verifier}
use open_trove.Auth.Resolver.{Resolver, has_source, new_resolver}

module _ {S : Type 0} where
  -- The proxy's verifier or that of tokens is configured.
  abbrev pub HasVerifier : Sources S → Type 0
  HasVerifier sources =
      ((v : Verifier S) × (sources.proxy ≡ some v)) ⊎ ((v : Verifier S) × (sources.tokens ≡ some v))

  HasVerifier-of_has_source :
      (sources : Sources S) → has_source sources ≡ true → HasVerifier sources
  HasVerifier-of_has_source sources h = elim (Option-cases sources.proxy) [
    | inr found ↦ inl found
    | inl no_proxy ↦ elim (Option-cases sources.tokens) [
      | inr found ↦ inr found
      | inl no_tokens ↦ absurd (ground (arith, no_proxy, no_tokens, h))
    ]
  ]

  pub has_source_of_HasVerifier :
      (sources : Sources S) → HasVerifier sources → has_source sources ≡ true
  has_source_of_HasVerifier sources (inl (v, found)) = rw found refl
  has_source_of_HasVerifier sources (inr (v, found)) = elim (Option-cases sources.proxy) [
    | inl no_proxy ↦ rw (no_proxy, found) refl
    | inr (w, proxy) ↦ rw proxy refl
  ]

  -- The known modes and scopes, with a source unless the mode is off.
  pub data IsUsable (sources : Sources S) : Mode → EnforceOn → Type 0 where
    usable :
        {mode : Mode} {scope : EnforceOn}
        → (mode ≡ off) ⊎ (((mode ≡ shadow) ⊎ (mode ≡ enforce)) × HasVerifier sources)
        → (scope ≡ writes) ⊎ (scope ≡ all)
        → IsUsable sources mode scope

  IsUsable-of_new_resolver :
      (mode : Mode) (scope : EnforceOn) (sources : Sources S) (r : Resolver S)
      → new_resolver mode scope sources ≡ ok r
      → IsUsable sources mode scope
  unfolding new_resolver
  IsUsable-of_new_resolver mode scope sources r h =
      usable
        (elim (Bool-cases (has_source sources)) [
          | inl yes_source ↦
              let verifier = HasVerifier-of_has_source sources yes_source in
              ground (arith, h, verifier)
          | inr no_source ↦ ground (arith, h, no_source)
        ])
        (ground arith)

  pub new_resolver_of_IsUsable :
      {mode : Mode} {scope : EnforceOn} (sources : Sources S)
      → IsUsable sources mode scope
      → new_resolver mode scope sources
        ≡ ok (record { mode = mode; enforce_on = scope; sources = sources })
  unfolding new_resolver
  new_resolver_of_IsUsable sources (usable (inl m) sc) = ground arith
  new_resolver_of_IsUsable sources (usable (inr (m, found)) sc) =
      let sourced = has_source_of_HasVerifier sources found in ground (arith, m, sc, sourced)

  new_resolver_refusal :
      (mode : Mode) (scope : EnforceOn) (sources : Sources S)
      → (new_resolver mode scope sources
          ≡ ok (record { mode = mode; enforce_on = scope; sources = sources }))
        ⊎ (new_resolver mode scope sources ≡ fail invalid_config)
  unfolding new_resolver
  new_resolver_refusal mode scope sources = ground arith

  -- NewResolver gives a resolver with the arguments as its fields exactly if the mode is off, or
  -- is shadow or enforce and the verifier of the proxy or that of tokens is configured, and the
  -- scope is writes or all; otherwise it fails with ErrInvalidConfig.
  pub new_resolver_decides :
      (mode : Mode) (scope : EnforceOn) (sources : Sources S)
      → ((new_resolver mode scope sources
            ≡ ok (record { mode = mode; enforce_on = scope; sources = sources }))
          × IsUsable sources mode scope)
        ⊎ ((new_resolver mode scope sources ≡ fail invalid_config)
            × (IsUsable sources mode scope → ⊥))
  new_resolver_decides mode scope sources = elim (new_resolver_refusal mode scope sources) [
    | inl made ↦ inl (made, IsUsable-of_new_resolver mode scope sources _ made)
    | inr refusal ↦ inr (refusal, λ h. cc (refusal, new_resolver_of_IsUsable sources h))
  ]
