-- ===== src/Auth/Tokens/Laws.antt =====
-- auth/tokens.go: what a token that verifies, an issued token and a revoked token are, over any
-- repository that meets the contract.
use open_trove.Base.{
  ℕ, ◌<◌, String, true, false, List, none, some, ◌≡◌, ◌≢◌, ◌⊎◌, inl, inr, refl, length, Result, ok,
  err, sentinel, session_required, arith, Bool-cases, ◌==◌, eq_iff, ap, ◌∙◌,
}
use open_trove.Base.Int.{ℤ}
use open_trove.Base.Base64.{AreBytes}
use open_trove.Auth.{Principal}
use open_trove.Auth.Tokens.{
  Time, Token, TokenRepository, can_manage, is_token_text, token_secret_bytes, create, verify, list,
  revoke,
}
use open_trove.Auth.Tokens.Contract.{Wrote, Removed, Contract}
use open_trove.Auth.Tokens.Calls.{
  IsIssued, encode-IsTokenText, create_ok, verify_ok, verify_accepts, revoke_ok, verify_left,
}

module _ (hash : String → String) {S : Type 0} (repo : TokenRepository S) where
  -- Without a verified session of the identity proxy, creating, listing and revoking tokens all
  -- fail with ErrSessionRequired, and none of them changes the store.
  management_refused :
      (owner : Principal) (now : Time) (secret : Result (List ℕ)) (raw : String) (ttl : ℤ)
      (id : String) (s : S)
      → can_manage owner ≡ false
      → (create hash repo now secret owner raw ttl s ≡ (err (sentinel session_required), s))
        × (list hash repo owner s ≡ (err (sentinel session_required), s))
        × (revoke hash repo owner id s ≡ (err (sentinel session_required), s))
  unfolding create list revoke
  management_refused owner now secret raw ttl id s h = rw h (refl, refl, refl)

  module _ (contract : Contract repo) where
    -- Over a repository that meets the contract, if a token verifies, its text is well formed and
    -- the store has a token under the hash of the text, which has not expired and whose owner is
    -- the email returned.
    pub verify_sound :
        (now : Time) (text email : String) (s : S)
        → (verify hash repo now text s).0 ≡ ok email
        → (is_token_text text ≡ true)
          × (t : Token) × (contract.view s (hash text) ≡ some t)
          × (t.owner_email ≡ email)
          × (now < t.expires_at)
    verify_sound now text email s h =
        let (q, t, got, owned, alive) = verify_ok hash repo now text email s h in
        (q, t, contract.get_ok (hash text) s t got, owned, alive)

    -- Over a repository that meets the contract, if a token is issued, its owner has a verified
    -- session of the proxy and an email, its fields are those asked for, with a trimmed name of 1
    -- to 64 characters and the life that is asked for, or 90 days where that is zero, which is
    -- positive and at most 365 days; its identifier was free, and the store has it and is
    -- otherwise as it was.
    pub create-IsIssued :
        (now : Time) (bytes : List ℕ) (owner : Principal) (raw : String) (ttl : ℤ) (s : S)
        (text : String) (t : Token)
        → (create hash repo now (ok bytes) owner raw ttl s).0 ≡ ok (text, t)
        → IsIssued hash now bytes owner raw ttl text t
          × (contract.view s t.id ≡ none)
          × Wrote
              (contract.view s)
              t.id
              t
              (contract.view (create hash repo now (ok bytes) owner raw ttl s).1)
    create-IsIssued now bytes owner raw ttl s text t h =
        let (issued, done, left) = create_ok hash repo now bytes owner raw ttl s text t h in
        elim (contract.create_result t s) [
          | inl (fresh, wrote) ↦ (issued, fresh, rw left wrote)
          | inr (same, failed) ↦ absurd (failed done)
        ]

    -- Over a repository that meets the contract, after a token has been revoked without an error,
    -- its text no longer verifies.
    revoke-final :
        (owner : Principal) (now : Time) (text email : String) (s : S)
        → (revoke hash repo owner (hash text) s).0 ≡ ok tt
        → (verify hash repo now text (revoke hash repo owner (hash text) s).1).0 ≢ ok email
    revoke-final owner now text email s h e =
        let (may, done, left) = revoke_ok hash repo owner (hash text) s h in
        let (q, t, found, owned_by, alive) =
          verify_sound now text email (revoke hash repo owner (hash text) s).1 e in
        elim (contract.delete_result owner.email (hash text) s) [
          | inl (u, there, owned, removed) ↦
              ground (arith, removed (hash text), found, left, eq_iff (hash text) (hash text))
          | inr (same, failed) ↦ failed done
        ]

    -- Over a repository that meets the contract, revoking without an error removes one token, one
    -- that the repository holds to be the caller's, and leaves the others as they are; afterwards
    -- no text whose hash is the identifier of the token verifies.
    pub revoke-Removed :
        (owner : Principal) (id : String) (now : Time) (text email : String) (s : S)
        → (revoke hash repo owner id s).0 ≡ ok tt
        → ((t : Token) × (contract.view s id ≡ some t) × (contract.owns owner.email t ≡ true))
          × Removed (contract.view s) id (contract.view (revoke hash repo owner id s).1)
          × ((hash text ≢ id)
              ⊎ ((verify hash repo now text (revoke hash repo owner id s).1).0 ≢ ok email))
    revoke-Removed owner id now text email s h =
        let (may, done, left) = revoke_ok hash repo owner id s h in
        elim (contract.delete_result owner.email id s) [
          | inl (t, there, owned, removed) ↦ ((t, there, owned), rw left removed, gone)
          | inr (same, failed) ↦ absurd (failed done)
        ]
      where
        gone :
            (hash text ≢ id)
            ⊎ ((verify hash repo now text (revoke hash repo owner id s).1).0 ≢ ok email)
        gone = elim (Bool-cases (hash text == id)) [
          | inr other ↦ inl (λ e. cc ((eq_iff (hash text) id).1 e, other))
          | inl this ↦
              let at : hash text ≡ id = (eq_iff (hash text) id).0 this in
              inr (rw (← at) (revoke-final owner now text email s (rw at h)))
        ]

    -- Over a repository that meets the contract, text issued in one call verifies afterwards, to
    -- the email of its owner, at every time before its expiry, where the random source has given
    -- 32 bytes and the store answers the look-up.
    pub verify-create :
        (now later : Time) (bytes : List ℕ) (owner : Principal) (raw : String) (ttl : ℤ) (s : S)
        (text : String) (t u : Token)
        → AreBytes bytes
        → length bytes ≡ token_secret_bytes
        → (create hash repo now (ok bytes) owner raw ttl s).0 ≡ ok (text, t)
        → (repo.get_token t.id (create hash repo now (ok bytes) owner raw ttl s).1).0 ≡ ok u
        → later < t.expires_at
        → (verify hash repo later text (create hash repo now (ok bytes) owner raw ttl s).1).0
          ≡ ok owner.email
    verify-create now later bytes owner raw ttl s text t u are size h got early =
        let (issued, fresh, wrote) = create-IsIssued now bytes owner raw ttl s text t h in
        let after = (create hash repo now (ok bytes) owner raw ttl s).1 in
        let same : u ≡ t =
          ground (arith, contract.get_ok t.id after u got, wrote t.id, eq_iff t.id t.id) in
        let found : (repo.get_token (hash text) after).0 ≡ ok t =
          ground (arith, got, same, issued.1.1) in
        let good : is_token_text text ≡ true =
          rw (issued.1.0) (encode-IsTokenText bytes are size) in
        verify_accepts hash repo later text t after good found early ∙ ap ok (issued.1.2)

    -- Over a repository that meets the contract, verifying a text, whatever the answer, issues and
    -- removes no token: each stored token is left as it is, or its last-used time alone is set to
    -- the time of the call.
    pub verify-keeps :
        (now : Time) (text id : String) (s : S)
        → (contract.view (verify hash repo now text s).1 id ≡ contract.view s id)
          ⊎ ((t : Token) × (contract.view s id ≡ some t)
              × (contract.view (verify hash repo now text s).1 id
                  ≡ some (record t { last_used_at = some now })))
    verify-keeps now text id s =
        let kept = contract.get_keeps (hash text) s id in
        elim (verify_left hash repo now text s) [
          | inl same ↦ inl (rw same refl)
          | inr (inl read) ↦ inl (rw read kept)
          | inr (inr (t, got, alive, touched)) ↦
              elim (contract.touch_result t.id now (repo.get_token (hash text) s).1) [
                | inl (u, there, wrote) ↦ elim (Bool-cases (t.id == id)) [
                  | inl this ↦ inr (
                    u,
                    ground (arith, kept, there, eq_iff t.id id, this),
                    rw touched (ground (arith, wrote id, this)),
                  )
                  | inr other ↦ inl (rw touched (ground (arith, wrote id, other, kept)))
                ]
                | inr same ↦ inl (rw touched (same id ∙ kept))
              ]
        ]
