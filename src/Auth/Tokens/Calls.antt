-- ===== src/Auth/Tokens/Calls.antt =====
-- auth/tokens.go: what the calls of the service do to the repository when they succeed.
use Prim.Native.String.{count}
use open_trove.Base.{
  ℕ, zero, suc, ◌*◌, ◌^◌, ◌≤◌, ◌<◌, ◌+◌, String, true, false, List, none, ◌≡◌, ◌⊎◌, inl, inr, refl,
  length, ok, arith, Bool-cases, Result-cases, ltb,
}
use open_trove.Base.Int.{ℤ, pos, negsuc}
use open_trove.Base.Text.{is_empty, trim_space, append}
use open_trove.Base.Text.Laws.{has_prefix-append, trim_prefix-append}
use open_trove.Base.Base64.{encode, AreBytes, decode-encode}
use open_trove.Auth.{Principal, proxy_jwt}
use open_trove.Auth.Tokens.{
  Time, Token, TokenRepository, can_manage, checked_name, checked_ttl, is_token_text, max_token_ttl,
  max_token_name_length, token_prefix, token_secret_bytes, due, create, verify, revoke, accept,
  touch_if_due,
}

checked_ttl_bounds : (ttl : ℤ) (n : ℕ) → checked_ttl ttl ≡ ok n → (0 < n) × (n ≤ max_token_ttl)
unfolding checked_ttl
checked_ttl_bounds (pos k) n h = ground arith
checked_ttl_bounds (negsuc k) n h = cc

checked_name_bounds :
    (raw name : String)
    → checked_name raw ≡ ok name
    → (name ≡ trim_space raw) × (is_empty name ≡ false) × (count name ≤ max_token_name_length)
unfolding checked_name
checked_name_bounds raw name h = ground arith

pub encode-IsTokenText :
    (bytes : List ℕ)
    → AreBytes bytes
    → length bytes ≡ token_secret_bytes
    → is_token_text (append token_prefix (encode bytes)) ≡ true
unfolding is_token_text
encode-IsTokenText bytes are size =
    rw
      (
        has_prefix-append token_prefix (encode bytes),
        trim_prefix-append token_prefix (encode bytes),
        decode-encode bytes are,
        size,
      )
      refl

-- A verified session of the identity proxy.
abbrev pub IsSession : Principal → Type 0
IsSession p = (p.verified ≡ true) × (p.source ≡ proxy_jwt) × (is_empty p.email ≡ false)

can_manage-IsSession : (p : Principal) → can_manage p ≡ true → IsSession p
unfolding can_manage
can_manage-IsSession p h = (ground (arith, h), ground (arith, h), ground (arith, h))

-- A day in nanoseconds.
abbrev pub day : ℕ
day = 86400 * 10 ^ 9

-- The life that is asked for is a number of nanoseconds, and 90 days where it is zero.
abbrev pub Lives : Time → ℤ → Time → Type 0
Lives now (pos zero) at = at ≡ now + 90 * day
Lives now (pos (suc n)) at = at ≡ now + suc n
Lives now (negsuc n) at = ⊥

checked_ttl-Lives :
    (now : Time) (ttl : ℤ) (n : ℕ) → checked_ttl ttl ≡ ok n → Lives now ttl (now + n)
unfolding checked_ttl
checked_ttl-Lives now (pos zero) n h = ground (arith, h)
checked_ttl-Lives now (pos (suc k)) n h = ground (arith, h)
checked_ttl-Lives now (negsuc k) n h = cc

module _ (hash : String → String) where
  -- What an issued token holds.
  abbrev pub Holds : Time → List ℕ → Principal → String → ℤ → String → Token → Type 0
  Holds now bytes owner raw ttl text t =
      (text ≡ append token_prefix (encode bytes))
      × (t.id ≡ hash text)
      × (t.owner_email ≡ owner.email)
      × (t.name ≡ trim_space raw)
      × (is_empty t.name ≡ false)
      × (count t.name ≤ 64)
      × (t.created_at ≡ now)
      × (now < t.expires_at)
      × (t.expires_at ≤ now + 365 * day)
      × Lives now ttl t.expires_at
      × (t.last_used_at ≡ none)

  abbrev pub IsIssued : Time → List ℕ → Principal → String → ℤ → String → Token → Type 0
  IsIssued now bytes owner raw ttl text t = IsSession owner × Holds now bytes owner raw ttl text t

  module _ {S : Type 0} (repo : TokenRepository S) where
    pub create_ok :
        (now : Time) (bytes : List ℕ) (owner : Principal) (raw : String) (ttl : ℤ) (s : S)
        (text : String) (t : Token)
        → (create hash repo now (ok bytes) owner raw ttl s).0 ≡ ok (text, t)
        → IsIssued now bytes owner raw ttl text t
          × ((repo.create_token t s).0 ≡ ok tt)
          × ((create hash repo now (ok bytes) owner raw ttl s).1 ≡ (repo.create_token t s).1)
    unfolding create
    create_ok now bytes owner raw ttl s text t h = elim (Bool-cases (can_manage owner)) [
      | inr q ↦ cc
      | inl q ↦ elim (Result-cases (checked_name raw)) [
        | inl (name, named) ↦ elim (Result-cases (checked_ttl ttl)) [
          | inl (life, alive) ↦
              let held : Holds now bytes owner raw ttl text t = ground (
                arith,
                checked_name_bounds raw name,
                checked_ttl_bounds ttl life,
                checked_ttl-Lives now ttl life alive,
              ) in
              ((can_manage-IsSession owner q, held), ground arith, ground arith)
          | inr (e, bad) ↦ ground (arith, bad)
        ]
        | inr (e, bad) ↦ ground (arith, bad)
      ]
    ]

    pub verify_ok :
        (now : Time) (text email : String) (s : S)
        → (verify hash repo now text s).0 ≡ ok email
        → (is_token_text text ≡ true)
          × (t : Token) × ((repo.get_token (hash text) s).0 ≡ ok t)
          × (t.owner_email ≡ email)
          × (now < t.expires_at)
    unfolding verify accept
    verify_ok now text email s h = elim (Bool-cases (is_token_text text)) [
      | inr q ↦ cc
      | inl q ↦ elim (Result-cases (repo.get_token (hash text) s).0) [
        | inl (t, got) ↦ (q, t, got, ground (arith, got), ground (arith, got))
        | inr (e, bad) ↦ ground (arith, bad)
      ]
    ]

    pub verify_accepts :
        (now : Time) (text : String) (t : Token) (s : S)
        → is_token_text text ≡ true
        → (repo.get_token (hash text) s).0 ≡ ok t
        → now < t.expires_at
        → (verify hash repo now text s).0 ≡ ok t.owner_email
    unfolding verify accept
    verify_accepts now text t s q got h = rw q (rw got (ground arith))

    pub revoke_ok :
        (owner : Principal) (id : String) (s : S)
        → (revoke hash repo owner id s).0 ≡ ok tt
        → (can_manage owner ≡ true)
          × ((repo.delete_token owner.email id s).0 ≡ ok tt)
          × ((revoke hash repo owner id s).1 ≡ (repo.delete_token owner.email id s).1)
    unfolding revoke
    revoke_ok owner id s h = elim (Bool-cases (can_manage owner)) [
      | inr q ↦ cc
      | inl q ↦ elim (Result-cases (repo.delete_token owner.email id s).0) [
        | inl (t, done) ↦ (q, done, ground (arith, q))
        | inr (e, bad) ↦ ground (arith, bad)
      ]
    ]

    -- The state that a verification leaves: the last-used time of the token, or nothing, is written.
    pub verify_left :
        (now : Time) (text : String) (s : S)
        → ((verify hash repo now text s).1 ≡ s)
          ⊎ ((verify hash repo now text s).1 ≡ (repo.get_token (hash text) s).1)
          ⊎ ((t : Token) × ((repo.get_token (hash text) s).0 ≡ ok t)
              × (now < t.expires_at)
              × ((verify hash repo now text s).1
                  ≡ (repo.touch_token t.id now (repo.get_token (hash text) s).1).1))
    unfolding verify accept touch_if_due
    verify_left now text s = elim (Bool-cases (is_token_text text)) [
      | inr q ↦ inl (ground (arith, q))
      | inl q ↦ elim (Result-cases (repo.get_token (hash text) s).0) [
        | inl (t, got) ↦ elim (Bool-cases (ltb now t.expires_at)) [
          | inr late ↦ inr (inl (ground (arith, q, got, late)))
          | inl early ↦ elim (Bool-cases (due now t.last_used_at)) [
            | inr recent ↦ inr (inl (ground (arith, q, got, early, recent)))
            | inl stale ↦
                inr (inr (t, got, ground (arith, early), ground (arith, q, got, early, stale)))
          ]
        ]
        | inr (e, bad) ↦ inr (inl (ground (arith, q, bad)))
      ]
    ]
