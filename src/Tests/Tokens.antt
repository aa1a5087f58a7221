-- ===== src/Tests/Tokens.antt =====
-- The token service over the in-memory store. The hash is the identity here.
use open_trove.Base.{
  ℕ, ◌<◌, String, true, none, some, List, [], ◌∷◌, ◌≡◌, ◌≢◌, refl, ◌⊎◌, ok, arith, ◌==◌,
}
use open_trove.Base.Int.{pos}
use open_trove.Base.Dict.{get, put, without}
use open_trove.Base.Base64.{encode, decode}
use open_trove.Base.Text.{trim_space, has_prefix, trim_prefix, drop_prefix, append}
use open_trove.Auth.Tokens.{
  Token, create, verify, revoke, is_token_text, can_manage, checked_name, checked_ttl, token_prefix,
  accept,
}
use open_trove.Auth.Tokens.Contract.{Wrote, Removed}
use open_trove.Auth.Tokens.Calls.{IsIssued}
use open_trove.Auth.Tokens.Laws.{
  verify_sound, create-IsIssued, revoke-Removed, verify-create, verify-keeps,
}
use open_trove.Fake.{Store, new_store}
use open_trove.Fake.TokenStore.{
  repository, view, fake_Contract, create_token, get_token, delete_token,
}
use open_trove.Tests.Data.{ada}

abbrev hash : String → String
hash text = text

abbrev blank : List ℕ → List ℕ
blank bytes = 0 ∷ 0 ∷ 0 ∷ 0 ∷ bytes

abbrev zeros : List ℕ
zeros = blank (blank (blank (blank (blank (blank (blank (blank [])))))))

abbrev text : String
text = "trv_AAAAAAAAAAAAAAAAAAAAAAAAAAAAAAAAAAAAAAAAAAA"

abbrev minted : Token
minted = record {
  id = text;
  owner_email = "ada@x";
  name = "laptop";
  created_at = 10;
  expires_at = 3610;
  last_used_at = none;
}

abbrev stored : Store
stored = record new_store { tokens = (text, minted) ∷ [] }

-- The text is the prefix and the encoded bytes.
text_test : append token_prefix (encode zeros) ≡ text
unfolding append encode
text_test = refl

verify_sound_example :
    (is_token_text text ≡ true)
    × (t : Token) × (view stored text ≡ some t)
    × (t.owner_email ≡ "ada@x")
    × (20 < t.expires_at)
unfolding verify accept fake_Contract view get_token get decode is_token_text has_prefix trim_prefix
    drop_prefix
verify_sound_example =
    verify_sound hash (repository (λ d. d)) (fake_Contract (λ d. d)) 20 text "ada@x" stored refl

create-IsIssued_example :
    IsIssued hash 10 zeros ada " laptop " (pos 3600) text minted
    × (view new_store text ≡ none)
    × Wrote (view new_store) text minted (
        view
          (create hash (repository (λ d. d)) 10 (ok zeros) ada " laptop " (pos 3600) new_store).1)
unfolding create view fake_Contract create_token get encode append can_manage checked_name
    checked_ttl trim_space
create-IsIssued_example =
    create-IsIssued hash (repository (λ d. d)) (fake_Contract (λ d. d)) 10 zeros ada " laptop "
      (pos 3600) new_store text minted refl

revoke-Removed_example :
    ((t : Token) × (view stored text ≡ some t) × ((t.owner_email == "ada@x") ≡ true))
    × Removed (view stored) text (view (revoke hash (repository (λ d. d)) ada text stored).1)
    × ((hash text ≢ text)
        ⊎ ((verify hash
              (repository (λ d. d))
              20
              text
              (revoke hash (repository (λ d. d)) ada text stored).1).0
            ≢ ok "ada@x"))
unfolding revoke fake_Contract view delete_token get can_manage
revoke-Removed_example =
    revoke-Removed hash (repository (λ d. d)) (fake_Contract (λ d. d)) ada text 20 text "ada@x"
      stored refl

verify-create_example :
    (verify hash
      (repository (λ d. d))
      3000
      text
      (create hash (repository (λ d. d)) 10 (ok zeros) ada " laptop " (pos 3600) new_store).1).0
    ≡ ok "ada@x"
unfolding create view fake_Contract create_token get_token get put without encode append can_manage
    checked_name checked_ttl trim_space
verify-create_example =
    verify-create hash (repository (λ d. d)) (fake_Contract (λ d. d)) 10 3000 zeros ada " laptop "
      (pos 3600) new_store text minted minted (ground arith) refl refl refl (ground arith)

verify-keeps_example :
    (view (verify hash (repository (λ d. d)) 20 text stored).1 text ≡ view stored text)
    ⊎ ((t : Token) × (view stored text ≡ some t)
        × (view (verify hash (repository (λ d. d)) 20 text stored).1 text
            ≡ some (record t { last_used_at = some 20 })))
unfolding fake_Contract view
verify-keeps_example =
    verify-keeps hash (repository (λ d. d)) (fake_Contract (λ d. d)) 20 text text stored
