-- ===== src/Auth/Tokens/Contract.antt =====
-- What the token service expects of the interface TokenRepository (auth/tokens.go), read through
-- a view of the stored tokens. A write that returns an error may have been made or not.
use open_trove.Base.{String, Bool, true, Option, none, some, ◌≡◌, ◌≢◌, ◌⊎◌, ◌==◌, if◌then◌else◌, ok}
use open_trove.Auth.Tokens.{Time, Token, TokenRepository}

abbrev pub View : Type 0
View = String → Option Token

abbrev pub Same : View → View → Type 0
Same v w = (id : String) → w id ≡ v id

abbrev pub Wrote : View → String → Token → View → Type 0
Wrote v id t w = (j : String) → w j ≡ (if id == j then some t else v j)

abbrev pub Removed : View → String → View → Type 0
Removed v id w = (j : String) → w j ≡ (if id == j then none else v j)

module _ {S : Type 0} where
  pub record Contract (repo : TokenRepository S) : Type 0 where
    pub view : S → View
    -- The repository's notion of the owner of a token.
    pub owns : String → Token → Bool
    pub get_keeps : (id : String) (s : S) → Same (view s) (view (repo.get_token id s).1)
    pub get_ok :
        (id : String) (s : S) (t : Token) → (repo.get_token id s).0 ≡ ok t → view s id ≡ some t
    pub create_result :
        (t : Token) (s : S)
        → ((view s t.id ≡ none) × Wrote (view s) t.id t (view (repo.create_token t s).1))
          ⊎ (Same (view s) (view (repo.create_token t s).1) × ((repo.create_token t s).0 ≢ ok tt))
    pub delete_result :
        (owner id : String) (s : S)
        → ((t : Token) × (view s id ≡ some t)
            × (owns owner t ≡ true)
            × Removed (view s) id (view (repo.delete_token owner id s).1))
          ⊎ (Same (view s) (view (repo.delete_token owner id s).1)
              × ((repo.delete_token owner id s).0 ≢ ok tt))
    -- Touching a token changes its last-used time at most, and revives none.
    pub touch_result :
        (id : String) (now : Time) (s : S)
        → ((t : Token) × (view s id ≡ some t)
            × Wrote
                (view s)
                id
                (record t { last_used_at = some now })
                (view (repo.touch_token id now s).1))
          ⊎ Same (view s) (view (repo.touch_token id now s).1)
