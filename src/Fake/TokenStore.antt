-- ===== src/Fake/TokenStore.antt =====
-- storage/fake/tokens.go: the methods of the token repository, and that they meet its contract.
use open_trove.Base.{
  String, Option, none, some, List, [], ◌∷◌, refl, inl, inr, ◌==◌, not, if◌then◌else◌, ok, err,
  Result, sentinel, token_not_found, token_exists, arith, Option-cases, Bool-cases, ltb,
}
use open_trove.Base.Dict.{get, put, without, get-put, get-without, Dict}
use open_trove.Base.Exec.{Exec}
use open_trove.Base.Sort.{sort}
use open_trove.Auth.Tokens.{Time, Token, TokenRepository}
use open_trove.Auth.Tokens.Contract.{View, Contract}
use open_trove.Fake.{Store}

abbrev create_if : Token → Option Token → Exec Store (Unit {0})
create_if t (some u) s = (err (sentinel token_exists), s)
create_if t none s = (ok tt, record s { tokens = put t.id t s.tokens })

unfoldable pub create_token : Token → Exec Store (Unit {0})
create_token t s = create_if t (get t.id s.tokens) s

abbrev found_or_missing : Option Token → Result Token
found_or_missing none = err (sentinel token_not_found)
found_or_missing (some t) = ok t

unfoldable pub get_token : String → Exec Store Token
get_token id s = (found_or_missing (get id s.tokens), s)

owned : String → Dict Token → List Token
owned owner [] = []
owned owner ((id, t) ∷ d) =
    let rest = owned owner d in if t.owner_email == owner then t ∷ rest else rest

-- `range` is the order in which the loop visits the map.
unfoldable pub list_tokens : (Dict Token → Dict Token) → String → Exec Store (List Token)
unfolding owned
list_tokens range owner s =
    (ok (sort (λ t u. ltb u.created_at t.created_at) (owned owner (range s.tokens))), s)

abbrev delete_if : String → String → Option Token → Exec Store (Unit {0})
delete_if owner id none s = (err (sentinel token_not_found), s)
delete_if owner id (some t) s =
    if not (t.owner_email == owner)
    then (err (sentinel token_not_found), s)
    else (ok tt, record s { tokens = without id s.tokens })

unfoldable pub delete_token : String → String → Exec Store (Unit {0})
delete_token owner id s = delete_if owner id (get id s.tokens) s

abbrev touch_if : String → Time → Option Token → Exec Store (Unit {0})
touch_if id now none s = (err (sentinel token_not_found), s)
touch_if id now (some t) s =
    (ok tt, record s { tokens = put id (record t { last_used_at = some now }) s.tokens })

unfoldable pub touch_token : String → Time → Exec Store (Unit {0})
touch_token id now s = touch_if id now (get id s.tokens) s

abbrev pub repository : (Dict Token → Dict Token) → TokenRepository Store
repository range = record {
  create_token = create_token;
  get_token = get_token;
  list_tokens = list_tokens range;
  delete_token = delete_token;
  touch_token = touch_token;
}

unfoldable pub view : Store → View
view s id = get id s.tokens

unfoldable pub fake_Contract : (range : Dict Token → Dict Token) → Contract (repository range)
unfolding view create_token get_token delete_token touch_token
fake_Contract range = record {
  view = view;
  owns = λ owner t. t.owner_email == owner;
  get_keeps = λ id s j. refl;
  get_ok = λ id s t h. ground arith;
  create_result = λ t s. elim (Option-cases (get t.id s.tokens)) [
    | inl free ↦ inl (free, λ j. ground (arith, free, get-put t.id j t s.tokens))
    | inr (u, taken) ↦ inr (rw taken (λ j. refl), rw taken (λ e. cc e))
  ];
  delete_result = λ owner id s. elim (Option-cases (get id s.tokens)) [
    | inl missing ↦ inr (rw missing (λ j. refl), rw missing (λ e. cc e))
    | inr (t, there) ↦ elim (Bool-cases (t.owner_email == owner)) [
      | inl his ↦ inl (t, there, his, λ j. ground (arith, there, his, get-without id j s.tokens))
      | inr another ↦
          inr ((λ j. ground (arith, there, another)), λ e. ground (arith, there, another, e))
    ]
  ];
  touch_result = λ id now s. elim (Option-cases (get id s.tokens)) [
    | inl missing ↦ inr (rw missing (λ j. refl))
    | inr (t, there) ↦ inl (
      t,
      there,
      λ j. ground (arith, there, get-put id j (record t { last_used_at = some now }) s.tokens),
    )
  ];
}
