-- ===== src/Storage/S3/Tokens/Refines.antt =====
-- storage/s3_tokens.go refines the contract of auth/tokens.go, method by method.
use open_trove.Base.{
  ℕ, String, Bool, true, none, some, List, ◌≡◌, ◌≢◌, refl, ◌∙◌, ◌⊎◌, inl, inr, ok, arith,
  Bool-cases, Result-cases,
}
use open_trove.Base.Text.{append, Unicode, equal_fold}
use open_trove.Auth.Tokens.{Time, Token}
use open_trove.Auth.Tokens.Contract.{View, Same, Wrote, Removed, Contract}
use open_trove.Storage.S3.{PutInput, Client, token_key, token_owner_prefix, valid_token_id}
use open_trove.Storage.S3.Bucket.{Object, Bucket}
use open_trove.Storage.S3.Bucket as B
use open_trove.Storage.S3.Codec.{Codec, IsCodec, read_json, read_json-eq-ok}
use open_trove.Storage.S3.Tokens.{
  json_put, marker_put, create_token, get_record, get_token, delete_token, touch_token, repository,
}
use open_trove.Storage.S3.Tokens.Laws.{
  tokens_in, tokens_in-Same, tokens_in-Wrote, tokens_in-other, tokens_in-Deleted,
  tokens_in-other-Deleted, marker-token_key,
}

module _ (u : Unicode) (digest : String → String) (json : Codec Token) (is_codec : IsCodec json)
    {S : Type 0} (client : Client S) (bucket : Bucket client) where
  view : S → View
  view s = tokens_in json (bucket.view s)

  get_record-keeps :
      (id : String) (s : S) → Same (view s) (view (get_record u digest json client id s).1)
  unfolding get_record view
  get_record-keeps id s = elim (Bool-cases (valid_token_id id)) [
    | inr bad ↦ rw bad (λ j. refl)
    | inl good ↦ elim (Result-cases (client.get_object (token_key id) "" s).0) [
      | inr (e, failed) ↦
          rw good (rw failed (tokens_in-Same json _ _ (bucket.get_keeps (token_key id) "" s)))
      | inl (out, got) ↦ elim (Result-cases (read_json json "decoding token" "closing token" out)) [
        | inr (e, failed) ↦
            rw good
              (rw got (rw failed (tokens_in-Same json _ _ (bucket.get_keeps (token_key id) "" s))))
        | inl (t, read) ↦
            rw good
              (rw got (rw read (tokens_in-Same json _ _ (bucket.get_keeps (token_key id) "" s))))
      ]
    ]
  ]

  get_record-eq-ok :
      (id : String) (s : S) (t : Token) (etag : String)
      → (get_record u digest json client id s).0 ≡ ok (t, etag)
      → (view s id ≡ some t)
        × (valid_token_id id ≡ true)
        × (o : Object) × (bucket.view s (token_key id) ≡ some o)
        × (etag ≡ o.etag)
  unfolding get_record view
  get_record-eq-ok id s t etag h = elim (Bool-cases (valid_token_id id)) [
    | inr bad ↦ absurd (ground (arith, bad, h))
    | inl good ↦ elim (Result-cases (client.get_object (token_key id) "" s).0) [
      | inr (e, failed) ↦ absurd (ground (arith, good, failed, h))
      | inl (out, got) ↦ elim (Result-cases (read_json json "decoding token" "closing token" out)) [
        | inr (e, failed) ↦ absurd (ground (arith, good, got, failed, h))
        | inl (t', read) ↦
            let (b, body, decoded) =
              read_json-eq-ok json "decoding token" "closing token" out t' read in
            let (o, there, tag, same) = bucket.get_ok (token_key id) s out got in
            (
              ground (arith, good, got, read, h, there, same b body, decoded),
              good,
              o,
              there,
              ground (arith, good, got, read, h, tag),
            )
      ]
    ]
  ]

  get_token-keeps :
      (id : String) (s : S) → Same (view s) (view (get_token u digest json client id s).1)
  unfolding get_token
  get_token-keeps id s j = ground (arith, get_record-keeps id s j)

  get_token-eq-ok :
      (id : String) (s : S) (t : Token)
      → (get_token u digest json client id s).0 ≡ ok t
      → (view s id ≡ some t) × (valid_token_id id ≡ true)
  unfolding get_token
  get_token-eq-ok id s t h = elim (Result-cases (get_record u digest json client id s).0) [
    | inr (e, failed) ↦ absurd (ground (arith, failed, h))
    | inl ((t', etag), got) ↦
        let (there, valid, rest, _, _) = get_record-eq-ok id s t' etag got in
        (ground (arith, there, got, h), valid)
  ]

  marker_put-keeps :
      (owner id : String) (s : S)
      → Same
          (view s)
          (view (client.put_object (marker_put (append (token_owner_prefix digest owner) id)) s).1)
  unfolding view
  marker_put-keeps owner id s =
      elim (bucket.put_result (marker_put (append (token_owner_prefix digest owner) id)) s) [
        | inl (_, wrote) ↦
            tokens_in-other json _ _ (marker_put (append (token_owner_prefix digest owner) id))
              (marker-token_key digest owner id) wrote
        | inr (same, _) ↦ tokens_in-Same json _ _ same
      ]

  marker_delete-keeps :
      (owner id : String) (s : S)
      → Same
          (view s)
          (view (client.delete_object (append (token_owner_prefix digest owner) id) s).1)
  unfolding view
  marker_delete-keeps owner id s =
      elim (bucket.delete_result (append (token_owner_prefix digest owner) id) s) [
        | inl deleted ↦
            tokens_in-other-Deleted json _ _ _ (marker-token_key digest owner id) deleted
        | inr (same, _) ↦ tokens_in-Same json _ _ same
      ]

  abbrev record_put : Token → List ℕ → PutInput
  record_put t bytes = record (json_put (token_key t.id) bytes) { if_none_match = true }

  create_token_result :
      (t : Token) (s : S)
      → ((view s t.id ≡ none)
          × Wrote (view s) t.id t (view (create_token u digest json client t s).1))
        ⊎ (Same (view s) (view (create_token u digest json client t s).1)
            × ((create_token u digest json client t s).0 ≢ ok tt))
  unfolding create_token
  create_token_result t s = elim (Bool-cases (valid_token_id t.id)) [
    | inr bad ↦ inr (rw bad (λ j. refl), rw bad (λ e. cc e))
    | inl good ↦ elim (Result-cases (json.marshal t)) [
      | inr (e, failed) ↦ inr (rw good (rw failed (λ j. refl)), rw good (rw failed (λ x. cc x)))
      | inl (b, bytes) ↦ elim (Result-cases (client.put_object (record_put t b) s).0) [
        | inr (e, failed) ↦ elim (bucket.put_result (record_put t b) s) [
          | inr (same, _) ↦ inr (
            rw good (rw bytes (rw failed (unfold view in tokens_in-Same json _ _ same))),
            rw good (rw bytes (rw failed (λ x. cc x))),
          )
          | inl (allows, wrote) ↦
              inl (free good b allows, rw good (rw bytes (rw failed (written good b bytes wrote))))
        ]
        | inl (_, done) ↦ elim (bucket.put_result (record_put t b) s) [
          | inr (same, refused) ↦ absurd (refused done)
          | inl (allows, wrote) ↦ inl (
            free good b allows,
            rw good (
                rw bytes (
                  rw done (λ j.
                    marker_put-keeps t.owner_email t.id (client.put_object (record_put t b) s).1 j
                    ∙ written good b bytes wrote j))),
          )
        ]
      ]
    ]
  ]
    where
      free :
          valid_token_id t.id ≡ true
          → (b : List ℕ) → B.Allows (record_put t b) (bucket.view s (token_key t.id))
          → view s t.id ≡ none
      free good b allows = unfold view in ground (arith, good, allows.fresh refl)

      written :
          valid_token_id t.id ≡ true
          → (b : List ℕ) → json.marshal t ≡ ok b
          → B.Wrote
              (bucket.view s)
              (record_put t b)
              (bucket.view (client.put_object (record_put t b) s).1)
          → Wrote (view s) t.id t (view (client.put_object (record_put t b) s).1)
      written good b bytes wrote =
          unfold view in
          tokens_in-Wrote json _ _ (record_put t b) t.id t refl good (is_codec t b bytes) wrote

  owned_by : String → Token → Bool
  owned_by owner t = equal_fold u t.owner_email owner

  delete_token_result :
      (owner id : String) (s : S)
      → ((t : Token) × (view s id ≡ some t)
          × (owned_by owner t ≡ true)
          × Removed (view s) id (view (delete_token u digest json client owner id s).1))
        ⊎ (Same (view s) (view (delete_token u digest json client owner id s).1)
            × ((delete_token u digest json client owner id s).0 ≢ ok tt))
  unfolding delete_token owned_by view
  delete_token_result owner id s = elim (Result-cases (get_token u digest json client id s).0) [
    | inr (e, failed) ↦ inr (rw failed (get_token-keeps id s), rw failed (λ x. cc x))
    | inl (t, got) ↦
        let (there, valid) = get_token-eq-ok id s t got in
        let s1 = (get_token u digest json client id s).1 in
        elim (Bool-cases (equal_fold u t.owner_email owner)) [
          | inr another ↦
              inr (rw got (rw another (get_token-keeps id s)), rw got (rw another (λ x. cc x)))
          | inl his ↦ elim (Result-cases (client.delete_object (token_key id) s1).0) [
            | inr (e, failed) ↦ elim (bucket.delete_result (token_key id) s1) [
              | inl gone ↦ inl (t, there, his, rw got (rw his (rw failed (removed valid gone))))
              | inr (same, _) ↦ inr (
                rw got (
                    rw his
                      (rw failed (λ j. tokens_in-Same json _ _ same j ∙ get_token-keeps id s j))),
                rw got (rw his (rw failed (λ x. cc x))),
              )
            ]
            | inl (_, done) ↦ elim (bucket.delete_result (token_key id) s1) [
              | inr (same, refused) ↦ absurd (refused done)
              | inl gone ↦ inl (
                t,
                there,
                his,
                rw got (
                    rw his (
                      rw done (λ j.
                        marker_delete-keeps t.owner_email id
                          (client.delete_object (token_key id) s1).1 j
                        ∙ removed valid gone j))),
              )
            ]
          ]
        ]
  ]
    where
      removed :
          valid_token_id id ≡ true
          → B.Deleted (bucket.view (get_token u digest json client id s).1) (token_key id) (
              bucket.view
                (client.delete_object (token_key id) (get_token u digest json client id s).1).1)
          → Removed
              (view s)
              id
              (view (client.delete_object (token_key id) (get_token u digest json client id s).1).1)
      removed valid gone j =
          let s1 = (get_token u digest json client id s).1 in
          let out : Removed (view s1) id (view (client.delete_object (token_key id) s1).1) =
            unfold view in tokens_in-Deleted json _ _ id valid gone in
          ground (arith, out j, get_token-keeps id s j)

  abbrev swap_put : String → List ℕ → String → PutInput
  swap_put id bytes etag = record (json_put (token_key id) bytes) { if_match = etag }

  touch_token_result :
      (id : String) (now : Time) (s : S)
      → ((t : Token) × (view s id ≡ some t)
          × Wrote
              (view s)
              id
              (record t { last_used_at = some now })
              (view (touch_token u digest json client id now s).1))
        ⊎ Same (view s) (view (touch_token u digest json client id now s).1)
  unfolding touch_token view
  touch_token_result id now s = elim (Result-cases (get_record u digest json client id s).0) [
    | inr (e, failed) ↦ inr (rw failed (get_record-keeps id s))
    | inl ((t, etag), got) ↦
        let (there, valid, _, _, _) = get_record-eq-ok id s t etag got in
        elim (Result-cases (json.marshal (record t { last_used_at = some now }))) [
          | inr (e, failed) ↦ inr (rw got (rw failed (get_record-keeps id s)))
          | inl (b, bytes) ↦
              let s1 = (get_record u digest json client id s).1 in
              elim (bucket.put_result (swap_put id b etag) s1) [
                | inl (_, wrote) ↦
                    inl (t, there, rw got (rw bytes (written t b etag valid bytes wrote)))
                | inr (same, _) ↦ inr (
                    rw got
                      (rw bytes (λ j. tokens_in-Same json _ _ same j ∙ get_record-keeps id s j)))
              ]
        ]
  ]
    where
      written :
          (t : Token) (b : List ℕ) (etag : String)
          → valid_token_id id ≡ true
          → json.marshal (record t { last_used_at = some now }) ≡ ok b
          → B.Wrote (bucket.view (get_record u digest json client id s).1) (swap_put id b etag) (
              bucket.view
                (client.put_object (swap_put id b etag) (get_record u digest json client id s).1).1)
          → Wrote
              (view s)
              id
              (record t { last_used_at = some now })
              (view
                (client.put_object (swap_put id b etag) (get_record u digest json client id s).1).1)
      written t b etag valid bytes wrote j =
          let s1 = (get_record u digest json client id s).1 in
          let out : Wrote (view s1) id (record t { last_used_at = some now })
              (view (client.put_object (swap_put id b etag) s1).1) =
            unfold view in
            tokens_in-Wrote json _ _ (swap_put id b etag) id _ refl valid (is_codec _ b bytes)
              wrote in
          ground (arith, out j, get_record-keeps id s j)

  -- Over a bucket that behaves as S3 is documented to, and with a JSON codec that reads back what
  -- it wrote, the token repository on S3 meets the contract of the token service: its tokens are
  -- those whose records the bucket holds, and an owner is compared without regard to case.
  pub repository-Refines :
      (pages : ℕ)
      → (contract : Contract (repository u digest json client pages)) × ((s : S)
          → contract.view s ≡ tokens_in json (bucket.view s))
        × ((owner : String) (t : Token) → contract.owns owner t ≡ equal_fold u t.owner_email owner)
  unfolding view owned_by
  repository-Refines pages = (
    record {
      view = view;
      owns = owned_by;
      get_keeps = get_token-keeps;
      get_ok = λ id s t h. (get_token-eq-ok id s t h).0;
      create_result = create_token_result;
      delete_result = delete_token_result;
      touch_result = touch_token_result;
    },
    (λ s. refl),
    λ owner t. refl,
  )
