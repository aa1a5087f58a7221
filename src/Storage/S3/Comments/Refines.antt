-- ===== src/Storage/S3/Comments/Refines.antt =====
-- storage/s3.go refines the contract of comments/comments.go, method by method, for slugs without a
-- slash, which the keys of comments tell apart.
use open_trove.Base.{
  ℕ, String, true, false, none, some, ◌≡◌, ◌≢◌, refl, ◌⊎◌, inl, inr, Error, ok, err, is, plain,
  comment_not_found, arith, Bool-cases, Result-cases, if◌then◌else◌,
}
use open_trove.Base.Exec.{Exec, raise}
use open_trove.Comments.{Comment, Repository}
use open_trove.Comments.Contract.{View, Same, Wrote, Contract}
use open_trove.Storage.S3.{GetOutput, Client, is_missing, comment_key}
use open_trove.Storage.S3.Bucket.{Bucket}
use open_trove.Storage.S3.Codec.{Codec, IsCodec, read_json, read_json-eq-ok}
use open_trove.Storage.S3.Comments.{
  comment_put, put_comment, create_comment, update_comment, get_comment, repository,
}
use open_trove.Storage.S3.Comments.Keys.{
  has_slash, comments_in, comments_in-Same, comments_in-Wrote,
}

module _ {S : Type 0} where
  abbrev guarded : {A : Type 0} → String → Exec S A → Exec S A
  guarded slug m = if has_slash slug then raise (plain "the slug has a slash") else m

  -- The repository, asked for slugs without a slash only; a slug that validateSlug accepts has none.
  abbrev pub for_slugs : Repository S → Repository S
  for_slugs repo = record {
    create_comment = λ c. guarded c.slug (repo.create_comment c);
    update_comment = λ c. guarded c.slug (repo.update_comment c);
    get_comment = λ slug id. guarded slug (repo.get_comment slug id);
    list_comments = λ slug. guarded slug (repo.list_comments slug);
    delete_comments = λ slug. guarded slug (repo.delete_comments slug);
  }

  -- The errors of the client and of JSON are not ErrCommentNotFound, which is the program's own.
  pub record AreForeign (json : Codec Comment) (client : Client S) : Type 0 where
    pub of_get :
        (key : String) (s : S) (e : Error)
        → (client.get_object key "" s).0 ≡ err e
        → is e comment_not_found ≡ false
    pub of_read :
        (key : String) (s : S) (out : GetOutput) (e : Error)
        → (client.get_object key "" s).0 ≡ ok out
        → read_json json "decoding comment" "closing comment" out ≡ err e
        → is e comment_not_found ≡ false

module _ (json : Codec Comment) (is_codec : IsCodec json) {S : Type 0} (client : Client S)
    (bucket : Bucket client) (foreign : AreForeign json client) (pages : ℕ) where
  abbrev repo : Repository S
  repo = for_slugs (repository json client pages)

  view : S → View
  view s = comments_in json (bucket.view s)

  get_keeps : (slug id : String) (s : S) → Same (view s) (view (repo.get_comment slug id s).1)
  unfolding view get_comment
  get_keeps slug id s = elim (Bool-cases (has_slash slug)) [
    | inl deep ↦ rw deep (λ j k. refl)
    | inr flat ↦
        let kept = comments_in-Same json _ _ (bucket.get_keeps (comment_key slug id) "" s) in
        elim (Result-cases (client.get_object (comment_key slug id) "" s).0) [
          | inr (e, failed) ↦ rw flat (rw failed kept)
          | inl (out, got) ↦ rw flat (rw got kept)
        ]
  ]

  get_ok :
      (slug id : String) (s : S) (c : Comment)
      → (repo.get_comment slug id s).0 ≡ ok c
      → view s slug id ≡ some c
  unfolding view get_comment
  get_ok slug id s c h = elim (Bool-cases (has_slash slug)) [
    | inl deep ↦ absurd (ground (arith, deep, h))
    | inr flat ↦ elim (Result-cases (client.get_object (comment_key slug id) "" s).0) [
      | inr (e, failed) ↦ absurd (ground (arith, flat, failed, h))
      | inl (out, got) ↦
          let read : read_json json "decoding comment" "closing comment" out ≡ ok c =
            ground (arith, flat, got, h) in
          let (b, body, decoded) =
            read_json-eq-ok json "decoding comment" "closing comment" out c read in
          let (o, there, tag, same) = bucket.get_ok (comment_key slug id) s out got in
          ground (arith, flat, there, same b body, decoded)
    ]
  ]

  get_missing :
      (slug id : String) (s : S) (e : Error)
      → (repo.get_comment slug id s).0 ≡ err e
      → is e comment_not_found ≡ true
      → view s slug id ≡ none
  unfolding view get_comment is
  get_missing slug id s e h lost = elim (Bool-cases (has_slash slug)) [
    | inl deep ↦ rw deep refl
    | inr flat ↦ elim (Result-cases (client.get_object (comment_key slug id) "" s).0) [
      | inr (e', failed) ↦ elim (Bool-cases (is_missing e')) [
        | inl missing ↦
            let gone = bucket.get_missing (comment_key slug id) "" s e' failed missing in
            ground (arith, flat, gone)
        | inr other ↦ absurd (
            ground (
              arith,
              flat,
              failed,
              other,
              h,
              lost,
              foreign.of_get (comment_key slug id) s e' failed,
            ))
      ]
      | inl (out, got) ↦
          let read : read_json json "decoding comment" "closing comment" out ≡ err e =
            ground (arith, flat, got, h) in
          absurd (cc (foreign.of_read (comment_key slug id) s out e got read, lost))
    ]
  ]

  -- Both writes are one unconditional put.
  put_result :
      (operation : String) (c : Comment) (s : S)
      → has_slash c.slug ≡ false
      → Wrote (view s) c (view (put_comment json client operation c s).1)
        ⊎ (Same (view s) (view (put_comment json client operation c s).1)
            × ((put_comment json client operation c s).0 ≢ ok tt))
  unfolding view put_comment
  put_result operation c s flat = elim (Result-cases (json.marshal c)) [
    | inr (e, failed) ↦ inr (rw failed (λ j k. refl), rw failed (λ x. cc x))
    | inl (b, bytes) ↦ elim (bucket.put_result (comment_put c b) s) [
      | inl (_, wrote) ↦ inl (
          rw bytes
            (comments_in-Wrote json _ _ (comment_put c b) c flat refl (is_codec c b bytes) wrote))
      | inr (same, refused) ↦ inr (
        rw bytes (comments_in-Same json _ _ same),
        rw bytes (λ done. refused (ground (arith, done))),
      )
    ]
  ]

  write_result :
      (operation : String) (c : Comment) (s : S)
      → Wrote (view s) c (view (guarded c.slug (put_comment json client operation c) s).1)
        ⊎ (Same (view s) (view (guarded c.slug (put_comment json client operation c) s).1)
            × ((guarded c.slug (put_comment json client operation c) s).0 ≢ ok tt))
  write_result operation c s = elim (Bool-cases (has_slash c.slug)) [
    | inl deep ↦ inr (rw deep (λ j k. refl), rw deep (λ x. cc x))
    | inr flat ↦ rw flat (put_result operation c s flat)
  ]

  -- Over a bucket that behaves as S3 is documented to, with a JSON codec that reads back what it
  -- wrote and errors of both that are not ErrCommentNotFound, the comment repository on S3, asked
  -- for slugs without a slash only, meets the contract of the comment service: its comments are
  -- those whose objects the bucket holds.
  pub for_slugs-Refines :
      (contract : Contract repo) × ((s : S) → contract.view s ≡ comments_in json (bucket.view s))
  unfolding view create_comment update_comment
  for_slugs-Refines = (
    record {
      view = view;
      get_keeps = get_keeps;
      get_ok = get_ok;
      get_missing = get_missing;
      create_fresh = λ c s fresh. write_result "creating comment" c s;
      update_result = λ c s. write_result "updating comment" c s;
    },
    λ s. refl,
  )
