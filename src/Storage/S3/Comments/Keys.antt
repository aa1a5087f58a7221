-- ===== src/Storage/S3/Comments/Keys.antt =====
-- storage/s3.go: the keys of comments, and the comments that a bucket holds.
use Prim.Native.Char.{Char, code}
use Prim.Native.String.{[], ◌∷◌}
use open_trove.Base.{
  String, Bool, false, ◌==◌, Option, none, some, ◌≡◌, refl, ap, sym, ◌∙◌, eq_iff, if◌then◌else◌,
  Result, ok, err, arith, Bool-cases, inl, inr,
}
use open_trove.Base.Text.{append, contains_code}
use open_trove.Base.Text.Append.{append_cancel_left, append_cancel_right}
use open_trove.Comments.{Comment}
use open_trove.Comments.Contract.{View, Same, Wrote}
use open_trove.Storage.S3.{PutInput, with_json, comment_key}
use open_trove.Storage.S3.Bucket.{Object, put_as}
use open_trove.Storage.S3.Bucket as B
use open_trove.Storage.S3.Codec.{Codec}

abbrev pub has_slash : String → Bool
has_slash slug = contains_code slug 47

heads : (c d : Char) (s t : String) → ◌≡◌ {A = String} (c ∷ s) (d ∷ t) → c ≡ d
heads c d s t h = cc h

tails : (c d : Char) (s t : String) → ◌≡◌ {A = String} (c ∷ s) (d ∷ t) → s ≡ t
tails c d s t h = cc h

-- A text up to its first slash is found again.
up_to_slash :
    (s t x y : String)
    → has_slash s ≡ false
    → has_slash t ≡ false
    → append s (append "/" x) ≡ append t (append "/" y)
    → (s ≡ t) × (x ≡ y)
unfolding append contains_code
up_to_slash [] [] x y p q h = (refl, tails _ _ x y h)
up_to_slash [] (d ∷ t) x y p q h = absurd (ground (arith, ap code (heads _ _ _ _ h), q))
up_to_slash (c ∷ s) [] x y p q h = absurd (ground (arith, ap code (heads _ _ _ _ h), p))
up_to_slash (c ∷ s) (d ∷ t) x y p q h =
    let (same, rest) =
      up_to_slash s t x y (ground (arith, p)) (ground (arith, q)) (tails _ _ _ _ h) in
    (cc (same, heads _ _ _ _ h), rest)

-- Different slugs without a slash, or different identifiers, have different keys.
comment_key_injective :
    (slug id slug' id' : String)
    → has_slash slug ≡ false
    → has_slash slug' ≡ false
    → comment_key slug id ≡ comment_key slug' id'
    → (slug ≡ slug') × (id ≡ id')
comment_key_injective slug id slug' id' p q h =
    let (same, rest) =
      up_to_slash slug slug' (with_json id) (with_json id') p q
        (append_cancel_left "_comments/" _ _ h) in
    (same, append_cancel_right ".json" id id' rest)

abbrev comment_of : Result Comment → Option Comment
comment_of (ok c) = some c
comment_of (err e) = none

abbrev stored_comment : Codec Comment → Option Object → Option Comment
stored_comment json none = none
stored_comment json (some o) = comment_of (json.unmarshal o.bytes)

-- The comments that a bucket holds, under slugs without a slash.
abbrev pub comments_in : Codec Comment → B.View → View
comments_in json v slug id =
    if has_slash slug then none else stored_comment json (v (comment_key slug id))

module _ (json : Codec Comment) where
  pub comments_in-Same :
      (v w : B.View) → B.Same v w → Same (comments_in json v) (comments_in json w)
  comments_in-Same v w same slug id = ground (arith, same (comment_key slug id))

  pub comments_in-Wrote :
      (v w : B.View) (input : PutInput) (c : Comment)
      → has_slash c.slug ≡ false
      → input.key ≡ comment_key c.slug c.id
      → json.unmarshal input.body ≡ ok c
      → B.Wrote v input w
      → Wrote (comments_in json v) c (comments_in json w)
  comments_in-Wrote v w input c plain at read (etag, wrote) slug id =
      elim (Bool-cases (has_slash slug)) [
        | inl deep ↦ ground (arith, deep, plain, eq_iff c.slug slug)
        | inr flat ↦ elim (Bool-cases (input.key == comment_key slug id)) [
          | inl this ↦
              let (s, i) =
                comment_key_injective c.slug c.id slug id plain flat
                  (sym at ∙ (eq_iff input.key (comment_key slug id)).0 this) in
              ground (
                arith,
                wrote (comment_key slug id),
                this,
                flat,
                read,
                s,
                i,
                eq_iff c.slug slug,
                eq_iff c.id id,
              )
          | inr other ↦ ground (
            arith,
            wrote (comment_key slug id),
            other,
            flat,
            at,
            eq_iff c.slug slug,
            eq_iff c.id id,
            eq_iff input.key (comment_key slug id),
          )
        ]
      ]
