-- ===== src/Tests/CommentBucket.antt =====
-- The comment repository over the bucket in memory.
use open_trove.Base.{
  ℕ, String, false, List, [], ◌∷◌, ◌≡◌, Result, ok, err, plain, is, arith, sym, ap, ◌==◌, eq_iff,
  Bool-cases, inl, inr, Option, none, some, Error, comment_not_found,
}
use native.Mathlib.Decide.{ℕ_discrete}
use open_trove.Base.Dict.{get}
use open_trove.Comments.{Comment}
use open_trove.Comments.Contract.{Contract}
use open_trove.Storage.S3.{GetOutput}
use open_trove.Storage.S3.Bucket.{Object}
use open_trove.Storage.S3.Codec.{Codec, IsCodec, read_json}
use open_trove.Storage.S3.Comments.{repository}
use open_trove.Storage.S3.Comments.Keys.{comments_in}
use open_trove.Storage.S3.Comments.Refines.{AreForeign, for_slugs, for_slugs-Refines}
use open_trove.Tests.Data.{root}
use open_trove.Tests.Bucket.{Objects, output_of, memory, memory-Bucket}

String-discrete : Discrete String
String-discrete s t = elim (Bool-cases (s == t)) [
  | inl same ↦ yes ((eq_iff s t).0 same)
  | inr other ↦ no (λ e. cc ((eq_iff s t).1 e, other))
]

Comment-discrete : Discrete Comment
Comment-discrete = hlevel (String-discrete, ℕ_discrete)

-- A codec for one comment and those that differ from it in the body.
abbrev written : (c : Comment) → Dec (c ≡ root) → Result (List ℕ)
written c (yes same) = ok (1 ∷ [])
written c (no other) = err (plain "another comment")

abbrev read_root : List ℕ → Result Comment
read_root (n ∷ []) = ok root
read_root _ = err (plain "no comment")

abbrev json : Codec Comment
json = record { marshal = λ c. written c (Comment-discrete c root); unmarshal = read_root }

written-read :
    (c : Comment) (d : Dec (c ≡ root)) (b : List ℕ) → written c d ≡ ok b → read_root b ≡ ok c
written-read c (yes same) [] h = absurd (cc h)
written-read c (yes same) (n ∷ []) h = ap ok (sym same)
written-read c (yes same) (n ∷ m ∷ b) h = absurd (cc h)
written-read c (no other) b h = absurd (cc h)

json-IsCodec : IsCodec json
json-IsCodec c b h = written-read c (Comment-discrete c root) b h

get_foreign : (o : Option Object) (e : Error) → output_of o ≡ err e → is e comment_not_found ≡ false
unfolding is
get_foreign none e h = ground (arith, h)
get_foreign (some o) e h = absurd (cc h)

abbrev reads : GetOutput → Result Comment
reads = read_json json "decoding comment" "closing comment"

read_foreign :
    (b : List ℕ) (out : GetOutput) (e : Error)
    → out.body ≡ ok b
    → out.closed ≡ ok tt
    → reads out ≡ err e
    → is e comment_not_found ≡ false
unfolding read_json is
read_foreign [] out e body shut h = ground (arith, body, shut, h)
read_foreign (n ∷ []) out e body shut h = absurd (ground (arith, body, shut, h))
read_foreign (n ∷ m ∷ b) out e body shut h = ground (arith, body, shut, h)

out_foreign :
    (o : Option Object) (out : GetOutput) (e : Error)
    → output_of o ≡ ok out
    → reads out ≡ err e
    → is e comment_not_found ≡ false
out_foreign none out e found h = absurd (cc found)
out_foreign (some o) out e found h =
    read_foreign o.bytes out e (ground (arith, found)) (ground (arith, found)) h

json-AreForeign : AreForeign json memory
json-AreForeign = record {
  of_get = λ key s e h. get_foreign (get key s) e h;
  of_read = λ key s out e found h. out_foreign (get key s) out e found h;
}

for_slugs-Refines_example :
    (contract : Contract (for_slugs (repository json memory 1))) × ((s : Objects)
      → contract.view s ≡ comments_in json (memory-Bucket.view s))
for_slugs-Refines_example =
    for_slugs-Refines json json-IsCodec memory memory-Bucket json-AreForeign 1
