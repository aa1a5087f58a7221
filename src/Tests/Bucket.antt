-- ===== src/Tests/Bucket.antt =====
-- A bucket in memory, which behaves as S3 is documented to, and the token repository over it.
use open_trove.Base.{
  ℕ, String, Bool, true, false, not, ◌&&◌, ◌==◌, Option, none, some, is_some, List, [], ◌∷◌, ◌≡◌,
  ◌≢◌, refl, sym, ap, ◌⊎◌, inl, inr, eq_iff, if◌then◌else◌, Error, Result, ok, err, api, plain,
  arith, Bool-cases,
}
use open_trove.Base.Text.{is_empty, append, equal_fold}
use open_trove.Base.Dict.{Dict, get, put, without, get-put, get-without}
use open_trove.Base.Exec.{Exec}
use open_trove.Auth.Tokens.{Token}
use open_trove.Auth.Tokens.Contract.{Contract}
use open_trove.Storage.S3.{PutInput, GetOutput, HeadOutput, Client, valid_token_id}
use open_trove.Storage.S3.Bucket.{Object, Bucket, Allows, Wrote, Same, put_as}
use open_trove.Storage.S3.Codec.{Codec, IsCodec}
use open_trove.Storage.S3.Tokens.{create_token, repository}
use open_trove.Storage.S3.Tokens.Laws.{tokens_in}
use open_trove.Storage.S3.Tokens.Refines.{repository-Refines}
use open_trove.Tests.Data.{caseless}

abbrev pub Objects : Type 0
Objects = Dict Object

-- An object's tag is that of the bytes' number; here all are the same.
abbrev matching : String → Option Object → Bool
matching wanted none = false
matching wanted (some o) = o.etag == wanted

abbrev permits : PutInput → Option Object → Bool
permits input o =
    not (input.if_none_match && is_some o)
    && (if is_empty input.if_match then true else matching input.if_match o)

abbrev put_object : PutInput → Exec Objects (Unit {0})
put_object input s =
    if permits input (get input.key s)
    then (ok tt, put input.key (put_as input "e") s)
    else (err (api "PreconditionFailed"), s)

abbrev pub output_of : Option Object → Result GetOutput
output_of none = err (api "NoSuchKey")
output_of (some o) = ok (record {
  body = ok o.bytes;
  closed = ok tt;
  content_type = o.content_type;
  metadata = o.metadata;
  etag = o.etag;
  content_range = none;
  content_length = 0;
})

abbrev head_of : Option Object → Result HeadOutput
head_of none = err (api "NotFound")
head_of (some o) =
    ok (record { content_type = o.content_type; metadata = o.metadata; etag = o.etag })

abbrev pub memory : Client Objects
memory = record {
  put_object = put_object;
  get_object = λ key range s. (output_of (get key s), s);
  delete_object = λ key s. (ok tt, without key s);
  head_object = λ key s. (head_of (get key s), s);
  list_objects =
      λ prefix token s. (ok (record { keys = []; is_truncated = false; next_token = none }), s);
}

permits-Allows : (input : PutInput) (o : Option Object) → permits input o ≡ true → Allows input o
permits-Allows input none h = record {
  fresh = λ asked. refl;
  current = λ asked. absurd (ground (arith, asked, h));
}
permits-Allows input (some o) h = record {
  fresh = λ asked. absurd (ground (arith, asked, h));
  current = λ asked. (o, refl, ground (arith, asked, h, eq_iff o.etag input.if_match));
}

put_result :
    (input : PutInput) (s : Objects)
    → (Allows input (get input.key s)
        × Wrote (λ k. get k s) input (λ k. get k (put_object input s).1))
      ⊎ (Same (λ k. get k s) (λ k. get k (put_object input s).1) × ((put_object input s).0 ≢ ok tt))
put_result input s = elim (Bool-cases (permits input (get input.key s))) [
  | inl allowed ↦ inl (
    permits-Allows input (get input.key s) allowed,
    rw allowed ("e", λ key. get-put input.key key (put_as input "e") s),
  )
  | inr refusal ↦ inr (rw refusal (λ k. refl), rw refusal (λ e. cc e))
]

output-missing : (o : Option Object) (e : Error) → output_of o ≡ err e → o ≡ none
output-missing none e h = refl
output-missing (some o) e h = cc h

output-found :
    (o : Option Object) (out : GetOutput)
    → output_of o ≡ ok out
    → (p : Object) × (o ≡ some p)
      × (out.etag ≡ p.etag)
      × ((b : List ℕ) → out.body ≡ ok b → b ≡ p.bytes)
output-found none out h = cc h
output-found (some p) out h = (p, refl, ground (arith, h), λ b e. ground (arith, h, e))

pub memory-Bucket : Bucket memory
memory-Bucket = record {
  view = λ s k. get k s;
  get_keeps = λ key range s k. refl;
  get_ok = λ key s. output-found (get key s);
  get_missing = λ key range s e h missing. output-missing (get key s) e h;
  put_result = put_result;
  delete_result = λ key s. inl (λ k. get-without key k s);
}

abbrev token_id : String
token_id = "00000000000000000000000000000000000000000000000000000000000000aa"

-- A codec for the tokens of one name and owner.
abbrev is_sample : Token → Bool
is_sample t = t.id == token_id && t.owner_email == "ada@x" && t.name == "laptop"

abbrev tail_of : Option ℕ → List ℕ
tail_of none = []
tail_of (some n) = n ∷ []

abbrev last_of : List ℕ → Option ℕ
last_of [] = none
last_of (n ∷ rest) = some n

abbrev sample : ℕ → ℕ → Option ℕ → Token
sample created expires last = record {
  id = token_id;
  owner_email = "ada@x";
  name = "laptop";
  created_at = created;
  expires_at = expires;
  last_used_at = last;
}

abbrev read_sample : List ℕ → Result Token
read_sample (created ∷ expires ∷ last) = ok (sample created expires (last_of last))
read_sample _ = err (plain "no token")

abbrev json : Codec Token
json = record {
  marshal = λ t.
      if is_sample t
      then ok (t.created_at ∷ t.expires_at ∷ tail_of t.last_used_at)
      else err (plain "no sample");
  unmarshal = read_sample;
}

last_of-tail_of : (o : Option ℕ) → last_of (tail_of o) ≡ o
last_of-tail_of none = refl
last_of-tail_of (some n) = refl

json-IsCodec : IsCodec json
json-IsCodec t b h = elim (Bool-cases (is_sample t)) [
  | inr other ↦ absurd (cc (rw other at h))
  | inl good ↦
      let same : t.created_at ∷ t.expires_at ∷ tail_of t.last_used_at ≡ b =
        ground (arith, rw good at h) in
      let named : t ≡ sample t.created_at t.expires_at t.last_used_at =
        ground (
          arith,
          good,
          eq_iff t.id token_id,
          eq_iff t.owner_email "ada@x",
          eq_iff t.name "laptop",
        ) in
      rw⁻¹ same (rw (last_of-tail_of t.last_used_at) (ap ok (sym named)))
]

repository-Refines_example :
    (contract : Contract (repository caseless (λ s. s) json memory 1)) × ((s : Objects)
      → contract.view s ≡ tokens_in json (λ k. get k s))
    × ((owner : String) (t : Token)
        → contract.owns owner t ≡ equal_fold caseless t.owner_email owner)
unfolding get memory-Bucket
repository-Refines_example =
    repository-Refines caseless (λ s. s) json json-IsCodec memory memory-Bucket 1

create_token_test : (create_token caseless (λ s. s) json memory (sample 1 2 none) []).0 ≡ ok tt
unfolding create_token get put without append valid_token_id
create_token_test = refl
