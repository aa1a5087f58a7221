-- ===== src/Storage/S3/Codec.antt =====
-- JSON, which the store writes its records in: a parameter for each type of record.
use open_trove.Base.{
  ℕ, List, String, ◌≡◌, Result, ok, err, wrap, Outcome, Result-cases, inl, inr, arith,
}
use open_trove.Storage.S3.{GetOutput}

-- json.Marshal and json.Unmarshal at one type.
pub record Codec (A : Type 0) : Type 0 where
  pub marshal : A → Result (List ℕ)
  pub unmarshal : List ℕ → Result A

module _ {A : Type 0} where
  -- What is read back is what was written.
  abbrev pub IsCodec : Codec A → Type 0
  IsCodec json = (a : A) (b : List ℕ) → json.marshal a ≡ ok b → json.unmarshal b ≡ ok a

  abbrev unmarshalled : Codec A → Result (List ℕ) → Result A
  unmarshalled json (ok bytes) = json.unmarshal bytes
  unmarshalled json (err e) = err e

  abbrev after_close : String → String → Outcome → Result A → Result A
  after_close decoding closing closed (err e) = err (wrap decoding e)
  after_close decoding closing (err e) (ok a) = err (wrap closing e)
  after_close decoding closing (ok _) (ok a) = ok a

  -- A record read from a body, which is closed before either error is looked at.
  unfoldable pub read_json : Codec A → String → String → GetOutput → Result A
  read_json json decoding closing out =
      after_close decoding closing out.closed (unmarshalled json out.body)

  pub read_json-eq-ok :
      (json : Codec A) (decoding closing : String) (out : GetOutput) (a : A)
      → read_json json decoding closing out ≡ ok a
      → (b : List ℕ) × (out.body ≡ ok b) × (json.unmarshal b ≡ ok a)
  unfolding read_json
  read_json-eq-ok json decoding closing out a h = elim (Result-cases out.body) [
    | inr (e, failed) ↦ absurd (ground (arith, failed, h))
    | inl (b, got) ↦ elim (Result-cases (json.unmarshal b)) [
      | inr (e, failed) ↦ absurd (ground (arith, got, failed, h))
      | inl (x, decoded) ↦ elim (Result-cases out.closed) [
        | inr (e, failed) ↦ absurd (ground (arith, got, decoded, failed, h))
        | inl (_, shut) ↦ (b, got, ground (arith, got, decoded, shut, h))
      ]
    ]
  ]
