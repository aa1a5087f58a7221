-- ===== src/Intake/Anthropic/Laws.antt =====
-- intake/anthropic.go: where a verdict comes from.
use mathlib.Core.Bool.{decide}
use open_trove.Base.{
  ℕ, String, true, Option, none, some, List, [], ◌∷◌, In, eqb, is, eq_iff, ◌≡◌, refl, ◌⊎◌, inl, inr,
  Bool-cases, Option-cases, Result-cases, Result, ok, err, Error, inspector_failed, arith,
}
use open_trove.Base.Int.{ℤ}
use open_trove.Base.Text.{is_empty, has_prefix, Unicode, to_lower}
use open_trove.Base.Path.{ext}
use open_trove.Base.Exec.{Exec}
use open_trove.Intake.{Verdict, Input}
use open_trove.Intake.Anthropic.{
  Config, Content, ResponseBlock, Request, Response, canonical_image_type, is_skipped_type,
  build_content, content_by, records_verdict, extract_verdict, current_guidance, verdict_of,
  answered, request_with, inspect, inspector_error,
}

module _ (unmarshal : String → Result Verdict) where
  -- The verdict stands in a block of the response that records one.
  abbrev pub IsRecorded : Verdict → List ResponseBlock → Type 0
  IsRecorded v blocks =
      (b : ResponseBlock) × In b blocks
      × (b.type ≡ "tool_use")
      × (b.name ≡ "record_verdict")
      × (unmarshal b.input ≡ ok v)

  extract_verdict-IsRecorded :
      (blocks : List ResponseBlock) (v : Verdict)
      → extract_verdict unmarshal blocks ≡ ok v
      → IsRecorded v blocks
  unfolding extract_verdict
  extract_verdict-IsRecorded [] v h = absurd (cc h)
  extract_verdict-IsRecorded (b ∷ bs) v h = elim (Bool-cases (records_verdict b)) [
    | inl this ↦ (
      b,
      inl refl,
      ground (arith, this, eq_iff b.type "tool_use"),
      ground (arith, this, eq_iff b.name "record_verdict"),
      elim (Result-cases (unmarshal b.input)) [
        | inl (w, got) ↦ ground (arith, this, got, h)
        | inr (e, failed) ↦ absurd (ground (arith, this, failed, h))
      ],
    )
    | inr other ↦
        let (c, m, t, n, read) = extract_verdict-IsRecorded bs v (ground (arith, other, h)) in
        (c, inr m, t, n, read)
  ]

module _ (u : Unicode) (to_markdown : List ℕ → Option (List ℕ)) where
  -- The inputs that are not looked at: those of the types that are skipped, and images that the
  -- model does not read.
  abbrev pub IsLetThrough : String → String → Type 0
  IsLetThrough ct extension =
      (is_skipped_type ct extension ≡ true)
      ⊎ ((has_prefix ct "image/" ≡ true) × (canonical_image_type u ct extension ≡ ""))

  blank : (t : String) → is_empty t ≡ true → t ≡ ""
  blank String.[] h = refl
  blank (String.◌∷◌ c t) h = absurd (cc h)

  content_by-none :
      (max_bytes : ℤ) (input : Input) (ct extension : String)
      → content_by u to_markdown max_bytes input ct extension ≡ none
      → IsLetThrough ct extension
  content_by-none max_bytes input ct extension h =
      elim (Bool-cases (is_skipped_type ct extension)) [
        | inl skipped ↦ inl skipped
        | inr looked ↦ elim (Bool-cases (has_prefix ct "image/")) [
          | inl picture ↦ elim (Bool-cases (is_empty (canonical_image_type u ct extension))) [
            | inl odd ↦ inr (picture, blank (canonical_image_type u ct extension) odd)
            | inr fine ↦ absurd (ground (arith, looked, picture, fine, h))
          ]
          | inr other ↦ absurd (ground (arith, looked, other, h))
        ]
      ]

module _ (text_of : List ℕ → String) {S : Type 0} (u : Unicode)
    (to_markdown : List ℕ → Option (List ℕ)) (unmarshal : String → Result Verdict)
    (exchange : Request → Exec S Response) where
  -- A verdict of the model: the exchange about the content succeeds with status 200, and a block of
  -- the response records it.
  abbrev pub IsJudged : Config S → Content → S → Verdict → Type 0
  IsJudged cfg content s v =
      (response : Response) × (blocks : List ResponseBlock) × ((exchange
          (request_with cfg content (current_guidance text_of cfg s).0)
          (current_guidance text_of cfg s).1).0
        ≡ ok response)
      × (response.status ≡ 200)
      × (response.content ≡ ok blocks)
      × IsRecorded unmarshal v blocks

  abbrev ct : Input → String
  ct input = to_lower u input.content_type

  abbrev extension : Input → String
  extension input = to_lower u (ext input.filename)

  -- The ends of an inspection.
  abbrev pub Ends : Config S → Input → S → Result Verdict × S → Type 0
  Ends cfg input s out =
      (IsLetThrough u to_markdown (ct input) (extension input)
        × (out ≡ (ok (record { allowed = true; reason = ""; categories = [] }), s)))
      ⊎ ((e : Error) × (out.0 ≡ err e) × (is e inspector_failed ≡ true))
      ⊎ ((content : Content) × (v : Verdict) × (build_content u to_markdown cfg.max_bytes input
            ≡ some content)
          × (out.0 ≡ ok v)
          × IsJudged cfg content s v)

  abbrev result : Result Response → Result Verdict
  result = answered unmarshal

  -- What becomes of an answer.
  answered_ends :
      (r : Result Response)
      → ((e : Error) × (result r ≡ err e) × (is e inspector_failed ≡ true))
        ⊎ ((response : Response) × (blocks : List ResponseBlock) × (v : Verdict) × (r ≡ ok response)
            × (response.status ≡ 200)
            × (response.content ≡ ok blocks)
            × IsRecorded unmarshal v blocks
            × (result r ≡ ok v))
  unfolding is decide
  answered_ends (err e) = inl (inspector_error "http", refl, refl)
  answered_ends (ok response) = elim (Bool-cases (eqb response.status 200)) [
    | inr bad ↦ inl (inspector_error "status", rw bad refl, refl)
    | inl good ↦ elim (Result-cases response.content) [
      | inr (e, garbled) ↦ inl (inspector_error "decode", rw good (rw garbled refl), refl)
      | inl (blocks, decoded) ↦ elim (Result-cases (extract_verdict unmarshal blocks)) [
        | inr (e, silent) ↦
            inl
              (inspector_error "verdict", rw good (rw decoded (rw (verdict_of, silent) refl)), refl)
        | inl (v, found) ↦ inr (
          response,
          blocks,
          v,
          refl,
          ground (arith, good),
          decoded,
          extract_verdict-IsRecorded unmarshal blocks v found,
          rw good (rw decoded (rw (verdict_of, found) refl)),
        )
      ]
    ]
  ]

  -- An inspection lets an input through without a call, where its type is skipped or it is an
  -- image that the model does not read; or fails with ErrInspector; or gives, of an input that has
  -- a content to send, the verdict that a block of the response records, where the response has
  -- status 200 and answers the request with this content under the current guidance.
  pub inspect-Ends :
      (cfg : Config S) (input : Input) (s : S)
      → Ends cfg input s (inspect text_of u to_markdown unmarshal exchange cfg input s)
  unfolding inspect
  inspect-Ends cfg input s = elim (Option-cases (build_content u to_markdown cfg.max_bytes input)) [
    | inl skipped ↦ inl (
      unfold build_content in
          content_by-none u to_markdown cfg.max_bytes input (ct input) (extension input) skipped,
      rw skipped refl,
    )
    | inr (content, built) ↦
        let guidance = current_guidance text_of cfg s in
        elim (answered_ends (exchange (request_with cfg content guidance.0) guidance.1).0) [
          | inl (e, failed, named) ↦ inr (inl (e, rw built failed, named))
          | inr (response, blocks, v, got, good, decoded, recorded, found) ↦ inr (
              inr (
                content,
                v,
                built,
                rw built found,
                (response, blocks, got, good, decoded, recorded),
              ))
        ]
  ]
