-- ===== src/Intake/Anthropic.antt =====
-- intake/anthropic.go: the inspector that asks a model for a verdict. The exchange over HTTP, JSON
-- and the conversion of HTML to Markdown are parameters.
pub mod Laws
use Prim.Native.Char.{code}
use Prim.Native.String.{[], ◌∷◌}
use open_trove.Base.{
  ℕ, zero, suc, ◌*◌, ◌^◌, String, Bool, true, false, not, ◌&&◌, ◌||◌, ◌==◌, eqb, ltb, Option, none,
  some, List, length, take, if◌then◌else◌, Error, Result, ok, err, plain, sentinel, wrap,
  inspector_failed,
}
use open_trove.Base.Int.{ℤ, pos, negsuc}
use open_trove.Base.Text.{is_empty, append, has_prefix, split, Unicode, to_lower}
use open_trove.Base.Path.{ext}
use open_trove.Base.Exec.{Exec}
use open_trove.Intake.{Verdict, Input}

-- strings.Contains
unfoldable pub contains : String → String → Bool
contains [] p = is_empty p
contains (c ∷ s) p = has_prefix (c ∷ s) p || contains s p

-- AnthropicConfig, less what the HTTP client takes. A text that is not set is empty.
pub record Config (S : Type 0) : Type 0 where
  pub api_key : String
  pub model : String
  pub guidance : String
  pub prompt_source : Option (Exec S (List ℕ))
  pub max_bytes : ℤ
  pub endpoint : String

abbrev pub positive_or : ℕ → ℤ → ℤ
positive_or default (negsuc n) = pos default
positive_or default (pos zero) = pos default
positive_or default (pos (suc n)) = pos (suc n)

abbrev pub is_set {ℓ} : {A : Type ℓ} → Option A → Bool
is_set none = false
is_set (some a) = true

unfoldable pub new_anthropic : {S : Type 0} → Config S → Result (Config S)
new_anthropic cfg =
    if is_empty cfg.api_key
    then err (plain "intake: anthropic api key required")
    else if is_empty cfg.guidance && not (is_set cfg.prompt_source)
    then err (plain "intake: guidance or prompt source required")
    else ok (record cfg {
      model = if is_empty cfg.model then "claude-sonnet-4-6" else cfg.model;
      max_bytes = positive_or (200 * 2 ^ 10) cfg.max_bytes;
    })

-- The content block of a request: what stands before the body of a text, the body's bytes and what
-- stands after it; or a file, of which the bytes are sent in base64.
pub data Content : Type 0 where
  text : String → List ℕ → String → Content
  image : String → List ℕ → Content
  document : List ℕ → Content

-- The kind and name of a block of the response, and its input as it was sent.
pub record ResponseBlock : Type 0 where
  pub type : String
  pub name : String
  pub input : String

-- What differs from one request to another: the model, the guidance and the content.
pub record Request : Type 0 where
  pub model : String
  pub system : String
  pub content : Content

-- A status, and what decoding the body gives.
pub record Response : Type 0 where
  pub status : ℕ
  pub content : Result (List ResponseBlock)

abbrev first_of : List String → String
first_of List.[] = ""
first_of (List.◌∷◌ s rest) = s

abbrev pub is_accepted : String → Bool
is_accepted ct = ct == "image/jpeg" || ct == "image/png" || ct == "image/gif" || ct == "image/webp"

unfoldable pub canonical_image_type : Unicode → String → String → String
canonical_image_type u ct extension =
    let base = to_lower u (first_of (split 59 ct)) in
    if is_accepted base
    then base
    else if extension == ".jpg" || extension == ".jpeg"
    then "image/jpeg"
    else if extension == ".png"
    then "image/png"
    else if extension == ".gif"
    then "image/gif"
    else if extension == ".webp"
    then "image/webp"
    else ""

-- The types that are let through without a look at them.
unfoldable pub is_skipped_type : String → String → Bool
unfolding contains
is_skipped_type ct extension =
    has_prefix ct "video/"
    || has_prefix ct "audio/"
    || contains ct "zip"
    || contains ct "wordprocessingml"
    || extension == ".docx"
    || extension == ".zip"

abbrev pub is_html : String → String → Bool
is_html ct extension = has_prefix ct "text/html" || extension == ".html" || extension == ".htm"

-- len(body) > max, where the limit is positive.
abbrev exceeds : ℤ → List ℕ → Bool
exceeds (negsuc n) body = false
exceeds (pos n) body = ltb 0 n && ltb n (length body)

abbrev cut_to : ℤ → List ℕ → List ℕ
cut_to (negsuc n) body = body
cut_to (pos n) body = take n body

abbrev truncation : String
truncation = "\n\n[truncated; original was larger than the inspector window]"

abbrev pub text_content : ℤ → Input → List ℕ → Content
text_content max_bytes input body =
    let before = append "Filename: " (
      append input.filename
        (append "\nContent-Type: " (append input.content_type "\n\n--- BEGIN CONTENT ---\n"))) in
    if exceeds max_bytes body
    then text before (cut_to max_bytes body) (append truncation "\n--- END CONTENT ---")
    else text before body "\n--- END CONTENT ---"

abbrev converted : Option (List ℕ) → List ℕ → List ℕ
converted none body = body
converted (some markdown) body = markdown

abbrev pub image_content : String → List ℕ → Option Content
image_content media_type body = if is_empty media_type then none else some (image media_type body)

module _ (u : Unicode) (to_markdown : List ℕ → Option (List ℕ)) where
  abbrev pub content_by : ℤ → Input → String → String → Option Content
  content_by max_bytes input ct extension =
      if is_skipped_type ct extension
      then none
      else if has_prefix ct "image/"
      then image_content (canonical_image_type u ct extension) input.body
      else if has_prefix ct "application/pdf" || extension == ".pdf"
      then some (document input.body)
      else some (
          text_content max_bytes input (
            if is_html ct extension
            then converted (to_markdown input.body) input.body
            else input.body))

  -- The content to send, if the input is not let through without a look at it.
  unfoldable pub build_content : ℤ → Input → Option Content
  unfolding is_skipped_type canonical_image_type
  build_content max_bytes input =
      content_by max_bytes input (to_lower u input.content_type) (to_lower u (ext input.filename))

abbrev pub inspector_error : String → Error
inspector_error t = wrap t (sentinel inspector_failed)

abbrev pub records_verdict : ResponseBlock → Bool
records_verdict b = b.type == "tool_use" && b.name == "record_verdict"

abbrev passed : Result Verdict → Result Verdict
passed (ok v) = ok v
passed (err e) = err (inspector_error "verdict")

module _ (unmarshal : String → Result Verdict) where
  abbrev decoded : Result Verdict → Result Verdict
  decoded (ok v) = ok v
  decoded (err e) = err (wrap "decoding verdict" e)

  unfoldable pub extract_verdict : List ResponseBlock → Result Verdict
  extract_verdict List.[] = err (plain "no tool_use record_verdict in response")
  extract_verdict (List.◌∷◌ b bs) =
      let rest = extract_verdict bs in
      if records_verdict b then decoded (unmarshal b.input) else rest

  abbrev pub verdict_of : Result (List ResponseBlock) → Result Verdict
  verdict_of (err e) = err (inspector_error "decode")
  verdict_of (ok blocks) = passed (extract_verdict blocks)

  abbrev pub answered : Result Response → Result Verdict
  answered (err e) = err (inspector_error "http")
  answered (ok response) =
      if eqb response.status 200
      then verdict_of response.content
      else err (inspector_error "status")

abbrev pub request_with : {S : Type 0} → Config S → Content → String → Request
request_with cfg content guidance = record {
  model = cfg.model;
  system = guidance;
  content = content;
}

-- `text_of` is the conversion of bytes to a text.
module _ (text_of : List ℕ → String) where
  abbrev fetched : String → Result (List ℕ) → String
  fetched guidance (err e) = guidance
  fetched guidance (ok List.[]) = guidance
  fetched guidance (ok (List.◌∷◌ b bs)) = text_of (List.◌∷◌ b bs)

module _ (text_of : List ℕ → String) {S : Type 0} where
  abbrev guided : String → Option (Exec S (List ℕ)) → S → String × S
  guided guidance none s = (guidance, s)
  guided guidance (some fetch) s = (fetched text_of guidance (fetch s).0, (fetch s).1)

  unfoldable pub current_guidance : Config S → S → String × S
  current_guidance cfg s = guided cfg.guidance cfg.prompt_source s

  module _ (u : Unicode) (to_markdown : List ℕ → Option (List ℕ))
      (unmarshal : String → Result Verdict) (exchange : Request → Exec S Response) where
    abbrev pub asked : Config S → Option Content → S → Result Verdict × S
    asked cfg none s = (ok (record { allowed = true; reason = ""; categories = List.[] }), s)
    asked cfg (some content) s =
        let guidance = current_guidance cfg s in
        let r = exchange (request_with cfg content guidance.0) guidance.1 in
        (answered unmarshal r.0, r.1)

    unfoldable pub inspect : Config S → Input → Exec S Verdict
    unfolding extract_verdict
    inspect cfg input s = asked cfg (build_content u to_markdown cfg.max_bytes input) s
