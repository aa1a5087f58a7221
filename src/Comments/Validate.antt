-- ===== src/Comments/Validate.antt =====
-- comments/comments.go: normalizeAnchor, cleanResource, validateCreate, validateBody, invalid.
use Prim.Native.String.{len}
use open_trove.Base.{
  ℕ, String, Bool, ◌&&◌, List, [], ◌∷◌, ltb, any, if◌then◌else◌, wrap, sentinel, invalid_comment,
  Result, ok, err, Outcome,
}
use open_trove.Base.Text.{is_empty, trim_space, trim_prefix}
use open_trove.Comments.{AnchorType, unset, file, element, text, Anchor, CreateInput}

abbrev pub max_body_length : ℕ
max_body_length = 5000

abbrev pub max_resource_length : ℕ
max_resource_length = 2048

abbrev pub max_selector_length : ℕ
max_selector_length = 2000

abbrev pub max_anchor_text_length : ℕ
max_anchor_text_length = 1000

abbrev pub max_anchor_label_length : ℕ
max_anchor_label_length = 500

abbrev pub invalid {ℓ} : {A : Type ℓ} → String → Result A
invalid message = err (wrap message (sentinel invalid_comment))

unfoldable pub clean_resource : String → String
clean_resource resource = trim_prefix (trim_space resource) "/"

abbrev default_type : AnchorType → AnchorType
default_type unset = file
default_type t = t

unfoldable pub normalize_anchor : Anchor → Anchor
normalize_anchor a = record {
  type = default_type a.type;
  resource = clean_resource a.resource;
  stable_id = trim_space a.stable_id;
  selector = trim_space a.selector;
  label = trim_space a.label;
  tag = trim_space a.tag;
  role = trim_space a.role;
  visible_text = trim_space a.visible_text;
  container = trim_space a.container;
  quote = record {
    exact = trim_space a.quote.exact;
    prefix = trim_space a.quote.prefix;
    suffix = trim_space a.quote.suffix;
  };
  rect = a.rect;
}

-- len counts bytes.
unfoldable pub validate_body : String → Result String
validate_body value =
    let body = trim_space value in
    if is_empty body
    then invalid "body is required"
    else if ltb max_body_length (len body)
    then invalid "body exceeds 5000 characters"
    else ok body

abbrev longer_than : ℕ → List String → Bool
longer_than limit = any (λ value. ltb limit (len value))

pub check_type : Anchor → Outcome
check_type a = elim a.type [
  | file ↦ ok tt
  | element ↦
      if is_empty a.stable_id && is_empty a.selector
      then invalid "element anchor requires stable_id or selector"
      else ok tt
  | text ↦ if is_empty a.quote.exact then invalid "text anchor requires quote.exact" else ok tt
  | _ ↦ invalid "unsupported anchor type"
]

-- The two loops over maps visit the values in a random order, and answer with the same sentinel
-- whichever value they meet first.
unfoldable pub check_anchor : Anchor → Outcome
unfolding check_type
check_anchor a =
    if ltb max_resource_length (len a.resource)
    then invalid "anchor resource is too long"
    else if ltb max_selector_length (len a.selector)
    then invalid "anchor selector is too long"
    else if longer_than max_anchor_label_length
        (a.stable_id ∷ a.container ∷ a.label ∷ a.tag ∷ a.role ∷ [])
    then invalid "anchor label is too long"
    else if longer_than max_anchor_text_length
        (a.visible_text ∷ a.quote.exact ∷ a.quote.prefix ∷ a.quote.suffix ∷ [])
    then invalid "anchor text is too long"
    else check_type a

abbrev check_body : Result String → Outcome → Outcome
check_body (ok body) next = next
check_body (err e) next = err e

unfoldable pub validate_create : String → String → CreateInput → Outcome
validate_create slug author_email input =
    if is_empty (trim_space slug)
    then invalid "slug is required"
    else if is_empty (trim_space author_email)
    then invalid "author email is required"
    else check_body (validate_body input.body) (check_anchor input.anchor)
