-- ===== src/Preview.antt =====
-- preview: the cards that authors set for artifacts (card.go), and the shortening of texts
-- (preview.go).
pub mod Laws
pub mod Summary
use Prim.Native.Char.{Char}
use Prim.Native.String.{[], ◌∷◌}
use open_trove.Base.{
  ℕ, zero, suc, ◌-◌, ◌*◌, ◌^◌, String, Bool, true, false, not, ◌&&◌, ◌||◌, ◌==◌, Option, none, some,
  List, length, ltb, leb, if◌then◌else◌, Result, ok, err, fail, wrap, card_too_large, card_format,
  card_dimensions,
}
use open_trove.Base.Text.{is_empty, is_space, append, join}
use open_trove.Base.Text.Append.{chars}
use open_trove.Storage.{Card}

abbrev pub max_card_bytes : ℕ
max_card_bytes = 2 * 2 ^ 20

abbrev pub max_card_dimension : ℕ
max_card_dimension = 2000

abbrev pub min_card_dimension : ℕ
min_card_dimension = 100

abbrev pub max_card_alt : ℕ
max_card_alt = 300

abbrev word_onto : String → List String → List String
word_onto word words = if is_empty word then words else List.◌∷◌ word words

-- strings.Fields: the first word, which is empty before a space, and the words after it.
unfoldable pub words_from : String → String × List String
words_from [] = ("", List.[])
words_from (c ∷ s) =
    let rest = words_from s in
    if is_space c then ("", word_onto rest.0 rest.1) else (c ∷ rest.0, rest.1)

unfoldable pub fields : String → List String
unfolding words_from
fields s = word_onto (words_from s).0 (words_from s).1

unfoldable pub squash : String → String
unfolding fields
squash s = join " " (fields s)

-- The first runes of a text.
unfoldable pub take_runes : ℕ → String → String
take_runes zero s = []
take_runes (suc n) [] = []
take_runes (suc n) (c ∷ s) = c ∷ take_runes n s

-- strings.TrimRightFunc
unfoldable pub trim_right_by : (Char → Bool) → String → String
trim_right_by cut [] = []
trim_right_by cut (c ∷ s) =
    let rest = trim_right_by cut s in if is_empty rest && cut c then [] else c ∷ rest

-- `is_punct` is unicode.IsPunct.
unfoldable pub clip : (Char → Bool) → String → ℕ → String
unfolding squash take_runes trim_right_by
clip is_punct s n =
    let line = squash s in
    if leb (chars line) n
    then line
    else append (trim_right_by (λ c. is_space c || is_punct c) (take_runes (n - 1) line)) "…"

-- The image libraries and SHA-256: the width, height and format that the header of an image
-- declares, and the image encoded again, where it can be decoded.
pub record Images : Type 0 where
  pub decode_config : List ℕ → Option (ℕ × ℕ × String)
  pub encode : String → List ℕ → Option (Result (List ℕ))
  pub sha256 : List ℕ → String

abbrev pub outside : ℕ → Bool
outside n = ltb n min_card_dimension || ltb max_card_dimension n

abbrev pub is_supported : String → Bool
is_supported format = format == "png" || format == "jpeg"

abbrev content_type_of : String → String
content_type_of format = if format == "jpeg" then "image/jpeg" else "image/png"

-- Card.Extension
unfoldable pub extension : Card → String
extension c = if c.content_type == "image/jpeg" then ".jpg" else ".png"

module _ (is_punct : Char → Bool) (images : Images) where
  -- The card of an image that is encoded again.
  abbrev pub encoded_card : String → ℕ → ℕ → String → Option (Result (List ℕ)) → Result Card
  encoded_card alt width height format none = fail card_format
  encoded_card alt width height format (some (err e)) = err (wrap "encoding preview image" e)
  encoded_card alt width height format (some (ok image)) = ok (record {
    image = image;
    content_type = content_type_of format;
    width = width;
    height = height;
    alt = clip is_punct alt max_card_alt;
    sha256 = images.sha256 image;
    artifact_version = "";
    updated_at = 0;
    updated_by_email = "";
  })

  abbrev pub card_of : List ℕ → String → Option (ℕ × ℕ × String) → Result Card
  card_of bytes alt none = fail card_format
  card_of bytes alt (some (width, height, format)) =
      if not (is_supported format)
      then fail card_format
      else if outside width || outside height
      then fail card_dimensions
      else encoded_card alt width height format (images.encode format bytes)

  unfoldable pub new_card : List ℕ → String → Result Card
  new_card bytes alt =
      if ltb max_card_bytes (length bytes)
      then fail card_too_large
      else card_of bytes alt (images.decode_config bytes)
