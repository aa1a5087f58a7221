-- ===== src/Server/Slug.antt =====
-- cmd/server/slug.go: the names of artifacts.
pub mod Laws
use Prim.Native.Char.{Char, code}
use Prim.Native.String.{[], ◌∷◌, len}
use open_trove.Base.{
  ℕ, zero, suc, String, Bool, true, false, not, ◌&&◌, ◌||◌, ◌==◌, List, ltb, leb, eqb, any,
  if◌then◌else◌, Result, ok, err, Outcome, plain, wrap, Error,
}
use open_trove.Base.Text.{is_empty, has_prefix}

abbrev pub slug_length : ℕ
slug_length = 8

abbrev pub slug_charset : String
slug_charset = "abcdefghijklmnopqrstuvwxyz0123456789"

abbrev pub max_slug_len : ℕ
max_slug_len = 64

abbrev pub reserved_slugs : List String
reserved_slugs =
    List.◌∷◌ "healthz"
      (List.◌∷◌ "upload" (List.◌∷◌ "mine" (List.◌∷◌ "swagger" (List.◌∷◌ "mcp" List.[]))))

-- [a-z0-9]
unfoldable pub is_end_char : Char → Bool
is_end_char c = (leb 97 (code c) && leb (code c) 122) || (leb 48 (code c) && leb (code c) 57)

-- [a-z0-9-]
unfoldable pub is_slug_char : Char → Bool
unfolding is_end_char
is_slug_char c = is_end_char c || eqb (code c) 45

-- ([a-z0-9-]*[a-z0-9])?$
unfoldable pub matches_rest : String → Bool
unfolding is_end_char is_slug_char
matches_rest [] = true
matches_rest (c ∷ []) = is_end_char c
matches_rest (c ∷ d ∷ s) = is_slug_char c && matches_rest (d ∷ s)

-- slugRegex: ^[a-z0-9]([a-z0-9-]*[a-z0-9])?$
unfoldable pub matches_slug : String → Bool
unfolding is_end_char matches_rest
matches_slug [] = false
matches_slug (c ∷ s) = is_end_char c && matches_rest s

unfoldable pub validate_slug : String → Outcome
unfolding matches_slug
validate_slug s =
    if eqb (len s) 0
    then err (plain "slug cannot be empty")
    else if ltb max_slug_len (len s)
    then err (plain "slug exceeds max length")
    else if not (matches_slug s)
    then err (plain "slug must contain only lowercase letters, numbers, and hyphens")
    else if any (λ r. r == s) reserved_slugs
    then err (plain "slug is reserved")
    else ok tt

unfoldable pub is_internal_slug : String → Bool
unfolding has_prefix
is_internal_slug slug = has_prefix slug "_"

-- slugCharset[n], for an index in range.
unfoldable pub charset_from : String → ℕ → Char → Char
charset_from [] n other = other
charset_from (c ∷ s) zero other = c
charset_from (c ∷ s) (suc n) other = charset_from s n other

abbrev cons_char : ℕ → Result String → Result String
cons_char n (ok s) = ok (charset_from slug_charset n "a" ∷ s)
cons_char n (err e) = err e

-- The loop of generateSlug, with `draw i` what rand.Int gives the i-th time it is called.
unfoldable pub generate_from : (ℕ → Result ℕ) → ℕ → ℕ → Result String
generate_from draw zero i = ok []
generate_from draw (suc left) i =
    let rest = generate_from draw left (suc i) in
    elim (draw i) [ ok n ↦ cons_char n rest | err e ↦ err (wrap "generating slug" e) ]

unfoldable pub generate_slug : (ℕ → Result ℕ) → Result String
unfolding generate_from
generate_slug draw = generate_from draw slug_length 0
