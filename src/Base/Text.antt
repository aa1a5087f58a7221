-- ===== src/Base/Text.antt =====
-- Text as the native `String`: a Go string that holds valid UTF-8. Its `len` counts bytes, as Go's
-- does; the functions here are those of Go's package strings that the program calls.
pub mod Laws
pub mod Append
use Prim.Native.Nat.{ℕ}
use Prim.Native.Char.{Char, code}
use Prim.Native.String.{String, [], ◌∷◌}
use mathlib.Core.Bool.{Bool, true, false, ◌&&◌, ◌||◌}
use mathlib.Core.List.{List}
use text.Mathlib.Text.{◌==◌}
use open_trove.Base.Tests.{leb, eqb, if◌then◌else◌}

abbrev pub is_empty : String → Bool
is_empty [] = true
is_empty (c ∷ s) = false

-- unicode.IsSpace
unfoldable pub is_space : Char → Bool
is_space c =
    let n = code c in
    (leb 9 n && leb n 13)
    || eqb n 32
    || eqb n 0x85
    || eqb n 0xA0
    || eqb n 0x1680
    || (leb 0x2000 n && leb n 0x200A)
    || eqb n 0x2028
    || eqb n 0x2029
    || eqb n 0x202F
    || eqb n 0x205F
    || eqb n 0x3000

pub trim_left : String → String
trim_left [] = []
trim_left (c ∷ s) = let rest = trim_left s in if is_space c then rest else c ∷ s

pub trim_right : String → String
trim_right [] = []
trim_right (c ∷ s) = let rest = trim_right s in if is_empty rest && is_space c then [] else c ∷ rest

-- strings.TrimSpace
unfoldable pub trim_space : String → String
unfolding is_space trim_left trim_right
trim_space s = trim_right (trim_left s)

-- The concatenation of texts.
unfoldable pub append : String → String → String
append [] t = t
append (c ∷ s) t = c ∷ append s t

-- strings.HasPrefix
unfoldable pub has_prefix : String → String → Bool
has_prefix s [] = true
has_prefix [] (p ∷ ps) = false
has_prefix (c ∷ s) (p ∷ ps) = eqb (code c) (code p) && has_prefix s ps

-- strings.HasSuffix
unfoldable pub has_suffix : String → String → Bool
has_suffix [] p = [] == p
has_suffix (c ∷ s) p = has_suffix s p || (c ∷ s) == p

unfoldable pub drop_prefix : String → String → String
drop_prefix s [] = s
drop_prefix [] (p ∷ ps) = []
drop_prefix (c ∷ s) (p ∷ ps) = drop_prefix s ps

-- strings.TrimPrefix
unfoldable pub trim_prefix : String → String → String
unfolding has_prefix drop_prefix
trim_prefix s p = if has_prefix s p then drop_prefix s p else s

-- strings.ContainsRune, for a rune given by its code
unfoldable pub contains_code : String → ℕ → Bool
contains_code [] n = false
contains_code (c ∷ s) n = eqb (code c) n || contains_code s n

-- strings.Split at one ASCII character, given by its code: the texts between its places.
abbrev pub onto_head : Char → List String → List String
onto_head c List.[] = List.◌∷◌ (c ∷ []) List.[]
onto_head c (List.◌∷◌ s rest) = List.◌∷◌ (c ∷ s) rest

unfoldable pub split : ℕ → String → List String
split n [] = List.◌∷◌ [] List.[]
split n (c ∷ s) =
    let rest = split n s in if eqb (code c) n then List.◌∷◌ [] rest else onto_head c rest

-- strings.Join
unfoldable pub join : String → List String → String
unfolding append
join sep List.[] = []
join sep (List.◌∷◌ s List.[]) = s
join sep (List.◌∷◌ s (List.◌∷◌ t rest)) = append s (append sep (join sep (List.◌∷◌ t rest)))

unfoldable pub map_chars : (Char → Char) → String → String
map_chars f [] = []
map_chars f (c ∷ s) = f c ∷ map_chars f s

-- Unicode's case tables: `unicode.ToLower`, and a representative of the orbit that
-- `unicode.SimpleFold` walks through, so that two runes fold together exactly when it is one.
pub record Unicode : Type 0 where
  pub lower : Char → Char
  pub fold : Char → Char

module _ (u : Unicode) where
  -- strings.ToLower
  unfoldable pub to_lower : String → String
  unfolding map_chars
  to_lower s = map_chars u.lower s

  -- strings.EqualFold
  unfoldable pub equal_fold : String → String → Bool
  unfolding map_chars
  equal_fold s t = map_chars u.fold s == map_chars u.fold t
