-- ===== src/Base/Path.antt =====
-- Go's package path: Clean, over the segments between slashes, and Ext.
pub mod Laws
use Prim.Native.Char.{code}
use Prim.Native.String.{String, [], ◌∷◌}
use open_trove.Base.Tests.{eqb, if◌then◌else◌}
use mathlib.Core.Bool.{Bool, true, false, ◌||◌}
use Prim.Native.Nat.{ℕ}
use mathlib.Core.List.{List}
use text.Mathlib.Text.{◌==◌}
use open_trove.Base.Text.{is_empty, append, split, join, has_prefix, contains_code}

abbrev pub slash : ℕ
slash = 47

-- What one segment makes of the cleaned path so far, whose segments stand in reverse order.
abbrev pub back : Bool → List String → List String
back rooted List.[] = if rooted then List.[] else List.◌∷◌ ".." List.[]
back rooted (List.◌∷◌ top below) = if top == ".." then List.◌∷◌ ".." (List.◌∷◌ top below) else below

unfoldable pub clean_onto : Bool → List String → List String → List String
clean_onto rooted done List.[] = done
clean_onto rooted done (List.◌∷◌ s rest) =
    let skipped = clean_onto rooted done rest in
    let up = clean_onto rooted (back rooted done) rest in
    let down = clean_onto rooted (List.◌∷◌ s done) rest in
    if is_empty s || s == "." then skipped else if s == ".." then up else down

unfoldable pub reverse_onto : List String → List String → List String
reverse_onto List.[] done = done
reverse_onto (List.◌∷◌ s rest) done = reverse_onto rest (List.◌∷◌ s done)

unfoldable pub clean_segments : Bool → String → List String
unfolding clean_onto reverse_onto
clean_segments rooted s = reverse_onto (clean_onto rooted List.[] (split slash s)) List.[]

-- path.Clean
unfoldable pub clean : String → String
unfolding clean_segments
clean s =
    let rooted = has_prefix s "/" in
    let path = join "/" (clean_segments rooted s) in
    if rooted then append "/" path else if is_empty path then "." else path

-- path.Ext and filepath.Ext: from the last dot of the last segment.
unfoldable pub ext : String → String
unfolding contains_code
ext [] = ""
ext (c ∷ s) =
    let later = ext s in
    if eqb (code c) 46
    then (if contains_code s 46 || contains_code s 47 then later else c ∷ s)
    else later
