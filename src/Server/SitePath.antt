-- ===== src/Server/SitePath.antt =====
-- cmd/server/handlers.go and comments_handler.go: the paths of the files of a site.
pub mod Laws
use Prim.Native.Char.{code}
use Prim.Native.String.{[], ◌∷◌, len}
use open_trove.Base.{
  String, Bool, true, false, ◌||◌, ◌==◌, List, ltb, eqb, Option, none, some, if◌then◌else◌, Result,
  ok, err, plain,
}
use open_trove.Base.Text.{is_empty, append, has_prefix, trim_prefix, trim_space, contains_code}
use open_trove.Base.Path.{clean}

abbrev pub escapes : String → Bool
escapes cleaned = cleaned == "." || cleaned == ".." || has_prefix cleaned "../"

unfoldable pub safe_site_path : String → String → Result String
unfolding contains_code
safe_site_path name strip =
    if contains_code name 0 || contains_code name 92
    then err (plain "invalid path characters")
    else let value = trim_prefix name strip in
      if is_empty value || has_prefix value "/"
      then err (plain "empty or absolute path")
      else if escapes (clean value)
      then err (plain "path traversal")
      else ok (clean value)

unfoldable pub normalize_comment_resource : String → Result String
normalize_comment_resource raw =
    let value = trim_space (trim_prefix raw "/") in
    if is_empty value
    then ok ""
    else if escapes (clean value)
    then err (plain "invalid site page path")
    else if ltb 2048 (len (clean value))
    then err (plain "site page path is too long")
    else ok (clean value)

-- The part of a name before its first slash, with the slash, if it has one.
unfoldable pub first_dir : String → Option String
first_dir [] = none
first_dir (c ∷ s) =
    let rest = first_dir s in
    if eqb (code c) 47 then some (c ∷ "") else elim rest [ none ↦ none | some dir ↦ some (c ∷ dir) ]

-- The loop of zipSingleDirPrefix, from the prefix found so far.
unfoldable pub prefix_from : String → List String → String
unfolding first_dir
prefix_from found List.[] = found
prefix_from found (List.◌∷◌ name rest) =
    let skipped = prefix_from found rest in
    if has_prefix name "__MACOSX/" then skipped else elim (first_dir name) [
      | none ↦ ""
      | some dir ↦
          if is_empty found then prefix_from dir rest else if found == dir then skipped else ""
    ]

unfoldable pub zip_single_dir_prefix : List String → String
unfolding prefix_from
zip_single_dir_prefix names = prefix_from "" names
