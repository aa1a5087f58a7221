-- ===== src/Tests/Activity.antt =====
-- Histories of a few records. The timestamps are single letters, read as their codes.
use Prim.Native.Char.{code}
use open_trove.Base.{ℕ, zero, String, List, [], ◌∷◌, ◌++◌, ◌≡◌, refl}
use open_trove.Activity.{ActivityRecord, UserManifest, merge_activity}
use open_trove.Activity.Laws.{others, IsLatest, merge_activity-IsLatest}

parse : String → ℕ
parse String.[] = zero
parse (String.◌∷◌ c s) = code c

entry : String → String → String → ActivityRecord
entry slug email at = record {
  slug = slug;
  filename = "";
  content_type = "";
  user_email = email;
  owner_email = "";
  at = at;
}

abbrev history : List ActivityRecord
unfolding entry
history = entry "doc" "ada@x" "a" ∷ entry "img" "bob@x" "b" ∷ entry "doc" "cyd@x" "c" ∷ []

abbrev manifest : UserManifest
unfolding history
manifest = record { uploads = history; views = [] }

merge_activity_test :
    merge_activity parse history (entry "doc" "eve@x" "b")
    ≡ entry "img" "bob@x" "b" ∷ entry "doc" "cyd@x" "c" ∷ []
unfolding merge_activity history entry parse
merge_activity_test = refl

merge_activity-IsLatest_example :
    (kept : ActivityRecord) × (merge_activity parse history (entry "doc" "eve@x" "b")
      ≡ others "doc" history ++ kept ∷ [])
    × IsLatest parse "doc" (entry "doc" "eve@x" "b") history kept
unfolding entry
merge_activity-IsLatest_example = merge_activity-IsLatest parse (entry "doc" "eve@x" "b") history
