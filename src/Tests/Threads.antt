-- ===== src/Tests/Threads.antt =====
-- A thread of one root and one reply, with the map of roots visited in its own order.
use open_trove.Base.{String, true, List, [], ◌∷◌, ◌≡◌, refl, inl, inr, In, All, ok, filter}
use open_trove.Base.Dict.{get, put, without, Dict}
use open_trove.Base.Sort.{sort}
use open_trove.Base.Text.{trim_space, trim_prefix, is_empty}
use open_trove.Comments.{Comment, Thread, open_only}
use open_trove.Comments.Validate.{clean_resource}
use open_trove.Comments.Listing.{
  threads_of, threads_from, groups, group_from, add_item, is_listed, before,
}
use open_trove.Comments.Listing.Laws.{is_reply_of, IsShown, IsThread}
use open_trove.Comments.Listing.Threads.{IsNewestFirst, threads_of_sound, threads_of_complete}
use open_trove.Tests.Data.{root, answer}

abbrev visit : Dict Comment → List (String × Comment)
visit d = d

abbrev items : List Comment
items = root ∷ answer ∷ []

abbrev thread : Thread
thread = record { root = root; replies = answer ∷ [] }

threads_of_test : threads_of visit "" open_only items ≡ ok (thread ∷ [])
unfolding threads_of threads_from groups group_from add_item is_listed get put without sort
    clean_resource trim_space trim_prefix
threads_of_test = refl

threads_of_sound_example :
    All (IsThread items "" open_only) (thread ∷ []) × IsNewestFirst (thread ∷ [])
threads_of_sound_example =
    threads_of_sound visit (λ d x. ((λ m. m), λ m. m)) "" open_only items (thread ∷ [])
      threads_of_test

root_unique : (c : Comment) → In c items → is_empty c.parent_id ≡ true → c.id ≡ root.id → c ≡ root
root_unique c (inl same) top e = same
root_unique c (inr (inl same)) top e = cc (rw same at top)
root_unique c (inr (inr none_left)) top e = absurd none_left

root-IsShown :
    IsShown "" open_only
      (record { root = root; replies = sort before (filter (is_reply_of root.id) items) })
unfolding clean_resource trim_space trim_prefix
root-IsShown = record {
  page = inr (inl refl);
  unresolved = λ _. refl;
  resolved = λ e. cc e;
  kept = λ gone. cc gone;
}

threads_of_complete_example :
    In
      (record { root = root; replies = sort before (filter (is_reply_of root.id) items) })
      (thread ∷ [])
threads_of_complete_example =
    threads_of_complete visit (λ d x. ((λ m. m), λ m. m)) "" open_only items (thread ∷ []) root
      threads_of_test (inl refl) refl root_unique root-IsShown
