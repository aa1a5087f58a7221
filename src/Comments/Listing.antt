-- ===== src/Comments/Listing.antt =====
-- comments/comments.go: List, which groups the stored comments of an artifact into threads.
pub mod Laws
pub mod Threads
use open_trove.Base.{
  ℕ, String, Bool, true, false, not, ◌&&◌, ◌||◌, Option, none, some, List, [], ◌∷◌, ◌++◌, ◌==◌, ltb,
  is_some, if◌then◌else◌, Result, ok, err,
}
use open_trove.Base.Text.{is_empty, Unicode}
use open_trove.Base.Dict.{Dict, get, put}
use open_trove.Base.Exec.{Exec, pure, lift, ◌>>=◌}
use open_trove.Base.Sort.{sort}
use open_trove.Comments.{
  Comment, Thread, ResolutionFilter, unset_filter, open_only, include, only, other_filter,
}
use open_trove.Comments.Validate.{invalid, clean_resource}
use open_trove.Comments.Service.{Service, list_stored}

-- AllResources
abbrev pub all_resources : String
all_resources = "*"

abbrev pub default_filter : ResolutionFilter → ResolutionFilter
default_filter unset_filter = open_only
default_filter f = f

abbrev pub is_supported : ResolutionFilter → Bool
is_supported (other_filter f) = false
is_supported _ = true

-- The maps `roots` and `replies`.
pub record Groups : Type 0 where
  pub roots : Dict Comment
  pub replies : Dict (List Comment)

-- The zero value of a missing entry is a nil slice.
abbrev pub replies_at : String → Groups → List Comment
replies_at id g = elim (get id g.replies) as (λ _. List Comment) [ none ↦ [] | some cs ↦ cs ]

-- The body of the first loop.
unfoldable pub add_item : Groups → Comment → Groups
add_item g item =
    if is_empty item.parent_id
    then record g { roots = put item.id item g.roots }
    else if is_some item.deleted_at
    then g
    else record g {
      replies = put item.thread_id (replies_at item.thread_id g ++ item ∷ []) g.replies;
    }

unfoldable pub group_from : Groups → List Comment → Groups
unfolding add_item
group_from g [] = g
group_from g (item ∷ items) = group_from (add_item g item) items

unfoldable pub groups : List Comment → Groups
unfolding group_from
groups items = group_from (record { roots = []; replies = [] }) items

abbrev pub before : Comment → Comment → Bool
before a b = ltb a.created_at b.created_at

-- threads[i].Root.CreatedAt.After(threads[j].Root.CreatedAt)
abbrev pub newer : Thread → Thread → Bool
newer a b = ltb b.root.created_at a.root.created_at

abbrev pub hides : ResolutionFilter → Bool → Bool
hides open_only resolved = resolved
hides only resolved = not resolved
hides _ resolved = false

-- The four tests at which the second loop continues with the next root.
unfoldable pub is_listed : Bool → String → ResolutionFilter → Comment → List Comment → Bool
is_listed every resource resolution root replies =
    let root_resource = clean_resource root.anchor.resource in
    if not every && not (is_empty root_resource) && not (root_resource == resource)
    then false
    else if is_some root.deleted_at && elim replies [ [] ↦ true | _ ∷ _ ↦ false ]
    then false
    else not (hides resolution (is_some root.resolved_at))

-- The second loop, over the roots in the order in which the runtime visits them.
unfoldable pub threads_from :
    Bool → String → ResolutionFilter → Groups → List (String × Comment) → List Thread
unfolding is_listed
threads_from every resource resolution g [] = []
threads_from every resource resolution g ((id, root) ∷ roots) =
    let replies = replies_at id g in
    let rest = threads_from every resource resolution g roots in
    if is_listed every resource resolution root replies
    then record { root = root; replies = sort before replies } ∷ rest
    else rest

-- `visit` is the order of a range over a map, which Go leaves open.
module _ (visit : Dict Comment → List (String × Comment)) where
  unfoldable pub threads_of : String → ResolutionFilter → List Comment → Result (List Thread)
  unfolding groups threads_from
  threads_of resource raw items =
      let resolution = default_filter raw in
      if is_supported resolution
      then ok (
          sort newer (
            threads_from (resource == all_resources) (clean_resource resource) resolution
              (groups items) (visit (groups items).roots)))
      else invalid "unsupported resolution filter"

  pub list :
      (u : Unicode) {S : Type 0}
      → Service S
      → String
      → String
      → ResolutionFilter
      → Exec S (List Thread)
  list u svc slug resource resolution = do
    items ← list_stored u svc slug
    lift (threads_of resource resolution items)
