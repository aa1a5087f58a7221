-- ===== src/Comments/Listing/Threads.antt =====
-- What List returns: the threads that its loops build, all of them, newest first.
use open_trove.Base.{
  ◌≤◌, String, Bool, true, false, not, ◌&&◌, some, List, [], ◌∷◌, ◌==◌, ◌≡◌, refl, ap, ◌⊎◌, inl,
  inr, ◌↔◌, arith, eq_iff, filter, In, All, All-of_In, Bool-cases, is_some, if◌then◌else◌, ok,
}
use open_trove.Base.Text.{is_empty}
use open_trove.Base.Dict.{Dict, get, get-put}
use open_trove.Base.Sort.{sort, In-sort, sort-IsSorted, Ordered, Ordered-of_IsSorted}
use open_trove.Comments.{
  Comment, Thread, ResolutionFilter, open_only, include, only, unset_filter, other_filter,
}
use open_trove.Comments.Validate.{clean_resource}
use open_trove.Comments.Listing.{
  all_resources, default_filter, is_supported, Groups, replies_at, add_item, group_from, groups,
  before, newer, hides, is_listed, threads_from, threads_of,
}
use open_trove.Comments.Listing.Laws.{
  is_reply_of, IsShown, IsThread, In-groups, threads_from-In, replies_at-groups,
}

-- Each root is as new as those that follow it, or newer.
abbrev pub IsNewestFirst : List Thread → Type 0
IsNewestFirst = Ordered (λ a b. b.root.created_at ≤ a.root.created_at)

newer_asym : (a b : Thread) → newer a b ≡ true → newer b a ≡ false
newer_asym a b h = ground arith

newer_trans : (a b c : Thread) → newer b a ≡ false → newer c b ≡ false → newer c a ≡ false
newer_trans a b c h k = ground arith

-- A listed root is found again in the map of roots, if no other root has its identifier.
abbrev pub IsUniqueRoot : List Comment → Comment → Type 0
IsUniqueRoot items root =
    (c : Comment) → In c items → is_empty c.parent_id ≡ true → c.id ≡ root.id → c ≡ root

get-add_item :
    (k : String) (g : Groups) (c : Comment)
    → get k (add_item g c).roots
      ≡ (if is_empty c.parent_id && c.id == k then some c else get k g.roots)
unfolding add_item
get-add_item k g c = ground (arith, get-put c.id k c g.roots)

get-group_from :
    (g : Groups) (items : List Comment) (root : Comment)
    → IsUniqueRoot items root
    → (get root.id g.roots ≡ some root) ⊎ (In root items × (is_empty root.parent_id ≡ true))
    → get root.id (group_from g items).roots ≡ some root
unfolding group_from
get-group_from g [] root unique (inl h) = h
get-group_from g [] root unique (inr (m, _)) = absurd m
get-group_from g (c ∷ items) root unique h =
    get-group_from (add_item g c) items root (λ d m. unique d (inr m)) (after h)
  where
    after :
        (get root.id g.roots ≡ some root) ⊎ (In root (c ∷ items) × (is_empty root.parent_id ≡ true))
        → (get root.id (add_item g c).roots ≡ some root)
          ⊎ (In root items × (is_empty root.parent_id ≡ true))
    after (inl found) =
        inl (
          ground (arith, get-add_item root.id g c, unique c (inl refl), eq_iff c.id root.id, found))
    after (inr (inl same, top)) =
        inl (ground (arith, get-add_item root.id g c, eq_iff c.id root.id, same, top))
    after (inr (inr later, top)) = inr (later, top)

In-of_get : {V : Type 0} (k : String) (d : Dict V) (v : V) → get k d ≡ some v → In (k, v) d
unfolding get
In-of_get k [] v e = cc
In-of_get k ((j, w) ∷ d) v e = elim (Bool-cases (j == k)) [
  | inl same ↦ inl (ground (arith, eq_iff j k))
  | inr other ↦ inr (In-of_get k d v (rw other at e))
]

threads_from_complete :
    (every : Bool) (resource : String) (resolution : ResolutionFilter) (g : Groups)
    (roots : List (String × Comment)) (id : String) (root : Comment)
    → In (id, root) roots
    → is_listed every resource resolution root (replies_at id g) ≡ true
    → In
        (record { root = root; replies = sort before (replies_at id g) })
        (threads_from every resource resolution g roots)
unfolding threads_from
threads_from_complete every resource resolution g [] id root m listed = absurd m
threads_from_complete every resource resolution g ((j, r) ∷ roots) id root (inl same) listed =
    let same_id : id ≡ j = ap (λ (x : String × Comment). x.0) same in
    let same_root : root ≡ r = ap (λ (x : String × Comment). x.1) same in
    ground (arith, same_id, same_root, listed)
threads_from_complete every resource resolution g ((j, r) ∷ roots) id root (inr later) listed =
    ground (arith, threads_from_complete every resource resolution g roots id root later listed)

not_hidden :
    (resource : String) (resolution : ResolutionFilter) (t : Thread)
    → IsShown resource resolution t
    → hides (default_filter resolution) (is_some t.root.resolved_at) ≡ false
not_hidden resource unset_filter t s = s.unresolved refl
not_hidden resource open_only t s = s.unresolved refl
not_hidden resource include t s = refl
not_hidden resource only t s = rw (s.resolved refl)
not_hidden resource (other_filter f) t s = refl

on_page :
    (resource : String) (resolution : ResolutionFilter) (t : Thread)
    → IsShown resource resolution t
    → (not (resource == all_resources)
        && not (is_empty (clean_resource t.root.anchor.resource))
        && not (clean_resource t.root.anchor.resource == clean_resource resource))
      ≡ false
on_page resource resolution t s = ground (
  arith,
  s.page,
  eq_iff resource all_resources,
  eq_iff (clean_resource t.root.anchor.resource) (clean_resource resource),
)

is_listed_of_IsShown :
    (resource : String) (resolution : ResolutionFilter) (root : Comment) (replies : List Comment)
    → IsShown resource resolution (record { root = root; replies = sort before replies })
    → is_listed
        (resource == all_resources)
        (clean_resource resource)
        (default_filter resolution)
        root
        replies
      ≡ true
unfolding is_listed sort
is_listed_of_IsShown resource resolution root [] s =
    rw (on_page resource resolution _ s, not_hidden resource resolution _ s)
      (elim (Bool-cases (is_some root.deleted_at)) [
        | inl gone ↦ absurd (s.kept gone refl)
        | inr live ↦ rw live
      ])
is_listed_of_IsShown resource resolution root (c ∷ replies) s =
    rw (on_page resource resolution _ s, not_hidden resource resolution _ s) (ground arith)

threads_of-eq-ok :
    (visit : Dict Comment → List (String × Comment)) (resource : String)
    (resolution : ResolutionFilter) (items : List Comment) (ts : List Thread)
    → threads_of visit resource resolution items ≡ ok ts
    → ts
      ≡ sort newer (
          threads_from
            (resource == all_resources)
            (clean_resource resource)
            (default_filter resolution)
            (groups items)
            (visit (groups items).roots))
unfolding threads_of
threads_of-eq-ok visit resource resolution items ts e =
    elim (Bool-cases (is_supported (default_filter resolution))) [
      | inl known ↦ cc (rw known at e)
      | inr unknown ↦ cc (rw unknown at e)
    ]

module _ (visit : Dict Comment → List (String × Comment))
    (visits_all : (d : Dict Comment) (x : String × Comment) → In x (visit d) ↔ In x d) where
  threads_of-IsThread :
      (resource : String) (resolution : ResolutionFilter) (items : List Comment) (ts : List Thread)
      (t : Thread)
      → threads_of visit resource resolution items ≡ ok ts
      → In t ts
      → IsThread items resource resolution t
  threads_of-IsThread resource resolution items ts t e m =
      let same = threads_of-eq-ok visit resource resolution items ts e in
      threads_from-In items resource resolution (visit (groups items).roots) t
        (λ x n. In-groups items x.0 x.1 ((visits_all (groups items).roots x).0 n))
        ((In-sort newer t _).0 (rw same at m))

  threads_of-IsNewestFirst :
      (resource : String) (resolution : ResolutionFilter) (items : List Comment) (ts : List Thread)
      → threads_of visit resource resolution items ≡ ok ts
      → IsNewestFirst ts
  threads_of-IsNewestFirst resource resolution items ts e =
      rw (threads_of-eq-ok visit resource resolution items ts e) (
        Ordered-of_IsSorted newer (λ a b. b.root.created_at ≤ a.root.created_at)
          (λ a b h. ground arith) _ (sort-IsSorted newer newer_asym newer_trans _))

  -- Every thread that List shows is a stored root with all its visible replies, in the order of
  -- their creation times, and passes the filters, and the threads stand in the reverse order of
  -- the creation times of their roots, whatever order the runtime visits the map in.
  pub threads_of_sound :
      (resource : String) (resolution : ResolutionFilter) (items : List Comment) (ts : List Thread)
      → threads_of visit resource resolution items ≡ ok ts
      → All (IsThread items resource resolution) ts × IsNewestFirst ts
  threads_of_sound resource resolution items ts e = (
    All-of_In ts (λ t m. threads_of-IsThread resource resolution items ts t e m),
    threads_of-IsNewestFirst resource resolution items ts e,
  )

  -- Every stored root with an identifier of its own that the filters let through is listed, with
  -- all its visible replies, whatever order the runtime visits the map in.
  pub threads_of_complete :
      (resource : String) (resolution : ResolutionFilter) (items : List Comment) (ts : List Thread)
      (root : Comment)
      → threads_of visit resource resolution items ≡ ok ts
      → In root items
      → is_empty root.parent_id ≡ true
      → IsUniqueRoot items root
      → IsShown resource resolution
          (record { root = root; replies = sort before (filter (is_reply_of root.id) items) })
      → In (record { root = root; replies = sort before (filter (is_reply_of root.id) items) }) ts
  threads_of_complete resource resolution items ts root e m top unique shown =
      let g = groups items in
      let found =
        get-group_from (record { roots = []; replies = [] }) items root unique (inr (m, top)) in
      let here = In-of_get root.id g.roots root (unfold groups in found) in
      let visible = replies_at-groups root.id items in
      let built =
        threads_from_complete (resource == all_resources) (clean_resource resource)
          (default_filter resolution) g (visit g.roots) root.id root
          ((visits_all g.roots (root.id, root)).1 here)
          (rw visible (is_listed_of_IsShown resource resolution root _ shown)) in
      rw (threads_of-eq-ok visit resource resolution items ts e)
        ((In-sort newer _ _).1 (rw visible at built))
