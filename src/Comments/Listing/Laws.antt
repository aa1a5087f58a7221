-- ===== src/Comments/Listing/Laws.antt =====
-- The threads that the loops of List build: which comments stand in them, and which pass.
use mathlib.Core.List.{append-nil, append_assoc}
use open_trove.Base.{
  ◌≤◌, String, Bool, true, false, not, ◌&&◌, List, [], ◌∷◌, ◌++◌, ◌==◌, ◌≡◌, ◌≢◌, refl, sym, ap,
  ◌∙◌, subst, ◌⊎◌, inl, inr, arith, eq_iff, filter, In, Bool-cases, is_some, if◌then◌else◌,
}
use open_trove.Base.Text.{is_empty}
use open_trove.Base.Dict.{Dict, get, put, without, get-put}
use open_trove.Base.Sort.{sort, In-sort, sort-IsSorted, Ordered, Ordered-of_IsSorted}
use open_trove.Comments.{Comment, Thread, ResolutionFilter, open_only, only}
use open_trove.Comments.Validate.{clean_resource}
use open_trove.Comments.Listing.{
  all_resources, default_filter, Groups, replies_at, add_item, group_from, groups, before,
  is_listed, threads_from,
}

-- A visible reply of the thread `id`.
abbrev pub is_reply_of : String → Comment → Bool
is_reply_of id c = not (is_empty c.parent_id) && not (is_some c.deleted_at) && c.thread_id == id

replies_at-add_item :
    (id : String) (g : Groups) (c : Comment)
    → replies_at id (add_item g c)
      ≡ (if is_reply_of id c then replies_at id g ++ c ∷ [] else replies_at id g)
unfolding add_item
replies_at-add_item id g c = ground (
  arith,
  get-put c.thread_id id (replies_at c.thread_id g ++ c ∷ []) g.replies,
  eq_iff c.thread_id id,
)

replies_at-group_from :
    (id : String) (g : Groups) (items : List Comment)
    → replies_at id (group_from g items) ≡ replies_at id g ++ filter (is_reply_of id) items
unfolding group_from
replies_at-group_from id g [] = sym (append-nil _)
replies_at-group_from id g (c ∷ items) = ground (
  arith,
  replies_at-group_from id (add_item g c) items,
  replies_at-add_item id g c,
  append_assoc (replies_at id g) (c ∷ []) (filter (is_reply_of id) items),
)

-- The replies of a thread are the visible replies with its identifier, in the order of storage.
pub replies_at-groups :
    (id : String) (items : List Comment)
    → replies_at id (groups items) ≡ filter (is_reply_of id) items
unfolding groups get
replies_at-groups id items = replies_at-group_from id _ items

pub In-without :
    {V : Type 0} (k : String) (x : String × V) (d : Dict V) → In x (without k d) → In x d
unfolding without
In-without k x [] m = m
In-without k x ((j, v) ∷ d) m = ground (arith, In-without k x d)

In-add_item :
    (g : Groups) (c : Comment) (x : String × Comment)
    → In x (add_item g c).roots
    → ((x ≡ (c.id, c)) × (is_empty c.parent_id ≡ true)) ⊎ In x g.roots
unfolding add_item put
In-add_item g c x m = ground (arith, In-without c.id x g.roots)

-- The entry is one of the roots among the items, under its identifier.
pub record IsRoot (items : List Comment) (id : String) (root : Comment) : Type 0 where
  pub listed : In root items
  pub top : is_empty root.parent_id ≡ true
  pub key : id ≡ root.id

In-group_from :
    (g : Groups) (items : List Comment) (id : String) (root : Comment)
    → In (id, root) (group_from g items).roots
    → IsRoot items id root ⊎ In (id, root) g.roots
unfolding group_from
In-group_from g [] id root m = inr m
In-group_from g (c ∷ items) id root m = elim (In-group_from (add_item g c) items id root m) [
  | inl r ↦ inl (record { listed = inr r.listed; top = r.top; key = r.key })
  | inr earlier ↦ elim (In-add_item g c (id, root) earlier) [
    | inl (same, top) ↦
        let at_root : root ≡ c = ap (λ (x : String × Comment). x.1) same in
        inl (record {
          listed = inl at_root;
          top = rw at_root top;
          key = rw at_root (ap (λ (x : String × Comment). x.0) same);
        })
    | inr old ↦ inr old
  ]
]

pub In-groups :
    (items : List Comment) (id : String) (root : Comment)
    → In (id, root) (groups items).roots
    → IsRoot items id root
unfolding groups
In-groups items id root m = elim (In-group_from _ items id root m) [ inl r ↦ r | inr n ↦ absurd n ]

-- A thread that the filters let through: it is on the requested page, or on none, or every page
-- is requested; its resolution is the one asked for; and a deleted root has visible replies.
pub record IsShown (resource : String) (resolution : ResolutionFilter) (t : Thread) : Type 0 where
  pub page :
      (resource ≡ all_resources)
      ⊎ (is_empty (clean_resource t.root.anchor.resource) ≡ true)
      ⊎ (clean_resource t.root.anchor.resource ≡ clean_resource resource)
  pub unresolved : default_filter resolution ≡ open_only → is_some t.root.resolved_at ≡ false
  pub resolved : resolution ≡ only → is_some t.root.resolved_at ≡ true
  pub kept : is_some t.root.deleted_at ≡ true → t.replies ≢ []

-- Each reply is as old as those that follow it, or older.
abbrev pub IsOldestFirst : List Comment → Type 0
IsOldestFirst = Ordered (λ a b. a.created_at ≤ b.created_at)

sort-IsOldestFirst : (cs : List Comment) → IsOldestFirst (sort before cs)
sort-IsOldestFirst cs =
    Ordered-of_IsSorted before (λ a b. a.created_at ≤ b.created_at) (λ a b h. ground arith)
      (sort before cs) (sort-IsSorted before (λ a b h. ground arith) (λ a b c h k. ground arith) cs)

-- A thread as List shows it: a stored root with all its visible replies, oldest first.
pub record IsThread (items : List Comment) (resource : String) (resolution : ResolutionFilter)
    (t : Thread) : Type 0 where
  pub root : IsRoot items t.root.id t.root
  pub replies : t.replies ≡ sort before (filter (is_reply_of t.root.id) items)
  pub oldest_first : IsOldestFirst t.replies
  pub shown : IsShown resource resolution t

sort-nil_iff : (cs : List Comment) → sort before cs ≡ [] → cs ≡ []
sort-nil_iff [] e = refl
sort-nil_iff (c ∷ cs) e =
    absurd (subst (λ l. In c l → ⊥) (sym e) (λ m. m) ((In-sort before c (c ∷ cs)).1 (inl refl)))

is_listed-IsShown :
    (resource : String) (resolution : ResolutionFilter) (root : Comment) (replies : List Comment)
    → is_listed
        (resource == all_resources)
        (clean_resource resource)
        (default_filter resolution)
        root
        replies
      ≡ true
    → IsShown resource resolution (record { root = root; replies = sort before replies })
unfolding is_listed
is_listed-IsShown resource resolution root replies h = record {
  page = ground (
    arith,
    eq_iff resource all_resources,
    eq_iff (clean_resource root.anchor.resource) (clean_resource resource),
  );
  unresolved = ground arith;
  resolved = λ e. ground arith;
  kept = λ gone e. ground (arith, sort-nil_iff replies e);
}

pub threads_from-In :
    (items : List Comment) (resource : String) (resolution : ResolutionFilter)
    (roots : List (String × Comment)) (t : Thread)
    → ((x : String × Comment) → In x roots → IsRoot items x.0 x.1)
    → In t (
        threads_from
          (resource == all_resources)
          (clean_resource resource)
          (default_filter resolution)
          (groups items)
          roots)
    → IsThread items resource resolution t
unfolding threads_from
threads_from-In items resource resolution [] t known m = absurd m
threads_from-In items resource resolution ((id, root) ∷ roots) t known m =
    let later = threads_from-In items resource resolution roots t (λ x n. known x (inr n)) in
    let own = known (id, root) (inl refl) in
    elim (Bool-cases (
      is_listed (resource == all_resources) (clean_resource resource) (default_filter resolution)
        root (replies_at id (groups items)))) [
          | inl listed ↦ elim (rw listed at m) [
            | inl same ↦ rw same (record {
              root = record { listed = own.listed; top = own.top; key = refl };
              replies =
                  ap (sort before) (replies_at-groups id items)
                  ∙ ap (λ (k : String). sort before (filter (is_reply_of k) items)) own.key;
              oldest_first = sort-IsOldestFirst (replies_at id (groups items));
              shown =
                  is_listed-IsShown resource resolution root (replies_at id (groups items)) listed;
            })
            | inr n ↦ later n
          ]
          | inr hidden ↦ later (rw hidden at m)
        ]
