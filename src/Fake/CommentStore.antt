-- ===== src/Fake/CommentStore.antt =====
-- storage/fake/store.go: the methods of the comment repository, and that they meet its contract.
use open_trove.Base.{
  String, Option, none, some, List, [], ◌∷◌, ◌++◌, ◌≡◌, refl, inl, inr, ◌==◌, eq_iff, if◌then◌else◌,
  ok, err, Result, sentinel, comment_not_found, arith, Option-cases,
}
use open_trove.Base.Dict.{get, put, without, get-put}
use open_trove.Base.Exec.{Exec}
use open_trove.Comments.{Comment, Repository}
use open_trove.Comments.Contract.{View, Contract}
use open_trove.Fake.{Store}

-- A key that is not in the map has the zero value, an empty slice.
abbrev or_empty : Option (List Comment) → List Comment
or_empty none = []
or_empty (some cs) = cs

unfoldable pub stored : Store → String → List Comment
stored s slug = or_empty (get slug s.comments)

unfoldable pub create_comment : Comment → Exec Store (Unit {0})
unfolding stored
create_comment c s =
    (ok tt, record s { comments = put c.slug (stored s c.slug ++ c ∷ []) s.comments })

abbrev prepend : Comment → Option (List Comment) → Option (List Comment)
prepend d none = none
prepend d (some es) = some (d ∷ es)

-- The loop of UpdateComment: the slice with the first entry of that identifier replaced.
unfoldable pub replaced : Comment → List Comment → Option (List Comment)
replaced c [] = none
replaced c (d ∷ ds) =
    let rest = prepend d (replaced c ds) in if d.id == c.id then some (c ∷ ds) else rest

abbrev update_to : Comment → Option (List Comment) → Exec Store (Unit {0})
update_to c none s = (err (sentinel comment_not_found), s)
update_to c (some cs) s = (ok tt, record s { comments = put c.slug cs s.comments })

unfoldable pub update_comment : Comment → Exec Store (Unit {0})
unfolding replaced stored
update_comment c s = update_to c (replaced c (stored s c.slug)) s

-- The loop of GetComment.
unfoldable pub find : String → List Comment → Option Comment
find id [] = none
find id (c ∷ cs) = if c.id == id then some c else find id cs

abbrev found_or_missing : Option Comment → Result Comment
found_or_missing none = err (sentinel comment_not_found)
found_or_missing (some c) = ok c

unfoldable pub get_comment : String → String → Exec Store Comment
unfolding find stored
get_comment slug id s = (found_or_missing (find id (stored s slug)), s)

unfoldable pub list_comments : String → Exec Store (List Comment)
unfolding stored
list_comments slug s = (ok (stored s slug), s)

unfoldable pub delete_comments : String → Exec Store (Unit {0})
delete_comments slug s = (ok tt, record s { comments = without slug s.comments })

abbrev pub repository : Repository Store
repository = record {
  create_comment = create_comment;
  update_comment = update_comment;
  get_comment = get_comment;
  list_comments = list_comments;
  delete_comments = delete_comments;
}

unfoldable pub view : Store → View
view s slug id = find id (stored s slug)

pub find-append :
    (id : String) (cs : List Comment) (c : Comment)
    → find c.id cs ≡ none
    → find id (cs ++ c ∷ []) ≡ (if c.id == id then some c else find id cs)
unfolding find
find-append id [] c fresh = refl
find-append id (d ∷ cs) c fresh =
    ground (arith, find-append id cs c, eq_iff d.id c.id, eq_iff d.id id, eq_iff c.id id)

pub find-replaced :
    (id : String) (c : Comment) (cs ds : List Comment)
    → replaced c cs ≡ some ds
    → find id ds ≡ (if c.id == id then some c else find id cs)
unfolding find replaced
find-replaced id c [] ds h = cc
find-replaced id c (d ∷ cs) ds h = elim (Option-cases (replaced c cs)) [
  | inl missing ↦ ground (arith, eq_iff d.id c.id, eq_iff d.id id, eq_iff c.id id)
  | inr (es, there) ↦
      ground
        (arith, find-replaced id c cs es there, eq_iff d.id c.id, eq_iff d.id id, eq_iff c.id id)
]

unfoldable pub fake_Contract : Contract repository
unfolding view stored get_comment create_comment update_comment
fake_Contract = record {
  view = view;
  get_keeps = λ slug id s j k. refl;
  get_ok = λ slug id s c h. ground arith;
  get_missing = λ slug id s e h m. ground arith;
  create_fresh = λ c s fresh. inl (λ slug id. ground (
    arith,
    get-put c.slug slug (stored s c.slug ++ c ∷ []) s.comments,
    find-append id (stored s c.slug) c fresh,
    eq_iff c.slug slug,
  ));
  update_result = λ c s. elim (Option-cases (replaced c (stored s c.slug))) [
    | inl missing ↦ inr ((λ slug id. rw missing), rw missing (λ e. cc e))
    | inr (cs, there) ↦ inl (λ slug id. ground (
      arith,
      there,
      get-put c.slug slug cs s.comments,
      find-replaced id c (stored s c.slug) cs there,
      eq_iff c.slug slug,
    ))
  ];
}
