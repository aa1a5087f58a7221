-- ===== src/Comments/Contract.antt =====
-- What a comment service expects of the repository and the observer behind it: the methods of
-- interface Repository (comments/comments.go), read through a view of what is stored. A write that
-- returns an error may have been made or not, and no write is half made.
use open_trove.Base.{
  String, true, ◌&&◌, Option, none, some, ◌≡◌, ◌≢◌, ◌⊎◌, ◌==◌, if◌then◌else◌, ok, err, is,
  comment_not_found, Error,
}
use open_trove.Comments.{Comment, Activity, Repository}

-- The stored comments by slug and identifier.
abbrev pub View : Type 0
View = String → String → Option Comment

abbrev pub Same : View → View → Type 0
Same v w = (slug id : String) → w slug id ≡ v slug id

-- `w` is `v` with the comment `c` written at its own slug and identifier.
abbrev pub Wrote : View → Comment → View → Type 0
Wrote v c w =
    (slug id : String) → w slug id ≡ (if c.slug == slug && c.id == id then some c else v slug id)

module _ {S : Type 0} where
  pub record Contract (repo : Repository S) : Type 0 where
    pub view : S → View
    pub get_keeps : (slug id : String) (s : S) → Same (view s) (view (repo.get_comment slug id s).1)
    pub get_ok :
        (slug id : String) (s : S) (c : Comment)
        → (repo.get_comment slug id s).0 ≡ ok c
        → view s slug id ≡ some c
    pub get_missing :
        (slug id : String) (s : S) (e : Error)
        → (repo.get_comment slug id s).0 ≡ err e
        → is e comment_not_found ≡ true
        → view s slug id ≡ none
    -- An identifier that is in use may be refused, or may hide the new comment: see `create_fresh`.
    pub create_fresh :
        (c : Comment) (s : S)
        → view s c.slug c.id ≡ none
        → Wrote (view s) c (view (repo.create_comment c s).1)
          ⊎ (Same (view s) (view (repo.create_comment c s).1)
              × ((repo.create_comment c s).0 ≢ ok tt))
    pub update_result :
        (c : Comment) (s : S)
        → Wrote (view s) c (view (repo.update_comment c s).1)
          ⊎ (Same (view s) (view (repo.update_comment c s).1)
              × ((repo.update_comment c s).0 ≢ ok tt))

  -- An observer leaves the stored comments alone.
  abbrev pub Observes : (S → View) → Option (Activity → S → S) → Type 0
  Observes view none = Unit
  Observes view (some observe) = (a : Activity) (s : S) → Same (view s) (view (observe a s))
