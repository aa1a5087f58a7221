-- ===== src/Comments/Service/WellFormed.antt =====
-- What holds of each stored comment by itself, and of the comments that the methods build.
use Prim.Native.String.{len}
use open_trove.Base.{◌≤◌, String, Bool, true, false, none, ◌≡◌, if◌then◌else◌, is_some, ok, arith}
use open_trove.Base.Text.{is_empty, trim_space}
use open_trove.Base.Text.Laws.{trim_space_idempotent}
use open_trove.Comments.{Time, Comment, Anchor, CreateInput}
use open_trove.Comments.Validate.{validate_body, validate_create, max_body_length}
use open_trove.Comments.Service.{
  normalized, new_comment, with_thread_id, edited, tombstone, with_resolution,
}

-- A comment by itself: its thread is its root's, a tombstone has no body and a live comment has
-- one within the limit, and only a root can be resolved, by somebody.
pub record IsWellFormed (c : Comment) : Type 0 where
  pub thread : (with_thread_id c).thread_id ≡ (if is_empty c.parent_id then c.id else c.parent_id)
  pub tombstone_body : is_some c.deleted_at ≡ true → c.body ≡ ""
  pub live_body : is_some c.deleted_at ≡ false → is_empty c.body ≡ false
  pub size : len c.body ≤ max_body_length
  pub open_thread : is_some c.resolved_at ≡ false → c.resolved_by_email ≡ ""
  pub resolver : is_some c.resolved_at ≡ true → is_empty (trim_space c.resolved_by_email) ≡ false
  pub reply : is_empty c.parent_id ≡ false → is_some c.resolved_at ≡ false
  pub author : is_empty (trim_space c.author_email) ≡ false

pub validate_body-eq-ok :
    (raw body : String)
    → validate_body raw ≡ ok body
    → (body ≡ trim_space raw) × (is_empty body ≡ false) × (len body ≤ max_body_length)
unfolding validate_body
validate_body-eq-ok raw body h = ground arith

pub validate_create-eq-ok :
    (slug author : String) (raw : CreateInput)
    → validate_create slug author (normalized raw) ≡ ok tt
    → (is_empty (trim_space author) ≡ false)
      × (validate_body (trim_space raw.body) ≡ ok (trim_space raw.body))
unfolding validate_create validate_body
validate_create-eq-ok slug author raw h = ground (arith, trim_space_idempotent raw.body)

pub with_thread_id-IsWellFormed : (c : Comment) → IsWellFormed c → IsWellFormed (with_thread_id c)
unfolding with_thread_id
with_thread_id-IsWellFormed c w = ground arith

pub edited-IsWellFormed :
    (c : Comment) (body : String) (now : Time) (actor : String)
    → IsWellFormed c
    → c.deleted_at ≡ none
    → is_empty body ≡ false
    → len body ≤ max_body_length
    → IsWellFormed (edited c body now actor)
unfolding with_thread_id
edited-IsWellFormed c body now actor w live full short = ground arith

pub tombstone-IsWellFormed :
    (c : Comment) (now : Time) (actor : String)
    → IsWellFormed c
    → IsWellFormed (tombstone c now actor)
unfolding with_thread_id
tombstone-IsWellFormed c now actor w = ground arith

pub with_resolution-IsWellFormed :
    (c : Comment) (resolved : Bool) (now : Time) (actor : String)
    → IsWellFormed c
    → is_empty c.parent_id ≡ true
    → is_empty (trim_space actor) ≡ false
    → IsWellFormed (with_resolution c resolved now actor)
unfolding with_thread_id
with_resolution-IsWellFormed c true now actor w root named = ground arith
with_resolution-IsWellFormed c false now actor w root named = ground arith

pub new_comment-IsWellFormed :
    (id parent slug author body : String) (now : Time) (version : String) (anchor : Anchor)
    → is_empty (trim_space author) ≡ false
    → is_empty body ≡ false
    → len body ≤ max_body_length
    → IsWellFormed (
        new_comment id
          (if is_empty parent then id else parent)
          parent
          slug
          author
          body
          now
          version
          anchor)
unfolding with_thread_id
new_comment-IsWellFormed id parent slug author body now version anchor named full short =
    ground arith
