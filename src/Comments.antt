-- ===== src/Comments.antt =====
-- comments/comments.go: the types of package comments. The operations are in the modules below.
pub mod Validate
pub mod Contract
pub mod Service
pub mod Listing
use open_trove.Base.{ℕ, String, Bool, Option, List, ◌≡◌}
use open_trove.Base.Int.{ℤ}
use open_trove.Base.Exec.{Exec}

-- time.Time: nanoseconds since the zero time, in UTC.
abbrev pub Time : Type 0
Time = ℕ

-- `unset` is the empty string.
pub data AnchorType : Type 0 where
  unset file element text : AnchorType
  other : String → AnchorType

pub data ResolutionFilter : Type 0 where
  unset_filter open_only include only : ResolutionFilter
  other_filter : String → ResolutionFilter

pub record TextQuote : Type 0 where
  pub exact : String
  pub prefix : String
  pub suffix : String

pub record Rect : Type 0 where
  pub x : ℤ
  pub y : ℤ
  pub width : ℤ
  pub height : ℤ

pub record Anchor : Type 0 where
  pub type : AnchorType
  pub resource : String
  pub stable_id : String
  pub selector : String
  pub label : String
  pub tag : String
  pub role : String
  pub visible_text : String
  pub container : String
  pub quote : TextQuote
  pub rect : Rect

pub record Comment : Type 0 where
  pub id : String
  pub thread_id : String
  pub parent_id : String
  pub slug : String
  pub author_email : String
  pub body : String
  pub created_at : Time
  pub edited_at : Option Time
  pub edited_by_email : String
  pub deleted_at : Option Time
  pub deleted_by_email : String
  pub resolved_at : Option Time
  pub resolved_by_email : String
  pub artifact_version : String
  pub anchor : Anchor

pub record Thread : Type 0 where
  pub root : Comment
  pub replies : List Comment

pub record CreateInput : Type 0 where
  pub body : String
  pub anchor : Anchor

pub data ActivityKind : Type 0 where
  thread_created reply_created thread_resolved thread_reopened : ActivityKind

pub record Activity : Type 0 where
  pub kind : ActivityKind
  pub slug : String
  pub actor_email : String
  pub comment : Comment

-- The interface Repository, over what its implementation keeps.
pub record Repository (S : Type 0) : Type 0 where
  pub create_comment : Comment → Exec S (Unit {0})
  pub update_comment : Comment → Exec S (Unit {0})
  pub get_comment : String → String → Exec S Comment
  pub list_comments : String → Exec S (List Comment)
  pub delete_comments : String → Exec S (Unit {0})
