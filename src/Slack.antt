-- ===== src/Slack.antt =====
-- slackapp: the app that notifies on Slack and previews links there. Here are the part of the Slack
-- client that it calls (interface API in slackapp/notifier.go), which is a parameter over a state,
-- and what it sends: the blocks of messages and the attachments of links.
pub mod Guests
pub mod Text
pub mod CardFiles
pub mod Attachments
pub mod Unfurl
pub mod Consent
pub mod Notifier
use open_trove.Base.{ℕ, String, Bool, List}
use open_trove.Base.Dict.{Dict}
use open_trove.Base.Exec.{Exec}
use open_trove.Storage.{Card}

-- slack.User
pub record User : Type 0 where
  pub id : String
  pub deleted : Bool
  pub is_bot : Bool
  pub is_restricted : Bool
  pub is_ultra_restricted : Bool

-- slack.Channel
pub record Channel : Type 0 where
  pub is_ext_shared : Bool
  pub is_pending_ext_shared : Bool

pub record Button : Type 0 where
  pub action_id : String
  pub value : String
  pub label : String
  pub style : String

-- The blocks that the app sends; all texts are mrkdwn, but for the labels of buttons.
pub data Block : Type 0 where
  section : String → Block
  field_section : List String → Block
  context_line : String → Block
  -- the identifier of a file on Slack and its alternative text
  file_image : String → String → Block
  actions : String → List Button → Block

-- slack.Attachment
pub record Attachment : Type 0 where
  pub color : String
  pub blocks : List Block

pub record Api (S : Type 0) : Type 0 where
  pub get_user_by_email : String → Exec S User
  -- the channel, the fallback text and the blocks; links in it are not unfurled
  pub post_message : String → String → List Block → Exec S (Unit {0})
  pub get_conversation_info : String → Exec S Channel
  -- the channel, the timestamp, the attachments by link, and the blocks of a prompt for leave, of
  -- which there are none unless leave is asked for
  pub unfurl_message : String → String → Dict Attachment → List Block → Exec S (Unit {0})
  pub get_users : Exec S (List User)
  -- the channel and the cursor; the members and the next cursor
  pub get_users_in_conversation : String → String → Exec S (List String × String)
  -- the card and the name of the file; the identifier of the file
  pub upload_file : Card → String → Exec S String
