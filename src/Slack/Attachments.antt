-- ===== src/Slack/Attachments.antt =====
-- slackapp/unfurl.go: what the preview of a link shows.
pub mod Laws
use open_trove.Base.{
  ℕ, String, Bool, true, false, not, ◌&&◌, ◌||◌, Option, none, some, List, [], ◌∷◌, ◌++◌, map, eqb,
  if◌then◌else◌,
}
use open_trove.Base.Text.{is_empty, append, join}
use open_trove.Storage.{Card}
use open_trove.Preview.Summary.{Summary, Stat, label, itoa}
use open_trove.Slack.{Block, section, field_section, context_line, file_image, Attachment}
use open_trove.Slack.Text.{escape, replace_from, replace_all, without_bars, link_text, excerpt}

pub record CommentExcerpt : Type 0 where
  pub author_email : String
  pub body : String
  pub url : String

pub record Preview : Type 0 where
  pub summary : Summary
  pub owner_email : String
  pub open_threads : ℕ
  pub latest_comment : Option CommentExcerpt
  pub hidden_reason : String
  pub card : Option Card
  pub card_file_id : String

abbrev pub accent_color : String
accent_color = "#0F766E"

abbrev pub comment_excerpt_runes : ℕ
comment_excerpt_runes = 140

abbrev pub titled : Preview → String
titled p = if is_empty p.summary.title then "Trove artifact" else p.summary.title

abbrev pub is_hidden : Preview → Bool
is_hidden p = not (is_empty p.hidden_reason)

abbrev pub shows_card : Preview → Bool
shows_card p = not (is_hidden p) && not (is_empty p.card_file_id)

-- The blocks of `bs`, if they are wanted.
abbrev only_if : Bool → List Block → List Block
only_if wanted bs = if wanted then bs else []

unfoldable pub headline : String → Preview → Block
unfolding link_text
headline link p =
    let head = append "*<" (append link (append "|" (append (link_text (titled p)) ">*"))) in
    section (
      if not (is_empty p.summary.description) && not (is_hidden p)
      then append head (append "\n" (escape p.summary.description))
      else head)

abbrev card_alt : Preview → String → String
card_alt p alt = if is_empty alt then append "Preview of " (titled p) else alt

-- The card is there where it has a file.
unfoldable pub card_block : Preview → List Block
card_block p = elim p.card [
  | none ↦ []
  | some card ↦ only_if (shows_card p) (file_image p.card_file_id (card_alt p card.alt) ∷ [])
]

abbrev stat_field : Stat → String
stat_field st = append "*" (append (escape st.label) (append "*\n" (escape st.value)))

abbrev is_listed : {A : Type 0} → List A → Bool
is_listed [] = false
is_listed (x ∷ xs) = true

unfoldable pub content_blocks : Preview → List Block
unfolding escape replace_from
content_blocks p = only_if (not (is_hidden p)) (
    only_if (is_listed p.summary.stats) (field_section (map stat_field p.summary.stats) ∷ [])
    ++ (only_if (not (is_empty p.summary.snippet) && not (shows_card p)) (
          section (
            append "```"
              (append (escape (replace_all p.summary.snippet "```" "`\u{200b}``")) "```"))
          ∷ [])
        ++ only_if (is_listed p.summary.sections && not (shows_card p)) (
            context_line (append "*Contents:* " (join " · " (map escape p.summary.sections)))
            ∷ [])))

unfoldable pub thread_count : ℕ → List String
thread_count n =
    if eqb n 0
    then []
    else if eqb n 1
    then "1 open comment thread" ∷ []
    else append (itoa n) " open comment threads" ∷ []

unfoldable pub details : Preview → Block
unfolding escape thread_count
details p = context_line (
    join " · " (
      escape (label p.summary.kind)
      ∷ ((if is_hidden p then [] else map escape p.summary.facts)
          ++ ((if is_empty p.owner_email
                then []
                else append "uploaded by " (escape p.owner_email) ∷ [])
              ++ thread_count p.open_threads))))

abbrev quoted : CommentExcerpt → String
quoted c =
    let text = append "“" (append (escape (excerpt c.body comment_excerpt_runes)) "”") in
    if is_empty c.url
    then text
    else append "<" (append c.url (append "|" (append (without_bars text) ">")))

abbrev comment_block : Option CommentExcerpt → List Block
comment_block none = []
comment_block (some c) = only_if (not (is_empty c.body)) (
    context_line
      (append ":speech_balloon: " (append (quoted c) (append " — " (escape c.author_email))))
    ∷ [])

unfoldable pub closing : Preview → List Block
unfolding escape replace_from excerpt
closing p =
    if is_hidden p
    then context_line (append ":lock: Preview content hidden: " (escape p.hidden_reason)) ∷ []
    else comment_block p.latest_comment

unfoldable pub attachment : String → Preview → Attachment
unfolding headline card_block content_blocks details closing
attachment link p = record {
  color = accent_color;
  blocks = headline link p ∷ (card_block p ++ (content_blocks p ++ (details p ∷ closing p)));
}
