-- ===== src/Slack/Unfurl.antt =====
-- slackapp/unfurl.go: the links of a message, and previews for them.
pub mod Laws
use Prim.Native.Char.{code}
use Prim.Native.String.{[], ◌∷◌}
use open_trove.Base.{
  ℕ, ◌+◌, ltb, String, Bool, true, false, not, ◌&&◌, ◌||◌, ◌==◌, Option, none, some, List, ◌++◌,
  map, any, eqb, is_some, if◌then◌else◌, Error, Result, ok, err,
}
use open_trove.Base.Text.{is_empty, has_prefix, trim_prefix, split, Unicode, equal_fold}
use open_trove.Base.Dict.{Dict, put}
use open_trove.Base.Exec.{Exec}
use open_trove.Storage.{Card}
use open_trove.Slack.{Channel, Attachment, Block, Api}
use open_trove.Slack.Guests.{Directory, Answer, has_guests}
use open_trove.Slack.CardFiles.{CardFiles, file_id, reject}
use open_trove.Slack.Attachments.{Preview, attachment}

pub data Audience : Type 0 where
  only_members includes_guests unknown external : Audience

pub data Choice : Type 0 where
  full title_only no_preview : Choice

abbrev pub hidden_by_choice : String
hidden_by_choice = "shared as title only"

-- The host and the path of a URL that url.Parse accepts.
pub record Url : Type 0 where
  pub host : String
  pub path : String

-- What the unfurler keeps: the guests, the files of cards, and the world that it acts on.
pub record State (S : Type 0) : Type 0 where
  pub guests : Directory
  pub cards : CardFiles
  pub world : S

abbrev pub before_slash : List String → String
before_slash List.[] = ""
before_slash (List.◌∷◌ s rest) = s

abbrev is_title : Choice → Bool
is_title full = false
is_title title_only = true
is_title no_preview = false

-- For a choice of the title only, contents are withheld as for flagged artifacts.
unfoldable pub withheld : Choice → Preview → Preview
withheld choice p =
    if is_title choice && is_empty p.hidden_reason
    then record p { hidden_reason = hidden_by_choice }
    else p

-- The preview, with the file of its card if there is one now, and how many cards that makes.
abbrev with_file : Preview → Result String → Preview × ℕ
with_file p (err e) = (p, 0)
with_file p (ok id) = (record p { card_file_id = id }, 1)

abbrev filed :
    {S : Type 0} → Preview → Result String × CardFiles × S → (Preview × ℕ) × CardFiles × S
filed p (r, cards, s) = (with_file p r, cards, s)

abbrev pub attachment_of : String × Preview → String × Attachment
attachment_of (link, p) = (link, attachment link p)

abbrev has_file : String × Preview → Bool
has_file (link, p) = not (is_empty p.card_file_id)

abbrev with_dropped : String × Preview → Dict Preview × CardFiles → Dict Preview × CardFiles
with_dropped (link, p) (rest, cards) = (List.◌∷◌ (link, record p { card_file_id = "" }) rest, cards)

abbrev with_kept : String × Preview → Dict Preview × CardFiles → Dict Preview × CardFiles
with_kept entry (rest, cards) = (List.◌∷◌ entry rest, cards)

abbrev pub slug_of_path : String → Option String
slug_of_path path =
    let slug = before_slash (split 47 (trim_prefix path "/")) in
    if is_empty slug || has_prefix slug "_" then none else some slug

pub record ConsentRequest : Type 0 where
  pub channel : String
  pub ts : String
  pub user : String
  pub links : List String

-- json.Marshal and json.Unmarshal of a request, as a text.
pub record ConsentJson : Type 0 where
  pub marshal : ConsentRequest → Result String
  pub unmarshal : String → Result ConsentRequest

-- The unfurler, with what it calls: the client and the source of previews, the pause before another
-- attempt and the posts to a response URL, which all ask to delete the prompt; Go's packages for URLs, numbers and JSON; the order in
-- which a map is visited; and the clock, which the state of the world shows.
pub record Unfurler (S : Type 0) : Type 0 where
  pub host : String
  pub api : Api S
  pub preview : String → Exec S Preview
  pub sleep : Exec S (Unit {0})
  pub respond : String → Exec S (Unit {0})
  pub unicode : Unicode
  pub parse_url : String → Option Url
  pub parses_float : String → Bool
  pub json : ConsentJson
  pub visited : Dict Preview → Dict Preview
  pub clock : S → ℕ

module _ {S : Type 0} (app : Unfurler S) where
  unfoldable pub artifact_slug : String → Option String
  artifact_slug raw = elim (app.parse_url raw) [
    | none ↦ none
    | some url ↦ if equal_fold app.unicode url.host app.host then slug_of_path url.path else none
  ]

  -- The loop of HandleLinkShared over the links of the message.
  unfoldable pub kept_links : List String → List String → List String
  unfolding artifact_slug
  kept_links links List.[] = links
  kept_links links (List.◌∷◌ link rest) =
      kept_links
        (if is_some (artifact_slug link) && not (any (λ other. other == link) links)
          then links ++ List.◌∷◌ link List.[]
          else links)
        rest

  abbrev pub by_guests : Answer → Audience
  by_guests (has, some e) = unknown
  by_guests (true, none) = includes_guests
  by_guests (false, none) = only_members

  abbrev pub by_channel : String → Result Channel → State S → Audience × State S
  by_channel channel (err e) st = (unknown, st)
  by_channel channel (ok ch) st =
      if ch.is_ext_shared || ch.is_pending_ext_shared
      then (external, st)
      else let r = has_guests app.api (app.clock st.world) channel st.guests st.world in
        (by_guests r.0, record st { guests = r.1; world = r.2 })

  unfoldable pub audience : String → State S → Audience × State S
  audience channel st =
      let r = app.api.get_conversation_info channel st.world in
      by_channel channel r.0 (record st { world = r.1 })

  abbrev added : String → Dict Preview → Result Preview → Dict Preview
  added link previews (ok p) = put link p previews
  added link previews (err e) = previews

  -- The previews of the links that have one.
  unfoldable pub look_up : List String → Dict Preview → S → Dict Preview × S
  unfolding artifact_slug
  look_up List.[] previews s = (previews, s)
  look_up (List.◌∷◌ link links) previews s = elim (artifact_slug link) [
    | none ↦ look_up links previews s
    | some slug ↦ look_up links (added link previews (app.preview slug s).0) (app.preview slug s).1
  ]

  abbrev pub prepared : Option Card → Preview → CardFiles → S → (Preview × ℕ) × CardFiles × S
  prepared none p cards s = ((p, 0), cards, s)
  prepared (some card) p cards s =
      if is_empty p.hidden_reason
      then filed p (file_id app.api app.clock card cards s)
      else ((p, 0), cards, s)

  -- The loop that makes the previews ready, in the order in which the map is visited, and counts
  -- the cards.
  unfoldable pub prepare :
      Choice → Dict Preview → CardFiles → S → (Dict Preview × ℕ) × CardFiles × S
  unfolding withheld
  prepare choice List.[] cards s = ((List.[], 0), cards, s)
  prepare choice (List.◌∷◌ (link, p) rest) cards s =
      let first = prepared p.card (withheld choice p) cards s in
      let others = prepare choice rest first.1 first.2 in
      ((List.◌∷◌ (link, first.0.0) others.0.0, first.0.1 + others.0.1), others.1, others.2)

  unfoldable pub unfurl : String → String → Dict Preview → Exec S (Unit {0})
  unfurl channel ts previews =
      app.api.unfurl_message channel ts (map attachment_of previews) List.[]

  abbrev rejected_card : Option Card → CardFiles → S → CardFiles
  rejected_card none cards s = cards
  rejected_card (some card) cards s = reject app.api app.clock card cards s

  -- The loop that takes the files of cards off the previews again.
  unfoldable pub drop_cards : Dict Preview → CardFiles → S → Dict Preview × CardFiles
  drop_cards List.[] cards s = (List.[], cards)
  drop_cards (List.◌∷◌ (link, p) rest) cards s =
      let dropped = with_dropped (link, p) (drop_cards rest (rejected_card p.card cards s) s) in
      let kept = with_kept (link, p) (drop_cards rest cards s) in
      if has_file (link, p) then dropped else kept

  unfoldable pub as_text : String → String → Dict Preview → State S → State S
  unfolding drop_cards unfurl
  as_text channel ts previews st =
      let d = drop_cards (app.visited previews) st.cards st.world in
      record st { cards = d.1; world = (unfurl channel ts d.0 st.world).1 }

  abbrev pub again : String → String → Dict Preview → Result (Unit {0}) → State S → State S
  again channel ts previews (ok _) st = st
  again channel ts previews (err e) st = as_text channel ts previews st

  -- One more attempt with the images, unless the wait for it is cut short.
  abbrev pub retried : String → String → Dict Preview → Result (Unit {0}) → State S → State S
  retried channel ts previews (err e) st = as_text channel ts previews st
  retried channel ts previews (ok _) st =
      let r = unfurl channel ts previews st.world in
      again channel ts previews r.0 (record st { world = r.1 })

  abbrev pub first_sent : String → String → Dict Preview → ℕ → Result (Unit {0}) → State S → State S
  first_sent channel ts previews with_cards (ok _) st = st
  first_sent channel ts previews with_cards (err e) st =
      if ltb 0 with_cards
      then retried channel ts previews (app.sleep st.world).0
          (record st { world = (app.sleep st.world).1 })
      else st

  abbrev pub sent : String → String → State S → (Dict Preview × ℕ) × CardFiles × S → State S
  sent channel ts st ((previews, with_cards), cards, s) =
      let r = unfurl channel ts previews s in
      first_sent channel ts previews with_cards r.0 (record st { cards = cards; world = r.1 })

  abbrev pub send_found : String → String → Choice → State S → Dict Preview × S → State S
  send_found channel ts choice st (List.[], s) = record st { world = s }
  send_found channel ts choice st (List.◌∷◌ p ps, s) =
      sent channel ts st (prepare choice (app.visited (List.◌∷◌ p ps)) st.cards s)

  unfoldable pub send_previews : String → String → List String → Choice → State S → State S
  unfolding look_up prepare unfurl as_text
  send_previews channel ts links choice st =
      send_found channel ts choice st (look_up links List.[] st.world)
