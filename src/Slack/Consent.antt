-- ===== src/Slack/Consent.antt =====
-- slackapp/consent.go: the prompt that asks who shared links whether to show previews, and the
-- answer to it.
pub mod Laws
pub mod Kept
pub mod Shared
pub mod Answers
use Prim.Native.String.{len}
use open_trove.Base.{
  ℕ, String, Bool, true, false, not, ◌&&◌, ◌||◌, ◌==◌, Option, none, some, List, [], ◌∷◌, ◌++◌,
  filter, is_some, leb, ltb, if◌then◌else◌, Error, Result, ok, err,
}
use open_trove.Base.Text.{is_empty, append, has_prefix, drop_prefix, Unicode}
use open_trove.Base.Dict.{Dict}
use open_trove.Base.Exec.{Exec}
use open_trove.Slack.{Button, Block, section, actions, Api}
use open_trove.Slack.Attachments.{Preview}
use open_trove.Slack.Unfurl.{
  Unfurler, ConsentRequest, ConsentJson, Audience, only_members, includes_guests, unknown, external,
  Choice, full, title_only, no_preview, Url, State, artifact_slug, kept_links, audience,
  send_previews,
}

abbrev pub consent_action_prefix : String
consent_action_prefix = "trove_unfurl_"

abbrev pub max_button_value : ℕ
max_button_value = 2000

-- slackevents.LinkSharedEvent
pub record LinkShared : Type 0 where
  pub channel : String
  pub ts : String
  pub user : String
  pub links : List String

-- slack.BlockAction and slack.InteractionCallback
pub record Action : Type 0 where
  pub action_id : String
  pub value : String

pub record Callback : Type 0 where
  pub user : String
  pub block_actions : List Action
  pub response_url : String

module _ (json : ConsentJson) where
  -- The length of what Marshal gives, which is nothing where it fails.
  abbrev pub marshalled_len : Result String → ℕ
  marshalled_len (ok value) = len value
  marshalled_len (err e) = 0

  -- The loop that collects links as long as the request fits into the value of a button.
  unfoldable pub fitting : ConsentRequest → List String → ConsentRequest
  fitting req [] = req
  fitting req (link ∷ links) =
      let more = record req { links = req.links ++ link ∷ [] } in
      let rest = fitting more links in
      if ltb max_button_value (marshalled_len (json.marshal more)) then req else rest

abbrev pub choice_text : Choice → String
choice_text full = "full"
choice_text title_only = "title"
choice_text no_preview = "none"

abbrev pub button : String → Choice → String → String → Button
button value choice label style = record {
  action_id = append consent_action_prefix (choice_text choice);
  value = value;
  label = label;
  style = style;
}

abbrev question : Audience → String
question includes_guests =
    ":warning: This conversation includes guests (people outside Gametime). Show a preview of this Trove link with its content?"
question _ =
    "Trove can't see who's in this conversation. Show a preview of this Trove link? Only if everyone here works at Gametime."

unfoldable pub prompt : Audience → String → List Block
unfolding append
prompt aud value =
    section (question aud)
    ∷ actions "trove_unfurl_prompt" (
        button value full "Show preview" "primary"
        ∷ button value title_only "Title only" ""
        ∷ button value no_preview "Don't preview" ""
        ∷ [])
    ∷ []

module _ {S : Type 0} (app : Unfurler S) where
  abbrev pub prompted : LinkShared → Audience → Result String → State S → State S
  prompted ev aud (err e) st = st
  prompted ev aud (ok value) st = record st {
    world = (app.api.unfurl_message ev.channel ev.ts [] (prompt aud value) st.world).1;
  }

  abbrev pub asked : LinkShared → Audience → ConsentRequest → List String → State S → State S
  asked ev aud req [] st = st
  asked ev aud req (link ∷ links) st = prompted ev aud (app.json.marshal req) st

  abbrev pub request_of : LinkShared → ConsentRequest
  request_of ev = record { channel = ev.channel; ts = ev.ts; user = ev.user; links = [] }

  unfoldable pub ask_sharer : LinkShared → List String → Audience → State S → State S
  unfolding fitting prompt
  ask_sharer ev links aud st =
      let req = fitting app.json (request_of ev) links in asked ev aud req req.links st

  abbrev pub send : String → String → List String → Choice → State S → State S
  send = send_previews app

  abbrev pub by_audience : LinkShared → List String → Audience × State S → State S
  by_audience ev links (external, st) = st
  by_audience ev links (only_members, st) = send ev.channel ev.ts links full st
  by_audience ev links (includes_guests, st) = ask_sharer ev links includes_guests st
  by_audience ev links (unknown, st) = ask_sharer ev links unknown st

  abbrev pub shared : LinkShared → List String → State S → State S
  shared ev [] st = st
  shared ev (link ∷ links) st = by_audience ev (link ∷ links) (audience app ev.channel st)

  unfoldable pub handle_link_shared : LinkShared → State S → State S
  unfolding ask_sharer
  handle_link_shared ev st =
      if app.parses_float ev.ts then shared ev (kept_links app [] ev.links) st else st

  -- The switch over the choice, which may be none that is known.
  abbrev pub apply_choice : String → ConsentRequest → List String → State S → State S
  apply_choice choice req links st =
      if choice == "full"
      then send req.channel req.ts links full st
      else if choice == "title"
      then send req.channel req.ts links title_only st
      else st

  abbrev pub cleaned_up : Callback → State S → State S
  cleaned_up cb st =
      if is_empty cb.response_url
      then st
      else record st { world = (app.respond cb.response_url st.world).1 }

  abbrev pub is_artifact_link : String → Bool
  is_artifact_link link = is_some (artifact_slug app link)

  -- The request of an action, if the answer to it counts.
  abbrev pub accepted : Callback → Result ConsentRequest → Option ConsentRequest
  accepted cb (err e) = none
  accepted cb (ok req) =
      if is_empty req.user || not (req.user == cb.user)
      then none
      else if not (app.parses_float req.ts) || is_empty req.channel
      then none
      else some req

  -- The choice of an action and the request that it answers, unless the loop passes it over.
  unfoldable pub answer_of : Callback → Action → Option (String × ConsentRequest)
  answer_of cb action =
      if has_prefix action.action_id consent_action_prefix
      then elim (accepted cb (app.json.unmarshal action.value)) [
        | none ↦ none
        | some req ↦ some (drop_prefix action.action_id consent_action_prefix, req)
      ]
      else none

  unfoldable pub handle_actions : Callback → List Action → State S → State S
  unfolding answer_of
  handle_actions cb [] st = st
  handle_actions cb (action ∷ rest) st = elim (answer_of cb action) [
    | none ↦ handle_actions cb rest st
    | some (choice, req) ↦
        cleaned_up cb (apply_choice choice req (filter is_artifact_link req.links) st)
  ]

  unfoldable pub handle_consent : Callback → State S → State S
  unfolding handle_actions
  handle_consent cb = handle_actions cb cb.block_actions
