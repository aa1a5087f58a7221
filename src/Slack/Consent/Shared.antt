-- ===== src/Slack/Consent/Shared.antt =====
-- slackapp: contents are shown in a conversation of members, or by leave of who shared the link.
use open_trove.Base.{String, true, false, none, some, List, [], ◌≡◌, ◌⊎◌, Error, ok, err, All}
use open_trove.Slack.{User, Channel}
use open_trove.Slack.Guests.{Answer, has_guests}
use open_trove.Slack.Guests.Laws.{IsShown, HasNone}
use open_trove.Slack.Unfurl.{
  Unfurler, Audience, includes_guests, unknown, full, State, kept_links, audience,
}
use open_trove.Slack.Consent.Kept.{IsArtifactLink}
use open_trove.Slack.Consent.Laws.{Asks}
use open_trove.Slack.Consent.{LinkShared, send}

module _ {S : Type 0} (app : Unfurler S) where
  abbrev seen_by : String → State S → Audience × State S
  seen_by = audience app

  module _ (everyone : List User) (page : String → String → List String × String)
      (shown : IsShown app.api everyone page) where
    -- Slack says of the conversation that it is not shared with another organization.
    pub record IsInternal (channel : String) (s : S) : Type 0 where
      pub about : Channel
      pub looked_up : (app.api.get_conversation_info channel s).0 ≡ ok about
      pub unshared : about.is_ext_shared ≡ false
      pub unpending : about.is_pending_ext_shared ≡ false

    -- Slack says that it is.
    pub record IsExternal (channel : String) (s : S) : Type 0 where
      pub about : Channel
      pub looked_up : (app.api.get_conversation_info channel s).0 ≡ ok about
      pub outside : (about.is_ext_shared ≡ true) ⊎ (about.is_pending_ext_shared ≡ true)

    -- What the directory answers about a conversation, once Slack has been asked about it.
    abbrev pub directory : String → State S → Answer
    directory channel st =
        let after = (app.api.get_conversation_info channel st.world).1 in
        (has_guests app.api (app.clock after) channel st.guests after).0

    -- Why the sharer is asked: Slack says nothing of the conversation; or it is internal, and the
    -- directory fails or finds guests.
    pub data Doubts (channel : String) (st : State S) : Audience → Type 0 where
      no_look_up :
          (e : Error)
          → (app.api.get_conversation_info channel st.world).0 ≡ err e
          → Doubts channel st unknown
      no_directory :
          (e : Error)
          → IsInternal channel st.world
          → (directory channel st).1 ≡ some e
          → Doubts channel st unknown
      guests_found :
          IsInternal channel st.world
          → (directory channel st).0 ≡ true
          → (directory channel st).1 ≡ none
          → Doubts channel st includes_guests

    -- What becomes of a shared message.
    pub data Ends (ev : LinkShared) (st : State S) : State S → Type 0 where
      ignored :
          {st' : State S}
          → (app.parses_float ev.ts ≡ false) ⊎ (kept_links app [] ev.links ≡ [])
          → st' ≡ st
          → Ends ev st st'
      looked :
          {st' : State S}
          → IsExternal ev.channel st.world
          → st' ≡ record st { world = (app.api.get_conversation_info ev.channel st.world).1 }
          → Ends ev st st'
      previewed :
          {st' : State S} (links : List String)
          → links ≡ kept_links app [] ev.links
          → All (IsArtifactLink app) links
          → IsInternal ev.channel st.world
          → HasNone app.api everyone page ev.channel
          → st' ≡ send app ev.channel ev.ts links full (seen_by ev.channel st).1
          → Ends ev st st'
      prompting :
          {st' : State S} (aud : Audience)
          → Doubts ev.channel st aud
          → Asks app ev (kept_links app [] ev.links) (seen_by ev.channel st).1 st'
          → Ends ev st st'
