-- ===== src/Slack/Consent/Laws.antt =====
-- slackapp/consent.go: what the prompt carries.
use Prim.Native.String.{len}
use mathlib.Core.List.{append_assoc}
use open_trove.Base.{
  sym, ◌∙◌, ◌≤◌, String, List, [], ◌∷◌, ◌++◌, ltb, ltb-false→le, ◌≡◌, refl, ◌⊎◌, inl, inr,
  Bool-cases, Result-cases, arith, ok,
}
use open_trove.Slack.Unfurl.{
  Unfurler, ConsentRequest, ConsentJson, Audience, only_members, includes_guests, unknown, external,
  State,
}
use open_trove.Slack.{Block, section, actions}
use open_trove.Base.Text.{append}
use open_trove.Slack.Consent.{
  LinkShared, max_button_value, marshalled_len, fitting, prompt, asked, request_of, ask_sharer,
}

module _ (json : ConsentJson) where
  abbrev Fits : ConsentRequest → Type 0
  Fits req = (req.links ≡ []) ⊎ (marshalled_len json (json.marshal req) ≤ max_button_value)

  fitting-Fits :
      (req : ConsentRequest) (links : List String) → Fits req → Fits (fitting json req links)
  unfolding fitting
  fitting-Fits req [] fits = fits
  fitting-Fits req (link ∷ links) fits =
      let more = record req { links = req.links ++ link ∷ [] } in
      elim (Bool-cases (ltb max_button_value (marshalled_len json (json.marshal more)))) [
        | inl over ↦ rw over fits
        | inr within ↦ rw within (fitting-Fits more links (inr (ltb-false→le _ _ within)))
      ]

  fitting-about :
      (req : ConsentRequest) (links : List String)
      → ((fitting json req links).channel ≡ req.channel)
        × ((fitting json req links).ts ≡ req.ts)
        × ((fitting json req links).user ≡ req.user)
  unfolding fitting
  fitting-about req [] = (refl, refl, refl)
  fitting-about req (link ∷ links) =
      let more = record req { links = req.links ++ link ∷ [] } in
      elim (Bool-cases (ltb max_button_value (marshalled_len json (json.marshal more)))) [
        | inl over ↦ rw over ((refl, refl, refl))
        | inr within ↦ rw within (fitting-about more links)
      ]

  -- The links that fit come first among those that there are.
  fitting-links :
      (req : ConsentRequest) (links : List String)
      → (rest : List String) × (req.links ++ links ≡ (fitting json req links).links ++ rest)
  unfolding fitting
  fitting-links req [] = ([], refl)
  fitting-links req (link ∷ links) =
      let more = record req { links = req.links ++ link ∷ [] } in
      elim (Bool-cases (ltb max_button_value (marshalled_len json (json.marshal more)))) [
        | inl over ↦ rw over ((link ∷ links, refl))
        | inr within ↦
            let (rest, same) = fitting-links more links in
            rw within ((rest, sym (append_assoc req.links (link ∷ []) links) ∙ same))
      ]

-- A question with three buttons for the choices, each of which carries the request.
abbrev pub Offers : String → List Block → Type 0
Offers value blocks =
    (question yes titles no : String) × (blocks
      ≡ section question
        ∷ actions "trove_unfurl_prompt" (
            record {
              action_id = "trove_unfurl_full";
              value = value;
              label = yes;
              style = "primary";
            }
            ∷ record { action_id = "trove_unfurl_title"; value = value; label = titles; style = "" }
            ∷ record { action_id = "trove_unfurl_none"; value = value; label = no; style = "" }
            ∷ [])
        ∷ [])

prompt-Offers : (aud : Audience) (value : String) → Offers value (prompt aud value)
unfolding prompt append
prompt-Offers includes_guests value = (_, _, _, _, refl)
prompt-Offers unknown value = (_, _, _, _, refl)
prompt-Offers only_members value = (_, _, _, _, refl)
prompt-Offers external value = (_, _, _, _, refl)

module _ {S : Type 0} (app : Unfurler S) where
  -- The state after the sharer of a message is asked: nothing is done, or a prompt is sent without
  -- any attachment, and its buttons carry a request of at most two thousand bytes that names the
  -- message and the sharer.
  pub record IsPrompt (ev : LinkShared) (links : List String) (req : ConsentRequest)
      (value : String) : Type 0 where
    pub encoded : app.json.marshal req ≡ ok value
    pub fits : len value ≤ max_button_value
    pub in_channel : req.channel ≡ ev.channel
    pub of_message : req.ts ≡ ev.ts
    pub by_sharer : req.user ≡ ev.user
    pub about : (rest : List String) × (links ≡ req.links ++ rest)

  abbrev pub Asks : LinkShared → List String → State S → State S → Type 0
  Asks ev links st st' =
      (st' ≡ st)
      ⊎ ((req : ConsentRequest) × (value : String) × (blocks : List Block) × IsPrompt ev links req
            value
          × Offers value blocks
          × (st' ≡ record st {
            world = (app.api.unfurl_message ev.channel ev.ts [] blocks st.world).1;
          }))

  asked-Asks :
      (ev : LinkShared) (aud : Audience) (req : ConsentRequest) (st : State S)
      (links whole : List String)
      → req.links ≡ links
      → Fits app.json req
      → req.channel ≡ ev.channel
      → req.ts ≡ ev.ts
      → req.user ≡ ev.user
      → (rest : List String) × (whole ≡ req.links ++ rest)
      → Asks ev whole st (asked app ev aud req links st)
  asked-Asks ev aud req st [] whole same fits c t w about = inl refl
  asked-Asks ev aud req st (link ∷ links) whole same fits c t w about =
      elim (Result-cases (app.json.marshal req)) [
        | inr (e, failed) ↦ inl (rw failed refl)
        | inl (value, encoded) ↦ inr (
          req,
          value,
          prompt aud value,
          record {
            encoded = encoded;
            fits = elim fits [
              | inl nothing ↦ absurd (cc (nothing, same))
              | inr within ↦ ground (arith, within, encoded)
            ];
            in_channel = c;
            of_message = t;
            by_sharer = w;
            about = about;
          },
          prompt-Offers aud value,
          rw encoded refl,
        )
      ]

  pub ask_sharer-Asks :
      (ev : LinkShared) (links : List String) (aud : Audience) (st : State S)
      → Asks ev links st (ask_sharer app ev links aud st)
  unfolding ask_sharer
  ask_sharer-Asks ev links aud st =
      let (c, t, w) = fitting-about app.json (request_of app ev) links in
      asked-Asks ev aud _ st _ links refl (fitting-Fits app.json _ links (inl refl)) c t w
        (fitting-links app.json (request_of app ev) links)

  -- Asking leaves what is known of guests alone.
  asked-guests :
      (ev : LinkShared) (aud : Audience) (req : ConsentRequest) (links : List String) (st : State S)
      → (asked app ev aud req links st).guests ≡ st.guests
  asked-guests ev aud req [] st = refl
  asked-guests ev aud req (link ∷ links) st = elim (Result-cases (app.json.marshal req)) [
    | inr (e, failed) ↦ rw failed refl
    | inl (value, encoded) ↦ rw encoded refl
  ]

  pub ask_sharer-guests :
      (ev : LinkShared) (links : List String) (aud : Audience) (st : State S)
      → (ask_sharer app ev links aud st).guests ≡ st.guests
  unfolding ask_sharer
  ask_sharer-guests ev links aud st = asked-guests ev aud _ _ st
