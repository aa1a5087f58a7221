-- ===== src/Slack/Unfurl/Laws.antt =====
-- slackapp/unfurl.go: previews of which only the title is shown say nothing of the contents.
use open_trove.Base.{
  String, false, Option, none, some, List, [], ◌∷◌, map, ◌≡◌, refl, ap, sym, ◌∙◌, All, Bool-cases,
  Option-cases, Result-cases, Result, ok, err, inl, inr, ◌==◌,
}
use open_trove.Base.Text.{is_empty}
use open_trove.Base.Dict.{Dict, put, without}
use open_trove.Storage.{Card}
use open_trove.Slack.CardFiles.{CardFiles}
use open_trove.Slack.Attachments.{Preview, attachment}
use open_trove.Slack.Attachments.Laws.{redacted, attachment-redacted}
use open_trove.Slack.Unfurl.{
  Unfurler, State, title_only, artifact_slug, look_up, withheld, prepared, prepare, attachment_of,
  unfurl, send_found, first_sent, send_previews,
}

abbrev pub redact_all : Dict Preview → Dict Preview
redact_all [] = []
redact_all ((link, p) ∷ d) = (link, redacted p) ∷ redact_all d

abbrev pub redact_result : Result Preview → Result Preview
redact_result (ok p) = ok (redacted p)
redact_result (err e) = err e

without-redact_all :
    (k : String) (d : Dict Preview) → without k (redact_all d) ≡ redact_all (without k d)
unfolding without
without-redact_all k [] = refl
without-redact_all k ((link, p) ∷ d) = elim (Bool-cases (link == k)) [
  | inl same ↦ rw (without, same) (without-redact_all k d)
  | inr other ↦
      rw (without, other)
        (ap (λ (l : Dict Preview). (link, redacted p) ∷ l) (without-redact_all k d))
]

put-redact_all :
    (k : String) (p : Preview) (d : Dict Preview)
    → put k (redacted p) (redact_all d) ≡ redact_all (put k p d)
unfolding put
put-redact_all k p d = rw (without-redact_all k d) refl

abbrev Hidden : String × Preview → Type 0
Hidden (link, p) = is_empty p.hidden_reason ≡ false

attachments-redacted :
    (d : Dict Preview) → All Hidden d → map attachment_of d ≡ map attachment_of (redact_all d)
attachments-redacted [] h = refl
attachments-redacted ((link, p) ∷ d) (hidden, h) =
    rw (attachment-redacted link p hidden)
      (ap (λ l. (link, attachment link (redacted p)) ∷ l) (attachments-redacted d h))

abbrev titles : Dict Preview → Dict Preview
titles [] = []
titles ((link, p) ∷ d) = (link, withheld title_only p) ∷ titles d

titles-redacted : (d : Dict Preview) → titles (redact_all d) ≡ redact_all (titles d)
unfolding withheld
titles-redacted [] = refl
titles-redacted ((link, p) ∷ d) = elim (Bool-cases (is_empty p.hidden_reason)) [
  | inl shown ↦ rw (shown, titles-redacted d) refl
  | inr hidden ↦ rw (hidden, titles-redacted d) refl
]

titles-Hidden : (d : Dict Preview) → All Hidden (titles d)
unfolding withheld
titles-Hidden [] = tt
titles-Hidden ((link, p) ∷ d) = elim (Bool-cases (is_empty p.hidden_reason)) [
  | inl shown ↦ rw shown ((refl, titles-Hidden d))
  | inr hidden ↦ rw hidden ((hidden, titles-Hidden d))
]

-- The same unfurler, where the source of previews gives no contents.
abbrev pub quiet : {S : Type 0} → Unfurler S → Unfurler S
quiet app = record app {
  preview = λ slug s. (redact_result (app.preview slug s).0, (app.preview slug s).1);
}

module _ {S : Type 0} (app : Unfurler S) where
  look_up-redacted :
      (links : List String) (d : Dict Preview) (s : S)
      → look_up (quiet app) links (redact_all d) s
        ≡ (redact_all (look_up app links d s).0, (look_up app links d s).1)
  unfolding look_up
  look_up-redacted [] d s = refl
  look_up-redacted (link ∷ links) d s = elim (Option-cases (artifact_slug app link)) [
    | inl foreign ↦ rw (look_up, foreign) (look_up-redacted links d s)
    | inr (slug, ours) ↦ elim (Result-cases (app.preview slug s).0) [
      | inl (p, got) ↦
          rw (look_up, ours, got, put-redact_all link p d)
            (look_up-redacted links (put link p d) (app.preview slug s).1)
      | inr (e, failed) ↦
          rw (look_up, ours, failed) (look_up-redacted links d (app.preview slug s).1)
    ]
  ]

  -- Nothing is uploaded for a preview of which only the title is shown.
  prepared-title :
      (p : Preview) (cards : CardFiles) (s : S) (o : Option Card)
      → prepared app o (withheld title_only p) cards s ≡ ((withheld title_only p, 0), cards, s)
  unfolding withheld
  prepared-title p cards s none = refl
  prepared-title p cards s (some card) = elim (Bool-cases (is_empty p.hidden_reason)) [
    | inl open_ ↦ rw open_ refl
    | inr hidden ↦ rw (hidden, hidden) refl
  ]

  prepare-titles :
      (d : Dict Preview) (cards : CardFiles) (s : S)
      → prepare app title_only d cards s ≡ ((titles d, 0), cards, s)
  unfolding prepare
  prepare-titles [] cards s = refl
  prepare-titles ((link, p) ∷ d) cards s =
      rw (prepared-title p cards s p.card) (rw (prepare-titles d cards s) refl)

  unfurl-titles :
      (channel ts : String) (d : Dict Preview) (s : S)
      → unfurl app channel ts (titles (redact_all d)) s ≡ unfurl app channel ts (titles d) s
  unfolding unfurl
  unfurl-titles channel ts d s = rw (titles-redacted d) (
      ap (λ l. app.api.unfurl_message channel ts l [] s)
        (sym (attachments-redacted (titles d) (titles-Hidden d))))

  -- Without cards, the previews are sent once.
  first_sent-none :
      (channel ts : String) (previews : Dict Preview) (r : Result (Unit {0})) (st : State S)
      → first_sent app channel ts previews 0 r st ≡ st
  first_sent-none channel ts previews (ok _) st = refl
  first_sent-none channel ts previews (err e) st = refl

  abbrev once : String → String → Dict Preview → State S → CardFiles → S → State S
  once channel ts previews st cards s = record st {
    cards = cards;
    world = (unfurl app channel ts previews s).1;
  }

  send_found-titles :
      (channel ts : String) (st : State S) (link : String × Preview) (d : Dict Preview) (s : S)
      → send_found app channel ts title_only st (link ∷ d, s)
        ≡ once channel ts (titles (app.visited (link ∷ d))) st st.cards s
  send_found-titles channel ts st link d s =
      rw (prepare-titles (app.visited (link ∷ d)) st.cards s) (
        first_sent-none channel ts (titles (app.visited (link ∷ d)))
          (unfurl app channel ts (titles (app.visited (link ∷ d))) s).0
          (once channel ts (titles (app.visited (link ∷ d))) st st.cards s))

module _ {S : Type 0} (app : Unfurler S)
    (visited_alike : (d : Dict Preview)
      → app.visited (redact_all d) ≡ redact_all (app.visited d)) where
  alike :
      (channel ts : String) (st : State S) (d : Dict Preview) (s : S)
      → send_found (quiet app) channel ts title_only st (redact_all d, s)
        ≡ send_found app channel ts title_only st (d, s)
  unfolding unfurl
  alike channel ts st [] s = refl
  alike channel ts st ((link, p) ∷ d) s =
      send_found-titles (quiet app) channel ts st (link, redacted p) (redact_all d) s
      ∙ ap (λ (l : Dict Preview). once app channel ts (titles l) st st.cards s)
          (visited_alike ((link, p) ∷ d))
      ∙ ap (λ (r : Result (Unit {0}) × S). record st { cards = st.cards; world = r.1 })
          (unfurl-titles app channel ts (app.visited ((link, p) ∷ d)) s)
      ∙ sym (send_found-titles app channel ts st (link, p) d s)

  -- Where the choice is the title only, sending previews does to the world, the cards and the
  -- guests exactly what it does with previews that carry no description, sections, statistics,
  -- facts, excerpt, comment or card, whatever the client and the uploads answer, provided that a
  -- map is visited in an order that its values do not change.
  pub send_previews-title_only :
      (channel ts : String) (links : List String) (st : State S)
      → send_previews (quiet app) channel ts links title_only st
        ≡ send_previews app channel ts links title_only st
  unfolding send_previews
  send_previews-title_only channel ts links st =
      rw (look_up-redacted app links [] st.world)
        (alike channel ts st (look_up app links [] st.world).0 (look_up app links [] st.world).1)
