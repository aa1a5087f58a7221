-- ===== src/Slack/Consent/Kept.antt =====
-- slackapp/unfurl.go: the links that are kept, and that previewing leaves alone what is known of
-- guests.
use open_trove.Base.{
  ℕ, String, true, ◌==◌, List, [], ◌∷◌, ◌++◌, any, is_some, ltb, ◌≡◌, refl, inl, inr, Bool-cases,
  Result, ok, err, All, All-append,
}
use open_trove.Base.Dict.{Dict}
use open_trove.Slack.Attachments.{Preview}
use open_trove.Slack.Unfurl.{
  Unfurler, Choice, State, artifact_slug, kept_links, send_found, prepare, unfurl, again, retried,
  first_sent, as_text,
}

module _ {S : Type 0} (app : Unfurler S) where
  abbrev pub IsArtifactLink : String → Type 0
  IsArtifactLink link = is_some (artifact_slug app link) ≡ true

  pub kept_links-IsArtifactLink :
      (kept links : List String)
      → All IsArtifactLink kept
      → All IsArtifactLink (kept_links app kept links)
  unfolding kept_links
  kept_links-IsArtifactLink kept [] h = h
  kept_links-IsArtifactLink kept (link ∷ rest) h =
      elim (Bool-cases (is_some (artifact_slug app link))) [
        | inr foreign ↦ rw foreign (kept_links-IsArtifactLink kept rest h)
        | inl ours ↦ elim (Bool-cases (any (λ other. other == link) kept)) [
          | inl there ↦ rw (ours, there) (kept_links-IsArtifactLink kept rest h)
          | inr new ↦
              rw (ours, new)
                (kept_links-IsArtifactLink (kept ++ link ∷ []) rest
                  (All-append IsArtifactLink kept (link ∷ []) h (ours, tt)))
        ]
      ]

  -- Previewing leaves what is known of guests alone.
  again-guests :
      (channel ts : String) (d : Dict Preview) (r : Result (Unit {0})) (st : State S)
      → (again app channel ts d r st).guests ≡ st.guests
  unfolding as_text
  again-guests channel ts d (ok _) st = refl
  again-guests channel ts d (err e) st = refl

  retried-guests :
      (channel ts : String) (d : Dict Preview) (r : Result (Unit {0})) (st : State S)
      → (retried app channel ts d r st).guests ≡ st.guests
  unfolding as_text
  retried-guests channel ts d (err e) st = refl
  retried-guests channel ts d (ok _) st =
      again-guests channel ts d (unfurl app channel ts d st.world).0 _

  first_sent-guests :
      (channel ts : String) (d : Dict Preview) (n : ℕ) (r : Result (Unit {0})) (st : State S)
      → (first_sent app channel ts d n r st).guests ≡ st.guests
  first_sent-guests channel ts d n (ok _) st = refl
  first_sent-guests channel ts d n (err e) st = elim (Bool-cases (ltb 0 n)) [
    | inl cards ↦ rw cards (retried-guests channel ts d (app.sleep st.world).0 _)
    | inr plain_text ↦ rw plain_text refl
  ]

  pub send_found-guests :
      (channel ts : String) (choice : Choice) (st : State S) (found : Dict Preview × S)
      → (send_found app channel ts choice st found).guests ≡ st.guests
  send_found-guests channel ts choice st ([], s) = refl
  send_found-guests channel ts choice st (p ∷ ps, s) =
      let prep = prepare app choice (app.visited (p ∷ ps)) st.cards s in
      first_sent-guests channel ts prep.0.0 prep.0.1 (unfurl app channel ts prep.0.0 prep.2).0 _
