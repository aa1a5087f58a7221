-- ===== src/Slack/Consent/Answers.antt =====
-- slackapp/consent.go: which answers to a prompt count.
use open_trove.Base.{
  String, Bool, true, false, ◌==◌, Option, some, List, [], ◌∷◌, filter, In, is_some, ◌≡◌, ◌≢◌, refl,
  ◌⊎◌, ◌↔◌, inl, inr, eq_iff, Bool-cases, Option-cases, Result-cases, arith, ok,
}
use open_trove.Base.Text.{is_empty, has_prefix, drop_prefix}
use open_trove.Slack.Unfurl.{
  Unfurler, ConsentRequest, Choice, full, title_only, State, artifact_slug,
}
use open_trove.Slack.Consent.{
  Action, Callback, consent_action_prefix, send, apply_choice, cleaned_up, is_artifact_link,
  answer_of, handle_actions, handle_consent,
}

module _ {S : Type 0} (app : Unfurler S) where
  abbrev result : Callback → State S → State S
  result = handle_consent app

  abbrev answer : Callback → Action → Option (String × ConsentRequest)
  answer = answer_of app

  abbrev sends : ConsentRequest → List String → Choice → State S → State S
  sends req links choice st = send app req.channel req.ts links choice st

  -- An answer that counts: to a request that the prompt's button carries back, by the one whom the
  -- request names.
  pub record IsAnswer (cb : Callback) (action : Action) (choice : String) (req : ConsentRequest)
      : Type 0 where
    pub offered : In action cb.block_actions
    pub prefixed : has_prefix action.action_id consent_action_prefix ≡ true
    pub chosen : choice ≡ drop_prefix action.action_id consent_action_prefix
    pub carried : app.json.unmarshal action.value ≡ ok req
    pub by_sharer : req.user ≡ cb.user
    pub named : is_empty req.user ≡ false
    pub posted : app.parses_float req.ts ≡ true
    pub in_channel : is_empty req.channel ≡ false

  -- What is sent for a choice: previews with contents, previews with titles only, or nothing.
  pub data Sends (choice : String) (req : ConsentRequest) (st : State S) : State S → Type 0 where
    contents :
        {st' : State S} (links : List String)
        → choice ≡ "full"
        → ((link : String)
            → In link links ↔ (In link req.links × (is_some (artifact_slug app link) ≡ true)))
        → st' ≡ sends req links full st
        → Sends choice req st st'
    titles :
        {st' : State S} (links : List String)
        → choice ≡ "title"
        → ((link : String)
            → In link links ↔ (In link req.links × (is_some (artifact_slug app link) ≡ true)))
        → st' ≡ sends req links title_only st
        → Sends choice req st st'
    nothing :
        {st' : State S} → choice ≢ "full" → choice ≢ "title" → st' ≡ st → Sends choice req st st'

  In-filter :
      (p : String → Bool) (x : String) (xs : List String)
      → In x (filter p xs) ↔ (In x xs × (p x ≡ true))
  In-filter p x [] = ((λ m. absurd m), λ h. absurd h.0)
  In-filter p x (y ∷ ys) =
      let (from, to) = In-filter p x ys in
      elim (Bool-cases (p y)) [
        | inl keep ↦ rw keep (
            (
              (λ m. elim m [
                | inl same ↦ (inl same, rw same keep)
                | inr there ↦ let (old, holds) = from there in (inr old, holds)
              ]),
              λ h. elim h.0 [ inl same ↦ inl same | inr there ↦ inr (to (there, h.1)) ],
            ))
        | inr drop ↦ rw drop (
            (
              (λ m. let (old, holds) = from m in (inr old, holds)),
              λ h. elim h.0 [
                | inl same ↦ absurd (cc (rw same at h.1, drop))
                | inr there ↦ to (there, h.1)
              ],
            ))
      ]

  apply_choice-Sends :
      (choice : String) (req : ConsentRequest) (st : State S)
      → Sends choice req st
          (apply_choice app choice req (filter (is_artifact_link app) req.links) st)
  apply_choice-Sends choice req st = elim (Bool-cases (choice == "full")) [
    | inl all_of_it ↦
        rw all_of_it (
          contents _ ((eq_iff choice "full").0 all_of_it) (λ link. In-filter _ link req.links) refl)
    | inr other ↦ elim (Bool-cases (choice == "title")) [
      | inl title ↦
          rw (other, title)
            (titles _ ((eq_iff choice "title").0 title) (λ link. In-filter _ link req.links) refl)
      | inr neither ↦
          rw (other, neither)
            (nothing (λ e. cc ((eq_iff choice "full").1 e, other))
              (λ e. cc ((eq_iff choice "title").1 e, neither)) refl)
    ]
  ]

  answer-IsAnswer :
      (cb : Callback) (action : Action) (choice : String) (req : ConsentRequest)
      → In action cb.block_actions
      → answer cb action ≡ some (choice, req)
      → IsAnswer cb action choice req
  unfolding answer_of
  answer-IsAnswer cb action choice req m h = elim (Result-cases (app.json.unmarshal action.value)) [
    | inr (e, failed) ↦ absurd (ground (arith, failed, h))
    | inl (req', carried) ↦ record {
      offered = m;
      prefixed = ground (arith, carried, h);
      chosen = ground (arith, carried, h);
      carried = ground (arith, carried, h);
      by_sharer = ground (arith, carried, h, eq_iff req'.user cb.user);
      named = ground (arith, carried, h);
      posted = ground (arith, carried, h);
      in_channel = ground (arith, carried, h);
    }
  ]

  -- What follows an answer that counts: a call to the response URL, where there is one, whose error
  -- is passed over.
  abbrev pub Responds : Callback → State S → State S → Type 0
  Responds cb mid st' =
      ((is_empty cb.response_url ≡ true) × (st' ≡ mid))
      ⊎ ((is_empty cb.response_url ≡ false)
          × (st' ≡ record mid { world = (app.respond cb.response_url mid.world).1 }))

  cleaned_up-Responds : (cb : Callback) (mid : State S) → Responds cb mid (cleaned_up app cb mid)
  cleaned_up-Responds cb mid = elim (Bool-cases (is_empty cb.response_url)) [
    | inl missing ↦ inl (missing, rw missing refl)
    | inr given ↦ inr (given, rw given refl)
  ]

  -- Nothing is done, or what an answer that counts asks for and the call to its response URL.
  abbrev pub Decides : Callback → State S → State S → Type 0
  Decides cb st st' =
      (st' ≡ st)
      ⊎ ((action : Action) × (choice : String) × (req : ConsentRequest) × (mid : State S) × IsAnswer
            cb action choice req
          × Sends choice req st mid
          × Responds cb mid st')

  handle_actions-Decides :
      (cb : Callback) (acts : List Action) (st : State S)
      → ((action : Action) → In action acts → In action cb.block_actions)
      → Decides cb st (handle_actions app cb acts st)
  unfolding handle_actions
  handle_actions-Decides cb [] st inside = inl refl
  handle_actions-Decides cb (action ∷ rest) st inside = elim (Option-cases (answer cb action)) [
    | inl passed_over ↦
        rw (handle_actions, passed_over)
          (handle_actions-Decides cb rest st (λ a m. inside a (inr m)))
    | inr ((choice, req), counts) ↦ inr (
      action,
      choice,
      req,
      apply_choice app choice req (filter (is_artifact_link app) req.links) st,
      answer-IsAnswer cb action choice req (inside action (inl refl)) counts,
      apply_choice-Sends choice req st,
      rw (handle_actions, counts) (cleaned_up-Responds cb _),
    )
  ]

  -- An interaction with a prompt does nothing, or acts on one action of it whose request names the
  -- one who has clicked as the sharer, a channel and a message: it sends previews with contents
  -- where the choice is full, with titles only where it is the title, and none otherwise, for
  -- exactly the artifact links of the request; and then it posts to the response URL, where the
  -- interaction has one, and does nothing more where it has none, whether or not the post
  -- succeeds.
  pub handle_consent-Decides : (cb : Callback) (st : State S) → Decides cb st (result cb st)
  unfolding handle_consent
  handle_consent-Decides cb st = handle_actions-Decides cb cb.block_actions st (λ a m. m)
