-- ===== src/Slack/Attachments/Laws.antt =====
-- slackapp/unfurl.go: what an attachment does not show.
use open_trove.Base.{String, false, ◌≡◌, refl, none, [], Bool-cases, Option-cases, inl, inr}
use open_trove.Base.Text.{is_empty}
use open_trove.Slack.Attachments.{
  Preview, attachment, headline, card_block, content_blocks, details, closing,
}

-- The preview without the contents of the artifact and its comments: what is left is the title, the
-- kind, the owner, the number of open threads and the reason why the rest is missing.
abbrev pub redacted : Preview → Preview
redacted p = record p {
  summary = record (p.summary) {
    description = "";
    sections = [];
    stats = [];
    facts = [];
    snippet = "";
  };
  latest_comment = none;
  card = none;
  card_file_id = "";
}

module _ (link : String) (p : Preview) (hidden : is_empty p.hidden_reason ≡ false) where
  headline-redacted : headline link p ≡ headline link (redacted p)
  unfolding headline
  headline-redacted = elim (Bool-cases (is_empty p.summary.description)) [
    | inl blank ↦ rw blank refl
    | inr given ↦ rw (given, hidden) refl
  ]

  card_block-redacted : card_block p ≡ []
  unfolding card_block
  card_block-redacted = elim (Option-cases p.card) [
    | inl none_set ↦ rw none_set refl
    | inr (card, set) ↦ rw set (rw hidden refl)
  ]

  content_blocks-redacted : content_blocks p ≡ []
  unfolding content_blocks
  content_blocks-redacted = rw hidden refl

  details-redacted : details p ≡ details (redacted p)
  unfolding details
  details-redacted = rw hidden refl

  closing-redacted : closing p ≡ closing (redacted p)
  unfolding closing
  closing-redacted = rw hidden refl

  -- x
  pub attachment-redacted : attachment link p ≡ attachment link (redacted p)
  unfolding attachment
  attachment-redacted =
      rw
        (
          headline-redacted, card_block-redacted, content_blocks-redacted, details-redacted,
          closing-redacted,
        )
        (rw hidden refl)
