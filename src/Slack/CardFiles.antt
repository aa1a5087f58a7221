-- ===== src/Slack/CardFiles.antt =====
-- slackapp/cards.go: the images of preview cards, which are uploaded to Slack once for each content.
use open_trove.Base.{
  ℕ, ◌-◌, ◌*◌, String, Bool, false, Option, none, some, [], ltb, if◌then◌else◌, Result, ok, err,
  plain, wrap,
}
use open_trove.Base.Text.{append}
use open_trove.Base.Dict.{Dict, get, put, without}
use open_trove.Storage.{Card}
use open_trove.Preview.{extension, take_runes}
use open_trove.Slack.{Api}
use open_trove.Slack.Guests.{minute}

abbrev pub card_failure_ttl : ℕ
card_failure_ttl = 10 * minute

-- The files by the digests of their contents, and the times of the uploads that failed.
pub record CardFiles : Type 0 where
  pub files : Dict String
  pub failures : Dict ℕ

unfoldable pub new_card_files : CardFiles
new_card_files = record { files = []; failures = [] }

-- card.SHA256[:12], where the digest is hexadecimal.
unfoldable pub card_filename : Card → String
card_filename card = append "trove-preview-" (append (take_runes 12 card.sha256) (extension card))

-- `clock` is the time that a state of the world shows.
module _ {S : Type 0} (api : Api S) (clock : S → ℕ) where
  abbrev pub uploaded : Card → CardFiles → Result String → S → Result String × CardFiles × S
  uploaded card u (err e) s = (
    err (wrap "uploading preview card" e),
    record u { failures = put card.sha256 (clock s) u.failures },
    s,
  )
  uploaded card u (ok id) s = (
    ok id,
    record { files = put card.sha256 id u.files; failures = without card.sha256 u.failures },
    s,
  )

  abbrev pub failed_lately : Card → CardFiles → S → Bool
  failed_lately card u s = elim (get card.sha256 u.failures) [
    | none ↦ false
    | some at ↦ ltb (clock s - at) card_failure_ttl
  ]

  abbrev pub known_or : Option String → Card → CardFiles → S → Result String × CardFiles × S
  known_or (some id) card u s = (ok id, u, s)
  known_or none card u s =
      if failed_lately card u s
      then (err (plain "recent upload failure for card"), u, s)
      else uploaded card u (api.upload_file card (card_filename card) s).0
          (api.upload_file card (card_filename card) s).1

  unfoldable pub file_id : Card → CardFiles → S → Result String × CardFiles × S
  unfolding card_filename
  file_id card u s = known_or (get card.sha256 u.files) card u s

  unfoldable pub reject : Card → CardFiles → S → CardFiles
  reject card u s = record {
    files = without card.sha256 u.files;
    failures = put card.sha256 (clock s) u.failures;
  }
