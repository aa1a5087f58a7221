-- ===== src/Tests/Notify.antt =====
-- A reply to a thread, and a notifier that fails at first. The state counts the calls.
use open_trove.Base.{
  ℕ, suc, String, false, [], ◌∷◌, ◌≡◌, refl, In, ok, err, sentinel, source_unavailable, ltb,
  if◌then◌else◌, is,
}
use open_trove.Base.Text.{trim_space, to_lower, equal_fold, map_chars}
use open_trove.Base.Exec.{Exec}
use open_trove.Comments.{Activity, reply_created}
use open_trove.Notify.{
  Notification, normal, candidates, participants, collect, recipients, deliver, deliver_from,
}
use open_trove.Notify.Laws.{IsTold, Comes, IsDistinct, recipients_exact, Attempts, deliver-Attempts}
use open_trove.Tests.Data.{caseless, root, answer}

abbrev replied : Activity
replied = record { kind = reply_created; slug = "doc"; actor_email = "bob@x"; comment = answer }

recipients_test : recipients caseless replied "eve@x" (root ∷ answer ∷ []) ≡ "eve@x" ∷ "ada@x" ∷ []
unfolding recipients collect candidates participants trim_space to_lower equal_fold map_chars
recipients_test = refl

recipients_exact_example :
    IsDistinct caseless "bob@x" (recipients caseless replied "eve@x" (root ∷ answer ∷ []))
    × ((r : String)
        → In r (recipients caseless replied "eve@x" (root ∷ answer ∷ []))
        → Comes caseless "bob@x" r (candidates replied "eve@x" (root ∷ answer ∷ [])))
    × ((c : String)
        → In c (candidates replied "eve@x" (root ∷ answer ∷ []))
        → IsTold caseless "bob@x" (normal caseless c)
        → In (normal caseless c) (recipients caseless replied "eve@x" (root ∷ answer ∷ [])))
recipients_exact_example = recipients_exact caseless replied "eve@x" (root ∷ answer ∷ [])

abbrev note : Notification
note = record {
  kind = reply_created;
  recipient_email = "ada@x";
  actor_email = "bob@x";
  recipient_is_owner = false;
  artifact_title = "doc";
  artifact_url = "/doc";
  excerpt = "second";
}

-- The first two calls fail.
abbrev flaky : Notification → Exec ℕ (Unit {0})
flaky n calls =
    if ltb calls 2 then (err (sentinel source_unavailable), suc calls) else (ok tt, suc calls)

abbrev no_pause : ℕ → Exec ℕ (Unit {0})
no_pause seconds calls = (ok tt, calls)

deliver_test : deliver flaky no_pause note 0 ≡ (ok tt, 3)
unfolding deliver deliver_from is mathlib.Core.Bool.decide
deliver_test = refl

deliver-Attempts_example :
    Attempts flaky no_pause note 3 0
      (deliver flaky no_pause note 0).0
      (deliver flaky no_pause note 0).1
deliver-Attempts_example = deliver-Attempts flaky no_pause note 0
