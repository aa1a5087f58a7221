-- ===== src/Fake/CardStore.antt =====
-- storage/fake/cards.go and storage/fake/intake.go: preview cards and the verdicts of the intake.
use open_trove.Base.{
  String, Bool, Option, none, some, is_some, Result, ok, err, sentinel, card_not_found,
  if◌then◌else◌,
}
use open_trove.Base.Dict.{get, put, without}
use open_trove.Base.Exec.{Exec}
use open_trove.Storage.{Card}
use open_trove.Fake.{Store}

unfoldable pub put_card : String → Card → Exec Store (Unit {0})
put_card slug card s = (ok tt, record s { cards = put slug card s.cards })

abbrev card_of : Option Card → Result Card
card_of none = err (sentinel card_not_found)
card_of (some card) = ok card

unfoldable pub get_card : String → Exec Store Card
get_card slug s = (card_of (get slug s.cards), s)

unfoldable pub delete_card : String → Exec Store (Unit {0})
delete_card slug s =
    if is_some (get slug s.cards)
    then (ok tt, record s { cards = without slug s.cards })
    else (err (sentinel card_not_found), s)

unfoldable pub has_allowed_verdict : String → Exec Store Bool
has_allowed_verdict key s = (ok (is_some (get key s.verdicts)), s)

unfoldable pub put_allowed_verdict : String → Exec Store (Unit {0})
put_allowed_verdict key s = (ok tt, record s { verdicts = put key tt s.verdicts })
