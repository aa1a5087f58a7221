-- ===== src/Tests/Preview.antt =====
-- A card of a small image.
use open_trove.Base.{ℕ, ◌≤◌, false, [], ◌∷◌, length, some, ok, ◌≡◌, refl}
use open_trove.Base.Text.{is_space, join}
use open_trove.Storage.{Card}
use open_trove.Preview.{max_card_bytes, Images, new_card, clip}
use open_trove.Preview.Laws.{IsBounded, new_card-IsBounded}

abbrev images : Images
images = record {
  decode_config = λ bytes. some (1200, 630, "png");
  encode = λ format bytes. some (ok (7 ∷ bytes));
  sha256 = λ bytes. "5d41";
}

abbrev card : Card
card = record {
  image = 7 ∷ 1 ∷ [];
  content_type = "image/png";
  width = 1200;
  height = 630;
  alt = "chart";
  sha256 = "5d41";
  artifact_version = "";
  updated_at = 0;
  updated_by_email = "";
}

new_card_test : new_card (λ c. false) images (1 ∷ []) " chart" ≡ ok card
unfolding new_card clip is_space join
new_card_test = refl

new_card-IsBounded_example :
    (length {A = ℕ} (1 ∷ []) ≤ max_card_bytes) × IsBounded (λ c. false) images card
new_card-IsBounded_example =
    new_card-IsBounded (λ c. false) images (1 ∷ []) " chart" card new_card_test
