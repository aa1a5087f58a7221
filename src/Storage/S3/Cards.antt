-- ===== src/Storage/S3/Cards.antt =====
-- storage/s3_cards.go: preview cards on S3, the image under the hash of its contents.
use open_trove.Base.{
  ℕ, ◌*◌, String, Bool, false, not, ◌&&◌, ◌||◌, ◌==◌, List, take, if◌then◌else◌, Error, Result, ok,
  err, sentinel, plain, wrap, card_not_found,
}
use open_trove.Base.Text.{is_empty, append, has_prefix, contains_code}
use open_trove.Base.Exec.{Exec, pure, raise, lift, map_err, wrapping, ◌>>=◌, ◌>>◌}
use open_trove.Preview.{max_card_bytes, extension}
use open_trove.Storage.{Card}
use open_trove.Storage.S3.{PutInput, Client, is_missing, valid_token_id, with_json}
use open_trove.Storage.S3.Codec.{Codec}

abbrev pub card_key : String → String
card_key slug = append "_previews/" (with_json slug)

abbrev pub card_image_key : String → Card → String
card_image_key slug c =
    append "_previews/" (append slug (append "/" (append c.sha256 (extension c))))

unfoldable pub valid_card_slug : String → Bool
valid_card_slug slug =
    not (is_empty slug)
    && not (has_prefix slug "_")
    && not (contains_code slug 47 || contains_code slug 92)

-- Thirty-two bytes in hexadecimal, which is the test on a token's identifier too.
abbrev pub valid_card_hash : String → Bool
valid_card_hash = valid_token_id

abbrev card_missing_or : String → Error → Error
card_missing_or text e = if is_missing e then sentinel card_not_found else wrap text e

abbrev typed_put : String → List ℕ → String → PutInput
typed_put key body content_type = record {
  key = key;
  body = body;
  content_type = content_type;
  metadata = List.[];
  if_none_match = false;
  if_match = "";
}

abbrev unread : Codec Card → Result (List ℕ) → Result Card
unread json (ok bytes) = json.unmarshal bytes
unread json (err e) = err e

-- io.LimitReader
abbrev limited : Result (List ℕ) → Result (List ℕ)
limited (ok bytes) = ok (take (2 * max_card_bytes) bytes)
limited (err e) = err e

module _ (json : Codec Card) {S : Type 0} (client : Client S) where
  unfoldable pub get_card_meta : String → Exec S Card
  get_card_meta slug = if not (valid_card_slug slug) then raise (sentinel card_not_found) else do
    out ← map_err (card_missing_or "getting preview card") (client.get_object (card_key slug) "")
    card ← wrapping "decoding preview card" (lift (unread json out.body))
    if valid_card_hash card.sha256 then pure card else raise (plain "the card has an invalid hash")

  -- A failure to delete is logged only.
  unfoldable pub delete_card_image : String → Card → S → S
  delete_card_image slug card s = (client.delete_object (card_image_key slug card) s).1

  abbrev drop_previous : String → Card → Result Card → S → S
  drop_previous slug card (ok previous) s =
      if previous.sha256 == card.sha256 then s else delete_card_image slug previous s
  drop_previous slug card (err e) s = s

  abbrev cleaned : (S → S) → Exec S (Unit {0})
  cleaned f s = (ok tt, f s)

  abbrev store_card : String → Card → Result Card → Exec S (Unit {0})
  store_card slug card previous = do
    wrapping "putting preview image"
        (client.put_object (typed_put (card_image_key slug card) card.image card.content_type))
    bytes ← wrapping "marshaling preview card" (lift (json.marshal card))
    wrapping "putting preview card"
        (client.put_object (typed_put (card_key slug) bytes "application/json"))
    cleaned (drop_previous slug card previous)

  unfoldable pub put_card : String → Card → Exec S (Unit {0})
  unfolding get_card_meta delete_card_image
  put_card slug card s =
      if not (valid_card_slug slug) || not (valid_card_hash card.sha256)
      then (err (plain "invalid preview card"), s)
      else store_card slug card (get_card_meta slug s).0 (get_card_meta slug s).1

  unfoldable pub get_card : String → Exec S Card
  unfolding get_card_meta
  get_card slug = do
    card ← get_card_meta slug
    out ←
        map_err (card_missing_or "getting preview image")
          (client.get_object (card_image_key slug card) "")
    image ← wrapping "reading preview image" (lift (limited out.body))
    pure (record card { image = image })

  unfoldable pub delete_card : String → Exec S (Unit {0})
  unfolding get_card_meta delete_card_image
  delete_card slug = do
    card ← get_card_meta slug
    wrapping "deleting preview card" (client.delete_object (card_key slug))
    cleaned (delete_card_image slug card)
