-- ===== src/Server/Cards.antt =====
-- cmd/server/cards_handler.go: the preview cards of artifacts.
use Prim.Native.Char.{Char}
use open_trove.Base.{
  ℕ, ◌+◌, String, Bool, ◌||◌, List, take, if◌then◌else◌, Error, ok, err, is, card_not_found,
  card_too_large, card_format, card_dimensions,
}
use open_trove.Base.Text.{append}
use open_trove.Preview.{max_card_bytes, Images, new_card}
use open_trove.Storage.{Card, Store}
use open_trove.Server.{Handler, attempt, refuse, respond}
use open_trove.Server.Files.{Caller}
use open_trove.Server.Artifacts.{is_no_artifact_slug}
use open_trove.Server.CommentHandlers.{with_context}

-- The field `image` of the form: its bytes, or an error of reading them.
pub data ImageField : Type 0 where
  over_limit absent unreadable : ImageField
  image_of : List ℕ → ImageField

pub record CardResponse : Type 0 where
  pub card : Card
  pub url : String

abbrev pub new_card_status : Error → ℕ
new_card_status e =
    if is e card_too_large
    then 413
    else if is e card_format || is e card_dimensions
    then 400
    else 500

module _ {S : Type 0} (store : Store S) where
  -- `escape` is url.PathEscape.
  module _ (base_url : String) (escape : String → String) (is_punct : Char → Bool)
      (images : Images) where
    unfoldable pub card_response : String → Card → CardResponse
    card_response slug card = record {
      card = card;
      url = append base_url (append "/api/artifacts/" (append (escape slug) "/preview"));
    }

    abbrev attributed : Card → String → ℕ → String → Card
    attributed card version now email = record card {
      artifact_version = version;
      updated_at = now;
      updated_by_email = email;
    }

    -- The image is read up to one byte past the bound.
    abbrev put_image : ℕ → Caller → String → String → ImageField → String → Handler S CardResponse
    put_image now caller slug version over_limit alt = refuse 413
    put_image now caller slug version absent alt = refuse 400
    put_image now caller slug version unreadable alt = refuse 400
    put_image now caller slug version (image_of bytes) alt =
        elim (new_card is_punct images (take (max_card_bytes + 1) bytes) alt) [
          | err e ↦ refuse (new_card_status e)
          | ok made ↦
              let card = attributed made version now caller.user_email in
              attempt (store.put_card slug card) (λ e. refuse 500)
                (λ done. respond 200 (card_response slug card))
        ]

    unfoldable pub handle_put_card :
        ℕ → Caller → String → ImageField → String → Handler S CardResponse
    unfolding card_response
    handle_put_card now caller slug image alt =
        with_context store slug "" λ resource version. put_image now caller slug version image alt

  -- The type of the contents, the contents, and the hash in ETag.
  unfoldable pub handle_get_card : String → Handler S (String × List ℕ × String)
  handle_get_card slug =
      if is_no_artifact_slug slug
      then refuse 404
      else attempt (store.get_card slug)
          (λ e. if is e card_not_found then refuse 404 else refuse 500)
          (λ card. respond 200 (card.content_type, card.image, card.sha256))

  unfoldable pub handle_delete_card : String → Handler S (Unit {0})
  handle_delete_card slug =
      if is_no_artifact_slug slug
      then refuse 404
      else attempt (store.delete_card slug)
          (λ e. if is e card_not_found then refuse 404 else refuse 500) (λ done. respond 204 tt)
