-- ===== src/Activity.antt =====
-- storage/storage.go: ActivityRecord and UserManifest; storage/activity.go: how uploads and views
-- are merged into a user's manifest.
pub mod Laws
use open_trove.Base.{
  ℕ, String, Bool, true, false, not, ◌&&◌, List, [], ◌∷◌, ◌++◌, ◌==◌, ltb, if◌then◌else◌,
}
use open_trove.Base.Text.{is_empty}

pub record ActivityRecord : Type 0 where
  pub slug : String
  pub filename : String
  pub content_type : String
  pub user_email : String
  pub owner_email : String
  pub at : String

pub record UserManifest : Type 0 where
  pub uploads : List ActivityRecord
  pub views : List ActivityRecord

abbrev pub empty_manifest : UserManifest
empty_manifest = record { uploads = []; views = [] }

-- `parse` is time.Parse with RFC3339Nano: the instant in nanoseconds since the zero time, and the
-- zero time itself where the text is no timestamp, since the error is dropped.
module _ (parse : String → ℕ) where
  -- The loop of mergeActivity over `records`, with its variables `out`, `record` and `newTime`.
  unfoldable pub merge_from :
      List ActivityRecord → ActivityRecord → ℕ → List ActivityRecord → List ActivityRecord
  merge_from out record' new_time [] = out ++ record' ∷ []
  merge_from out record' new_time (previous ∷ records) =
      let others = merge_from (out ++ previous ∷ []) record' new_time records in
      let older = merge_from out record' new_time records in
      let newer = merge_from out previous (parse previous.at) records in
      if not (previous.slug == record'.slug)
      then others
      else if ltb new_time (parse previous.at)
      then newer
      else older

  unfoldable pub merge_activity : List ActivityRecord → ActivityRecord → List ActivityRecord
  unfolding merge_from
  merge_activity records record' = merge_from [] record' (parse record'.at) records

  -- The loop of RecordView over the uploads, with its variables `record.OwnerEmail` and `newest`.
  unfoldable pub owner_from : String → String → ℕ → List ActivityRecord → String
  owner_from slug owner newest [] = owner
  owner_from slug owner newest (upload ∷ uploads) =
      let skip = owner_from slug owner newest uploads in
      let take =
        owner_from slug
          (if is_empty upload.owner_email then upload.user_email else upload.owner_email)
          (parse upload.at) uploads in
      if upload.slug == slug && not (ltb (parse upload.at) newest) then take else skip

  unfoldable pub attributed : UserManifest → ActivityRecord → ActivityRecord
  unfolding owner_from
  attributed m r =
      if is_empty r.owner_email
      then record r { owner_email = owner_from r.slug r.owner_email 0 m.uploads }
      else r

  unfoldable pub record_view : ActivityRecord → UserManifest → UserManifest
  unfolding merge_activity attributed
  record_view r m = record m { views = merge_activity m.views (attributed m r) }

  unfoldable pub record_upload : ActivityRecord → UserManifest → UserManifest
  unfolding merge_activity
  record_upload r m = record m { uploads = merge_activity m.uploads r }
