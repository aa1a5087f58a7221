-- ===== src/Server/Upload/Reads.antt =====
-- cmd/server/handlers.go: the refusals of an upload, which leave the store as it was.
use open_trove.Base.{
  String, List, [], ◌∷◌, some, is_some, ◌≡◌, Bool-cases, Option-cases, Result-cases, is, not_found,
  Result, ok, err, inl, inr,
}
use open_trove.Intake.{Input, Inspector}
use open_trove.Storage.{FileMetadata, Store}
use open_trove.Server.{Response, answer}
use open_trove.Server.Gate.{
  Rejection, policy, inspection_unavailable, cancelled, inspect_upload, inspect_all,
  write_intake_rejection,
}
use open_trove.Server.Artifacts.{is_no_artifact_slug, lookup_by, lookup_artifact, version_conflict}
use open_trove.Server.Upload.{UploadResponse, Server}

-- An answer that is no success.
abbrev pub IsRefusal : Response UploadResponse → Type 0
IsRefusal (answer status body) = ⊥
IsRefusal _ = Unit

pub write_intake_rejection-IsRefusal : (r : Rejection) → IsRefusal (write_intake_rejection r)
write_intake_rejection-IsRefusal (policy verdict) = tt
write_intake_rejection-IsRefusal inspection_unavailable = tt
write_intake_rejection-IsRefusal (cancelled e) = tt

-- A relation between the states of a store that reading it does not leave: `Kept s t` where `t` is
-- `s` for all that is stored.
pub record Reads {S : Type 0} (Kept : S → S → Type 0) (store : Store S) (inspect : Inspector S)
    : Type 0 where
  pub reflexive : (s : S) → Kept s s
  pub transitive : (s t w : S) → Kept s t → Kept t w → Kept s w
  pub metadata : (slug : String) (s : S) → Kept s (store.metadata slug s).1
  pub head_site : (slug : String) (s : S) → Kept s (store.head_site slug s).1
  pub get_site_manifest : (slug : String) (s : S) → Kept s (store.get_site_manifest slug s).1
  pub inspection : (input : Input) (s : S) → Kept s (inspect input s).1

module _ {S : Type 0} (server : Server S) (inspect : Inspector S) (Kept : S → S → Type 0)
    (intake : server.intake ≡ some inspect) (reads : Reads Kept server.store inspect) where
  pub lookup_by-Kept :
      (slug : String) (r : Result FileMetadata) (s : S)
      → Kept s (lookup_by server.urls server.store slug r s).1
  unfolding lookup_by
  lookup_by-Kept slug (ok meta) s = reads.reflexive s
  lookup_by-Kept slug (err e) s = elim (Bool-cases (is e not_found)) [
    | inl missing ↦ rw (lookup_by, missing) (reads.get_site_manifest slug s)
    | inr other ↦ rw (lookup_by, other) (reads.reflexive s)
  ]

  pub lookup_artifact-Kept :
      (slug : String) (s : S) → Kept s (lookup_artifact server.urls server.store slug s).1
  unfolding lookup_artifact
  lookup_artifact-Kept slug s = elim (Bool-cases (is_no_artifact_slug slug)) [
    | inl odd ↦ rw (lookup_artifact, odd) (reads.reflexive s)
    | inr good ↦
        rw (lookup_artifact, good)
          (reads.transitive s (server.store.metadata slug s).1 _ (reads.metadata slug s)
            (lookup_by-Kept slug (server.store.metadata slug s).0 (server.store.metadata slug s).1))
  ]

  pub version_conflict-Kept :
      (slug : String) (s : S)
      → Kept s (version_conflict server.urls server.store {A = UploadResponse} slug s).1
  unfolding version_conflict
  version_conflict-Kept slug s =
      elim (Result-cases (lookup_artifact server.urls server.store slug s).0) [
        | inl (a, found) ↦ rw (version_conflict, found) (lookup_artifact-Kept slug s)
        | inr (e, failed) ↦ rw (version_conflict, failed) (lookup_artifact-Kept slug s)
      ]

  pub version_conflict-IsRefusal :
      (slug : String) (s : S) → IsRefusal (version_conflict server.urls server.store slug s).0
  unfolding version_conflict
  version_conflict-IsRefusal slug s =
      elim (Result-cases (lookup_artifact server.urls server.store slug s).0) [
        | inl (a, found) ↦ rw (version_conflict, found) tt
        | inr (e, failed) ↦ rw (version_conflict, failed) tt
      ]

  pub inspect_upload-Kept :
      (input : Input) (s : S)
      → Kept s (inspect_upload server.intake server.intake_fail server.context_error input s).1
  unfolding inspect_upload
  inspect_upload-Kept input s = (elim (Option-cases (server.context_error s)) [
    | inl running ↦ rw (inspect_upload, intake, running) (reads.inspection input s)
    | inr (e, gone) ↦ rw (inspect_upload, intake, gone) (reads.reflexive s)
  ])

  pub inspect_all-Kept :
      (inputs : List Input) (s : S)
      → Kept s (inspect_all server.intake server.intake_fail server.context_error inputs s).1
  unfolding inspect_all
  inspect_all-Kept [] s = reads.reflexive s
  inspect_all-Kept (input ∷ rest) s =
      let first = inspect_upload-Kept input s in
      let next = (inspect_upload server.intake server.intake_fail server.context_error input s).1 in
      elim (Bool-cases (
        is_some (inspect_upload server.intake server.intake_fail server.context_error input s).0)) [
          | inl stopped ↦ rw (inspect_all, stopped) first
          | inr passed ↦
              rw (inspect_all, passed)
                (reads.transitive s next _ first (inspect_all-Kept rest next))
        ]
