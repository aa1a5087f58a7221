-- ===== src/Fake/ObjectStore.antt =====
-- storage/fake/store.go: the methods for single artifacts and for manifests, and what Put promises.
-- SHA-256 and the text of the present time are arguments.
use open_trove.Base.{
  ℕ, String, Bool, true, false, not, ◌&&◌, ◌==◌, Option, none, some, List, [], ◌≡◌, refl, ◌⊎◌, inl,
  inr, is_some, if◌then◌else◌, Error, Result, ok, err, sentinel, not_found, slug_conflict,
  version_mismatch, arith, eq_iff, Option-cases, Bool-cases, Result-cases,
}
use open_trove.Base.Text.{is_empty}
use open_trove.Base.Dict.{get, put, without, get-put}
use open_trove.Base.Exec.{Exec}
use open_trove.Storage.{PutOptions, FileMetadata}
use open_trove.Activity.{ActivityRecord, UserManifest, empty_manifest, record_upload, record_view}
use open_trove.Fake.{Store, StoredObject}

abbrev or_empty : Option UserManifest → UserManifest
or_empty none = empty_manifest
or_empty (some m) = m

abbrev stamped : String → ActivityRecord → ActivityRecord
stamped now r = record r { at = now }

unfoldable pub record_upload_for :
    (String → ℕ) → String → String → ActivityRecord → Exec Store (Unit {0})
record_upload_for parse now user r s = (
  ok tt,
  record s {
    manifests =
        put user (record_upload parse (stamped now r) (or_empty (get user s.manifests)))
          s.manifests;
  },
)

unfoldable pub record_view_for :
    (String → ℕ) → String → String → ActivityRecord → Exec Store (Unit {0})
record_view_for parse now user r s = (
  ok tt,
  record s {
    manifests =
        put user (record_view parse (stamped now r) (or_empty (get user s.manifests))) s.manifests;
  },
)

unfoldable pub get_manifest : String → Exec Store UserManifest
get_manifest user s = (ok (or_empty (get user s.manifests)), s)

unfoldable pub delete_object : String → Exec Store (Unit {0})
delete_object slug s =
    if is_some (get slug s.objects)
    then (ok tt, record s { objects = without slug s.objects })
    else (err (sentinel not_found), s)

abbrev flag_if : String → Option StoredObject → Exec Store (Unit {0})
flag_if slug none s = (err (sentinel not_found), s)
flag_if slug (some o) s =
    (ok tt, record s { objects = put slug (record o { flagged = true }) s.objects })

unfoldable pub flag : String → Exec Store (Unit {0})
flag slug s = flag_if slug (get slug s.objects) s

module _ (version : List ℕ → String) where
  abbrev pub new_object : List ℕ → PutOptions → StoredObject
  new_object contents opts = record {
    contents = contents;
    content_type = opts.content_type;
    filename = opts.filename;
    custom_slug = opts.custom_slug;
    owner_email = opts.owner_email;
    flagged = false;
  }

  abbrev pub has_version : String → Option StoredObject → Bool
  has_version wanted none = false
  has_version wanted (some o) = version o.contents == wanted

  abbrev stored_if : String → PutOptions → Result (List ℕ) → Exec Store (Unit {0})
  stored_if slug opts (err e) s = (err e, s)
  stored_if slug opts (ok contents) s =
      (ok tt, record s { objects = put slug (new_object contents opts) s.objects })

  -- `body` is what reading the body to its end gives.
  unfoldable pub put_object : String → Result (List ℕ) → PutOptions → Exec Store (Unit {0})
  put_object slug body opts s =
      if not (is_empty opts.if_match)
      then (if not (has_version opts.if_match (get slug s.objects))
          then (err (sentinel version_mismatch), s)
          else stored_if slug opts body s)
      else if not opts.overwrite && is_some (get slug s.objects)
      then (err (sentinel slug_conflict), s)
      else stored_if slug opts body s

  abbrev pub metadata_of : StoredObject → FileMetadata
  metadata_of o = record {
    owner_email = o.owner_email;
    content_type = o.content_type;
    filename = o.filename;
    version = version o.contents;
    custom_slug = o.custom_slug;
    flagged = o.flagged;
    flag_reason = "";
    flag_categories = [];
    content_range = "";
    content_length = 0;
  }

  abbrev found : Option StoredObject → Result FileMetadata
  found none = err (sentinel not_found)
  found (some o) = ok (metadata_of o)

  unfoldable pub metadata : String → Exec Store FileMetadata
  metadata slug s = (found (get slug s.objects), s)

  abbrev opened : Option StoredObject → Result (List ℕ × FileMetadata)
  opened none = err (sentinel not_found)
  opened (some o) = ok (o.contents, record (metadata_of o) { flagged = false })

  unfoldable pub get_object : String → Exec Store (List ℕ × FileMetadata)
  get_object slug s = (opened (get slug s.objects), s)

  -- When Put may write: over the version that is asked for, or, if none is, over nothing or with
  -- the leave to overwrite.
  abbrev MayPut : String → PutOptions → Store → Type 0
  MayPut slug opts s =
      ((is_empty opts.if_match ≡ false)
        × (o : StoredObject) × (get slug s.objects ≡ some o)
        × (version o.contents ≡ opts.if_match))
      ⊎ ((is_empty opts.if_match ≡ true) × ((opts.overwrite ≡ true) ⊎ (get slug s.objects ≡ none)))

  -- A write that is allowed fails only with its own error.
  abbrev Refuses : String → Result (List ℕ) → PutOptions → Store → Error → Type 0
  Refuses slug body opts s e = MayPut slug opts s → body ≡ err e

  write_decides :
      (slug : String) (body : Result (List ℕ)) (opts : PutOptions) (s : Store)
      → put_object slug body opts s ≡ stored_if slug opts body s
      → MayPut slug opts s
      → (MayPut slug opts s
          × (contents : List ℕ) × (body ≡ ok contents)
          × (put_object slug body opts s
              ≡ (ok tt, record s { objects = put slug (new_object contents opts) s.objects })))
        ⊎ ((e : Error) × (put_object slug body opts s ≡ (err e, s)) × Refuses slug body opts s e)
  write_decides slug body opts s same may = elim (Result-cases body) [
    | inl (contents, read) ↦ inl (may, contents, read, rw same (rw read refl))
    | inr (e, failed) ↦ inr (e, rw same (rw failed refl), λ m. failed)
  ]

  -- Put writes the new object at its slug and changes nothing else, where it may: over the version
  -- that is asked for, or, if none is, over nothing or with the leave to overwrite; otherwise, and
  -- where the body cannot be read, it fails and changes nothing.
  put_object_decides :
      (slug : String) (body : Result (List ℕ)) (opts : PutOptions) (s : Store)
      → (MayPut slug opts s
          × (contents : List ℕ) × (body ≡ ok contents)
          × (put_object slug body opts s
              ≡ (ok tt, record s { objects = put slug (new_object contents opts) s.objects })))
        ⊎ ((e : Error) × (put_object slug body opts s ≡ (err e, s)) × Refuses slug body opts s e)
  unfolding put_object
  put_object_decides slug body opts s = elim (Bool-cases (is_empty opts.if_match)) [
    | inl free ↦ elim (Bool-cases (not opts.overwrite && is_some (get slug s.objects))) [
      | inl taken ↦ inr (
        sentinel slug_conflict,
        rw free (rw taken refl),
        λ m. absurd (ground (arith, m, free, taken)),
      )
      | inr open_slug ↦
          write_decides slug body opts s (rw free (rw open_slug refl))
            (inr (free, ground (arith, open_slug)))
    ]
    | inr wanted ↦ elim (Option-cases (get slug s.objects)) [
      | inl missing ↦ inr (
        sentinel version_mismatch,
        rw wanted (rw missing refl),
        λ m. absurd (ground (arith, m, wanted, missing)),
      )
      | inr (o, there) ↦ elim (Bool-cases (version o.contents == opts.if_match)) [
        | inr stale ↦ inr (
          sentinel version_mismatch,
          rw wanted (rw there (rw stale refl)),
          λ m. absurd (stale_refuses wanted there stale m),
        )
        | inl same ↦ write_decides slug body opts s (rw wanted (rw there (rw same refl))) (
            inl (wanted, o, there, ground (arith, same, eq_iff (version o.contents) opts.if_match)))
      ]
    ]
  ]
    where
      stale_refuses :
          {o : StoredObject}
          → is_empty opts.if_match ≡ false
          → get slug s.objects ≡ some o
          → (version o.contents == opts.if_match) ≡ false
          → MayPut slug opts s
          → ⊥
      stale_refuses {o} wanted there stale (inl (_, p, found', match)) = ground (
        arith,
        there,
        found',
        match,
        stale,
        eq_iff (version o.contents) opts.if_match,
        eq_iff (version p.contents) opts.if_match,
      )
      stale_refuses {o} wanted there stale (inr (free, _)) = ground (arith, free, wanted)

  -- After a Put without an error, Get returns the contents with their metadata, and Metadata the
  -- same metadata.
  get_object-put_object :
      (slug : String) (contents : List ℕ) (opts : PutOptions) (s : Store)
      → (put_object slug (ok contents) opts s).0 ≡ ok tt
      → ((get_object slug (put_object slug (ok contents) opts s).1).0
          ≡ ok (contents, metadata_of (new_object contents opts)))
        × ((metadata slug (put_object slug (ok contents) opts s).1).0
            ≡ ok (metadata_of (new_object contents opts)))
  unfolding get_object metadata
  get_object-put_object slug contents opts s h =
      elim (put_object_decides slug (ok contents) opts s) [
        | inr (e, failed, _) ↦ absurd (ground (arith, failed, h))
        | inl (_, c, read, same) ↦
            let there : get slug (put slug (new_object contents opts) s.objects)
                ≡ some (new_object contents opts) =
              ground
                (arith, get-put slug slug (new_object contents opts) s.objects, eq_iff slug slug) in
            let mine : c ≡ contents = ground (arith, read) in
            rw same (rw mine (rw there (refl, refl)))
      ]
