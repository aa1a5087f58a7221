-- ===== src/Activity/Laws.antt =====
-- A user's history has one record for each artifact, and its time never goes backwards.
use mathlib.Core.List.{append_assoc}
use open_trove.Base.{
  ℕ, String, true, not, ◌&&◌, List, [], ◌∷◌, ◌++◌, ◌==◌, ltb, if◌then◌else◌, ◌≡◌, refl, ◌≤◌, ◌<◌,
  ◌⊎◌, inl, inr, arith, eq_iff, Bool-cases, filter, All, In, All-imp,
}
use open_trove.Base.Text.{is_empty}
use open_trove.Activity.{
  ActivityRecord, UserManifest, merge_from, merge_activity, owner_from, attributed,
}

-- The records of other artifacts, in their order.
abbrev pub others : String → List ActivityRecord → List ActivityRecord
others slug = filter (λ r. not (r.slug == slug))

-- The records of one artifact.
abbrev pub entries : String → List ActivityRecord → List ActivityRecord
entries slug = filter (λ r. r.slug == slug)

lt_le : (a b : ℕ) → a < b → a ≤ b
lt_le a b h = omega arith

module _ (parse : String → ℕ) where
  -- The one of two records that mergeActivity keeps: the first, unless the second is newer.
  abbrev pub keep : ActivityRecord → ActivityRecord → ActivityRecord
  keep r p = if ltb (parse r.at) (parse p.at) then p else r

  -- The record that is left of `r` and those of the artifact `slug`.
  latest : String → ActivityRecord → List ActivityRecord → ActivityRecord
  latest slug r [] = r
  latest slug r (p ∷ ps) = latest slug (if p.slug == slug then keep r p else r) ps

  merge_from-eq :
      (slug : String) (out : List ActivityRecord) (r : ActivityRecord) (ps : List ActivityRecord)
      → r.slug ≡ slug
      → merge_from parse out r (parse r.at) ps ≡ out ++ (others slug ps ++ latest slug r ps ∷ [])
  unfolding merge_from latest
  merge_from-eq slug out r [] e = refl
  merge_from-eq slug out r (p ∷ ps) e = ground (
    arith,
    merge_from-eq slug (out ++ p ∷ []) r ps,
    merge_from-eq slug out p ps,
    merge_from-eq slug out r ps,
    eq_iff p.slug slug,
    append_assoc out (p ∷ []) (others slug ps ++ latest slug r ps ∷ []),
  )

  merge_activity-eq :
      (r : ActivityRecord) (ps : List ActivityRecord)
      → merge_activity parse ps r ≡ others r.slug ps ++ latest r.slug r ps ∷ []
  unfolding merge_activity
  merge_activity-eq r ps = merge_from-eq r.slug [] r ps refl

  -- `kept` may stand for `r` and for the records of the artifact among `ps`.
  pub record IsLatest (slug : String) (r : ActivityRecord) (ps : List ActivityRecord)
      (kept : ActivityRecord) : Type 0 where
    pub slug_kept : kept.slug ≡ slug
    pub newer_than_record : parse r.at ≤ parse kept.at
    pub newer_than_entries : All (λ p. parse p.at ≤ parse kept.at) (entries slug ps)
    pub origin : (kept ≡ r) ⊎ ((parse r.at < parse kept.at) × In kept (entries slug ps))

  latest-IsLatest :
      (slug : String) (r : ActivityRecord) (ps : List ActivityRecord)
      → r.slug ≡ slug
      → IsLatest slug r ps (latest slug r ps)
  unfolding latest
  latest-IsLatest slug r [] e = ground arith
  latest-IsLatest slug r (p ∷ ps) e =
      ground (arith, eq_iff p.slug slug, latest-IsLatest slug p ps, latest-IsLatest slug r ps e)

  others-others :
      (slug : String) (ps : List ActivityRecord) → others slug (others slug ps) ≡ others slug ps
  others-others slug [] = refl
  others-others slug (p ∷ ps) = ground (arith, others-others slug ps)

  entries-others : (slug : String) (ps : List ActivityRecord) → entries slug (others slug ps) ≡ []
  entries-others slug [] = refl
  entries-others slug (p ∷ ps) = ground (arith, entries-others slug ps)

  -- Merging a record into a history keeps the records of other artifacts in their order, and has
  -- one record of its own artifact, at the end: the new record, or a stored one with a later time,
  -- whose time is no earlier than that of the new record and of each that it replaces.
  pub merge_activity-IsLatest :
      (r : ActivityRecord) (ps : List ActivityRecord)
      → (kept : ActivityRecord) × (merge_activity parse ps r ≡ others r.slug ps ++ kept ∷ [])
        × IsLatest r.slug r ps kept
  merge_activity-IsLatest r ps =
      (latest r.slug r ps, merge_activity-eq r ps, latest-IsLatest r.slug r ps refl)

  latest-append :
      (slug : String) (r k : ActivityRecord) (ps : List ActivityRecord)
      → entries slug ps ≡ []
      → k.slug ≡ slug
      → latest slug r (ps ++ k ∷ []) ≡ keep r k
  unfolding latest
  latest-append slug r k [] none_left e = ground (arith, eq_iff k.slug slug)
  latest-append slug r k (p ∷ ps) none_left e = ground (arith, latest-append slug r k ps)

  others-append_entry :
      (slug : String) (k : ActivityRecord) (ps : List ActivityRecord)
      → k.slug ≡ slug
      → others slug (ps ++ k ∷ []) ≡ others slug ps
  others-append_entry slug k [] e = ground (arith, eq_iff k.slug slug)
  others-append_entry slug k (p ∷ ps) e = ground (arith, others-append_entry slug k ps)

  -- Merging the same record a second time changes nothing.
  merge_activity_idempotent :
      (r : ActivityRecord) (ps : List ActivityRecord)
      → merge_activity parse (merge_activity parse ps r) r ≡ merge_activity parse ps r
  merge_activity_idempotent r ps =
      let k = latest r.slug r ps in
      let l = latest-IsLatest r.slug r ps refl in
      simp
        (
          merge_activity-eq r,
          others-append_entry r.slug k (others r.slug ps) l.slug_kept,
          others-others r.slug ps,
          latest-append r.slug r k (others r.slug ps) (entries-others r.slug ps) l.slug_kept,
        )
        (ground (arith, l.origin))

  -- The owner that RecordView gives to a record without one.
  record IsNewestUpload (slug : String) (uploads : List ActivityRecord) (owner : String)
      (u : ActivityRecord) : Type 0 where
    pub listed : In u (entries slug uploads)
    pub newest : All (λ v. parse v.at ≤ parse u.at) (entries slug uploads)
    pub owned : owner ≡ (if is_empty u.owner_email then u.user_email else u.owner_email)

  owner_from_lem :
      (slug owner : String) (newest : ℕ) (us : List ActivityRecord)
      → ((owner_from parse slug owner newest us ≡ owner)
          × All (λ v. parse v.at < newest) (entries slug us))
        ⊎ ((u : ActivityRecord) × (newest ≤ parse u.at)
            × IsNewestUpload slug us (owner_from parse slug owner newest us) u)
  unfolding owner_from
  owner_from_lem slug owner newest [] = inl (refl, tt)
  owner_from_lem slug owner newest (v ∷ us) =
      let own = if is_empty v.owner_email then v.user_email else v.owner_email in
      elim (Bool-cases (v.slug == slug && not (ltb (parse v.at) newest))) [
        | inl newer ↦ elim (owner_from_lem slug own (parse v.at) us) [
          | inl (same, older) ↦ inr (
            v,
            ground arith,
            rw newer (record {
              listed = ground arith;
              newest = ground (
                arith,
                All-imp (λ w h. lt_le (parse w.at) (parse v.at) h) (entries slug us) older,
              );
              owned = same;
            }),
          )
          | inr (u, le, found) ↦ inr (
            u,
            ground arith,
            rw newer (record {
              listed = ground (arith, found.listed);
              newest = ground (arith, found.newest);
              owned = found.owned;
            }),
          )
        ]
        | inr skipped ↦ elim (owner_from_lem slug owner newest us) [
          | inl (same, older) ↦ inl (rw skipped same, ground arith)
          | inr (u, le, found) ↦ inr (
            u,
            le,
            rw skipped (record {
              listed = ground (arith, found.listed);
              newest = ground (arith, found.newest);
              owned = found.owned;
            }),
          )
        ]
      ]

  nil_of_none_below_zero : (us : List ActivityRecord) → All (λ v. parse v.at < 0) us → us ≡ []
  nil_of_none_below_zero [] h = refl
  nil_of_none_below_zero (u ∷ us) h = absurd (omega arith)

  -- RecordView gives a view without an owner the owner of the newest upload of the artifact in the
  -- manifest, and none only where that is empty or there is no such upload.
  attributed-owner :
      (m : UserManifest) (r : ActivityRecord)
      → r.owner_email ≡ ""
      → (((attributed parse m r).owner_email ≡ "") × (entries r.slug m.uploads ≡ []))
        ⊎ ((u : ActivityRecord) × IsNewestUpload r.slug m.uploads
              (attributed parse m r).owner_email
              u)
  unfolding attributed
  attributed-owner m r e =
      let blank : is_empty r.owner_email ≡ true = rw e in
      elim (owner_from_lem r.slug r.owner_email 0 m.uploads) [
        | inl (same, older) ↦
            inl (ground arith, nil_of_none_below_zero (entries r.slug m.uploads) older)
        | inr (u, _, found) ↦ inr (
          u,
          record {
            listed = found.listed;
            newest = found.newest;
            owned = ground (arith, found.owned);
          },
        )
      ]
