-- ===== src/Comments/Service/Invariant.antt =====
-- The invariant of the stored comments together, and when a write keeps it.
use open_trove.Base.{
  String, true, false, ◌&&◌, some, ◌≡◌, sym, ◌∙◌, ◌⊎◌, inl, inr, ◌==◌, Result, arith, eq_iff,
  Bool-cases,
}
use open_trove.Base.Text.{is_empty, Unicode}
use open_trove.Comments.{Comment}
use open_trove.Comments.Contract.{View, Same, Wrote, Contract}
use open_trove.Comments.Service.{Service}
use open_trove.Comments.Service.Effects.{Effect}
use open_trove.Comments.Service.WellFormed.{IsWellFormed}

-- The comments together: each is filed under its own slug and identifier, and each reply has its
-- root, which is no reply, under the same slug.
pub record IsConsistent (v : View) : Type 0 where
  pub filed : (slug id : String) (c : Comment) → v slug id ≡ some c → (c.slug ≡ slug) × (c.id ≡ id)
  pub sound : (slug id : String) (c : Comment) → v slug id ≡ some c → IsWellFormed c
  pub rooted :
      (slug id : String) (c : Comment)
      → v slug id ≡ some c
      → is_empty c.parent_id ≡ false
      → (root : Comment) × (v slug c.parent_id ≡ some root) × (is_empty root.parent_id ≡ true)

IsConsistent-Same : {v w : View} → Same v w → IsConsistent v → IsConsistent w
IsConsistent-Same same h = record {
  filed = λ slug id c e. h.filed slug id c (sym (same slug id) ∙ e);
  sound = λ slug id c e. h.sound slug id c (sym (same slug id) ∙ e);
  rooted = λ slug id c e reply.
      let (root, found, top) = h.rooted slug id c (sym (same slug id) ∙ e) reply in
      (root, same slug c.parent_id ∙ found, top);
}

-- A comment that may be written over what is stored: it keeps a root a root, and a reply has one.
pub record Fits (v : View) (c : Comment) : Type 0 where
  pub sound : IsWellFormed c
  pub keeps_root :
      (old : Comment)
      → v c.slug c.id ≡ some old
      → is_empty old.parent_id ≡ true
      → is_empty c.parent_id ≡ true
  pub rooted :
      is_empty c.parent_id ≡ false
      → (root : Comment) × (v c.slug c.parent_id ≡ some root) × (is_empty root.parent_id ≡ true)

-- A root of `v` is a root of `w`.
Wrote-root :
    {v w : View} (c : Comment) (slug id : String) (root : Comment)
    → Wrote v c w
    → Fits v c
    → v slug id ≡ some root
    → is_empty root.parent_id ≡ true
    → (root' : Comment) × (w slug id ≡ some root') × (is_empty root'.parent_id ≡ true)
Wrote-root {v} {w} c slug id root written fits found top =
    elim (Bool-cases (c.slug == slug && c.id == id)) [
      | inl here ↦ (
        c,
        ground (arith, written slug id),
        fits.keeps_root root (ground (arith, eq_iff c.slug slug, eq_iff c.id id)) top,
      )
      | inr other ↦ (root, ground (arith, written slug id), top)
    ]

Wrote-cases :
    (v : View) {w : View} (c : Comment) (slug id : String) (d : Comment)
    → Wrote v c w
    → w slug id ≡ some d
    → ((d ≡ c) × (c.slug ≡ slug) × (c.id ≡ id)) ⊎ (v slug id ≡ some d)
Wrote-cases v {w} c slug id d written e = elim (Bool-cases (c.slug == slug && c.id == id)) [
  | inl here ↦ inl (
    ground (arith, written slug id),
    ground (arith, eq_iff c.slug slug),
    ground (arith, eq_iff c.id id),
  )
  | inr other ↦ inr (ground (arith, written slug id))
]

IsConsistent-Wrote :
    {v w : View} (c : Comment) → Wrote v c w → Fits v c → IsConsistent v → IsConsistent w
IsConsistent-Wrote {v} {w} c written fits h = record {
  filed = λ slug id d e. elim (Wrote-cases v c slug id d written e) [
    | inl (same, at_slug, at_id) ↦ rw same (at_slug, at_id)
    | inr old ↦ h.filed slug id d old
  ];
  sound = λ slug id d e. elim (Wrote-cases v c slug id d written e) [
    | inl (same, _, _) ↦ rw same fits.sound
    | inr old ↦ h.sound slug id d old
  ];
  rooted = λ slug id d e reply.
      let (root, found, top) = root_of slug id d e reply in
      Wrote-root c slug d.parent_id root written fits found top;
}
  where
    root_of :
        (slug id : String) (d : Comment)
        → w slug id ≡ some d
        → is_empty d.parent_id ≡ false
        → (root : Comment) × (v slug d.parent_id ≡ some root) × (is_empty root.parent_id ≡ true)
    root_of slug id d e reply = elim (Wrote-cases v c slug id d written e) [
      | inl (same, at_slug, _) ↦ rw (same, ← at_slug) (fits.rooted (rw same at reply))
      | inr old ↦ h.rooted slug id d old reply
    ]

module _ (u : Unicode) {S : Type 0} (svc : Service S) (contract : Contract svc.repository) where
  open contract use {view}

  -- A call whose write fits keeps the invariant, also where it returns an error.
  pub Effect-IsConsistent :
      {Changes Returns : Comment → Type 0} (s : S) (r : Result Comment) (s' : S)
      → ((c : Comment) → Changes c → Fits (view s) c)
      → IsConsistent (view s)
      → Effect u svc contract Changes Returns s r s'
      → IsConsistent (view s')
  Effect-IsConsistent s r s' fits h (Effect.refused e _ same) = IsConsistent-Same same h
  Effect-IsConsistent s r s' fits h (Effect.returned c _ _ same) = IsConsistent-Same same h
  Effect-IsConsistent s r s' fits h (Effect.wrote c change _ written) =
      IsConsistent-Wrote c written (fits c change) h

-- A comment that is stored, changed in what is neither its place nor its parent, fits.
pub Fits-of_stored :
    {v : View} (slug id : String) (old c : Comment)
    → IsConsistent v
    → v slug id ≡ some old
    → c.slug ≡ old.slug
    → c.id ≡ old.id
    → c.parent_id ≡ old.parent_id
    → IsWellFormed c
    → Fits v c
Fits-of_stored {v} slug id old c h found same_slug same_id same_parent sound =
    let (at_slug, at_id) = h.filed slug id old found in
    let there : v c.slug c.id ≡ some old = rw (same_slug ∙ at_slug, same_id ∙ at_id) found in
    record {
      sound = sound;
      keeps_root = λ old' found' top. ground (arith, there, found', same_parent);
      rooted = λ reply.
          rw (same_slug ∙ at_slug, same_parent)
            (h.rooted slug id old found (rw same_parent at reply));
    }
