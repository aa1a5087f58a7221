-- ===== src/Comments/Service/History.antt =====
-- What becomes of a stored comment over any sequence of requests.
use open_trove.Base.{
  String, Bool, true, false, ◌&&◌, none, some, inl, inr, ◌≡◌, ◌∙◌, is_some, arith, ◌==◌, eq_iff,
  Bool-cases, Result,
}
use open_trove.Base.Text.{Unicode}
use open_trove.Comments.{Time, Comment}
use open_trove.Comments.Contract.{View, Contract, Observes}
use open_trove.Comments.Service.{Service, with_thread_id, edited, tombstone, with_resolution}
use open_trove.Comments.Service.Effects.{Effect}
use open_trove.Comments.Service.Forms.{with_resolution-of_Turns}
use open_trove.Comments.Service.Laws.{
  edit-Effect, delete-Effect, resolve-Effect, create-Effect, reply-Effect,
}
use open_trove.Comments.Service.Invariant.{IsConsistent}
use open_trove.Comments.Service.Steps.{
  Step, creates, replies, edits, deletes, resolves, Reach, here, next, Reach-IsConsistent,
}

-- What `new` may be, where `old` was stored: the same message of the same author at the same
-- place, and `old` itself if that is a tombstone.
pub record Evolves (old new : Comment) : Type 0 where
  pub slug : new.slug ≡ old.slug
  pub id : new.id ≡ old.id
  pub parent : new.parent_id ≡ old.parent_id
  pub author : new.author_email ≡ old.author_email
  pub created : new.created_at ≡ old.created_at
  pub version : new.artifact_version ≡ old.artifact_version
  pub anchor : new.anchor ≡ old.anchor
  pub frozen : is_some old.deleted_at ≡ true → new ≡ old

Evolves-refl : (c : Comment) → Evolves c c
Evolves-refl c = ground arith

Evolves-trans : {a b c : Comment} → Evolves a b → Evolves b c → Evolves a c
Evolves-trans p q = ground arith

edited-Evolves :
    (c : Comment) (body : String) (now : Time) (actor : String)
    → (with_thread_id c).deleted_at ≡ none
    → Evolves c (edited (with_thread_id c) body now actor)
unfolding with_thread_id
edited-Evolves c body now actor live = ground arith

tombstone-Evolves :
    (c : Comment) (now : Time) (actor : String)
    → (with_thread_id c).deleted_at ≡ none
    → Evolves c (tombstone (with_thread_id c) now actor)
unfolding with_thread_id
tombstone-Evolves c now actor live = ground arith

with_resolution-Evolves :
    (c : Comment) (resolved : Bool) (now : Time) (actor : String)
    → (with_thread_id c).deleted_at ≡ none
    → Evolves c (with_resolution (with_thread_id c) resolved now actor)
unfolding with_thread_id
with_resolution-Evolves c true now actor live = ground arith
with_resolution-Evolves c false now actor live = ground arith

module _ (u : Unicode) {S : Type 0} (svc : Service S) (contract : Contract svc.repository)
    (observes : Observes contract.view svc.observer) where
  open contract use {view}

  -- A write that lets what it replaces evolve.
  abbrev Extends : View → Comment → Type 0
  Extends v c = (old : Comment) → v c.slug c.id ≡ some old → Evolves old c

  Effect-Evolves :
      {Changes Returns : Comment → Type 0} (s : S) (r : Result Comment) (s' : S) (slug id : String)
      (old : Comment)
      → ((c : Comment) → Changes c → Extends (view s) c)
      → view s slug id ≡ some old
      → Effect u svc contract Changes Returns s r s'
      → (new : Comment) × (view s' slug id ≡ some new) × Evolves old new
  Effect-Evolves s r s' slug id old extends found (Effect.refused e _ same) =
      (old, same slug id ∙ found, Evolves-refl old)
  Effect-Evolves s r s' slug id old extends found (Effect.returned c _ _ same) =
      (old, same slug id ∙ found, Evolves-refl old)
  Effect-Evolves s r s' slug id old extends found (Effect.wrote c change _ written) =
      elim (Bool-cases (c.slug == slug && c.id == id)) [
        | inl here_written ↦ (
          c,
          ground (arith, written slug id),
          extends c change old (ground (arith, eq_iff c.slug slug, eq_iff c.id id)),
        )
        | inr other ↦ (old, ground (arith, written slug id), Evolves-refl old)
      ]

  -- Where the stored comment that a write replaces is the one that was read.
  Extends-of_stored :
      (s : S) (slug id : String) (stored c : Comment)
      → IsConsistent (view s)
      → view s slug id ≡ some stored
      → Evolves stored c
      → Extends (view s) c
  Extends-of_stored s slug id stored c h found e old found' =
      let (at_slug, at_id) = h.filed slug id stored found in
      let here_stored : view s c.slug c.id ≡ some stored =
        rw (e.slug ∙ at_slug, e.id ∙ at_id) found in
      let same : stored ≡ old = cc (here_stored, found') in rw (← same) e

  -- Every request lets every stored comment evolve.
  Step-Evolves :
      {s t : S} (slug id : String) (old : Comment)
      → IsConsistent (view s)
      → view s slug id ≡ some old
      → Step u svc contract observes s t
      → (new : Comment) × (view t slug id ≡ some new) × Evolves old new
  Step-Evolves {s} j k old h found (creates id now slug author version raw fresh) =
      Effect-Evolves s _ _ j k old (λ c (_, _, _, same) o e. cc (rw same at e, fresh)) found
        (create-Effect u svc contract observes id now slug author version raw s fresh)
  Step-Evolves {s} j k old h found (replies id now slug thread_id author version raw fresh) =
      Effect-Evolves s _ _ j k old (λ c (_, _, _, _, _, _, _, same) o e. cc (rw same at e, fresh))
        found
        (reply-Effect u svc contract observes id now slug thread_id author version raw s fresh)
  Step-Evolves {s} j k old h found (edits now slug id actor raw) =
      Effect-Evolves s _ _ j k old
        (λ c (d, body, m, _, _, same).
          Extends-of_stored s slug id m.stored c h m.found
            (rw (same, m.read) (edited-Evolves m.stored body now actor (rw m.read at m.live))))
        found (edit-Effect u svc contract observes now slug id actor raw s)
  Step-Evolves {s} j k old h found (deletes now slug id actor) =
      Effect-Evolves s _ _ j k old
        (λ c (d, m, same).
          Extends-of_stored s slug id m.stored c h m.found
            (rw (same, m.read) (tombstone-Evolves m.stored now actor (rw m.read at m.live))))
        found (delete-Effect u svc contract observes now slug id actor s)
  Step-Evolves {s} j k old h found (resolves now slug id actor resolved) =
      Effect-Evolves s _ _ j k old
        (λ c (d, o, _, turns). Extends-of_stored s slug id o.stored c h o.found (
          rw (with_resolution-of_Turns d c resolved now actor turns, o.read)
            (with_resolution-Evolves o.stored resolved now actor (rw o.read at o.live))))
        found (resolve-Effect u svc contract observes now slug id actor resolved s)

  -- Over the same sequences of calls, no stored comment of a consistent store disappears or
  -- changes its slug, identifier, parent, author, creation time, version or anchor, and a deleted
  -- one does not change at all.
  pub Reach-Evolves :
      {s t : S} (slug id : String) (old : Comment)
      → IsConsistent (view s)
      → view s slug id ≡ some old
      → Reach u svc contract observes s t
      → (new : Comment) × (view t slug id ≡ some new) × Evolves old new
  Reach-Evolves slug id old h found here = (old, found, Evolves-refl old)
  Reach-Evolves slug id old h found (next r step) =
      let (mid, found_mid, first) = Reach-Evolves slug id old h found r in
      let (new, found_new, second) =
        Step-Evolves slug id mid (Reach-IsConsistent u svc contract observes h r) found_mid step in
      (new, found_new, Evolves-trans first second)
