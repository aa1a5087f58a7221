-- ===== src/Comments/Service/Steps.antt =====
-- A store of comments over time: the requests of a service as a step relation, and what holds
-- after any sequence of them.
use open_trove.Base.{String, Bool, true, false, none, ◌≡◌, refl, sym, ◌∙◌, ap, subst, arith}
use open_trove.Base.Text.{is_empty, trim_space, Unicode}
use open_trove.Base.Text.Laws.{is_empty_of_trim_space}
use open_trove.Comments.{Time, Comment, CreateInput}
use open_trove.Comments.Contract.{Contract, Observes}
use open_trove.Comments.Service.{
  Service, new_comment, with_thread_id, with_resolution, create, reply, edit, delete, resolve,
}
use open_trove.Comments.Service.Laws.{
  Edits, Deletes, Resolves, Creates, Replies, edit-Effect, delete-Effect, resolve-Effect,
  create-Effect, reply-Effect,
}
use open_trove.Comments.Service.Forms.{with_resolution-of_Turns}
use open_trove.Comments.Service.WellFormed.{
  IsWellFormed, validate_body-eq-ok, validate_create-eq-ok, with_thread_id-IsWellFormed,
  edited-IsWellFormed, tombstone-IsWellFormed, with_resolution-IsWellFormed,
  new_comment-IsWellFormed,
}
use open_trove.Comments.Service.Invariant.{IsConsistent, Fits, Fits-of_stored, Effect-IsConsistent}

-- What `with_thread_id` leaves alone.
pub with_thread_id_fields :
    (c : Comment)
    → ((with_thread_id c).slug ≡ c.slug)
      × ((with_thread_id c).id ≡ c.id)
      × ((with_thread_id c).parent_id ≡ c.parent_id)
unfolding with_thread_id
with_thread_id_fields c = ground arith

pub with_resolution_fields :
    (c : Comment) (resolved : Bool) (now : Time) (actor : String)
    → ((with_resolution c resolved now actor).slug ≡ c.slug)
      × ((with_resolution c resolved now actor).id ≡ c.id)
      × ((with_resolution c resolved now actor).parent_id ≡ c.parent_id)
with_resolution_fields c true now actor = (refl, refl, refl)
with_resolution_fields c false now actor = (refl, refl, refl)

-- What validation lets through.
module _ (u : Unicode) {S : Type 0} (svc : Service S) (contract : Contract svc.repository)
    (observes : Observes contract.view svc.observer) where
  open contract use {view}

  -- A request to the service, with the time and the unused identifier that it is given.
  pub data Step (s : S) : S → Type 0 where
    creates :
        (id : String) (now : Time) (slug author version : String) (raw : CreateInput)
        → view s slug id ≡ none
        → Step s (create u svc id now slug author version raw s).1
    replies :
        (id : String) (now : Time) (slug thread_id author version raw : String)
        → view s slug id ≡ none
        → Step s (reply u svc id now slug thread_id author version raw s).1
    edits :
        (now : Time) (slug id actor raw : String) → Step s (edit u svc now slug id actor raw s).1
    deletes : (now : Time) (slug id actor : String) → Step s (delete u svc now slug id actor s).1
    resolves :
        (now : Time) (slug id actor : String) (resolved : Bool)
        → Step s (resolve u svc now slug id actor resolved s).1

  pub data Reach (s : S) : S → Type 0 where
    here : Reach s s
    next : {t t' : S} → Reach s t → Step t t' → Reach s t'

  Fits-of_Edits :
      (slug id actor : String) (now : Time) (raw : String) (s : S) (c : Comment)
      → IsConsistent (view s)
      → Edits u svc contract observes slug id actor now raw s c
      → Fits (view s) c
  Fits-of_Edits slug id actor now raw s c h (d, body, m, valid, trimmed, same) =
      let (_, full, short) = validate_body-eq-ok raw body valid in
      let (at_slug, at_id, at_parent) = with_thread_id_fields m.stored in
      rw (same, m.read)
        (Fits-of_stored slug id m.stored _ h m.found at_slug at_id at_parent (
          edited-IsWellFormed _ body now actor
            (with_thread_id-IsWellFormed m.stored (h.sound slug id m.stored m.found))
            (sym (ap (λ (c : Comment). c.deleted_at) m.read) ∙ m.live) full short))

  Fits-of_Deletes :
      (slug id actor : String) (now : Time) (s : S) (c : Comment)
      → IsConsistent (view s)
      → Deletes u svc contract observes slug id actor now s c
      → Fits (view s) c
  Fits-of_Deletes slug id actor now s c h (d, m, same) =
      let (at_slug, at_id, at_parent) = with_thread_id_fields m.stored in
      rw (same, m.read)
        (Fits-of_stored slug id m.stored _ h m.found at_slug at_id at_parent (
          tombstone-IsWellFormed _ now actor
            (with_thread_id-IsWellFormed m.stored (h.sound slug id m.stored m.found))))

  Fits-of_Resolves :
      (slug id actor : String) (resolved : Bool) (now : Time) (s : S) (c : Comment)
      → IsConsistent (view s)
      → Resolves u svc contract observes slug id actor resolved now s c
      → Fits (view s) c
  Fits-of_Resolves slug id actor resolved now s c h (d, o, named, turns) =
      let same = with_resolution-of_Turns d c resolved now actor turns in
      let (at_slug, at_id, at_parent) = with_thread_id_fields o.stored in
      let kept = with_resolution_fields (with_thread_id o.stored) resolved now actor in
      rw (same, o.read)
        (Fits-of_stored slug id o.stored _ h o.found (kept.0 ∙ at_slug) (kept.1 ∙ at_id)
          (kept.2 ∙ at_parent)
          (with_resolution-IsWellFormed _ resolved now actor
            (with_thread_id-IsWellFormed o.stored (h.sound slug id o.stored o.found))
            (rw o.read at o.root) named))

  Fits-of_Creates :
      (id : String) (now : Time) (slug author version : String) (raw : CreateInput) (s : S)
      (c : Comment)
      → view s slug id ≡ none
      → Creates u svc contract observes id now slug author version raw c
      → Fits (view s) c
  Fits-of_Creates id now slug author version raw s c fresh (valid, _, _, same) =
      let (named, checked) = validate_create-eq-ok slug author raw valid in
      let (_, full, short) = validate_body-eq-ok _ _ checked in
      rw same (record {
        sound =
            new_comment-IsWellFormed id "" slug author (trim_space raw.body) now version _ named
              full short;
        keeps_root = λ old found. cc (fresh);
        rooted = λ reply. cc;
      })

  Fits-of_Replies :
      (id : String) (now : Time) (slug thread_id author version raw : String) (s : S) (c : Comment)
      → IsConsistent (view s)
      → view s slug id ≡ none
      → Replies u svc contract observes id now slug thread_id author version raw s c
      → Fits (view s) c
  Fits-of_Replies id now slug thread_id author version raw s c h fresh
        (root, body, o, _, valid, named, trimmed, same) =
      let (_, full, short) = validate_body-eq-ok raw body valid in
      let (_, at_id, at_parent) = with_thread_id_fields o.stored in
      let same_id : root.id ≡ thread_id =
        ap (λ (d : Comment). d.id) o.read ∙ at_id ∙ (h.filed slug thread_id o.stored o.found).1 in
      let same_parent : root.parent_id ≡ o.stored.parent_id =
        ap (λ (d : Comment). d.parent_id) o.read ∙ at_parent in
      let filled : is_empty root.id ≡ false =
        rw same_id (is_empty_of_trim_space thread_id o.named) in
      rw same (record {
        sound =
            subst
              (λ t.
                IsWellFormed (new_comment id t root.id slug author body now version root.anchor))
              (rw filled)
              (new_comment-IsWellFormed id root.id slug author body now version root.anchor named
                full short);
        keeps_root = λ old found. cc (fresh);
        rooted = λ _. (o.stored, rw same_id o.found, rw (← same_parent) o.root);
      })

  -- Every request keeps the stored comments consistent, whether it succeeds or not.
  pub Step-IsConsistent : {s t : S} → Step s t → IsConsistent (view s) → IsConsistent (view t)
  Step-IsConsistent {s} (creates id now slug author version raw fresh) h =
      Effect-IsConsistent u svc contract s _ _
        (λ c. Fits-of_Creates id now slug author version raw s c fresh) h
        (create-Effect u svc contract observes id now slug author version raw s fresh)
  Step-IsConsistent {s} (replies id now slug thread_id author version raw fresh) h =
      Effect-IsConsistent u svc contract s _ _
        (λ c. Fits-of_Replies id now slug thread_id author version raw s c h fresh) h
        (reply-Effect u svc contract observes id now slug thread_id author version raw s fresh)
  Step-IsConsistent {s} (edits now slug id actor raw) h =
      Effect-IsConsistent u svc contract s _ _ (λ c. Fits-of_Edits slug id actor now raw s c h) h
        (edit-Effect u svc contract observes now slug id actor raw s)
  Step-IsConsistent {s} (deletes now slug id actor) h =
      Effect-IsConsistent u svc contract s _ _ (λ c. Fits-of_Deletes slug id actor now s c h) h
        (delete-Effect u svc contract observes now slug id actor s)
  Step-IsConsistent {s} (resolves now slug id actor resolved) h =
      Effect-IsConsistent u svc contract s _ _
        (λ c. Fits-of_Resolves slug id actor resolved now s c h) h
        (resolve-Effect u svc contract observes now slug id actor resolved s)

  -- Over a repository that meets the contract and an observer that leaves the comments alone,
  -- after any sequence of calls of Create, Reply, Edit, Delete and Resolve, also of calls that
  -- fail, where Create and Reply are given unused identifiers, the stored comments are consistent
  -- if they were: each is filed under its slug and identifier, is well formed, and a reply has a
  -- stored root under the same slug.
  pub Reach-IsConsistent : {s t : S} → IsConsistent (view s) → Reach s t → IsConsistent (view t)
  Reach-IsConsistent h here = h
  Reach-IsConsistent h (next r step) = Step-IsConsistent step (Reach-IsConsistent h r)
