-- ===== src/Comments/Service/Laws.antt =====
-- What each method of Service writes: one comment at most, and only where its guards allow it.
use open_trove.Base.{
  String, Bool, true, false, none, some, ◌≡◌, refl, ◌∙◌, inl, inr, ok, arith, Bool-cases,
  Option-cases,
}
use open_trove.Base.Text.{is_empty, trim_space, Unicode}
use open_trove.Base.Exec.{Exec, pure, lift, ◌>>=◌}
use open_trove.Comments.{Time, Comment}
use open_trove.Comments.Contract.{Same, Contract, Observes}
use open_trove.Comments.Validate.{validate_body}
use open_trove.Comments.Service.{
  Service, normalized, with_thread_id, stored_comment, open_root, comment_for_mutation, edited,
  tombstone, with_resolution, settled, create, reply, edit, delete, resolve,
}
use open_trove.Comments.{CreateInput}
use open_trove.Comments.Validate.{validate_create, normalize_anchor}
use open_trove.Comments.Service.WellFormed.{validate_body-eq-ok, validate_create-eq-ok}
use open_trove.Comments.Service.Forms.{
  IsBody, created_body, Turns, Already, settled-Already, with_resolution-Turns,
}
use open_trove.Comments.Service.Effects.{
  Reads, with_thread_id-Reads, IsMutable, Effect, Ran, stored_comment-keeps, stored_comment-eq-ok,
  comment_for_mutation-keeps, comment_for_mutation-eq-ok, bind-Effect, write-Effect,
  finish_silently, finish_emitting,
}

module _ (u : Unicode) {S : Type 0} (svc : Service S) (contract : Contract svc.repository)
    (observes : Observes contract.view svc.observer) where
  open contract use {view}

  -- What Edit and Delete make of a comment.
  abbrev pub Edits : String → String → String → Time → String → S → Comment → Type 0
  Edits slug id actor now raw s c' =
      (c : Comment) × (body : String) × IsMutable u svc contract slug id actor s c
      × (validate_body raw ≡ ok body)
      × IsBody raw body
      × (c' ≡ record c { body = body; edited_at = some now; edited_by_email = actor })

  -- Over a repository that meets the contract, Edit changes no stored comment, or the one comment
  -- that it names: a live comment of the actor, which gets the new body, the time and the editor
  -- and keeps everything else of what was read.
  pub edit-Effect :
      (now : Time) (slug id actor raw : String) (s : S)
      → Effect u svc contract
          (Edits slug id actor now raw s)
          (λ _. ⊥)
          s
          (edit u svc now slug id actor raw s).0
          (edit u svc now slug id actor raw s).1
  unfolding edit
  edit-Effect now slug id actor raw s =
      bind-Effect u svc contract (lift (validate_body raw)) _ s (λ j k. refl)
        λ body valid.
          bind-Effect u svc contract (comment_for_mutation u svc slug id actor) _ s
            (comment_for_mutation-keeps u svc contract slug id actor s)
            λ c got.
              write-Effect u svc contract "updating comment" (edited c body now actor) (pure _) _ _
                _
                (
                  c,
                  body,
                  comment_for_mutation-eq-ok u svc contract slug id actor s got,
                  valid,
                  validate_body-eq-ok raw body valid,
                  refl,
                )
                (finish_silently u svc contract _)
                (contract.update_result (edited c body now actor) _)

  abbrev pub Deletes : String → String → String → Time → S → Comment → Type 0
  Deletes slug id actor now s c' =
      (c : Comment) × IsMutable u svc contract slug id actor s c
      × (c' ≡ record c { body = ""; deleted_at = some now; deleted_by_email = actor })

  -- Over a repository that meets the contract, Delete changes no stored comment, or puts a
  -- tombstone without a body in place of a live comment of the actor.
  pub delete-Effect :
      (now : Time) (slug id actor : String) (s : S)
      → Effect u svc contract
          (Deletes slug id actor now s)
          (λ _. ⊥)
          s
          (delete u svc now slug id actor s).0
          (delete u svc now slug id actor s).1
  unfolding delete
  delete-Effect now slug id actor s =
      bind-Effect u svc contract (comment_for_mutation u svc slug id actor) _ s
        (comment_for_mutation-keeps u svc contract slug id actor s)
        λ c got.
          write-Effect u svc contract "deleting comment" (tombstone c now actor) (pure _) _ _ _
            (c, comment_for_mutation-eq-ok u svc contract slug id actor s got, refl)
            (finish_silently u svc contract _) (contract.update_result (tombstone c now actor) _)

  -- Over a repository that meets the contract, Edit changes no stored comment, or the one comment
  -- that it names: a live comment of the actor, which gets the new body, trimmed, not empty and of
  -- at most 5000 bytes, the time and the actor as its editor; and Delete changes no stored
  -- comment, or the one that it names, a live comment of the actor, which loses its body and gets
  -- the time and the actor as the one who has deleted it. Either keeps everything else of the
  -- comment, but for the thread identifier that it gives a record stored without one: the root's
  -- own identifier, or that of the parent.
  pub comment_for_mutation-Effect :
      (now : Time) (slug id actor raw : String) (s : S)
      → Effect u svc contract
          (Edits slug id actor now raw s)
          (λ _. ⊥)
          s
          (edit u svc now slug id actor raw s).0
          (edit u svc now slug id actor raw s).1
        × Effect u svc contract
            (Deletes slug id actor now s)
            (λ _. ⊥)
            s
            (delete u svc now slug id actor s).0
            (delete u svc now slug id actor s).1
  comment_for_mutation-Effect now slug id actor raw s =
      (edit-Effect now slug id actor raw s, delete-Effect now slug id actor s)

  -- A root whose thread can go on.
  pub record IsOpenRoot (slug id : String) (s : S) (c : Comment) : Type 0 where
    pub stored : Comment
    pub found : view s slug id ≡ some stored
    pub read : c ≡ with_thread_id stored
    pub completed : Reads stored c
    pub root : is_empty c.parent_id ≡ true
    pub live : c.deleted_at ≡ none
    pub named : is_empty (trim_space id) ≡ false

  open_root-eq : (c : Comment) (s : S) → (open_root u svc c s).1 ≡ s
  unfolding open_root
  open_root-eq c s = ground arith

  open_root-eq-ok :
      (c d : Comment) (s : S)
      → (open_root u svc c s).0 ≡ ok d
      → (d ≡ c) × (is_empty c.parent_id ≡ true) × (c.deleted_at ≡ none)
  unfolding open_root
  open_root-eq-ok c d s h = ground arith

  -- A thread's root is read, and the rest runs where the thread is open.
  root-Effect :
      {Changes Returns : Comment → Type 0} (slug id : String) (f : Comment → Exec S Comment) (s : S)
      → ((c : Comment) (t : S)
          → Same (view s) (view t)
          → IsOpenRoot slug id s c
          → Effect u svc contract Changes Returns t (f c t).0 (f c t).1)
      → Ran u svc contract Changes Returns
          (stored_comment u svc slug id >>= λ stored. open_root u svc stored >>= f)
          s
  root-Effect slug id f s next =
      let same = stored_comment-keeps u svc contract slug id s in
      bind-Effect u svc contract (stored_comment u svc slug id) _ s same λ stored got.
        let t = (stored_comment u svc slug id s).1 in
        let still = open_root-eq stored t in
        let (kept, found, read, named) = stored_comment-eq-ok u svc contract slug id s got in
        bind-Effect u svc contract (open_root u svc stored) f t (rw still (λ j k. refl)) λ c opened.
          let (same_root, root, live) = open_root-eq-ok stored c t opened in
          rw still (
            next c t same (record {
              stored = kept;
              found = found;
              read = same_root ∙ read;
              completed = rw (same_root ∙ read) (with_thread_id-Reads kept);
              root = rw same_root root;
              live = rw same_root live;
              named = named;
            }))

  -- What Resolve makes of a root, and what it returns where there is nothing to do.
  abbrev pub Resolves : String → String → String → Bool → Time → S → Comment → Type 0
  Resolves slug id actor resolved now s c' =
      (c : Comment) × IsOpenRoot slug id s c
      × (is_empty (trim_space actor) ≡ false)
      × Turns resolved now actor c c'

  abbrev pub IsSettled : String → String → Bool → S → Comment → Type 0
  IsSettled slug id resolved s c = IsOpenRoot slug id s c × Already resolved c

  -- Over a repository that meets the contract, Resolve changes no stored comment, or the live root
  -- that it names: an open one gets the time and the actor as its resolution where that is asked
  -- for, and a resolved one loses its resolution where it is to be reopened. It keeps everything
  -- else of the root, but for the thread identifier that it gives a record stored without one, and
  -- returns without a write only where the root is in the requested state already.
  pub resolve-Effect :
      (now : Time) (slug id actor : String) (resolved : Bool) (s : S)
      → Effect u svc contract
          (Resolves slug id actor resolved now s)
          (IsSettled slug id resolved s)
          s
          (resolve u svc now slug id actor resolved s).0
          (resolve u svc now slug id actor resolved s).1
  unfolding resolve
  resolve-Effect now slug id actor resolved s = elim (Bool-cases (is_empty (trim_space actor))) [
    | inl blank ↦ rw blank (Effect.refused _ refl (λ j k. refl))
    | inr named ↦ rw named (
        root-Effect slug id _ s λ c t same is_open. elim (Bool-cases (settled c resolved)) [
          | inl done ↦
              rw done
                (Effect.returned c (is_open, settled-Already c resolved done) refl (λ j k. refl))
          | inr todo ↦ rw todo (
              write-Effect u svc contract "updating thread resolution"
                (with_resolution c resolved now actor) _ t _ _
                (c, is_open, named, with_resolution-Turns c resolved now actor todo)
                (finish_emitting u svc contract observes _ _ _)
                (contract.update_result (with_resolution c resolved now actor) t))
        ])
  ]

  -- The comment that Create makes of a valid input: a root with a thread of its own.
  abbrev pub Creates : String → Time → String → String → String → CreateInput → Comment → Type 0
  Creates id now slug author version raw c =
      (validate_create slug author (normalized raw) ≡ ok tt)
      × (is_empty (trim_space author) ≡ false)
      × IsBody raw.body (trim_space raw.body)
      × (c ≡ record {
        id = id;
        thread_id = id;
        parent_id = "";
        slug = slug;
        author_email = author;
        body = trim_space raw.body;
        created_at = now;
        edited_at = none;
        edited_by_email = "";
        deleted_at = none;
        deleted_by_email = "";
        resolved_at = none;
        resolved_by_email = "";
        artifact_version = version;
        anchor = normalize_anchor raw.anchor;
      })

  -- Over a repository that meets the contract and with an unused identifier, Create changes no
  -- stored comment, or stores the one new root that its valid input describes.
  pub create-Effect :
      (id : String) (now : Time) (slug author version : String) (raw : CreateInput) (s : S)
      → view s slug id ≡ none
      → Effect u svc contract
          (Creates id now slug author version raw)
          (λ _. ⊥)
          s
          (create u svc id now slug author version raw s).0
          (create u svc id now slug author version raw s).1
  unfolding create
  create-Effect id now slug author version raw s fresh =
      bind-Effect u svc contract (lift (validate_create slug author (normalized raw))) _ s
        (λ j k. refl)
        λ _ valid.
          write-Effect u svc contract "creating comment" _ _ s _ _
            (
              valid,
              (validate_create-eq-ok slug author raw valid).0,
              created_body slug author raw valid,
              refl,
            )
            (finish_emitting u svc contract observes _ _ _) (contract.create_fresh _ s fresh)

  -- The reply that Reply stores: it belongs to an open, unresolved root and takes its anchor.
  abbrev pub Replies :
      String → Time → String → String → String → String → String → S → Comment → Type 0
  Replies id now slug thread_id author version raw s c =
      (root : Comment) × (body : String) × IsOpenRoot slug thread_id s root
      × (root.resolved_at ≡ none)
      × (validate_body raw ≡ ok body)
      × (is_empty (trim_space author) ≡ false)
      × IsBody raw body
      × (c ≡ record {
        id = id;
        thread_id = root.id;
        parent_id = root.id;
        slug = slug;
        author_email = author;
        body = body;
        created_at = now;
        edited_at = none;
        edited_by_email = "";
        deleted_at = none;
        deleted_by_email = "";
        resolved_at = none;
        resolved_by_email = "";
        artifact_version = version;
        anchor = root.anchor;
      })

  -- Over a repository that meets the contract and with an unused identifier, Reply changes no
  -- stored comment, or stores one reply under a live root that is not resolved, with the anchor of
  -- the root.
  pub reply-Effect :
      (id : String) (now : Time) (slug thread_id author version raw : String) (s : S)
      → view s slug id ≡ none
      → Effect u svc contract
          (Replies id now slug thread_id author version raw s)
          (λ _. ⊥)
          s
          (reply u svc id now slug thread_id author version raw s).0
          (reply u svc id now slug thread_id author version raw s).1
  unfolding reply
  reply-Effect id now slug thread_id author version raw s fresh =
      bind-Effect u svc contract (lift (validate_body raw)) _ s (λ j k. refl)
        λ body valid. elim (Bool-cases (is_empty (trim_space author))) [
          | inl blank ↦ rw blank (Effect.refused _ refl (λ j k. refl))
          | inr named ↦ rw named (
              root-Effect slug thread_id _ s λ c t same is_open. elim (Option-cases c.resolved_at) [
                | inl unresolved ↦ rw unresolved (
                    write-Effect u svc contract "creating reply" _ _ t _ _
                      (
                        c,
                        body,
                        is_open,
                        unresolved,
                        valid,
                        named,
                        validate_body-eq-ok raw body valid,
                        refl,
                      )
                      (finish_emitting u svc contract observes _ _ _)
                      (contract.create_fresh _ t (same slug id ∙ fresh)))
                | inr (at, resolved) ↦ rw resolved (Effect.refused _ refl (λ j k. refl))
              ])
        ]

  -- Over a repository that meets the contract and with an unused identifier, Create changes no
  -- stored comment, or stores one new root for an input that is valid: with the identifier as that
  -- of its thread too, no parent, the slug, author, version and time of the call, the trimmed
  -- body, which is not empty and has at most 5000 bytes, and the normalized anchor; and Reply
  -- changes no stored comment, or stores one new reply under a live root that is not resolved:
  -- with the identifier of the root as parent and thread, a trimmed body that is not empty and has
  -- at most 5000 bytes, the slug, author, version and time of the call and the anchor of the root.
  -- A new comment is neither edited, deleted nor resolved.
  pub new_comment-Effect :
      (id : String) (now : Time) (slug thread_id author version raw : String) (input : CreateInput)
      (s : S)
      → view s slug id ≡ none
      → Effect u svc contract
          (Creates id now slug author version input)
          (λ _. ⊥)
          s
          (create u svc id now slug author version input s).0
          (create u svc id now slug author version input s).1
        × Effect u svc contract
            (Replies id now slug thread_id author version raw s)
            (λ _. ⊥)
            s
            (reply u svc id now slug thread_id author version raw s).0
            (reply u svc id now slug thread_id author version raw s).1
  new_comment-Effect id now slug thread_id author version raw input s fresh = (
    create-Effect id now slug author version input s fresh,
    reply-Effect id now slug thread_id author version raw s fresh,
  )
