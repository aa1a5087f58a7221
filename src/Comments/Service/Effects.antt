-- ===== src/Comments/Service/Effects.antt =====
-- How a method of Service can change what is stored, and the reads and writes that it is made of.
use open_trove.Base.{
  String, true, false, Option, none, some, ◌≡◌, ◌≢◌, refl, sym, ◌∙◌, ◌⊎◌, inl, inr, ok, err, Result,
  Error, wrap, arith, Result-cases, Bool-cases,
}
use open_trove.Base.Text.{is_empty, trim_space, Unicode, equal_fold}
use open_trove.Base.Exec.{Exec, pure, map_result_err, continue, ◌>>=◌, ◌>>◌, >>=-cases}
use open_trove.Comments.{Comment, Activity, ActivityKind}
use open_trove.Comments.Contract.{View, Same, Wrote, Contract, Observes}
use open_trove.Comments.Service.{
  Service, with_thread_id, emit, emit_to, stored_comment, check_author, comment_for_mutation,
}

-- A comment as it is read: as it is stored, or with the thread that a record without one belongs to,
-- its own where it is a root and its parent's where it is a reply.
abbrev pub Reads : Comment → Comment → Type 0
Reads stored c =
    ((is_empty stored.thread_id ≡ false) × (c ≡ stored))
    ⊎ ((is_empty stored.thread_id ≡ true)
        × (is_empty stored.parent_id ≡ true)
        × (c ≡ record stored { thread_id = stored.id }))
    ⊎ ((is_empty stored.thread_id ≡ true)
        × (is_empty stored.parent_id ≡ false)
        × (c ≡ record stored { thread_id = stored.parent_id }))

pub with_thread_id-Reads : (stored : Comment) → Reads stored (with_thread_id stored)
unfolding with_thread_id
with_thread_id-Reads stored = elim (Bool-cases (is_empty stored.thread_id)) [
  | inr has ↦ inl (has, rw has refl)
  | inl lacks ↦ elim (Bool-cases (is_empty stored.parent_id)) [
    | inl root ↦ inr (inl (lacks, root, rw (lacks, root) refl))
    | inr below ↦ inr (inr (lacks, below, rw (lacks, below) refl))
  ]
]

module _ (u : Unicode) {S : Type 0} (svc : Service S) (contract : Contract svc.repository) where
  open contract use {view}

  pub stored_comment-keeps :
      (slug id : String) (s : S) → Same (view s) (view (stored_comment u svc slug id s).1)
  unfolding stored_comment
  stored_comment-keeps slug id s j k = ground (arith, contract.get_keeps slug id s j k)

  pub stored_comment-eq-ok :
      (slug id : String) (s : S) {c : Comment}
      → (stored_comment u svc slug id s).0 ≡ ok c
      → (stored : Comment) × (view s slug id ≡ some stored)
        × (c ≡ with_thread_id stored)
        × (is_empty (trim_space id) ≡ false)
  unfolding stored_comment
  stored_comment-eq-ok slug id s h = elim (Result-cases (svc.repository.get_comment slug id s).0) [
    | inl (stored, got) ↦ (stored, contract.get_ok slug id s stored got, ground arith, ground arith)
    | inr (e, failed) ↦ ground arith
  ]

  pub comment_for_mutation-keeps :
      (slug id actor : String) (s : S)
      → Same (view s) (view (comment_for_mutation u svc slug id actor s).1)
  unfolding comment_for_mutation check_author
  comment_for_mutation-keeps slug id actor s j k =
      ground (arith, stored_comment-keeps slug id s j k)

  -- What a comment must be for its author to change it.
  pub record IsMutable (slug id actor : String) (s : S) (c : Comment) : Type 0 where
    pub stored : Comment
    pub found : view s slug id ≡ some stored
    pub read : c ≡ with_thread_id stored
    pub completed : Reads stored c
    pub live : c.deleted_at ≡ none
    pub own : equal_fold u c.author_email actor ≡ true
    pub actor_named : is_empty (trim_space actor) ≡ false

  pub comment_for_mutation-eq-ok :
      (slug id actor : String) (s : S) {c : Comment}
      → (comment_for_mutation u svc slug id actor s).0 ≡ ok c
      → IsMutable slug id actor s c
  unfolding comment_for_mutation check_author
  comment_for_mutation-eq-ok slug id actor s {c} h =
      elim (Result-cases (stored_comment u svc slug id s).0) [
        | inl (d, got) ↦
            let same : d ≡ c = ground arith in
            let (stored, found, read, _) = stored_comment-eq-ok slug id s got in
            record {
              stored = stored;
              found = found;
              read = sym same ∙ read;
              completed = rw (sym same ∙ read) (with_thread_id-Reads stored);
              live = ground arith;
              own = ground arith;
              actor_named = ground arith;
            }
        | inr (e, failed) ↦ absurd (ground arith)
      ]

  -- How a call can change what is stored: not at all, or by one comment of which `Changes` holds.
  -- A repository that fails may leave either, so an error is no proof that nothing was written.
  pub data Effect (Changes Returns : Comment → Type 0) (s : S) (r : Result Comment) (s' : S)
      : Type 0 where
    refused : (e : Error) → r ≡ err e → Same (view s) (view s') → Effect Changes Returns s r s'
    returned :
        (c : Comment)
        → Returns c
        → r ≡ ok c
        → Same (view s) (view s')
        → Effect Changes Returns s r s'
    wrote :
        (c : Comment)
        → Changes c
        → (r ≡ ok c) ⊎ ((e : Error) × (r ≡ err e))
        → Wrote (view s) c (view s')
        → Effect Changes Returns s r s'

  abbrev pub Ran : (Comment → Type 0) → (Comment → Type 0) → Exec S Comment → S → Type 0
  Ran Changes Returns m s = Effect Changes Returns s (m s).0 (m s).1

  pub Wrote-of_Same : {v w x : View} (c : Comment) → Same v w → Wrote w c x → Wrote v c x
  Wrote-of_Same c same written j k = ground (arith, same j k, written j k)

  pub Wrote-Same : (v : View) {w x : View} (c : Comment) → Wrote v c w → Same w x → Wrote v c x
  Wrote-Same v c written same j k = same j k ∙ written j k

  pub Same-trans : {v w x : View} → Same v w → Same w x → Same v x
  Same-trans p q j k = q j k ∙ p j k

  -- A call that reads first.
  pub Effect-of_Same :
      {Changes Returns : Comment → Type 0} {s t s' : S} {r : Result Comment}
      → Same (view s) (view t)
      → Effect Changes Returns t r s'
      → Effect Changes Returns s r s'
  Effect-of_Same same (refused e h k) = refused e h (Same-trans same k)
  Effect-of_Same same (returned c h e k) = returned c h e (Same-trans same k)
  Effect-of_Same same (wrote c h e k) = wrote c h e (Wrote-of_Same c same k)

  -- A read, and what follows it where it succeeds.
  pub bind-Effect :
      {Changes Returns : Comment → Type 0} {A : Type 0} (m : Exec S A) (f : A → Exec S Comment)
      (s : S)
      → Same (view s) (view (m s).1)
      → ((a : A) → (m s).0 ≡ ok a → Ran Changes Returns (f a) (m s).1)
      → Ran Changes Returns (m >>= f) s
  bind-Effect {Changes} {Returns} m f s same next = elim (>>=-cases m f s) [
    | inl (e, failed, run) ↦ rw run (refused e refl same)
    | inr (a, got, run) ↦ rw run (Effect-of_Same same (next a got))
  ]

  abbrev pub Written : View → Comment → S → Result (Unit {0}) → Type 0
  Written v c s' r = Wrote v c (view s') ⊎ (Same v (view s') × (r ≢ ok tt))

  -- What follows a write runs where it succeeds, leaves the comments alone and returns `c`.
  abbrev pub Finishes : Comment → Exec S Comment → Type 0
  Finishes c finish = (s : S) → Same (view s) (view (finish s).1) × ((finish s).0 ≡ ok c)

  pub write-Effect :
      {Changes Returns : Comment → Type 0} (t : String) (c : Comment) (finish : Exec S Comment)
      (s s' : S) (r : Result (Unit {0}))
      → Changes c
      → Finishes c finish
      → Written (view s) c s' r
      → Ran Changes Returns (λ _. continue (map_result_err (wrap t) r) (λ _. finish) s') s
  write-Effect t c finish s s' (ok _) h last (inl written) =
      wrote c h (inl (last s').1) (Wrote-Same (view s) c written (last s').0)
  write-Effect t c finish s s' (ok _) h last (inr (same, not_done)) = absurd (not_done refl)
  write-Effect t c finish s s' (err e) h last (inl written) =
      wrote c h (inr (wrap t e, refl)) written
  write-Effect t c finish s s' (err e) h last (inr (same, _)) = refused (wrap t e) refl same

  emit_to-keeps :
      (o : Option (Activity → S → S)) (a : Activity) (s : S)
      → Observes view o
      → Same (view s) (view (emit_to o a s))
  unfolding emit_to
  emit_to-keeps none a s h j k = refl
  emit_to-keeps (some observe) a s h j k = h a s j k

  emit-keeps :
      Observes view svc.observer
      → (kind : ActivityKind) (actor : String) (c : Comment) (s : S)
      → Same (view s) (view (emit u svc kind actor c s).1)
  unfolding emit
  emit-keeps observes kind actor c s = emit_to-keeps svc.observer _ s observes

  pub finish_silently : (c : Comment) → Finishes c (pure c)
  finish_silently c s = ((λ j k. refl), refl)

  pub finish_emitting :
      Observes view svc.observer
      → (kind : ActivityKind) (actor : String) (c : Comment)
      → Finishes c (emit u svc kind actor c >> pure c)
  unfolding emit
  finish_emitting observes kind actor c s = (emit-keeps observes kind actor c s, refl)
