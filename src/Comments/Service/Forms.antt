-- ===== src/Comments/Service/Forms.antt =====
-- What the methods of Service make of a body and of a thread's state.
use Prim.Native.String.{len}
use open_trove.Base.{
  ◌≤◌, String, Bool, true, false, none, some, ◌≡◌, refl, inl, inr, ok, arith, Option-cases,
}
use open_trove.Base.Text.{is_empty, trim_space}
use open_trove.Comments.{Time, Comment}
use open_trove.Comments.Service.{normalized, with_resolution, settled}
use open_trove.Comments.{CreateInput}
use open_trove.Comments.Validate.{validate_create}
use open_trove.Comments.Service.WellFormed.{validate_body-eq-ok, validate_create-eq-ok}

-- A body as it is stored: the text that is sent, trimmed, which is not empty and has at most 5000
-- bytes.
abbrev pub IsBody : String → String → Type 0
IsBody raw body = (body ≡ trim_space raw) × (is_empty body ≡ false) × (len body ≤ 5000)

pub created_body :
    (slug author : String) (raw : CreateInput)
    → validate_create slug author (normalized raw) ≡ ok tt
    → IsBody raw.body (trim_space raw.body)
created_body slug author raw valid =
    let (_, full, short) =
      validate_body-eq-ok _ _ (validate_create-eq-ok slug author raw valid).1 in
    (refl, full, short)

-- The thread is open, and the root becomes resolved by the actor; or it is resolved, and the root
-- loses its resolution.
abbrev pub Turns : Bool → Time → String → Comment → Comment → Type 0
Turns true now actor c c' =
    (c.resolved_at ≡ none) × (c' ≡ record c { resolved_at = some now; resolved_by_email = actor })
Turns false now actor c c' =
    ((at : Time) × (c.resolved_at ≡ some at))
    × (c' ≡ record c { resolved_at = none; resolved_by_email = "" })

abbrev pub Already : Bool → Comment → Type 0
Already true c = (at : Time) × (c.resolved_at ≡ some at)
Already false c = c.resolved_at ≡ none

pub settled-Already :
    (c : Comment) (resolved : Bool) → settled c resolved ≡ true → Already resolved c
settled-Already c true h = elim (Option-cases c.resolved_at) [
  | inl still_open ↦ absurd (ground (arith, still_open, h))
  | inr found ↦ found
]
settled-Already c false h = elim (Option-cases c.resolved_at) [
  | inl still_open ↦ still_open
  | inr (at, found) ↦ absurd (ground (arith, found, h))
]

pub with_resolution-Turns :
    (c : Comment) (resolved : Bool) (now : Time) (actor : String)
    → settled c resolved ≡ false
    → Turns resolved now actor c (with_resolution c resolved now actor)
with_resolution-Turns c true now actor h = elim (Option-cases c.resolved_at) [
  | inl still_open ↦ (still_open, refl)
  | inr (at, found) ↦ absurd (ground (arith, found, h))
]
with_resolution-Turns c false now actor h = elim (Option-cases c.resolved_at) [
  | inl still_open ↦ absurd (ground (arith, still_open, h))
  | inr found ↦ (found, refl)
]

pub with_resolution-of_Turns :
    (c c' : Comment) (resolved : Bool) (now : Time) (actor : String)
    → Turns resolved now actor c c'
    → c' ≡ with_resolution c resolved now actor
with_resolution-of_Turns c c' true now actor (_, same) = same
with_resolution-of_Turns c c' false now actor (_, same) = same
