-- ===== src/Intake/Source.antt =====
-- intake/source.go: the cache before the source of the guidance. Fetch reads the clock once before
-- the inner source is asked and once after, and the calls follow one another: two that overlap
-- share the cache, not the fetch.
use open_trove.Base.{
  ℕ, ◌+◌, ◌/◌, Bool, true, ◌&&◌, List, [], ◌∷◌, ltb, if◌then◌else◌, Result, ok, err, ◌≡◌, refl, inl,
  inr, All, Bool-cases, Result-cases,
}
use open_trove.Base.Exec.{Exec}

pub record CachedSource : Type 0 where
  pub cached : List ℕ
  pub expires : ℕ
  pub has_cached : Bool

module _ {S : Type 0} (inner : Exec S (List ℕ)) (ttl : ℕ) where
  -- What follows the call of the inner source.
  unfoldable pub refreshed :
      ℕ → CachedSource → Result (List ℕ) → S → Result (List ℕ) × CachedSource × S
  refreshed later c (ok fresh) s =
      (ok fresh, record { cached = fresh; expires = later + ttl; has_cached = true }, s)
  refreshed later c (err e) s =
      if c.has_cached
      then (ok c.cached, record c { expires = later + ttl / 2 }, s)
      else (err e, c, s)

  unfoldable pub fetch : ℕ → ℕ → CachedSource → S → Result (List ℕ) × CachedSource × S
  unfolding refreshed
  fetch now later c s =
      if c.has_cached && ltb now c.expires
      then (ok c.cached, c, s)
      else refreshed later c (inner s).0 (inner s).1

  -- The answers to a run of calls, each with the two times that it reads.
  unfoldable pub fetch_all : List (ℕ × ℕ) → CachedSource → S → List (Result (List ℕ))
  unfolding fetch
  fetch_all [] c s = []
  fetch_all ((now, later) ∷ calls) c s =
      (fetch now later c s).0 ∷ fetch_all calls (fetch now later c s).1 (fetch now later c s).2

  module _ (P : List ℕ → Type 0) (inner_P : (s : S) (v : List ℕ) → (inner s).0 ≡ ok v → P v) where
    -- The source has a value, and it is a good one.
    pub record IsFilled (c : CachedSource) : Type 0 where
      pub filled : c.has_cached ≡ true
      pub good : P c.cached

    abbrev pub Answers : Result (List ℕ) → Type 0
    Answers r = (v : List ℕ) × (r ≡ ok v) × P v

    fetch-IsFilled :
        (now later : ℕ) (c : CachedSource) (s : S)
        → IsFilled c
        → Answers (fetch now later c s).0 × IsFilled (fetch now later c s).1
    unfolding fetch refreshed
    fetch-IsFilled now later c s h = elim (Bool-cases (c.has_cached && ltb now c.expires)) [
      | inl fresh ↦ rw fresh ((c.cached, refl, h.good), h)
      | inr old ↦ elim (Result-cases (inner s).0) [
        | inl (v, got) ↦
            rw old (
              rw got ((v, refl, inner_P s v got), record { filled = refl; good = inner_P s v got }))
        | inr (e, failed) ↦ rw old (
            rw failed
              (rw h.filled ((c.cached, refl, h.good), record { filled = refl; good = h.good })))
      ]
    ]

    -- Once the cache has a value, every call of a run of calls of Fetch answers without an error,
    -- however the inner source fails, and with a value for which holds what holds of the cached
    -- value and of all that the inner source gives.
    pub fetch_all-Answers :
        (calls : List (ℕ × ℕ)) (c : CachedSource) (s : S)
        → IsFilled c
        → All Answers (fetch_all calls c s)
    unfolding fetch_all
    fetch_all-Answers [] c s h = tt
    fetch_all-Answers ((now, later) ∷ calls) c s h =
        let (answer, kept) = fetch-IsFilled now later c s h in
        (answer, fetch_all-Answers calls (fetch now later c s).1 (fetch now later c s).2 kept)
