-- ===== src/Tests/Intake.antt =====
-- A source that fails, before which a value is kept, and a cache that remembers the last key.
use open_trove.Base.{
  ℕ, String, Bool, false, Option, none, some, List, [], ◌∷◌, ◌≡◌, ◌==◌, refl, sym, eq_iff, arith,
  inl, All, ok, err, sentinel, source_unavailable, true,
}
use open_trove.Base.Exec.{Exec}
use open_trove.Intake.{Input, Inspector}
use open_trove.Intake.Cache.{VerdictCache, cache_key, inspect}
use open_trove.Intake.Cache.Laws.{Marks, IsSound, Justified, inspect-IsSound}
use open_trove.Intake.Source.{CachedSource, fetch_all, fetch, refreshed, Answers, fetch_all-Answers}

abbrev down : Exec ℕ (List ℕ)
down calls = (err (sentinel source_unavailable), calls)

abbrev kept : CachedSource
kept = record { cached = 7 ∷ []; expires = 10; has_cached = true }

abbrev IsSeven : List ℕ → Type 0
IsSeven v = v ≡ 7 ∷ []

down_never : (s : ℕ) (v : List ℕ) → (down s).0 ≡ ok v → IsSeven v
down_never s v h = absurd (cc h)

fetch_all_test :
    fetch_all down 60 ((20, 21) ∷ (30, 31) ∷ []) kept 0 ≡ ok (7 ∷ []) ∷ ok (7 ∷ []) ∷ []
unfolding fetch_all fetch refreshed
fetch_all_test = refl

fetch_all-Answers_example :
    All (Answers down 60 IsSeven down_never) (fetch_all down 60 ((20, 21) ∷ (30, 31) ∷ []) kept 0)
fetch_all-Answers_example =
    fetch_all-Answers down 60 IsSeven down_never ((20, 21) ∷ (30, 31) ∷ []) kept 0
      (record { filled = refl; good = refl })

-- The state is the key that was stored last.
abbrev inner : Inspector (Option String)
inner input s = (ok (record { allowed = true; reason = ""; categories = [] }), s)

abbrev fingerprint : Exec (Option String) String
fingerprint s = (ok "v1", s)

abbrev is_marked : Option String → String → Bool
is_marked none k = false
is_marked (some j) k = j == k

abbrev cache : VerdictCache (Option String)
cache = record {
  has_allowed_verdict = λ k s. (ok (is_marked s k), s);
  put_allowed_verdict = λ k s. (ok tt, some k);
}

has_mark : (k : String) (s : Option String) → ok (is_marked s k) ≡ ok true → is_marked s k ≡ true
has_mark k s h = ground (arith, h)

marks : Marks inner fingerprint cache
marks = record {
  marked = is_marked;
  found = has_mark;
  after_look_up = λ k j s m. m;
  after_put = λ k j s m. inl (sym ((eq_iff k j).0 m));
  after_inspection = λ input j s m. m;
  after_fingerprint = λ j s m. m;
}

abbrev key : String → Input → String
key = cache_key (λ bytes. "digest") (λ text. text)

abbrev page : Input
page = record { filename = "a.html"; content_type = "text/html"; body = 1 ∷ [] }

abbrev SoundAt : Option String → Type 0
SoundAt = IsSound key inner fingerprint cache marks

nothing_marked : SoundAt none
unfolding marks
nothing_marked k m = absurd (cc m)

inspect-IsSound_example :
    SoundAt (inspect key inner fingerprint cache page none).1
    × Justified key inner fingerprint cache marks page
        (inspect key inner fingerprint cache page none).0
inspect-IsSound_example = inspect-IsSound key inner fingerprint cache marks page none nothing_marked
