-- ===== src/Config/Versions.antt =====
-- internal/config/config.go: OlderVersion is the order of versions as sequences of numbers.
use open_trove.Base.{
  ℕ, zero, suc, ◌<◌, String, Bool, true, some, List, [], ◌∷◌, eqb, ltb, if◌then◌else◌, ◌≡◌, ◌↔◌,
  ◌⊎◌, inl, inr, arith, Bool-cases, Option-cases,
}
use open_trove.Config.{parse_version, older_numbers, older_version}

-- The first place where two sequences differ is one where the first is smaller.
abbrev pub Below : (ℕ → ℕ) → (ℕ → ℕ) → Type 0
Below f g = (i : ℕ) × (f i < g i) × ((j : ℕ) → j < i → f j ≡ g j)

-- The numbers of a version go on with zeros.
abbrev pub number_at : List ℕ → ℕ → ℕ
number_at [] i = 0
number_at (x ∷ xs) zero = x
number_at (x ∷ xs) (suc i) = number_at xs i

module _ (f g : ℕ → ℕ) where
  abbrev rest : (ℕ → ℕ) → ℕ → ℕ
  rest h i = h (suc i)

  Below-lt : f 0 < g 0 → Below f g
  Below-lt less = (0, less, λ j h. absurd (omega arith))

  Below-rest : f 0 ≡ g 0 → Below (rest f) (rest g) → Below f g
  Below-rest same (i, less, before) = (suc i, less, λ j. upto j)
    where
      upto : (j : ℕ) → j < suc i → f j ≡ g j
      upto zero h = same
      upto (suc j) h = before j (omega arith)

  Below-cases : Below f g → (f 0 < g 0) ⊎ ((f 0 ≡ g 0) × Below (rest f) (rest g))
  Below-cases (zero, less, before) = inl less
  Below-cases (suc i, less, before) =
      inr (before 0 (omega arith), (i, less, λ j h. before (suc j) (omega arith)))

  -- One round of the loop.
  Below-step :
      (b : Bool)
      → (b ≡ true) ↔ Below (rest f) (rest g)
      → ((if eqb (f 0) (g 0) then b else ltb (f 0) (g 0)) ≡ true) ↔ Below f g
  Below-step b (sound, complete) = (
    λ h. elim (Bool-cases (eqb (f 0) (g 0))) [
      | inl same ↦ Below-rest (ground (arith, same)) (sound (ground (arith, same, h)))
      | inr other ↦ Below-lt (ground (arith, other, h))
    ],
    λ h. elim (Below-cases h) [
      | inl less ↦ ground (arith, less)
      | inr (same, below) ↦ ground (arith, same, complete below)
    ],
  )

older_numbers-Below :
    (xs ys : List ℕ) → (older_numbers xs ys ≡ true) ↔ Below (number_at xs) (number_at ys)
unfolding older_numbers
older_numbers-Below [] [] = (λ h. absurd (cc h), λ (i, less, before). absurd (omega arith))
older_numbers-Below [] (y ∷ ys) =
    Below-step (number_at []) (number_at (y ∷ ys)) (older_numbers [] ys) (older_numbers-Below [] ys)
older_numbers-Below (x ∷ xs) [] =
    Below-step (number_at (x ∷ xs)) (number_at []) (older_numbers xs []) (older_numbers-Below xs [])
older_numbers-Below (x ∷ xs) (y ∷ ys) =
    Below-step (number_at (x ∷ xs)) (number_at (y ∷ ys)) (older_numbers xs ys)
      (older_numbers-Below xs ys)

-- One version is older than another exactly if both are valid and, where the two sequences of
-- numbers, which go on with zeros, first differ, its number is the smaller.
pub older_version-Below :
    (a b : String)
    → (older_version a b ≡ true) ↔ (
        (xs : List ℕ) × (ys : List ℕ) × (parse_version a ≡ some xs)
        × (parse_version b ≡ some ys)
        × Below (number_at xs) (number_at ys))
unfolding older_version
older_version-Below a b = (
  λ h. elim (Option-cases (parse_version a)) [
    | inl none_a ↦ absurd (ground (arith, none_a, h))
    | inr (xs, got) ↦ elim (Option-cases (parse_version b)) [
      | inl none_b ↦ absurd (ground (arith, got, none_b, h))
      | inr (ys, got') ↦
          (xs, ys, got, got', (older_numbers-Below xs ys).0 (ground (arith, got, got', h)))
    ]
  ],
  λ (xs, ys, got, got', below). ground (arith, got, got', (older_numbers-Below xs ys).1 below),
)
