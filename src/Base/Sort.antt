-- ===== src/Base/Sort.antt =====
-- Go's sort.SliceStable, as an insertion sort: there is one stable order, so that any stable sort
-- gives the same list.
use mathlib.Core.Path.{◌≡◌}
use mathlib.Core.Bool.{Bool, true, false}
use mathlib.Core.Logic.{◌⊎◌, inl, inr}
use mathlib.Core.List.{List, [], ◌∷◌}
use native.Mathlib.Omega.{arith}
use open_trove.Base.Tests.{if◌then◌else◌, Bool-cases}
use open_trove.Base.Lists.{All, All-imp, In}

module _ {A : Type 0} (less : A → A → Bool) where
  insert : A → List A → List A
  insert x [] = x ∷ []
  insert x (y ∷ ys) = let later = insert x ys in if less y x then y ∷ later else x ∷ y ∷ ys

  unfoldable pub sort : List A → List A
  unfolding insert
  sort [] = []
  sort (x ∷ xs) = insert x (sort xs)

  -- No later element is less than an earlier one.
  abbrev pub IsSorted : List A → Type 0
  IsSorted [] = Unit
  IsSorted (x ∷ xs) = All (λ y. less y x ≡ false) xs × IsSorted xs

  In-insert_iff :
      (z x : A) (xs : List A)
      → (In z (insert x xs) → (z ≡ x) ⊎ In z xs) × ((z ≡ x) ⊎ In z xs → In z (insert x xs))
  unfolding insert
  In-insert_iff z x [] = ((λ m. m), λ m. m)
  In-insert_iff z x (y ∷ ys) = elim (Bool-cases (less y x)) [
    | inl later ↦ rw later (ground (arith, In-insert_iff z x ys))
    | inr sooner ↦ rw sooner ((λ m. m), λ m. m)
  ]

  -- Sorting loses and adds nothing.
  pub In-sort : (z : A) (xs : List A) → (In z (sort xs) → In z xs) × (In z xs → In z (sort xs))
  unfolding sort
  In-sort z [] = ((λ m. m), λ m. m)
  In-sort z (x ∷ xs) =
      let (from, to) = In-insert_iff z x (sort xs) in
      let (back, forth) = In-sort z xs in
      (
        (λ m. elim (from m) [ inl e ↦ inl e | inr n ↦ inr (back n) ]),
        λ m. elim m [ inl e ↦ to (inl e) | inr n ↦ to (inr (forth n)) ],
      )

  module _ (asym : (a b : A) → less a b ≡ true → less b a ≡ false)
      (trans : (a b c : A) → less b a ≡ false → less c b ≡ false → less c a ≡ false) where
    All-insert : (P : A → Type 0) (x : A) (xs : List A) → P x → All P xs → All P (insert x xs)
    unfolding insert
    All-insert P x [] p h = (p, tt)
    All-insert P x (y ∷ ys) p (q, h) = ground (arith, All-insert P x ys p h)

    insert-IsSorted : (x : A) (xs : List A) → IsSorted xs → IsSorted (insert x xs)
    unfolding insert
    insert-IsSorted x [] h = (tt, tt)
    insert-IsSorted x (y ∷ ys) (h, k) = elim (Bool-cases (less y x)) [
      | inl later ↦
          rw later
            (All-insert (λ z. less z y ≡ false) x ys (asym y x later) h, insert-IsSorted x ys k)
      | inr sooner ↦ rw sooner ((sooner, All-imp (λ z low. trans x y z sooner low) ys h), (h, k))
    ]

    pub sort-IsSorted : (xs : List A) → IsSorted (sort xs)
    unfolding sort
    sort-IsSorted [] = tt
    sort-IsSorted (x ∷ xs) = insert-IsSorted x (sort xs) (sort-IsSorted xs)

-- Each element stands in the relation to all that follow it.
abbrev pub Ordered : {A : Type 0} → (A → A → Type 0) → List A → Type 0
Ordered R [] = Unit
Ordered R (x ∷ xs) = All (R x) xs × Ordered R xs

pub Ordered-of_IsSorted :
    {A : Type 0} (less : A → A → Bool) (R : A → A → Type 0)
    → ((a b : A) → less b a ≡ false → R a b)
    → (xs : List A) → IsSorted less xs
    → Ordered R xs
Ordered-of_IsSorted less R means [] h = tt
Ordered-of_IsSorted less R means (x ∷ xs) (h, k) =
    (All-imp (λ y low. means x y low) xs h, Ordered-of_IsSorted less R means xs k)
