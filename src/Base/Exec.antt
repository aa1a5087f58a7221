-- ===== src/Base/Exec.antt =====
-- Methods that change a state and may return an error: what was changed before an error stays.
use Prim.Native.String.{String}
use mathlib.Core.Path.{◌≡◌, refl}
use mathlib.Core.Logic.{◌⊎◌, inl, inr}
use open_trove.Base.Errors.{Error, wrap, Result, ok, err}

abbrev pub Exec {ℓ} : Type ℓ → Type ℓ → Type ℓ
Exec S A = S → Result A × S

module _ {ℓ} {S A B : Type ℓ} where
  abbrev pub continue : Result A → (A → Exec S B) → Exec S B
  continue (err e) next state = (err e, state)
  continue (ok a) next state = next a state

  infixl 5 ◌>>=◌ ◌>>◌
  abbrev pub ◌>>=◌ : Exec S A → (A → Exec S B) → Exec S B
  ◌>>=◌ m f s = continue (m s).0 f (m s).1

  abbrev pub ◌>>◌ : Exec S A → Exec S B → Exec S B
  first >> second = first >>= λ ignored. second

module _ {ℓ} {A : Type ℓ} where
  abbrev pub map_result_err : (Error → Error) → Result A → Result A
  map_result_err f (ok a) = ok a
  map_result_err f (err e) = err (f e)

module _ {ℓ} {S A : Type ℓ} where
  abbrev pub pure : A → Exec S A
  pure a s = (ok a, s)

  abbrev pub raise : Error → Exec S A
  raise e s = (err e, s)

  abbrev pub lift : Result A → Exec S A
  lift r s = (r, s)

  -- What a caller makes of an error before it returns it.
  abbrev pub map_err : (Error → Error) → Exec S A → Exec S A
  map_err f m s = (map_result_err f (m s).0, (m s).1)

  -- if err != nil { return fmt.Errorf("text: %w", err) }
  abbrev pub wrapping : String → Exec S A → Exec S A
  wrapping t = map_err (wrap t)

-- The two ways in which a step can go, with the state that it leaves.
module _ {ℓ} {S A B : Type ℓ} (m : Exec S A) (f : A → Exec S B) (s : S) where
  pub >>=-cases :
      ((e : Error) × ((m s).0 ≡ err e) × ((m >>= f) s ≡ (err e, (m s).1)))
      ⊎ ((a : A) × ((m s).0 ≡ ok a) × ((m >>= f) s ≡ f a (m s).1))
  >>=-cases = go (m s).0 refl
    where
      go :
          (r : Result A)
          → (m s).0 ≡ r
          → ((e : Error) × ((m s).0 ≡ err e) × (continue r f (m s).1 ≡ (err e, (m s).1)))
            ⊎ ((a : A) × ((m s).0 ≡ ok a) × (continue r f (m s).1 ≡ f a (m s).1))
      go (ok a) e = inr (a, e, refl)
      go (err e') e = inl (e', e, refl)
