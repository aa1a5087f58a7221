-- ===== src/Base/Dict.antt =====
-- Go's map with string keys, as an association list. The program never depends on a map's order
-- except where it ranges over one; such a place takes the order as an argument.
use Prim.Native.String.{String}
use mathlib.Core.Path.{◌≡◌}
use mathlib.Core.Option.{Option, none, some}
use mathlib.Core.List.{List, [], ◌∷◌}
use native.Mathlib.Omega.{arith}
use text.Mathlib.Text.{◌==◌}
use text.Mathlib.TextEquality.{eq_iff}
use open_trove.Base.Tests.{if◌then◌else◌}

abbrev pub Dict {ℓ} : Type ℓ → Type ℓ
Dict V = List (String × V)

module _ {ℓ} {V : Type ℓ} where
  unfoldable pub get : String → Dict V → Option V
  get k [] = none
  get k ((j, v) ∷ d) = if j == k then some v else get k d

  unfoldable pub without : String → Dict V → Dict V
  without k [] = []
  without k ((j, v) ∷ d) = let rest = without k d in if j == k then rest else (j, v) ∷ rest

  unfoldable pub put : String → V → Dict V → Dict V
  unfolding without
  put k v d = (k, v) ∷ without k d

  pub get-without :
      (k j : String) (d : Dict V) → get j (without k d) ≡ (if k == j then none else get j d)
  unfolding get without
  get-without k j [] = ground arith
  get-without k j ((i, v) ∷ d) =
      ground (arith, get-without k j d, eq_iff i k, eq_iff i j, eq_iff k j)

  pub get-put :
      (k j : String) (v : V) (d : Dict V) → get j (put k v d) ≡ (if k == j then some v else get j d)
  unfolding get put
  get-put k j v d = ground (arith, get-without k j d, eq_iff k j)

pub ruleset dict_laws = (get-without, get-put)
