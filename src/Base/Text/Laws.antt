-- ===== src/Base/Text/Laws.antt =====
-- Trimming a text that is trimmed changes nothing.
use Prim.Native.String.{String, [], ◌∷◌}
use mathlib.Core.Path.{◌≡◌, refl}
use mathlib.Core.Bool.{true, false}
use native.Mathlib.Omega.{arith}
use open_trove.Base.Text.{
  is_empty, is_space, trim_left, trim_right, trim_space, has_prefix, drop_prefix, trim_prefix,
  append,
}

abbrev StartsPlain : String → Type 0
StartsPlain [] = Unit
StartsPlain (c ∷ s) = is_space c ≡ false

trim_left-StartsPlain : (s : String) → StartsPlain (trim_left s)
unfolding trim_left
trim_left-StartsPlain [] = tt
trim_left-StartsPlain (c ∷ s) = ground (arith, trim_left-StartsPlain s)

trim_left_of_StartsPlain : (s : String) → StartsPlain s → trim_left s ≡ s
unfolding trim_left
trim_left_of_StartsPlain [] h = refl
trim_left_of_StartsPlain (c ∷ s) h = rw h

trim_right-StartsPlain : (s : String) → StartsPlain s → StartsPlain (trim_right s)
unfolding trim_right
trim_right-StartsPlain [] h = tt
trim_right-StartsPlain (c ∷ s) h = ground arith

trim_right_idempotent : (s : String) → trim_right (trim_right s) ≡ trim_right s
unfolding trim_right
trim_right_idempotent [] = refl
trim_right_idempotent (c ∷ s) = ground (arith, trim_right_idempotent s)

pub trim_space_idempotent : (s : String) → trim_space (trim_space s) ≡ trim_space s
unfolding trim_space
trim_space_idempotent s =
    let plain = trim_right-StartsPlain (trim_left s) (trim_left-StartsPlain s) in
    rw (trim_left_of_StartsPlain (trim_right (trim_left s)) plain)
      (trim_right_idempotent (trim_left s))

pub is_empty_of_trim_space : (s : String) → is_empty (trim_space s) ≡ false → is_empty s ≡ false
unfolding trim_space trim_left trim_right
is_empty_of_trim_space [] h = h
is_empty_of_trim_space (c ∷ s) h = refl

pub has_prefix-append : (p s : String) → has_prefix (append p s) p ≡ true
unfolding has_prefix append
has_prefix-append [] s = refl
has_prefix-append (c ∷ p) s = ground (arith, has_prefix-append p s)

drop_prefix-append : (p s : String) → drop_prefix (append p s) p ≡ s
unfolding drop_prefix append
drop_prefix-append [] s = refl
drop_prefix-append (c ∷ p) s = drop_prefix-append p s

pub trim_prefix-append : (p s : String) → trim_prefix (append p s) p ≡ s
unfolding trim_prefix
trim_prefix-append p s = rw (has_prefix-append p s) (drop_prefix-append p s)
