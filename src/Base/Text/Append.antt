-- ===== src/Base/Text/Append.antt =====
-- Concatenated texts: what can be cancelled.
use Prim.Native.Nat.{ℕ, suc, ◌+◌}
use Prim.Native.Char.{Char}
use Prim.Native.String.{String, [], ◌∷◌}
use mathlib.Core.Path.{◌≡◌, refl, ap, sym}
use native.Mathlib.Omega.{arith}
use open_trove.Base.Text.{append}

-- The number of characters.
abbrev pub chars : String → ℕ
chars [] = 0
chars (c ∷ s) = suc (chars s)

pub chars-append : (s t : String) → chars (append s t) ≡ chars s + chars t
unfolding append
chars-append [] t = omega arith
chars-append (c ∷ s) t = omega (arith, chars-append s t)

tail_path : (c d : Char) (s t : String) → ◌≡◌ {A = String} (c ∷ s) (d ∷ t) → s ≡ t
tail_path c d s t h = cc

pub append_cancel_left : (p s t : String) → append p s ≡ append p t → s ≡ t
unfolding append
append_cancel_left [] s t h = h
append_cancel_left (c ∷ p) s t h =
    append_cancel_left p s t (tail_path c c (append p s) (append p t) h)

longer : (c : Char) (s t : String) → t ≡ c ∷ append s t → ⊥
longer c s t h = absurd (omega (arith, ap chars h, chars-append s t))

pub append_cancel_right : (r s t : String) → append s r ≡ append t r → s ≡ t
unfolding append
append_cancel_right r [] [] h = refl
append_cancel_right r [] (d ∷ t) h = absurd (longer d t r h)
append_cancel_right r (c ∷ s) [] h = absurd (longer c s r (sym h))
append_cancel_right r (c ∷ s) (d ∷ t) h =
    let rest = append_cancel_right r s t (tail_path c d (append s r) (append t r) h) in cc (rest, h)
