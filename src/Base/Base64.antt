-- ===== src/Base/Base64.antt =====
-- Go's base64.RawURLEncoding: EncodeToString and DecodeString. The decoder passes over line
-- breaks, and drops the bits that a last partial group has to spare, as Go's does.
use Prim.Native.Nat.{ℕ, zero, suc, ◌+◌, ◌-◌, ◌*◌, ◌/◌, ◌%◌, ◌<◌}
use Prim.Native.Char.{Char, code}
use Prim.Native.String.{String}
use mathlib.Core.Path.{◌≡◌, refl, ap, ◌∙◌}
use mathlib.Core.Bool.{Bool, true, false, not, ◌&&◌, ◌||◌}
use mathlib.Core.Option.{Option, none, some}
use mathlib.Core.List.{List, [], ◌∷◌}
use native.Mathlib.Omega.{arith}
use open_trove.Base.Tests.{leb, eqb, if◌then◌else◌}
use open_trove.Base.Lists.{All}

abbrev alphabet : String
alphabet = "ABCDEFGHIJKLMNOPQRSTUVWXYZabcdefghijklmnopqrstuvwxyz0123456789-_"

char_at : String → ℕ → String → String
char_at String.[] n rest = rest
char_at (String.◌∷◌ c s) zero rest = String.◌∷◌ c rest
char_at (String.◌∷◌ c s) (suc n) rest = char_at s n rest

-- Bytes to groups of six bits.
sextets : List ℕ → List ℕ
sextets [] = []
sextets (a ∷ []) = (a / 4) ∷ (a % 4 * 16) ∷ []
sextets (a ∷ b ∷ []) = (a / 4) ∷ (a % 4 * 16 + b / 16) ∷ (b % 16 * 4) ∷ []
sextets (a ∷ b ∷ c ∷ r) =
    (a / 4) ∷ (a % 4 * 16 + b / 16) ∷ (b % 16 * 4 + c / 64) ∷ (c % 64) ∷ sextets r

to_text : List ℕ → String
to_text [] = ""
to_text (n ∷ ns) = char_at alphabet n (to_text ns)

unfoldable pub encode : List ℕ → String
unfolding sextets to_text char_at
encode bytes = to_text (sextets bytes)

value_of : Char → Option ℕ
value_of c =
    let n = code c in
    if leb 65 n && leb n 90
    then some (n - 65)
    else if leb 97 n && leb n 122
    then some (n - 71)
    else if leb 48 n && leb n 57
    then some (n + 4)
    else if eqb n 45
    then some 62
    else if eqb n 95
    then some 63
    else none

abbrev cons_value : Option ℕ → Option (List ℕ) → Option (List ℕ)
cons_value (some n) (some ns) = some (n ∷ ns)
cons_value _ _ = none

from_text : String → Option (List ℕ)
from_text String.[] = some []
from_text (String.◌∷◌ c s) =
    let rest = from_text s in
    if eqb (code c) 10 || eqb (code c) 13 then rest else cons_value (value_of c) rest

abbrev cons_bytes : ℕ → ℕ → ℕ → Option (List ℕ) → Option (List ℕ)
cons_bytes a b c (some r) = some (a ∷ b ∷ c ∷ r)
cons_bytes a b c none = none

bytes_of : List ℕ → Option (List ℕ)
bytes_of [] = some []
bytes_of (w ∷ []) = none
bytes_of (w ∷ x ∷ []) = some ((w * 4 + x / 16) ∷ [])
bytes_of (w ∷ x ∷ y ∷ []) = some ((w * 4 + x / 16) ∷ (x % 16 * 16 + y / 4) ∷ [])
bytes_of (w ∷ x ∷ y ∷ z ∷ r) =
    cons_bytes (w * 4 + x / 16) (x % 16 * 16 + y / 4) (y % 4 * 64 + z) (bytes_of r)

abbrev decoded : Option (List ℕ) → Option (List ℕ)
decoded none = none
decoded (some ns) = bytes_of ns

unfoldable pub decode : String → Option (List ℕ)
unfolding from_text value_of bytes_of
decode s = decoded (from_text s)

abbrev pub AreBytes : List ℕ → Type 0
AreBytes = All (λ n. n < 256)

sextets_below : (bs : List ℕ) → AreBytes bs → All (λ n. n < 64) (sextets bs)
unfolding sextets
sextets_below [] h = tt
sextets_below (a ∷ []) h = omega arith
sextets_below (a ∷ b ∷ []) h = omega arith
sextets_below (a ∷ b ∷ c ∷ r) (p, (q, (o, h))) =
    (omega arith, (omega arith, (omega arith, (omega arith, sextets_below r h))))

cons_path : {a b : ℕ} {cs bs : List ℕ} → a ≡ b → cs ≡ bs → ◌≡◌ {A = List ℕ} (a ∷ cs) (b ∷ bs)
cons_path p q = cc

bytes_of-sextets : (bs : List ℕ) → AreBytes bs → bytes_of (sextets bs) ≡ some bs
unfolding sextets bytes_of
bytes_of-sextets [] h = refl
bytes_of-sextets (a ∷ []) h = ap some (cons_path (omega arith) refl)
bytes_of-sextets (a ∷ b ∷ []) h = ap some (cons_path (omega arith) (cons_path (omega arith) refl))
bytes_of-sextets (a ∷ b ∷ c ∷ r) (p, (q, (o, h))) =
    rw (bytes_of-sextets r h)
      (ap some (cons_path (omega arith) (cons_path (omega arith) (cons_path (omega arith) refl))))

nth : String → ℕ → Option Char
nth String.[] n = none
nth (String.◌∷◌ c s) zero = some c
nth (String.◌∷◌ c s) (suc n) = nth s n

char_at-nth :
    (s : String) (n : ℕ) (rest : String) (c : Char)
    → nth s n ≡ some c
    → char_at s n rest ≡ String.◌∷◌ c rest
unfolding char_at nth
char_at-nth String.[] n rest c h = cc
char_at-nth (String.◌∷◌ d s) zero rest c h = cc
char_at-nth (String.◌∷◌ d s) (suc n) rest c h = char_at-nth s n rest c h

-- The decoder reads the character of the alphabet at place `n` as `n`.
abbrev reads_as : ℕ → Option Char → Bool
reads_as n none = false
reads_as n (some c) =
    elim (value_of c) [ none ↦ false | some m ↦ eqb m n ]
    && not (eqb (code c) 10 || eqb (code c) 13)

-- A test that holds at each place before `size`.
unfoldable pub every_place : (ℕ → Bool) → ℕ → Bool
every_place test zero = true
every_place test (suc size) = every_place test size && test size

pub at_place :
    (test : ℕ → Bool) {place : ℕ} (size : ℕ)
    → place < size
    → every_place test size ≡ true
    → test place ≡ true
unfolding every_place
at_place test {place} zero below every = absurd (omega arith)
at_place test {place} (suc size) below every = ground (arith, at_place test {place = place} size)

alphabet_table : every_place (λ n. reads_as n (nth alphabet n)) 64 ≡ true
unfolding every_place nth value_of
alphabet_table = refl

from_text-char_at :
    (n : ℕ) (rest : String)
    → n < 64
    → from_text (char_at alphabet n rest) ≡ cons_value (some n) (from_text rest)
unfolding from_text
from_text-char_at n rest h =
    read (nth alphabet n) refl (at_place (λ m. reads_as m (nth alphabet m)) 64 h alphabet_table)
  where
    read :
        (o : Option Char)
        → nth alphabet n ≡ o
        → reads_as n o ≡ true
        → from_text (char_at alphabet n rest) ≡ cons_value (some n) (from_text rest)
    read none e r = cc
    read (some c) e r = rw (char_at-nth alphabet n rest c e) (ground arith)

from_text-to_text : (ns : List ℕ) → All (λ n. n < 64) ns → from_text (to_text ns) ≡ some ns
unfolding from_text to_text
from_text-to_text [] h = refl
from_text-to_text (n ∷ ns) (p, h) =
    from_text-char_at n (to_text ns) p ∙ ap (cons_value (some n)) (from_text-to_text ns h)

-- Decoding undoes encoding.
pub decode-encode : (bs : List ℕ) → AreBytes bs → decode (encode bs) ≡ some bs
unfolding encode decode
decode-encode bs h =
    rw (from_text-to_text (sextets bs) (sextets_below bs h)) (bytes_of-sextets bs h)
