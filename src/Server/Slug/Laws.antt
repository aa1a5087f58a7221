-- ===== src/Server/Slug/Laws.antt =====
-- What a valid slug is good for, and that generated slugs are valid.
use Prim.Native.Char.{Char, code}
use Prim.Native.String.{[], ◌∷◌, len}
use open_trove.Base.{
  ℕ, zero, suc, ◌<◌, ◌≤◌, String, true, false, ◌==◌, ◌≡◌, refl, eqb, any, Result, ok, arith, inl,
  inr, Result-cases, ap,
}
use open_trove.Base.Text.{is_empty, has_prefix, contains_code}
use open_trove.Base.Base64.{every_place, at_place}
use open_trove.Server.Slug.{
  max_slug_len, reserved_slugs, is_end_char, is_slug_char, matches_rest, matches_slug,
  validate_slug, is_internal_slug, charset_from, generate_from, generate_slug, slug_charset,
  slug_length,
}

-- A character that is no slug character does not occur in a slug.
matches_rest-contains :
    (n : ℕ) (s : String)
    → matches_rest s ≡ true
    → ((c : Char) → is_slug_char c ≡ true → eqb (code c) n ≡ false)
    → contains_code s n ≡ false
unfolding matches_rest contains_code is_slug_char is_end_char
matches_rest-contains n [] h bad = refl
matches_rest-contains n (c ∷ []) h bad = ground (arith, bad c)
matches_rest-contains n (c ∷ d ∷ s) h bad = ground (arith, bad c, matches_rest-contains n (d ∷ s))

-- A valid slug is not empty, has at most 64 bytes, is no reserved word and no internal key, and
-- has no slash and no dot.
pub validate_slug_sound :
    (s : String)
    → validate_slug s ≡ ok tt
    → (is_empty s ≡ false)
      × (len s ≤ max_slug_len)
      × (any (λ r. r == s) reserved_slugs ≡ false)
      × (is_internal_slug s ≡ false)
      × (contains_code s 47 ≡ false)
      × (contains_code s 46 ≡ false)
unfolding validate_slug matches_slug is_internal_slug has_prefix contains_code is_slug_char
    is_end_char
validate_slug_sound [] h = ground arith
validate_slug_sound (c ∷ s) h =
    let slash = matches_rest-contains 47 s in
    let dot = matches_rest-contains 46 s in ground (arith, slash, dot, no_slash, no_dot)
  where
    no_slash : (c : Char) → is_slug_char c ≡ true → eqb (code c) 47 ≡ false
    no_slash c e = ground arith

    no_dot : (c : Char) → is_slug_char c ≡ true → eqb (code c) 46 ≡ false
    no_dot c e = ground arith

-- The number of characters.
abbrev pub chars : String → ℕ
chars [] = 0
chars (c ∷ s) = suc (chars s)

-- Every character is a letter or a digit.
abbrev AllEnd : String → Type 0
AllEnd [] = Unit
AllEnd (c ∷ s) = (is_end_char c ≡ true) × AllEnd s

charset_table : every_place (λ n. is_end_char (charset_from slug_charset n "a")) 36 ≡ true
unfolding every_place charset_from is_end_char
charset_table = refl

generate_from-AllEnd :
    (draw : ℕ → Result ℕ) (left i : ℕ) (s : String)
    → ((k n : ℕ) → draw k ≡ ok n → n < 36)
    → generate_from draw left i ≡ ok s
    → AllEnd s × (chars s ≡ left)
unfolding generate_from
generate_from-AllEnd draw zero i [] below h = (tt, refl)
generate_from-AllEnd draw zero i (c ∷ s) below h = absurd (cc h)
generate_from-AllEnd draw (suc left) i s below h = elim (Result-cases (draw i)) [
  | inr (e, failed) ↦ ground (arith, failed)
  | inl (n, drawn) ↦ elim (Result-cases (generate_from draw left (suc i))) [
    | inr (e, failed) ↦ ground (arith, drawn, failed)
    | inl (r, rest) ↦
        let (ends, size) = generate_from-AllEnd draw left (suc i) r below rest in
        let same : s ≡ charset_from slug_charset n "a" ∷ r = ground (arith, drawn, rest) in
        let end =
          at_place (λ m. is_end_char (charset_from slug_charset m "a")) 36 (below i n drawn)
            charset_table in
        rw same ((end, ends), ap suc size)
  ]
]

matches_rest_of_AllEnd : (s : String) → AllEnd s → matches_rest s ≡ true
unfolding matches_rest is_slug_char
matches_rest_of_AllEnd [] h = refl
matches_rest_of_AllEnd (c ∷ []) h = h.0
matches_rest_of_AllEnd (c ∷ d ∷ s) (e, h) = ground (arith, matches_rest_of_AllEnd (d ∷ s) h)

-- A generated slug has eight characters and the form that is asked of an uploaded one, and is no
-- internal key, where the random source gives indices below 36.
pub generate_slug_sound :
    (draw : ℕ → Result ℕ) (s : String)
    → ((k n : ℕ) → draw k ≡ ok n → n < 36)
    → generate_slug draw ≡ ok s
    → (chars s ≡ slug_length) × (matches_slug s ≡ true) × (is_internal_slug s ≡ false)
unfolding generate_slug matches_slug is_internal_slug has_prefix is_end_char
generate_slug_sound draw [] below h =
    let (ends, size) = generate_from-AllEnd draw 8 0 [] below h in absurd (omega arith)
generate_slug_sound draw (c ∷ s) below h =
    let ((first, ends), size) = generate_from-AllEnd draw 8 0 (c ∷ s) below h in
    (size, ground (arith, matches_rest_of_AllEnd s ends), ground arith)
