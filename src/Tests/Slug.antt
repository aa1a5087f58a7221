-- ===== src/Tests/Slug.antt =====
-- Slugs, valid and generated.
use Prim.Native.String.{len}
use open_trove.Base.{ℕ, ◌<◌, ◌≤◌, true, false, ◌≡◌, refl, any, ◌==◌, Result, ok, arith}
use open_trove.Base.Text.{is_empty, contains_code}
use open_trove.Server.Slug.{
  max_slug_len, slug_length, reserved_slugs, validate_slug, matches_slug, matches_rest, is_end_char,
  is_slug_char, is_internal_slug, generate_slug, generate_from, charset_from,
}
use open_trove.Server.Slug.Laws.{chars, validate_slug_sound, generate_slug_sound}

refusal_test : matches_slug "a_b" ≡ false
unfolding matches_slug matches_rest is_end_char is_slug_char
refusal_test = refl

validate_slug_sound_example :
    (is_empty "my-doc" ≡ false)
    × (len "my-doc" ≤ max_slug_len)
    × (any (λ r. r == "my-doc") reserved_slugs ≡ false)
    × (is_internal_slug "my-doc" ≡ false)
    × (contains_code "my-doc" 47 ≡ false)
    × (contains_code "my-doc" 46 ≡ false)
unfolding validate_slug matches_slug matches_rest is_end_char is_slug_char
validate_slug_sound_example = validate_slug_sound "my-doc" refl

-- A random source that gives the same index each time.
abbrev steady : ℕ → Result ℕ
steady i = ok 3

steady_below : (k n : ℕ) → steady k ≡ ok n → n < 36
steady_below k n h = ground arith

generate_slug_sound_example :
    (chars "dddddddd" ≡ slug_length)
    × (matches_slug "dddddddd" ≡ true)
    × (is_internal_slug "dddddddd" ≡ false)
unfolding generate_slug generate_from charset_from
generate_slug_sound_example = generate_slug_sound steady "dddddddd" steady_below refl
