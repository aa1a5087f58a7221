-- ===== src/Preview/Laws.antt =====
-- preview/card.go: what NewCard accepts.
use Prim.Native.Char.{Char}
use Prim.Native.String.{[], ◌∷◌}
use open_trove.Base.{
  ℕ, zero, suc, ◌-◌, ◌≤◌, String, Bool, false, ◌&&◌, ◌||◌, List, length, Option, none, some, ltb,
  leb, ltb-false→le, leb→le, Bool-cases, ◌≡◌, arith, Result, ok, err, inl, inr,
}
use open_trove.Base.Text.{is_empty, is_space}
use open_trove.Base.Text.Append.{chars, chars-append}
use open_trove.Storage.{Card}
use open_trove.Preview.{
  max_card_bytes, max_card_dimension, min_card_dimension, max_card_alt, squash, take_runes,
  trim_right_by, clip, Images, new_card, outside, is_supported, encoded_card, card_of,
}

take_runes-chars : (n : ℕ) (s : String) → chars (take_runes n s) ≤ n
unfolding take_runes
take_runes-chars zero s = omega arith
take_runes-chars (suc n) [] = omega arith
take_runes-chars (suc n) (c ∷ s) = omega (arith, take_runes-chars n s)

trim_right_by-chars : (cut : Char → Bool) (s : String) → chars (trim_right_by cut s) ≤ chars s
unfolding trim_right_by
trim_right_by-chars cut [] = omega arith
trim_right_by-chars cut (c ∷ s) = elim (Bool-cases (is_empty (trim_right_by cut s) && cut c)) [
  | inl dropped ↦ rw (trim_right_by, dropped) (omega arith)
  | inr kept ↦ rw (trim_right_by, kept) (omega (arith, trim_right_by-chars cut s))
]

clip-chars : (is_punct : Char → Bool) (s : String) (n : ℕ) → 1 ≤ n → chars (clip is_punct s n) ≤ n
unfolding clip
clip-chars is_punct s n room =
    let cut = λ (c : Char). is_space c || is_punct c in
    elim (Bool-cases (leb (chars (squash s)) n)) [
      | inl fits ↦ rw (clip, fits) (leb→le (chars (squash s)) n fits)
      | inr long ↦
          rw (clip, long, chars-append (trim_right_by cut (take_runes (n - 1) (squash s))) "…")
            (omega (
              arith,
              room,
              trim_right_by-chars cut (take_runes (n - 1) (squash s)),
              take_runes-chars (n - 1) (squash s),
            ))
    ]

inside : (n : ℕ) → outside n ≡ false → (min_card_dimension ≤ n) × (n ≤ max_card_dimension)
inside n h = (
  ground (arith, h, ltb-false→le n min_card_dimension),
  ground (arith, h, ltb-false→le max_card_dimension n),
)

module _ (is_punct : Char → Bool) (images : Images) where
  -- A card within the bounds of the package, under the hash of its image.
  pub record IsBounded (card : Card) : Type 0 where
    pub width : (min_card_dimension ≤ card.width) × (card.width ≤ max_card_dimension)
    pub height : (min_card_dimension ≤ card.height) × (card.height ≤ max_card_dimension)
    pub alt : chars card.alt ≤ max_card_alt
    pub hash : card.sha256 ≡ images.sha256 card.image

  encoded_card-IsBounded :
      (alt : String) (width height : ℕ) (format : String) (made : Option (Result (List ℕ)))
      (card : Card)
      → outside width ≡ false
      → outside height ≡ false
      → encoded_card is_punct images alt width height format made ≡ ok card
      → IsBounded card
  encoded_card-IsBounded alt width height format none card w h e = cc
  encoded_card-IsBounded alt width height format (some (err f)) card w h e = cc
  encoded_card-IsBounded alt width height format (some (ok image)) card w h e =
      let wide : card.width ≡ width = ground (arith, e) in
      let high : card.height ≡ height = ground (arith, e) in
      let described : card.alt ≡ clip is_punct alt max_card_alt = ground (arith, e) in
      let hashed : card.sha256 ≡ images.sha256 card.image = ground (arith, e) in
      record {
        width = rw wide (inside width w);
        height = rw high (inside height h);
        alt = rw described (clip-chars is_punct alt max_card_alt (omega arith));
        hash = hashed;
      }

  card_of-IsBounded :
      (bytes : List ℕ) (alt : String) (config : Option (ℕ × ℕ × String)) (card : Card)
      → card_of is_punct images bytes alt config ≡ ok card
      → IsBounded card
  card_of-IsBounded bytes alt none card h = cc
  card_of-IsBounded bytes alt (some (width, height, format)) card h =
      elim (Bool-cases (is_supported format)) [
        | inr unknown ↦ absurd (cc (rw unknown at h))
        | inl known ↦ elim (Bool-cases (outside width || outside height)) [
          | inl out ↦ absurd (cc (rw (known, out) at h))
          | inr within ↦
              encoded_card-IsBounded alt width height format (images.encode format bytes) card
                (ground (arith, within)) (ground (arith, within)) (rw (known, within) at h)
        ]
      ]

  -- A card that NewCard makes is of an image of at most two megabytes, has a width and a height of
  -- 100 to 2000 pixels and an alternative text of at most 300 runes, and its hash is that of its
  -- image.
  pub new_card-IsBounded :
      (bytes : List ℕ) (alt : String) (card : Card)
      → new_card is_punct images bytes alt ≡ ok card
      → (length bytes ≤ max_card_bytes) × IsBounded card
  unfolding new_card
  new_card-IsBounded bytes alt card h = elim (Bool-cases (ltb max_card_bytes (length bytes))) [
    | inl large ↦ absurd (cc (rw (new_card, large) at h))
    | inr fits ↦ (
      ltb-false→le max_card_bytes (length bytes) fits,
      card_of-IsBounded bytes alt (images.decode_config bytes) card (rw (new_card, fits) at h),
    )
  ]
