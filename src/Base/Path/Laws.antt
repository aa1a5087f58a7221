-- ===== src/Base/Path/Laws.antt =====
-- Go's package path: what the segments of a cleaned path are.
use Prim.Native.Char.{Char, code}
use Prim.Native.String.{String, [], ◌∷◌}
use mathlib.Core.Path.{◌≡◌, refl}
use mathlib.Core.Logic.{◌⊎◌, inl, inr}
use mathlib.Core.Bool.{Bool, true, false, ◌||◌}
use mathlib.Core.List.{List}
use native.Mathlib.Omega.{arith}
use text.Mathlib.Text.{◌==◌}
use text.Mathlib.TextEquality.{eq_iff}
use open_trove.Base.Tests.{eqb, Bool-cases}
use open_trove.Base.Lists.{All}
use open_trove.Base.Text.{is_empty, append, split, join, onto_head, has_prefix, contains_code}
use open_trove.Base.Path.{slash, back, clean_onto, reverse_onto, clean_segments, clean}

-- A name that can stand in a path: not empty, no dot or double dot, and without a slash.
abbrev pub IsName : String → Type 0
IsName s =
    (is_empty s ≡ false)
    × ((s == ".") ≡ false)
    × ((s == "..") ≡ false)
    × (contains_code s slash ≡ false)

abbrev NoSlash : String → Type 0
NoSlash s = contains_code s slash ≡ false

abbrev IsUp : String → Type 0
IsUp s = (s == "..") ≡ true

onto_head-NoSlash :
    (c : Char)
    → eqb (code c) slash ≡ false
    → (ts : List String) → All NoSlash ts
    → All NoSlash (onto_head c ts)
unfolding contains_code
onto_head-NoSlash c other List.[] h = (rw other refl, tt)
onto_head-NoSlash c other (List.◌∷◌ t ts) (h, hs) = (rw other h, hs)

split-NoSlash : (s : String) → All NoSlash (split slash s)
unfolding split contains_code
split-NoSlash [] = (refl, tt)
split-NoSlash (c ∷ s) = elim (Bool-cases (eqb (code c) slash)) [
  | inl here ↦ rw here ((refl, split-NoSlash s))
  | inr other ↦ rw other (onto_head-NoSlash c other (split slash s) (split-NoSlash s))
]

-- The segments so far, the last one first: the names, and below them the steps upwards.
Stack : List String → Type 0
Stack List.[] = Unit
Stack (List.◌∷◌ s below) = (IsName s × Stack below) ⊎ (IsUp s × All IsUp below)

back-Stack : (rooted : Bool) (done : List String) → Stack done → Stack (back rooted done)
unfolding Stack
back-Stack true List.[] h = tt
back-Stack false List.[] h = inr (refl, tt)
back-Stack rooted (List.◌∷◌ top below) (inl (name, rest)) = rw (name.2) rest
back-Stack rooted (List.◌∷◌ top below) (inr (up, rest)) = rw up (inr (refl, (up, rest)))

clean_onto-Stack :
    (rooted : Bool) (done segments : List String)
    → Stack done
    → All NoSlash segments
    → Stack (clean_onto rooted done segments)
unfolding clean_onto Stack
clean_onto-Stack rooted done List.[] h tt = h
clean_onto-Stack rooted done (List.◌∷◌ s rest) h (plain, plains) =
    elim (Bool-cases (is_empty s || s == ".")) [
      | inl skip ↦ rw skip (clean_onto-Stack rooted done rest h plains)
      | inr kept ↦ elim (Bool-cases (s == "..")) [
        | inl up ↦
            rw (kept, up)
              (clean_onto-Stack rooted (back rooted done) rest (back-Stack rooted done h) plains)
        | inr down ↦
            rw (kept, down)
              (clean_onto-Stack rooted (List.◌∷◌ s done) rest
                (inl ((ground (arith, kept), ground (arith, kept), down, plain), h)) plains)
      ]
    ]

reverse_onto-All :
    (P : String → Type 0) (xs acc : List String)
    → All P xs
    → All P acc
    → All P (reverse_onto xs acc)
unfolding reverse_onto
reverse_onto-All P List.[] acc h k = k
reverse_onto-All P (List.◌∷◌ x xs) acc (h, hs) k = reverse_onto-All P xs (List.◌∷◌ x acc) hs (h, k)

abbrev Climbs : List String → Type 0
Climbs xs = (x : String) × (ys : List String) × (xs ≡ List.◌∷◌ x ys) × IsUp x

reverse_onto-Climbs :
    (x : String) (xs acc : List String)
    → IsUp x
    → All IsUp xs
    → Climbs (reverse_onto xs (List.◌∷◌ x acc))
unfolding reverse_onto
reverse_onto-Climbs x List.[] acc up tt = (x, acc, refl, up)
reverse_onto-Climbs x (List.◌∷◌ y ys) acc up (h, hs) =
    reverse_onto-Climbs y ys (List.◌∷◌ x acc) h hs

-- Names only, or a path that begins with a step upwards.
Stack-cases :
    (xs : List String)
    → Stack xs
    → All IsName xs ⊎ ((acc : List String) → Climbs (reverse_onto xs acc))
unfolding Stack reverse_onto
Stack-cases List.[] h = inl tt
Stack-cases (List.◌∷◌ x xs) (inr (up, ups)) = inr λ acc. reverse_onto-Climbs x xs acc up ups
Stack-cases (List.◌∷◌ x xs) (inl (name, h)) = elim (Stack-cases xs h) [
  | inl names ↦ inl (name, names)
  | inr climbs ↦ inr λ acc. climbs (List.◌∷◌ x acc)
]

-- The segments of a cleaned path are names, or its first one is a step upwards.
clean_segments-cases :
    (rooted : Bool) (s : String)
    → All IsName (clean_segments rooted s) ⊎ Climbs (clean_segments rooted s)
unfolding clean_segments Stack
clean_segments-cases rooted s =
    let done = clean_onto rooted List.[] (split slash s) in
    elim (Stack-cases done (clean_onto-Stack rooted List.[] (split slash s) tt (split-NoSlash s))) [
      | inl names ↦ inl (reverse_onto-All IsName done List.[] names tt)
      | inr climbs ↦ inr (climbs List.[])
    ]

Climbs-escapes :
    (x : String) (ys : List String)
    → IsUp x
    → (join "/" (List.◌∷◌ x ys) == ".." || has_prefix (join "/" (List.◌∷◌ x ys)) "../") ≡ true
unfolding join append has_prefix
Climbs-escapes x List.[] up = rw up refl
Climbs-escapes x (List.◌∷◌ y ys) up =
    let same : x ≡ ".." = (eq_iff x "..").0 up in rw same (ground arith)

-- What `clean` gives for segments that do not lead upwards.
path-IsName :
    (s : String) (segments : List String)
    → All IsName segments ⊎ Climbs segments
    → (join "/" segments == "."
        || join "/" segments == ".."
        || has_prefix (join "/" segments) "../")
      ≡ false
    → All IsName segments
path-IsName s segments (inl names) h = names
path-IsName s segments (inr (x, ys, same, up)) h =
    absurd (ground (arith, Climbs-escapes x ys up, rw same at h))

-- A path that is not rooted, and whose cleaned form does not lead upwards and is not the directory
-- itself, is a sequence of names when cleaned.
pub clean-IsName :
    (s : String)
    → has_prefix s "/" ≡ false
    → (clean s == "." || clean s == ".." || has_prefix (clean s) "../") ≡ false
    → (segments : List String) × (clean s ≡ join "/" segments)
      × All IsName segments
      × (is_empty (clean s) ≡ false)
unfolding clean
clean-IsName s relative h = elim (Bool-cases (is_empty (join "/" (clean_segments false s)))) [
  | inl nothing ↦ absurd (cc (rw (relative, nothing) at h))
  | inr some_path ↦
      rw (relative, some_path)
        (
          clean_segments false s,
          refl,
          path-IsName s (clean_segments false s) (clean_segments-cases false s)
              (rw (relative, some_path) at h),
          some_path,
        )
]
