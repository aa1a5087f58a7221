-- ===== src/Server/Zip/Bounds.antt =====
-- cmd/server/handlers.go: the bounds on what handleSiteUploadFromZip reads from an archive.
use open_trove.Base.{
  String, ℕ, suc, ◌+◌, ◌≤◌, ◌<◌, List, [], ◌∷◌, length, take, All, false, leb, ltb-false→le, ◌≡◌,
  ◌⊎◌, refl, arith, Bool-cases, Result, ok, err, Result-cases, inl, inr,
}
use open_trove.Base.Text.{Unicode}
use open_trove.Server.SitePath.{safe_site_path}
use open_trove.Server.SitePath.Laws.{IsInside, safe_site_path-IsInside}
use open_trove.Server.Upload.{Limits, ContentTypes}
use open_trove.Server.Zip.{
  Entry, PendingFile, Gathered, gathered, rejected, skipped, Taken, taken, refused, read_entry,
  take_entry, gather,
}

abbrev pub IsWithin : Limits → PendingFile → Type 0
IsWithin limits file = (length file.bytes ≤ limits.max_site_file_bytes) × IsInside file.path

-- The bytes of all files.
pub total : List PendingFile → ℕ
total [] = 0
total (file ∷ files) = length file.bytes + total files

not_leb : (a b : ℕ) → leb a b ≡ false → b < a
not_leb a b h = grind arith

Taken-cases : (t : Taken) → ((file : PendingFile) × (t ≡ taken file)) ⊎ ((n : ℕ) × (t ≡ refused n))
Taken-cases (taken file) = inl (file, refl)
Taken-cases (refused n) = inr (n, refl)

pub Gathered-cases :
    (g : Gathered)
    → ((files : List PendingFile) × (g ≡ gathered files)) ⊎ ((n : ℕ) × (g ≡ rejected n))
Gathered-cases (gathered files) = inl (files, refl)
Gathered-cases (rejected n) = inr (n, refl)

module _ (u : Unicode) (types : ContentTypes) (limits : Limits) (strip : String) where
  read_entry-IsWithin :
      (path : String) (expanded : ℕ) (f : Entry) (content : Result (List ℕ)) (file : PendingFile)
      → read_entry u types limits strip path expanded f content ≡ taken file
      → (length file.bytes ≤ limits.max_site_file_bytes)
        × (expanded + length file.bytes ≤ limits.max_site_bytes)
        × (file.path ≡ path)
  read_entry-IsWithin path expanded f (err e) file h = cc
  read_entry-IsWithin path expanded f (ok content) file h =
      let bytes = take (limits.max_site_file_bytes + 1) content in
      ground (
        arith,
        h,
        ltb-false→le limits.max_site_file_bytes (length bytes),
        ltb-false→le limits.max_site_bytes (expanded + length bytes),
      )

  take_entry-IsWithin :
      (count expanded : ℕ) (f : Entry) (file : PendingFile)
      → take_entry u types limits strip count expanded f ≡ taken file
      → (count < limits.max_site_files)
        × (expanded + length file.bytes ≤ limits.max_site_bytes)
        × IsWithin limits file
  unfolding take_entry
  take_entry-IsWithin count expanded f file h = elim (Result-cases (safe_site_path f.name strip)) [
    | inr (e, bad) ↦ absurd (ground (arith, bad, h))
    | inl (path, good) ↦
        let (small, within, same) =
          read_entry-IsWithin path expanded f f.content file (ground (arith, good, h)) in
        (
          ground (arith, h, not_leb limits.max_site_files count),
          within,
          (small, rw same (safe_site_path-IsInside f.name strip path good)),
        )
  ]

  -- What is read from an archive, begun with a number of files and of bytes within the limits,
  -- keeps within the limits on the number of files, on their total size and on the size of each,
  -- whatever sizes the archive declares, and each file has a path inside the site.
  pub gather-IsWithin :
      (count expanded : ℕ) (entries : List Entry) (files : List PendingFile)
      → count ≤ limits.max_site_files
      → expanded ≤ limits.max_site_bytes
      → gather u types limits strip count expanded entries ≡ gathered files
      → (count + length files ≤ limits.max_site_files)
        × (expanded + total files ≤ limits.max_site_bytes)
        × All (IsWithin limits) files
  unfolding gather total
  gather-IsWithin count expanded [] [] c e h = (omega (arith, c), omega (arith, e), tt)
  gather-IsWithin count expanded [] (file ∷ files) c e h = cc
  gather-IsWithin count expanded (f ∷ fs) files c e h = elim (Bool-cases (skipped f)) [
    | inl skip ↦ gather-IsWithin count expanded fs files c e (rw skip at h)
    | inr kept ↦ elim (Taken-cases (take_entry u types limits strip count expanded f)) [
      | inr (status, refusal) ↦ absurd (ground (arith, kept, refusal, h))
      | inl (file, took) ↦
          elim (Gathered-cases
            (gather u types limits strip (suc count) (expanded + length file.bytes) fs)) [
              | inr (status, refusal) ↦ absurd (ground (arith, kept, took, refusal, h))
              | inl (later, more) ↦
                  let (room, within, good) = take_entry-IsWithin count expanded f file took in
                  let (counted, summed, all_good) =
                    gather-IsWithin (suc count) (expanded + length file.bytes) fs later room within
                      more in
                  let same : file ∷ later ≡ files = ground (arith, kept, took, more, h) in
                  rw⁻¹ same (omega (arith, counted), omega (arith, summed), (good, all_good))
            ]
    ]
  ]
