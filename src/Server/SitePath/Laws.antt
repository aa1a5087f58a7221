-- ===== src/Server/SitePath/Laws.antt =====
-- cmd/server/handlers.go: what safeSitePath lets through.
use open_trove.Base.{String, false, List, All, ◌≡◌, ok, arith}
use open_trove.Base.Text.{is_empty, has_prefix, trim_prefix, join}
use open_trove.Base.Path.{clean}
use open_trove.Base.Path.Laws.{IsName, clean-IsName}
use open_trove.Server.SitePath.{escapes, safe_site_path}

-- A path of one or more names, one below the other.
abbrev pub IsInside : String → Type 0
IsInside path =
    (is_empty path ≡ false)
    × (segments : List String) × (path ≡ join "/" segments)
    × All IsName segments

-- A path that safeSitePath lets through is not empty, and is a sequence of names, none of them
-- empty, a dot or a double dot and none with a slash, so that it is relative and leads to nothing
-- outside the site.
pub safe_site_path-IsInside :
    (name strip path : String) → safe_site_path name strip ≡ ok path → IsInside path
unfolding safe_site_path
safe_site_path-IsInside name strip path h =
    let value = trim_prefix name strip in
    let relative : has_prefix value "/" ≡ false = ground (arith, h) in
    let within : escapes (clean value) ≡ false = ground (arith, h) in
    let same : clean value ≡ path = ground (arith, h) in
    let (segments, joined, names, some_path) = clean-IsName value relative within in
    rw⁻¹ same (some_path, segments, joined, names)
