-- ===== src/Auth/Email.antt =====
-- auth/auth.go: NormalizeEmail. `parse` is mail.ParseAddress, the address that a text names.
use Prim.Native.Char.{code}
use Prim.Native.String.{[], ◌∷◌, len}
use open_trove.Base.{
  String, Bool, true, false, not, ◌&&◌, ◌||◌, ◌==◌, ltb, eqb, Option, none, some, if◌then◌else◌,
}
use open_trove.Base.Text.{is_empty, trim_space, contains_code, Unicode, to_lower}

-- The text after the last at sign, and whether it is not empty before it.
unfoldable pub domain_of : String → Option (Bool × String)
domain_of [] = none
domain_of (c ∷ s) =
    let rest = domain_of s in
    elim rest [
      | some (_, domain) ↦ some (true, domain)
      | none ↦ if eqb (code c) 64 then some (false, s) else none
    ]

-- at > 0, at < len - 1, and a dot after it
abbrev plausible : Option (Bool × String) → Bool
plausible none = false
plausible (some (preceded, domain)) = preceded && not (is_empty domain) && contains_code domain 46

abbrev names : Option String → String → Bool
names none value = false
names (some address) value = address == value

module _ (u : Unicode) (parse : String → Option String) where
  unfoldable pub normalize_email : String → String
  unfolding domain_of
  normalize_email raw =
      let value = trim_space raw in
      if is_empty value || ltb 254 (len value)
      then ""
      else if not (names (parse value) value)
      then ""
      else if not (plausible (domain_of value))
      then ""
      else to_lower u value
