-- ===== src/Slack/Text.antt =====
-- slackapp: texts escaped for Slack's mrkdwn.
use Prim.Native.Char.{code}
use Prim.Native.String.{[], ◌∷◌, len}
use open_trove.Base.{ℕ, zero, suc, ◌-◌, String, eqb, leb, if◌then◌else◌}
use open_trove.Base.Text.{is_empty, append, has_prefix, trim_space, join}
use open_trove.Base.Text.Append.{chars}
use open_trove.Preview.{fields, take_runes}

unfoldable pub escape : String → String
escape [] = ""
escape (c ∷ s) =
    let rest = escape s in
    if eqb (code c) 38
    then append "&amp;" rest
    else if eqb (code c) 60
    then append "&lt;" rest
    else if eqb (code c) 62
    then append "&gt;" rest
    else c ∷ rest

-- strings.ReplaceAll of a text that is not empty; `skip` characters of one that was found are left.
unfoldable pub replace_from : String → String → ℕ → String → String
replace_from old new skip [] = ""
replace_from old new (suc skip) (c ∷ s) = replace_from old new skip s
replace_from old new zero (c ∷ s) =
    let found = append new (replace_from old new (len old - 1) s) in
    let kept = c ∷ replace_from old new zero s in if has_prefix (c ∷ s) old then found else kept

abbrev pub replace_all : String → String → String → String
replace_all s old new = replace_from old new 0 s

-- The bars of a text in a link, which would end its label.
abbrev pub without_bars : String → String
without_bars s = replace_all s "|" "¦"

unfoldable pub link_text : String → String
unfolding escape replace_from
link_text s = without_bars (escape (if is_empty s then "an artifact" else s))

-- excerpt of slackapp/unfurl.go
unfoldable pub excerpt : String → ℕ → String
excerpt text n =
    let line = join " " (fields text) in
    if leb (chars line) n then line else append (trim_space (take_runes (n - 1) line)) "…"
