-- ===== src/Preview/Summary.antt =====
-- preview/preview.go: the kinds of artifacts, what a preview says of one, and the limits on it.
use Prim.Native.Char.{Char, code}
use Prim.Native.String.{[], ◌∷◌, len}
use open_trove.Base.{
  ℕ, ◌+◌, ◌-◌, ◌%◌, String, Bool, true, false, not, ◌&&◌, ◌||◌, ◌==◌, eqb, leb, Option, none, some,
  List, any, take, if◌then◌else◌,
}
use open_trove.Base.Text.{
  is_empty, is_space, append, split, trim_space, has_prefix, Unicode, to_lower,
}
use open_trove.Base.Text.Append.{chars}
use open_trove.Base.Path.{ext}
use open_trove.Intake.Cache.{decimal_onto}
use open_trove.Preview.{clip, squash, take_runes, trim_right_by}

abbrev pub max_title : ℕ
max_title = 150

abbrev pub max_description : ℕ
max_description = 300

abbrev pub max_sections : ℕ
max_sections = 6

abbrev pub max_stats : ℕ
max_stats = 6

abbrev pub max_stat_label : ℕ
max_stat_label = 40

abbrev pub max_stat_value : ℕ
max_stat_value = 60

pub data Kind : Type 0 where
  html markdown site csv json code_file text_file image video pdf document file : Kind

-- Kind.Label
unfoldable pub label : Kind → String
label html = "HTML page"
label markdown = "Markdown"
label site = "Website"
label csv = "CSV"
label json = "JSON"
label code_file = "Code"
label text_file = "Text"
label image = "Image"
label video = "Video"
label pdf = "PDF"
label document = "Word document"
label file = "File"

pub record Stat : Type 0 where
  pub label : String
  pub value : String

pub record Summary : Type 0 where
  pub kind : Kind
  pub title : String
  pub description : String
  pub sections : List String
  pub stats : List Stat
  pub facts : List String
  pub snippet : String

abbrev pub code_extensions : List String
code_extensions =
    split 32
      ".go .py .js .ts .tsx .jsx .rb .java .kt .swift .rs .c .h .cpp .cs .php .sh .bash .sql .yaml .yml .toml .tf .hcl .proto .graphql .css .scss .xml .ini .dockerfile .mermaid .mmd"

abbrev head_or_empty : List String → String
head_or_empty List.[] = ""
head_or_empty (List.◌∷◌ s rest) = s

-- The cases of kindOf, of a content type without its parameters and an extension.
unfoldable pub kind_by : String → String → Kind
unfolding split
kind_by ct extension =
    if ct == "text/html" || extension == ".html" || extension == ".htm"
    then html
    else if ct == "text/markdown" || extension == ".md" || extension == ".markdown"
    then markdown
    else if ct == "text/csv" || extension == ".csv"
    then csv
    else if ct == "application/json" || extension == ".json"
    then json
    else if has_prefix ct "image/"
    then image
    else if has_prefix ct "video/"
    then video
    else if ct == "application/pdf"
    then pdf
    else if ct == "application/vnd.openxmlformats-officedocument.wordprocessingml.document"
    then document
    else if any (λ e. e == extension) code_extensions
    then code_file
    else if has_prefix ct "text/"
    then text_file
    else file

unfoldable pub kind_of : Unicode → String → String → Kind
unfolding kind_by
kind_of u content_type filename =
    kind_by (to_lower u (trim_space (head_or_empty (split 59 content_type))))
      (to_lower u (ext filename))

-- The texts before and after the first colon, if there is one.
unfoldable pub cut_colon : String → Option (String × String)
cut_colon [] = none
cut_colon (c ∷ s) =
    let rest = cut_colon s in
    if eqb (code c) 58
    then some ("", s)
    else elim rest [ none ↦ none | some (before, after) ↦ some (c ∷ before, after) ]

module _ (is_punct : Char → Bool) where
  -- Summary.bounded
  unfoldable pub bounded : Summary → Summary
  bounded s = record s {
    title = clip is_punct s.title max_title;
    description = clip is_punct s.description max_description;
    sections = take max_sections s.sections;
    stats = take max_stats s.stats;
  }

  abbrev stat_of : String → String → Option Stat
  stat_of name value =
      if is_empty name || is_empty value
      then none
      else some (record {
        label = clip is_punct name max_stat_label;
        value = clip is_punct value max_stat_value;
      })

  unfoldable pub parse_stat : String → Option Stat
  unfolding cut_colon
  parse_stat raw = elim (cut_colon raw) [
    | none ↦ none
    | some (name, value) ↦ stat_of (squash name) (squash value)
  ]

-- strings.ReplaceAll of a tab by four spaces.
unfoldable pub expand_tabs : String → String
expand_tabs [] = ""
expand_tabs (c ∷ s) =
    let rest = expand_tabs s in if eqb (code c) 9 then append "    " rest else c ∷ rest

unfoldable pub clip_line : String → ℕ → String
unfolding expand_tabs
clip_line s n =
    let line = trim_right_by is_space (expand_tabs s) in
    if leb (chars line) n then line else append (take_runes (n - 1) line) "…"

-- strconv.Itoa of a count.
unfoldable pub itoa : ℕ → String
itoa n = decimal_onto (n + 1) n ""

-- The loop of formatInt over the digits that are left, a comma before each group of three but the
-- first.
unfoldable pub grouped : Bool → String → String
grouped first [] = ""
grouped first (c ∷ s) =
    let rest = c ∷ grouped false s in
    if not first && eqb (len (c ∷ s) % 3) 0 then append "," rest else rest

unfoldable pub format_int : ℕ → String
unfolding itoa grouped
format_int n = grouped true (itoa n)

unfoldable pub plural : ℕ → String → String → String
unfolding format_int
plural n one many = if eqb n 1 then append "1 " one else append (format_int n) (append " " many)
