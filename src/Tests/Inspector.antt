-- ===== src/Tests/Inspector.antt =====
-- A page that the model blocks, and a film, which it does not see.
use open_trove.Base.{
  suc, ℕ, String, true, false, Option, none, List, [], ◌∷◌, ◌≡◌, refl, Result, ok, err,
  if◌then◌else◌, ◌==◌, plain,
}
use open_trove.Base.Int.{pos}
use open_trove.Base.Exec.{Exec}
use open_trove.Intake.{Verdict, Input}
use open_trove.Intake.Anthropic.{
  Config, Request, Response, new_anthropic, inspect, build_content, current_guidance,
}
use open_trove.Base.Text.{has_prefix, to_lower}
use open_trove.Base.Path.{ext}
use open_trove.Intake.Anthropic.Laws.{Ends, inspect-Ends}
use open_trove.Intake.Source.{fetch, refreshed}
use open_trove.Intake.Factory.{Settings, empty_cache, build_inspector}
use open_trove.Intake.Factory.Laws.{Builds, build_inspector-Builds}
use open_trove.Tests.Data.{caseless}

-- The state is the number of requests so far.
abbrev config : Config ℕ
config = record {
  api_key = "key";
  model = "model";
  guidance = "no secrets";
  prompt_source = none;
  max_bytes = pos 100;
  endpoint = "";
}

abbrev as_text : List ℕ → String
as_text bytes = "text"

abbrev unconverted : List ℕ → Option (List ℕ)
unconverted bytes = none

abbrev blocked : Verdict
blocked = record { allowed = false; reason = "secret"; categories = [] }

abbrev read : String → Result Verdict
read t = if t == "blocked" then ok blocked else err (plain "not a verdict")

abbrev exchange : Request → Exec ℕ Response
exchange request n = (
  ok (record {
    status = 200;
    content = ok (
        record { type = "text"; name = ""; input = "" }
        ∷ record { type = "tool_use"; name = "record_verdict"; input = "blocked" }
        ∷ []);
  }),
  suc n,
)

abbrev page : Input
page = record { filename = "a.html"; content_type = "text/html"; body = 1 ∷ [] }

abbrev film : Input
film = record { filename = "a.mp4"; content_type = "video/mp4"; body = 1 ∷ [] }

page_test : inspect as_text caseless unconverted read exchange config page 0 ≡ (ok blocked, 1)
unfolding inspect build_content current_guidance has_prefix to_lower ext
page_test = refl

film_test :
    inspect as_text caseless unconverted read exchange config film 0
    ≡ (ok (record { allowed = true; reason = ""; categories = [] }), 0)
unfolding inspect build_content has_prefix to_lower
film_test = refl

new_anthropic_test :
    new_anthropic (record config { guidance = "" })
    ≡ err (plain "intake: guidance or prompt source required")
unfolding new_anthropic
new_anthropic_test = refl

inspect-Ends_example :
    Ends as_text caseless unconverted read exchange config page 0
      (inspect as_text caseless unconverted read exchange config page 0)
inspect-Ends_example = inspect-Ends as_text caseless unconverted read exchange config page 0

abbrev settings : Settings
settings = record {
  enabled = true;
  model = "";
  api_key = "";
  prompt_inline = "";
  prompt_path = "";
  fail_mode = "open";
  max_bytes = pos 0;
  endpoint = "";
  prompt_source_bucket = "bucket";
  prompt_source_key = "guidance";
}

abbrev no_file : String → Result (List ℕ)
no_file path = err (plain "no such file")

-- Every read of an object counts, and the time is the number of reads.
abbrev object : String → String → Exec ℕ (Result (List ℕ))
object bucket key n = (ok (ok (7 ∷ [])), suc n)

abbrev time : ℕ → ℕ
time n = n

build_inspector-Builds_example :
    Builds as_text no_file
      (ok object)
      time
      600
      "key"
      settings
      0
      (build_inspector as_text no_file (ok object) time 600 "key" settings (0, empty_cache))
build_inspector-Builds_example =
    build_inspector-Builds as_text no_file (ok object) time 600 "key" settings (0, empty_cache)

prefetch_test :
    (build_inspector as_text no_file (ok object) time 600 "key" settings (0, empty_cache)).1
    ≡ (1, record { cached = 7 ∷ []; expires = 601; has_cached = true })
unfolding build_inspector fetch refreshed
prefetch_test = refl
