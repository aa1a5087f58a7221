-- ===== src/Intake/Factory.antt =====
-- intake/factory.go, intake/defaults.go and intake/noop.go: which inspector is used, and where its
-- guidance comes from. The environment, files, the client of S3 and the clock are parameters.
pub mod Guidance
pub mod Laws
use open_trove.Base.{
  ℕ, String, Bool, true, false, not, ◌&&◌, ◌||◌, ◌==◌, Option, none, some, List, [], if◌then◌else◌,
  Error, Result, ok, err, plain, wrap,
}
use open_trove.Base.Int.{ℤ}
use open_trove.Base.Text.{is_empty}
use open_trove.Base.Exec.{Exec}
use open_trove.Intake.{Verdict, Input, Inspector, FailMode, fail_closed, fail_open}
use open_trove.Intake.Source.{CachedSource, fetch}
use open_trove.Intake.Anthropic.{Config, new_anthropic}

-- The section on the intake of a configuration, less the times.
pub record Settings : Type 0 where
  pub enabled : Bool
  pub model : String
  pub api_key : String
  pub prompt_inline : String
  pub prompt_path : String
  pub fail_mode : String
  pub max_bytes : ℤ
  pub endpoint : String
  pub prompt_source_bucket : String
  pub prompt_source_key : String

abbrev pub no_op : {S : Type 0} → Inspector S
no_op input s = (ok (record { allowed = true; reason = ""; categories = [] }), s)

module _ (text_of : List ℕ → String) where
  abbrev read_or_empty : Result (List ℕ) → String
  read_or_empty (ok bytes) = text_of bytes
  read_or_empty (err e) = ""

  -- Guidance, where the file is as it is read now.
  unfoldable pub guidance : String → String → (String → Result (List ℕ)) → String
  guidance inline path read_file =
      if not (is_empty inline)
      then inline
      else if not (is_empty path)
      then read_or_empty (read_file path)
      else ""

abbrev read_body : Result (Result (List ℕ)) → Result (List ℕ)
read_body (ok contents) = contents
read_body (err e) = err (wrap "intake: s3 get" e)

-- S3Source.Fetch, with a client. `get_object` gives the body, and with it what reading it gives.
abbrev pub s3_source :
    {S : Type 0} → (String → String → Exec S (Result (List ℕ))) → String → String → Exec S (List ℕ)
s3_source get_object bucket key s =
    (read_body (get_object bucket key s).0, (get_object bucket key s).1)

-- The cache before a source, on a state that holds it.
abbrev pub cached_source :
    {S : Type 0} → (S → ℕ) → ℕ → Exec S (List ℕ) → Exec (S × CachedSource) (List ℕ)
cached_source clock ttl inner (s, c) =
    let r = fetch inner ttl (clock s) (clock (inner s).1) c s in (r.0, (r.2, r.1))

-- The source of prompts, if there is one, and the guidance that does not change.
pub record Prompts (S : Type 0) : Type 0 where
  pub source : Option (Exec S (List ℕ))
  pub static_guidance : String

-- What BuildInspector gives: NoOp, or the configuration of an Anthropic inspector.
pub data Built (S : Type 0) : Type 0 where
  disabled : Built S
  remote : Config S → Built S

abbrev or_default : String → String → String
or_default default t = if is_empty t then default else t

abbrev pub anthropic_config : {T : Type 0} → String → Settings → Prompts T → Config T
anthropic_config env_key cfg p = record {
  api_key = or_default env_key cfg.api_key;
  model = or_default "claude-sonnet-4-6" cfg.model;
  guidance = p.static_guidance;
  prompt_source = p.source;
  max_bytes = cfg.max_bytes;
  endpoint = cfg.endpoint;
}

abbrev pub empty_cache : CachedSource
empty_cache = record { cached = []; expires = 0; has_cached = false }

module _ {S : Type 0} where
  abbrev pub prefetched :
      Exec (S × CachedSource) (List ℕ)
      → Result (List ℕ) × (S × CachedSource)
      → Result (Prompts (S × CachedSource)) × (S × CachedSource)
  prefetched source (ok bytes, t) = (ok (record { source = some source; static_guidance = "" }), t)
  prefetched source (err e, t) = (err (wrap "prompt source unreachable" e), t)

  abbrev pub static : String → Result (Prompts (S × CachedSource))
  static t =
      if is_empty t
      then err (plain "configured prompt guidance is empty or unreadable")
      else ok (record { source = none; static_guidance = t })

module _ {S : Type 0} (text_of : List ℕ → String) (read_file : String → Result (List ℕ))
    (new_client : Result (String → String → Exec S (Result (List ℕ)))) (clock : S → ℕ)
    (refresh : ℕ) where
  abbrev T : Type 0
  T = S × CachedSource

  abbrev pub connected :
      Settings → Result (String → String → Exec S (Result (List ℕ))) → Exec T (Prompts T)
  connected cfg (err e) t = (err (wrap "building S3 client for prompt source" e), t)
  connected cfg (ok get_object) (s, c) =
      let source =
        cached_source clock refresh
          (s3_source get_object cfg.prompt_source_bucket cfg.prompt_source_key) in
      prefetched source (source (s, empty_cache))

  unfoldable pub build_prompt_source : Settings → Exec T (Prompts T)
  unfolding guidance
  build_prompt_source cfg t =
      if not (is_empty cfg.prompt_inline) || not (is_empty cfg.prompt_path)
      then (static (guidance text_of cfg.prompt_inline cfg.prompt_path read_file), t)
      else if is_empty cfg.prompt_source_bucket || is_empty cfg.prompt_source_key
      then (err (plain "prompt_inline, prompt_path, or prompt_source_bucket/key is required"), t)
      else connected cfg new_client t

  abbrev built : String → Result (Config T) → Result (Built T × FailMode)
  built fail_mode (ok inspector) =
      ok (remote inspector, if fail_mode == "open" then fail_open else fail_closed)
  built fail_mode (err e) = err (wrap "intake: building inspector" e)

  abbrev with_prompts : String → Settings → Result (Prompts T) → T → Result (Built T × FailMode) × T
  with_prompts env_key cfg (err e) t = (err (wrap "intake: prompt source" e), t)
  with_prompts env_key cfg (ok p) t =
      (built cfg.fail_mode (new_anthropic (anthropic_config env_key cfg p)), t)

  -- `env_key` is the value of ANTHROPIC_API_KEY, empty where it is not set.
  unfoldable pub build_inspector : String → Settings → Exec T (Built T × FailMode)
  unfolding build_prompt_source
  build_inspector env_key cfg t =
      if not cfg.enabled
      then (ok (disabled, fail_closed), t)
      else let r = build_prompt_source cfg t in with_prompts env_key cfg r.0 r.1
