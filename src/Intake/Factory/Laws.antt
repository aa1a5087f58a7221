-- ===== src/Intake/Factory/Laws.antt =====
-- intake/factory.go: what BuildInspector builds, and when it fails.
use open_trove.Base.{
  eq_iff, ◌↔◌, ℕ, String, true, false, not, ◌&&◌, Option, List, ◌≡◌, refl, sym, subst, ◌⊎◌, inl,
  inr, Bool-cases, Result-cases, Result, ok, err, Error, arith, wrap, if◌then◌else◌, ◌==◌,
}
use open_trove.Base.Text.{is_empty}
use open_trove.Base.Exec.{Exec}
use open_trove.Intake.{FailMode, fail_closed, fail_open}
use open_trove.Intake.Source.{CachedSource}
use open_trove.Intake.Anthropic.{Config, new_anthropic, is_set}
use open_trove.Intake.Factory.Guidance.{
  HasGuidance, inline, of_file, of_object, LacksGuidance, build_prompt_source-HasGuidance,
  build_prompt_source-LacksGuidance,
}
use open_trove.Intake.Factory.{
  Settings, Prompts, Built, disabled, remote, anthropic_config, build_prompt_source,
  build_inspector,
}

new_anthropic-kept :
    {T : Type 0} (c d : Config T)
    → new_anthropic c ≡ ok d
    → (d.guidance ≡ c.guidance) × (d.prompt_source ≡ c.prompt_source) × (is_empty d.api_key ≡ false)
unfolding new_anthropic
new_anthropic-kept c d h = elim (Bool-cases (is_empty c.api_key)) [
  | inl missing ↦ absurd (ground (arith, missing, h))
  | inr key ↦ elim (Bool-cases (is_empty c.guidance && not (is_set c.prompt_source))) [
    | inl nothing ↦ absurd (ground (arith, key, nothing, h))
    | inr some_guidance ↦ (
      ground (arith, key, some_guidance, h),
      ground (arith, key, some_guidance, h),
      ground (arith, key, some_guidance, h),
    )
  ]
]

module _ {S : Type 0} (text_of : List ℕ → String) (read_file : String → Result (List ℕ))
    (new_client : Result (String → String → Exec S (Result (List ℕ)))) (clock : S → ℕ)
    (refresh : ℕ) where
  abbrev pub Has :
      Settings → S → Option (Exec (S × CachedSource) (List ℕ)) → String → S × CachedSource → Type 0
  Has = HasGuidance text_of read_file new_client clock refresh

  abbrev pub Lacks : Settings → S → Type 0
  Lacks = LacksGuidance text_of read_file new_client clock refresh

  abbrev source_of :
      Settings → S × CachedSource → Result (Prompts (S × CachedSource)) × (S × CachedSource)
  source_of = build_prompt_source text_of read_file new_client clock refresh

  -- With guidance, only the key can be missing.
  guided :
      (cfg : Settings) (start : S) (source : Option (Exec (S × CachedSource) (List ℕ)))
      (text : String) (t : S × CachedSource)
      → Has cfg start source text t
      → (is_empty text && not (is_set source)) ≡ false
  guided cfg start source text t (inline given) = ground (arith, given)
  guided cfg start source text t (of_file bytes missing got full) = ground (arith, full)
  guided cfg start source text t (of_object get_object reader made reads first has) = refl

  new_anthropic-refused :
      (env_key : String) (cfg : Settings) (p : Prompts (S × CachedSource)) (start : S)
      (t : S × CachedSource)
      → Has cfg start p.source p.static_guidance t
      → (e : Error) → new_anthropic (anthropic_config env_key cfg p) ≡ err e
      → (is_empty cfg.api_key ≡ true) × (is_empty env_key ≡ true)
  unfolding new_anthropic
  new_anthropic-refused env_key cfg p start t has e h =
      let full = guided cfg start p.source p.static_guidance t has in
      (ground (arith, full, h), ground (arith, full, h))

  -- What is built: NoOp, an error, or an inspector with a key and guidance.
  abbrev pub Builds :
      String
      → Settings
      → S
      → Result (Built (S × CachedSource) × FailMode) × (S × CachedSource)
      → Type 0
  Builds env_key cfg start out =
      ((cfg.enabled ≡ false) × (out.0 ≡ ok (disabled, fail_closed)))
      ⊎ ((cfg.enabled ≡ true)
          × (((is_empty cfg.api_key ≡ true) × (is_empty env_key ≡ true)) ⊎ Lacks cfg start)
          × (e : Error) × (out.0 ≡ err e))
      ⊎ ((cfg.enabled ≡ true)
          × (c : Config (S × CachedSource)) × (mode : FailMode) × (out.0 ≡ ok (remote c, mode))
          × ((mode ≡ fail_open) ↔ (cfg.fail_mode ≡ "open"))
          × (is_empty c.api_key ≡ false)
          × Has cfg start c.prompt_source c.guidance out.1)

  mode_iff :
      (text : String)
      → ((if text == "open" then fail_open else fail_closed) ≡ fail_open) ↔ (text ≡ "open")
  mode_iff text = elim (Bool-cases (text == "open")) [
    | inl here ↦ rw here ((λ e. (eq_iff text "open").0 here), λ e. refl)
    | inr other ↦
        rw other ((λ e. absurd (cc e)), λ e. absurd (cc ((eq_iff text "open").1 e, other)))
  ]

  -- BuildInspector gives NoOp in fail-closed mode where the intake is disabled. Where it is
  -- enabled, it fails only if no key is set, the file that is named has no text, neither a text, a
  -- file nor an object is named, there is no client of S3, or the object cannot be read; otherwise
  -- it gives an inspector with a key, which fails open exactly if that is asked for, and whose
  -- guidance is the text of the configuration, the text of its file, which is not empty, or is
  -- read through a cache from the named object, whose first contents the cache holds.
  pub build_inspector-Builds :
      (env_key : String) (cfg : Settings) (t : S × CachedSource)
      → Builds env_key cfg t.0
          (build_inspector text_of read_file new_client clock refresh env_key cfg t)
  unfolding build_inspector
  build_inspector-Builds env_key cfg t = elim (Bool-cases cfg.enabled) [
    | inr off ↦ inl (off, rw off refl)
    | inl on ↦ elim (Result-cases (source_of cfg t).0) [
      | inr (e, failed) ↦ inr (
          inl (
            on,
            inr (
                build_prompt_source-LacksGuidance text_of read_file new_client clock refresh cfg t e
                  failed),
            wrap "intake: prompt source" e,
            rw on (rw failed refl),
          ))
      | inl (p, found) ↦ elim (Result-cases (new_anthropic (anthropic_config env_key cfg p))) [
        | inr (e, refused) ↦
            let has =
              build_prompt_source-HasGuidance text_of read_file new_client clock refresh cfg t p
                found in
            inr (
              inl (
                on,
                inl (new_anthropic-refused env_key cfg p t.0 (source_of cfg t).1 has e refused),
                wrap "intake: building inspector" e,
                rw on (rw found (rw refused refl)),
              ))
        | inl (c, made) ↦
            let (same_text, same_source, key) =
              new_anthropic-kept (anthropic_config env_key cfg p) c made in
            let left : (build_inspector text_of read_file new_client clock refresh env_key cfg t).1
                ≡ (source_of cfg t).1 =
              rw on (rw found refl) in
            inr (
              inr (
                on,
                c,
                (if cfg.fail_mode == "open" then fail_open else fail_closed),
                rw on (rw found (rw made refl)),
                mode_iff cfg.fail_mode,
                key,
                subst (Has cfg t.0 c.prompt_source c.guidance) (sym left) (
                    rw (same_text, same_source)
                      (build_prompt_source-HasGuidance text_of read_file new_client clock refresh
                        cfg t p found)),
              ))
      ]
    ]
  ]
