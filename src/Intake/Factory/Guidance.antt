-- ===== src/Intake/Factory/Guidance.antt =====
-- intake/factory.go, intake/source.go and intake/defaults.go: where guidance comes from.
use open_trove.Base.{
  ltb, ap, ◌∙◌, ◌<◌, ◌≤◌, ◌+◌, ◌≢◌, ℕ, String, true, false, not, ◌&&◌, ◌||◌, Option, none, some,
  List, ◌≡◌, refl, sym, subst, ◌⊎◌, inl, inr, Bool-cases, Result-cases, Result, ok, err, Error,
  arith, wrap,
}
use open_trove.Base.Text.{is_empty}
use open_trove.Base.Exec.{Exec}
use open_trove.Intake.Source.{CachedSource, fetch, refreshed}
use open_trove.Intake.Factory.{
  Settings, Prompts, guidance, cached_source, s3_source, static, connected, prefetched, empty_cache,
  build_prompt_source,
}

-- A source that reads an object through a cache: it answers from the cache until the value expires,
-- then reads the object and keeps what it has read, and answers with the last value where that fails.
pub record ReadsThrough {S : Type 0} (clock : S → ℕ) (refresh : ℕ)
    (read : S → Result (Result (List ℕ)) × S) (source : Exec (S × CachedSource) (List ℕ))
    : Type 0 where
  pub from_cache :
      (s : S) (c : CachedSource)
      → c.has_cached ≡ true
      → clock s < c.expires
      → source (s, c) ≡ (ok c.cached, (s, c))
  pub from_object :
      (s : S) (c : CachedSource) (v : List ℕ)
      → (c.has_cached ≡ false) ⊎ (c.expires ≤ clock s)
      → (read s).0 ≡ ok (ok v)
      → source (s, c) ≡ (
        ok v,
        (
          (read s).1,
          record { cached = v; expires = clock (read s).1 + refresh; has_cached = true },
        ),
      )
  pub from_last :
      (s : S) (c : CachedSource)
      → c.has_cached ≡ true
      → c.expires ≤ clock s
      → ((v : List ℕ) → (read s).0 ≢ ok (ok v))
      → (source (s, c)).0 ≡ ok c.cached

prefetched_kept :
    {S : Type 0} (source : Exec (S × CachedSource) (List ℕ))
    (r : Result (List ℕ) × (S × CachedSource)) (p : Prompts (S × CachedSource))
    → (prefetched source r).0 ≡ ok p
    → (v : List ℕ) × (r.0 ≡ ok v)
      × (p.source ≡ some source)
      × (p.static_guidance ≡ "")
      × ((prefetched source r).1 ≡ r.1)
prefetched_kept source (ok v, t) p h = (v, refl, ground (arith, h), ground (arith, h), refl)
prefetched_kept source (err e, t) p h = absurd (cc h)

module _ {S : Type 0} (text_of : List ℕ → String) (read_file : String → Result (List ℕ))
    (new_client : Result (String → String → Exec S (Result (List ℕ)))) (clock : S → ℕ)
    (refresh : ℕ) where
  -- Where guidance comes from: the text of the configuration; the file that it names, which is not
  -- empty; or an object of S3, read through a cache that holds what the object held on its first
  -- reading.
  pub data HasGuidance (cfg : Settings) (start : S)
      : Option (Exec (S × CachedSource) (List ℕ)) → String → S × CachedSource → Type 0 where
    inline :
        {t : S × CachedSource}
        → is_empty cfg.prompt_inline ≡ false
        → HasGuidance cfg start none cfg.prompt_inline t
    of_file :
        {t : S × CachedSource} (bytes : List ℕ)
        → is_empty cfg.prompt_inline ≡ true
        → read_file cfg.prompt_path ≡ ok bytes
        → is_empty (text_of bytes) ≡ false
        → HasGuidance cfg start none (text_of bytes) t
    of_object :
        {t : S × CachedSource} (get_object : String → String → Exec S (Result (List ℕ)))
        (source : Exec (S × CachedSource) (List ℕ))
        → new_client ≡ ok get_object
        → ReadsThrough clock refresh
            (get_object cfg.prompt_source_bucket cfg.prompt_source_key)
            source
        → (get_object cfg.prompt_source_bucket cfg.prompt_source_key start).0 ≡ ok (ok t.1.cached)
        → t.1.has_cached ≡ true
        → HasGuidance cfg start (some source) "" t

  cached_source-ReadsThrough :
      (get_object : String → String → Exec S (Result (List ℕ))) (bucket key : String)
      → ReadsThrough clock refresh
          (get_object bucket key)
          (cached_source clock refresh (s3_source get_object bucket key))
  unfolding fetch refreshed
  cached_source-ReadsThrough get_object bucket key = record {
    from_cache = λ s c has fresh.
        let test : (c.has_cached && ltb (clock s) c.expires) ≡ true = ground (arith, has, fresh) in
        rw test refl;
    from_object = λ s c v old got.
        let test : (c.has_cached && ltb (clock s) c.expires) ≡ false = ground (arith, old) in
        rw test (rw (refreshed, got) refl);
    from_last = λ s c has old failed.
        let test : (c.has_cached && ltb (clock s) c.expires) ≡ false = ground (arith, old) in
        elim (Result-cases (get_object bucket key s).0) [
          | inr (e, missing) ↦ rw test (rw (refreshed, missing) (rw has refl))
          | inl (contents, got) ↦ elim (Result-cases contents) [
            | inl (v, whole) ↦ absurd (failed v (got ∙ ap ok whole))
            | inr (e, broken) ↦ rw test (rw (refreshed, got) (rw broken (rw has refl)))
          ]
        ];
  }

  first_read :
      (get_object : String → String → Exec S (Result (List ℕ))) (bucket key : String) (s : S)
      → ((v : List ℕ) × ((get_object bucket key s).0 ≡ ok (ok v))
          × (cached_source clock refresh (s3_source get_object bucket key) (s, empty_cache) ≡ (
            ok v,
            (
              (get_object bucket key s).1,
              record {
                cached = v;
                expires = clock (get_object bucket key s).1 + refresh;
                has_cached = true;
              },
            ),
          )))
        ⊎ ((e : Error) × ((cached_source clock refresh
                (s3_source get_object bucket key)
                (s, empty_cache)).0
              ≡ err e))
  unfolding fetch refreshed
  first_read get_object bucket key s = elim (Result-cases (get_object bucket key s).0) [
    | inr (e, missing) ↦ inr (wrap "intake: s3 get" e, rw (fetch, refreshed, missing) refl)
    | inl (contents, got) ↦ elim (Result-cases contents) [
      | inr (e, broken) ↦ inr (e, rw (fetch, refreshed, got) (rw broken refl))
      | inl (v, whole) ↦ inl (
        v,
        got ∙ ap ok whole,
        (cached_source-ReadsThrough get_object bucket key).from_object s empty_cache v (inl refl)
            (got ∙ ap ok whole),
      )
    ]
  ]

  abbrev pub built_source :
      Settings → S × CachedSource → Result (Prompts (S × CachedSource)) × (S × CachedSource)
  built_source = build_prompt_source text_of read_file new_client clock refresh

  -- The text of the configuration, or of its file.
  static-HasGuidance :
      (cfg : Settings) (t : S × CachedSource) (p : Prompts (S × CachedSource))
      → static (guidance text_of cfg.prompt_inline cfg.prompt_path read_file) ≡ ok p
      → HasGuidance cfg t.0 p.source p.static_guidance t
  unfolding guidance
  static-HasGuidance cfg t p h = elim (Bool-cases (is_empty cfg.prompt_inline)) [
    | inr given ↦
        let no_source : p.source ≡ none = ground (arith, given, h) in
        let text : p.static_guidance ≡ cfg.prompt_inline = ground (arith, given, h) in
        rw (no_source, text) (inline given)
    | inl missing ↦ elim (Bool-cases (is_empty cfg.prompt_path)) [
      | inl nowhere ↦ absurd (ground (arith, missing, nowhere, h))
      | inr named ↦ elim (Result-cases (read_file cfg.prompt_path)) [
        | inr (e, unread) ↦ absurd (ground (arith, missing, named, unread, h))
        | inl (bytes, got) ↦ elim (Bool-cases (is_empty (text_of bytes))) [
          | inl blank ↦ absurd (ground (arith, missing, named, got, blank, h))
          | inr full ↦
              let no_source : p.source ≡ none = ground (arith, missing, named, got, full, h) in
              let text : p.static_guidance ≡ text_of bytes =
                ground (arith, missing, named, got, full, h) in
              rw (no_source, text) (of_file bytes missing got full)
        ]
      ]
    ]
  ]

  -- The object of S3, read once.
  connected-HasGuidance :
      (cfg : Settings) (t : S × CachedSource) (p : Prompts (S × CachedSource))
      (client : Result (String → String → Exec S (Result (List ℕ))))
      → client ≡ new_client
      → (connected text_of read_file new_client clock refresh cfg client t).0 ≡ ok p
      → HasGuidance cfg t.0 p.source p.static_guidance
          (connected text_of read_file new_client clock refresh cfg client t).1
  connected-HasGuidance cfg t p (err e) made h = absurd (cc h)
  connected-HasGuidance cfg t p (ok get_object) made h =
      let bucket = cfg.prompt_source_bucket in
      let key = cfg.prompt_source_key in
      let source = cached_source clock refresh (s3_source get_object bucket key) in
      let (v, answer, same, text, left) = prefetched_kept source (source (t.0, empty_cache)) p h in
      elim (first_read get_object bucket key t.0) [
        | inr (e, failed) ↦ absurd (cc (answer, failed))
        | inl (w, got, whole) ↦
            rw (same, text, left)
              (subst (λ out. HasGuidance cfg t.0 (some source) "" out.1) (sym whole)
                (of_object get_object source (sym made)
                  (cached_source-ReadsThrough get_object bucket key) got refl))
      ]

  pub build_prompt_source-HasGuidance :
      (cfg : Settings) (t : S × CachedSource) (p : Prompts (S × CachedSource))
      → (built_source cfg t).0 ≡ ok p
      → HasGuidance cfg t.0 p.source p.static_guidance (built_source cfg t).1
  unfolding build_prompt_source
  build_prompt_source-HasGuidance cfg t p h =
      elim (Bool-cases (not (is_empty cfg.prompt_inline) || not (is_empty cfg.prompt_path))) [
        | inl given ↦ rw given (static-HasGuidance cfg t p (rw given at h))
        | inr neither ↦
            elim (Bool-cases
              (is_empty cfg.prompt_source_bucket || is_empty cfg.prompt_source_key)) [
                | inl nowhere ↦ absurd (cc (rw (neither, nowhere) at h))
                | inr named ↦
                    rw (neither, named)
                      (connected-HasGuidance cfg t p new_client refl (rw (neither, named) at h))
              ]
      ]

  -- Why there is no source: the file has no text; neither a text, a file nor an object is named;
  -- there is no client; or the object cannot be read.
  pub data LacksGuidance (cfg : Settings) (start : S) : Type 0 where
    no_text :
        is_empty cfg.prompt_inline ≡ true
        → is_empty cfg.prompt_path ≡ false
        → ((bytes : List ℕ)
            → read_file cfg.prompt_path ≡ ok bytes
            → is_empty (text_of bytes) ≡ true)
        → LacksGuidance cfg start
    not_named :
        is_empty cfg.prompt_inline ≡ true
        → is_empty cfg.prompt_path ≡ true
        → (is_empty cfg.prompt_source_bucket ≡ true) ⊎ (is_empty cfg.prompt_source_key ≡ true)
        → LacksGuidance cfg start
    no_client : (e : Error) → new_client ≡ err e → LacksGuidance cfg start
    unreadable :
        (get_object : String → String → Exec S (Result (List ℕ)))
        → new_client ≡ ok get_object
        → ((v : List ℕ)
            → (get_object cfg.prompt_source_bucket cfg.prompt_source_key start).0 ≢ ok (ok v))
        → LacksGuidance cfg start

  static-LacksGuidance :
      (cfg : Settings) (start : S) (e : Error)
      → (not (is_empty cfg.prompt_inline) || not (is_empty cfg.prompt_path)) ≡ true
      → static {S = S} (guidance text_of cfg.prompt_inline cfg.prompt_path read_file) ≡ err e
      → LacksGuidance cfg start
  unfolding guidance
  static-LacksGuidance cfg start e given h = elim (Bool-cases (is_empty cfg.prompt_inline)) [
    | inr full ↦ absurd (ground (arith, full, h))
    | inl missing ↦ elim (Bool-cases (is_empty cfg.prompt_path)) [
      | inl nowhere ↦ absurd (ground (arith, given, missing, nowhere))
      | inr named ↦ no_text missing named λ bytes got.
          elim (Bool-cases (is_empty (text_of bytes))) [
            | inl blank ↦ blank
            | inr full ↦ absurd (ground (arith, missing, named, got, full, h))
          ]
    ]
  ]

  connected-LacksGuidance :
      (cfg : Settings) (t : S × CachedSource) (e : Error)
      (client : Result (String → String → Exec S (Result (List ℕ))))
      → client ≡ new_client
      → (connected text_of read_file new_client clock refresh cfg client t).0 ≡ err e
      → LacksGuidance cfg t.0
  connected-LacksGuidance cfg t e (err f) made h = no_client f (sym made)
  connected-LacksGuidance cfg t e (ok get_object) made h =
      let bucket = cfg.prompt_source_bucket in
      let key = cfg.prompt_source_key in
      let source = cached_source clock refresh (s3_source get_object bucket key) in
      unreadable get_object (sym made) λ v got.
        let whole =
          (cached_source-ReadsThrough get_object bucket key).from_object t.0 empty_cache v
            (inl refl) got in
        cc (subst (λ out. (prefetched source out).0 ≡ err e) whole h)

  pub build_prompt_source-LacksGuidance :
      (cfg : Settings) (t : S × CachedSource) (e : Error)
      → (built_source cfg t).0 ≡ err e
      → LacksGuidance cfg t.0
  unfolding build_prompt_source
  build_prompt_source-LacksGuidance cfg t e h =
      elim (Bool-cases (not (is_empty cfg.prompt_inline) || not (is_empty cfg.prompt_path))) [
        | inl given ↦ static-LacksGuidance cfg t.0 e given (rw given at h)
        | inr neither ↦
            elim (Bool-cases
              (is_empty cfg.prompt_source_bucket || is_empty cfg.prompt_source_key)) [
                | inl nowhere ↦
                    not_named (ground (arith, neither)) (ground (arith, neither))
                      (ground (arith, nowhere))
                | inr named ↦
                    connected-LacksGuidance cfg t e new_client refl (rw (neither, named) at h)
              ]
      ]
