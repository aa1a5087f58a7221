-- ===== src/Intake/Cache/Laws.antt =====
-- intake/cache.go: nothing is allowed that the inspector behind the cache has not allowed.
use open_trove.Base.{
  String, Bool, true, false, ◌≡◌, refl, ◌⊎◌, inl, inr, Bool-cases, Result-cases, Result, ok, err,
}
use open_trove.Base.Exec.{Exec}
use open_trove.Intake.{Verdict, Input, Inspector}
use open_trove.Intake.Cache.{VerdictCache, allow, remember, looked_up, with_key, inspect}

-- What is expected of the parts behind the caching inspector: marks are set by storing a verdict
-- only, and a look-up tells of a mark that is there.
pub record Marks {S : Type 0} (inner : Inspector S) (fingerprint : Exec S String)
    (cache : VerdictCache S) : Type 0 where
  pub marked : S → String → Bool
  pub found : (k : String) (s : S) → (cache.has_allowed_verdict k s).0 ≡ ok true → marked s k ≡ true
  pub after_look_up :
      (k j : String) (s : S) → marked (cache.has_allowed_verdict k s).1 j ≡ true → marked s j ≡ true
  pub after_put :
      (k j : String) (s : S)
      → marked (cache.put_allowed_verdict k s).1 j ≡ true
      → (j ≡ k) ⊎ (marked s j ≡ true)
  pub after_inspection :
      (input : Input) (j : String) (s : S) → marked (inner input s).1 j ≡ true → marked s j ≡ true
  pub after_fingerprint :
      (j : String) (s : S) → marked (fingerprint s).1 j ≡ true → marked s j ≡ true

module _ (key : String → Input → String) {S : Type 0} (inner : Inspector S)
    (fingerprint : Exec S String) (cache : VerdictCache S)
    (marks : Marks inner fingerprint cache) where
  -- The inspector has allowed an input with this key.
  pub record Vouched (k : String) : Type 0 where
    pub print : String
    pub input : Input
    pub state : S
    pub verdict : Verdict
    pub named : k ≡ key print input
    pub answered : (inner input state).0 ≡ ok verdict
    pub allowed : verdict.allowed ≡ true

  abbrev pub IsSound : S → Type 0
  IsSound s = (k : String) → marks.marked s k ≡ true → Vouched k

  -- An answer is the inspector's own, or allows an input for whose key the inspector has vouched.
  pub data Justified (input : Input) (r : Result Verdict) : Type 0 where
    inspected : (s : S) → r ≡ (inner input s).0 → Justified input r
    remembered : (print : String) → r ≡ ok allow → Vouched (key print input) → Justified input r

  inner-IsSound : (input : Input) (s : S) → IsSound s → IsSound (inner input s).1
  inner-IsSound input s sound k m = sound k (marks.after_inspection input k s m)

  remember-IsSound :
      (input : Input) (print : String) (s : S)
      → IsSound s
      → IsSound
          (remember key inner fingerprint cache
            (key print input)
            (inner input s).0
            (inner input s).1).1
        × ((remember key inner fingerprint cache
              (key print input)
              (inner input s).0
              (inner input s).1).0
            ≡ (inner input s).0)
  unfolding remember
  remember-IsSound input print s sound = elim (Result-cases (inner input s).0) [
    | inr (e, failed) ↦ rw (remember, failed) (inner-IsSound input s sound, refl)
    | inl (v, answered) ↦ elim (Bool-cases v.allowed) [
      | inr blocked ↦ rw (remember, answered, blocked) (inner-IsSound input s sound, refl)
      | inl allowed ↦
          rw (remember, answered, allowed)
            (
              λ k m. elim (marks.after_put (key print input) k (inner input s).1 m) [
                | inl this ↦ record {
                  print = print;
                  input = input;
                  state = s;
                  verdict = v;
                  named = this;
                  answered = answered;
                  allowed = allowed;
                }
                | inr other ↦ inner-IsSound input s sound k other
              ],
              refl,
            )
    ]
  ]

  looked_up-IsSound :
      (input : Input) (print : String) (r : Result Bool) (s : S)
      → (r ≡ ok true → Vouched (key print input))
      → IsSound s
      → IsSound (looked_up key inner fingerprint cache input (key print input) r s).1
        × Justified input (looked_up key inner fingerprint cache input (key print input) r s).0
  unfolding looked_up
  looked_up-IsSound input print (ok true) s hit sound = (sound, remembered print refl (hit refl))
  looked_up-IsSound input print (ok false) s hit sound =
      let (kept, same) = remember-IsSound input print s sound in (kept, inspected s same)
  looked_up-IsSound input print (err e) s hit sound =
      let (kept, same) = remember-IsSound input print s sound in (kept, inspected s same)

  -- Where every key that the cache has marked is one of an input that the inspector behind it has
  -- allowed, this still holds after an inspection through the cache, also after one that fails,
  -- and the answer is the inspector's own to this input, or allows an input whose key is such a
  -- key.
  pub inspect-IsSound :
      (input : Input) (s : S)
      → IsSound s
      → IsSound (inspect key inner fingerprint cache input s).1
        × Justified input (inspect key inner fingerprint cache input s).0
  unfolding inspect with_key
  inspect-IsSound input s sound =
      let t = (fingerprint s).1 in
      let kept : IsSound t = λ k m. sound k (marks.after_fingerprint k s m) in
      elim (Result-cases (fingerprint s).0) [
        | inr (e, failed) ↦ rw (inspect, failed) (inner-IsSound input t kept, inspected t refl)
        | inl (print, printed) ↦
            rw (inspect, printed)
              (looked_up-IsSound input print (cache.has_allowed_verdict (key print input) t).0
                (cache.has_allowed_verdict (key print input) t).1
                (λ hit. kept (key print input) (marks.found (key print input) t hit))
                (λ k m. kept k (marks.after_look_up (key print input) k t m)))
      ]
