-- ===== src/Notify/Laws.antt =====
-- notify/notify.go: whom Recipients names, and when deliver stops.
use open_trove.Base.{
  ℕ, zero, suc, String, true, false, ◌||◌, ◌==◌, List, [], ◌∷◌, ◌++◌, any, ◌≡◌, refl, ◌⊎◌, inl, inr,
  ◌↔◌, In, arith, Bool-cases, eq_iff, Result, ok, err, wrap_both, is, undeliverable, Error,
  Result-cases,
}
use open_trove.Base.Text.{is_empty, Unicode, equal_fold}
use open_trove.Base.Exec.{Exec}
use open_trove.Comments.{Comment, Activity}
use open_trove.Notify.{Notification, normal, collect, candidates, recipients, deliver_from, deliver}

module _ (u : Unicode) (actor : String) where
  -- An email that is to be told: it is not empty, and it is not the actor's.
  abbrev pub IsTold : String → Type 0
  IsTold email = (is_empty email ≡ false) × (equal_fold u email actor ≡ false)

  -- The loop passes over a candidate, or adds one that is to be told and is not there yet.
  collect-cases :
      (out : List String) (c : String) (cs : List String)
      → ((collect u actor out (c ∷ cs) ≡ collect u actor out cs)
          × ((is_empty (normal u c) || equal_fold u (normal u c) actor ≡ true)
              ⊎ (any (λ seen. seen == normal u c) out ≡ true)))
        ⊎ ((collect u actor out (c ∷ cs) ≡ collect u actor (out ++ normal u c ∷ []) cs)
            × IsTold (normal u c)
            × (any (λ seen. seen == normal u c) out ≡ false))
  unfolding collect
  collect-cases out c cs = ground arith

  In-append : (r x : String) (out : List String) → In r (out ++ x ∷ []) ↔ (In r out ⊎ (r ≡ x))
  In-append r x [] = ground arith
  In-append r x (y ∷ out) = ground (arith, In-append r x out)

  In-of_any : (x : String) (out : List String) → any (λ seen. seen == x) out ≡ true → In x out
  In-of_any x (y ∷ out) h = ground (arith, In-of_any x out, eq_iff y x)
  In-of_any x [] h = cc h

  collect-keeps : (r : String) (out cs : List String) → In r out → In r (collect u actor out cs)
  unfolding collect
  collect-keeps r out [] m = m
  collect-keeps r out (c ∷ cs) m = elim (collect-cases out c cs) [
    | inl (same, _) ↦ rw same (collect-keeps r out cs m)
    | inr (added, _, _) ↦
        rw added
          (collect-keeps r (out ++ normal u c ∷ []) cs ((In-append r (normal u c) out).1 (inl m)))
  ]

  collect_complete :
      (c : String) (out cs : List String)
      → In c cs
      → IsTold (normal u c)
      → In (normal u c) (collect u actor out cs)
  collect_complete c out (d ∷ cs) (inr later) told = elim (collect-cases out d cs) [
    | inl (same, _) ↦ rw same (collect_complete c out cs later told)
    | inr (added, _, _) ↦ rw added (collect_complete c (out ++ normal u d ∷ []) cs later told)
  ]
  collect_complete c out (d ∷ cs) (inl here) (full, other) =
      rw here (elim (collect-cases out d cs) [
        | inl (same, inl skipped) ↦ absurd (ground (arith, skipped, full, other, here))
        | inl (same, inr known) ↦
            rw same (collect-keeps (normal u d) out cs (In-of_any (normal u d) out known))
        | inr (added, _, _) ↦ rw added (
            collect-keeps (normal u d) (out ++ normal u d ∷ []) cs
              ((In-append (normal u d) (normal u d) out).1 (inr refl)))
      ])
  collect_complete c out [] m told = absurd m

  -- Where a recipient comes from.
  abbrev pub Comes : String → List String → Type 0
  Comes r cs = (c : String) × In c cs × (r ≡ normal u c) × IsTold r

  collect-Comes :
      (r : String) (out cs : List String) → In r (collect u actor out cs) → In r out ⊎ Comes r cs
  unfolding collect
  collect-Comes r out [] m = inl m
  collect-Comes r out (c ∷ cs) m = elim (collect-cases out c cs) [
    | inl (same, _) ↦ elim (collect-Comes r out cs (rw same at m)) [
      | inl old ↦ inl old
      | inr (d, there, e, told) ↦ inr (d, inr there, e, told)
    ]
    | inr (added, told, _) ↦ elim (collect-Comes r (out ++ normal u c ∷ []) cs (rw added at m)) [
      | inr (d, there, e, told') ↦ inr (d, inr there, e, told')
      | inl old ↦ elim ((In-append r (normal u c) out).0 old) [
        | inl older ↦ inl older
        | inr new ↦ inr (c, inl refl, new, rw new told)
      ]
    ]
  ]

  abbrev pub IsDistinct : List String → Type 0
  IsDistinct [] = Unit
  IsDistinct (x ∷ xs) = (any (λ y. y == x) xs ≡ false) × IsDistinct xs

  any-append :
      (x y : String) (xs : List String)
      → any (λ z. z == y) (xs ++ x ∷ []) ≡ (any (λ z. z == y) xs || (x == y))
  any-append x y [] = ground arith
  any-append x y (z ∷ xs) = ground (arith, any-append x y xs)

  IsDistinct-append :
      (x : String) (xs : List String)
      → any (λ y. y == x) xs ≡ false
      → IsDistinct xs
      → IsDistinct (xs ++ x ∷ [])
  IsDistinct-append x [] h k = (refl, tt)
  IsDistinct-append x (y ∷ xs) h (p, k) = (
    ground (arith, any-append x y xs, eq_iff y x, eq_iff x y),
    IsDistinct-append x xs (ground arith) k,
  )

  collect-IsDistinct : (out cs : List String) → IsDistinct out → IsDistinct (collect u actor out cs)
  unfolding collect
  collect-IsDistinct out [] h = h
  collect-IsDistinct out (c ∷ cs) h = elim (collect-cases out c cs) [
    | inl (same, _) ↦ rw same (collect-IsDistinct out cs h)
    | inr (added, _, new) ↦
        rw added (
          collect-IsDistinct (out ++ normal u c ∷ []) cs (IsDistinct-append (normal u c) out new h))
  ]

module _ (u : Unicode) where
  -- Recipients names nobody twice, and exactly the normal forms of the candidates that are not
  -- empty and do not fold to the email of the actor.
  pub recipients_exact :
      (activity : Activity) (owner : String) (thread : List Comment)
      → IsDistinct u activity.actor_email (recipients u activity owner thread)
        × ((r : String)
            → In r (recipients u activity owner thread)
            → Comes u activity.actor_email r (candidates activity owner thread))
        × ((c : String)
            → In c (candidates activity owner thread)
            → IsTold u activity.actor_email (normal u c)
            → In (normal u c) (recipients u activity owner thread))
  unfolding recipients
  recipients_exact activity owner thread =
      let cs = candidates activity owner thread in
      (
        collect-IsDistinct u activity.actor_email [] cs tt,
        (λ r m. elim (collect-Comes u activity.actor_email r [] cs m) [
          | inl none_yet ↦ absurd none_yet
          | inr comes ↦ comes
        ]),
        λ c m told. collect_complete u activity.actor_email c [] cs m told,
      )

module _ {S : Type 0} (notify : Notification → Exec S (Unit {0}))
    (sleep : ℕ → Exec S (Unit {0})) where
  -- A run of at most `most` calls of the notifier, with its result and the state it leaves: it ends
  -- with a call that succeeds, that meets a recipient who cannot be told, or that is the last one
  -- allowed, or with a pause that is cut short; a pause precedes each further call.
  pub data Attempts (n : Notification) : ℕ → S → Result (Unit {0}) → S → Type 0 where
    sent :
        {most : ℕ} {s : S} → (notify n s).0 ≡ ok tt → Attempts n (suc most) s (ok tt) (notify n s).1
    refused :
        {most : ℕ} {s : S} {e : Error}
        → (notify n s).0 ≡ err e
        → is e undeliverable ≡ true
        → Attempts n (suc most) s (err e) (notify n s).1
    last : {s : S} {e : Error} → (notify n s).0 ≡ err e → Attempts n 1 s (err e) (notify n s).1
    stopped :
        {most : ℕ} {s : S} {e f : Error} (pause : ℕ)
        → (notify n s).0 ≡ err e
        → is e undeliverable ≡ false
        → (sleep pause (notify n s).1).0 ≡ err f
        → Attempts n (suc (suc most)) s (err (wrap_both e f)) (sleep pause (notify n s).1).1
    again :
        {most : ℕ} {s s' : S} {e : Error} {r : Result (Unit {0})} (pause : ℕ)
        → (notify n s).0 ≡ err e
        → is e undeliverable ≡ false
        → (sleep pause (notify n s).1).0 ≡ ok tt
        → Attempts n most (sleep pause (notify n s).1).1 r s'
        → Attempts n (suc most) s r s'

  deliver_from-Attempts :
      (left attempt : ℕ) (n : Notification) (s : S)
      → Attempts n
          (suc left)
          s
          (deliver_from notify sleep left attempt n s).0
          (deliver_from notify sleep left attempt n s).1
  unfolding deliver_from
  deliver_from-Attempts zero attempt n s = elim (Result-cases (notify n s).0) [
    | inl (_, good) ↦ rw good (sent good)
    | inr (e, bad) ↦ rw bad (last bad)
  ]
  deliver_from-Attempts (suc left) attempt n s = elim (Result-cases (notify n s).0) [
    | inl (_, good) ↦ rw good (sent good)
    | inr (e, bad) ↦ elim (Bool-cases (is e undeliverable)) [
      | inl never ↦ rw bad (rw never (refused bad never))
      | inr maybe ↦ elim (Result-cases (sleep attempt (notify n s).1).0) [
        | inl (_, slept) ↦ rw bad (
            rw maybe (
              rw slept
                (again attempt bad maybe slept (deliver_from-Attempts left (suc attempt) n _))))
        | inr (f, cut) ↦ rw bad (rw maybe (rw cut (stopped attempt bad maybe cut)))
      ]
    ]
  ]

  -- Delivering is a run of at most three attempts, which ends with the first that succeeds or
  -- meets a recipient who cannot be told, with the last that is allowed, or with a pause that is
  -- cut short; a pause precedes each further attempt.
  pub deliver-Attempts :
      (n : Notification) (s : S)
      → Attempts n 3 s (deliver notify sleep n s).0 (deliver notify sleep n s).1
  unfolding deliver
  deliver-Attempts n s = deliver_from-Attempts 2 1 n s
