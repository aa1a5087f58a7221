-- ===== src/Slack/Guests/Laws.antt =====
-- slackapp/guests.go: a conversation with a guest never passes for one without.
use open_trove.Base.{
  ℕ, zero, suc, String, Bool, true, false, ◌||◌, none, some, List, [], ◌∷◌, any, ◌≡◌, refl, ap,
  subst, ◌⊎◌, inl, inr, In, Bool-cases, Option-cases, Result-cases, Result, ok, err, arith, eq_iff,
  ◌==◌,
}
use open_trove.Base.Text.{is_empty}
use open_trove.Base.Dict.{get, get-put}
use open_trove.Slack.{User, Api}
use open_trove.Slack.Guests.{
  ChannelGuests, Directory, is_guest, guest_ids, among, known_guests, Answer, fresh_list,
  fresh_answer, refresh_guests, remembered, looked_up, member_pages, channel_has_guest, has_guests,
}

-- An account outside the organization that is still in use.
pub record IsOutsider (user : User) : Type 0 where
  pub active : user.deleted ≡ false
  pub restricted : (user.is_restricted || user.is_ultra_restricted) ≡ true

-- The members of a conversation that are on the page of a cursor or on a later one.
pub data Listed (page : String → List String × String) : String → String → Type 0 where
  here : {cursor id : String} → In id (page cursor).0 → Listed page cursor id
  later :
      {cursor id : String}
      → is_empty (page cursor).1 ≡ false
      → Listed page (page cursor).1 id
      → Listed page cursor id

Listed-cases :
    {page : String → List String × String} {cursor id : String}
    → Listed page cursor id
    → In id (page cursor).0 ⊎ ((is_empty (page cursor).1 ≡ false) × Listed page (page cursor).1 id)
Listed-cases (here m) = inl m
Listed-cases (later more l) = inr (more, l)

among-outsider :
    (everyone : List User) (user : User)
    → In user everyone
    → IsOutsider user
    → among (guest_ids everyone) user.id ≡ true
unfolding guest_ids is_guest
among-outsider [] user m out = absurd m
among-outsider (x ∷ xs) user (inl same) out =
    ground (arith, same, out.active, out.restricted, eq_iff x.id user.id)
among-outsider (x ∷ xs) user (inr m) out = ground (arith, among-outsider xs user m out)

any_missed :
    (guests : List String) (id : String) (members : List String)
    → In id members
    → among guests id ≡ true
    → any (among guests) members ≡ true
any_missed guests id [] m known = absurd m
any_missed guests id (x ∷ xs) (inl same) known = ground (arith, same)
any_missed guests id (x ∷ xs) (inr m) known = ground (arith, any_missed guests id xs m known)

module _ {S : Type 0} (api : Api S) (everyone : List User)
    (page : String → String → List String × String) where
  -- The workspace stays as it is: Slack answers with all its users, and with the pages of members.
  pub record IsShown : Type 0 where
    pub users : (s : S) (us : List User) → (api.get_users s).0 ≡ ok us → us ≡ everyone
    pub members :
        (channel cursor : String) (s : S) (p : List String × String)
        → (api.get_users_in_conversation channel cursor s).0 ≡ ok p
        → p ≡ page channel cursor

  -- No user outside the organization is among the members of a conversation.
  abbrev pub HasNone : String → Type 0
  HasNone channel =
      (user : User) → In user everyone → IsOutsider user → Listed (page channel) "" user.id → ⊥

  -- What is remembered is right.
  pub record IsSound (g : Directory) : Type 0 where
    pub guests : (ids : List String) → g.guests ≡ some ids → ids ≡ guest_ids everyone
    pub channels :
        (channel : String) (c : ChannelGuests)
        → get channel g.channels ≡ some c
        → c.has ≡ false
        → HasNone channel

  module _ (shown : IsShown) where
    member_pages-none :
        (pages : ℕ) (channel cursor : String) (s : S)
        → (member_pages api pages (guest_ids everyone) channel cursor s).0.0 ≡ false
        → (user : User) → In user everyone
        → IsOutsider user
        → Listed (page channel) cursor user.id
        → ⊥
    unfolding member_pages
    member_pages-none zero channel cursor s h user m out l = absurd (cc h)
    member_pages-none (suc pages) channel cursor s h user m out l =
        elim (Result-cases (api.get_users_in_conversation channel cursor s).0) [
          | inr (e, failed) ↦ absurd (ground (arith, failed, h))
          | inl ((members, next), got) ↦
              let same = shown.members channel cursor s (members, next) got in
              let known = among-outsider everyone user m out in
              let guests = guest_ids everyone in
              elim (Bool-cases (any (among guests) members)) [
                | inl seen ↦ absurd (ground (arith, got, seen, h))
                | inr unseen ↦ elim (Listed-cases l) [
                  | inl now ↦
                      absurd
                        (cc (any_missed guests user.id members (rw (← same) at now) known, unseen))
                  | inr (more, l') ↦
                      member_pages-none pages channel next
                        (api.get_users_in_conversation channel cursor s).1
                        (ground (arith, got, unseen, same, more, h)) user m out (rw (← same) at l')
                ]
              ]
        ]

    refresh_guests-IsSound :
        (now : ℕ) (g : Directory) (s : S)
        → IsSound g
        → IsSound (refresh_guests api now g s).1
          × ((refresh_guests api now g s).0 ≡ ok tt
              → known_guests (refresh_guests api now g s).1 ≡ guest_ids everyone)
    unfolding refresh_guests get
    refresh_guests-IsSound now g s sound = elim (Bool-cases (fresh_list api now g)) [
      | inl fresh ↦ rw fresh ((sound, λ h. known g sound fresh))
      | inr old ↦ elim (Result-cases (api.get_users s).0) [
        | inr (e, failed) ↦ rw old (rw failed ((sound, λ h. absurd (cc h))))
        | inl (users, got) ↦
            let same = shown.users s users got in
            rw old (
              rw got (
                (
                  record {
                    guests = λ ids h. cc (h, ap guest_ids same);
                    channels = λ channel c h clear. absurd (cc h);
                  },
                  λ h. ap guest_ids same,
                )))
      ]
    ]
      where
        known :
            (g : Directory)
            → IsSound g
            → fresh_list api now g ≡ true
            → known_guests g ≡ guest_ids everyone
        known g sound fresh = elim (Option-cases g.guests) [
          | inl unset ↦ absurd (ground (arith, unset, fresh))
          | inr (ids, set) ↦ rw set (sound.guests ids set)
        ]

    member_pages-certain :
        (pages : ℕ) (guests : List String) (channel cursor : String) (s : S)
        → (member_pages api pages guests channel cursor s).0.0 ≡ false
        → (member_pages api pages guests channel cursor s).0.1 ≡ none
    unfolding member_pages
    member_pages-certain zero guests channel cursor s h = absurd (cc h)
    member_pages-certain (suc pages) guests channel cursor s h =
        elim (Result-cases (api.get_users_in_conversation channel cursor s).0) [
          | inr (e, failed) ↦ absurd (ground (arith, failed, h))
          | inl ((members, next), got) ↦ ground (
            arith,
            got,
            h,
            member_pages-certain pages guests channel next
                (api.get_users_in_conversation channel cursor s).1,
          )
        ]

    -- A denial that guests take part comes without an error, and is right.
    abbrev pub IsRight : String → Answer → Type 0
    IsRight channel a = a.0 ≡ false → HasNone channel × (a.1 ≡ none)

    remembered-IsSound :
        (now : ℕ) (channel : String) (g : Directory) (a : Answer) (s : S)
        → IsSound g
        → IsRight channel a
        → IsSound (remembered api now channel g (a, s)).1
          × IsRight channel (remembered api now channel g (a, s)).0
    remembered-IsSound now channel g (has, some e) s sound right = (sound, λ h. absurd (cc h))
    remembered-IsSound now channel g (has, none) s sound right = (
      record {
        guests = sound.guests;
        channels = λ other c found clear. elim (Bool-cases (channel == other)) [
          | inl same ↦
              subst HasNone ((eq_iff channel other).0 same)
                (right (
                  ground (
                    arith,
                    same,
                    found,
                    clear,
                    get-put channel other (record { has = has; at = now }) g.channels,
                  ))).0
          | inr another ↦
              sound.channels other c
                (ground (
                  arith,
                  another,
                  found,
                  get-put channel other (record { has = has; at = now }) g.channels,
                ))
                clear
        ];
      },
      right,
    )

    looked_up-IsSound :
        (now : ℕ) (channel : String) (r : Result (Unit {0})) (g : Directory) (s : S)
        → IsSound g
        → (r ≡ ok tt → known_guests g ≡ guest_ids everyone)
        → IsSound (looked_up api now channel r g s).1
          × IsRight channel (looked_up api now channel r g s).0
    unfolding channel_has_guest
    looked_up-IsSound now channel (err e) g s sound known = (sound, λ h. absurd (cc h))
    looked_up-IsSound now channel (ok _) g s sound known = rw (known refl) (
        remembered-IsSound now channel g (member_pages api 10 (guest_ids everyone) channel "" s).0
          (member_pages api 10 (guest_ids everyone) channel "" s).1 sound
          (λ h. (
            member_pages-none 10 channel "" s h,
            member_pages-certain 10 (guest_ids everyone) channel "" s h,
          )))

    -- While the workspace stays as it is, what the directory remembers of guests and conversations
    -- stays right, and where it answers that a conversation has no guests, there is no error and
    -- no active guest is among the members on any page of the list; so an error, or more pages
    -- than are read, counts as guests.
    pub has_guests-IsSound :
        (now : ℕ) (channel : String) (g : Directory) (s : S)
        → IsSound g
        → IsSound (has_guests api now channel g s).1
          × IsRight channel (has_guests api now channel g s).0
    unfolding has_guests
    has_guests-IsSound now channel g s sound =
        elim (Option-cases (fresh_answer api now (get channel g.channels))) [
          | inl old ↦
              let (kept, known) = refresh_guests-IsSound now g s sound in
              rw old (looked_up-IsSound now channel _ _ _ kept known)
          | inr (has, remembered) ↦ rw remembered ((sound, λ h. (held has remembered h, refl)))
        ]
      where
        held :
            (has : Bool)
            → fresh_answer api now (get channel g.channels) ≡ some has
            → has ≡ false
            → HasNone channel
        held has remembered h = elim (Option-cases (get channel g.channels)) [
          | inl unset ↦ absurd (ground (arith, unset, remembered))
          | inr (c, set) ↦ sound.channels channel c set (ground (arith, set, remembered, h))
        ]
