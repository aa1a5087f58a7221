-- ===== src/Slack/Guests.antt =====
-- slackapp/guests.go: whether a conversation includes guests, with what is remembered of it. The
-- clock is read once for each question.
pub mod Laws
use open_trove.Base.{
  ℕ, zero, suc, ◌-◌, ◌*◌, ◌^◌, String, Bool, true, false, not, ◌&&◌, ◌||◌, ◌==◌, Option, none, some,
  List, [], ◌∷◌, any, filter, map, ltb, if◌then◌else◌, Error, Result, ok, err, plain, wrap,
}
use open_trove.Base.Text.{is_empty}
use open_trove.Base.Dict.{Dict, get, put}
use open_trove.Base.Exec.{Exec}
use open_trove.Slack.{User, Api}

abbrev pub minute : ℕ
minute = 60 * 10 ^ 9

abbrev pub guest_list_ttl : ℕ
guest_list_ttl = 60 * minute

abbrev pub channel_guest_ttl : ℕ
channel_guest_ttl = 10 * minute

abbrev pub max_member_pages : ℕ
max_member_pages = 10

pub record ChannelGuests : Type 0 where
  pub has : Bool
  pub at : ℕ

-- The set of guests is nil before the first list of users.
pub record Directory : Type 0 where
  pub guests : Option (List String)
  pub guests_at : ℕ
  pub channels : Dict ChannelGuests

unfoldable pub new_directory : Directory
new_directory = record { guests = none; guests_at = 0; channels = [] }

unfoldable pub is_guest : User → Bool
is_guest user = not user.deleted && (user.is_restricted || user.is_ultra_restricted)

-- The loop of refreshGuests.
unfoldable pub guest_ids : List User → List String
unfolding is_guest
guest_ids users = map (λ user. user.id) (filter is_guest users)

-- g.guests[id]
abbrev pub among : List String → String → Bool
among ids id = any (λ guest. guest == id) ids

abbrev pub known_guests : Directory → List String
known_guests g = elim g.guests [ none ↦ [] | some ids ↦ ids ]

-- The answer, with the reason if none could be found out.
abbrev pub Answer : Type 0
Answer = Bool × Option Error

module _ {S : Type 0} (api : Api S) where
  abbrev pub fresh_list : ℕ → Directory → Bool
  fresh_list now g = elim g.guests [
    | none ↦ false
    | some ids ↦ ltb (now - g.guests_at) guest_list_ttl
  ]

  abbrev listed : ℕ → Directory → Result (List User) → S → Result (Unit {0}) × Directory × S
  listed now g (err e) s = (err (wrap "listing users" e), g, s)
  listed now g (ok users) s =
      (ok tt, record { guests = some (guest_ids users); guests_at = now; channels = [] }, s)

  unfoldable pub refresh_guests : ℕ → Directory → S → Result (Unit {0}) × Directory × S
  unfolding guest_ids
  refresh_guests now g s =
      if fresh_list now g
      then (ok tt, g, s)
      else listed now g (api.get_users s).0 (api.get_users s).1

  abbrev pub paged :
      List String → Result (List String × String) → (String → S → Answer × S) → S → Answer × S
  paged guests (err e) next s = ((true, some (wrap "listing channel members" e)), s)
  paged guests (ok (members, cursor)) next s =
      if any (among guests) members
      then ((true, none), s)
      else if is_empty cursor
      then ((false, none), s)
      else next cursor s

  -- The loop of channelHasGuest, with the pages that it may still ask for.
  unfoldable pub member_pages : ℕ → List String → String → String → S → Answer × S
  member_pages zero guests channel cursor s =
      ((true, some (plain "channel has more than 10000 members")), s)
  member_pages (suc pages) guests channel cursor s =
      paged guests (api.get_users_in_conversation channel cursor s).0
        (member_pages pages guests channel) (api.get_users_in_conversation channel cursor s).1

  unfoldable pub channel_has_guest : List String → String → S → Answer × S
  unfolding member_pages
  channel_has_guest guests channel = member_pages max_member_pages guests channel ""

  -- An answer is remembered if no error came with it.
  abbrev pub remembered : ℕ → String → Directory → Answer × S → Answer × Directory × S
  remembered now channel g ((has, some e), s) = ((true, some e), g, s)
  remembered now channel g ((has, none), s) = (
    (has, none),
    record g { channels = put channel (record { has = has; at = now }) g.channels },
    s,
  )

  abbrev pub looked_up : ℕ → String → Result (Unit {0}) → Directory → S → Answer × Directory × S
  looked_up now channel (err e) g s = ((true, some e), g, s)
  looked_up now channel (ok _) g s =
      remembered now channel g (channel_has_guest (known_guests g) channel s)

  abbrev pub fresh_answer : ℕ → Option ChannelGuests → Option Bool
  fresh_answer now none = none
  fresh_answer now (some c) = if ltb (now - c.at) channel_guest_ttl then some c.has else none

  abbrev pub answered : ℕ → String → Option Bool → Directory → S → Answer × Directory × S
  answered now channel (some has) g s = ((has, none), g, s)
  answered now channel none g s =
      looked_up now channel (refresh_guests now g s).0 (refresh_guests now g s).1
        (refresh_guests now g s).2

  unfoldable pub has_guests : ℕ → String → Directory → S → Answer × Directory × S
  unfolding refresh_guests channel_has_guest
  has_guests now channel g s = answered now channel (fresh_answer now (get channel g.channels)) g s
