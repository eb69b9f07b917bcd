-- ===== src/Packets/Offline.antt =====
-- Which users are left behind `handleUserOffline` of src/core/federationPacketHandler.js.
use metrice.Base.{
  ℕ, ◌<◌, true, false, ◌&&◌, ◌||◌, ◌≡◌, refl, ap, ◌∙◌, arith, Option, none, some, List, [], ◌∷◌,
  Str, codes, str_eq, str_eq_inst, str_eq_ne, includes, to_lower, length, leb, ◌==◌, if◌then◌else◌,
  if-cases, if-false, if-true, some-is,
}
use metrice.Federation.{Config, Engine, User}
use metrice.Federation.Packet.{Consequence, write, status}
use metrice.JsMap
use metrice.JsMap.Laws.{Distinct, Distinct-delete, get-delete_self, get-delete_ne}
use metrice.Packets.{
  Source, handle_user_offline, is_newer, is_stale_offline, offline_key, offline_now, without_user,
}
use metrice.Presence.Broadcast.{user_name}
use metrice.Presence.Refresh.{get-refresh}

offline-users :
    (cfg : Config) (from : Source) (c : ℕ) (user address : Str) (timestamp : ℕ) (e : Engine)
    → is_stale_offline timestamp (JsMap.get (c ∷ user) e.users) ≡ false
    → (handle_user_offline cfg from (c ∷ user) address timestamp e).0.users
      ≡ without_user cfg (c ∷ user) timestamp e.users
unfolding handle_user_offline
offline-users cfg from c user address timestamp e fresh =
    ap (λ (r : Engine × List Consequence). r.0.users) (if-false _ fresh)
    ∙ if-cases
        (λ (r : Engine × List Consequence).
          r.0.users ≡ without_user cfg (c ∷ user) timestamp e.users)
        (includes e.seen_offline (offline_key (c ∷ user) timestamp)) (λ _. refl) (λ _. refl)

offline_now_lem :
    (cfg : Config) (name : Str) (timestamp : ℕ) (a : Str) (u : User)
    → offline_now cfg name timestamp a u ≡ (
        if str_eq (to_lower (user_name cfg a)) (to_lower name)
          && ((timestamp == 0) || leb u.last_seen timestamp)
        then none
        else some u)
unfolding offline_now is_newer
offline_now_lem cfg name timestamp a u = ground arith

get-without :
    (cfg : Config) (user : Str) (timestamp : ℕ) (users : List (Str × User)) (a : Str) (u : User)
    → (length (user_name cfg user) == 0) ≡ false
    → Distinct users
    → str_eq user a ≡ false
    → JsMap.get a users ≡ some u
    → JsMap.get a (without_user cfg user timestamp users)
      ≡ offline_now cfg (user_name cfg user) timestamp a u
unfolding without_user
get-without cfg user timestamp users a u named d other h =
    ap (JsMap.get a) (if-false _ named)
    ∙ (get-refresh (offline_now cfg (user_name cfg user) timestamp) a (JsMap.delete user users)
          (Distinct-delete user users d)
        ∙ some-is _ _ (get-delete_ne user a users (str_eq_ne user a other) ∙ h))

get-without_self :
    (cfg : Config) (user : Str) (timestamp : ℕ) (users : List (Str × User))
    → (length (user_name cfg user) == 0) ≡ false
    → Distinct users
    → JsMap.get user (without_user cfg user timestamp users) ≡ none
unfolding without_user
get-without_self cfg user timestamp users named d =
    ap (JsMap.get user) (if-false _ named)
    ∙ (get-refresh (offline_now cfg (user_name cfg user) timestamp) user (JsMap.delete user users)
          (Distinct-delete user users d)
        ∙ ap
            (λ (o : Option User). elim o [
              | none ↦ none
              | some v ↦ offline_now cfg (user_name cfg user) timestamp user v
            ])
            (get-delete_self user users d))

-- A user with a name goes offline at a time before which it was last seen, or at no time. It is gone from the users that are online. Another
-- user is gone exactly if it has the same name, whatever the case of its letters, and was not seen later than that time, if one is given; else its entry stays as it is.
pub offline_exact :
    (cfg : Config) (from : Source) (c : ℕ) (user address : Str) (timestamp : ℕ) (e : Engine)
    (a : Str) (u : User)
    → (length (user_name cfg (c ∷ user)) == 0) ≡ false
    → Distinct e.users
    → is_stale_offline timestamp (JsMap.get (c ∷ user) e.users) ≡ false
    → str_eq (c ∷ user) a ≡ false
    → JsMap.get a e.users ≡ some u
    → (JsMap.get (c ∷ user) (handle_user_offline cfg from (c ∷ user) address timestamp e).0.users
        ≡ none)
      × (JsMap.get a (handle_user_offline cfg from (c ∷ user) address timestamp e).0.users ≡ (
          if str_eq (to_lower (user_name cfg a)) (to_lower (user_name cfg (c ∷ user)))
            && ((timestamp == 0) || leb u.last_seen timestamp)
          then none
          else some u))
offline_exact cfg from c user address timestamp e a u named d fresh other h =
    let users = offline-users cfg from c user address timestamp e fresh in
    (
      ap (JsMap.get (c ∷ user)) users ∙ get-without_self cfg (c ∷ user) timestamp e.users named d,
      ap (JsMap.get a) users
          ∙ (get-without cfg (c ∷ user) timestamp e.users a u named d other h
              ∙ offline_now_lem cfg (user_name cfg (c ∷ user)) timestamp a u),
    )

-- News that a user went offline is only acknowledged, and changes nothing, if the user was seen later.
pub stale_offline :
    (cfg : Config) (from : Source) (c : ℕ) (user address : Str) (timestamp : ℕ) (e : Engine)
    (u : User)
    → JsMap.get (c ∷ user) e.users ≡ some u
    → 0 < timestamp
    → timestamp < u.last_seen
    → handle_user_offline cfg from (c ∷ user) address timestamp e
      ≡ (e, write from.channel.channel (status (codes "ack") (c ∷ user)) ∷ [])
unfolding handle_user_offline
stale_offline cfg from c user address timestamp e u h given later =
    let newer : is_newer timestamp u ≡ true = unfold is_newer in ground arith in
    if-true _ (ap (is_stale_offline timestamp) h ∙ (unfold is_stale_offline in newer))
