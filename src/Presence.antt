-- ===== src/Presence.antt =====
-- `PresenceManager` of src/core/presenceManager.js: who is online, and what the node says of itself.
mod Tests
pub mod Broadcast
pub mod Expiry
pub mod Online
pub mod Refresh
use metrice.AddressHelper
use metrice.AddressHelper.{Address, is_global_channel}
use metrice.Federation.{
  Config, Engine, User, ReverseTunnel, is_relay_node, is_local_name, ttl_of, safe_addresses,
  relays_role,
}
use metrice.Federation.Packet.{Member, Announce, Consequence, announce_text}
use metrice.JsMap
use metrice.PeerManager.{host_of, pub_port}
use metrice.Rendezvous.{Presence, at_port}
use metrice.Rendezvous.Edge.{add_text}
use metrice.SecureChannel.{or_else}
use metrice.Base.{
  ℕ, ◌-◌, ◌*◌, Bool, true, false, not, ◌&&◌, ◌||◌, Option, none, some, List, [], ◌∷◌, ◌++◌, Str,
  codes, str_eq, str_eq_inst, starts_with, ends_with, strip_prefix, remove_first, includes,
  to_lower, ltb, leb, ◌==◌, if◌then◌else◌, length, map,
}

-- What `getLocalStateFn` tells of the clients of this node
pub record LocalState : Type 0 where
  pub users : List Str
  pub channels : List Str
  pub memberships : List Member

-- A loop over the entries of a map that changes or deletes the entry that it is at
unfoldable pub refresh : {V : Type 0} → (Str → V → Option V) → List (Str × V) → List (Str × V)
refresh change [] = []
refresh change ((k, v) ∷ m) =
    let rest = refresh change m in elim (change k v) [ none ↦ rest | some w ↦ (k, w) ∷ rest ]

-- `s.includes(p)` for a text `p`
unfoldable pub has_text : Str → Str → Bool
has_text p [] = starts_with [] p
has_text p (c ∷ s) = starts_with (c ∷ s) p || has_text p s

unfoldable pub add_channels : Config → List Str → List Str → List Str
add_channels cfg [] found = found
add_channels cfg (c ∷ channels) found =
    add_channels cfg channels
      (add_text (if is_global_channel c then cfg.default_channel else c) found)

unfoldable pub add_memberships : Config → List Member → List Str → List Str
add_memberships cfg [] found = found
add_memberships cfg (m ∷ members) found =
    add_memberships cfg members (add_channels cfg m.channels found)

-- `getLocalChannels()`
unfoldable pub get_local_channels : Config → LocalState → List Str
get_local_channels cfg state =
    add_memberships cfg state.memberships
      (add_channels cfg state.channels (cfg.default_channel ∷ []))

-- `getRelayAnnounceAddress()`
unfoldable pub get_relay_announce_address : Config → Engine → Str
get_relay_announce_address cfg e =
    if is_local_name cfg.pool_env.server_name && not (length e.public_ip == 0)
    then at_port e.public_ip (pub_port cfg.pool_env)
    else at_port (or_else cfg.pool_env.server_name (codes "127.0.0.1")) (pub_port cfg.pool_env)

-- `if (now - data.lastSeen < 0) data.lastSeen = now`
unfoldable pub clamp : ℕ → User → User
clamp now u = if ltb now u.last_seen then record u { last_seen = now } else u

unfoldable pub clamp_users : ℕ → List (Str × User) → List (Str × User)
clamp_users now users = refresh (λ k u. some (clamp now u)) users

unfoldable pub is_active : Config → ℕ → User → Bool
is_active cfg now u = ltb (now - u.last_seen) (ttl_of cfg)

unfoldable pub active_users : Config → ℕ → List (Str × User) → List Str
active_users cfg now [] = []
active_users cfg now ((address, u) ∷ users) =
    let rest = active_users cfg now users in
    if is_active cfg now (clamp now u) then address ∷ rest else rest

-- `u.split(':')[0].replace('@', '').toLowerCase()`
unfoldable pub nick_key : Str → Str
nick_key u = to_lower (remove_first (codes "@") (host_of u))

unfoldable pub is_mesh : Str → Bool
is_mesh u = ends_with u (codes ".mesh")

-- One round of the loop that keeps one address per name: a later address of the mesh replaces any.
unfoldable pub note_user : Str → List (Str × Str) → List (Str × Str)
note_user u by_nick = elim (JsMap.get (nick_key u) by_nick) [
  | none ↦ JsMap.set (nick_key u) u by_nick
  | some existing ↦
      if (length existing == 0)
        || ((not (is_mesh existing) && is_mesh u) || (is_mesh existing && is_mesh u))
      then JsMap.set (nick_key u) u by_nick
      else by_nick
]

unfoldable pub note_users : List Str → List (Str × Str) → List (Str × Str)
note_users [] by_nick = by_nick
note_users (u ∷ users) by_nick = note_users users (note_user u by_nick)

-- `getAllOnlineUsers()`
unfoldable pub get_all_online_users : Config → ℕ → LocalState → Engine → Engine × List Str
get_all_online_users cfg now state e = (
  record e { users = clamp_users now e.users },
  map (λ entry. entry.1) (note_users (state.users ++ active_users cfg now e.users) []),
)

unfoldable pub members_of : Config → ℕ → Str → List (Str × User) → List Str
members_of cfg now name [] = []
members_of cfg now name ((address, u) ∷ users) =
    let rest = members_of cfg now name users in
    if is_active cfg now (clamp now u) && (is_global_channel name || includes u.channels name)
    then address ∷ rest
    else rest

-- `getChannelMembers(channelName)`
unfoldable pub get_channel_members : Config → ℕ → Str → Engine → Engine × List Str
get_channel_members cfg now name e =
    (record e { users = clamp_users now e.users }, members_of cfg now name e.users)

-- The name that an address gives, or else `fallback`
unfoldable pub name_or : Str → Option Address → Str
name_or fallback none = fallback
name_or fallback (some a) = or_else a.name fallback

unfoldable pub security_nick : Config → Str → Str
security_nick cfg address =
    name_or (remove_first (codes "@") (host_of address)) (AddressHelper.parse cfg.addresses address)

unfoldable pub find_by_nick : Config → Str → List (Str × User) → Option User
find_by_nick cfg nick [] = none
find_by_nick cfg nick ((address, u) ∷ users) =
    let rest = find_by_nick cfg nick users in
    if str_eq (security_nick cfg address) nick then some u else rest

unfoldable pub find_user : Config → Str → List (Str × User) → Option User
find_user cfg address users = elim (JsMap.get address users) [
  | some u ↦ some u
  | none ↦
      if length (security_nick cfg address) == 0
      then none
      else find_by_nick cfg (security_nick cfg address) users
]

-- `getRemoteUserSecurity(userAddress)`: `isSsh` and the key. `profile_key` is the key of the profile that the
-- database holds, or empty.
unfoldable pub get_remote_user_security : Config → (Str → Str) → Str → Engine → Option (Bool × Str)
get_remote_user_security cfg profile_key [] e = none
get_remote_user_security cfg profile_key (c ∷ address) e =
    elim (find_user cfg (c ∷ address) e.users) [
      | some u ↦ some (u.is_ssh, u.kem_key)
      | none ↦
          if length (profile_key (c ∷ address)) == 0
          then none
          else some (true, profile_key (c ∷ address))
    ]

-- `userAddr.includes(`:${tNodeId}.mesh`)`
unfoldable pub is_behind : Str → Str → Bool
is_behind node_id address = has_text (codes ":" ++ AddressHelper.mesh_of node_id) address

unfoldable pub is_tunneled : List (Str × ReverseTunnel) → Str → Bool
is_tunneled [] address = false
is_tunneled ((node_id, t) ∷ tunnels) address =
    is_behind node_id address || is_tunneled tunnels address

unfoldable pub is_member : Str → List Member → Bool
is_member address [] = false
is_member address (m ∷ members) = str_eq m.user address || is_member address members

-- The users behind one tunnel that are no members yet
unfoldable pub add_tunneled : Str → List (Str × User) → List Member → List Member
add_tunneled node_id [] members = members
add_tunneled node_id ((address, u) ∷ users) members = add_tunneled node_id users (
    if is_behind node_id address && not (is_member address members)
    then members
      ++ record { user = address; channels = u.channels; is_ssh = u.is_ssh; kem_key = u.kem_key }
        ∷ []
    else members)

unfoldable pub add_all_tunneled :
    List (Str × ReverseTunnel) → List (Str × User) → List Member → List Member
add_all_tunneled [] users members = members
add_all_tunneled ((node_id, t) ∷ tunnels) users members =
    add_all_tunneled tunnels users (add_tunneled node_id users members)

-- `uData.lastSeen = Date.now()` for the users behind a tunnel
unfoldable pub touch_tunneled : ℕ → Engine → List (Str × User)
touch_tunneled now e =
    refresh
      (λ address u.
        some (if is_tunneled e.tunnels address then record u { last_seen = now } else u))
      e.users

-- The relays of an announcement
unfoldable pub announced_relays : Config → Engine → List Str
announced_relays cfg e =
    if is_relay_node e then get_relay_announce_address cfg e ∷ [] else safe_addresses cfg e.bound

-- `createPresenceAnnouncePayload()`
unfoldable pub create_announce : Config → ℕ → LocalState → Engine → Engine × Announce
create_announce cfg now state e = (
  if is_relay_node e then record e { users = touch_tunneled now e } else e,
  record {
    node_id = cfg.node_id;
    role = e.role;
    rendezvous_nodes = announced_relays cfg e;
    kem_key = cfg.kem_public;
    identity_key = cfg.identity_public;
    channels = get_local_channels cfg state;
    memberships =
        if is_relay_node e
        then add_all_tunneled e.tunnels e.users state.memberships
        else state.memberships;
    timestamp = now;
    sig =
        cfg.sign
          (announce_text cfg.node_id e.role (announced_relays cfg e) cfg.kem_public
            (get_local_channels cfg state) now)
          cfg.identity_private;
    is_bilateral_reply = false;
    relay_announce_address = [];
  },
)
