-- ===== src/Presence/Broadcast.antt =====
-- What `PresenceManager` of src/core/presenceManager.js sends to other nodes.
pub mod Once
pub mod Gossip
use metrice.AddressHelper
use metrice.Federation.{
  Config, Engine, User, Peering, ReverseTunnel, is_relay_node, endpoint_of, foreign_endpoint,
}
use metrice.Federation.Packet.{
  Announce, RouteUpdate, Message, Packet, announce, route_update, chat, channel_message,
  user_offline, Consequence, write, send_packet, connect, presence_change, upsert_route,
  update_text,
}
use metrice.JsMap
use metrice.PeerManager
use metrice.PeerManager.{host_of}
use metrice.Presence.{LocalState, create_announce, name_or, refresh}
use metrice.Rendezvous.{Presence}
use metrice.Base.{
  zero, suc, ℕ, ◌+◌, Bool, true, false, not, ◌&&◌, ◌||◌, Option, none, some, List, [], ◌∷◌, ◌++◌,
  Str, codes, str_eq, str_eq_inst, strip_prefix, to_lower, ◌==◌, if◌then◌else◌, length, map,
}
use metrice.Base.Number.{ℤ, pos, negsuc, decimal}

-- `${host}:${port}`
unfoldable pub int_text : ℤ → Str
int_text (pos n) = decimal n
int_text (negsuc n) = b'-' ∷ decimal (1 + n)

unfoldable pub pool_key_of : Str × ℤ → Str
pool_key_of (host, port) = host ++ (codes ":" ++ int_text port)

unfoldable pub channels_of : List (Str × ReverseTunnel) → List (Str × Peering)
channels_of tunnels = map (λ entry. (entry.0, entry.1.channel)) tunnels

-- `peerManager.getAllPeers()`
unfoldable pub known_peers : Engine → List Str
known_peers e = PeerManager.all_peers e.peers.peers

-- `channel.isReady && channel.socket.writable`
unfoldable pub is_usable_channel : Peering → Bool
is_usable_channel c = c.is_ready && c.is_writable

unfoldable pub is_written : ℕ → List ℕ → Bool
is_written c [] = false
is_written c (d ∷ written) = (d == c) || is_written c written

-- A loop that writes to the usable channels that are not in `writtenChannels`
unfoldable pub write_once : Packet → List (Str × Peering) → List ℕ → List ℕ × List Consequence
write_once payload [] written = (written, [])
write_once payload ((key, c) ∷ channels) written =
    let fresh = is_usable_channel c && not (is_written c.channel written) in
    let (last, effects) =
      write_once payload channels (if fresh then written ++ c.channel ∷ [] else written) in
    (last, if fresh then write c.channel payload ∷ effects else effects)

-- The peers that are dialed: those with no channel in the pool
unfoldable pub dial_peers : Config → Engine → Packet → List Str → List Consequence
dial_peers cfg e payload [] = []
dial_peers cfg e payload (peer ∷ peers) =
    let rest = dial_peers cfg e payload peers in
    elim (foreign_endpoint cfg e peer) [
      | none ↦ rest
      | some at ↦
          if JsMap.has (pool_key_of at) e.pool then rest else connect at.0 at.1 payload ∷ rest
    ]

-- The channels of the node in the order of the three loops
unfoldable pub all_channels : Engine → List (Str × Peering)
all_channels e = e.pool ++ (e.relays ++ channels_of e.tunnels)

unfoldable pub own_presence : Announce → Presence
own_presence a = record {
  role = a.role;
  rendezvous_nodes = a.rendezvous_nodes;
  kem_key = a.kem_key;
  identity_key = a.identity_key;
  channels = a.channels;
  last_seen = a.timestamp;
}

-- `broadcastPresenceAnnounce()`. The route that the database gets has no channels. A peer that is dialed gets the payload
-- only if its channel was not written to before.
unfoldable pub broadcast_presence_announce :
    Config → ℕ → LocalState → Engine → Engine × List Consequence
broadcast_presence_announce cfg now state e =
    let (next, a) = create_announce cfg now state e in
    (
      record next { table = JsMap.set cfg.node_id (own_presence a) next.table },
      upsert_route cfg.node_id (record (own_presence a) { channels = [] })
          ∷ ((write_once (announce a) (all_channels e) []).1
              ++ (if is_relay_node e then dial_peers cfg e (announce a) (known_peers e) else [])),
    )

-- The writes to the channels that pass a test
unfoldable pub write_where :
    (Str → Peering → Bool) → Packet → List (Str × Peering) → List Consequence
write_where test payload [] = []
write_where test payload ((key, c) ∷ channels) =
    let rest = write_where test payload channels in
    if test key c then write c.channel payload ∷ rest else rest

-- `sendPacket` to the peers that pass a test
unfoldable pub send_where : (Str → Bool) → Packet → List Str → List Consequence
send_where test payload [] = []
send_where test payload (peer ∷ peers) =
    let rest = send_where test payload peers in
    elim (endpoint_of peer) [
      | none ↦ rest
      | some at ↦ if test peer then send_packet at.0 at.1 payload ∷ rest else rest
    ]

unfoldable pub signed_update : Config → ℕ → Str → Str → Str → Str → RouteUpdate
signed_update cfg now node_id address kem_key identity_key =
    let bare : RouteUpdate = record {
      node_id = node_id;
      role = codes "EDGE";
      rendezvous_nodes = address ∷ [];
      kem_key = kem_key;
      identity_key = identity_key;
      relay_node_id = cfg.node_id;
      relay_address = address;
      relay_kem_key = cfg.kem_public;
      relay_identity_key = cfg.identity_public;
      timestamp = now;
      sig = [];
    } in
    record bare { sig = cfg.sign (update_text bare) cfg.identity_private }

-- `broadcastRouteUpdate(nodeId, rendezvousAddr, kemPublicKey, identityPublicKey)`
unfoldable pub announce_route_update :
    Config → ℕ → Str → Str → Str → Str → Engine → List Consequence
announce_route_update cfg now node_id address kem_key identity_key e =
    let payload = route_update (signed_update cfg now node_id address kem_key identity_key) in
    send_where (λ _. true) payload (known_peers e)
    ++ (write_where (λ _ c. c.is_writable) payload e.relays
        ++ write_where (λ key c. not (str_eq key node_id) && c.is_writable) payload
            (channels_of e.tunnels))

unfoldable pub update_tunnels : Config → ℕ → List (Str × ReverseTunnel) → Engine → List Consequence
update_tunnels cfg now [] e = []
update_tunnels cfg now ((node_id, t) ∷ tunnels) e =
    let rest = update_tunnels cfg now tunnels e in
    if length t.bound_address == 0
    then rest
    else announce_route_update cfg now node_id t.bound_address t.edge_kem_key t.identity_key e
      ++ rest

-- `broadcastPresence()`
unfoldable pub broadcast_own_presence : Config → ℕ → LocalState → Engine → Engine × List Consequence
broadcast_own_presence cfg now state e =
    let (next, effects) = broadcast_presence_announce cfg now state e in
    (next, effects ++ (if is_relay_node e then update_tunnels cfg now e.tunnels e else []))

-- The name of a user: the one that the address gives, or else the part in front of the colon
unfoldable pub user_name : Config → Str → Str
user_name cfg address =
    name_or (strip_prefix (codes "@") (host_of address)) (AddressHelper.parse cfg.addresses address)

-- `users` without those of a name
unfoldable pub drop_name : Config → Str → List (Str × User) → List (Str × User)
drop_name cfg name users =
    refresh
      (λ address u.
        if str_eq (to_lower (user_name cfg address)) (to_lower name) then none else some u)
      users

unfoldable pub connect_all : Packet → List Str → List Consequence
connect_all payload [] = []
connect_all payload (peer ∷ peers) =
    let rest = connect_all payload peers in
    elim (endpoint_of peer) [ none ↦ rest | some at ↦ connect at.0 at.1 payload ∷ rest ]

-- `broadcastUserOffline(userAddress)`
unfoldable pub broadcast_user_offline : Config → ℕ → Str → Engine → Engine × List Consequence
broadcast_user_offline cfg now [] e = (e, [])
broadcast_user_offline cfg now (c ∷ address) e =
    let name = user_name cfg (c ∷ address) in
    let gone = JsMap.delete (c ∷ address) e.users in
    let payload = user_offline (c ∷ address) e.node_address now in
    (
      record e { users = if length name == 0 then gone else drop_name cfg name gone },
      presence_change
          ∷ (connect_all payload (known_peers e)
              ++ (write_where (λ _ ch. is_usable_channel ch) payload e.pool
                  ++ (write_where (λ _ ch. ch.is_writable) payload (channels_of e.tunnels)
                      ++ write_where (λ _ ch. ch.is_writable) payload e.relays))),
    )

-- `msg.ttl || 5`
unfoldable pub ttl_or_five : ℤ → ℤ
ttl_or_five (pos zero) = pos 5
ttl_or_five (pos (suc n)) = pos (suc n)
ttl_or_five (negsuc n) = negsuc n

unfoldable pub is_excepted : Str → Str → Peering → Bool
is_excepted except key c =
    not (length except == 0)
    && (str_eq key except || (str_eq c.remote except || str_eq c.peer_address except))

-- `broadcastChannelMessage(msg, exceptPeer)`; an `exceptPeer` that is null is empty.
unfoldable pub broadcast_channel_message : Message → Str → Engine → List Consequence
broadcast_channel_message msg except e =
    let payload = chat channel_message (record msg { ttl = ttl_or_five msg.ttl }) in
    send_where (λ peer. not (str_eq peer except)) payload (known_peers e)
    ++ (write_where (λ _ c. c.is_writable && not (is_excepted except [] c)) payload
          (channels_of e.tunnels)
        ++ write_where (λ key c. not (is_excepted except key c) && (c.is_ready && c.is_writable))
            payload e.relays)
