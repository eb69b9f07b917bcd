-- ===== src/Packets.antt =====
-- `FederationPacketHandler` of src/core/federationPacketHandler.js: subscriptions, typing, users that go offline, and
-- gossip. The children model the other packets.
mod Tests
pub mod Announce
pub mod Offline
pub mod Messages
pub mod Routes
pub mod Dispatch
pub mod Subscriptions
pub mod Quiet
use metrice.AddressHelper
use metrice.AddressHelper.{is_valid_node_id, mesh_of}
use metrice.Federation.{
  Config, Engine, User, Peering, ReverseTunnel, is_relay_node, foreign_endpoint, endpoint_of,
  note_peer, note_hearsay, remember,
}
use metrice.Federation.Packet.{
  Message, Packet, chat, channel_message, channel_subscribe, channel_unsubscribe, typing,
  user_offline, gossip_response, status, Consequence, write, send_packet, connect, send_via_onion,
  presence_change, emit_typing,
}
use metrice.JsMap
use metrice.PeerManager.{host_of}
use metrice.Presence.{refresh}
use metrice.Presence.Broadcast.{
  channels_of, is_usable_channel, pool_key_of, known_peers, ttl_or_five, user_name, write_where,
}
use metrice.Presence.Broadcast.Gossip.{self_node}
use metrice.Rendezvous.Edge.{add_text, remove_text}
use metrice.Base.{
  ℕ, Bool, true, false, not, ◌&&◌, ◌||◌, Option, none, some, List, [], ◌∷◌, ◌++◌, Str, codes,
  str_eq, str_eq_inst, starts_with, ends_with, has_char, includes, remove_first, to_lower, ltb,
  ◌==◌, if◌then◌else◌, length,
}
use metrice.Base.Number.{ℤ, decimal}

-- Where a packet came from: its channel, and `remotePeer`, which is empty if it is null
pub record Source : Type 0 where
  pub channel : Peering
  pub remote_peer : Str

-- The peer is the one that the packet came from, or has its host.
unfoldable pub is_source : Source → Str → Str → Bool
is_source from peer host =
    (not (length from.channel.peer_address == 0) && str_eq peer from.channel.peer_address)
    || (not (length from.remote_peer == 0)
        && (str_eq peer from.remote_peer || str_eq host (host_of from.remote_peer)))

-- The loop of a relay over the peers that it passes a packet on to
unfoldable pub pass_on :
    Config
    → Engine
    → Source
    → (Str → Str × ℤ → Bool)
    → (Str × ℤ → Consequence)
    → List Str
    → List Consequence
pass_on cfg e from is_skipped send [] = []
pass_on cfg e from is_skipped send (peer ∷ peers) =
    let rest = pass_on cfg e from is_skipped send peers in
    elim (foreign_endpoint cfg e peer) [
      | none ↦ rest
      | some at ↦ if is_source from peer at.0 || is_skipped peer at then rest else send at ∷ rest
    ]

-- The node that owns a channel, if its tunnel ends at this relay and can be written to
unfoldable pub tell_owner : Config → Str → Packet → Engine → List Consequence
tell_owner cfg name payload e =
    tell (is_relay_node e) (owner (AddressHelper.parse cfg.addresses name)) cfg payload e
  where
    owner : Option AddressHelper.Address → Option Str
    owner none = none
    owner (some a) = a.node_id

    tell : Bool → Option Str → Config → Packet → Engine → List Consequence
    tell false node_id cfg payload e = []
    tell true none cfg payload e = []
    tell true (some node_id) cfg payload e =
        if str_eq node_id cfg.node_id
        then []
        else write_where (λ key c. str_eq key node_id && c.is_writable) payload
            (channels_of e.tunnels)

unfoldable pub subscribers_of : Str → Engine → List Str
subscribers_of name e = elim (JsMap.get name e.subscribers) [ none ↦ [] | some nodes ↦ nodes ]

-- `handleChannelSubscribe(payload, channel)`
unfoldable pub handle_channel_subscribe :
    Config → ℕ → Source → Str → Str → Engine → Engine × List Consequence
handle_channel_subscribe cfg now from name node e =
    if (length name == 0) || (length node == 0) then (e, []) else (
      note_peer cfg now node true true (record e {
        subscribers = JsMap.set name (add_text node (subscribers_of name e)) e.subscribers;
      }),
      tell_owner cfg name (channel_subscribe name node) e
          ++ write from.channel.channel (status (codes "subscribed") name) ∷ [],
    )

-- `handleChannelUnsubscribe(payload, channel)`
unfoldable pub handle_channel_unsubscribe :
    Config → Source → Str → Str → Engine → Engine × List Consequence
handle_channel_unsubscribe cfg from name node e =
    if (length name == 0) || ((length node == 0) || not (JsMap.has name e.subscribers))
    then (e, [])
    else (
      record e {
        subscribers = JsMap.set name (remove_text node (subscribers_of name e)) e.subscribers;
      },
      tell_owner cfg name (channel_unsubscribe name node) e
          ++ write from.channel.channel (status (codes "unsubscribed") name) ∷ [],
    )

-- `users.get(address) || { channels: [] }`, seen at the time `now`
unfoldable pub seen_user : ℕ → Option User → User
seen_user now none = record { last_seen = now; channels = []; is_ssh = false; kem_key = [] }
seen_user now (some u) = record u { last_seen = now }

-- The sender of a packet: a user of another node
unfoldable pub is_remote_sender : Config → Str → Bool
is_remote_sender cfg sender =
    starts_with sender (codes "@")
    && elim (AddressHelper.parse cfg.addresses sender) [ none ↦ false | some a ↦ not a.is_local ]

-- `handleTyping(payload)`
unfoldable pub handle_typing : Config → ℕ → Str → Str → Engine → Engine × List Consequence
handle_typing cfg now sender receiver e = (
  if is_remote_sender cfg sender
      then record e { users = JsMap.set sender (seen_user now (JsMap.get sender e.users)) e.users }
      else e,
  emit_typing sender receiver ∷ [],
)

-- The user was seen after it went offline, so the news is old.
unfoldable pub is_newer : ℕ → User → Bool
is_newer timestamp u = ltb 0 timestamp && ltb timestamp u.last_seen

unfoldable pub is_stale_offline : ℕ → Option User → Bool
is_stale_offline timestamp none = false
is_stale_offline timestamp (some u) = is_newer timestamp u

-- What becomes of a user when one of the name `name` goes offline
unfoldable pub offline_now : Config → Str → ℕ → Str → User → Option User
offline_now cfg name timestamp address u =
    if str_eq (to_lower (user_name cfg address)) (to_lower name) && not (is_newer timestamp u)
    then none
    else some u

unfoldable pub without_user : Config → Str → ℕ → List (Str × User) → List (Str × User)
without_user cfg user timestamp users =
    let gone = JsMap.delete user users in
    if length (user_name cfg user) == 0
    then gone
    else refresh (offline_now cfg (user_name cfg user) timestamp) gone

-- What a relay passes on of it
unfoldable pub pass_offline_on : Config → Source → Packet → Engine → List Consequence
pass_offline_on cfg from payload e =
    if is_relay_node e
    then pass_on cfg e from (λ peer at. JsMap.has (pool_key_of at) e.pool)
        (λ at. connect at.0 at.1 payload) (known_peers e)
      ++ (write_where (λ key c. not (c.channel == from.channel.channel) && is_usable_channel c)
            payload e.pool
          ++ write_where (λ key c. not (c.channel == from.channel.channel) && c.is_writable) payload
              (channels_of e.tunnels))
    else []

-- `${payload.user}:${offlineTs}`
unfoldable pub offline_key : Str → ℕ → Str
offline_key user timestamp = user ++ (codes ":" ++ decimal timestamp)

-- `handleUserOffline(payload, channel, remotePeer)` from the node at `address`
unfoldable pub handle_user_offline :
    Config → Source → Str → Str → ℕ → Engine → Engine × List Consequence
handle_user_offline cfg from [] address timestamp e = (e, [])
handle_user_offline cfg from (c ∷ user) address timestamp e =
    let ack = write from.channel.channel (status (codes "ack") (c ∷ user)) in
    let users = without_user cfg (c ∷ user) timestamp e.users in
    let next = record e { users = users } in
    let change = if length users == length e.users then [] else presence_change ∷ [] in
    if is_stale_offline timestamp (JsMap.get (c ∷ user) e.users)
    then (e, ack ∷ [])
    else if includes e.seen_offline (offline_key (c ∷ user) timestamp)
    then (next, change ++ ack ∷ [])
    else (
      record next { seen_offline = remember (offline_key (c ∷ user) timestamp) e.seen_offline },
      change
          ++ (pass_offline_on cfg from (user_offline (c ∷ user) address timestamp) next
              ++ ack ∷ []),
    )

-- `handleGossipDiscovery(payload, channel)` with a sample of the pool
unfoldable pub handle_gossip_discovery :
    Config → ℕ → Source → List Str → Str → List Str → Engine → Engine × List Consequence
handle_gossip_discovery cfg now from sample node peers e = (
  note_hearsay cfg now (node ∷ peers) e,
  write from.channel.channel (gossip_response (self_node cfg e) sample) ∷ [],
)

-- One subscriber of a channel: a host and a port, or a node of the mesh
unfoldable pub to_subscriber : Packet → Str → List Consequence
to_subscriber payload peer =
    if has_char b':' peer
    then elim (endpoint_of peer) [ none ↦ [] | some at ↦ send_packet at.0 at.1 payload ∷ [] ]
    else if is_valid_node_id peer || ends_with peer (codes ".mesh")
    then send_via_onion (remove_first (codes ".mesh") peer) payload ∷ []
    else []

unfoldable pub to_subscribers : Packet → Str → List Str → List Consequence
to_subscribers payload except [] = []
to_subscribers payload except (peer ∷ peers) =
    let rest = to_subscribers payload except peers in
    if str_eq peer except then rest else to_subscriber payload peer ++ rest

-- `exceptPeer && test`
unfoldable pub is_except : Str → Bool → Bool
is_except except test = not (length except == 0) && test

-- `forwardToChannelSubscribers(channelName, msg, exceptPeer)`
unfoldable pub forward_to_channel_subscribers : Str → Message → Str → Engine → List Consequence
forward_to_channel_subscribers name msg except e =
    let payload = chat channel_message (record msg { ttl = ttl_or_five msg.ttl }) in
    to_subscribers payload except (subscribers_of name e)
    ++ (write_where
          (λ key c.
            not (is_except except (str_eq key except || str_eq (mesh_of key) except))
            && c.is_writable)
          payload (channels_of e.tunnels)
        ++ write_where
            (λ key c.
              not (is_except except (str_eq key except || str_eq (host_of key) (host_of except)))
              && c.is_writable)
            payload e.relays)
