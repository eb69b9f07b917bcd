-- ===== src/Packets/Messages.antt =====
-- `handleDirectOrChannelMessage` of src/core/federationPacketHandler.js.
pub mod Once
pub mod Hops
use metrice.AddressHelper
use metrice.AddressHelper.{Address, mesh_raw}
use metrice.Federation.{
  Config, Engine, User, Peering, endpoint_of, is_hearsay, is_relay_node, note_peer,
}
use metrice.Federation.Packet.{
  Chat, Message, Packet, chat, status, Consequence, write, send_packet, presence_change,
  emit_message, upsert_route,
}
use metrice.JsMap
use metrice.MessageTtlCache
use metrice.Packets.{Source, seen_user, forward_to_channel_subscribers}
use metrice.PeerManager.{host_of}
use metrice.Presence.Broadcast.{
  broadcast_channel_message, channels_of, is_usable_channel, pool_key_of, known_peers, ttl_or_five,
  write_where,
}
use metrice.Rendezvous.{Presence, at_port}
use metrice.Rendezvous.Edge.{add_text}
use metrice.Base.Number.{int_lt, plus_one}
use metrice.Base.{
  ℕ, suc, ◌+◌, Bool, true, false, not, ◌&&◌, ◌||◌, Option, none, some, List, [], ◌∷◌, ◌++◌, Str,
  codes, str_eq, str_eq_inst, starts_with, ends_with, has_char, includes, ltb, ◌==◌, if◌then◌else◌,
  length,
}

-- `incomingRelayAddr`, which is empty if it is null
unfoldable pub incoming_relay : Source → Str
incoming_relay from =
    if not (length from.channel.peer_address == 0)
      && not (ends_with from.channel.peer_address (codes ".mesh"))
    then from.channel.peer_address
    else if ends_with from.remote_peer (codes ".mesh")
    then []
    else from.remote_peer

-- `pRec` with the time, and with the relay that the message came from if it is new
unfoldable pub refreshed : ℕ → Str → Presence → Presence
refreshed now relay p = record p {
  last_seen = now;
  rendezvous_nodes =
      if (length relay == 0) || includes p.rendezvous_nodes relay
      then p.rendezvous_nodes
      else p.rendezvous_nodes ++ relay ∷ [];
}

unfoldable pub is_new_relay : Str → Presence → Bool
is_new_relay relay p = not ((length relay == 0) || includes p.rendezvous_nodes relay)

unfoldable pub bare_presence : ℕ → Str → Presence
bare_presence now relay = record {
  role = codes "EDGE";
  rendezvous_nodes = relay ∷ [];
  kem_key = [];
  identity_key = [];
  channels = [];
  last_seen = now;
}

-- What is learned of the route to a node that a message came from: from an entry of the presence table, else from a route of
-- the database, else a new one
unfoldable pub learn_route :
    Config
    → ℕ
    → Str
    → Str
    → Option Presence
    → Option Presence
    → List (Str × Presence)
    → List (Str × Presence) × List Consequence
learn_route cfg now relay node_id (some p) route table = (
  JsMap.set node_id (refreshed now relay p) table,
  if is_new_relay relay p then upsert_route node_id (refreshed now relay p) ∷ [] else [],
)
learn_route cfg now relay node_id none (some p) table =
    if is_new_relay relay p
    then (
      JsMap.set node_id (refreshed now relay p) table,
      upsert_route node_id (refreshed now relay p) ∷ [],
    )
    else (table, [])
learn_route cfg now relay node_id none none table =
    if (length relay == 0) || str_eq node_id cfg.node_id then (table, []) else (
      JsMap.set node_id (bare_presence now relay) table,
      upsert_route node_id (bare_presence now relay) ∷ [],
    )

-- `remoteOnlineUsers.get(a) || remoteOnlineUsers.get(b)`
unfoldable pub either_user : Option User → Option User → Option User
either_user (some u) other = some u
either_user none other = other

-- The sender is online, under its address and under the one that the node prints.
unfoldable pub seen_sender : ℕ → Str → Str → List (Str × User) → List (Str × User)
seen_sender now canonical sender users =
    let user = seen_user now (either_user (JsMap.get canonical users) (JsMap.get sender users)) in
    let first = JsMap.set canonical user users in
    if str_eq canonical sender then first else JsMap.set sender user first

-- The node of an address, if it is not empty
unfoldable pub node_of : Address → Option Str
node_of p = elim p.node_id [
  | none ↦ none
  | some node_id ↦ if length node_id == 0 then none else some node_id
]

-- A sender on a node of the mesh, or at a host and a port
unfoldable pub learn_sender :
    Config
    → ℕ
    → (Str → Option Presence)
    → Source
    → Str
    → Address
    → Engine
    → Engine × List Consequence
learn_sender cfg now route from sender p e = elim (node_of p) [
  | some node_id ↦
      let (table, effects) =
        learn_route cfg now (incoming_relay from) node_id (JsMap.get node_id e.table)
          (route node_id) e.table in
      (
        record e {
          users = seen_sender now (mesh_raw AddressHelper.Kind.user p.name node_id) sender e.users;
          table = table;
        },
        effects ++ presence_change ∷ [],
      )
  | none ↦
      let seen = record e { users = seen_sender now sender sender e.users } in
      (
        elim p.host [
          | none ↦ seen
          | some host ↦ elim p.port [
            | none ↦ seen
            | some port ↦
                if (length host == 0) || (port == 0)
                then seen
                else note_peer cfg now (at_port host port) true true seen
          ]
        ],
        presence_change ∷ [],
      )
]

unfoldable pub note_sender :
    Config
    → ℕ
    → (Str → Option Presence)
    → Source
    → Str
    → Option Address
    → Engine
    → Engine × List Consequence
note_sender cfg now route from sender none e = (e, [])
note_sender cfg now route from sender (some p) e =
    if starts_with sender (codes "@") && not p.is_local
    then learn_sender cfg now route from sender p e
    else (e, [])

-- `candidatePeers`: the addresses that other nodes can be dialed at
unfoldable pub candidates : Config → Engine → List Str → List Str → List Str
candidates cfg e [] found = found
candidates cfg e (address ∷ addresses) found = candidates cfg e addresses (
    if is_hearsay cfg e address
    then elim (endpoint_of address) [ none ↦ found | some at ↦ add_text (pool_key_of at) found ]
    else found)

unfoldable pub or_peers : Config → Engine → List Str → List Str
or_peers cfg e (c ∷ found) = c ∷ found
or_peers cfg e [] = candidates cfg e (known_peers e) []

-- The candidate is the address, or has its host.
unfoldable pub is_same_peer : Str → Str → Bool
is_same_peer address peer =
    not (length address == 0) && (str_eq peer address || str_eq (host_of peer) (host_of address))

-- The payload goes over the channel of the pool if it can be used, and else by `sendPacket`.
unfoldable pub to_candidates : Engine → Source → Packet → List Str → List Consequence
to_candidates e from payload [] = []
to_candidates e from payload (peer ∷ peers) =
    let rest = to_candidates e from payload peers in
    if is_same_peer from.remote_peer peer || is_same_peer from.channel.peer_address peer
    then rest
    else elim (endpoint_of peer) [
      | none ↦ rest
      | some at ↦ elim (JsMap.get peer e.pool) [
        | none ↦ send_packet at.0 at.1 payload ∷ rest
        | some c ↦
            if is_usable_channel c
            then write c.channel payload ∷ rest
            else send_packet at.0 at.1 payload ∷ rest
      ]
    ]

unfoldable pub relays_to : Option Presence → Option Presence → List Str
relays_to (some p) route = p.rendezvous_nodes
relays_to none (some p) = p.rendezvous_nodes
relays_to none none = []

-- The transit of a direct message to another node: through its tunnel, or from relay to relay
unfoldable pub transit :
    Config → (Str → Option Presence) → Source → Packet → Str → Engine → List Consequence
transit cfg route from payload node_id e =
    elim (write_where (λ key c. str_eq key node_id && c.is_writable) payload
      (channels_of e.tunnels)) [
        | w ∷ written ↦ w ∷ written
        | [] ↦
            if is_relay_node e
            then to_candidates e from payload (
                or_peers cfg e
                  (candidates cfg e (relays_to (JsMap.get node_id e.table) (route node_id)) []))
            else []
      ]

unfoldable pub to_node :
    Config → (Str → Option Presence) → Source → Packet → Option Address → Engine → List Consequence
to_node cfg route from payload none e = []
to_node cfg route from payload (some p) e = elim p.node_id [
  | none ↦ []
  | some node_id ↦
      if (length node_id == 0) || str_eq node_id cfg.node_id
      then []
      else transit cfg route from payload node_id e
]

-- How a message that is stored as `saved` goes on. Each node counts one more hop, and stops at the limit of the message.
unfoldable pub forward_message :
    Config → (Str → Option Presence) → Source → Chat → Message → Message → Engine → List Consequence
forward_message cfg route from kind m saved e =
    let next = record saved { hop = plus_one m.hop; ttl = ttl_or_five m.ttl } in
    if not (int_lt (plus_one m.hop) (ttl_or_five m.ttl))
    then []
    else if starts_with m.receiver (codes "#")
    then (if has_char b':' m.receiver
        then forward_to_channel_subscribers m.receiver next from.remote_peer e
        else broadcast_channel_message next from.remote_peer e)
    else if starts_with m.receiver (codes "@")
    then to_node cfg route from
        (chat kind (record m { hop = plus_one m.hop; ttl = ttl_or_five m.ttl }))
        (AddressHelper.parse cfg.addresses m.receiver) e
    else []

-- `handleDirectOrChannelMessage(payload, channel, remotePeer)`; `save` is `db.saveMessage`.
unfoldable pub handle_message :
    Config
    → (Message → Option Message)
    → ℕ
    → (Str → Option Presence)
    → Source
    → Chat
    → Message
    → Engine
    → Engine × List Consequence
handle_message cfg save now route from kind m e =
    let (cache, is_seen) = MessageTtlCache.has now m.id e.seen_messages in
    let (next, effects) =
      note_sender cfg now route from m.sender (AddressHelper.parse cfg.addresses m.sender)
        (record e { seen_messages = MessageTtlCache.add now m.id cache }) in
    if is_seen
    then (
      record e { seen_messages = cache },
      write from.channel.channel (status (codes "duplicate") m.id) ∷ [],
    )
    else (
      next,
      effects
          ++ (elim (save m) [
            | none ↦ []
            | some saved ↦ emit_message saved ∷ forward_message cfg route from kind m saved next
          ]
              ++ write from.channel.channel (status (codes "delivered") m.id) ∷ []),
    )
