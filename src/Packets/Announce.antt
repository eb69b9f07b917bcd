-- ===== src/Packets/Announce.antt =====
-- `handlePresenceAnnounce` of src/core/federationPacketHandler.js.
pub mod Handler
pub mod Recorded
use metrice.AddressHelper
use metrice.AddressHelper.{Address, Target, mesh_raw, parse_target}
use metrice.Federation.{
  Config, Engine, User, Peering, is_relay_node, is_self_peer, note_hearsay, relays_role, remember,
  safe_addresses,
}
use metrice.Federation.Packet.{
  Announce, Member, Packet, announce, status, Consequence, write, connect, presence_change,
  upsert_route, save_user_key, reset_outbox, process_outbox, maintain_tunnels, announce_text,
}
use metrice.JsMap
use metrice.Packets.{Source, pass_on}
use metrice.PeerManager
use metrice.Presence.{LocalState, create_announce, refresh}
use metrice.Presence.Broadcast.{channels_of, known_peers, write_where}
use metrice.Rendezvous.{Presence, at_port}
use metrice.SecureChannel.{or_else}
use metrice.Base.{
  ℕ, ◌-◌, Bool, true, false, not, ◌&&◌, ◌||◌, Option, none, some, List, [], ◌∷◌, ◌++◌, Str, codes,
  str_eq, str_eq_inst, ends_with, strip_prefix, includes, to_lower, join, ltb, leb, ◌==◌,
  if◌then◌else◌, length, map,
}
use metrice.Base.Number.{pos, decimal}

-- `Math.abs(Date.now() - timestamp) > 86400000`
unfoldable pub is_skewed : ℕ → ℕ → Bool
is_skewed now timestamp =
    ltb 86400000 (if ltb now timestamp then timestamp - now else now - timestamp)

-- The tests at the top: another node announces itself, by a signature with the key that its id is made of.
unfoldable pub is_genuine : Config → ℕ → Announce → Bool
is_genuine cfg now a =
    not (
      (length a.node_id == 0)
      || ((length a.kem_key == 0) || ((length a.identity_key == 0) || (length a.sig == 0))))
    && (not (str_eq a.node_id cfg.node_id)
        && (str_eq (cfg.derive_node_id a.identity_key) a.node_id
            && (cfg.verify
                  (announce_text a.node_id a.role a.rendezvous_nodes a.kem_key a.channels
                    a.timestamp)
                  a.sig a.identity_key
                && not (is_skewed now a.timestamp))))

-- `record`
unfoldable pub presence_of : Config → ℕ → Announce → Presence
presence_of cfg now a = record {
  role = or_else a.role (codes "EDGE");
  rendezvous_nodes = safe_addresses cfg a.rendezvous_nodes;
  kem_key = a.kem_key;
  identity_key = a.identity_key;
  channels = a.channels;
  last_seen = now;
}

-- The address of an edge leaves the pool of peers.
unfoldable pub register_edge : Str → Peering → Engine → Engine
register_edge role c e =
    if str_eq role (codes "EDGE")
    then record e {
      peers = PeerManager.register_edge_ip (strip_prefix (codes "::ffff:") c.remote_ip) e.peers;
    }
    else e

-- `${host}:${port}` of a target with both that is not this node
unfoldable pub foreign_target : Config → Engine → Option Target → Option Str
foreign_target cfg e none = none
foreign_target cfg e (some (Target.mesh node_id)) = none
foreign_target cfg e (some (Target.endpoint host port is_ipv6 warning)) =
    if (length host == 0) || ((port == 0) || is_self_peer cfg e host (pos port))
    then none
    else some (at_port host port)

unfoldable pub first_target : Config → Engine → List Str → Option Str
first_target cfg e [] = none
first_target cfg e (address ∷ addresses) =
    let rest = first_target cfg e addresses in
    elim (foreign_target cfg e (parse_target cfg.addresses address)) [
      | some at ↦ some at
      | none ↦ rest
    ]

-- `RELAY`, `CAP_RELAY` or `CAP_EDGE_TRANSIT`
unfoldable pub is_transit_role : Str → Bool
is_transit_role role = relays_role role || str_eq role (codes "CAP_EDGE_TRANSIT")

-- The physical address that an announcement gives: of the relays that it names, or else of its channel
unfoldable pub announced_target : Config → Engine → Str → List Str → Option Str
announced_target cfg e peer_address (address ∷ safe) = first_target cfg e (address ∷ safe)
announced_target cfg e peer_address [] =
    if (length peer_address == 0) || ends_with peer_address (codes ".mesh")
    then none
    else foreign_target cfg e (parse_target cfg.addresses peer_address)

unfoldable pub set_physical : Str → Option Str → Engine → Engine
set_physical node_id none e = e
set_physical node_id (some at) e = record e { physical = JsMap.set node_id at e.physical }

-- The new channels get an empty set of subscribers.
unfoldable pub open_channels : List Str → List (Str × List Str) → List (Str × List Str)
open_channels [] subscribers = subscribers
open_channels (c ∷ channels) subscribers =
    open_channels channels
      (if JsMap.has c subscribers then subscribers else JsMap.set c [] subscribers)

-- A user of the same name on another node
unfoldable pub is_rival : Str → Str → Option Address → Bool
is_rival name node_id none = false
is_rival name node_id (some a) =
    str_eq (to_lower a.name) (to_lower name)
    && elim a.node_id [ none ↦ true | some other ↦ not (str_eq other node_id) ]

unfoldable pub drop_rivals : Config → Str → Str → List (Str × User) → List (Str × User)
drop_rivals cfg name node_id users =
    refresh
      (λ address u.
        if is_rival name node_id (AddressHelper.parse cfg.addresses address) then none else some u)
      users

-- `rdvList`
unfoldable pub relays_of_member : Announce → Peering → Engine → List Str
relays_of_member a c e =
    or_else a.relay_announce_address (elim (JsMap.get a.node_id e.physical) [
      | some at ↦ at
      | none ↦
          if (length c.peer_address == 0) || ends_with c.peer_address (codes ".mesh")
          then a.node_id
          else c.peer_address
    ])
    ∷ []

unfoldable pub member_presence : ℕ → Announce → Peering → Member → Engine → Presence
member_presence now a c m e = record {
  role = codes "EDGE";
  rendezvous_nodes = relays_of_member a c e;
  kem_key = m.kem_key;
  identity_key = [];
  channels = m.channels;
  last_seen = now;
}

-- A member that `parse` reads as the user `name` on the node `node_id`
unfoldable pub add_member :
    Config → ℕ → Announce → Peering → Member → Str → Str → Engine → Engine × List Consequence
add_member cfg now a c m name node_id e =
    let address = mesh_raw AddressHelper.Kind.user name node_id in
    let user : User = record {
      last_seen = now;
      channels = m.channels;
      is_ssh = m.is_ssh;
      kem_key = m.kem_key;
    } in
    let next = record e { users = JsMap.set address user (drop_rivals cfg name node_id e.users) } in
    let presence = member_presence now a c m e in
    let saved = (if length m.kem_key == 0 then [] else save_user_key address m.kem_key ∷ []) in
    if str_eq node_id cfg.node_id || JsMap.has node_id e.table then (next, saved) else (
      record next { table = JsMap.set node_id presence e.table },
      saved ++ upsert_route node_id (record presence { channels = [] }) ∷ [],
    )

unfoldable pub handle_member :
    Config → ℕ → Announce → Peering → Member → Option Address → Engine → Engine × List Consequence
handle_member cfg now a c m none e = (e, [])
handle_member cfg now a c m (some p) e =
    let node_id : Str = elim p.node_id [ none ↦ a.node_id | some n ↦ or_else n a.node_id ] in
    if (length m.user == 0) || p.is_local
    then (e, [])
    else add_member cfg now a c m p.name node_id e

unfoldable pub handle_members :
    Config → ℕ → Announce → Peering → List Member → Engine → Engine × List Consequence
handle_members cfg now a c [] e = (e, [])
handle_members cfg now a c (m ∷ members) e =
    let (next, first) = handle_member cfg now a c m (AddressHelper.parse cfg.addresses m.user) e in
    let (last, more) = handle_members cfg now a c members next in (last, first ++ more)
