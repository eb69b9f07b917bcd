-- ===== src/Packets/Routes.antt =====
-- `handleRouteUpdate` of src/core/federationPacketHandler.js.
pub mod Once
use metrice.AddressHelper
use metrice.AddressHelper.{Target, parse_target}
use metrice.Federation.{
  Config, Engine, is_relay_node, note_hearsay, note_peer, relays_role, remember, safe_addresses,
}
use metrice.Federation.Packet.{
  RouteUpdate, Packet, route_update, Consequence, send_packet, presence_change, upsert_route,
  reset_outbox, process_outbox, maintain_tunnels, update_text, legacy_text,
}
use metrice.JsMap
use metrice.Packets.{Source, pass_on}
use metrice.Packets.Announce.{first_target, is_skewed, is_transit_role, register_edge, set_physical}
use metrice.Presence.Broadcast.{channels_of, known_peers, write_where}
use metrice.Rendezvous.{Presence, at_port}
use metrice.Rendezvous.Edge.{add_text}
use metrice.SecureChannel.{or_else}
use metrice.Base.{
  ℕ, Bool, true, false, not, ◌&&◌, ◌||◌, Option, none, some, List, [], ◌∷◌, ◌++◌, Str, codes,
  str_eq, str_eq_inst, ends_with, has_char, includes, ◌==◌, if◌then◌else◌, length,
}
use metrice.Base.Number.{decimal}

unfoldable pub lacks_update_fields : RouteUpdate → Bool
lacks_update_fields u =
    (length u.node_id == 0)
    || ((length u.relay_node_id == 0)
        || ((length u.relay_identity_key == 0) || (length u.sig == 0)))

-- `isSigValid`, with the update that the signature covers: one with the old text says nothing of the keys.
unfoldable pub signed_part : Config → RouteUpdate → Option RouteUpdate
signed_part cfg u =
    if cfg.verify (update_text u) u.sig u.relay_identity_key
    then some u
    else if cfg.verify (legacy_text u) u.sig u.relay_identity_key
    then some (record u { kem_key = []; relay_kem_key = [] })
    else none

-- The update, if a relay signed it with the key that its id is made of, in time
unfoldable pub accepted_update : Config → ℕ → RouteUpdate → Option RouteUpdate
accepted_update cfg now u =
    if lacks_update_fields u
      || not (str_eq (cfg.derive_node_id u.relay_identity_key) u.relay_node_id)
    then none
    else if is_skewed now u.timestamp
    then none
    else signed_part cfg u

-- `${nodeId}:${relayNodeId}:${timestamp}`
unfoldable pub update_key : RouteUpdate → Str
update_key u = u.node_id ++ (codes ":" ++ (u.relay_node_id ++ (codes ":" ++ decimal u.timestamp)))

-- `canonicalRelayAddr`
unfoldable pub canonical_relay : Config → Str → Str
canonical_relay cfg address = elim (parse_target cfg.addresses address) [
  | none ↦ address
  | some t ↦ canonical t address
]
  where
    canonical : Target → Str → Str
    canonical (Target.mesh node_id) address = address
    canonical (Target.endpoint host port is_ipv6 warning) address =
        if (length host == 0) || (port == 0) then address else at_port host port

-- `presenceTable.get(id) || db.getRoute(id)`
unfoldable pub known_node : (Str → Option Presence) → Str → Engine → Option Presence
known_node route node_id e = elim (JsMap.get node_id e.table) [
  | some p ↦ some p
  | none ↦ route node_id
]

unfoldable pub kem_of : Option Presence → Str
kem_of none = []
kem_of (some p) = p.kem_key

unfoldable pub identity_of : Option Presence → Str
identity_of none = []
identity_of (some p) = p.identity_key

unfoldable pub channels_known : Option Presence → List Str
channels_known none = []
channels_known (some p) = p.channels

unfoldable pub relays_known : Option Presence → List Str
relays_known none = []
relays_known (some p) = p.rendezvous_nodes

unfoldable pub relay_record : Config → ℕ → (Str → Option Presence) → RouteUpdate → Engine → Presence
relay_record cfg now route u e = record {
  role = codes "RELAY";
  rendezvous_nodes = canonical_relay cfg u.relay_address ∷ [];
  kem_key = or_else u.relay_kem_key (kem_of (known_node route u.relay_node_id e));
  identity_key = u.relay_identity_key;
  channels = [];
  last_seen = now;
}

-- The relay that signed the update
unfoldable pub learn_update_relay :
    Config → ℕ → (Str → Option Presence) → RouteUpdate → Engine → Engine × List Consequence
learn_update_relay cfg now route u e =
    let address = canonical_relay cfg u.relay_address in
    let next = record e {
      table = JsMap.set u.relay_node_id (relay_record cfg now route u e) e.table;
      physical = JsMap.set u.relay_node_id address e.physical;
    } in
    if length u.relay_address == 0 then (e, []) else (
      if has_char b':' address && not (ends_with address (codes ".mesh"))
          then note_peer cfg now address true true next
          else next,
      upsert_route u.relay_node_id (relay_record cfg now route u e) ∷ [],
    )

-- `Array.from(new Set([...existingRdv, ...safeRdv]))`
unfoldable pub merge_texts : List Str → List Str → List Str
merge_texts [] found = found
merge_texts (a ∷ texts) found = merge_texts texts (add_text a found)

unfoldable pub edge_record :
    ℕ → (Str → Option Presence) → RouteUpdate → List Str → Engine → Presence
edge_record now route u safe e =
    let current = known_node route u.node_id e in
    record {
      role = or_else u.role (codes "EDGE");
      rendezvous_nodes = merge_texts safe (merge_texts (relays_known current) []);
      kem_key = or_else u.kem_key (kem_of current);
      identity_key = or_else u.identity_key (identity_of current);
      channels = channels_known current;
      last_seen = now;
    }

-- The node whose route changes
unfoldable pub learn_update_node :
    Config
    → ℕ
    → (Str → Option Presence)
    → Source
    → RouteUpdate
    → List Str
    → Engine
    → Engine × List Consequence
learn_update_node cfg now route from u safe e =
    let p = edge_record now route u safe e in
    let first =
      register_edge p.role from.channel (record e { table = JsMap.set u.node_id p e.table }) in
    let second = (if relays_role u.role then note_hearsay cfg now safe first else first) in
    (
      set_physical u.node_id (if is_transit_role u.role then first_target cfg second safe else none)
          second,
      upsert_route u.node_id (record p { channels = [] })
          ∷ reset_outbox u.node_id
          ∷ presence_change
          ∷ [],
    )

unfoldable pub pass_update_on : Config → Source → RouteUpdate → Engine → List Consequence
pass_update_on cfg from u e =
    if is_relay_node e
    then pass_on cfg e from
        (λ peer at. elim (JsMap.get u.node_id e.physical) [ none ↦ false | some p ↦ str_eq p peer ])
        (λ at. send_packet at.0 at.1 (route_update u)) (known_peers e)
      ++ write_where (λ key c. not (str_eq key u.node_id) && c.is_writable) (route_update u)
          (channels_of e.tunnels)
    else maintain_tunnels ∷ []

-- The handler behind its guards: `u` as it came, `known` as far as its signature covers it
unfoldable pub apply_update :
    Config
    → ℕ
    → (Str → Option Presence)
    → Source
    → RouteUpdate
    → RouteUpdate
    → Engine
    → Engine × List Consequence
apply_update cfg now route from u known e =
    let noted = record e { seen_updates = remember (update_key u) e.seen_updates } in
    let (relayed, first) = learn_update_relay cfg now route known noted in
    let (next, second) =
      learn_update_node cfg now route from known (safe_addresses cfg u.rendezvous_nodes) relayed in
    (next, first ++ (second ++ (pass_update_on cfg from u next ++ process_outbox ∷ [])))

-- `handleRouteUpdate(payload, channel, remotePeer)`
unfoldable pub handle_route_update :
    Config → ℕ → (Str → Option Presence) → Source → RouteUpdate → Engine → Engine × List Consequence
handle_route_update cfg now route from u e = elim (accepted_update cfg now u) [
  | none ↦ (e, [])
  | some known ↦
      if (length (safe_addresses cfg u.rendezvous_nodes) == 0)
        || includes e.seen_updates (update_key u)
      then (e, [])
      else apply_update cfg now route from u known e
]
