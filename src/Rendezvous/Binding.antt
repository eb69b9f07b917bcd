-- ===== src/Rendezvous/Binding.antt =====
-- `handleRendezvousBind` of src/core/rendezvousManager.js from its tests on, and the `close` listener of a tunnel.
use metrice.JsMap
use metrice.Base.{
  ℕ, not, ◌&&◌, Option, none, some, List, [], ◌∷◌, ◌++◌, Str, codes, str_eq, str_eq_inst, ◌==◌,
  if◌then◌else◌, length,
}
use metrice.Base.Number.{decimal}
use metrice.NonceTracker.{track}
use metrice.SecureChannel.{or_else, json_text, json_or_null, json_object}
use metrice.Rendezvous.{
  missing_fields, invalid_node_id, invalid_signature, expired_timestamp, replay_nonce,
  tunnel_capacity_reached, ip_capacity_reached, reject, acknowledge, upsert_route, route_update,
  broadcast_route_update, broadcast_presence, Bind, Connection, Effect, Env, Presence, Relay,
  Tunnel, clean_ip, is_expired, is_full, is_ip_full, is_missing, is_signed_for,
  valid_relay_addresses,
}

-- `edgeKemKey`
unfoldable pub edge_kem_key_of : Env → Bind → Connection → Relay → Str
edge_kem_key_of env p conn relay = or_else p.kem_key (
    or_else conn.peer_kem_key (
      or_else (elim (JsMap.get p.node_id relay.presence) [ none ↦ [] | some entry ↦ entry.kem_key ])
        (env.route_kem_key p.node_id)))

unfoldable pub new_tunnel : Env → ℕ → Bind → Connection → Relay → Tunnel
new_tunnel env now p conn relay = record {
  socket = conn.socket;
  remote_address = conn.remote_address;
  bound_at = now;
  bound_address = or_else p.relay_address env.announce_address;
  edge_kem_key = edge_kem_key_of env p conn relay;
  identity_key = p.identity_key;
}

unfoldable pub edge_presence : ℕ → Tunnel → Presence
edge_presence now t = record {
  role = codes "EDGE";
  rendezvous_nodes = t.bound_address ∷ [];
  kem_key = t.edge_kem_key;
  identity_key = t.identity_key;
  channels = [];
  last_seen = now;
}

unfoldable pub or_null : Str → Option Str
or_null [] = none
or_null (c ∷ s) = some (c ∷ s)

-- `dataToSign` of a ROUTE_UPDATE
unfoldable pub route_text : Env → ℕ → Str → Tunnel → Str
route_text env now other t = json_object (
    (codes "nodeId", json_text other)
    ∷ (codes "relayNodeId", json_text env.node_id)
    ∷ (codes "rendezvousNodes", codes "[" ++ (json_text t.bound_address ++ codes "]"))
    ∷ (codes "kemPublicKey", json_or_null (or_null t.edge_kem_key))
    ∷ (codes "relayKemPublicKey", json_text env.kem_public)
    ∷ (codes "relayAddress", json_text t.bound_address)
    ∷ (codes "timestamp", decimal now)
    ∷ [])

-- The loop over the other tunnels
unfoldable pub route_updates : Env → ℕ → Str → List (Str × Tunnel) → List Effect
route_updates env now node_id [] = []
route_updates env now node_id ((other, t) ∷ tunnels) =
    let rest = route_updates env now node_id tunnels in
    if not (str_eq other node_id) && not (length t.bound_address == 0)
    then route_update other t now (env.sign (route_text env now other t) env.identity_private)
      ∷ rest
    else rest

-- A request that passed every test
unfoldable pub accept : Env → ℕ → Bind → Connection → Relay → Relay × List Effect
accept env now p conn relay =
    let t = new_tunnel env now p conn relay in
    let tunnels = JsMap.set p.node_id t relay.tunnels in
    (
      record relay {
        tunnels = tunnels;
        presence = JsMap.set p.node_id (edge_presence now t) relay.presence;
      },
      upsert_route p.node_id (edge_presence now t)
          ∷ acknowledge p.node_id
          ∷ (route_updates env now p.node_id tunnels
              ++ broadcast_route_update p.node_id t.bound_address t.edge_kem_key t.identity_key
                ∷ broadcast_presence
                ∷ []),
    )

unfoldable pub check_capacity : Env → ℕ → Bind → Connection → Relay → Relay × List Effect
check_capacity env now p conn relay =
    if is_full env p relay
    then (relay, reject tunnel_capacity_reached ∷ [])
    else if is_ip_full env p (clean_ip conn.remote_address) relay
    then (relay, reject ip_capacity_reached ∷ [])
    else accept env now p conn relay

unfoldable pub check_nonce : Env → ℕ → Bind → Connection → Relay → Relay × List Effect
check_nonce env now p conn relay =
    let (tracker, is_fresh) =
      track now p.nonce (or_else (clean_ip conn.remote_address) p.node_id) relay.nonce_tracker in
    let tracked = record relay { nonce_tracker = tracker } in
    if is_fresh then check_capacity env now p conn tracked else (tracked, reject replay_nonce ∷ [])

unfoldable pub check_signature : Env → ℕ → Bind → Connection → Relay → Relay × List Effect
check_signature env now p conn relay =
    if not (is_signed_for env p (valid_relay_addresses env conn))
    then (relay, reject invalid_signature ∷ [])
    else if is_expired env now p
    then (relay, reject expired_timestamp ∷ [])
    else check_nonce env now p conn relay

-- `handleRendezvousBind(payload, channel)`; nothing happens when `deriveNodeId` throws.
unfoldable pub handle_rendezvous_bind : Env → ℕ → Bind → Connection → Relay → Relay × List Effect
handle_rendezvous_bind env now p conn relay =
    if is_missing p
    then (relay, reject missing_fields ∷ [])
    else elim (env.derive_node_id p.identity_key) [
      | none ↦ (relay, [])
      | some derived ↦
          if not (str_eq derived p.node_id)
          then (relay, reject invalid_node_id ∷ [])
          else check_signature env now p conn relay
    ]

-- The `close` listener of the tunnel of a node
unfoldable pub on_close : Str → ℕ → Relay → Relay × List Effect
on_close node_id socket relay = elim (JsMap.get node_id relay.tunnels) [
  | none ↦ (relay, [])
  | some t ↦
      if t.socket == socket
      then (record relay { tunnels = JsMap.delete node_id relay.tunnels }, broadcast_presence ∷ [])
      else (relay, [])
]
