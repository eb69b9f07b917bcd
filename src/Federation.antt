-- ===== src/Federation.antt =====
-- The state of `FederationEngine` of src/core/federation.js that its packets and its presence share, and the tests on
-- peers that they repeat.
pub mod Packet
pub mod Sample
use metrice.AddressHelper
use metrice.JsMap
use metrice.MessageTtlCache.{MessageTtlCache}
use metrice.PeerManager
use metrice.PeerManager.{PeerManager, is_self_address, host_of, port_text}
use metrice.Rendezvous.{Presence}
use metrice.Base.{
  ℕ, Bool, true, false, not, ◌&&◌, ◌||◌, Option, none, some, List, [], ◌∷◌, ◌++◌, Str, codes,
  str_eq, str_eq_inst, starts_with, ends_with, has_char, ltb, leb, ◌==◌, if◌then◌else◌, length,
  option_map,
}
use metrice.Base.Number.{ℤ, parse_int, decimal}

-- CONFIG, the identity of the node, the texts of the locale, and what is called of CryptoHelper. A setting that is
-- missing is empty or zero.
pub record Config : Type 0 where
  pub pool_env : PeerManager.Env
  pub addresses : AddressHelper.Local
  pub node_id : Str
  pub mesh_address : Str
  pub presence_ttl : ℕ
  pub default_channel : Str
  pub allow_edge_gossip : Bool
  pub allow_edge_routing : Bool
  -- `process.env.NODE_ENV === 'test'`
  pub is_test : Bool
  pub kem_public : Str
  pub identity_public : Str
  pub identity_private : Str
  pub derive_node_id : Str → Str
  pub verify : Str → Str → Str → Bool
  pub sign : Str → Str → Str

-- An entry of `remoteOnlineUsers`
pub record User : Type 0 where
  pub last_seen : ℕ
  pub channels : List Str
  pub is_ssh : Bool
  pub kem_key : Str

-- A secure channel in the pool, of a tunnel or to a relay: its identity, the peer that it declares, the address of its
-- socket, and the keys of the peer. The `socket` of a tunnel or of a relay is that of its channel.
pub record Peering : Type 0 where
  pub channel : ℕ
  pub peer_address : Str
  pub remote_ip : Str
  pub remote : Str
  pub identity_key : Str
  pub kem_key : Str
  pub is_ready : Bool
  pub is_writable : Bool

-- `boundRendezvousAddr`, `edgeKemKey` and `identityPublicKey` of a tunnel, with its channel
pub record ReverseTunnel : Type 0 where
  pub channel : Peering
  pub bound_address : Str
  pub edge_kem_key : Str
  pub identity_key : Str

pub record Engine : Type 0 where
  pub role : Str
  pub node_address : Str
  pub public_ip : Str
  pub users : List (Str × User)
  pub table : List (Str × Presence)
  pub physical : List (Str × Str)
  pub subscribers : List (Str × List Str)
  pub tunnels : List (Str × ReverseTunnel)
  pub relays : List (Str × Peering)
  pub bound : List Str
  pub pool : List (Str × Peering)
  pub peers : PeerManager
  pub seen_messages : MessageTtlCache
  -- The three sets of `FederationPacketHandler`
  pub seen_announces : List Str
  pub seen_updates : List Str
  pub seen_offline : List Str
  -- `_lastBilateralSync` of each channel
  pub last_sync : ℕ → ℕ

-- `role === 'RELAY' || role === 'CAP_RELAY'`
unfoldable pub relays_role : Str → Bool
relays_role role = str_eq role (codes "RELAY") || str_eq role (codes "CAP_RELAY")

-- `isRelay()`
unfoldable pub is_relay_node : Engine → Bool
is_relay_node e = relays_role e.role

-- `isTransitEdge()`
unfoldable pub is_transit_edge : Config → Engine → Bool
is_transit_edge cfg e =
    str_eq e.role (codes "CAP_EDGE_TRANSIT") || (cfg.allow_edge_routing && leb 2 (length e.relays))

-- `isSelfPeerAddress(host, port)`; the engine has a peer manager.
unfoldable pub is_self_peer : Config → Engine → Str → ℤ → Bool
is_self_peer cfg e host port = is_self_address cfg.pool_env e.peers.public_ip host (some port)

-- `const [host, portStr] = peer.split(':')`, with the port as a number; `none` if a loop goes on with the next peer.
unfoldable pub endpoint_of : Str → Option (Str × ℤ)
endpoint_of peer =
    if has_char b':' peer && not (length (host_of peer) == 0)
    then option_map (λ (port : ℤ). (host_of peer, port)) (parse_int (port_text peer))
    else none

-- The same for a peer that is not this node
unfoldable pub foreign_endpoint : Config → Engine → Str → Option (Str × ℤ)
foreign_endpoint cfg e peer = elim (endpoint_of peer) [
  | none ↦ none
  | some at ↦ if is_self_peer cfg e at.0 at.1 then none else some at
]

-- An address heard of by gossip that may go to the pool: no node of the mesh, and not this node
unfoldable pub is_hearsay : Config → Engine → Str → Bool
is_hearsay cfg e peer =
    not (ends_with peer (codes ".mesh"))
    && elim (foreign_endpoint cfg e peer) [ none ↦ false | some at ↦ true ]

-- `peerManager.addOrUpdate(peer, success, fromGossip)`
unfoldable pub note_peer : Config → ℕ → Str → Bool → Bool → Engine → Engine
note_peer cfg now peer success from_gossip e = record e {
  peers = PeerManager.add_or_update cfg.pool_env now peer success from_gossip e.peers;
}

-- `addOrUpdate(peer, true, true)` for each address that may go to the pool
unfoldable pub note_hearsay : Config → ℕ → List Str → Engine → Engine
note_hearsay cfg now [] e = e
note_hearsay cfg now (peer ∷ peers) e =
    note_hearsay cfg now peers
      (if is_hearsay cfg e peer then note_peer cfg now peer true true e else e)

-- The loopback names that `getRelayAnnounceAddress` and `setRole` replace
unfoldable pub is_local_name : Str → Bool
is_local_name host =
    (length host == 0)
    || (str_eq host (codes "localhost")
        || (starts_with host (codes "127.") || str_eq host (codes "0.0.0.0")))

-- `CONFIG.presenceTtl || 60000`
unfoldable pub ttl_of : Config → ℕ
ttl_of cfg = if cfg.presence_ttl == 0 then 60000 else cfg.presence_ttl

-- `isPoisoned(addr)`, fails: an address with a host that other nodes can use
unfoldable pub is_clean_address : Str → Bool
is_clean_address address =
    has_char b':' address
    && not (
        ends_with (host_of address) (codes ".mesh")
        || (str_eq (host_of address) (codes "localhost")
            || (str_eq (host_of address) (codes "127.0.0.1")
                || str_eq (host_of address) (codes "0.0.0.0"))))

-- What a test node, or one on localhost, takes instead
unfoldable pub is_outside_mesh : Str → Bool
is_outside_mesh address = has_char b':' address && not (ends_with (host_of address) (codes ".mesh"))

unfoldable pub keep_if : (Str → Bool) → List Str → List Str
keep_if test [] = []
keep_if test (a ∷ addresses) =
    let rest = keep_if test addresses in if test a then a ∷ rest else rest

-- The clean ones of the addresses, or what such a node takes if there is none
unfoldable pub pick_safe : Config → List Str → List Str → List Str
pick_safe cfg (a ∷ clean) addresses = a ∷ clean
pick_safe cfg [] addresses =
    if cfg.is_test || str_eq cfg.pool_env.server_name (codes "localhost")
    then keep_if is_outside_mesh addresses
    else []

-- `safeRendezvous`, `safeRdv`, `safeBoundRelays`
unfoldable pub safe_addresses : Config → List Str → List Str
safe_addresses cfg addresses = pick_safe cfg (keep_if is_clean_address addresses) addresses

unfoldable pub trim_seen : List Str → List Str
trim_seen [] = []
trim_seen (first ∷ rest) = if ltb 2000 (length (first ∷ rest)) then rest else first ∷ rest

-- `set.add(key)`, and the oldest key goes when there are more than 2000
unfoldable pub remember : Str → List Str → List Str
unfolding trim_seen
remember key seen = trim_seen (seen ++ key ∷ [])
