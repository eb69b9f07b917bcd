-- ===== src/Rendezvous.antt =====
-- `RendezvousManager` of src/core/rendezvousManager.js on the side of a relay: `handleRendezvousBind`.
pub mod Binding
pub mod Edge
pub mod Admission
pub mod Tunnels
mod Tests
use metrice.Base.{
  ℕ, ◌+◌, ◌-◌, Bool, true, false, not, ◌&&◌, ◌||◌, Option, none, some, List, [], ◌∷◌, ◌++◌, Str,
  codes, str_eq, str_eq_inst, starts_with, strip_prefix, remove_first, has_char, ltb, leb, ◌==◌,
  if◌then◌else◌, length,
}
use metrice.Base.Number.{decimal}
use metrice.JsMap
use metrice.NonceTracker.{NonceTracker, track}
use metrice.SecureChannel.{or_else, json_text, json_or_null, json_object}

-- The settings of a relay and what it takes from CryptoHelper, whose `deriveNodeId` may throw, and from the
-- routes of the database. A setting that is missing is empty or zero.
pub record Env : Type 0 where
  pub derive_node_id : Str → Option Str
  pub verify : Str → Str → Str → Bool
  pub sign : Str → Str → Str
  -- `db.getRoute(nodeId)?.kemPublicKey`
  pub route_kem_key : Str → Str
  pub node_id : Str
  pub node_address : Str
  pub mesh_address : Str
  pub announce_address : Str
  pub public_ip : Str
  pub server_name : Str
  pub federation_port : ℕ
  pub public_federation_port : ℕ
  pub kem_public : Str
  pub identity_public : Str
  pub identity_private : Str
  pub max_skew_ms : ℕ
  pub max_tunnels : ℕ
  pub max_per_ip : ℕ
  -- `process.env.NODE_ENV === 'test'`
  pub is_test : Bool

-- The channel that a request came over; its socket is a number.
pub record Connection : Type 0 where
  pub socket : ℕ
  pub local_address : Str
  pub local_port : ℕ
  pub remote_address : Str
  pub peer_kem_key : Str

-- The payload RENDEZVOUS_BIND
pub record Bind : Type 0 where
  pub node_id : Str
  pub identity_key : Str
  pub timestamp : ℕ
  pub nonce : Str
  pub sig : Str
  pub relay_address : Str
  pub kem_key : Str

pub record Tunnel : Type 0 where
  pub socket : ℕ
  pub remote_address : Str
  pub bound_at : ℕ
  pub bound_address : Str
  pub edge_kem_key : Str
  pub identity_key : Str

-- An entry of the presence table
pub record Presence : Type 0 where
  pub role : Str
  pub rendezvous_nodes : List Str
  pub kem_key : Str
  pub identity_key : Str
  pub channels : List Str
  pub last_seen : ℕ

pub record Relay : Type 0 where
  pub tunnels : List (Str × Tunnel)
  pub presence : List (Str × Presence)
  pub nonce_tracker : NonceTracker

pub data Reason : Type 0 where
  missing_fields invalid_node_id invalid_signature expired_timestamp replay_nonce
        tunnel_capacity_reached ip_capacity_reached :
      Reason

pub data Effect : Type 0 where
  reject : Reason → Effect
  acknowledge : Str → Effect
  upsert_route : Str → Presence → Effect
  -- ROUTE_UPDATE over the channel: the other node, its tunnel, the time and the signature
  route_update : Str → Tunnel → ℕ → Str → Effect
  broadcast_route_update : Str → Str → Str → Str → Effect
  broadcast_presence : Effect

-- `${host}:${port}`
unfoldable pub at_port : Str → ℕ → Str
at_port host port = host ++ (codes ":" ++ decimal port)

unfoldable pub clean_ip : Str → Str
clean_ip ip = strip_prefix (codes "::ffff:") ip

-- `CONFIG.publicFederationPort || CONFIG.federationPort`
unfoldable pub public_port : Env → ℕ
public_port env =
    if env.public_federation_port == 0 then env.federation_port else env.public_federation_port

unfoldable pub local_addresses : Str → ℕ → List Str
local_addresses [] port = []
local_addresses (c ∷ ip) port =
    at_port (c ∷ ip) port
    ∷ (if has_char b':' (c ∷ ip)
        then at_port (codes "[" ++ (c ∷ ip ++ codes "]")) port ∷ []
        else [])

unfoldable pub loopback_addresses : Str → List Str
loopback_addresses address =
    if starts_with address (codes "localhost:")
    then (codes "127.0.0.1:" ++ remove_first (codes "localhost:") address) ∷ []
    else []

unfoldable pub public_addresses : Env → Str → List Str
public_addresses env [] = []
public_addresses env (c ∷ ip) =
    at_port (c ∷ ip) env.federation_port ∷ at_port (c ∷ ip) (public_port env) ∷ []

-- `validRelayAddresses`, as a list
unfoldable pub valid_relay_addresses : Env → Connection → List Str
valid_relay_addresses env conn =
    let name = or_else env.server_name (codes "127.0.0.1") in
    (env.node_address
      ∷ env.mesh_address
      ∷ env.announce_address
      ∷ local_addresses (clean_ip conn.local_address) conn.local_port)
    ++ (loopback_addresses env.node_address
        ++ (public_addresses env env.public_ip
            ++ (at_port name env.federation_port
                ∷ at_port name (public_port env)
                ∷ (if str_eq env.server_name (codes "localhost")
                    then at_port (codes "127.0.0.1") env.federation_port
                      ∷ at_port (codes "127.0.0.1") (public_port env)
                      ∷ []
                    else []))))

-- `${nodeId}${addr}${timestamp}${nonce}`
unfoldable pub bind_text : Bind → Str → Str
bind_text p address = p.node_id ++ (address ++ (decimal p.timestamp ++ p.nonce))

-- `isSigValid`
unfoldable pub is_signed_for : Env → Bind → List Str → Bool
is_signed_for env p [] = false
is_signed_for env p ([] ∷ addresses) = is_signed_for env p addresses
is_signed_for env p ((c ∷ address) ∷ addresses) =
    env.verify (bind_text p (c ∷ address)) p.sig p.identity_key || is_signed_for env p addresses

unfoldable pub is_missing : Bind → Bool
is_missing p =
    (length p.node_id == 0)
    || ((length p.identity_key == 0)
        || ((p.timestamp == 0) || ((length p.nonce == 0) || (length p.sig == 0))))

-- `Math.abs(Date.now() - timestamp) > maxSkewMs`
unfoldable pub is_expired : Env → ℕ → Bind → Bool
is_expired env now p =
    ltb env.max_skew_ms (if ltb now p.timestamp then p.timestamp - now else now - p.timestamp)

-- `activeIpTunnels`
unfoldable pub count_ip : Str → List (Str × Tunnel) → ℕ
count_ip ip [] = 0
count_ip ip ((node_id, t) ∷ tunnels) =
    let rest = count_ip ip tunnels in
    if str_eq (clean_ip t.remote_address) ip then 1 + rest else rest

-- `isTestMode`
unfoldable pub is_exempt : Env → Str → Bool
is_exempt env ip = env.is_test || (includes_loopback ip || (length ip == 0))
  where
    includes_loopback : Str → Bool
    includes_loopback ip =
        str_eq ip (codes "127.0.0.1") || (str_eq ip (codes "::1") || str_eq ip (codes "localhost"))

unfoldable pub is_full : Env → Bind → Relay → Bool
is_full env p relay =
    leb env.max_tunnels (length relay.tunnels) && not (JsMap.has p.node_id relay.tunnels)

unfoldable pub is_ip_full : Env → Bind → Str → Relay → Bool
is_ip_full env p ip relay =
    not (is_exempt env ip)
    && (leb env.max_per_ip (count_ip ip relay.tunnels) && not (JsMap.has p.node_id relay.tunnels))
