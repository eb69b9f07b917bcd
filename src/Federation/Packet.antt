-- ===== src/Federation/Packet.antt =====
-- The packets of the federation in src/core/federationPacketHandler.js and src/core/presenceManager.js, and what
-- handling one does besides changing the state.
use metrice.Base.{ℕ, Bool, List, [], ◌∷◌, ◌++◌, Str, codes, map, join, Option, none, some}
use metrice.Base.Number.{ℤ, decimal}
use metrice.Rendezvous.{Presence}
use metrice.SecureChannel.{json_text, json_or_null, json_object}

-- An entry of `memberships`. A field that is missing is empty.
pub record Member : Type 0 where
  pub user : Str
  pub channels : List Str
  pub is_ssh : Bool
  pub kem_key : Str

pub record Announce : Type 0 where
  pub node_id : Str
  pub role : Str
  pub rendezvous_nodes : List Str
  pub kem_key : Str
  pub identity_key : Str
  pub channels : List Str
  pub memberships : List Member
  pub timestamp : ℕ
  pub sig : Str
  pub is_bilateral_reply : Bool
  pub relay_announce_address : Str

pub record RouteUpdate : Type 0 where
  pub node_id : Str
  pub role : Str
  pub rendezvous_nodes : List Str
  pub kem_key : Str
  pub identity_key : Str
  pub relay_node_id : Str
  pub relay_address : Str
  pub relay_kem_key : Str
  pub relay_identity_key : Str
  pub timestamp : ℕ
  pub sig : Str

pub data Chat : Type 0 where
  direct_message channel_message : Chat

pub record Message : Type 0 where
  pub id : Str
  pub sender : Str
  pub receiver : Str
  pub content : Str
  pub is_action : Bool
  pub is_snippet : Bool
  pub is_e2ee : Bool
  -- `hop` and `ttl` come from the peer, who may send negative ones; a missing one is 0.
  pub hop : ℤ
  pub ttl : ℤ
  pub timestamp : Str

-- The packets that go to another component as they are
pub data Part : Type 0 where
  dialback_request dialback_confirm onion_cell rendezvous_bind circuit_setup : Part

-- `payload.type`, with the fields of each type; `plain` is a payload of no type that is handled. A `selfNode` that is null is empty.
pub data Packet : Type 0 where
  part : Part → Str → Packet
  announce : Announce → Packet
  route_update : RouteUpdate → Packet
  chat : Chat → Message → Packet
  channel_subscribe : Str → Str → Packet
  channel_unsubscribe : Str → Str → Packet
  typing : Str → Str → Packet
  user_offline : Str → Str → ℕ → Packet
  gossip_discovery : Str → List Str → Packet
  gossip_response : Str → List Str → Packet
  -- A payload with a `status`, of the message, channel, node or user that is named
  status : Str → Str → Packet
  plain : Packet

pub data Consequence : Type 0 where
  hand_over : Part → Str → Consequence
  -- `channel.writePayload(payload)`, by the identity of the channel
  write : ℕ → Packet → Consequence
  -- `sendPacket(host, port, payload)`
  send_packet : Str → ℤ → Packet → Consequence
  -- `getOrCreateSecureChannel(host, port)`, and the payload goes over the channel if it opens
  connect : Str → ℤ → Packet → Consequence
  send_via_onion : Str → Packet → Consequence
  presence_change : Consequence
  emit_typing : Str → Str → Consequence
  emit_message : Message → Consequence
  upsert_route : Str → Presence → Consequence
  save_user_key : Str → Str → Consequence
  reset_outbox : Str → Consequence
  process_outbox : Consequence
  maintain_tunnels : Consequence
  broadcast_message : Message → Str → Consequence
  delete_expired_routes : ℕ → Consequence
  cleanup_circuits : ℕ → Consequence

-- `JSON.stringify` of a list of texts
unfoldable pub json_list : List Str → Str
json_list texts = codes "[" ++ (join (codes ",") (map json_text texts) ++ codes "]")

-- `text || null`
unfoldable pub non_empty : Str → Option Str
non_empty [] = none
non_empty (c ∷ s) = some (c ∷ s)

-- A role that is missing is left out of the text.
unfoldable pub role_field : Str → List (Str × Str)
role_field [] = []
role_field (c ∷ role) = (codes "role", json_text (c ∷ role)) ∷ []

-- `dataToSign` and `dataToVerify` of a PRESENCE_ANNOUNCE
unfoldable pub announce_text : Str → Str → List Str → Str → List Str → ℕ → Str
announce_text node_id role rendezvous_nodes kem_key channels timestamp = json_object (
    (codes "nodeId", json_text node_id)
    ∷ (role_field role
        ++ (codes "rendezvousNodes", json_list rendezvous_nodes)
          ∷ (codes "kemPublicKey", json_text kem_key)
          ∷ (codes "channels", json_list channels)
          ∷ (codes "timestamp", decimal timestamp)
          ∷ []))

-- `dataToVerify` of a ROUTE_UPDATE
unfoldable pub update_text : RouteUpdate → Str
update_text u = json_object (
    (codes "nodeId", json_text u.node_id)
    ∷ (codes "relayNodeId", json_text u.relay_node_id)
    ∷ (codes "rendezvousNodes", json_list u.rendezvous_nodes)
    ∷ (codes "kemPublicKey", json_or_null (non_empty u.kem_key))
    ∷ (codes "relayKemPublicKey", json_or_null (non_empty u.relay_kem_key))
    ∷ (codes "relayAddress", json_or_null (non_empty u.relay_address))
    ∷ (codes "timestamp", decimal u.timestamp)
    ∷ [])

-- `dataToVerifyLegacy`
unfoldable pub legacy_text : RouteUpdate → Str
legacy_text u = json_object (
    (codes "nodeId", json_text u.node_id)
    ∷ (codes "relayNodeId", json_text u.relay_node_id)
    ∷ (codes "rendezvousNodes", json_list u.rendezvous_nodes)
    ∷ (codes "timestamp", decimal u.timestamp)
    ∷ [])
