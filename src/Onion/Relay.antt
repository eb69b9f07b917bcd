-- ===== src/Onion/Relay.antt =====
-- `handleOnionCell` and `handleCircuitSetup` of src/core/onionRouter.js, with the circuits that
-- `saveCircuit` and `getCircuit` of src/storage/database.js keep in memory.
use metrice.Base.{
  ℕ, ◌+◌, ◌*◌, Bool, true, false, not, ◌&&◌, ◌||◌, Option, none, some, List, [], ◌∷◌, ◌++◌, Str,
  codes, str_eq, str_eq_inst, has_char, ends_with, ltb, ◌==◌, if◌then◌else◌, length,
}
use metrice.Base.Number.{port_of}
use metrice.JsMap
use metrice.PeerManager.{host_of, port_text}
use metrice.SecureChannel.Lines.{byte_length}
use metrice.SecureChannel.{Crypto}
use metrice.Onion.{
  uniform_cell_size, Cell, cell_text, Layer, deliver, forward, nothing, Incoming,
  get_hop_identifier,
}

-- An entry of `memoryCircuits`
pub record CircuitHop : Type 0 where
  pub next_hop : Option Str
  pub symmetric_key : Str
  pub created_at : ℕ

-- A channel of a rendezvous tunnel, or to a rendezvous relay: the address of its peer, and whether its socket can
-- be written to
pub record Link : Type 0 where
  pub peer_node_address : Str
  pub is_writable : Bool

-- A payload CIRCUIT_CREATE or CIRCUIT_EXTEND. A field that is missing is empty.
pub record Setup : Type 0 where
  pub kind : Str
  pub circuit_id : Str
  pub encapsulated_key : Str
  pub next_hop : Str
  pub extend_payload : Option (Str × Str × Str)

pub record Env : Type 0 where
  pub crypto : Crypto
  pub node_id : Str
  pub kem_private : Str
  -- `JSON.parse` of what a layer or a setup decrypts to
  pub parse_layer : Str → Option Layer
  pub parse_setup : Str → Option Setup
  -- `rendezvousTunnels` and `rendezvousRelays`
  pub tunnels : List (Str × Link)
  pub relays : List (Str × Link)

-- Where a payload goes: through a tunnel, through a relay, or over a new channel to a host and a port
pub data Route : Type 0 where
  via_tunnel : Str → Route
  via_relay : Str → Route
  direct : Str → Str → Route

pub data Effect : Type 0 where
  -- the cell goes out padded
  send_cell : Route → Cell → Effect
  deliver_local : Str → Effect
  deliver_tunnel : Str → Str → Effect
  extend : Route → Setup → Effect
  circuit_ready : Str → Effect
  setup_error : Str → Effect

-- `${circuitId}_${prevHop}`
unfoldable pub circuit_key : Str → Str → Str
circuit_key circuit_id prev_hop = circuit_id ++ (codes "_" ++ prev_hop)

-- The relay whose address or peer is the one given
unfoldable pub find_relay : Bool → Str → List (Str × Link) → Option Str
find_relay check_writable address [] = none
find_relay check_writable address ((relay, l) ∷ relays) =
    let rest = find_relay check_writable address relays in
    if check_writable && not l.is_writable
    then rest
    else if str_eq relay address
        || (str_eq l.peer_node_address address
            || (has_char b':' address && ends_with relay address))
    then some relay
    else rest

unfoldable pub relay_or_direct : Bool → Env → Str → Route
relay_or_direct check_writable env address = elim (find_relay check_writable address env.relays) [
  | some relay ↦ via_relay relay
  | none ↦ direct (host_of address) (port_text address)
]

-- The channel for an address; a cell is not sent to a socket that cannot be written to.
unfoldable pub route_to : Bool → Env → Str → Route
route_to check_writable env address = elim (JsMap.get address env.tunnels) [
  | none ↦ relay_or_direct check_writable env address
  | some l ↦
      if check_writable && not l.is_writable
      then relay_or_direct check_writable env address
      else via_tunnel address
]

-- The guards of `forwardTo`: a host and a port
unfoldable pub is_forward_address : Str → Bool
is_forward_address address =
    has_char b':' address
    && (not (length (host_of address) == 0)
        && elim (port_of (port_text address)) [ none ↦ false | some port ↦ true ])

unfoldable pub forward_cell : Env → Str → Cell → List Effect
forward_cell env address cell =
    if ltb (uniform_cell_size * 2) (byte_length (cell_text cell))
    then []
    else if is_forward_address address
    then send_cell (route_to true env address) cell ∷ []
    else []

unfoldable pub deliver_payload : Env → Str → Str → List Effect
deliver_payload env target payload =
    if ltb (uniform_cell_size * 2) (byte_length payload)
    then []
    else if str_eq target env.node_id
    then deliver_local payload ∷ []
    else elim (JsMap.get target env.tunnels) [
      | none ↦ []
      | some l ↦ if l.is_writable then deliver_tunnel target payload ∷ [] else []
    ]

-- A layer, by its fields that are not empty
unfoldable pub handle_layer : Env → Layer → List Effect
handle_layer env (forward [] cell) = []
handle_layer env (forward (c ∷ address) cell) = forward_cell env (c ∷ address) cell
handle_layer env (deliver [] payload) = []
handle_layer env (deliver (c ∷ target) payload) = deliver_payload env (c ∷ target) payload
handle_layer env nothing = []

-- A layer that was decrypted; an empty text does not count.
unfoldable pub open_layer : Env → Option Str → List Effect
open_layer env none = []
open_layer env (some []) = []
open_layer env (some (c ∷ text)) = elim (env.parse_layer (c ∷ text)) [
  | none ↦ []
  | some layer ↦ handle_layer env layer
]

unfoldable pub is_whole : Cell → Bool
is_whole cell = not (
    (length cell.circuit_id == 0)
    || ((length cell.iv == 0) || ((length cell.auth_tag == 0) || (length cell.ciphertext == 0))))

-- `handleOnionCell(cell, channel)` with the circuits of the relay
unfoldable pub handle_onion_cell : Env → List (Str × CircuitHop) → Cell → Incoming → List Effect
handle_onion_cell env circuits cell i =
    if is_whole cell
    then elim (JsMap.get (circuit_key cell.circuit_id (get_hop_identifier i)) circuits) [
      | none ↦ []
      | some hop ↦
          open_layer env
            (env.crypto.decrypt (cell.iv, cell.ciphertext, cell.auth_tag) hop.symmetric_key)
    ]
    else []

unfoldable pub onion_info : Str
onion_info = codes "p2p-mesh-onion-v2"

-- The next hop's answer to a setup, and what is told to the previous hop
unfoldable pub extend_effects : (Route → Setup → Bool) → Route → Str → Setup → List Effect
extend_effects answer route circuit_id next =
    extend route next
    ∷ (if answer route next
        then circuit_ready circuit_id
        else setup_error (codes "next_hop_extend_failed"))
    ∷ []

unfoldable pub extend_circuit : Env → (Route → Setup → Bool) → Setup → Option Str → List Effect
extend_circuit env answer p none = setup_error (codes "extend_decrypt_failed") ∷ []
extend_circuit env answer p (some []) = setup_error (codes "extend_decrypt_failed") ∷ []
extend_circuit env answer p (some (c ∷ text)) =
    if ltb (uniform_cell_size * 2) (byte_length (c ∷ text))
    then setup_error (codes "extend_payload_too_large") ∷ []
    else elim (env.parse_setup (c ∷ text)) [
      | none ↦ setup_error (codes "invalid_extend_json") ∷ []
      | some next ↦ extend_effects answer (route_to false env p.next_hop) p.circuit_id next
    ]

-- The setup behind `saveCircuit`: with a next hop and a payload for it the circuit goes on.
unfoldable pub setup_effects : Env → (Route → Setup → Bool) → Setup → Str → List Effect
setup_effects env answer p key = elim p.extend_payload [
  | none ↦ circuit_ready p.circuit_id ∷ []
  | some box ↦
      if length p.next_hop == 0
      then circuit_ready p.circuit_id ∷ []
      else extend_circuit env answer p (env.crypto.decrypt box key)
]

unfoldable pub next_of : Str → Option Str
next_of [] = none
next_of (c ∷ address) = some (c ∷ address)

-- `handleCircuitSetup(payload, channel)`. `answer` tells whether the next hop answers that its part is ready.
unfoldable pub handle_circuit_setup :
    Env
    → (Route → Setup → Bool)
    → ℕ
    → Setup
    → Incoming
    → List (Str × CircuitHop)
    → List (Str × CircuitHop) × List Effect
handle_circuit_setup env answer now p i circuits =
    if (length p.circuit_id == 0) || (length p.encapsulated_key == 0)
    then (circuits, setup_error (codes "invalid_circuit_payload") ∷ [])
    else elim (env.crypto.decapsulate env.kem_private p.encapsulated_key) [
      | none ↦ (circuits, setup_error (codes "exception") ∷ [])
      | some secret ↦
          let key = env.crypto.derive_key secret p.circuit_id onion_info in
          let hop : CircuitHop = record {
            next_hop = next_of p.next_hop;
            symmetric_key = key;
            created_at = now;
          } in
          (
            JsMap.set (circuit_key p.circuit_id (get_hop_identifier i)) hop circuits,
            setup_effects env answer p key,
          )
    ]

-- `deleteExpiredCircuits(maxAgeMs)` on the circuits in memory
unfoldable pub delete_expired_circuits : ℕ → ℕ → List (Str × CircuitHop) → List (Str × CircuitHop)
delete_expired_circuits max_age now [] = []
delete_expired_circuits max_age now ((key, c) ∷ circuits) =
    let rest = delete_expired_circuits max_age now circuits in
    if ltb (c.created_at + max_age) now then rest else (key, c) ∷ rest
