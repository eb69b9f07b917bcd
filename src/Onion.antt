-- ===== src/Onion.antt =====
-- `OnionRouter` of src/core/onionRouter.js: cells, circuits, and what a relay does with them.
pub mod Relay
pub mod Peeling
pub mod Padding
pub mod Build
mod Tests
use metrice.Base.{
  ℕ, suc, ◌+◌, ◌-◌, Bool, true, false, not, ◌&&◌, ◌||◌, Option, none, some, List, [], ◌∷◌, ◌++◌,
  Str, codes, str_eq, str_eq_inst, has_char, ltb, leb, ◌==◌, if◌then◌else◌, length, replicate,
  strip_prefix,
}
use metrice.Base.Number.{decimal}
use metrice.JsMap
use metrice.SecureChannel.Lines.{byte_length}
use metrice.SecureChannel.{Crypto, json_text, json_or_null, json_object}

-- UNIFORM_CELL_SIZE and MAX_ONION_PAYLOAD
abbrev pub uniform_cell_size : ℕ
uniform_cell_size = 2048

abbrev pub max_onion_payload : ℕ
max_onion_payload = 768

pub record Cell : Type 0 where
  pub circuit_id : Str
  pub iv : Str
  pub auth_tag : Str
  pub ciphertext : Str

-- `JSON.stringify` of a cell, and of one with its padding
unfoldable pub cell_text : Cell → Str
cell_text c = json_object (
    (codes "circuitId", json_text c.circuit_id)
    ∷ (codes "iv", json_text c.iv)
    ∷ (codes "authTag", json_text c.auth_tag)
    ∷ (codes "ciphertext", json_text c.ciphertext)
    ∷ [])

unfoldable pub padded_text : Cell → Str → Str
padded_text c pad = json_object (
    (codes "type", json_text (codes "ONION_CELL"))
    ∷ (codes "circuitId", json_text c.circuit_id)
    ∷ (codes "iv", json_text c.iv)
    ∷ (codes "authTag", json_text c.auth_tag)
    ∷ (codes "ciphertext", json_text c.ciphertext)
    ∷ (codes "pad", json_text pad)
    ∷ [])

-- `raw.pad` of `getPaddedCellObject(cell)`; without a positive difference the padding stays empty.
unfoldable pub pad_of : Cell → Str
pad_of c = replicate (uniform_cell_size - byte_length (padded_text c [] ++ codes "\n")) b'0'

-- `formatPaddedCell(cell)`
unfoldable pub format_padded_cell : Cell → Str
format_padded_cell c = padded_text c (pad_of c) ++ codes "\n"

pub record Hop : Type 0 where
  pub address : Str
  pub kem_public_key : Str
  pub node_id : Str

pub record Circuit : Type 0 where
  pub circuit_id : Str
  pub hops : List Hop
  -- one key for each hop
  pub keys : List Str
  pub target_node_id : Str
  pub created_at : ℕ

-- What a layer of a cell holds. The payload is an object, as its JSON text.
pub data Layer : Type 0 where
  deliver : Str → Str → Layer
  forward : Str → Cell → Layer
  nothing : Layer

unfoldable pub layer_text : Layer → Str
layer_text (deliver target payload) =
    json_object ((codes "deliverTo", json_text target) ∷ (codes "payload", payload) ∷ [])
layer_text (forward address cell) =
    json_object ((codes "forwardTo", json_text address) ∷ (codes "cell", cell_text cell) ∷ [])
layer_text nothing = codes "{}"

unfoldable pub cell_of : Str → Str × Str × Str → Cell
cell_of circuit_id box = record {
  circuit_id = circuit_id;
  iv = box.0;
  ciphertext = box.1;
  auth_tag = box.2;
}

unfoldable pub seal_layer : Crypto → Str → Str → ℕ → Layer → Cell
seal_layer crypto circuit_id key draw layer =
    cell_of circuit_id (crypto.encrypt (layer_text layer) key draw)

-- The loop of `sendOnionCell` from the last hop to the first, on the hops behind the first; the draws count
-- from the last hop on.
unfoldable pub wrap : Crypto → Str → Str → Str → ℕ → Str → List (Hop × Str) → Cell
wrap crypto circuit_id target payload draw key [] =
    seal_layer crypto circuit_id key draw (deliver target payload)
wrap crypto circuit_id target payload draw key ((hop, next_key) ∷ rest) =
    seal_layer crypto circuit_id key (suc (draw + length rest))
      (forward hop.address (wrap crypto circuit_id target payload draw next_key rest))

unfoldable pub zip : List Hop → List Str → List (Hop × Str)
zip (hop ∷ hops) (key ∷ keys) = (hop, key) ∷ zip hops keys
zip (hop ∷ hops) [] = []
zip [] keys = []

-- The padded cell that goes to the guard
unfoldable pub onion_of : Crypto → ℕ → Str → Str → Str → List (Hop × Str) → Option (Str × Cell)
onion_of crypto draw circuit_id target payload [] = none
onion_of crypto draw circuit_id target payload ((hop, key) ∷ rest) =
    some (hop.address, wrap crypto circuit_id target payload draw key rest)

-- `sendOnionCell(circuit, targetNodeId, payload)`: the address of the guard and the cell for it; `none` when
-- the payload is too long.
unfoldable pub send_onion_cell : Crypto → ℕ → Circuit → Str → Str → Option (Str × Cell)
send_onion_cell crypto draw c target payload =
    if ltb max_onion_payload (byte_length payload)
    then none
    else onion_of crypto draw c.circuit_id target payload (zip c.hops c.keys)

-- `getActiveCircuitForTarget(targetNodeId)`: the circuit, and the pool that is left.
unfoldable pub find_active :
    ℕ → ℕ → Str → List (Str × Circuit) → Option Circuit × List (Str × Circuit)
find_active ttl now target [] = (none, [])
find_active ttl now target ((circuit_id, c) ∷ pool) =
    let (found, rest) = find_active ttl now target pool in
    if ltb ttl (now - c.created_at)
    then (found, rest)
    else if str_eq c.target_node_id target
    then (some c, (circuit_id, c) ∷ pool)
    else (found, (circuit_id, c) ∷ rest)

unfoldable pub get_active_circuit_for_target :
    ℕ → ℕ → Str → List (Str × Circuit) → Option Circuit × List (Str × Circuit)
get_active_circuit_for_target ttl now [] pool = (none, pool)
get_active_circuit_for_target ttl now (t ∷ target) pool = find_active ttl now (t ∷ target) pool

-- `removeClientCircuit(circuitId)`
unfoldable pub remove_client_circuit : Str → List (Str × Circuit) → List (Str × Circuit)
remove_client_circuit [] pool = pool
remove_client_circuit (c ∷ circuit_id) pool = JsMap.delete (c ∷ circuit_id) pool

unfoldable pub uses_hop : Str → List Hop → Bool
uses_hop address [] = false
uses_hop address (h ∷ hops) = str_eq h.address address || uses_hop address hops

unfoldable pub keep_others : Str → List (Str × Circuit) → List (Str × Circuit)
keep_others address [] = []
keep_others address ((circuit_id, c) ∷ pool) =
    let rest = keep_others address pool in
    if uses_hop address c.hops then rest else (circuit_id, c) ∷ rest

-- `removeCircuitsForHop(hopAddress)`
unfoldable pub remove_circuits_for_hop : Str → List (Str × Circuit) → List (Str × Circuit)
remove_circuits_for_hop [] pool = pool
remove_circuits_for_hop (c ∷ address) pool = keep_others (c ∷ address) pool

-- The client's part of `cleanupExpiredCircuits()`
unfoldable pub cleanup_expired_circuits : ℕ → ℕ → List (Str × Circuit) → List (Str × Circuit)
cleanup_expired_circuits ttl now [] = []
cleanup_expired_circuits ttl now ((circuit_id, c) ∷ pool) =
    let rest = cleanup_expired_circuits ttl now pool in
    if ltb ttl (now - c.created_at) then rest else (circuit_id, c) ∷ rest

-- The channel that a cell came over
pub record Incoming : Type 0 where
  pub peer_node_address : Str
  pub remote_address : Str
  pub remote_port : ℕ

unfoldable pub bracketed : Str → Str
bracketed ip = if has_char b':' ip then codes "[" ++ (ip ++ codes "]") else ip

unfoldable pub remote_identifier : Str → ℕ → Str
remote_identifier [] port = codes "unknown"
remote_identifier (c ∷ ip) port =
    if port == 0 then c ∷ ip else bracketed (c ∷ ip) ++ (codes ":" ++ decimal port)

-- `getHopIdentifier(channel)`
unfoldable pub get_hop_identifier : Incoming → Str
get_hop_identifier i =
    if length i.peer_node_address == 0
    then remote_identifier (strip_prefix (codes "::ffff:") i.remote_address) i.remote_port
    else i.peer_node_address
