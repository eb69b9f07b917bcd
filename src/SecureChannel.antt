-- ===== src/SecureChannel.antt =====
-- `SecureChannel` of src/core/secureChannel.js: its state, its frames, and what it sends.
pub mod Peer
pub mod Frames
pub mod Lines
pub mod Events
pub mod Handshake
pub mod Authentic
mod Tests
use metrice.Base.{
  ℕ, suc, ◌+◌, ◌-◌, ◌/◌, ◌%◌, Bool, true, false, ◌&&◌, ◌||◌, Option, none, some, List, [], ◌∷◌,
  ◌++◌, Str, codes, str_eq, join, leb, ltb, ◌==◌, if◌then◌else◌, map,
}
use metrice.AddressHelper.{Local}
use metrice.NonceTracker.{NonceTracker}

-- What CryptoHelper takes from node:crypto. A call that throws gives `none`.
pub record Crypto : Type 0 where
  -- content, private key
  pub sign : Str → Str → Str
  -- content, signature, public key
  pub verify : Str → Str → Str → Bool
  -- public key, number of the draw of randomness: the shared secret and the key that carries it
  pub encapsulate : Str → ℕ → Option (Str × Str)
  -- private key, encapsulated key
  pub decapsulate : Str → Str → Option Str
  -- secret, salt, info
  pub derive_key : Str → Str → Str → Str
  -- text, key, number of the draw: iv, ciphertext, tag
  pub encrypt : Str → Str → ℕ → Str × Str × Str
  pub decrypt : Str × Str × Str → Str → Option Str
  pub derive_node_id : Str → Option Str

-- What the channel takes from the network: the two addresses of the socket, the tests and the name
-- lookup of node:net and node:dns. A lookup that fails gives `none`.
pub record Network : Type 0 where
  pub remote_address : Str
  pub real_remote_address : Str
  pub remote_port : ℕ
  pub real_remote_port : ℕ
  pub is_ipv6 : Str → Bool
  pub lookup : Str → Option (List Str)

-- `myIdentity`
pub record Identity : Type 0 where
  pub role : Str
  -- `getRelayAnnounceAddress()`, if there is that method
  pub announce : Option Str
  pub node_address : Option Str
  pub identity_public : Str
  pub identity_private : Str
  pub kem_public : Str
  pub kem_private : Str

-- A line that `JSON.parse` reads, by its type. An observed address that is missing is empty.
pub data Frame : Type 0 where
  handshake_init : (node_address : Option Str) (identity_key kem_key nonce sig : Str) → Frame
  handshake_reply :
      (node_address : Option Str) (identity_key kem_key encapsulated_key nonce observed sig : Str)
      → Frame
  encrypted_frame : (iv ciphertext auth_tag : Str) → Frame
  dialback_confirm : Str → Frame
  onion_cell : Str → Frame
  other_frame : Frame

-- What a call does outside the channel, in order.
pub data Effect : Type 0 where
  write : Frame → Effect
  write_pong : Effect
  destroy : Effect
  pause : Effect
  resume : Effect
  clear_timeout : Effect
  save_trusted_key : Option Str → Str → Str → Effect
  emit_ready : Effect
  emit_pong : Effect
  emit_observed : Str → Option Str → Effect
  emit_payload : Str → Effect
  emit_dialback : Str → Effect
  emit_onion : Str → Effect

-- What does not change while a channel lives.
pub record Env : Type 0 where
  pub crypto : Crypto
  pub net : Network
  pub local : Local
  pub me : Identity
  -- `JSON.parse` of a line, and whether it takes a text
  pub parse_frame : Str → Option Frame
  pub is_json : Str → Bool
  -- CONFIG.secureBufferLimit
  pub buffer_limit : ℕ

pub record Channel : Type 0 where
  pub is_initiator : Bool
  pub is_ready : Bool
  pub session_key : Option Str
  pub peer_node_address : Option Str
  pub peer_identity_key : Str
  pub peer_kem_key : Str
  pub observed_address : Str
  -- the payloads as JSON texts
  pub pending_queue : List Str
  pub buffer : Str
  pub is_processing : Bool
  pub my_nonce : Str
  pub last_pong : ℕ
  -- `socket.destroyed`
  pub is_destroyed : Bool
  -- how often randomness was drawn
  pub draws : ℕ
  -- the tracker that all channels share
  pub nonce_tracker : NonceTracker

-- The fields as the constructor sets them
unfoldable pub new_channel : Bool → ℕ → NonceTracker → Channel
new_channel is_initiator now tracker = record {
  is_initiator = is_initiator;
  is_ready = false;
  session_key = none;
  peer_node_address = none;
  peer_identity_key = [];
  peer_kem_key = [];
  observed_address = [];
  pending_queue = [];
  buffer = [];
  is_processing = false;
  my_nonce = [];
  last_pong = now;
  is_destroyed = false;
  draws = 0;
  nonce_tracker = tracker;
}

-- `a || b` on texts
unfoldable pub or_else : Str → Str → Str
or_else [] b = b
or_else (c ∷ a) b = c ∷ a

-- The escapes of `JSON.stringify` in a text
unfoldable pub hex_digit : ℕ → ℕ
hex_digit n = if ltb n 10 then b'0' + n else b'a' + (n - 10)

unfoldable pub escape_char : ℕ → Str
escape_char c =
    if c == b'"'
    then codes "\\\""
    else if c == b'\\'
    then codes "\\\\"
    else if c == 8
    then codes "\\b"
    else if c == 9
    then codes "\\t"
    else if c == 10
    then codes "\\n"
    else if c == 12
    then codes "\\f"
    else if c == 13
    then codes "\\r"
    else if ltb c 32
    then codes "\\u00" ++ hex_digit (c / 16) ∷ hex_digit (c % 16) ∷ []
    else c ∷ []

unfoldable pub escape : Str → Str
escape [] = []
escape (c ∷ s) = escape_char c ++ escape s

unfoldable pub json_text : Str → Str
json_text s = codes "\"" ++ (escape s ++ codes "\"")

unfoldable pub json_or_null : Option Str → Str
json_or_null none = codes "null"
json_or_null (some s) = json_text s

-- `JSON.stringify` of an object with the fields given
unfoldable pub json_field : Str × Str → Str
json_field (key, value) = json_text key ++ (codes ":" ++ value)

unfoldable pub json_object : List (Str × Str) → Str
json_object fields = codes "{" ++ (join (codes ",") (map json_field fields) ++ codes "}")

-- `dataToSign` and `dataToVerify`: the text of HANDSHAKE_INIT that is signed
unfoldable pub init_text : Option Str → Str → Str → Str → Str
init_text node_address identity_key kem_key nonce = json_object (
    (codes "type", json_text (codes "HANDSHAKE_INIT"))
    ∷ (codes "nodeAddress", json_or_null node_address)
    ∷ (codes "identityPublicKey", json_text identity_key)
    ∷ (codes "kemPublicKey", json_text kem_key)
    ∷ (codes "nonce", json_text nonce)
    ∷ [])

-- `observedAddress`, which is left out when it is missing
unfoldable pub observed_field : Str → List (Str × Str)
observed_field [] = []
observed_field (c ∷ observed) = (codes "observedAddress", json_text (c ∷ observed)) ∷ []

-- `replyDataToSign` and `verifyObj`
unfoldable pub reply_text : Option Str → Str → Str → Str → Str → Str → Str
reply_text node_address identity_key kem_key encapsulated_key nonce observed = json_object (
    (codes "type", json_text (codes "HANDSHAKE_REPLY"))
    ∷ (codes "nodeAddress", json_or_null node_address)
    ∷ (codes "identityPublicKey", json_text identity_key)
    ∷ (codes "kemPublicKey", json_text kem_key)
    ∷ (codes "encapsulatedKey", json_text encapsulated_key)
    ∷ (codes "nonce", json_text nonce)
    ∷ observed_field observed)

-- `isRelay` and `canonicalAddress`
unfoldable pub canonical_address : Identity → Option Str
canonical_address me =
    if str_eq me.role (codes "RELAY") || str_eq me.role (codes "CAP_RELAY")
    then elim me.announce [ none ↦ me.node_address | some address ↦ some address ]
    else me.node_address

unfoldable pub signed_init : Crypto → Identity → Str → Frame
signed_init crypto me nonce =
    let text = init_text (canonical_address me) me.identity_public me.kem_public nonce in
    handshake_init (canonical_address me) me.identity_public me.kem_public nonce
      (crypto.sign text me.identity_private)

-- `sendHandshakeInit()` with the nonce that was generated
unfoldable pub send_handshake_init : Crypto → Identity → Str → Channel → Channel × List Effect
send_handshake_init crypto me nonce c =
    (record c { my_nonce = nonce }, write (signed_init crypto me nonce) ∷ [])

-- `new SecureChannel(socket, isInitiator, …)`; a responder needs no nonce.
unfoldable pub construct : Env → Bool → Str → ℕ → NonceTracker → Channel × List Effect
construct env is_initiator nonce now tracker =
    let c = new_channel is_initiator now tracker in
    if is_initiator then send_handshake_init env.crypto env.me nonce c else (c, [])

-- The frame of `writePayload`
unfoldable pub sealed : Str × Str × Str → Frame
sealed (iv, ciphertext, auth_tag) = encrypted_frame iv ciphertext auth_tag

-- `writePayload(payload)`
unfoldable pub write_payload : Crypto → Str → Channel → Channel × List Effect
write_payload crypto payload c = elim c.session_key [
  | none ↦ (record c { pending_queue = c.pending_queue ++ payload ∷ [] }, [])
  | some key ↦
      if c.is_ready
      then (
        record c { draws = suc c.draws },
        write (sealed (crypto.encrypt payload key c.draws)) ∷ [],
      )
      else (record c { pending_queue = c.pending_queue ++ payload ∷ [] }, [])
]
