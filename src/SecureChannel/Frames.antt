-- ===== src/SecureChannel/Frames.antt =====
-- `handleFrame` and `markReady` of src/core/secureChannel.js.
use metrice.Base.{
  ℕ, suc, ◌+◌, Bool, true, not, ◌&&◌, ◌||◌, Option, none, some, List, [], ◌∷◌, ◌++◌, Str, codes,
  str_eq, remove_first, ◌==◌, if◌then◌else◌, length,
}
use metrice.Base.Number.{decimal}
use metrice.NonceTracker.{track}
use metrice.SecureChannel.Peer.{raw_remote, validate_peer_ip}
use metrice.SecureChannel.{
  Crypto, Network, Frame, handshake_init, handshake_reply, encrypted_frame, dialback_confirm,
  onion_cell, other_frame, Effect, write, destroy, clear_timeout, save_trusted_key, emit_ready,
  emit_observed, emit_payload, Env, Channel, init_text, reply_text, canonical_address, sealed,
}

unfoldable pub refuse : Channel → Channel × List Effect
refuse c = (record c { is_destroyed = true }, destroy ∷ [])

-- The loop of `markReady` over the queue
unfoldable pub flush : Crypto → Str → ℕ → List Str → List Effect
flush crypto key random [] = []
flush crypto key random (payload ∷ queue) =
    write (sealed (crypto.encrypt payload key random)) ∷ flush crypto key (suc random) queue

-- `this.sessionKey = key` and `markReady()`
unfoldable pub mark_ready : Crypto → Str → Channel → Channel × List Effect
mark_ready crypto key c = (
  record c {
    session_key = some key;
    is_ready = true;
    pending_queue = [];
    draws = c.draws + length c.pending_queue;
  },
  clear_timeout ∷ emit_ready ∷ flush crypto key c.draws c.pending_queue,
)

-- `this.peerNodeAddress = …`, `this.peerIdentityKey = …`, `this.peerKemKey = …`
unfoldable pub set_peer : Option Str → Str → Str → Channel → Channel
set_peer address identity_key kem_key c = record c {
  peer_node_address = address;
  peer_identity_key = identity_key;
  peer_kem_key = kem_key;
}

unfoldable pub session_info : Str
session_info = codes "p2p-mesh-transport-v1"

-- `observedAddress` of a reply
unfoldable pub observed_remote : Network → Str
observed_remote net =
    remove_first (codes "::ffff:") (raw_remote net)
    ++ (codes ":"
        ++ decimal (if net.real_remote_port == 0 then net.remote_port else net.real_remote_port))

unfoldable pub signed_reply : Env → Str → Str → Frame
signed_reply env encapsulated_key nonce =
    let me = env.me in
    let observed = observed_remote env.net in
    let text =
      reply_text (canonical_address me) me.identity_public me.kem_public encapsulated_key nonce
        observed in
    handshake_reply (canonical_address me) me.identity_public me.kem_public encapsulated_key nonce
      observed (env.crypto.sign text me.identity_private)

-- A HANDSHAKE_INIT whose signature holds
unfoldable pub accept_init : Env → Option Str → Str → Str → Str → Channel → Channel × List Effect
accept_init env address identity_key kem_key nonce c =
    let saved = save_trusted_key address identity_key kem_key in
    elim (env.crypto.encapsulate kem_key c.draws) [
      | none ↦ (set_peer address identity_key kem_key c, saved ∷ [])
      | some secret ↦
          let key = env.crypto.derive_key secret.0 nonce session_info in
          let (next, effects) =
            mark_ready env.crypto key
              (record (set_peer address identity_key kem_key c) { draws = suc c.draws }) in
          (next, saved ∷ write (signed_reply env secret.1 nonce) ∷ effects)
    ]

-- `handleFrame` of a HANDSHAKE_INIT behind the test of the nonce
unfoldable pub check_init :
    Env → Option Str → Str → Str → Str → Str → Channel → Channel × List Effect
check_init env address identity_key kem_key nonce sig c =
    elim (validate_peer_ip env.crypto env.local env.net address identity_key) [
      | none ↦ (c, [])
      | some ok ↦
          if ok && env.crypto.verify (init_text address identity_key kem_key nonce) sig identity_key
          then accept_init env address identity_key kem_key nonce c
          else refuse c
    ]

unfoldable pub handle_init :
    Env → ℕ → Option Str → Str → Str → Str → Str → Channel → Channel × List Effect
handle_init env now address identity_key kem_key nonce sig c =
    let (tracker, is_fresh) = track now nonce env.net.remote_address c.nonce_tracker in
    let tracked = record c { nonce_tracker = tracker } in
    if c.is_initiator
    then refuse c
    else if is_fresh
    then check_init env address identity_key kem_key nonce sig tracked
    else refuse tracked

-- The signature with the observed address, or, if there is one, without it
unfoldable pub is_valid_reply : Crypto → Option Str → Str → Str → Str → Str → Str → Str → Bool
is_valid_reply crypto address identity_key kem_key encapsulated_key nonce observed sig =
    crypto.verify (reply_text address identity_key kem_key encapsulated_key nonce observed) sig
      identity_key
    || (not (length observed == 0)
        && crypto.verify (reply_text address identity_key kem_key encapsulated_key nonce []) sig
            identity_key)

unfoldable pub observed_effects : Str → Option Str → List Effect
observed_effects [] address = []
observed_effects (c ∷ observed) address = emit_observed (c ∷ observed) address ∷ []

-- A HANDSHAKE_REPLY whose signature holds
unfoldable pub accept_reply :
    Env → Option Str → Str → Str → Str → Str → Str → Channel → Channel × List Effect
accept_reply env address identity_key kem_key encapsulated_key nonce observed c =
    let saved = save_trusted_key address identity_key kem_key in
    let known = record (set_peer address identity_key kem_key c) { observed_address = observed } in
    elim (env.crypto.decapsulate env.me.kem_private encapsulated_key) [
      | none ↦ (known, saved ∷ [])
      | some secret ↦
          let (next, effects) =
            mark_ready env.crypto (env.crypto.derive_key secret nonce session_info) known in
          (next, saved ∷ (observed_effects observed address ++ effects))
    ]

unfoldable pub handle_reply :
    Env → Option Str → Str → Str → Str → Str → Str → Str → Channel → Channel × List Effect
handle_reply env address identity_key kem_key encapsulated_key nonce observed sig c =
    if not c.is_initiator
    then refuse c
    else if (length c.my_nonce == 0) || not (str_eq nonce c.my_nonce)
    then refuse c
    else if is_valid_reply env.crypto address identity_key kem_key encapsulated_key nonce observed
        sig
    then accept_reply env address identity_key kem_key encapsulated_key nonce observed c
    else refuse c

-- What comes out of an ENCRYPTED_FRAME; an empty text does not count.
unfoldable pub payload_effects : Env → Option Str → List Effect
payload_effects env none = []
payload_effects env (some []) = []
payload_effects env (some (b ∷ text)) =
    if env.is_json (b ∷ text) then emit_payload (b ∷ text) ∷ [] else []

unfoldable pub handle_encrypted : Env → Str × Str × Str → Channel → Channel × List Effect
handle_encrypted env box c = elim c.session_key [
  | none ↦ (c, [])
  | some key ↦ if c.is_ready then (c, payload_effects env (env.crypto.decrypt box key)) else (c, [])
]

-- `handleFrame(frame)` at the time `now`
unfoldable pub handle_frame : Env → ℕ → Frame → Channel → Channel × List Effect
handle_frame env now (handshake_init address identity_key kem_key nonce sig) c =
    handle_init env now address identity_key kem_key nonce sig c
handle_frame env now
      (handshake_reply address identity_key kem_key encapsulated_key nonce observed sig) c =
    handle_reply env address identity_key kem_key encapsulated_key nonce observed sig c
handle_frame env now (encrypted_frame iv ciphertext auth_tag) c =
    handle_encrypted env (iv, ciphertext, auth_tag) c
handle_frame env now (dialback_confirm frame) c = (c, [])
handle_frame env now (onion_cell frame) c = (c, [])
handle_frame env now other_frame c = (c, [])
