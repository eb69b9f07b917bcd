-- ===== src/SecureChannel/Handshake.antt =====
-- The handshake of src/core/secureChannel.js between two nodes that run it.
pub mod Exchange
pub mod Agreement
use metrice.Base.{
  ℕ, zero, suc, ◌+◌, Bool, true, false, not, ◌&&◌, ◌||◌, Option, none, some, some-injective, List,
  [], ◌∷◌, ◌++◌, ◌≡◌, refl, sym, ◌∙◌, ap, subst, inl, inr, arith, Str, codes, str_eq, str_eq_refl,
  if◌then◌else◌, All, some-cases, if-cases, if-true, if-false, some-is, ◌≤◌, append-nil,
  append_assoc, map, ◌==◌, length,
}
use metrice.NonceTracker.{NonceTracker, track}
use metrice.SecureChannel.Peer.{validate_peer_ip}
use metrice.SecureChannel.Frames.{
  flush, mark_ready, set_peer, session_info, observed_remote, signed_reply, accept_init, check_init,
  handle_init, is_valid_reply, observed_effects, accept_reply, handle_reply, payload_effects,
  handle_encrypted, handle_frame,
}
use metrice.SecureChannel.{
  Crypto, Frame, handshake_init, handshake_reply, encrypted_frame, Effect, write, write_pong,
  destroy, pause, resume, clear_timeout, save_trusted_key, emit_ready, emit_pong, emit_observed,
  emit_payload, emit_dialback, emit_onion, Env, Channel, init_text, reply_text, canonical_address,
  signed_init, sealed,
}

-- The frames that are written, in order
abbrev pub frames_of : Effect → List Frame
frames_of (write frame) = frame ∷ []
frames_of write_pong = []
frames_of destroy = []
frames_of pause = []
frames_of resume = []
frames_of clear_timeout = []
frames_of (save_trusted_key address identity_key kem_key) = []
frames_of emit_ready = []
frames_of emit_pong = []
frames_of (emit_observed observed address) = []
frames_of (emit_payload text) = []
frames_of (emit_dialback frame) = []
frames_of (emit_onion frame) = []

abbrev pub sent : List Effect → List Frame
sent [] = []
sent (e ∷ effects) = frames_of e ++ sent effects

-- The payloads that are handed on, in order
abbrev pub payloads_of : Effect → List Str
payloads_of (emit_payload text) = text ∷ []
payloads_of (write frame) = []
payloads_of write_pong = []
payloads_of destroy = []
payloads_of pause = []
payloads_of resume = []
payloads_of clear_timeout = []
payloads_of (save_trusted_key address identity_key kem_key) = []
payloads_of emit_ready = []
payloads_of emit_pong = []
payloads_of (emit_observed observed address) = []
payloads_of (emit_dialback frame) = []
payloads_of (emit_onion frame) = []

abbrev pub handed_on : List Effect → List Str
handed_on [] = []
handed_on (e ∷ effects) = payloads_of e ++ handed_on effects

-- A channel takes the frames that its peer wrote.
unfoldable pub receive : Env → ℕ → List Frame → Channel → Channel × List Effect
receive env now [] c = (c, [])
receive env now (frame ∷ frames) c =
    let (next, effects) = handle_frame env now frame c in
    let (last, more) = receive env now frames next in (last, effects ++ more)

-- What the cipher library promises to an initiator `i` and a responder `r`, whose keys belong to them: signatures
-- hold, an encapsulated key is opened with the private key, a sealed text with the same key, and both derive keys alike.
pub record Honest (i r : Env) : Type 0 where
  pub signs :
      (text : Str)
      → r.crypto.verify text (i.crypto.sign text i.me.identity_private) i.me.identity_public ≡ true
  pub replies :
      (text : Str)
      → i.crypto.verify text (r.crypto.sign text r.me.identity_private) r.me.identity_public ≡ true
  pub opens :
      (secret encapsulated : Str) (draw : ℕ)
      → r.crypto.encapsulate i.me.kem_public draw ≡ some (secret, encapsulated)
      → i.crypto.decapsulate i.me.kem_private encapsulated ≡ some secret
  pub derives :
      (secret salt info : Str)
      → i.crypto.derive_key secret salt info ≡ r.crypto.derive_key secret salt info
  pub unseals :
      (text key : Str) (draw : ℕ)
      → i.crypto.decrypt (r.crypto.encrypt text key draw) key ≡ some text

-- A payload as `JSON.stringify` gives it: not empty, and `JSON.parse` takes it.
abbrev pub IsPayload : Env → Str → Type 0
IsPayload env text = (1 ≤ length text) × (env.is_json text ≡ true)

-- The responder's state after the exchange, and the initiator's
abbrev pub answered : Env → Env → ℕ → Str → Channel → Channel × List Effect
answered i r now nonce c = handle_frame r now (signed_init i.crypto i.me nonce) c

abbrev pub concluded : Env → Env → ℕ → Str → Channel → Channel → Channel × List Effect
concluded i r now nonce c d = receive i now (sent (answered i r now nonce d).1) c

-- What the exchange rests on: the responder `d` has not seen the nonce, accepts the address, and can encapsulate a key;
-- the initiator `c` sent the nonce.
pub record Opens (i r : Env) (now : ℕ) (nonce secret encapsulated : Str) (c d : Channel)
    : Type 0 where
  pub honest : Honest i r
  pub initiates : c.is_initiator ≡ true
  pub mine : c.my_nonce ≡ nonce
  pub responds : d.is_initiator ≡ false
  pub fresh : (track now nonce r.net.remote_address d.nonce_tracker).1 ≡ true
  pub valid :
      validate_peer_ip r.crypto r.local r.net (canonical_address i.me) i.me.identity_public
      ≡ some true
  pub encapsulates : r.crypto.encapsulate i.me.kem_public d.draws ≡ some (secret, encapsulated)
