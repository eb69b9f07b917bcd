-- ===== src/SecureChannel/Authentic.antt =====
-- What a frame that is not authentic does to a channel of src/core/secureChannel.js.
pub mod Spoofed
use metrice.Base.{
  ℕ, Bool, true, false, not, ◌&&◌, ◌||◌, Option, none, some, List, [], ◌∷◌, ◌++◌, ◌≡◌, refl, Str,
  str_eq, length, ◌==◌, if◌then◌else◌, if-cases, not-false, and-true, some-cases, All, inl, inr,
  Bool-cases, sym, ◌∙◌, ap,
}
use metrice.NonceTracker.{NonceTracker, track}
use metrice.SecureChannel.Peer.{validate_peer_ip}
use metrice.SecureChannel.Frames.{
  refuse, accept_init, check_init, handle_init, is_valid_reply, accept_reply, handle_reply,
  payload_effects, handle_encrypted, handle_frame,
}
use metrice.SecureChannel.{
  Frame, handshake_init, handshake_reply, encrypted_frame, dialback_confirm, onion_cell,
  other_frame, Effect, write, write_pong, destroy, pause, resume, clear_timeout, save_trusted_key,
  emit_ready, emit_pong, emit_observed, emit_payload, emit_dialback, emit_onion, Env, Channel,
  init_text,
}

abbrev pub is_some_true : Option Bool → Bool
is_some_true none = false
is_some_true (some b) = b

-- A HANDSHAKE_INIT for a responder with a nonce that is fresh, an address that fits and a signature that holds, or a
-- HANDSHAKE_REPLY for an initiator with the nonce that it sent and a signature that holds
abbrev pub is_authentic : Env → ℕ → Frame → Channel → Bool
is_authentic env now (handshake_init address identity_key kem_key nonce sig) c =
    not c.is_initiator
    && ((track now nonce env.net.remote_address c.nonce_tracker).1
        && (is_some_true (validate_peer_ip env.crypto env.local env.net address identity_key)
            && env.crypto.verify (init_text address identity_key kem_key nonce) sig identity_key))
is_authentic env now
      (handshake_reply address identity_key kem_key encapsulated_key nonce observed sig) c =
    c.is_initiator
    && (not ((length c.my_nonce == 0) || not (str_eq nonce c.my_nonce))
        && is_valid_reply env.crypto address identity_key kem_key encapsulated_key nonce observed
            sig)
is_authentic env now (encrypted_frame iv ciphertext auth_tag) c = false
is_authentic env now (dialback_confirm frame) c = false
is_authentic env now (onion_cell frame) c = false
is_authentic env now other_frame c = false

-- Closing the socket, or handing on a payload
abbrev pub is_harmless : Effect → Bool
is_harmless destroy = true
is_harmless (emit_payload text) = true
is_harmless (write frame) = false
is_harmless write_pong = false
is_harmless pause = false
is_harmless resume = false
is_harmless clear_timeout = false
is_harmless (save_trusted_key address identity_key kem_key) = false
is_harmless emit_ready = false
is_harmless emit_pong = false
is_harmless (emit_observed observed address) = false
is_harmless (emit_dialback frame) = false
is_harmless (emit_onion frame) = false

-- The channel is as it was in every field but two, the tracker of nonces and whether the socket is closed, and nothing is
-- written or saved.
pub record IsKept (c : Channel) (r : Channel × List Effect) : Type 0 where
  pub channel :
      r.0 ≡ record c { nonce_tracker = r.0.nonce_tracker; is_destroyed = r.0.is_destroyed }
  pub harmless : All (λ e. is_harmless e ≡ true) r.1

pub refuse-IsKept : (c : Channel) → IsKept c (refuse c)
unfolding refuse
refuse-IsKept c = record { channel = refl; harmless = (refl, tt) }

kept :
    (c : Channel) (effects : List Effect)
    → All (λ e. is_harmless e ≡ true) effects
    → IsKept c (c, effects)
kept c effects h = record { channel = refl; harmless = h }

payload_effects-harmless :
    (env : Env) (text : Option Str) → All (λ e. is_harmless e ≡ true) (payload_effects env text)
unfolding payload_effects
payload_effects-harmless env none = tt
payload_effects-harmless env (some []) = tt
payload_effects-harmless env (some (b ∷ text)) =
    if-cases (All (λ e. is_harmless e ≡ true)) (env.is_json (b ∷ text)) (λ _. (refl, tt)) (λ _. tt)

-- A frame that is not an authentic part of the handshake leaves every field of the channel as it was, but for the
-- tracker of nonces and for whether the socket is closed; the most it does is to close the socket or to hand on a decrypted payload.
pub unauthentic-IsKept :
    (env : Env) (now : ℕ) (frame : Frame) (c : Channel)
    → is_authentic env now frame c ≡ false
    → IsKept c (handle_frame env now frame c)
unfolding handle_frame handle_init check_init handle_reply handle_encrypted refuse
unauthentic-IsKept env now (handshake_init address identity_key kem_key nonce sig) c h =
    let tracked = record c {
      nonce_tracker = (track now nonce env.net.remote_address c.nonce_tracker).0;
    } in
    let refused : IsKept c (refuse tracked) = record { channel = refl; harmless = (refl, tt) } in
    if-cases (IsKept c) c.is_initiator (λ _. refuse-IsKept c)
      (λ responder.
        if-cases (IsKept c) (track now nonce env.net.remote_address c.nonce_tracker).1
          (λ fresh.
            some-cases (IsKept c)
              (validate_peer_ip env.crypto env.local env.net address identity_key)
              (λ _. record { channel = refl; harmless = tt })
              (λ ok e.
                if-cases (IsKept c)
                  (ok
                    && env.crypto.verify (init_text address identity_key kem_key nonce) sig
                        identity_key)
                  (λ good.
                    let signed =
                      ap
                        (λ o.
                          is_some_true o
                          && env.crypto.verify (init_text address identity_key kem_key nonce) sig
                              identity_key)
                        e
                      ∙ good in
                    let whole =
                      and-true (not c.is_initiator) _ (ap not responder)
                        (and-true _ _ fresh signed) in
                    cc (whole, h))
                  (λ _. refused)))
          (λ _. refused))
unauthentic-IsKept env now
      (handshake_reply address identity_key kem_key encapsulated_key nonce observed sig) c h =
    if-cases (IsKept c) (not c.is_initiator) (λ _. refuse-IsKept c)
      (λ initiator.
        if-cases (IsKept c) ((length c.my_nonce == 0) || not (str_eq nonce c.my_nonce))
          (λ _. refuse-IsKept c)
          (λ mine.
            if-cases (IsKept c)
              (is_valid_reply env.crypto address identity_key kem_key encapsulated_key nonce
                observed sig)
              (λ good.
                let whole =
                  and-true c.is_initiator _ (not-false c.is_initiator initiator)
                    (and-true _ _ (ap not mine) good) in
                cc (whole, h))
              (λ _. refuse-IsKept c)))
unauthentic-IsKept env now (encrypted_frame iv ciphertext auth_tag) c h =
    some-cases (IsKept c) c.session_key (λ _. kept c [] tt)
      (λ key _.
        if-cases (IsKept c) c.is_ready
          (λ _.
            kept c (payload_effects env (env.crypto.decrypt (iv, ciphertext, auth_tag) key))
              (payload_effects-harmless env (env.crypto.decrypt (iv, ciphertext, auth_tag) key)))
          (λ _. kept c [] tt))
unauthentic-IsKept env now (dialback_confirm frame) c h = kept c [] tt
unauthentic-IsKept env now (onion_cell frame) c h = kept c [] tt
unauthentic-IsKept env now other_frame c h = kept c [] tt
