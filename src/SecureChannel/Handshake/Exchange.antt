-- ===== src/SecureChannel/Handshake/Exchange.antt =====
-- The steps of a handshake of src/core/secureChannel.js between two honest nodes, one by one.
use metrice.Base.{
  ℕ, suc, true, false, not, ◌||◌, some, List, [], ◌∷◌, ◌++◌, ◌≡◌, refl, sym, ◌∙◌, ap, arith, Str,
  str_eq, str_eq_refl, All, some-cases, if-cases, if-true, if-false, some-is, map, ◌==◌, length,
}
use metrice.NonceTracker.{track}
use metrice.SecureChannel.Peer.{validate_peer_ip}
use metrice.SecureChannel.Frames.{
  flush, mark_ready, set_peer, session_info, observed_remote, signed_reply, accept_init, check_init,
  handle_init, is_valid_reply, observed_effects, accept_reply, handle_reply, payload_effects,
  handle_encrypted, handle_frame,
}
use metrice.SecureChannel.{
  Effect, write, save_trusted_key, emit_payload, Env, Channel, init_text, reply_text,
  canonical_address, signed_init, sealed,
}
use metrice.SecureChannel.Handshake.{sent, receive, Honest, IsPayload, answered, Opens}

payload_effects-some :
    (env : Env) (text : Str)
    → IsPayload env text
    → payload_effects env (some text) ≡ emit_payload text ∷ []
unfolding payload_effects
payload_effects-some env [] (h, k) = absurd (omega arith)
payload_effects-some env (c ∷ text) (h, k) = rw (k) refl

-- A ready channel hands on what its peer sealed.
handle_sealed :
    (i r : Env) (now draw : ℕ) (key text : Str) (c : Channel)
    → Honest i r
    → c.session_key ≡ some key
    → c.is_ready ≡ true
    → IsPayload i text
    → handle_frame i now (sealed (r.crypto.encrypt text key draw)) c ≡ (c, emit_payload text ∷ [])
unfolding handle_frame handle_encrypted sealed
handle_sealed i r now draw key text c honest keyed ready fits =
    some-cases (λ o. o ≡ (c, emit_payload text ∷ [])) c.session_key
      (λ unkeyed. let clash = sym unkeyed ∙ keyed in cc clash)
      (λ k e.
        if-cases (λ o. o ≡ (c, emit_payload text ∷ [])) c.is_ready
          (λ _.
            let same : k ≡ key = (let joined = sym e ∙ keyed in cc joined) in
            ap (λ o. (c, payload_effects i o))
              (ap (i.crypto.decrypt (r.crypto.encrypt text key draw)) same
                ∙ honest.unseals text key draw)
            ∙ ap (λ effects. (c, effects)) (payload_effects-some i text fits))
          (λ unready. cc (ready, unready)))

-- A ready channel hands on everything that its peer flushes, in order.
pub receive-flush :
    (i r : Env) (now draw : ℕ) (key : Str) (queue : List Str) (c : Channel)
    → Honest i r
    → c.session_key ≡ some key
    → c.is_ready ≡ true
    → All (IsPayload i) queue
    → receive i now (sent (flush r.crypto key draw queue)) c ≡ (c, map emit_payload queue)
unfolding receive flush
receive-flush i r now draw key [] c honest keyed ready fits = refl
receive-flush i r now draw key (text ∷ queue) c honest keyed ready (fit, fits) =
    let next = sent (flush r.crypto key (suc draw) queue) in
    ap
      (λ (o : Channel × List Effect).
        ((receive i now next o.0).0, o.1 ++ (receive i now next o.0).1))
      (handle_sealed i r now draw key text c honest keyed ready fit)
    ∙ ap (λ (o : Channel × List Effect). (o.0, emit_payload text ∷ o.1))
        (receive-flush i r now (suc draw) key queue c honest keyed ready fits)

-- A responder takes the HANDSHAKE_INIT of an honest initiator.
handle_frame-signed_init :
    (i r : Env) (now : ℕ) (nonce secret encapsulated : Str) (c : Channel)
    → Honest i r
    → c.is_initiator ≡ false
    → (track now nonce r.net.remote_address c.nonce_tracker).1 ≡ true
    → validate_peer_ip r.crypto r.local r.net (canonical_address i.me) i.me.identity_public
      ≡ some true
    → handle_frame r now (signed_init i.crypto i.me nonce) c
      ≡ accept_init r
          (canonical_address i.me)
          i.me.identity_public
          i.me.kem_public
          nonce
          (record c { nonce_tracker = (track now nonce r.net.remote_address c.nonce_tracker).0 })
unfolding handle_frame signed_init handle_init check_init
handle_frame-signed_init i r now nonce secret encapsulated c honest responder fresh valid =
    if-false _ responder
    ∙ (if-true _ fresh
        ∙ (some-is _ _ valid
            ∙ if-true _ (
                honest.signs
                  (init_text (canonical_address i.me) i.me.identity_public i.me.kem_public nonce))))

is_valid_reply-signed :
    (i r : Env) (encapsulated nonce : Str)
    → Honest i r
    → (let text =
          reply_text
            (canonical_address r.me)
            r.me.identity_public
            r.me.kem_public
            encapsulated
            nonce
            (observed_remote r.net) in
        is_valid_reply i.crypto
          (canonical_address r.me)
          r.me.identity_public
          r.me.kem_public
          encapsulated
          nonce
          (observed_remote r.net)
          (r.crypto.sign text r.me.identity_private))
      ≡ true
unfolding is_valid_reply
is_valid_reply-signed i r encapsulated nonce honest =
    let text =
      reply_text (canonical_address r.me) r.me.identity_public r.me.kem_public encapsulated nonce
        (observed_remote r.net) in
    rw (honest.replies text) refl

-- An initiator takes the reply of an honest responder to its own nonce.
handle_frame-signed_reply :
    (i r : Env) (now n : ℕ) (nonce encapsulated : Str) (c : Channel)
    → Honest i r
    → c.is_initiator ≡ true
    → c.my_nonce ≡ n ∷ nonce
    → handle_frame i now (signed_reply r encapsulated (n ∷ nonce)) c
      ≡ accept_reply i
          (canonical_address r.me)
          r.me.identity_public
          r.me.kem_public
          encapsulated
          (n ∷ nonce)
          (observed_remote r.net)
          c
unfolding handle_frame signed_reply handle_reply
handle_frame-signed_reply i r now n nonce encapsulated c honest initiator mine =
    let same : ((length c.my_nonce == 0) || not (str_eq (n ∷ nonce) c.my_nonce)) ≡ false =
      ap (λ s. (length s == 0) || not (str_eq (n ∷ nonce) s)) mine
      ∙ (ap (λ b. (length (n ∷ nonce) == 0) || not b) (str_eq_refl (n ∷ nonce)) ∙ ground arith) in
    if-false _ (ap not initiator)
    ∙ (if-false _ same ∙ if-true _ (is_valid_reply-signed i r encapsulated (n ∷ nonce) honest))

module _ (i r : Env) (now n : ℕ) (nonce secret encapsulated : Str) (c d : Channel) where
  unfoldable pub session : Str
  session = r.crypto.derive_key secret (n ∷ nonce) session_info

  unfoldable pub tracked : Channel
  tracked = record d {
    nonce_tracker = (track now (n ∷ nonce) r.net.remote_address d.nonce_tracker).0;
  }

  unfoldable pub responder_known : Channel
  responder_known =
      record (set_peer (canonical_address i.me) i.me.identity_public i.me.kem_public tracked) {
        draws = suc d.draws;
      }

  unfoldable pub initiator_known : Channel
  initiator_known =
      record (set_peer (canonical_address r.me) r.me.identity_public r.me.kem_public c) {
        observed_address = observed_remote r.net;
      }

  pub answered_is :
      Opens i r now (n ∷ nonce) secret encapsulated c d
      → answered i r now (n ∷ nonce) d ≡ (
        (mark_ready r.crypto session responder_known).0,
        save_trusted_key (canonical_address i.me) i.me.identity_public i.me.kem_public
            ∷ write (signed_reply r encapsulated (n ∷ nonce))
            ∷ (mark_ready r.crypto session responder_known).1,
      )
  unfolding accept_init set_peer session tracked responder_known
  answered_is o =
      handle_frame-signed_init i r now (n ∷ nonce) secret encapsulated d o.honest o.responds o.fresh
        o.valid
      ∙ some-is _ _ o.encapsulates

  pub reply_is :
      Opens i r now (n ∷ nonce) secret encapsulated c d
      → handle_frame i now (signed_reply r encapsulated (n ∷ nonce)) c ≡ (
        (mark_ready i.crypto session initiator_known).0,
        save_trusted_key (canonical_address r.me) r.me.identity_public r.me.kem_public
            ∷ (observed_effects (observed_remote r.net) (canonical_address r.me)
                ++ (mark_ready i.crypto session initiator_known).1),
      )
  unfolding accept_reply set_peer session initiator_known
  reply_is o =
      handle_frame-signed_reply i r now n nonce encapsulated c o.honest o.initiates o.mine
      ∙ (some-is _ _ (o.honest.opens secret encapsulated d.draws o.encapsulates)
          ∙ ap
              (λ key. (
                (mark_ready i.crypto key initiator_known).0,
                save_trusted_key (canonical_address r.me) r.me.identity_public r.me.kem_public
                    ∷ (observed_effects (observed_remote r.net) (canonical_address r.me)
                        ++ (mark_ready i.crypto key initiator_known).1),
              ))
              (o.honest.derives secret (n ∷ nonce) session_info))
