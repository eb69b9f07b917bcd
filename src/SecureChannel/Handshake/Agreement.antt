-- ===== src/SecureChannel/Handshake/Agreement.antt =====
-- Both ends of a handshake of src/core/secureChannel.js get the same key, and what waited arrives.
use metrice.Base.{
  ℕ, suc, true, Option, some, List, [], ◌∷◌, ◌++◌, ◌≡◌, refl, sym, ◌∙◌, ap, Str, All, append-nil,
  append_assoc, map,
}
use metrice.SecureChannel.Frames.{
  flush, mark_ready, set_peer, session_info, observed_remote, observed_effects,
}
use metrice.SecureChannel.Handshake.{
  frames_of, payloads_of, sent, handed_on, receive, Honest, IsPayload, answered, concluded, Opens,
}
use metrice.SecureChannel.Handshake.Exchange.{
  receive-flush, session, tracked, responder_known, initiator_known, answered_is, reply_is,
}
use metrice.SecureChannel.{
  Crypto, Effect, clear_timeout, save_trusted_key, emit_ready, emit_payload, Env, Channel,
  canonical_address,
}

handed_on-append : (a b : List Effect) → handed_on (a ++ b) ≡ handed_on a ++ handed_on b
handed_on-append [] b = refl
handed_on-append (e ∷ a) b =
    ap (λ t. payloads_of e ++ t) (handed_on-append a b)
    ∙ sym (append_assoc (payloads_of e) (handed_on a) (handed_on b))

sent-append : (a b : List Effect) → sent (a ++ b) ≡ sent a ++ sent b
sent-append [] b = refl
sent-append (e ∷ a) b =
    ap (λ t. frames_of e ++ t) (sent-append a b)
    ∙ sym (append_assoc (frames_of e) (sent a) (sent b))

handed_on-payloads : (queue : List Str) → handed_on (map emit_payload queue) ≡ queue
handed_on-payloads [] = refl
handed_on-payloads (text ∷ queue) = ap (◌∷◌ text) (handed_on-payloads queue)

sent-payloads : (queue : List Str) → sent (map emit_payload queue) ≡ []
sent-payloads [] = refl
sent-payloads (text ∷ queue) = sent-payloads queue

handed_on-flush :
    (crypto : Crypto) (key : Str) (draw : ℕ) (queue : List Str)
    → handed_on (flush crypto key draw queue) ≡ []
unfolding flush
handed_on-flush crypto key draw [] = refl
handed_on-flush crypto key draw (text ∷ queue) = handed_on-flush crypto key (suc draw) queue

handed_on-observed :
    (observed : Str) (address : Option Str) → handed_on (observed_effects observed address) ≡ []
unfolding observed_effects
handed_on-observed [] address = refl
handed_on-observed (c ∷ observed) address = refl

sent-observed :
    (observed : Str) (address : Option Str) → sent (observed_effects observed address) ≡ []
unfolding observed_effects
sent-observed [] address = refl
sent-observed (c ∷ observed) address = refl

-- What the initiator does with a reply before anything else arrives
abbrev first_effects : Env → Env → Str → Channel → List Effect
first_effects i r key c =
    save_trusted_key (canonical_address r.me) r.me.identity_public r.me.kem_public
    ∷ (observed_effects (observed_remote r.net) (canonical_address r.me)
        ++ clear_timeout ∷ emit_ready ∷ flush i.crypto key c.draws c.pending_queue)

module _ (i r : Env) (now n : ℕ) (nonce secret encapsulated : Str) (c d : Channel) where
  -- The initiator behind the exchange
  abbrev joined : Channel
  joined =
      (mark_ready i.crypto (session i r now n nonce secret encapsulated c d)
        (initiator_known i r now n nonce secret encapsulated c d)).0

  concluded_is :
      Opens i r now (n ∷ nonce) secret encapsulated c d
      → All (IsPayload i) d.pending_queue
      → concluded i r now (n ∷ nonce) c d ≡ (
        joined,
        first_effects i r (session i r now n nonce secret encapsulated c d) c
            ++ map emit_payload d.pending_queue,
      )
  unfolding receive mark_ready set_peer responder_known initiator_known tracked
  concluded_is o fits =
      let key = session i r now n nonce secret encapsulated c d in
      let next = sent (flush r.crypto key (suc d.draws) d.pending_queue) in
      ap (λ (a : Channel × List Effect). receive i now (sent a.1) c)
        (answered_is i r now n nonce secret encapsulated c d o)
      ∙ (ap
            (λ (a : Channel × List Effect).
              ((receive i now next a.0).0, a.1 ++ (receive i now next a.0).1))
            (reply_is i r now n nonce secret encapsulated c d o)
          ∙ ap (λ (a : Channel × List Effect). (a.0, first_effects i r key c ++ a.1))
              (receive-flush i r now (suc d.draws) key d.pending_queue joined o.honest refl refl
                fits))

  answered_ready :
      Opens i r now (n ∷ nonce) secret encapsulated c d
      → (answered i r now (n ∷ nonce) d).0
        ≡ (mark_ready r.crypto
            (session i r now n nonce secret encapsulated c d)
            (responder_known i r now n nonce secret encapsulated c d)).0
  answered_ready o =
      ap (λ (a : Channel × List Effect). a.0)
        (answered_is i r now n nonce secret encapsulated c d o)

  -- An initiator and a responder whose keys are their own, with a fresh nonce and an address that the responder
  -- accepts: after the initiator has taken the frames that its HANDSHAKE_INIT is answered with, both channels are
  -- ready, and both hold the session key derived from the encapsulated secret and the nonce.
  pub handshake_agreement :
      Opens i r now (n ∷ nonce) secret encapsulated c d
      → All (IsPayload i) d.pending_queue
      → ((answered i r now (n ∷ nonce) d).0.session_key
          ≡ some (r.crypto.derive_key secret (n ∷ nonce) session_info))
        × ((answered i r now (n ∷ nonce) d).0.is_ready ≡ true)
        × ((concluded i r now (n ∷ nonce) c d).0.session_key
            ≡ some (r.crypto.derive_key secret (n ∷ nonce) session_info))
        × ((concluded i r now (n ∷ nonce) c d).0.is_ready ≡ true)
  unfolding mark_ready session
  handshake_agreement o fits = (
    ap (λ (a : Channel). a.session_key) (answered_ready o),
    ap (λ (a : Channel). a.is_ready) (answered_ready o),
    ap (λ (a : Channel × List Effect). a.0.session_key) (concluded_is o fits),
    ap (λ (a : Channel × List Effect). a.0.is_ready) (concluded_is o fits),
  )

  first_effects-handed : (key : Str) → handed_on (first_effects i r key c) ≡ []
  first_effects-handed key =
      handed_on-append (observed_effects (observed_remote r.net) (canonical_address r.me)) _
      ∙ (ap (λ t. t ++ handed_on (flush i.crypto key c.draws c.pending_queue))
            (handed_on-observed (observed_remote r.net) (canonical_address r.me))
          ∙ handed_on-flush i.crypto key c.draws c.pending_queue)

  first_effects-sent :
      (key : Str)
      → sent (first_effects i r key c) ≡ sent (flush i.crypto key c.draws c.pending_queue)
  first_effects-sent key =
      sent-append (observed_effects (observed_remote r.net) (canonical_address r.me)) _
      ∙ ap (λ t. t ++ sent (flush i.crypto key c.draws c.pending_queue))
          (sent-observed (observed_remote r.net) (canonical_address r.me))

  -- What both ends had in their queues before such a handshake arrives at the other end in order: the initiator hands
  -- on the payloads that waited at the responder, and the responder those that waited at the initiator.
  pub queues_delivered :
      Opens i r now (n ∷ nonce) secret encapsulated c d
      → Honest r i
      → All (IsPayload i) d.pending_queue
      → All (IsPayload r) c.pending_queue
      → (handed_on (concluded i r now (n ∷ nonce) c d).1 ≡ d.pending_queue)
        × (handed_on
              (receive r now
                (sent (concluded i r now (n ∷ nonce) c d).1)
                (answered i r now (n ∷ nonce) d).0).1
            ≡ c.pending_queue)
  unfolding mark_ready
  queues_delivered o back fits others =
      let key = session i r now n nonce secret encapsulated c d in
      let end =
        (mark_ready r.crypto key (responder_known i r now n nonce secret encapsulated c d)).0 in
      let effects = first_effects i r key c ++ map emit_payload d.pending_queue in
      let outgoing : sent effects ≡ sent (flush i.crypto key c.draws c.pending_queue) =
        sent-append (first_effects i r key c) (map emit_payload d.pending_queue)
        ∙ (ap (λ t. sent (first_effects i r key c) ++ t) (sent-payloads d.pending_queue)
            ∙ (append-nil (sent (first_effects i r key c)) ∙ first_effects-sent key)) in
      (
        ap (λ (a : Channel × List Effect). handed_on a.1) (concluded_is o fits)
            ∙ (handed_on-append (first_effects i r key c) (map emit_payload d.pending_queue)
                ∙ (ap (λ t. t ++ handed_on (map emit_payload d.pending_queue))
                      (first_effects-handed key)
                    ∙ handed_on-payloads d.pending_queue)),
        ap
              (λ (a : Channel × List Effect).
                handed_on (receive r now (sent a.1) (answered i r now (n ∷ nonce) d).0).1)
              (concluded_is o fits)
            ∙ (ap (λ a. handed_on (receive r now (sent effects) a).1) (answered_ready o)
                ∙ (ap (λ t. handed_on (receive r now t end).1) outgoing
                    ∙ (ap (λ (a : Channel × List Effect). handed_on a.1)
                          (receive-flush r i now c.draws key c.pending_queue end back refl refl
                            others)
                        ∙ handed_on-payloads c.pending_queue))),
      )
