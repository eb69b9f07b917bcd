-- ===== src/Rendezvous/Admission.antt =====
-- Which requests `handleRendezvousBind` of src/core/rendezvousManager.js admits, and what happens to the others.
use metrice.JsMap
use metrice.Base.{
  ℕ, Bool, true, false, not, ◌&&◌, ◌≡◌, ◌⊎◌, refl, ap, ◌∙◌, inl, inr, arith, Option, none, some,
  List, [], ◌∷◌, Str, codes, str_eq, str_eq_inst, if◌then◌else◌, if-cases, some-cases, not-false,
  and-true, if-true, if-false, some-is, take,
}
use metrice.JsMap.Laws.{get-set}
use metrice.NonceTracker.{NonceTracker, track}
use metrice.SecureChannel.{or_else}
use metrice.Rendezvous.{
  Tunnel, Presence, Env, Connection, Bind, Relay, Reason, missing_fields, invalid_node_id,
  invalid_signature, expired_timestamp, replay_nonce, tunnel_capacity_reached, ip_capacity_reached,
  Effect, reject, clean_ip, valid_relay_addresses, is_signed_for, is_missing, is_expired, is_full,
  is_ip_full, upsert_route, acknowledge,
}
use metrice.Rendezvous.Binding.{
  new_tunnel, edge_presence, edge_kem_key_of, accept, check_capacity, check_nonce, check_signature,
  handle_rendezvous_bind,
}

abbrev pub derives : Option Str → Str → Bool
derives none node_id = false
derives (some derived) node_id = str_eq derived node_id

-- The tracker behind the test of the nonce, and its verdict
abbrev pub tracked : ℕ → Bind → Connection → Relay → NonceTracker × Bool
tracked now p conn relay =
    track now p.nonce (or_else (clean_ip conn.remote_address) p.node_id) relay.nonce_tracker

-- A request with all fields, whose node id is derived from its key, which is signed for an address of the relay, young
-- and new, and for which there is room
abbrev pub is_admissible : Env → ℕ → Bind → Connection → Relay → Bool
is_admissible env now p conn relay =
    not (is_missing p)
    && (derives (env.derive_node_id p.identity_key) p.node_id
        && (is_signed_for env p (valid_relay_addresses env conn)
            && (not (is_expired env now p)
                && ((tracked now p conn relay).1
                    && (not (is_full env p relay)
                        && not (is_ip_full env p (clean_ip conn.remote_address) relay))))))

abbrev pub is_reject : Effect → Bool
is_reject (reject reason) = true
is_reject _ = false

-- What a reason says of a request
abbrev pub applies : Env → ℕ → Bind → Connection → Relay → Reason → Bool
applies env now p conn relay missing_fields = is_missing p
applies env now p conn relay invalid_node_id =
    not (derives (env.derive_node_id p.identity_key) p.node_id)
applies env now p conn relay invalid_signature =
    not (is_signed_for env p (valid_relay_addresses env conn))
applies env now p conn relay expired_timestamp = is_expired env now p
applies env now p conn relay replay_nonce = not (tracked now p conn relay).1
applies env now p conn relay tunnel_capacity_reached = is_full env p relay
applies env now p conn relay ip_capacity_reached =
    is_ip_full env p (clean_ip conn.remote_address) relay

-- No tunnel and no presence changed, and one reason was sent that holds, or none since the key cannot be read.
pub record IsRefused (env : Env) (now : ℕ) (p : Bind) (conn : Connection) (relay : Relay)
    (r : Relay × List Effect) : Type 0 where
  pub same_tunnels : r.0.tunnels ≡ relay.tunnels
  pub same_presence : r.0.presence ≡ relay.presence
  pub answer :
      ((is_missing p ≡ false) × (env.derive_node_id p.identity_key ≡ none) × (r.1 ≡ []))
      ⊎ ((reason : Reason) × (r.1 ≡ reject reason ∷ [])
          × (applies env now p conn relay reason ≡ true))

module _ (env : Env) (now : ℕ) (p : Bind) (conn : Connection) (relay : Relay) where
  rejected :
      (reason : Reason)
      → applies env now p conn relay reason ≡ true
      → IsRefused env now p conn relay (relay, reject reason ∷ [])
  rejected reason h = record {
    same_tunnels = refl;
    same_presence = refl;
    answer = inr (reason, refl, h);
  }

  rejected_tracked :
      (tracker : NonceTracker) (reason : Reason)
      → applies env now p conn relay reason ≡ true
      → IsRefused env now p conn relay
          (record relay { nonce_tracker = tracker }, reject reason ∷ [])
  rejected_tracked tracker reason h = record {
    same_tunnels = refl;
    same_presence = refl;
    answer = inr (reason, refl, h);
  }

-- A request that is not admissible, for whatever reason, changes no tunnel and no entry of the presence table; the
-- relay answers it with exactly one reason, which holds of the request, or not at all when all fields are there but the key
-- cannot be read.
pub refused_bind :
    (env : Env) (now : ℕ) (p : Bind) (conn : Connection) (relay : Relay)
    → is_admissible env now p conn relay ≡ false
    → IsRefused env now p conn relay (handle_rendezvous_bind env now p conn relay)
unfolding handle_rendezvous_bind check_signature check_nonce check_capacity is_full is_ip_full
refused_bind env now p conn relay h =
    let t = (tracked now p conn relay).0 in
    let refused = IsRefused env now p conn relay in
    let sent = rejected env now p conn relay in
    let sent_tracked = rejected_tracked env now p conn relay t in
    if-cases refused (is_missing p) (λ missing. sent missing_fields missing)
      (λ complete.
        some-cases refused (env.derive_node_id p.identity_key)
          (λ unread. record {
            same_tunnels = refl;
            same_presence = refl;
            answer = inl (complete, unread, refl);
          })
          (λ derived e.
            if-cases refused (not (str_eq derived p.node_id))
              (λ other. sent invalid_node_id (ap (λ o. not (derives o p.node_id)) e ∙ other))
              (λ own.
                if-cases refused (not (is_signed_for env p (valid_relay_addresses env conn)))
                  (λ unsigned. sent invalid_signature unsigned)
                  (λ signed.
                    if-cases refused (is_expired env now p) (λ old. sent expired_timestamp old)
                      (λ young.
                        if-cases refused (tracked now p conn relay).1
                          (λ fresh.
                            if-cases refused (is_full env p relay)
                              (λ full. sent_tracked tunnel_capacity_reached full)
                              (λ room.
                                if-cases refused
                                  (is_ip_full env p (clean_ip conn.remote_address) relay)
                                  (λ full. sent_tracked ip_capacity_reached full)
                                  (λ ip_room.
                                    let last =
                                      and-true _ _ fresh
                                        (and-true _ _ (ap not room) (ap not ip_room)) in
                                    let whole =
                                      and-true _ _ (not-false _ signed)
                                        (and-true _ _ (ap not young) last) in
                                    let derived_own =
                                      ap (λ o. derives o p.node_id) e ∙ not-false _ own in
                                    let all =
                                      and-true _ _ (ap not complete)
                                        (and-true _ _ derived_own whole) in
                                    cc (all, h))))
                          (λ again. sent_tracked replay_nonce (ap not again)))))))

-- The relay behind the test of the nonce
abbrev pub behind_nonce : ℕ → Bind → Connection → Relay → Relay
behind_nonce now p conn relay = record relay { nonce_tracker = (tracked now p conn relay).0 }

derives-some :
    (o : Option Str) (node_id : Str)
    → derives o node_id ≡ true
    → (derived : Str) × (o ≡ some derived) × (str_eq derived node_id ≡ true)
derives-some none node_id h = cc h
derives-some (some derived) node_id h = (derived, refl, h)

pub admissible_accepted :
    (env : Env) (now : ℕ) (p : Bind) (conn : Connection) (relay : Relay)
    → is_admissible env now p conn relay ≡ true
    → handle_rendezvous_bind env now p conn relay
      ≡ accept env now p conn (behind_nonce now p conn relay)
unfolding handle_rendezvous_bind check_signature check_nonce check_capacity is_full is_ip_full
admissible_accepted env now p conn relay h =
    let complete : is_missing p ≡ false = ground arith in
    let own : derives (env.derive_node_id p.identity_key) p.node_id ≡ true = ground arith in
    let signed : is_signed_for env p (valid_relay_addresses env conn) ≡ true = ground arith in
    let young : is_expired env now p ≡ false = ground arith in
    let fresh : (tracked now p conn relay).1 ≡ true = ground arith in
    let room : is_full env p relay ≡ false = ground arith in
    let ip_room : is_ip_full env p (clean_ip conn.remote_address) relay ≡ false = ground arith in
    let (derived, e, same) = derives-some (env.derive_node_id p.identity_key) p.node_id own in
    if-false _ complete
    ∙ (some-is _ _ e
        ∙ (if-false _ (ap not same)
            ∙ (if-false _ (ap not signed)
                ∙ (if-false _ young ∙ (if-true _ fresh ∙ (if-false _ room ∙ if-false _ ip_room))))))

-- An admissible request gives its node a tunnel over the socket and from the address that it came by, bound now, to the
-- address that it names or else the relay's own, with the key that it was signed with, and leaves every other node's tunnel
-- alone. The presence table and the stored route both hold an edge behind that address with these keys, seen now; the
-- other entries stay. Storing the route and the acknowledgement come first.
pub admissible_bound :
    (env : Env) (now : ℕ) (p : Bind) (conn : Connection) (relay : Relay) (node_id : Str)
    → is_admissible env now p conn relay ≡ true
    → (let r = handle_rendezvous_bind env now p conn relay in
        let at = or_else p.relay_address env.announce_address in
        let kem_key = or_else p.kem_key (
          or_else conn.peer_kem_key (
            or_else
              (elim (JsMap.get p.node_id relay.presence) [ none ↦ [] | some entry ↦ entry.kem_key ])
              (env.route_kem_key p.node_id))) in
        let tunnel : Tunnel = record {
          socket = conn.socket;
          remote_address = conn.remote_address;
          bound_at = now;
          bound_address = at;
          edge_kem_key = kem_key;
          identity_key = p.identity_key;
        } in
        let presence : Presence = record {
          role = codes "EDGE";
          rendezvous_nodes = at ∷ [];
          kem_key = kem_key;
          identity_key = p.identity_key;
          channels = [];
          last_seen = now;
        } in
        (JsMap.get node_id r.0.tunnels
          ≡ (if str_eq p.node_id node_id then some tunnel else JsMap.get node_id relay.tunnels))
        × (JsMap.get node_id r.0.presence ≡ (
            if str_eq p.node_id node_id then some presence else JsMap.get node_id relay.presence))
        × (take 2 r.1 ≡ upsert_route p.node_id presence ∷ acknowledge p.node_id ∷ []))
unfolding accept new_tunnel edge_kem_key_of edge_presence
admissible_bound env now p conn relay node_id h =
    let t = new_tunnel env now p conn (behind_nonce now p conn relay) in
    rw (admissible_accepted env now p conn relay h) (
      get-set p.node_id node_id t relay.tunnels,
      get-set p.node_id node_id (edge_presence now t) relay.presence,
      refl,
    )
