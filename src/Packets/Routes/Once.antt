-- ===== src/Packets/Routes/Once.antt =====
-- Which updates `handleRouteUpdate` of src/core/federationPacketHandler.js refuses.
use metrice.Base.{
  ℕ, Bool, true, false, ◌&&◌, ◌||◌, ◌≡◌, refl, ap, ◌∙◌, inl, inr, arith, Option, none, some, List,
  [], ◌∷◌, ◌++◌, Str, codes, str_eq, str_eq_refl, str_eq_inst, includes, length, ltb, ◌==◌,
  if-cases, if-true, some-is, some-cases, Bool-cases,
}
use metrice.Federation.{
  Config, Engine, Peering, note_hearsay, note_peer, remember, trim_seen, safe_addresses,
  relays_role, is_hearsay,
}
use metrice.Federation.Packet.{RouteUpdate, Consequence, update_text, legacy_text}
use metrice.Packets.{Source}
use metrice.Packets.Announce.{register_edge, set_physical}
use metrice.Packets.Routes.{
  accepted_update, apply_update, handle_route_update, learn_update_node, learn_update_relay,
  signed_part, update_key,
}
use metrice.Rendezvous.{Presence}

forged_refused :
    (cfg : Config) (now : ℕ) (u : RouteUpdate)
    → (str_eq (cfg.derive_node_id u.relay_identity_key) u.relay_node_id
        && (cfg.verify (update_text u) u.sig u.relay_identity_key
            || cfg.verify (legacy_text u) u.sig u.relay_identity_key))
      ≡ false
    → accepted_update cfg now u ≡ none
unfolding accepted_update signed_part
forged_refused cfg now u forged = ground arith

-- An update that is not signed by the key which the id of its relay is derived from, neither in the new form nor in
-- the old, changes nothing and is not passed on.
pub forged_update :
    (cfg : Config) (now : ℕ) (route : Str → Option Presence) (from : Source) (u : RouteUpdate)
    (e : Engine)
    → (str_eq (cfg.derive_node_id u.relay_identity_key) u.relay_node_id
        && (cfg.verify (update_text u) u.sig u.relay_identity_key
            || cfg.verify (legacy_text u) u.sig u.relay_identity_key))
      ≡ false
    → handle_route_update cfg now route from u e ≡ (e, [])
unfolding handle_route_update
forged_update cfg now route from u e forged =
    rw (forged_refused cfg now u forged, handle_route_update) refl

includes_last : (key : Str) (seen : List Str) → includes (seen ++ key ∷ []) key ≡ true
unfolding includes
includes_last key [] = ground (arith, str_eq_refl key)
includes_last key (s ∷ seen) = ground (arith, includes_last key seen)

or-second : (a b : Bool) → b ≡ true → (a || b) ≡ true
or-second true b h = refl
or-second false b h = h

trim_seen-includes :
    (key s : Str) (seen : List Str) → includes (trim_seen (s ∷ (seen ++ key ∷ []))) key ≡ true
unfolding trim_seen
trim_seen-includes key s seen =
    if-cases (λ l. includes l key ≡ true) (ltb 2000 (length (s ∷ (seen ++ key ∷ []))))
      (λ _. includes_last key seen) (λ _. includes_last key (s ∷ seen))

remember-includes : (key : Str) (seen : List Str) → includes (remember key seen) key ≡ true
unfolding remember
remember-includes key [] = includes_last key []
remember-includes key (s ∷ seen) = trim_seen-includes key s seen

-- The set of updates that were seen is the same.
abbrev Unseen : Engine → Engine → Type 0
Unseen e next = next.seen_updates ≡ e.seen_updates

note_hearsay-Unseen :
    (cfg : Config) (now : ℕ) (peers : List Str) (e : Engine)
    → Unseen e (note_hearsay cfg now peers e)
unfolding note_hearsay note_peer
note_hearsay-Unseen cfg now [] e = refl
note_hearsay-Unseen cfg now (peer ∷ peers) e =
    note_hearsay-Unseen cfg now peers _
    ∙ if-cases (Unseen e) (is_hearsay cfg e peer) (λ _. refl) (λ _. refl)

set_physical-Unseen :
    (node_id : Str) (at : Option Str) (e : Engine) → Unseen e (set_physical node_id at e)
unfolding set_physical
set_physical-Unseen node_id none e = refl
set_physical-Unseen node_id (some at) e = refl

register_edge-Unseen : (role : Str) (c : Peering) (e : Engine) → Unseen e (register_edge role c e)
unfolding register_edge
register_edge-Unseen role c e =
    if-cases (Unseen e) (str_eq role (codes "EDGE")) (λ _. refl) (λ _. refl)

learn_update_node-Unseen :
    (cfg : Config) (now : ℕ) (route : Str → Option Presence) (from : Source) (u : RouteUpdate)
    (safe : List Str) (e : Engine)
    → Unseen e (learn_update_node cfg now route from u safe e).0
unfolding learn_update_node
learn_update_node-Unseen cfg now route from u safe e =
    set_physical-Unseen u.node_id _ _
    ∙ if-cases (Unseen e) (relays_role u.role)
        (λ _. note_hearsay-Unseen cfg now safe _ ∙ register_edge-Unseen _ from.channel _)
        (λ _. register_edge-Unseen _ from.channel _)

learn_update_relay-Unseen :
    (cfg : Config) (now : ℕ) (route : Str → Option Presence) (u : RouteUpdate) (e : Engine)
    → Unseen e (learn_update_relay cfg now route u e).0
unfolding learn_update_relay note_peer
learn_update_relay-Unseen cfg now route u e =
    if-cases (λ (r : Engine × List Consequence). Unseen e r.0) (length u.relay_address == 0)
      (λ _. refl) (λ _. if-cases (Unseen e) _ (λ _. refl) (λ _. refl))

apply_update-seen :
    (cfg : Config) (now : ℕ) (route : Str → Option Presence) (from : Source) (u known : RouteUpdate)
    (e : Engine)
    → (apply_update cfg now route from u known e).0.seen_updates
      ≡ remember (update_key u) e.seen_updates
unfolding apply_update
apply_update-seen cfg now route from u known e =
    learn_update_node-Unseen cfg now route from known (safe_addresses cfg u.rendezvous_nodes) _
    ∙ learn_update_relay-Unseen cfg now route known _

handled_seen :
    (cfg : Config) (now : ℕ) (route : Str → Option Presence) (from : Source) (u known : RouteUpdate)
    (e : Engine)
    → accepted_update cfg now u ≡ some known
    → (length (safe_addresses cfg u.rendezvous_nodes) == 0) ≡ false
    → includes (handle_route_update cfg now route from u e).0.seen_updates (update_key u) ≡ true
unfolding handle_route_update
handled_seen cfg now route from u known e accepted some_relay =
    ap (λ (r : Engine × List Consequence). includes r.0.seen_updates (update_key u))
      (some-is _ _ accepted)
    ∙ elim (Bool-cases (includes e.seen_updates (update_key u))) [
      | inl old ↦ rw (some_relay, old) old
      | inr new ↦
          rw (some_relay, new)
            (ap (λ l. includes l (update_key u)) (apply_update-seen cfg now route from u known e)
              ∙ remember-includes (update_key u) e.seen_updates)
    ]

-- An accepted update with a relay that other nodes can use is applied once: when an update of the same node by the same
-- relay at the same time comes right behind it, over whatever channel and whenever, it changes nothing and is not passed on.
pub update_once :
    (cfg : Config) (now later : ℕ) (route : Str → Option Presence) (from again : Source)
    (u known v : RouteUpdate) (e : Engine)
    → accepted_update cfg now u ≡ some known
    → (length (safe_addresses cfg u.rendezvous_nodes) == 0) ≡ false
    → update_key v ≡ update_key u
    → handle_route_update cfg later route again v (handle_route_update cfg now route from u e).0
      ≡ ((handle_route_update cfg now route from u e).0, [])
unfolding handle_route_update
update_once cfg now later route from again u known v e accepted some_relay same =
    let e1 = (handle_route_update cfg now route from u e).0 in
    let seen : includes e1.seen_updates (update_key v) ≡ true =
      ap (includes e1.seen_updates) same
      ∙ handled_seen cfg now route from u known e accepted some_relay in
    some-cases (λ (r : Engine × List Consequence). r ≡ (e1, [])) (accepted_update cfg later v)
      (λ _. refl) (λ w _. if-true _ (or-second _ _ seen))
