-- ===== src/Packets/Quiet.antt =====
-- The handlers of src/core/federationPacketHandler.js that do not touch the cache of message identifiers.
use metrice.AddressHelper
use metrice.AddressHelper.{Address}
use metrice.Base.{
  ℕ, Bool, not, ◌&&◌, ◌||◌, ◌≡◌, Option, none, some, List, [], ◌∷◌, Str, codes, str_eq, str_eq_inst,
  starts_with, includes, length, ◌==◌, if-cases, some-cases,
}
use metrice.Federation.{
  Config, Engine, Peering, is_hearsay, is_relay_node, note_hearsay, note_peer, relays_role,
  safe_addresses,
}
use metrice.Federation.Packet.{Announce, Consequence, Member, RouteUpdate}
use metrice.JsMap
use metrice.MessageTtlCache.{MessageTtlCache}
use metrice.Packets.{
  Source, handle_channel_subscribe, handle_channel_unsubscribe, handle_gossip_discovery,
  handle_typing, handle_user_offline, is_remote_sender, is_stale_offline, offline_key,
}
use metrice.Packets.Announce.{
  add_member, handle_member, handle_members, is_genuine, register_edge, set_physical,
}
use metrice.Packets.Announce.Handler.{
  answer_announce, answers, handle_presence_announce, is_new_announce, learn_node, note_announce,
  reply_with, sync_now,
}
use metrice.Packets.Messages.{learn_sender, node_of, note_sender}
use metrice.Packets.Routes.{
  accepted_update, apply_update, handle_route_update, learn_update_node, learn_update_relay,
  update_key,
}
use metrice.Presence.{LocalState, create_announce}
use metrice.Rendezvous.{Presence}

module _ (c : MessageTtlCache) where
  abbrev pub Holds : Engine → Type 0
  Holds e = e.seen_messages ≡ c

  abbrev pub Quiet : Engine × List Consequence → Type 0
  Quiet r = Holds r.0

  note_hearsay-Holds :
      (cfg : Config) (now : ℕ) (peers : List Str) (e : Engine)
      → Holds e
      → Holds (note_hearsay cfg now peers e)
  unfolding note_hearsay note_peer
  note_hearsay-Holds cfg now [] e k = k
  note_hearsay-Holds cfg now (peer ∷ peers) e k =
      note_hearsay-Holds cfg now peers _ (if-cases Holds (is_hearsay cfg e peer) (λ _. k) (λ _. k))

  register_edge-Holds :
      (role : Str) (p : Peering) (e : Engine) → Holds e → Holds (register_edge role p e)
  unfolding register_edge
  register_edge-Holds role p e k = if-cases Holds (str_eq role (codes "EDGE")) (λ _. k) (λ _. k)

  set_physical-Holds :
      (node_id : Str) (at : Option Str) (e : Engine) → Holds e → Holds (set_physical node_id at e)
  unfolding set_physical
  set_physical-Holds node_id none e k = k
  set_physical-Holds node_id (some at) e k = k

  -- Announcements
  learn_node-Holds :
      (cfg : Config) (now : ℕ) (from : Source) (a : Announce) (e : Engine)
      → Holds e
      → Holds (learn_node cfg now from a e)
  unfolding learn_node
  learn_node-Holds cfg now from a e k =
      let second = set_physical-Holds a.node_id _ _ (register_edge-Holds _ from.channel _ k) in
      if-cases Holds (relays_role a.role) (λ _. note_hearsay-Holds cfg now _ _ second) (λ _. second)

  handle_member-Quiet :
      (cfg : Config) (now : ℕ) (a : Announce) (from : Peering) (m : Member) (p : Option Address)
      (e : Engine)
      → Holds e
      → Quiet (handle_member cfg now a from m p e)
  unfolding handle_member add_member
  handle_member-Quiet cfg now a from m none e k = k
  handle_member-Quiet cfg now a from m (some p) e k =
      if-cases Quiet ((length m.user == 0) || p.is_local) (λ _. k)
        (λ _. if-cases Quiet _ (λ _. k) (λ _. k))

  handle_members-Quiet :
      (cfg : Config) (now : ℕ) (a : Announce) (from : Peering) (members : List Member) (e : Engine)
      → Holds e
      → Quiet (handle_members cfg now a from members e)
  unfolding handle_members
  handle_members-Quiet cfg now a from [] e k = k
  handle_members-Quiet cfg now a from (m ∷ members) e k =
      handle_members-Quiet cfg now a from members _
        (handle_member-Quiet cfg now a from m (AddressHelper.parse cfg.addresses m.user) e k)

  answer_announce-Quiet :
      (cfg : Config) (is_new : Bool) (now : ℕ) (state : LocalState) (from : Source) (a : Announce)
      (e : Engine)
      → Holds e
      → Quiet (answer_announce cfg is_new now state from a e)
  unfolding answer_announce reply_with sync_now create_announce is_relay_node
  answer_announce-Quiet cfg is_new now state from a e k =
      if-cases Quiet (answers is_new now from a e)
        (λ _. if-cases Holds (relays_role e.role) (λ _. k) (λ _. k)) (λ _. k)

  pub announce-Quiet :
      (cfg : Config) (sort : List Str → List Str) (now : ℕ) (state : LocalState) (from : Source)
      (a : Announce) (e : Engine)
      → Holds e
      → Quiet (handle_presence_announce cfg sort now state from a e)
  unfolding handle_presence_announce note_announce
  announce-Quiet cfg sort now state from a e k =
      let joined =
        handle_members-Quiet cfg now a from.channel a.memberships _
          (learn_node-Holds cfg now from a e k) in
      if-cases Quiet (is_genuine cfg now a)
        (λ _.
          answer_announce-Quiet cfg _ now state from a _
            (if-cases Holds (is_new_announce sort a _) (λ _. joined) (λ _. joined)))
        (λ _. k)

  -- Updates of routes
  learn_update_relay-Quiet :
      (cfg : Config) (now : ℕ) (route : Str → Option Presence) (u : RouteUpdate) (e : Engine)
      → Holds e
      → Quiet (learn_update_relay cfg now route u e)
  unfolding learn_update_relay note_peer
  learn_update_relay-Quiet cfg now route u e k =
      if-cases Quiet (length u.relay_address == 0) (λ _. k)
        (λ _. if-cases Holds _ (λ _. k) (λ _. k))

  learn_update_node-Quiet :
      (cfg : Config) (now : ℕ) (route : Str → Option Presence) (from : Source) (u : RouteUpdate)
      (safe : List Str) (e : Engine)
      → Holds e
      → Quiet (learn_update_node cfg now route from u safe e)
  unfolding learn_update_node
  learn_update_node-Quiet cfg now route from u safe e k =
      let first = register_edge-Holds _ from.channel _ k in
      set_physical-Holds u.node_id _ _ (
        if-cases Holds (relays_role u.role) (λ _. note_hearsay-Holds cfg now safe _ first)
          (λ _. first))

  pub update-Quiet :
      (cfg : Config) (now : ℕ) (route : Str → Option Presence) (from : Source) (u : RouteUpdate)
      (e : Engine)
      → Holds e
      → Quiet (handle_route_update cfg now route from u e)
  unfolding handle_route_update apply_update
  update-Quiet cfg now route from u e k =
      some-cases Quiet (accepted_update cfg now u) (λ _. k)
        (λ known _.
          if-cases Quiet
            ((length (safe_addresses cfg u.rendezvous_nodes) == 0)
              || includes e.seen_updates (update_key u))
            (λ _. k)
            (λ _.
              learn_update_node-Quiet cfg now route from known _ _
                (learn_update_relay-Quiet cfg now route known _ k)))

  -- The sender of a message
  learn_sender-Quiet :
      (cfg : Config) (now : ℕ) (route : Str → Option Presence) (from : Source) (sender : Str)
      (p : Address) (e : Engine)
      → Holds e
      → Quiet (learn_sender cfg now route from sender p e)
  unfolding learn_sender note_peer
  learn_sender-Quiet cfg now route from sender p e k =
      some-cases Quiet (node_of p)
        (λ _.
          some-cases Holds p.host (λ _. k)
            (λ host _.
              some-cases Holds p.port (λ _. k)
                (λ port _. if-cases Holds ((length host == 0) || (port == 0)) (λ _. k) (λ _. k))))
        (λ node_id _. k)

  pub note_sender-Quiet :
      (cfg : Config) (now : ℕ) (route : Str → Option Presence) (from : Source) (sender : Str)
      (p : Option Address) (e : Engine)
      → Holds e
      → Quiet (note_sender cfg now route from sender p e)
  unfolding note_sender
  note_sender-Quiet cfg now route from sender none e k = k
  note_sender-Quiet cfg now route from sender (some p) e k =
      if-cases Quiet (starts_with sender (codes "@") && not p.is_local)
        (λ _. learn_sender-Quiet cfg now route from sender p e k) (λ _. k)

  pub offline-Quiet :
      (cfg : Config) (from : Source) (user address : Str) (timestamp : ℕ) (e : Engine)
      → Holds e
      → Quiet (handle_user_offline cfg from user address timestamp e)
  unfolding handle_user_offline
  offline-Quiet cfg from [] address timestamp e k = k
  offline-Quiet cfg from (d ∷ user) address timestamp e k =
      if-cases Quiet (is_stale_offline timestamp (JsMap.get (d ∷ user) e.users)) (λ _. k)
        (λ _.
          if-cases Quiet (includes e.seen_offline (offline_key (d ∷ user) timestamp)) (λ _. k)
            (λ _. k))

  pub subscribe-Quiet :
      (cfg : Config) (now : ℕ) (from : Source) (name node : Str) (e : Engine)
      → Holds e
      → Quiet (handle_channel_subscribe cfg now from name node e)
  unfolding handle_channel_subscribe note_peer
  subscribe-Quiet cfg now from name node e k =
      if-cases Quiet ((length name == 0) || (length node == 0)) (λ _. k) (λ _. k)

  pub unsubscribe-Quiet :
      (cfg : Config) (from : Source) (name node : Str) (e : Engine)
      → Holds e
      → Quiet (handle_channel_unsubscribe cfg from name node e)
  unfolding handle_channel_unsubscribe
  unsubscribe-Quiet cfg from name node e k =
      if-cases Quiet
        ((length name == 0) || ((length node == 0) || not (JsMap.has name e.subscribers))) (λ _. k)
        (λ _. k)

  pub typing-Quiet :
      (cfg : Config) (now : ℕ) (sender receiver : Str) (e : Engine)
      → Holds e
      → Quiet (handle_typing cfg now sender receiver e)
  unfolding handle_typing
  typing-Quiet cfg now sender receiver e k =
      if-cases Holds (is_remote_sender cfg sender) (λ _. k) (λ _. k)

  pub discovery-Quiet :
      (cfg : Config) (now : ℕ) (from : Source) (sample : List Str) (node : Str) (peers : List Str)
      (e : Engine)
      → Holds e
      → Quiet (handle_gossip_discovery cfg now from sample node peers e)
  unfolding handle_gossip_discovery
  discovery-Quiet cfg now from sample node peers e k = note_hearsay-Holds cfg now (node ∷ peers) e k
