-- ===== src/Packets/Messages/Hops.antt =====
-- How far a message goes on behind `handleDirectOrChannelMessage` of src/core/federationPacketHandler.js.
use metrice.Base.{
  zero, true, suc, Bool, not, ◌&&◌, ◌||◌, ◌≡◌, refl, Option, none, some, List, [], ◌∷◌, Str, codes,
  str_eq, str_eq_inst, starts_with, has_char, ◌==◌, ◌⊎◌, inl, inr, ap, if-cases, some-cases, All,
  All-append, length, not-false, ends_with,
}
use metrice.Base.Number.{ℤ, pos, negsuc, int_lt, plus_one}
use metrice.AddressHelper
use metrice.AddressHelper.{Address, is_valid_node_id}
use metrice.Federation.{Config, Engine, Peering, endpoint_of, is_relay_node}
use metrice.Federation.Packet.{
  Chat, Message, Packet, chat, Consequence, write, send_packet, send_via_onion,
}
use metrice.JsMap
use metrice.Packets.{
  Source, forward_to_channel_subscribers, subscribers_of, to_subscriber, to_subscribers,
}
use metrice.Packets.Messages.{forward_message, is_same_peer, to_candidates, to_node, transit}
use metrice.Presence.Broadcast.{
  broadcast_channel_message, channels_of, is_usable_channel, known_peers, send_where, ttl_or_five,
  write_where,
}
use metrice.Rendezvous.{Presence}

-- A consequence that sends one of the payloads that are allowed to another node
abbrev pub IsPassedOn : (Packet → Type 0) → Consequence → Type 0
IsPassedOn Allowed (write c payload) = Allowed payload
IsPassedOn Allowed (send_packet host port payload) = Allowed payload
IsPassedOn Allowed (send_via_onion node_id payload) = Allowed payload
IsPassedOn Allowed _ = ⊥

-- The limit of a message: 5 if it is missing or 0
abbrev pub limit_of : ℤ → ℤ
limit_of (pos zero) = pos 5
limit_of (pos (suc n)) = pos (suc n)
limit_of (negsuc n) = negsuc n

-- The message as it came, or as a channel message in the form in which it was stored, with the hop count raised by one and
-- the limit, which the count is below
abbrev pub IsNextHop : Chat → Message → Message → Packet → Type 0
IsNextHop kind m saved payload =
    ((payload ≡ chat kind (record m { hop = plus_one m.hop; ttl = limit_of m.ttl }))
      ⊎ (payload
          ≡ chat Chat.channel_message
              (record saved { hop = plus_one m.hop; ttl = limit_of m.ttl })))
    × (int_lt (plus_one m.hop) (limit_of m.ttl) ≡ true)

module _ (Allowed : Packet → Type 0) (payload : Packet) (allowed : Allowed payload) where
  abbrev Passed : List Consequence → Type 0
  Passed = All (IsPassedOn Allowed)

  write_where-Passed :
      (test : Str → Peering → Bool) (channels : List (Str × Peering))
      → Passed (write_where test payload channels)
  unfolding write_where
  write_where-Passed test [] = tt
  write_where-Passed test ((key, c) ∷ channels) =
      if-cases Passed (test key c) (λ _. (allowed, write_where-Passed test channels))
        (λ _. write_where-Passed test channels)

  send_where-Passed :
      (test : Str → Bool) (peers : List Str) → Passed (send_where test payload peers)
  unfolding send_where
  send_where-Passed test [] = tt
  send_where-Passed test (peer ∷ peers) =
      some-cases Passed (endpoint_of peer) (λ _. send_where-Passed test peers)
        (λ at _.
          if-cases Passed (test peer) (λ _. (allowed, send_where-Passed test peers))
            (λ _. send_where-Passed test peers))

  to_subscriber-Passed : (peer : Str) → Passed (to_subscriber payload peer)
  unfolding to_subscriber
  to_subscriber-Passed peer =
      if-cases Passed (has_char b':' peer)
        (λ _. some-cases Passed (endpoint_of peer) (λ _. tt) (λ at _. (allowed, tt)))
        (λ _.
          if-cases Passed (is_valid_node_id peer || ends_with peer (codes ".mesh"))
            (λ _. (allowed, tt)) (λ _. tt))

  to_subscribers-Passed :
      (except : Str) (peers : List Str) → Passed (to_subscribers payload except peers)
  unfolding to_subscribers
  to_subscribers-Passed except [] = tt
  to_subscribers-Passed except (peer ∷ peers) =
      if-cases Passed (str_eq peer except) (λ _. to_subscribers-Passed except peers)
        (λ _.
          All-append (IsPassedOn Allowed) (to_subscriber payload peer) _ (to_subscriber-Passed peer)
            (to_subscribers-Passed except peers))

  to_candidates-Passed :
      (e : Engine) (from : Source) (peers : List Str) → Passed (to_candidates e from payload peers)
  unfolding to_candidates
  to_candidates-Passed e from [] = tt
  to_candidates-Passed e from (peer ∷ peers) =
      let rest = to_candidates-Passed e from peers in
      if-cases Passed
        (is_same_peer from.remote_peer peer || is_same_peer from.channel.peer_address peer)
        (λ _. rest)
        (λ _.
          some-cases Passed (endpoint_of peer) (λ _. rest)
            (λ at _.
              some-cases Passed (JsMap.get peer e.pool) (λ _. (allowed, rest))
                (λ c _.
                  if-cases Passed (is_usable_channel c) (λ _. (allowed, rest))
                    (λ _. (allowed, rest)))))

  or_else-Passed :
      (first second : List Consequence)
      → Passed first
      → Passed second
      → Passed (elim first [ w ∷ written ↦ w ∷ written | [] ↦ second ])
  or_else-Passed [] second _ q = q
  or_else-Passed (w ∷ written) second p _ = p

  transit-Passed :
      (cfg : Config) (route : Str → Option Presence) (from : Source) (node_id : Str) (e : Engine)
      → Passed (transit cfg route from payload node_id e)
  unfolding transit
  transit-Passed cfg route from node_id e =
      or_else-Passed _ _
        (write_where-Passed (λ key c. str_eq key node_id && c.is_writable) (channels_of e.tunnels))
        (if-cases Passed (is_relay_node e) (λ _. to_candidates-Passed e from _) (λ _. tt))

  to_node-Passed :
      (cfg : Config) (route : Str → Option Presence) (from : Source) (p : Option Address)
      (e : Engine)
      → Passed (to_node cfg route from payload p e)
  unfolding to_node
  to_node-Passed cfg route from none e = tt
  to_node-Passed cfg route from (some p) e =
      some-cases Passed p.node_id (λ _. tt)
        (λ node_id _.
          if-cases Passed ((length node_id == 0) || str_eq node_id cfg.node_id) (λ _. tt)
            (λ _. transit-Passed cfg route from node_id e))

ttl_or_five-limit_of : (t : ℤ) → ttl_or_five t ≡ limit_of t
unfolding ttl_or_five
ttl_or_five-limit_of (pos zero) = refl
ttl_or_five-limit_of (pos (suc n)) = refl
ttl_or_five-limit_of (negsuc n) = refl

limit_of_twice : (t : ℤ) → ttl_or_five (limit_of t) ≡ limit_of t
unfolding ttl_or_five
limit_of_twice (pos zero) = refl
limit_of_twice (pos (suc n)) = refl
limit_of_twice (negsuc n) = refl

-- What is sent to the subscribers and by the broadcast
abbrev forwarded_copy : Message → Packet
forwarded_copy m = chat Chat.channel_message (record m { ttl = ttl_or_five m.ttl })

module _ (Allowed : Packet → Type 0) (m : Message) (allowed : Allowed (forwarded_copy m)) where
  subscribers-Passed :
      (name except : Str) (e : Engine)
      → All (IsPassedOn Allowed) (forward_to_channel_subscribers name m except e)
  unfolding forward_to_channel_subscribers
  subscribers-Passed name except e =
      let payload = forwarded_copy m in
      All-append (IsPassedOn Allowed) (to_subscribers payload except (subscribers_of name e)) _
        (to_subscribers-Passed Allowed payload allowed except (subscribers_of name e))
        (All-append (IsPassedOn Allowed) (write_where _ payload (channels_of e.tunnels)) _
          (write_where-Passed Allowed payload allowed _ (channels_of e.tunnels))
          (write_where-Passed Allowed payload allowed _ e.relays))

  broadcast-Passed :
      (except : Str) (e : Engine) → All (IsPassedOn Allowed) (broadcast_channel_message m except e)
  unfolding broadcast_channel_message
  broadcast-Passed except e =
      let payload = forwarded_copy m in
      All-append (IsPassedOn Allowed) (send_where _ payload (known_peers e)) _
        (send_where-Passed Allowed payload allowed _ (known_peers e))
        (All-append (IsPassedOn Allowed) (write_where _ payload (channels_of e.tunnels)) _
          (write_where-Passed Allowed payload allowed _ (channels_of e.tunnels))
          (write_where-Passed Allowed payload allowed _ e.relays))

-- Whatever a node passes on of a message, to peers, tunnels, relays or subscribers, is the message as it came, or as a
-- channel message the one that was stored, with the hop count raised by one and the limit of the message, five if it has
-- none, and nothing else changed; and it is passed on only while the raised count is below the limit.
pub hops_bounded :
    (cfg : Config) (route : Str → Option Presence) (from : Source) (kind : Chat) (m saved : Message)
    (e : Engine)
    → All (IsPassedOn (IsNextHop kind m saved)) (forward_message cfg route from kind m saved e)
unfolding forward_message
hops_bounded cfg route from kind m saved e = rw (ttl_or_five-limit_of m.ttl) (
    let Allowed = IsNextHop kind m saved in
    let h = plus_one m.hop in
    let t = limit_of m.ttl in
    if-cases (All (IsPassedOn Allowed)) (not (int_lt h t)) (λ _. tt)
      (λ more.
        let below : int_lt h t ≡ true = not-false (int_lt h t) more in
        let next : Message = record saved { hop = h; ttl = t } in
        let copied : Allowed (forwarded_copy next) = (
          inr (
              ap (λ n. chat Chat.channel_message (record next { ttl = n })) (limit_of_twice m.ttl)),
          below,
        ) in
        if-cases (All (IsPassedOn Allowed)) (starts_with m.receiver (codes "#"))
          (λ _.
            if-cases (All (IsPassedOn Allowed)) (has_char b':' m.receiver)
              (λ _. subscribers-Passed Allowed next copied m.receiver from.remote_peer e)
              (λ _. broadcast-Passed Allowed next copied from.remote_peer e))
          (λ _.
            if-cases (All (IsPassedOn Allowed)) (starts_with m.receiver (codes "@"))
              (λ _.
                to_node-Passed Allowed (chat kind (record m { hop = h; ttl = t })) (inl refl, below)
                  cfg route from (AddressHelper.parse cfg.addresses m.receiver) e)
              (λ _. tt))))
