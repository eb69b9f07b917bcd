-- ===== src/Packets/Messages/Once.antt =====
-- A message is handled once by `handleDirectOrChannelMessage` of src/core/federationPacketHandler.js.
use metrice.Base.{
  ℕ, suc, ◌+◌, ◌≤◌, ◌<◌, Bool, true, false, length, ◌≡◌, refl, sym, ap, subst, ◌∙◌, arith, Option,
  List, [], ◌∷◌, Str, codes, str_eq, str_eq_iff, str_eq_inst, if-true, if-false, inl, inr,
  Bool-cases, All,
}
use metrice.AddressHelper
use metrice.Federation.{Config, Engine}
use metrice.Federation.Packet.{
  Chat, Message, Packet, part, announce, route_update, chat, channel_subscribe, channel_unsubscribe,
  typing, user_offline, gossip_discovery, gossip_response, status, plain, Consequence, write,
}
use metrice.JsMap
use metrice.MessageTtlCache
use metrice.MessageTtlCache.{MessageTtlCache}
use metrice.MessageTtlCache.Remembered.{
  Remembers, Remembers-weaken, Remembers-has, Remembers-add, has-Remembers, add-Remembers,
  has_absent,
}
use metrice.Packets.{Source}
use metrice.Packets.Dispatch.{Outside, handle_incoming}
use metrice.Packets.Messages.{handle_message}
use metrice.Packets.Quiet.{
  announce-Quiet, update-Quiet, note_sender-Quiet, offline-Quiet, subscribe-Quiet,
  unsubscribe-Quiet, typing-Quiet, discovery-Quiet,
}
use metrice.Rendezvous.{Presence}

-- A packet that arrives, with all that it is handled with
pub record Arrival : Type 0 where
  pub outside : Outside
  pub source : Source
  pub packet : Packet

abbrev pub arrive : Config → Arrival → Engine → Engine × List Consequence
arrive cfg a e = handle_incoming cfg a.outside a.source a.packet e

-- The packets that arrive, one behind the other
abbrev pub run : Config → List Arrival → Engine → Engine
run cfg [] e = e
run cfg (a ∷ arrivals) e = run cfg arrivals (arrive cfg a e).0

-- The cache behind a message that is not a duplicate
new-seen :
    (cfg : Config) (save : Message → Option Message) (now : ℕ) (route : Str → Option Presence)
    (from : Source) (kind : Chat) (m : Message) (e : Engine)
    → (MessageTtlCache.has now m.id e.seen_messages).1 ≡ false
    → (handle_message cfg save now route from kind m e).0.seen_messages
      ≡ MessageTtlCache.add now m.id (MessageTtlCache.has now m.id e.seen_messages).0
unfolding handle_message
new-seen cfg save now route from kind m e new =
    ap (λ (r : Engine × List Consequence). r.0.seen_messages) (if-false _ new)
    ∙ note_sender-Quiet
        (MessageTtlCache.add now m.id (MessageTtlCache.has now m.id e.seen_messages).0) cfg now
        route from m.sender (AddressHelper.parse cfg.addresses m.sender) _ refl

-- The cache behind a duplicate
duplicate-seen :
    (cfg : Config) (save : Message → Option Message) (now : ℕ) (route : Str → Option Presence)
    (from : Source) (kind : Chat) (m : Message) (e : Engine)
    → (MessageTtlCache.has now m.id e.seen_messages).1 ≡ true
    → (handle_message cfg save now route from kind m e).0.seen_messages
      ≡ (MessageTtlCache.has now m.id e.seen_messages).0
unfolding handle_message
duplicate-seen cfg save now route from kind m e seen =
    ap (λ (r : Engine × List Consequence). r.0.seen_messages) (if-true _ seen)

-- A message with an identifier that the cache remembers
duplicate_answered :
    (cfg : Config) (save : Message → Option Message) (now : ℕ) (route : Str → Option Presence)
    (from : Source) (kind : Chat) (m : Message) (e : Engine)
    → MessageTtlCache.has now m.id e.seen_messages ≡ (e.seen_messages, true)
    → handle_message cfg save now route from kind m e
      ≡ (e, write from.channel.channel (status (codes "duplicate") m.id) ∷ [])
unfolding handle_message
duplicate_answered cfg save now route from kind m e seen =
    if-true _ (ap (λ (t : MessageTtlCache × Bool). t.1) seen)
    ∙ ap
        (λ (t : MessageTtlCache × Bool). (
          record e { seen_messages = t.0 },
          write from.channel.channel (status (codes "duplicate") m.id) ∷ [],
        ))
        seen

module _ (ttl room : ℕ) (id : Str) (ts : ℕ) (positive : 0 < ts) where
  abbrev Knows : ℕ → Engine → Type 0
  Knows n e = Remembers ttl room id ts n e.seen_messages

  message-Knows :
      (cfg : Config) (save : Message → Option Message) (now : ℕ) (route : Str → Option Presence)
      (from : Source) (kind : Chat) (m : Message) (n : ℕ) (e : Engine)
      → now ≤ ts + ttl
      → suc (suc n) ≤ room
      → Knows n e
      → Knows (suc n) (handle_message cfg save now route from kind m e).0
  message-Knows cfg save now route from kind m n e young few r =
      elim (Bool-cases (str_eq id m.id)) [
        | inl same ↦
            let found = has-Remembers ttl room id ts n now e.seen_messages positive young r in
            let seen : MessageTtlCache.has now m.id e.seen_messages ≡ (e.seen_messages, true) =
              subst (λ t. MessageTtlCache.has now t e.seen_messages ≡ (e.seen_messages, true))
                ((str_eq_iff id m.id).0 same) found in
            rw (duplicate_answered cfg save now route from kind m e seen)
              (Remembers-weaken e.seen_messages (omega arith) r)
        | inr apart ↦
            let looked = Remembers-has ttl room id ts n now m.id e.seen_messages apart r in
            elim (Bool-cases (MessageTtlCache.has now m.id e.seen_messages).1) [
              | inl seen ↦
                  rw (duplicate-seen cfg save now route from kind m e seen)
                    (Remembers-weaken _ (omega arith) looked)
              | inr new ↦
                  rw (new-seen cfg save now route from kind m e new)
                    (Remembers-add ttl room id ts n now m.id _ apart young few looked)
            ]
      ]

  -- A packet that is no message leaves the cache as it is.
  arrive-Knows :
      (cfg : Config) (out : Outside) (from : Source) (packet : Packet) (n : ℕ) (e : Engine)
      → out.now ≤ ts + ttl
      → suc (suc n) ≤ room
      → Knows n e
      → Knows (suc n) (handle_incoming cfg out from packet e).0
  unfolding handle_incoming
  arrive-Knows cfg out from (chat kind m) n e young few r =
      message-Knows cfg out.save out.now out.route from kind m n e young few r
  arrive-Knows cfg out from (announce a) n e young few r =
      rw (announce-Quiet e.seen_messages cfg out.sort out.now out.state from a e refl)
        (Remembers-weaken e.seen_messages (omega arith) r)
  arrive-Knows cfg out from (route_update u) n e young few r =
      rw (update-Quiet e.seen_messages cfg out.now out.route from u e refl)
        (Remembers-weaken e.seen_messages (omega arith) r)
  arrive-Knows cfg out from (channel_subscribe name node) n e young few r =
      rw (subscribe-Quiet e.seen_messages cfg out.now from name node e refl)
        (Remembers-weaken e.seen_messages (omega arith) r)
  arrive-Knows cfg out from (channel_unsubscribe name node) n e young few r =
      rw (unsubscribe-Quiet e.seen_messages cfg from name node e refl)
        (Remembers-weaken e.seen_messages (omega arith) r)
  arrive-Knows cfg out from (typing sender receiver) n e young few r =
      rw (typing-Quiet e.seen_messages cfg out.now sender receiver e refl)
        (Remembers-weaken e.seen_messages (omega arith) r)
  arrive-Knows cfg out from (user_offline user address timestamp) n e young few r =
      rw (offline-Quiet e.seen_messages cfg from user address timestamp e refl)
        (Remembers-weaken e.seen_messages (omega arith) r)
  arrive-Knows cfg out from (gossip_discovery node peers) n e young few r =
      rw (discovery-Quiet e.seen_messages cfg out.now from out.sample node peers e refl)
        (Remembers-weaken e.seen_messages (omega arith) r)
  arrive-Knows cfg out from (part p text) n e young few r =
      Remembers-weaken e.seen_messages (omega arith) r
  arrive-Knows cfg out from (gossip_response node peers) n e young few r =
      Remembers-weaken e.seen_messages (omega arith) r
  arrive-Knows cfg out from (status code subject) n e young few r =
      Remembers-weaken e.seen_messages (omega arith) r
  arrive-Knows cfg out from plain n e young few r = Remembers-weaken e.seen_messages (omega arith) r

  run-Knows :
      (cfg : Config) (arrivals : List Arrival) (n j : ℕ) (e : Engine)
      → n + length arrivals ≡ j
      → All (λ a. a.outside.now ≤ ts + ttl) arrivals
      → j < room
      → Knows n e
      → Knows j (run cfg arrivals e)
  run-Knows cfg [] n j e count young few r = let same : n ≡ j = omega arith in rw same at r
  run-Knows cfg (a ∷ arrivals) n j e count (y, young) few r =
      run-Knows cfg arrivals (suc n) j _ (omega arith) young few
        (arrive-Knows cfg a.outside a.source a.packet n e y (omega arith) r)

-- A message whose identifier the cache does not hold arrives at a time after 0. Then, within the time that the cache keeps
-- an identifier, any packets arrive, fewer than the cache has room for. A message with the same identifier that comes behind
-- them within that time, over whatever channel and whatever else it holds, is answered as a duplicate and changes nothing: it is neither stored nor passed on.
pub message_once :
    (cfg : Config) (first : Outside) (from : Source) (kind : Chat) (m : Message) (e : Engine)
    → 0 < first.now
    → JsMap.has m.id e.seen_messages.cache ≡ false
    → (arrivals : List Arrival)
    → All (λ a. a.outside.now ≤ first.now + e.seen_messages.ttl_ms) arrivals
    → length arrivals < e.seen_messages.max_capacity
    → (later : Outside) → later.now ≤ first.now + e.seen_messages.ttl_ms
    → (again : Source) (other : Chat) (k : Message) → k.id ≡ m.id
    → (let between = run cfg arrivals (handle_incoming cfg first from (chat kind m) e).0 in
        handle_incoming cfg later again (chat other k) between
        ≡ (between, write again.channel.channel (status (codes "duplicate") k.id) ∷ []))
unfolding handle_incoming
message_once cfg first from kind m e positive absent arrivals young few later soon again other k
      same =
    let c = e.seen_messages in
    let looked = has_absent first.now m.id c absent in
    let seen =
      new-seen cfg first.save first.now first.route from kind m e
        (ap (λ (t : MessageTtlCache × Bool). t.1) looked)
      ∙ ap (λ (t : MessageTtlCache × Bool). MessageTtlCache.add first.now m.id t.0) looked in
    let known : Knows c.ttl_ms c.max_capacity m.id first.now positive 0
        (handle_incoming cfg first from (chat kind m) e).0 =
      subst (Remembers c.ttl_ms c.max_capacity m.id first.now 0) (sym seen)
        (add-Remembers first.now m.id c absent (omega arith)) in
    let between = run cfg arrivals (handle_incoming cfg first from (chat kind m) e).0 in
    let still =
      run-Knows c.ttl_ms c.max_capacity m.id first.now positive cfg arrivals 0 (length arrivals) _
        (omega arith) young few known in
    let found =
      has-Remembers c.ttl_ms c.max_capacity m.id first.now (length arrivals) later.now
        between.seen_messages positive soon still in
    duplicate_answered cfg later.save later.now later.route again other k between (
      subst
        (λ t. MessageTtlCache.has later.now t between.seen_messages ≡ (between.seen_messages, true))
        (sym same) found)
