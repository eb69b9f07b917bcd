-- ===== src/Packets/Dispatch.antt =====
-- `handleIncoming` of src/core/federationPacketHandler.js.
use metrice.Federation.{Config, Engine}
use metrice.Federation.Packet.{
  Message, Packet, part, announce, route_update, chat, channel_subscribe, channel_unsubscribe,
  typing, user_offline, gossip_discovery, gossip_response, status, plain, Consequence, hand_over,
}
use metrice.Packets.{
  Source, handle_channel_subscribe, handle_channel_unsubscribe, handle_typing, handle_user_offline,
  handle_gossip_discovery,
}
use metrice.Packets.Announce.Handler.{handle_presence_announce}
use metrice.Packets.Messages.{handle_message}
use metrice.Packets.Routes.{handle_route_update}
use metrice.Presence.{LocalState}
use metrice.Rendezvous.{Presence}
use metrice.Base.{ℕ, Option, List, [], ◌∷◌, Str}

-- What handling one packet takes from outside: the time, `db.saveMessage` and `db.getRoute`, the state of the clients, a
-- sample of the pool, and the sorting of texts
pub record Outside : Type 0 where
  pub now : ℕ
  pub save : Message → Option Message
  pub route : Str → Option Presence
  pub state : LocalState
  pub sample : List Str
  pub sort : List Str → List Str

-- `handleIncoming(payload, channel, remotePeer)`
unfoldable pub handle_incoming :
    Config → Outside → Source → Packet → Engine → Engine × List Consequence
handle_incoming cfg out from (part p text) e = (e, hand_over p text ∷ [])
handle_incoming cfg out from (announce a) e =
    handle_presence_announce cfg out.sort out.now out.state from a e
handle_incoming cfg out from (route_update u) e = handle_route_update cfg out.now out.route from u e
handle_incoming cfg out from (chat kind m) e =
    handle_message cfg out.save out.now out.route from kind m e
handle_incoming cfg out from (channel_subscribe name node) e =
    handle_channel_subscribe cfg out.now from name node e
handle_incoming cfg out from (channel_unsubscribe name node) e =
    handle_channel_unsubscribe cfg from name node e
handle_incoming cfg out from (typing sender receiver) e =
    handle_typing cfg out.now sender receiver e
handle_incoming cfg out from (user_offline user address timestamp) e =
    handle_user_offline cfg from user address timestamp e
handle_incoming cfg out from (gossip_discovery node peers) e =
    handle_gossip_discovery cfg out.now from out.sample node peers e
handle_incoming cfg out from (gossip_response node peers) e = (e, [])
handle_incoming cfg out from (status code subject) e = (e, [])
handle_incoming cfg out from plain e = (e, [])
