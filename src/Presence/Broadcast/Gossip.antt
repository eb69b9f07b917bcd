-- ===== src/Presence/Broadcast/Gossip.antt =====
-- Gossip and the subscriptions to channels of other nodes in src/core/presenceManager.js.
use metrice.Federation.{Config, Engine, is_relay_node, foreign_endpoint, note_peer, note_hearsay}
use metrice.Federation.Packet.{
  Packet, gossip_discovery, channel_subscribe, channel_unsubscribe, Consequence, write, send_packet,
  send_via_onion,
}
use metrice.JsMap
use metrice.Presence.{get_relay_announce_address}
use metrice.Presence.Broadcast.{write_where}
use metrice.Rendezvous.{at_port}
use metrice.SecureChannel.{or_else}
use metrice.Base.{
  ℕ, Bool, true, false, none, some, List, [], ◌∷◌, ◌++◌, Str, codes, str_eq_inst, remove_first,
  to_lower, ◌==◌, if◌then◌else◌, length,
}
use metrice.Base.Number.{pos}

-- How a peer answers a packet: not at all, with another payload, or with GOSSIP_RESPONSE
pub data Reply : Type 0 where
  failed other : Reply
  gossip_answer : Str → List Str → Reply

-- `selfNode` of a packet of this node
unfoldable pub self_node : Config → Engine → Str
self_node cfg e =
    if is_relay_node e then or_else (get_relay_announce_address cfg e) e.node_address else []

unfoldable pub note_reply : Config → ℕ → Str → Reply → Engine → Engine
note_reply cfg now peer failed e = note_peer cfg now peer false false e
note_reply cfg now peer other e = e
note_reply cfg now peer (gossip_answer node peers) e =
    note_hearsay cfg now (node ∷ peers) (note_peer cfg now peer true false e)

-- `performRandomGossip()` with the two samples of the pool and the answers of the peers
unfoldable pub perform_random_gossip :
    Config → ℕ → (Str → Reply) → List Str → List Str → Engine → Engine × List Consequence
perform_random_gossip cfg now reply peers [] e = (e, [])
perform_random_gossip cfg now reply peers (peer ∷ sample) e =
    let skipped = perform_random_gossip cfg now reply peers sample e in
    let (next, effects) =
      perform_random_gossip cfg now reply peers sample (note_reply cfg now peer (reply peer) e) in
    elim (foreign_endpoint cfg e peer) [
      | none ↦ skipped
      | some at ↦ (next, send_packet at.0 at.1 (gossip_discovery (self_node cfg e) peers) ∷ effects)
    ]

-- `subscribeRemoteChannel(host, port, channel)`; whether the packet was sent is an argument.
unfoldable pub subscribe_remote_channel :
    Config → ℕ → Bool → Str → ℕ → Str → Engine → Engine × List Consequence
subscribe_remote_channel cfg now is_sent host port channel e = (
  if is_sent then note_peer cfg now (at_port host port) true false e else e,
  send_packet host (pos port) (channel_subscribe channel e.node_address) ∷ [],
)

-- `unsubscribeRemoteChannel(host, port, channel)`
unfoldable pub unsubscribe_remote_channel : Str → ℕ → Str → Engine → List Consequence
unsubscribe_remote_channel host port channel e =
    send_packet host (pos port) (channel_unsubscribe channel e.node_address) ∷ []

-- A payload for a node: to every relay, to its own tunnel, and through the onion circuits
unfoldable pub tell_node : Str → Packet → Engine → List Consequence
tell_node node_id payload e =
    write_where (λ _ c. c.is_writable) payload e.relays
    ++ (elim (JsMap.get node_id e.tunnels) [
      | none ↦ []
      | some t ↦ if t.channel.is_writable then write t.channel.channel payload ∷ [] else []
    ]
        ++ send_via_onion node_id payload ∷ [])

-- `nodeId.replace('.mesh', '').toLowerCase()`
unfoldable pub clean_node_id : Str → Str
clean_node_id node_id = to_lower (remove_first (codes ".mesh") node_id)

-- `subscribeNodeChannel(nodeId, channel)`
unfoldable pub subscribe_node_channel : Config → Str → Str → Engine → List Consequence
subscribe_node_channel cfg node_id channel e =
    if length node_id == 0
    then []
    else if length channel == 0
    then []
    else tell_node (clean_node_id node_id)
        (channel_subscribe channel (or_else cfg.mesh_address cfg.node_id)) e

-- `unsubscribeNodeChannel(nodeId, channel)`
unfoldable pub unsubscribe_node_channel : Config → Str → Str → Engine → List Consequence
unsubscribe_node_channel cfg node_id channel e =
    if length node_id == 0
    then []
    else if length channel == 0
    then []
    else tell_node (clean_node_id node_id)
        (channel_unsubscribe channel (or_else cfg.mesh_address cfg.node_id)) e
