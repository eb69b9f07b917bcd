-- ===== src/Packets/Announce/Handler.antt =====
-- The whole of `handlePresenceAnnounce` of src/core/federationPacketHandler.js.
use metrice.Federation.{Config, Engine, is_relay_node, note_hearsay, relays_role, remember}
use metrice.Federation.Packet.{
  Announce, Member, announce, status, Consequence, write, connect, presence_change, upsert_route,
  reset_outbox, process_outbox, maintain_tunnels,
}
use metrice.JsMap
use metrice.Packets.{Source, pass_on}
use metrice.Packets.Announce.{
  announced_target, handle_members, is_genuine, is_transit_role, open_channels, presence_of,
  register_edge, set_physical,
}
use metrice.Presence.{LocalState, create_announce}
use metrice.Presence.Broadcast.{channels_of, known_peers, write_where}
use metrice.Base.{
  ℕ, ◌-◌, Bool, true, false, not, ◌&&◌, ◌||◌, none, some, List, [], ◌∷◌, ◌++◌, Str, codes, str_eq,
  str_eq_inst, includes, join, leb, ◌==◌, if◌then◌else◌, length, map,
}
use metrice.Base.Number.{decimal}

-- `${nodeId}:${timestamp}:${membershipSummary}`; the sorting of the names of the members is an argument.
unfoldable pub announce_key : (List Str → List Str) → Announce → Str
announce_key sort a =
    a.node_id
    ++ (codes ":"
        ++ (decimal a.timestamp
            ++ (codes ":" ++ join (codes ",") (sort (map (λ (m : Member). m.user) a.memberships)))))

-- The routes and the pool: what a genuine announcement says of its node
unfoldable pub learn_node : Config → ℕ → Source → Announce → Engine → Engine
learn_node cfg now from a e =
    let p = presence_of cfg now a in
    let safe = p.rendezvous_nodes in
    let first =
      register_edge p.role from.channel (record e { table = JsMap.set a.node_id p e.table }) in
    let second =
      set_physical a.node_id
        (if is_transit_role a.role
          then announced_target cfg first from.channel.peer_address safe
          else none)
        first in
    let third = (if relays_role a.role then note_hearsay cfg now safe second else second) in
    record third { subscribers = open_channels a.channels third.subscribers }

-- The node answers an announcement of a relay with its own, at most once in ten seconds over a channel.
unfoldable pub answers : Bool → ℕ → Source → Announce → Engine → Bool
answers is_new now from a e =
    (is_new && not a.is_bilateral_reply)
    && (relays_role a.role && leb 10000 (now - e.last_sync from.channel.channel))

unfoldable pub reply_with : ℕ → Engine × Announce → Engine × List Consequence
reply_with channel (e, own) = (
  e,
  if length own.memberships == 0
      then []
      else write channel (announce (record own { is_bilateral_reply = true })) ∷ [],
)

unfoldable pub sync_now : ℕ → ℕ → Engine → Engine
sync_now now channel e = record e { last_sync = λ c. if c == channel then now else e.last_sync c }

unfoldable pub answer_announce :
    Config → Bool → ℕ → LocalState → Source → Announce → Engine → Engine × List Consequence
answer_announce cfg is_new now state from a e =
    if answers is_new now from a e
    then reply_with from.channel.channel
        (create_announce cfg now state (sync_now now from.channel.channel e))
    else (e, [])

-- `seenPresenceAnnounces`
unfoldable pub is_new_announce : (List Str → List Str) → Announce → Engine → Bool
is_new_announce sort a e = not (includes e.seen_announces (announce_key sort a))

unfoldable pub note_announce : (List Str → List Str) → Announce → Engine → Engine
note_announce sort a e =
    if is_new_announce sort a e
    then record e { seen_announces = remember (announce_key sort a) e.seen_announces }
    else e

-- What is passed on of a new announcement: by a relay to its peers and tunnels, by an edge that gossips to its relays
unfoldable pub pass_announce_on : Config → Source → Announce → Engine → List Consequence
pass_announce_on cfg from a e =
    if is_relay_node e
    then pass_on cfg e from
        (λ peer at. elim (JsMap.get a.node_id e.physical) [ none ↦ false | some p ↦ str_eq p peer ])
        (λ at. connect at.0 at.1 (announce a)) (known_peers e)
      ++ write_where (λ key c. not (str_eq key a.node_id) && c.is_writable) (announce a)
          (channels_of e.tunnels)
    else if cfg.allow_edge_gossip && leb 2 (length e.relays)
    then write_where
        (λ key c.
          not (
            not (length from.remote_peer == 0)
            && (str_eq key from.remote_peer || str_eq c.peer_address from.remote_peer))
          && (not (c.channel == from.channel.channel) && (c.is_ready && c.is_writable)))
        (announce a) e.relays
    else []

-- `handlePresenceAnnounce(payload, channel, remotePeer)`
unfoldable pub handle_presence_announce :
    Config
    → (List Str → List Str)
    → ℕ
    → LocalState
    → Source
    → Announce
    → Engine
    → Engine × List Consequence
handle_presence_announce cfg sort now state from a e =
    let (joined, members) =
      handle_members cfg now a from.channel a.memberships (learn_node cfg now from a e) in
    let is_new = is_new_announce sort a joined in
    let (answered, reply) =
      answer_announce cfg is_new now state from a (note_announce sort a joined) in
    if is_genuine cfg now a
    then (
      answered,
      upsert_route a.node_id (record (presence_of cfg now a) { channels = [] })
          ∷ (members
              ++ reset_outbox a.node_id
                ∷ presence_change
                ∷ write from.channel.channel (status (codes "ack") cfg.node_id)
                ∷ (reply
                    ++ ((if is_new then pass_announce_on cfg from a answered else [])
                        ++ ((if not (is_relay_node e) && relays_role a.role
                              then maintain_tunnels ∷ []
                              else [])
                            ++ process_outbox ∷ [])))),
    )
    else (e, [])
