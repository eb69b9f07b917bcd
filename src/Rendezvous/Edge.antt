-- ===== src/Rendezvous/Edge.antt =====
-- `RendezvousManager` of src/core/rendezvousManager.js on the side of an edge: the relays that it binds to.
pub mod Bound
pub mod Heartbeat
mod Tests
use metrice.JsMap
use metrice.PeerManager
use metrice.Base.{
  ℕ, ◌+◌, ◌-◌, Bool, true, false, not, ◌&&◌, ◌||◌, Option, none, some, List, [], ◌∷◌, ◌++◌, Str,
  codes, str_eq, str_eq_inst, ends_with, includes, has_char, ltb, leb, ◌==◌, if◌then◌else◌, length,
}
use metrice.Base.Number.{ℤ, pos, port_of, decimal}
use metrice.PeerManager.{is_self_address, host_of, port_text}
use metrice.Rendezvous.{Presence}

-- What the loop over the candidates reads and does not change. A secure channel to a relay, and the answer
-- of the relay to the request over it, come from the network: the socket and the keys of the channel if the relay
-- answers `bound`.
pub record EdgeEnv : Type 0 where
  pub pool_env : PeerManager.Env
  pub public_ip : Option Str
  pub node_id : Str
  pub node_address : Str
  pub max_relays : ℕ
  pub allow_edge_routing : Bool
  pub derive_node_id : Str → Str

-- The fields of a route and of an entry of the presence table that the search for relays reads
pub record Known : Type 0 where
  pub node_id : Str
  pub role : Str
  pub rendezvous_nodes : List Str

pub record Answer : Type 0 where
  pub socket : ℕ
  pub identity_key : Str
  pub kem_key : Str
  -- `_hasRendezvousCloseHandler`
  pub is_watched : Bool

pub record Edge : Type 0 where
  pub role : Str
  pub is_maintaining : Bool
  -- `boundRendezvousRelays` and `rendezvousRelays`
  pub bound : List Str
  pub relays : List (Str × ℕ)
  pub presence : List (Str × Presence)
  pub physical : List (Str × Str)

pub data EdgeEffect : Type 0 where
  role_change : Str → EdgeEffect
  broadcast_presence : EdgeEffect
  broadcast_announce : EdgeEffect
  upsert_route : Str → Presence → EdgeEffect
  watch_close : ℕ → Str → EdgeEffect
  process_outbox : Str → EdgeEffect
  ping : Str → EdgeEffect
  destroy : Str → EdgeEffect
  maintain_later : EdgeEffect

unfoldable pub is_relay_role : Str → Bool
is_relay_role role = str_eq role (codes "RELAY") || str_eq role (codes "CAP_RELAY")

-- The port of `host:port`, if the host and the port are usable and not this node's
unfoldable pub usable_port : EdgeEnv → Str → Option ℕ
usable_port env address =
    if not (has_char b':' address) || (length (host_of address) == 0)
    then none
    else elim (port_of (port_text address)) [
      | none ↦ none
      | some port ↦
          if is_self_address env.pool_env env.public_ip (host_of address) (some (pos port))
            || str_eq address env.node_address
          then none
          else some port
    ]

unfoldable pub is_usable : EdgeEnv → Str → Bool
is_usable env address = elim (usable_port env address) [ none ↦ false | some port ↦ true ]

-- `isCandidateValid(addr)`
unfoldable pub is_candidate_valid : EdgeEnv → Str → Bool
is_candidate_valid env address = not (ends_with address (codes ".mesh")) && is_usable env address

-- `if (isCandidateValid(a) && !targets.includes(a)) targets.push(a)` for each address
unfoldable pub add_targets : EdgeEnv → List Str → List Str → List Str
add_targets env [] targets = targets
add_targets env (address ∷ addresses) targets = add_targets env addresses (
    if is_candidate_valid env address && not (includes targets address)
    then targets ++ address ∷ []
    else targets)

unfoldable pub physical_of : List (Str × Str) → Str → List Str
physical_of physical node_id = elim (JsMap.get node_id physical) [
  | none ↦ []
  | some address ↦ address ∷ []
]

-- The relays among the routes, or among the entries of the presence table
unfoldable pub add_known : EdgeEnv → List (Str × Str) → List Known → List Str → List Str
add_known env physical [] targets = targets
add_known env physical (k ∷ known) targets = add_known env physical known (
    if is_relay_role k.role && not (str_eq k.node_id env.node_id)
    then add_targets env (physical_of physical k.node_id)
        (add_targets env k.rendezvous_nodes targets)
    else targets)

unfoldable pub present : List (Str × Presence) → List Known
present [] = []
present ((node_id, p) ∷ entries) =
    record { node_id = node_id; role = p.role; rendezvous_nodes = p.rendezvous_nodes }
    ∷ present entries

-- `targets`: the bootstrap peers, the routes, the presence table, and the pool of peers
unfoldable pub targets_of : EdgeEnv → List Known → List Str → Edge → List Str
targets_of env routes peers e = add_targets env peers (
    add_known env e.physical (present e.presence)
      (add_known env e.physical routes (add_targets env env.pool_env.bootstrap_peers [])))

-- `setRole(newRole)` for a role that is no relay
unfoldable pub change_role : Str → Edge → Edge × List EdgeEffect
change_role role e =
    if str_eq e.role role
    then (e, [])
    else (record e { role = role }, role_change role ∷ broadcast_presence ∷ [])

-- `checkTransitEdgeRole()`
unfoldable pub check_transit_role : EdgeEnv → Edge → Edge × List EdgeEffect
check_transit_role env e =
    if is_relay_role e.role
    then (e, [])
    else if env.allow_edge_routing && leb 2 (length e.relays)
    then change_role (codes "CAP_EDGE_TRANSIT") e
    else if str_eq e.role (codes "CAP_EDGE_TRANSIT")
    then change_role (codes "EDGE") e
    else (e, [])

unfoldable pub relay_presence : ℕ → Str → Answer → Presence
relay_presence now address a = record {
  role = codes "RELAY";
  rendezvous_nodes = address ∷ [];
  kem_key = a.kem_key;
  identity_key = a.identity_key;
  channels = [];
  last_seen = now;
}

-- What is written down of a relay whose channel has an identity key
unfoldable pub learn_relay : EdgeEnv → ℕ → Str → Answer → Edge → Edge × List EdgeEffect
learn_relay env now address a e =
    let node_id = env.derive_node_id a.identity_key in
    if length a.identity_key == 0 then (e, []) else (
      record e {
        presence = JsMap.set node_id (relay_presence now address a) e.presence;
        physical = JsMap.set node_id address e.physical;
      },
      upsert_route node_id (relay_presence now address a) ∷ [],
    )

-- `set.add(text)`
unfoldable pub add_text : Str → List Str → List Str
add_text address bound = if includes bound address then bound else bound ++ address ∷ []

-- The relay answered `bound`.
unfoldable pub on_bound : EdgeEnv → ℕ → Str → Answer → Edge → Edge × List EdgeEffect
on_bound env now address a e =
    let (checked, first) = check_transit_role env (record e {
      bound = add_text address e.bound;
      relays = JsMap.set address a.socket e.relays;
    }) in
    let (learned, second) = learn_relay env now address a checked in
    (
      learned,
      first
          ++ broadcast_announce
            ∷ (second
                ++ ((if a.is_watched then [] else watch_close a.socket address ∷ [])
                    ++ process_outbox address ∷ [])),
    )

-- `bindToRendezvousRelay(relayAddr)`
unfoldable pub bind_to_rendezvous_relay :
    EdgeEnv → (Str → Option Answer) → ℕ → Str → Edge → Edge × List EdgeEffect
bind_to_rendezvous_relay env answer now address e = elim (usable_port env address) [
  | none ↦ (e, [])
  | some port ↦ elim (answer address) [ none ↦ (e, []) | some a ↦ on_bound env now address a e ]
]

-- The loop over the targets
unfoldable pub bind_all :
    EdgeEnv → (Str → Option Answer) → ℕ → List Str → Edge → Edge × List EdgeEffect
bind_all env answer now [] e = (e, [])
bind_all env answer now (address ∷ targets) e =
    let skipped = bind_all env answer now targets e in
    let (next, effects) = bind_to_rendezvous_relay env answer now address e in
    let (last, more) = bind_all env answer now targets next in
    if not (is_candidate_valid env address)
    then skipped
    else if leb env.max_relays (length e.bound)
    then (e, [])
    else if includes e.bound address
    then skipped
    else (last, effects ++ more)

-- `maintainRendezvousTunnels()`, from the routes of the database and the peers of the pool
unfoldable pub maintain_rendezvous_tunnels :
    EdgeEnv → (Str → Option Answer) → ℕ → List Known → List Str → Edge → Edge × List EdgeEffect
maintain_rendezvous_tunnels env answer now routes peers e =
    let (last, effects) =
      bind_all env answer now (targets_of env routes peers e)
        (record e { is_maintaining = true }) in
    if is_relay_role e.role || e.is_maintaining
    then (e, [])
    else (record last { is_maintaining = false }, effects)

-- `set.delete(text)`
unfoldable pub remove_text : Str → List Str → List Str
remove_text address [] = []
remove_text address (other ∷ bound) =
    if str_eq other address then bound else other ∷ remove_text address bound

-- The end of a tunnel, in the heartbeat and in the `close` listener
unfoldable pub drop_relay : EdgeEnv → Str → Edge → Edge × List EdgeEffect
drop_relay env address e =
    check_transit_role env
      (record e { bound = remove_text address e.bound; relays = JsMap.delete address e.relays })

-- The listener that `watch_close` puts on the socket
unfoldable pub on_relay_close : EdgeEnv → Str → Edge → Edge × List EdgeEffect
on_relay_close env address e =
    let (next, effects) = drop_relay env address e in (next, effects ++ maintain_later ∷ [])

-- A channel of the connection pool
pub record RelayChannel : Type 0 where
  pub is_destroyed : Bool
  pub is_writable : Bool
  pub last_pong : ℕ

-- `${host}:${port}`
unfoldable pub pool_key : Str → Str
pool_key address =
    host_of address
    ++ (codes ":"
        ++ elim (port_of (port_text address)) [ none ↦ codes "NaN" | some port ↦ decimal port ])

-- The channel of a relay that answers: it is there, open, and gave a sign within the last minute.
unfoldable pub is_alive : ℕ → Option RelayChannel → Bool
is_alive now none = false
is_alive now (some l) =
    not l.is_destroyed && not (not (l.last_pong == 0) && ltb 60000 (now - l.last_pong))

unfoldable pub beat_effects : Str → Option RelayChannel → List EdgeEffect
beat_effects address none = []
beat_effects address (some l) = if l.is_destroyed then [] else destroy address ∷ []

unfoldable pub ping_effects : Str → Option RelayChannel → List EdgeEffect
ping_effects address none = []
ping_effects address (some l) = if l.is_writable then ping address ∷ [] else []

unfoldable pub is_open : Option RelayChannel → Bool
is_open none = false
is_open (some l) = not l.is_destroyed

-- The loop over the bound relays; the last result tells whether one was dropped. A channel that gave no sign
-- is destroyed and leaves the pool.
unfoldable pub beat :
    EdgeEnv
    → ℕ
    → List Str
    → List (Str × RelayChannel)
    → Edge
    → Edge × List (Str × RelayChannel) × List EdgeEffect × Bool
beat env now [] pool e = (e, pool, [], false)
beat env now (address ∷ bound) pool e =
    let link = JsMap.get (pool_key address) pool in
    let (kept, kept_pool, kept_effects, kept_drop) = beat env now bound pool e in
    let (dropped, drop_effects) = drop_relay env address e in
    let rest = (if is_open link then JsMap.delete (pool_key address) pool else pool) in
    let (next, next_pool, more, _) = beat env now bound rest dropped in
    if is_alive now link
    then (kept, kept_pool, ping_effects address link ++ kept_effects, kept_drop)
    else (next, next_pool, beat_effects address link ++ (drop_effects ++ more), true)

-- `sendRendezvousHeartbeat()`
unfoldable pub send_rendezvous_heartbeat :
    EdgeEnv
    → ℕ
    → List (Str × RelayChannel)
    → Edge
    → Edge × List (Str × RelayChannel) × List EdgeEffect
send_rendezvous_heartbeat env now pool e =
    let (next, rest, effects, needs_maintenance) = beat env now e.bound pool e in
    if is_relay_role e.role
    then (e, pool, [])
    else (next, rest, effects ++ (if needs_maintenance then maintain_later ∷ [] else []))
