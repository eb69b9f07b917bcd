-- ===== src/PeerManager.antt =====
-- `PeerManager` of src/core/peerManager.js: the pool of known peers.
mod Tests
pub mod Admission
pub mod Capacity
pub mod Reachable
pub mod Scores
use metrice.Base.{
  ℕ, suc, ◌+◌, ◌≤◌, Bool, true, false, ◌&&◌, ◌||◌, not, Option, none, some, List, [], ◌∷◌, ◌++◌,
  Str, codes, str_eq, str_eq_inst, strip_prefix, remove_first, includes, has_char, split, ltb, leb,
  ◌==◌, if◌then◌else◌, length, get_or,
}
use metrice.Base.Number.{ℤ, pos, negsuc, minus, int_lt, not_positive, parse_int, port_of, decimal}
use metrice.JsMap

-- CONFIG, and the addresses of the network interfaces. A public port of 0 is not set.
pub record Env : Type 0 where
  pub server_name : Str
  pub federation_port : ℕ
  pub public_federation_port : ℕ
  pub bootstrap_peers : List Str
  pub interfaces : List Str

pub record Meta : Type 0 where
  pub score : ℤ
  pub last_seen : ℕ
  pub failures : ℕ
  pub from_gossip : Bool

pub record PeerManager : Type 0 where
  pub peers : List (Str × Meta)
  pub public_ip : Option Str
  pub edge_ips : List Str
  pub self_node_address : Str

-- `CONFIG.publicFederationPort || CONFIG.federationPort`
unfoldable pub pub_port : Env → ℕ
pub_port env =
    if env.public_federation_port == 0 then env.federation_port else env.public_federation_port

-- `port === n`; `none` is NaN.
unfoldable pub is_port : Option ℤ → ℕ → Bool
is_port none n = false
is_port (some (pos p)) n = p == n
is_port (some (negsuc p)) n = false

-- `this.publicIp && (host === this.publicIp || host === '::ffff:' + this.publicIp)`
unfoldable pub is_public : Option Str → Str → Bool
is_public none host = false
is_public (some ip) host = str_eq host ip || str_eq host (codes "::ffff:" ++ ip)

-- The loop over `os.networkInterfaces()`
unfoldable pub on_interface : List Str → Str → Bool
on_interface [] host = false
on_interface (address ∷ rest) host =
    (str_eq (remove_first (codes "::ffff:") address) host || str_eq address host)
    || on_interface rest host

unfoldable pub is_own_name : Env → Str → Bool
is_own_name env host =
    includes
      (env.server_name
        ∷ codes "localhost"
        ∷ codes "127.0.0.1"
        ∷ codes "::1"
        ∷ codes "::ffff:127.0.0.1"
        ∷ codes "0.0.0.0"
        ∷ [])
      host

-- `isSelfAddress(host, port)`
unfoldable pub is_self_address : Env → Option Str → Str → Option ℤ → Bool
is_self_address env public_ip host port =
    if not (is_port port env.federation_port) && not (is_port port (pub_port env))
    then false
    else if is_own_name env host
    then true
    else if is_public public_ip host
    then true
    else on_interface env.interfaces host

-- `const [host, portStr] = addr.split(':')`
unfoldable pub host_of : Str → Str
host_of addr = get_or (split b':' addr) 0 []

unfoldable pub port_text : Str → Str
port_text addr = get_or (split b':' addr) 1 []

-- `host.replace(/^::ffff:/, '')`
unfoldable pub clean_host : Str → Str
clean_host host = strip_prefix (codes "::ffff:") host

-- The loopback and broadcast names that are kept out of the pool.
unfoldable pub is_loopback : Str → Bool
is_loopback host =
    includes
      (codes "localhost"
        ∷ codes "127.0.0.1"
        ∷ codes "::1"
        ∷ codes "0.0.0.0"
        ∷ codes "255.255.255.255"
        ∷ [])
      host

unfoldable pub is_edge : List Str → Str → Bool
is_edge edge_ips host = includes edge_ips (clean_host host) || includes edge_ips host

-- The loop for the lowest score; `none` is the start, a null key and the score Infinity.
unfoldable pub lowest : List (Str × Meta) → Option (Str × ℤ) → Option (Str × ℤ)
lowest [] best = best
lowest ((key, val) ∷ m) none = lowest m (some (key, val.score))
lowest ((key, val) ∷ m) (some (k, s)) =
    lowest m (if int_lt val.score s then some (key, val.score) else some (k, s))

-- `if (lowestKey) this.peers.delete(lowestKey)`
unfoldable pub evict_key : Option (Str × ℤ) → List (Str × Meta) → List (Str × Meta)
evict_key none m = m
evict_key (some ([], s)) m = m
evict_key (some (c ∷ key, s)) m = JsMap.delete (c ∷ key) m

-- `if (this.peers.size >= 250 && !this.peers.has(peerAddr)) { … }`
unfoldable pub make_room : Str → List (Str × Meta) → List (Str × Meta)
make_room addr m =
    if leb 250 (length m) && not (JsMap.has addr m) then evict_key (lowest m none) m else m

-- `this.peers.get(peerAddr) || { … }`
unfoldable pub current : ℕ → Bool → Option Meta → Meta
current now from_gossip (some meta) = meta
current now from_gossip none = record {
  score = if from_gossip then pos 60 else pos 100;
  last_seen = now;
  failures = 0;
  from_gossip = from_gossip;
}

-- `!isBootstrap && (score <= 0 || failures >= 10 || (fromGossip && failures >= 1))`
unfoldable pub is_evicted : Bool → Meta → Bool
is_evicted is_bootstrap meta =
    not is_bootstrap
    && ((not_positive meta.score || leb 10 meta.failures)
        || (meta.from_gossip && leb 1 meta.failures))

-- The last `if` of `addOrUpdate`
unfoldable pub keep_or_drop : Bool → Str → Meta → List (Str × Meta) → List (Str × Meta)
keep_or_drop is_bootstrap addr meta m =
    if is_evicted is_bootstrap meta then JsMap.delete addr m else JsMap.set addr meta m

unfoldable pub failed : Meta → Meta
failed meta = record meta { score = minus meta.score 5; failures = meta.failures + 1 }

-- `addOrUpdate` behind its guards. The entry of a known peer is changed in place.
unfoldable pub update : Env → ℕ → Str → Bool → Bool → List (Str × Meta) → List (Str × Meta)
update env now addr success from_gossip peers =
    let is_bootstrap = includes env.bootstrap_peers addr in
    let m = make_room addr peers in
    let cur = current now from_gossip (JsMap.get addr m) in
    if success
    then (if from_gossip
        then (if JsMap.has addr m
            then JsMap.set addr (record cur { last_seen = now }) m
            else keep_or_drop is_bootstrap addr
                (record { score = pos 60; last_seen = now; failures = 0; from_gossip = true }) m)
        else keep_or_drop is_bootstrap addr
            (record { score = pos 100; last_seen = now; failures = 0; from_gossip = false }) m)
    else keep_or_drop is_bootstrap addr (failed cur) m

-- The guards of `addOrUpdate`, with the port as `parseInt` reads it. An address without a colon, an
-- empty host, no port of 1 to 65535, a loopback name, the node itself and an edge node stay out.
unfoldable pub is_admitted : Env → PeerManager → Str → Bool
is_admitted env pm addr = elim (port_of (port_text addr)) [
  | none ↦ false
  | some port ↦
      has_char b':' addr
      && (not (str_eq (host_of addr) [])
          && (not (is_loopback (clean_host (host_of addr)))
              && (not (is_self_address env pm.public_ip (host_of addr) (some (pos port)))
                  && not (is_edge pm.edge_ips (host_of addr)))))
]

-- `addOrUpdate(peerAddr, success, fromGossip)` at the time `now`
unfoldable pub add_or_update : Env → ℕ → Str → Bool → Bool → PeerManager → PeerManager
add_or_update env now addr success from_gossip pm =
    if is_admitted env pm addr
    then record pm { peers = update env now addr success from_gossip pm.peers }
    else pm

-- `evictHost(host)`; an entry without a colon is skipped.
unfoldable pub evict_host : Str → List (Str × Meta) → List (Str × Meta)
evict_host host [] = []
evict_host host ((addr, meta) ∷ m) =
    if has_char b':' addr && str_eq (clean_host (host_of addr)) (clean_host host)
    then evict_host host m
    else (addr, meta) ∷ evict_host host m

-- `registerEdgeIp(ip)`
unfoldable pub register_edge_ip : Str → PeerManager → PeerManager
register_edge_ip [] pm = pm
register_edge_ip (c ∷ ip) pm =
    let clean = clean_host (c ∷ ip) in
    record pm {
      peers = if str_eq clean [] then pm.peers else evict_host clean pm.peers;
      edge_ips = if includes pm.edge_ips clean then pm.edge_ips else pm.edge_ips ++ clean ∷ [];
    }

-- The loop of `setPublicIp`
unfoldable pub purge_self : Env → Option Str → List (Str × Meta) → List (Str × Meta)
purge_self env public_ip [] = []
purge_self env public_ip ((addr, meta) ∷ m) =
    if not (has_char b':' addr)
    then purge_self env public_ip m
    else if is_self_address env public_ip (host_of addr) (parse_int (port_text addr))
    then purge_self env public_ip m
    else (addr, meta) ∷ purge_self env public_ip m

-- `setPublicIp(ip)`
unfoldable pub set_public_ip : Env → Str → PeerManager → PeerManager
set_public_ip env [] pm = pm
set_public_ip env (c ∷ ip) pm = record pm {
  peers = purge_self env (some (c ∷ ip)) pm.peers;
  public_ip = some (c ∷ ip);
  self_node_address = (c ∷ ip) ++ (codes ":" ++ decimal (pub_port env));
}

-- The guards of `loadPeers` on one entry of the cache file
unfoldable pub is_loaded : Env → PeerManager → Str → Meta → Bool
is_loaded env pm addr meta =
    has_char b':' addr
    && (not (is_self_address env pm.public_ip (host_of addr) (parse_int (port_text addr)))
        && (not (is_loopback (clean_host (host_of addr)))
            && (not (is_edge pm.edge_ips (host_of addr))
                && not (leb 3 meta.failures || not_positive meta.score))))

-- `loadPeers()` on the entries of the cache file, into the map `m`
unfoldable pub load_peers :
    Env → PeerManager → List (Str × Meta) → List (Str × Meta) → List (Str × Meta)
load_peers env pm [] m = m
load_peers env pm ((addr, meta) ∷ entries) m =
    load_peers env pm entries (if is_loaded env pm addr meta then JsMap.set addr meta m else m)

-- The peers that `getRandomSample` chooses from.
unfoldable pub healthy : List (Str × Meta) → List Str
healthy [] = []
healthy ((addr, meta) ∷ m) =
    if (meta.failures == 0) && not (int_lt meta.score (pos 80)) then addr ∷ healthy m else healthy m

-- `getAllPeers()`
unfoldable pub all_peers : List (Str × Meta) → List Str
all_peers [] = []
all_peers ((addr, meta) ∷ m) = addr ∷ all_peers m
