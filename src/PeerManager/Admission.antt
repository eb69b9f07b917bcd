-- ===== src/PeerManager/Admission.antt =====
-- No operation of src/core/peerManager.js lets the node itself, a loopback name or an edge node into
-- the pool.
use metrice.Base.{
  ℕ, Bool, true, false, ◌&&◌, ◌||◌, not, Option, none, some, List, [], ◌∷◌, ◌++◌, ◌≡◌, refl, ◌∙◌,
  arith, Str, codes, str_eq, str_eq_inst, str_eq_iff, str_eq_sym, has_char, includes, leb,
  if◌then◌else◌, length, starts_with, strip_prefix, Lacks, split, split_first, get_or, All,
  Bool-cases, Option-cases, inl, inr,
}
use metrice.Base.Number.{ℤ, pos, parse_int, port_of, port_of-parse_int}
use metrice.JsMap
use metrice.JsMap.Laws.{All-set, All-delete}
use metrice.PeerManager.{
  Env, Meta, PeerManager, lowest, evict_key, make_room, keep_or_drop, update, add_or_update,
  is_admitted, is_evicted, host_of, port_text, clean_host, is_loopback, is_self_address, is_edge,
  is_loaded, evict_host, register_edge_ip, purge_self, set_public_ip, load_peers,
}

-- An address that may stand in the pool
abbrev pub IsForeign : Env → Option Str → List Str → Str → Type 0
IsForeign env public_ip edge_ips addr =
    (has_char b':' addr ≡ true)
    × (is_self_address env public_ip (host_of addr) (parse_int (port_text addr)) ≡ false)
    × (is_loopback (clean_host (host_of addr)) ≡ false)
    × (is_edge edge_ips (host_of addr) ≡ false)

abbrev pub IsClean : Env → PeerManager → Type 0
IsClean env pm = All (λ e. IsForeign env pm.public_ip pm.edge_ips e.0) pm.peers

is_admitted-IsForeign :
    (env : Env) (pm : PeerManager) (addr : Str)
    → is_admitted env pm addr ≡ true
    → IsForeign env pm.public_ip pm.edge_ips addr
unfolding is_admitted
is_admitted-IsForeign env pm addr admitted = elim (Option-cases (port_of (port_text addr))) [
  | inl bad ↦ ground arith
  | inr (port, good) ↦
      let same : parse_int (port_text addr) ≡ some (pos port) =
        port_of-parse_int (port_text addr) port good in
      rw same (ground arith)
]

module _ (P : Str × Meta → Type 0) where
  All-evict_key :
      (best : Option (Str × ℤ)) (m : List (Str × Meta)) → All P m → All P (evict_key best m)
  unfolding evict_key
  All-evict_key none m h = h
  All-evict_key (some ([], s)) m h = h
  All-evict_key (some (c ∷ key, s)) m h = All-delete P (c ∷ key) m h

  All-make_room : (addr : Str) (m : List (Str × Meta)) → All P m → All P (make_room addr m)
  unfolding make_room
  All-make_room addr m h =
      elim (leb 250 (length m) && not (JsMap.has addr m))
        as (λ b. All P (if b then evict_key (lowest m none) m else m)) [
          | true ↦ All-evict_key (lowest m none) m h
          | false ↦ h
        ]

  module _ (addr : Str) (fits : (meta : Meta) → P (addr, meta)) where
    All-keep_or_drop :
        (b : Bool) (meta : Meta) (m : List (Str × Meta))
        → All P m
        → All P (keep_or_drop b addr meta m)
    unfolding keep_or_drop
    All-keep_or_drop b meta m h =
        elim (is_evicted b meta)
          as (λ e. All P (if e then JsMap.delete addr m else JsMap.set addr meta m)) [
            | true ↦ All-delete P addr m h
            | false ↦ All-set P addr meta m (fits meta) h
          ]

    All-update :
        (env : Env) (now : ℕ) (success from_gossip : Bool) (m : List (Str × Meta))
        → All P m
        → All P (update env now addr success from_gossip m)
    unfolding update
    All-update env now false from_gossip m h = All-keep_or_drop _ _ _ (All-make_room addr m h)
    All-update env now true false m h = All-keep_or_drop _ _ _ (All-make_room addr m h)
    All-update env now true true m h = elim (Bool-cases (JsMap.has addr (make_room addr m))) [
      | inl known ↦ rw known (All-set P addr _ _ (fits _) (All-make_room addr m h))
      | inr new ↦ rw new (All-keep_or_drop _ _ _ (All-make_room addr m h))
    ]

-- A report about any address, true or not, leaves the pool clean.
pub add_or_update-IsClean :
    (env : Env) (now : ℕ) (addr : Str) (success from_gossip : Bool) (pm : PeerManager)
    → IsClean env pm
    → IsClean env (add_or_update env now addr success from_gossip pm)
unfolding add_or_update
add_or_update-IsClean env now addr success from_gossip pm clean =
    elim (Bool-cases (is_admitted env pm addr)) [
      | inl admitted ↦
          let foreign = is_admitted-IsForeign env pm addr admitted in
          rw admitted (
            All-update (λ e. IsForeign env pm.public_ip pm.edge_ips e.0) addr (λ meta. foreign) env
              now success from_gossip pm.peers clean)
      | inr refused ↦ rw refused clean
    ]

purge_self-IsForeign :
    (env : Env) (old new : Option Str) (edge_ips : List Str) (m : List (Str × Meta))
    → All (λ e. IsForeign env old edge_ips e.0) m
    → All (λ e. IsForeign env new edge_ips e.0) (purge_self env new m)
unfolding purge_self
purge_self-IsForeign env old new edge_ips [] h = tt
purge_self-IsForeign env old new edge_ips ((addr, meta) ∷ m) ((colon, foreign, named, edge), h) =
    let rest = purge_self-IsForeign env old new edge_ips m h in
    elim (Bool-cases (is_self_address env new (host_of addr) (parse_int (port_text addr)))) [
      | inl self ↦ rw (colon, self) rest
      | inr other ↦ rw (colon, other) ((colon, other, named, edge), rest)
    ]

-- When the node learns its public address, the pool is clean for the new address.
pub set_public_ip-IsClean :
    (env : Env) (ip : Str) (pm : PeerManager)
    → IsClean env pm
    → IsClean env (set_public_ip env ip pm)
unfolding set_public_ip
set_public_ip-IsClean env [] pm clean = clean
set_public_ip-IsClean env (c ∷ ip) pm clean =
    purge_self-IsForeign env pm.public_ip (some (c ∷ ip)) pm.edge_ips pm.peers clean

load_peers-All :
    (env : Env) (pm : PeerManager) (entries m : List (Str × Meta))
    → All (λ e. IsForeign env pm.public_ip pm.edge_ips e.0) m
    → All (λ e. IsForeign env pm.public_ip pm.edge_ips e.0) (load_peers env pm entries m)
unfolding load_peers
load_peers-All env pm [] m h = h
load_peers-All env pm ((addr, meta) ∷ entries) m h =
    elim (Bool-cases (is_loaded env pm addr meta)) [
      | inl good ↦
          let foreign : IsForeign env pm.public_ip pm.edge_ips addr =
            unfold is_loaded in ground arith in
          rw good (
            load_peers-All env pm entries _
              (All-set (λ e. IsForeign env pm.public_ip pm.edge_ips e.0) addr meta m foreign h))
      | inr bad ↦ rw bad (load_peers-All env pm entries m h)
    ]

-- Whatever the cache file holds, `loadPeers` fills an empty pool with clean entries only.
pub load_peers-IsClean :
    (env : Env) (pm : PeerManager) (entries : List (Str × Meta))
    → IsClean env (record pm { peers = load_peers env pm entries [] })
load_peers-IsClean env pm entries = load_peers-All env pm entries [] tt

Lacks-starts_with : (host : Str) → Lacks b':' host → starts_with host (codes "::ffff:") ≡ false
unfolding starts_with
Lacks-starts_with [] h = refl
Lacks-starts_with (c ∷ host) (h, hs) = ground arith

-- The host of an address has no colon, so it never has the prefix of a mapped address.
clean_host-host_of : (addr : Str) → clean_host (host_of addr) ≡ host_of addr
unfolding clean_host host_of strip_prefix
clean_host-host_of addr =
    rw (Lacks-starts_with (get_or (split b':' addr) 0 []) (split_first b':' addr)) refl

includes-append :
    (ts : List Str) (t s : Str) → includes (ts ++ t ∷ []) s ≡ (includes ts s || str_eq t s)
unfolding includes
includes-append [] t s = ground arith
includes-append (u ∷ ts) t s = ground (arith, includes-append ts t s)

starts_with_colon : (s : Str) → starts_with s (codes "::ffff:") ≡ true → has_char b':' s ≡ true
unfolding starts_with has_char
starts_with_colon [] h = cc
starts_with_colon (c ∷ s) h = ground arith

Lacks-has_char : (s : Str) → Lacks b':' s → has_char b':' s ≡ false
unfolding has_char
Lacks-has_char [] h = refl
Lacks-has_char (c ∷ s) (h, hs) = ground (arith, Lacks-has_char s hs)

str_eq_apart : (s t : Str) → has_char b':' s ≡ true → has_char b':' t ≡ false → str_eq s t ≡ false
str_eq_apart s t h k = elim (Bool-cases (str_eq s t)) [
  | inl same ↦ let h' : has_char b':' t ≡ true = rw (← (str_eq_iff s t).0 same) h in absurd cc
  | inr other ↦ other
]

-- A host is the cleaned address only if it is so after one more cleaning.
host_of-clean :
    (addr clean : Str)
    → str_eq (host_of addr) (clean_host clean) ≡ false
    → str_eq clean (host_of addr) ≡ false
unfolding clean_host strip_prefix
host_of-clean addr clean different = elim (Bool-cases (starts_with clean (codes "::ffff:"))) [
  | inl mapped ↦
      let lacks : has_char b':' (host_of addr) ≡ false =
        unfold host_of in Lacks-has_char (get_or (split b':' addr) 0 []) (split_first b':' addr) in
      str_eq_apart clean (host_of addr) (starts_with_colon clean mapped) lacks
  | inr plain ↦
      let kept : clean_host clean ≡ clean = unfold clean_host strip_prefix in rw plain refl in
      str_eq_sym clean (host_of addr) ∙ rw (← kept) different
]

add_edge : List Str → Str → List Str
add_edge edge_ips clean = if includes edge_ips clean then edge_ips else edge_ips ++ clean ∷ []

is_edge-add_edge :
    (edge_ips : List Str) (clean addr : Str)
    → is_edge edge_ips (host_of addr) ≡ false
    → str_eq (host_of addr) (clean_host clean) ≡ false
    → is_edge (add_edge edge_ips clean) (host_of addr) ≡ false
unfolding add_edge is_edge
is_edge-add_edge edge_ips clean addr edge different = rw clean_host-host_of (
    ground (
      arith,
      includes-append edge_ips clean (host_of addr),
      host_of-clean addr clean different,
      clean_host-host_of addr,
    ))

evict_host-IsForeign :
    (env : Env) (public_ip : Option Str) (edge_ips : List Str) (clean : Str) (m : List (Str × Meta))
    → All (λ e. IsForeign env public_ip edge_ips e.0) m
    → All (λ e. IsForeign env public_ip (add_edge edge_ips clean) e.0) (evict_host clean m)
unfolding evict_host
evict_host-IsForeign env public_ip edge_ips clean [] h = tt
evict_host-IsForeign env public_ip edge_ips clean ((addr, meta) ∷ m)
      ((colon, foreign, named, edge), h) =
    let rest = evict_host-IsForeign env public_ip edge_ips clean m h in
    elim (Bool-cases (str_eq (clean_host (host_of addr)) (clean_host clean))) [
      | inl same ↦ rw (colon, same) rest
      | inr other ↦
          rw (colon, other)
            (
              (
                colon,
                foreign,
                named,
                is_edge-add_edge edge_ips clean addr edge (rw (← clean_host-host_of addr) other),
              ),
              rest,
            )
    ]

-- When a host turns out to be an edge node, its peers leave the pool, and the pool is clean for the
-- longer list of edge nodes. The address is more than the prefix of a mapped address.
pub register_edge_ip-IsClean :
    (env : Env) (ip : Str) (pm : PeerManager)
    → str_eq (clean_host ip) [] ≡ false
    → IsClean env pm
    → IsClean env (register_edge_ip ip pm)
unfolding register_edge_ip add_edge
register_edge_ip-IsClean env [] pm some_text clean = clean
register_edge_ip-IsClean env (c ∷ ip) pm some_text clean =
    rw some_text
      (evict_host-IsForeign env pm.public_ip pm.edge_ips (clean_host (c ∷ ip)) pm.peers clean)
