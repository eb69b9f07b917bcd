-- ===== src/PeerManager/Reachable.antt =====
-- The life of the pool of src/core/peerManager.js: loaded from the cache file, then any calls.
use metrice.Base.{ℕ, Bool, false, List, [], ◌≡◌, Str, str_eq}
use metrice.PeerManager.Admission.{
  IsClean, add_or_update-IsClean, set_public_ip-IsClean, load_peers-IsClean,
  register_edge_ip-IsClean,
}
use metrice.PeerManager.{
  Env, Meta, PeerManager, add_or_update, clean_host, register_edge_ip, set_public_ip, load_peers,
}

module _ (env : Env) where
  -- One call from outside. A report may be false, and a gossiping peer may choose its address.
  pub data Step : PeerManager → PeerManager → Type 0 where
    report :
        {pm : PeerManager} (now : ℕ) (addr : Str) (success from_gossip : Bool)
        → Step pm (add_or_update env now addr success from_gossip pm)
    learn : {pm : PeerManager} (ip : Str) → Step pm (set_public_ip env ip pm)
    edge :
        {pm : PeerManager} (ip : Str)
        → str_eq (clean_host ip) [] ≡ false
        → Step pm (register_edge_ip ip pm)

  -- A pool that started with some cache file
  pub data Reachable : PeerManager → Type 0 where
    loaded :
        (pm : PeerManager) (entries : List (Str × Meta))
        → Reachable (record pm { peers = load_peers env pm entries [] })
    called : {pm next : PeerManager} → Reachable pm → Step pm next → Reachable next

  Step-IsClean : {pm next : PeerManager} → Step pm next → IsClean env pm → IsClean env next
  Step-IsClean (report {pm} now addr success from_gossip) clean =
      add_or_update-IsClean env now addr success from_gossip pm clean
  Step-IsClean (learn {pm} ip) clean = set_public_ip-IsClean env ip pm clean
  Step-IsClean (edge {pm} ip some_text) clean = register_edge_ip-IsClean env ip pm some_text clean

  -- In every reachable state of the pool, no entry is the node itself under its current names and
  -- addresses, a loopback name, an edge node that is known by now, or a text without a colon. No edge
  -- node was registered under the bare prefix of a mapped address.
  pub Reachable-IsClean : {pm : PeerManager} → Reachable pm → IsClean env pm
  Reachable-IsClean (loaded pm entries) = load_peers-IsClean env pm entries
  Reachable-IsClean (called before step) = Step-IsClean step (Reachable-IsClean before)
