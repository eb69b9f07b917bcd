-- ===== src/PeerManager/Tests.antt =====
-- Tests and instances for src/core/peerManager.js.
use metrice.Base.{
  ℕ, zero, suc, ◌≤◌, ◌≢◌, true, false, none, some, List, [], ◌∷◌, ◌≡◌, refl, arith, Str, codes,
  str_eq, str_eq_inst, str_eq_ne, starts_with, strip_prefix, remove_first, has_char, split, length,
  includes,
}
use metrice.Base.Number.{parse_int, port_of, minus, not_positive}
use metrice.JsMap
use metrice.PeerManager.Admission.{IsClean}
use metrice.PeerManager.Capacity.{Keyed}
use metrice.PeerManager.Reachable.{loaded, called, report, edge, Reachable-IsClean}
use metrice.PeerManager.Scores.{verified}
use metrice.PeerManager.{
  Env, Meta, PeerManager, make_room, pub_port, is_port, is_public, on_interface, is_own_name,
  is_self_address, host_of, port_text, clean_host, is_loopback, is_edge, is_admitted, add_or_update,
  current, failed, update, is_evicted, keep_or_drop, register_edge_ip, evict_host, set_public_ip,
  purge_self, load_peers,
}

abbrev env : Env
env = record {
  server_name = codes "node.example";
  federation_port = 9000;
  public_federation_port = 0;
  bootstrap_peers = [];
  interfaces = codes "::ffff:10.0.0.5" ∷ [];
}

abbrev alone : PeerManager
alone = record {
  peers = [];
  public_ip = none;
  edge_ips = [];
  self_node_address = codes "node.example:9000";
}

abbrev a : Str
a = codes "1.2.3.4:9000"

abbrev b : Str
b = codes "5.6.7.8:9000"

abbrev two : PeerManager
two = record alone { peers = (a, verified 7) ∷ (b, verified 8) ∷ [] }

program : Unit {0}
unfolding add_or_update update is_admitted keep_or_drop is_evicted current make_room failed
    is_self_address is_port pub_port is_public on_interface is_own_name host_of port_text clean_host
    is_loopback is_edge JsMap.get JsMap.has JsMap.set JsMap.delete starts_with strip_prefix
    remove_first includes has_char split str_eq parse_int port_of minus not_positive load_peers
    register_edge_ip evict_host set_public_ip purge_self
program = tt

admits_peer : is_admitted env alone a ≡ true
unfolding program
admits_peer = refl

refuses_self : is_admitted env alone (codes "10.0.0.5:9000") ≡ false
unfolding program
refuses_self = refl

admits_other_port : is_admitted env alone (codes "10.0.0.5:9001") ≡ true
unfolding program
admits_other_port = refl

refuses_port : is_admitted env alone (codes "1.2.3.4:70000") ≡ false
unfolding program
refuses_port = refl

forgets_edge : (register_edge_ip (codes "::ffff:1.2.3.4") two).peers ≡ (b, verified 8) ∷ []
unfolding program
forgets_edge = refl

ordinary : includes env.bootstrap_peers a ≡ false
unfolding program
ordinary = refl

admits_known : is_admitted env two a ≡ true
unfolding program
admits_known = refl

knows : JsMap.get a two.peers ≡ some (verified 7)
unfolding program
knows = refl

holds : JsMap.has a two.peers ≡ true
unfolding program
holds = refl

lacks : JsMap.has a alone.peers ≡ false
unfolding program
lacks = refl

apart : JsMap.has a ((b, verified 8) ∷ []) ≡ false
unfolding program
apart = refl

colons : Keyed two.peers
unfolding program
colons = (refl, (refl, tt))

no_entry : JsMap.has {V = Meta} b [] ≡ false
unfolding program
no_entry = refl

not_empty : str_eq (clean_host (codes "9.9.9.9")) [] ≡ false
unfolding program
not_empty = refl

differ : str_eq a b ≡ false
unfolding program
differ = refl

different : a ≢ b
different = str_eq_ne a b differ

-- 250 entries of the same peer
abbrev crowd : ℕ → List (Str × Meta)
crowd zero = []
crowd (suc n) = (b, verified n) ∷ crowd n

crowd-Keyed : (n : ℕ) → Keyed (crowd n)
unfolding program
crowd-Keyed zero = tt
crowd-Keyed (suc n) = (refl, crowd-Keyed n)

crowd_lacks : (n : ℕ) → JsMap.has a (crowd n) ≡ false
unfolding program
crowd_lacks zero = refl
crowd_lacks (suc n) = crowd_lacks n

length-crowd : (n : ℕ) → length (crowd n) ≡ n
length-crowd zero = refl
length-crowd (suc n) = omega (arith, length-crowd n)

crowded : 250 ≤ length (crowd 250)
crowded = omega (arith, length-crowd 250)

Reachable-IsClean_example :
    IsClean env (add_or_update env 9 a true false (register_edge_ip (codes "9.9.9.9") alone))
unfolding metrice.PeerManager.load_peers
Reachable-IsClean_example =
    Reachable-IsClean env
      (called (called (loaded alone []) (edge (codes "9.9.9.9") not_empty)) (report 9 a true false))
