-- ===== src/Rendezvous/Edge/Tests.antt =====
-- Tests and instances for the edge's side of src/core/rendezvousManager.js.
use metrice.Base.{
  true, false, ◌&&◌, Option, none, some, List, [], ◌∷◌, ◌≡◌, refl, Str, codes, str_eq, str_eq_inst,
  ends_with, includes, has_char, split,
}
use metrice.Base.Number.{parse_int, port_of, decimal}
use metrice.JsMap
use metrice.PeerManager
use metrice.PeerManager.{host_of, port_text}
use metrice.Rendezvous.Edge.Heartbeat.{heartbeat_exact}
use metrice.Rendezvous.Edge.{
  EdgeEnv, Answer, Edge, RelayChannel, is_relay_role, usable_port, is_usable, is_candidate_valid,
  add_targets, physical_of, add_known, present, targets_of, change_role, check_transit_role,
  relay_presence, learn_relay, add_text, on_bound, bind_to_rendezvous_relay, bind_all,
  maintain_rendezvous_tunnels, remove_text, drop_relay, pool_key, is_alive, is_open, beat_effects,
  ping_effects, beat, send_rendezvous_heartbeat,
}

abbrev edge_env : EdgeEnv
edge_env = record {
  pool_env = record {
    server_name = codes "me";
    federation_port = 4000;
    public_federation_port = 0;
    bootstrap_peers =
        codes "me:4000" ∷ codes "a:1" ∷ codes "x.mesh:5" ∷ codes "b:0" ∷ codes "c:3" ∷ [];
    interfaces = [];
  };
  public_ip = none;
  node_id = codes "own";
  node_address = codes "me:4000";
  max_relays = 2;
  allow_edge_routing = true;
  derive_node_id = λ key. key;
}

abbrev idle : Edge
idle = record {
  role = codes "EDGE";
  is_maintaining = false;
  bound = [];
  relays = [];
  presence = [];
  physical = [];
}

abbrev all_answer : Str → Option Answer
all_answer address =
    some (record { socket = 1; identity_key = address; kem_key = []; is_watched = false })

program : Unit {0}
unfolding str_eq ends_with includes has_char split parse_int port_of decimal JsMap.get JsMap.set
    JsMap.delete PeerManager.is_self_address PeerManager.is_port PeerManager.pub_port
    PeerManager.is_own_name PeerManager.is_public PeerManager.on_interface host_of port_text
    is_relay_role usable_port is_usable is_candidate_valid add_targets physical_of add_known present
    targets_of change_role check_transit_role relay_presence learn_relay add_text on_bound
    bind_to_rendezvous_relay bind_all maintain_rendezvous_tunnels remove_text drop_relay pool_key
    is_alive is_open beat_effects ping_effects beat send_rendezvous_heartbeat
program = tt

abbrev maintained : Edge
maintained =
    (maintain_rendezvous_tunnels edge_env all_answer 9 [] (codes "d:4" ∷ codes "a:1" ∷ []) idle).0

-- The own address and the port zero are left out, and the limit of two holds.
maintained_bound : maintained.bound ≡ codes "a:1" ∷ codes "x.mesh:5" ∷ []
unfolding program
maintained_bound = refl

maintained_role : maintained.role ≡ codes "CAP_EDGE_TRANSIT"
unfolding program
maintained_role = refl

-- The first relay gave a sign too long ago.
abbrev pool : List (Str × RelayChannel)
pool =
    (codes "a:1", record { is_destroyed = false; is_writable = true; last_pong = 1000 })
    ∷ (codes "c:3", record { is_destroyed = false; is_writable = true; last_pong = 50000 })
    ∷ []

abbrev two_bound : Edge
two_bound = record idle { bound = codes "a:1" ∷ codes "c:3" ∷ [] }

heartbeat_exact_example :
    includes (send_rendezvous_heartbeat edge_env 70000 pool two_bound).0.bound (codes "c:3") ≡ (
      includes (codes "a:1" ∷ codes "c:3" ∷ []) (codes "c:3")
      && is_alive 70000 (JsMap.get (pool_key (codes "c:3")) pool))
heartbeat_exact_example =
    heartbeat_exact edge_env 70000 pool two_bound (codes "c:3") (unfold program in refl)
      (unfold JsMap.has in unfold str_eq in (refl, (refl, tt)))
      (unfold includes in unfold str_eq in (refl, (refl, tt)))
