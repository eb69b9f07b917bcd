-- ===== src/AutoNat/Tests.antt =====
-- Tests and instances for src/core/autoNat.js.
use metrice.Base.{
  true, false, none, some, [], ◌∷◌, ◌≡◌, refl, arith, codes, str_eq, str_eq_inst, includes,
  starts_with, strip_prefix, split, ◌≤◌,
}
use metrice.Base.Number.{pos, port_of, parse_int, decimal}
use metrice.JsMap
use metrice.AutoNat.RateLimit.{dialed_once}
use metrice.AutoNat.Slots.{ask, settle, run, held, slots_bounded}
use metrice.AutoNat.Node.{
  Node, Sent, edge, is_role, is_relay, is_loopback_or_local, adopt_address, set_role, give_up,
  send_request, ask_first, initiate_dialback, handle_dialback_confirm,
}
use metrice.AutoNat.Roles.{confirmed, react}
use metrice.PeerManager.{Env, PeerManager, all_peers, host_of, port_text, pub_port}
use metrice.AutoNat.{
  new_service, Dial, Request, verified_ip, is_local, is_private, is_private_octet, is_limited,
  last_dialback, note_dialback, open_dial, admit, handle_dialback_request, free, is_held,
  release_slot,
}

abbrev asked : Request
asked = record {
  target_port = codes "9000";
  nonce = codes "n";
  remote_address = codes "::ffff:8.8.4.4";
  now = 50000;
}

abbrev again : Request
again = record asked { now = 59999; remote_address = codes "8.8.4.4" }

abbrev inside : Request
inside = record asked { remote_address = codes "172.20.0.7" }

abbrev dialed : Dial
dialed = record { host = codes "8.8.4.4"; port = 9000; nonce = codes "n" }

program : Unit {0}
unfolding verified_ip is_local is_private is_private_octet is_limited last_dialback note_dialback
    open_dial admit handle_dialback_request free is_held release_slot JsMap.get JsMap.set
    starts_with strip_prefix includes str_eq port_of parse_int
program = tt

dials : (handle_dialback_request false asked new_service).1 ≡ some dialed
unfolding program
dials = refl

refuses_inside : (handle_dialback_request false inside new_service).1 ≡ none
unfolding program
refuses_inside = refl

same_address : verified_ip again.remote_address ≡ verified_ip asked.remote_address
unfolding program
same_address = refl

dialed_once_example :
    (handle_dialback_request false again (
      run (settle 0 ∷ ask false inside ∷ []) (handle_dialback_request false asked new_service).0)).1
    ≡ none
dialed_once_example =
    dialed_once asked again new_service dialed (settle 0 ∷ ask false inside ∷ []) dials
      (tt, ((refl, omega arith), tt)) same_address (omega arith)

abbrev env : Env
env = record {
  server_name = codes "localhost";
  federation_port = 9000;
  public_federation_port = 0;
  bootstrap_peers = [];
  interfaces = [];
}

abbrev known : PeerManager
known = record {
  peers =
      (
        codes "1.2.3.4:9000",
        record { score = pos 100; last_seen = 7; failures = 0; from_gossip = false },
      )
      ∷ [];
  public_ip = none;
  edge_ips = [];
  self_node_address = codes "localhost:9000";
}

abbrev node : Node
node = record {
  observed_address_votes = [];
  public_ip = none;
  role = edge;
  is_dialback_running = false;
  pending_dialbacks = [];
  node_address = codes "localhost:9000";
  peer_manager = known;
}

abbrev request : Sent
request = record {
  host = codes "1.2.3.4";
  port = pos 9000;
  target_ip = codes "8.8.8.8";
  nonce = codes "n";
}

node_program : Unit {0}
unfolding initiate_dialback ask_first send_request all_peers host_of port_text split parse_int
    handle_dialback_confirm set_role adopt_address is_role is_relay is_loopback_or_local JsMap.has
    JsMap.delete JsMap.set str_eq give_up pub_port decimal starts_with
node_program = tt

sends : (initiate_dialback env (codes "n") (codes "8.8.8.8") node).1 ≡ some request
unfolding node_program
sends = refl

abbrev waiting : Node
waiting = record node { pending_dialbacks = (codes "n", codes "8.8.8.8") ∷ [] }

confirms : is_relay (react env (confirmed (codes "n")) waiting).role ≡ true
unfolding node_program
confirms = refl

not_yet : is_relay waiting.role ≡ false
unfolding node_program
not_yet = refl

slots_bounded_example :
    ((run (ask false asked ∷ settle 0 ∷ []) new_service).active_dialbacks
      ≡ held (run (ask false asked ∷ settle 0 ∷ []) new_service).slots)
    × ((run (ask false asked ∷ settle 0 ∷ []) new_service).active_dialbacks ≤ 5)
slots_bounded_example = slots_bounded (ask false asked ∷ settle 0 ∷ [])
