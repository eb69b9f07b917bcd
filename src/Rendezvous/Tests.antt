-- ===== src/Rendezvous/Tests.antt =====
-- Tests and instances for src/core/rendezvousManager.js.
use metrice.JsMap
use metrice.NonceTracker
use metrice.TtlMap
use metrice.Base.{
  ℕ, true, false, some, [], ◌∷◌, ◌++◌, ◌≡◌, refl, arith, Str, codes, str_eq, str_eq_inst,
  starts_with, strip_prefix, remove_first, has_char, join, take,
}
use metrice.Base.Number.{decimal}
use metrice.NonceTracker.{NonceTracker, track}
use metrice.SecureChannel.{
  or_else, hex_digit, escape_char, escape, json_text, json_or_null, json_field, json_object,
}
use metrice.Rendezvous.Admission.{is_admissible, IsRefused, refused_bind, admissible_bound}
use metrice.Rendezvous.Tunnels.{bind, close, run, IsValid, run-IsValid}
use metrice.Rendezvous.{
  Tunnel, Presence, Env, Connection, Bind, Relay, ip_capacity_reached, reject, acknowledge,
  upsert_route, at_port, clean_ip, public_port, local_addresses, loopback_addresses,
  public_addresses, valid_relay_addresses, bind_text, is_signed_for, is_missing, is_expired,
  count_ip, is_exempt, is_full, is_ip_full,
}
use metrice.Rendezvous.Binding.{
  edge_kem_key_of, new_tunnel, edge_presence, or_null, route_text, route_updates, accept,
  check_capacity, check_nonce, check_signature, handle_rendezvous_bind, on_close,
}

abbrev relay_env : Env
relay_env = record {
  derive_node_id = λ key. some key;
  verify = λ text sig key. str_eq sig text;
  sign = λ text key. key ++ text;
  route_kem_key = λ node_id. [];
  node_id = codes "relay";
  node_address = codes "localhost:4000";
  mesh_address = codes "relay.mesh";
  announce_address = codes "relay.mesh";
  public_ip = [];
  server_name = codes "localhost";
  federation_port = 4000;
  public_federation_port = 0;
  kem_public = codes "k";
  identity_public = codes "i";
  identity_private = codes "i";
  max_skew_ms = 300000;
  max_tunnels = 2;
  max_per_ip = 1;
  is_test = false;
}

abbrev from : ℕ → Connection
from socket = record {
  socket = socket;
  local_address = codes "::ffff:10.0.0.1";
  local_port = 4000;
  remote_address = codes "10.0.0.9";
  peer_kem_key = codes "kem";
}

abbrev request : Str → Str → Bind
request node_id nonce = record {
  node_id = node_id;
  identity_key = node_id;
  timestamp = 5;
  nonce = nonce;
  sig = node_id ++ (codes "127.0.0.1:4000" ++ (codes "5" ++ nonce));
  relay_address = [];
  kem_key = [];
}

abbrev fresh_relay : Relay
fresh_relay = record {
  tunnels = [];
  presence = [];
  nonce_tracker = record { ttl_ms = 60000; max_capacity = 50000; nonces = [] };
}

program : Unit {0}
unfolding str_eq starts_with strip_prefix remove_first has_char join decimal JsMap.get JsMap.has
    JsMap.set JsMap.delete track NonceTracker.cleanup NonceTracker.nonce_key
    NonceTracker.enforce_capacity TtlMap.cleanup TtlMap.drop_expired TtlMap.trim TtlMap.evict
    or_else hex_digit escape_char escape json_text json_or_null json_field json_object at_port
    clean_ip public_port local_addresses loopback_addresses public_addresses valid_relay_addresses
    bind_text is_signed_for is_missing is_expired count_ip is_exempt is_full is_ip_full
    edge_kem_key_of new_tunnel edge_presence or_null route_text route_updates accept check_capacity
    check_nonce check_signature handle_rendezvous_bind on_close
program = tt

abbrev ann : Bind
ann = request (codes "ann") (codes "n1")

ann_admissible : is_admissible relay_env 9 ann (from 1) fresh_relay ≡ true
unfolding program
ann_admissible = refl

abbrev ann_tunnel : Tunnel
ann_tunnel = record {
  socket = (from 1).socket;
  remote_address = (from 1).remote_address;
  bound_at = 9;
  bound_address = relay_env.announce_address;
  edge_kem_key = or_else (from 1).peer_kem_key (relay_env.route_kem_key (codes "ann"));
  identity_key = codes "ann";
}

abbrev ann_presence : Presence
ann_presence = record {
  role = codes "EDGE";
  rendezvous_nodes = relay_env.announce_address ∷ [];
  kem_key = ann_tunnel.edge_kem_key;
  identity_key = codes "ann";
  channels = [];
  last_seen = 9;
}

abbrev with_ann : Relay
with_ann = (handle_rendezvous_bind relay_env 9 ann (from 1) fresh_relay).0

-- A second node from the same address is over the limit of one.
second_from_address :
    (handle_rendezvous_bind relay_env 9 (request (codes "ben") (codes "n2")) (from 2) with_ann).1
    ≡ reject ip_capacity_reached ∷ []
unfolding program
second_from_address = refl

-- The nonce is kept for a minute, but the signature holds for five.
bound_again_later : is_admissible relay_env 60010 ann (from 3) with_ann ≡ true
unfolding program
bound_again_later = refl

refused_bind_example :
    IsRefused relay_env 9 ann
      (from 2)
      with_ann
      (handle_rendezvous_bind relay_env 9 ann (from 2) with_ann)
refused_bind_example = refused_bind relay_env 9 ann (from 2) with_ann (unfold program in refl)

admissible_bound_example :
    (JsMap.get (codes "ann") (handle_rendezvous_bind relay_env 9 ann (from 1) fresh_relay).0.tunnels
      ≡ some ann_tunnel)
    × (JsMap.get
          (codes "ann")
          (handle_rendezvous_bind relay_env 9 ann (from 1) fresh_relay).0.presence
        ≡ some ann_presence)
    × (take 2 (handle_rendezvous_bind relay_env 9 ann (from 1) fresh_relay).1
        ≡ upsert_route (codes "ann") ann_presence ∷ acknowledge (codes "ann") ∷ [])
unfolding program
admissible_bound_example =
    admissible_bound relay_env 9 ann (from 1) fresh_relay (codes "ann") ann_admissible

run-IsValid_example :
    IsValid relay_env (run relay_env (bind 9 ann (from 1) ∷ close (codes "ann") 1 ∷ []) fresh_relay)
run-IsValid_example =
    run-IsValid relay_env (bind 9 ann (from 1) ∷ close (codes "ann") 1 ∷ []) fresh_relay
      (record { bounded = omega arith; owned = tt })
