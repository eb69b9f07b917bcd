-- ===== src/Onion/Build/Tests.antt =====
-- Tests and instances for the circuits of src/core/onionRouter.js.
use metrice.Base.{
  ℕ, List, Option, length, ◌==◌, false, ap, subst, if-true, str_eq_refl, Bool, true, none, some, [],
  ◌∷◌, ◌++◌, ◌≡◌, refl, Str, codes, str_eq, str_eq_inst, strip_prefix, ends_with, has_char, split,
  join, if◌then◌else◌,
}
use metrice.JsMap
use metrice.PeerManager.{host_of, port_text}
use metrice.Base.Number.{decimal}
use metrice.SecureChannel.Lines.{char_bytes, count_bytes, byte_length}
use metrice.SecureChannel.{
  Crypto, hex_digit, escape_char, escape, json_text, json_or_null, json_field, json_object,
}
use metrice.Onion.Build.{
  box_text, setup_text, Prepared, prepare, setup_for, new_circuit, launch, build_circuit,
}
use metrice.Onion.Build.Installed.{establish, HoldKeys}
use metrice.Onion.Build.Established.{Serves, circuit_established}
use metrice.Onion.Peeling.{Station}
use metrice.Onion.Relay.{
  Setup, Route, circuit_key, find_relay, relay_or_direct, route_to, onion_info, extend_effects,
  extend_circuit, setup_effects, next_of, handle_circuit_setup,
}
use metrice.Onion.{Hop, Circuit, bracketed, remote_identifier, get_hop_identifier}

-- A cipher library that keeps the text
abbrev toy : Crypto
toy = record {
  sign = λ text key. key ++ text;
  verify = λ text sig key. str_eq sig (key ++ text);
  encapsulate = λ key draw. some (draw ∷ key, draw ∷ []);
  decapsulate = λ key box. some (box ++ key);
  derive_key = λ secret salt info. secret ++ salt;
  encrypt = λ text key draw. (key, text, key);
  decrypt = λ box key. if str_eq box.0 key then some box.1 else none;
  derive_node_id = λ key. some key;
}

abbrev hop : Str → Hop
hop name = record { address = name ++ codes ":9000"; kem_public_key = name; node_id = name }

abbrev prepared : ℕ → Str → Prepared
prepared draw name = record {
  hop = hop name;
  key = draw ∷ (name ++ codes "c1");
  encapsulated_key = draw ∷ [];
}

abbrev last_setup : Setup
last_setup = record {
  kind = codes "CIRCUIT_EXTEND";
  circuit_id = codes "c1";
  encapsulated_key = 1 ∷ [];
  next_hop = [];
  extend_payload = none;
}

abbrev station : Str → Str → Station
station name previous = record {
  env = record {
    crypto = toy;
    node_id = name;
    kem_private = name;
    parse_layer = λ text. none;
    parse_setup = λ text. if str_eq text (setup_text last_setup) then some last_setup else none;
    tunnels = [];
    relays = [];
  };
  circuits = [];
  incoming = record { peer_node_address = previous; remote_address = []; remote_port = 0 };
}

abbrev all_ready : Route → Setup → Bool
all_ready route p = true

program : Unit {0}
unfolding str_eq strip_prefix ends_with has_char split join decimal JsMap.get JsMap.set host_of
    port_text char_bytes count_bytes byte_length hex_digit escape_char escape json_text json_or_null
    json_field json_object box_text setup_text prepare setup_for new_circuit launch build_circuit
    bracketed remote_identifier get_hop_identifier circuit_key find_relay relay_or_direct route_to
    onion_info extend_effects extend_circuit setup_effects next_of handle_circuit_setup establish
program = tt

prepared_pair :
    prepare toy (codes "c1") 0 (hop (codes "r1") ∷ hop (codes "r2") ∷ [])
    ≡ some (prepared 0 (codes "r1") ∷ prepared 1 (codes "r2") ∷ [])
unfolding program
prepared_pair = refl

no_kem_key :
    build_circuit toy
      (λ guard p. true)
      9
      (codes "c1")
      (record { address = codes "r1:1"; kem_public_key = []; node_id = [] } ∷ [])
      []
      []
    ≡ none
unfolding program
no_kem_key = refl

toy-Serves : (name previous : Str) → Serves toy (hop name) (station name previous)
toy-Serves name previous = record {
  opens = λ secret draw e. (
    subst (λ q. (length q.1 == 0) ≡ false) (toy_secret e) refl,
    subst (λ (q : Str × Str). some (q.1 ++ name) ≡ some q.0) (toy_secret e) refl,
  );
  derives = λ secret salt info. refl;
  unseals = λ text key draw. if-true _ (str_eq_refl key);
}
  where
    toy_secret :
        {draw : ℕ} {secret : Str × Str}
        → some (draw ∷ name, draw ∷ []) ≡ some secret
        → (draw ∷ name, draw ∷ []) ≡ secret
    toy_secret {draw} e =
        ap (λ (o : Option (Str × Str)). elim o [ none ↦ (draw ∷ name, draw ∷ []) | some q ↦ q ]) e

abbrev pair : List Hop
pair = hop (codes "r1") ∷ hop (codes "r2") ∷ []

abbrev pair_prepared : List Prepared
pair_prepared = prepared 0 (codes "r1") ∷ prepared 1 (codes "r2") ∷ []

abbrev pair_setup : Setup
pair_setup =
    setup_for toy (codes "c1") 2 (codes "CIRCUIT_CREATE") (prepared 0 (codes "r1"))
      (prepared 1 (codes "r2") ∷ [])

abbrev pair_circuit : Circuit
pair_circuit = new_circuit 8 (codes "c1") pair pair_prepared (codes "bob")

circuit_established_example :
    (build_circuit toy (λ guard p. true) 8 (codes "c1") pair (codes "bob") []
      ≡ some (pair_circuit, JsMap.set (codes "c1") pair_circuit []))
    × HoldKeys (codes "c1") pair_circuit.keys (
        establish all_ready 9
          (station (codes "r1") (codes "alice"))
          (station (codes "r2") (codes "r1") ∷ [])
          pair_setup)
circuit_established_example =
    circuit_established toy (codes "c1") pair (codes "bob") 8 (λ guard p. true) [] 9 all_ready
      (prepared 0 (codes "r1")) (prepared 1 (codes "r2") ∷ [])
      (station (codes "r1") (codes "alice")) (station (codes "r2") (codes "r1") ∷ []) refl
      prepared_pair
      (
        toy-Serves (codes "r1") (codes "alice"),
        unfold program in refl,
        unfold program in refl,
        unfold program in refl,
        toy-Serves (codes "r2") (codes "r1"),
      )
