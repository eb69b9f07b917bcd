-- ===== src/Onion/Tests.antt =====
-- Tests and instances for src/core/onionRouter.js.
use metrice.Base.{
  ℕ, none, some, [], ◌∷◌, ◌++◌, ◌≡◌, refl, Str, codes, leb, str_eq, str_eq_inst, strip_prefix,
  ends_with, has_char, split, join, if◌then◌else◌,
}
use metrice.Base.Number.{parse_int, port_of, decimal}
use metrice.JsMap
use metrice.PeerManager.{host_of, port_text}
use metrice.SecureChannel.Lines.{char_bytes, count_bytes, byte_length}
use metrice.SecureChannel.{
  Crypto, hex_digit, escape_char, escape, json_text, json_or_null, json_field, json_object,
}
use metrice.Onion.Relay.{
  deliver_local, circuit_key, find_relay, relay_or_direct, route_to, is_forward_address,
  forward_cell, deliver_payload, handle_layer, open_layer, is_whole, handle_onion_cell,
}
use metrice.Onion.Padding.{length-format_padded_cell}
use metrice.Onion.Peeling.{Station, travel, Opens, onion_delivered}
use metrice.Onion.{
  uniform_cell_size, Cell, cell_text, padded_text, pad_of, format_padded_cell, Hop, Circuit, Layer,
  deliver, forward, layer_text, cell_of, seal_layer, wrap, Incoming, bracketed, remote_identifier,
  get_hop_identifier, zip, onion_of, send_onion_cell, find_active, get_active_circuit_for_target,
  uses_hop, keep_others, remove_circuits_for_hop,
}

-- A cipher library that keeps the text, with the key as iv and as tag
abbrev toy : Crypto
toy = record {
  sign = λ text key. key ++ text;
  verify = λ text sig key. str_eq sig (key ++ text);
  encapsulate = λ key draw. some (draw ∷ key, draw ∷ []);
  decapsulate = λ key box. some (box ++ key);
  derive_key = λ secret salt info. secret ++ salt;
  encrypt = λ text key draw. (key, text, key);
  decrypt = λ box key. if str_eq box.0 key then some box.1 else none;
  derive_node_id = λ key. some key;
}

abbrev came_from : Str → Incoming
came_from address = record { peer_node_address = address; remote_address = []; remote_port = 0 }

abbrev station : Str → Str → Str → Layer → Station
station node_id key previous layer = record {
  env = record {
    crypto = toy;
    node_id = node_id;
    kem_private = node_id;
    parse_layer = λ text. if str_eq text (layer_text layer) then some layer else none;
    parse_setup = λ text. none;
    tunnels = [];
    relays = [];
  };
  circuits =
      (
        circuit_key (codes "c1") previous,
        record { next_hop = none; symmetric_key = key; created_at = 0 },
      )
      ∷ [];
  incoming = came_from previous;
}

abbrev second_hop : Hop
second_hop = record { address = codes "r2:9000"; kem_public_key = codes "k2"; node_id = codes "r2" }

abbrev inner : Cell
inner = wrap toy (codes "c1") (codes "bob") (codes "{}") 0 (codes "key2") []

abbrev guard : Station
guard = station (codes "r1") (codes "key1") (codes "alice") (forward (codes "r2:9000") inner)

abbrev exit : Station
exit = station (codes "bob") (codes "key2") (codes "r1:9000") (deliver (codes "bob") (codes "{}"))

program : Unit {0}
unfolding str_eq strip_prefix ends_with has_char split join parse_int port_of decimal JsMap.get
    JsMap.delete host_of port_text char_bytes count_bytes byte_length hex_digit escape_char escape
    json_text json_or_null json_field json_object cell_text padded_text pad_of format_padded_cell
    layer_text cell_of seal_layer wrap bracketed remote_identifier get_hop_identifier zip onion_of
    send_onion_cell find_active get_active_circuit_for_target uses_hop keep_others
    remove_circuits_for_hop circuit_key find_relay relay_or_direct route_to is_forward_address
    forward_cell deliver_payload handle_layer open_layer is_whole handle_onion_cell travel
program = tt

arrived :
    travel guard (exit ∷ []) (
      wrap toy
        (codes "c1")
        (codes "bob")
        (codes "{}")
        0
        (codes "key1")
        ((second_hop, codes "key2") ∷ []))
    ≡ deliver_local (codes "{}") ∷ []
unfolding program
arrived = refl

guard-Opens : Opens toy (codes "c1") (codes "key1") guard (forward (codes "r2:9000") inner) 1
unfolding program
guard-Opens = record {
  hop = record { next_hop = none; symmetric_key = codes "key1"; created_at = 0 };
  known = refl;
  same_key = refl;
  unseals = refl;
  whole = refl;
  reads = refl;
}

exit-Opens : Opens toy (codes "c1") (codes "key2") exit (deliver (codes "bob") (codes "{}")) 0
unfolding program
exit-Opens = record {
  hop = record { next_hop = none; symmetric_key = codes "key2"; created_at = 0 };
  known = refl;
  same_key = refl;
  unseals = refl;
  whole = refl;
  reads = refl;
}

onion_delivered_example :
    travel guard (exit ∷ []) (
      wrap toy
        (codes "c1")
        (codes "bob")
        (codes "{}")
        0
        (codes "key1")
        ((second_hop, codes "key2") ∷ []))
    ≡ handle_layer exit.env (deliver (codes "bob") (codes "{}"))
onion_delivered_example =
    onion_delivered toy (codes "c1") (codes "bob") (codes "{}") 0 (codes "key1") guard
      (((second_hop, codes "key2"), exit) ∷ [])
      (guard-Opens, unfold program in refl, unfold program in refl, exit-Opens)

length-format_padded_cell_example : byte_length (format_padded_cell inner) ≡ (
    if leb (byte_length (padded_text inner [] ++ codes "\n")) uniform_cell_size
    then uniform_cell_size
    else byte_length (padded_text inner [] ++ codes "\n"))
length-format_padded_cell_example = length-format_padded_cell inner

-- A circuit that is too old leaves the pool on the way.
abbrev circuit_at : ℕ → Circuit
circuit_at created_at = record {
  circuit_id = codes "c";
  hops = second_hop ∷ [];
  keys = codes "k" ∷ [];
  target_node_id = codes "bob";
  created_at = created_at;
}

found_active :
    get_active_circuit_for_target 600000 700000
      (codes "bob")
      ((codes "old", circuit_at 5) ∷ (codes "new", circuit_at 200000) ∷ [])
    ≡ (some (circuit_at 200000), (codes "new", circuit_at 200000) ∷ [])
unfolding program
found_active = refl
