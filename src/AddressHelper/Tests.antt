-- ===== src/AddressHelper/Tests.antt =====
-- Tests and instances for src/utils/addressHelper.js.
use metrice.Base.{
  none, true, false, true, false, some, ◌≡◌, refl, arith, codes, str_eq, starts_with, ends_with,
  strip_prefix, remove_first, includes, has_char, split, cut, cut_last, count_char, to_lower,
}
use metrice.Base.Number.{trim, decimal, is_digit, all_digits, digits_value}
use metrice.AddressHelper.{
  Local, endpoint, user, mesh_of, mesh_raw, mesh_address_of, host_address_of, host_raw, sigil,
  global_address, is_local_node, is_valid_username, all_name_chars, is_name_char, is_valid_node_id,
  all_node_chars, is_node_char, is_global_channel, plain_i, is_system_console, bracket_port,
  host_or_own, split_port, wants_brackets, parse_plain, parse_bracket, parse_target,
  parse_with_target, parse_local, is_channel, parse_parts, parse_body, name_and_target,
  parse_trimmed, parse, node_or_local, format_user,
}
use metrice.AddressHelper.Same.{
  bool_eq, host_part, nick_part, is_own_mesh, is_local_host, is_same_user, is_same_clean,
  is_same_target,
}
use metrice.AddressHelper.Targets.{with_port, parse_target-with_port}
use metrice.AddressHelper.Users.{parse-format_user}

abbrev home : Local
home = record {
  server_name = codes "localhost";
  federation_port = 4000;
  local_node_id = some (codes "abcdefghijklmnop");
}

program : Unit {0}
unfolding str_eq starts_with ends_with strip_prefix remove_first includes has_char split cut
    cut_last count_char to_lower trim decimal is_digit all_digits digits_value mesh_of mesh_raw
    mesh_address_of host_address_of host_raw sigil global_address is_local_node is_valid_username
    all_name_chars is_name_char is_valid_node_id all_node_chars is_node_char is_global_channel
    plain_i is_system_console bracket_port host_or_own split_port wants_brackets parse_plain
    parse_bracket parse_target parse_with_target parse_local is_channel parse_parts parse_body
    name_and_target parse_trimmed parse node_or_local format_user bool_eq host_part nick_part
    is_own_mesh is_local_host is_same_user is_same_clean is_same_target
program = tt

parses_bracket :
    parse_target home (codes "[fe80::1]:4001") ≡ some (endpoint (codes "fe80::1") 4001 true false)
unfolding program
parses_bracket = refl

parses_warning :
    parse_target home (codes "fe80::1:22") ≡ some (endpoint (codes "fe80::1:22") 4000 true true)
unfolding program
parses_warning = refl

parses_global : parse home (codes " #Genel ") ≡ some (global_address (codes "Genel"))
unfolding program
parses_global = refl

same_local : is_same_target home (codes "@ali") (codes "ALI:some.host") ≡ false
unfolding program
same_local = refl

-- One local host and one remote host are the same user, two local hosts are not.
same_hosts :
    (is_same_target home (codes "@ali:127.0.0.1") (codes "@ali:remote.mesh") ≡ true)
    × (is_same_target home (codes "@ali:127.0.0.1") (codes "@ali:localhost") ≡ false)
unfolding program
same_hosts = (refl, refl)

parse_target-with_port_example :
    parse_target home (with_port (codes "host") 4001)
    ≡ some (endpoint (codes "host") 4001 false false)
parse_target-with_port_example =
    parse_target-with_port home b'h' (codes "ost") 4001 refl (refl, (refl, (refl, (refl, tt))))
      (omega arith)

parse-format_user_example :
    parse home (format_user home (codes "ali") (some (codes "abcdefghijklmnop")))
    ≡ some (record {
      kind = user;
      raw = codes "@ali:abcdefghijklmnop.mesh";
      name = codes "ali";
      node_id = some (codes "abcdefghijklmnop");
      mesh_address = some (codes "abcdefghijklmnop.mesh");
      host = none;
      port = none;
      is_global_channel = false;
      is_local = true;
      bracket_warning = false;
    })
unfolding program
parse-format_user_example =
    parse-format_user home b'a' (codes "li") (codes "abcdefghijklmnop") (refl, (refl, (refl, tt)))
      (unfold program in refl)
