-- ===== src/Packets/Tests.antt =====
-- Tests and instances for src/core/federationPacketHandler.js.
use metrice.AddressHelper
use metrice.AddressHelper.{
  all_node_chars, bracket_port, host_or_own, is_node_char, is_valid_node_id, mesh_of,
  name_and_target, parse_body, parse_bracket, parse_parts, parse_plain, parse_target, parse_trimmed,
  parse_with_target, split_port, wants_brackets, is_channel, is_local_node, mesh_address_of,
  host_address_of,
}
use metrice.Base.{
  ℕ, List, true, false, ◌≡◌, refl, none, some, [], ◌∷◌, codes, All, arith, str_eq, str_eq_inst,
  starts_with, strip_prefix, remove_first, ends_with, has_char, cut, cut_last, count_char, includes,
  split, to_lower, to_lower_char,
}
use metrice.Base.Number.{
  pos, trim, trim_front, trim_back, is_space, all_digits, is_digit, digits_value, read_digits,
}
use metrice.Federation.{
  Engine, is_clean_address, is_outside_mesh, keep_if, pick_safe, relays_role, safe_addresses,
}
use metrice.Federation.Packet.{
  Announce, Chat, Message, RouteUpdate, chat, user_offline, write, status,
}
use metrice.Federation.Sample.{clients, config, engine, source, user_at}
use metrice.JsMap
use metrice.MessageTtlCache
use metrice.Packets.{
  handle_channel_unsubscribe, handle_user_offline, is_newer, is_stale_offline, subscribers_of,
}
use metrice.Packets.Announce.{is_genuine, is_skewed, presence_of}
use metrice.Packets.Announce.Handler.{handle_presence_announce}
use metrice.Packets.Announce.Recorded.{genuine_recorded}
use metrice.Packets.Dispatch.{Outside, handle_incoming}
use metrice.Packets.Messages.{forward_message}
use metrice.Packets.Messages.Hops.{IsNextHop, IsPassedOn, hops_bounded}
use metrice.Packets.Messages.Once.{Arrival, run, message_once}
use metrice.Packets.Offline.{offline_exact}
use metrice.Packets.Routes.{accepted_update, handle_route_update, lacks_update_fields, signed_part}
use metrice.Packets.Routes.Once.{update_once}
use metrice.Packets.Subscriptions.{unsubscribed}
use metrice.PeerManager.{host_of}
use metrice.Presence.Broadcast.{ttl_or_five, user_name}
use metrice.Presence.{name_or}
use metrice.SecureChannel.{or_else}

program : Unit {0}
unfolding all_node_chars bracket_port host_or_own is_node_char is_valid_node_id mesh_of
    name_and_target parse_body parse_bracket parse_parts parse_plain parse_target parse_trimmed
    parse_with_target split_port wants_brackets is_channel is_local_node mesh_address_of
    host_address_of AddressHelper.parse str_eq starts_with strip_prefix remove_first ends_with
    has_char cut cut_last count_char includes split to_lower to_lower_char trim trim_front trim_back
    is_space all_digits is_digit digits_value read_digits is_clean_address is_outside_mesh keep_if
    pick_safe relays_role safe_addresses JsMap.get JsMap.has JsMap.set MessageTtlCache.has is_newer
    is_stale_offline subscribers_of is_genuine is_skewed presence_of accepted_update
    lacks_update_fields signed_part host_of ttl_or_five user_name name_or or_else
program = tt

abbrev arriving : Announce
arriving = record {
  node_id = codes "z";
  role = codes "RELAY";
  rendezvous_nodes = codes "localhost:4" ∷ codes "z.org:4" ∷ [];
  kem_key = codes "kz";
  identity_key = codes "z";
  channels = [];
  memberships = [];
  timestamp = 900;
  sig = codes "sig";
  is_bilateral_reply = false;
  relay_announce_address = [];
}

genuine_recorded_example :
    (JsMap.get
        (codes "z")
        (handle_presence_announce config (λ l. l) 1000 clients source arriving engine).0.table
      ≡ some (record {
        role = codes "RELAY";
        rendezvous_nodes = codes "z.org:4" ∷ [];
        kem_key = codes "kz";
        identity_key = codes "z";
        channels = [];
        last_seen = 1000;
      }))
    × All (λ address. is_clean_address address ≡ true) (codes "z.org:4" ∷ [])
unfolding program
genuine_recorded_example =
    genuine_recorded config (λ l. l) 1000 clients source arriving engine refl refl

offline_exact_example :
    (JsMap.get
        (codes "@ada:edge.mesh")
        (handle_user_offline config source (codes "@ada:edge.mesh") (codes "s:1") 0 engine).0.users
      ≡ none)
    × (JsMap.get
          (codes "@Ada:a:7")
          (handle_user_offline config source
            (codes "@ada:edge.mesh")
            (codes "s:1")
            0
            engine).0.users
        ≡ none)
unfolding program
offline_exact_example =
    offline_exact config source b'@' (codes "ada:edge.mesh") (codes "s:1") 0 engine
      (codes "@Ada:a:7") (user_at 90000) refl (refl, (refl, (refl, tt))) refl refl refl

abbrev hello : Message
hello = record {
  id = codes "1";
  sender = codes "@x:far:7";
  receiver = codes "@ada:edge.mesh";
  content = codes "hi";
  is_action = false;
  is_snippet = false;
  is_e2ee = false;
  hop = pos 3;
  ttl = pos 0;
  timestamp = [];
}

abbrev at_time : ℕ → Outside
at_time now = record {
  now = now;
  save = λ m. some m;
  route = λ n. none;
  state = clients;
  sample = [];
  sort = λ l. l;
}

-- Another message and a user that goes offline, between the two
abbrev meanwhile : List Arrival
meanwhile =
    record {
      outside = at_time 6;
      source = source;
      packet = chat Chat.direct_message (record hello { id = codes "2" });
    }
    ∷ record {
      outside = at_time 7;
      source = source;
      packet = user_offline (codes "@ada:edge.mesh") (codes "s:1") 0;
    }
    ∷ []

abbrev behind_all : Engine
behind_all =
    run config meanwhile
      (handle_incoming config (at_time 5) source (chat Chat.direct_message hello) engine).0

message_once_example :
    handle_incoming config
      (at_time 10)
      source
      (chat Chat.channel_message (record hello { content = codes "changed" }))
      behind_all
    ≡ (behind_all, write 2 (status (codes "duplicate") (codes "1")) ∷ [])
unfolding program
message_once_example =
    message_once config (at_time 5) source Chat.direct_message hello engine (omega arith) refl
      meanwhile (omega arith, (omega arith, tt)) (omega arith) (at_time 10) (omega arith) source
      Chat.channel_message (record hello { content = codes "changed" }) refl

hops_bounded_example :
    All
      (IsPassedOn (IsNextHop Chat.direct_message hello hello))
      (forward_message config (λ n. none) source Chat.direct_message hello hello engine)
unfolding program
hops_bounded_example = hops_bounded config (λ n. none) source Chat.direct_message hello hello engine

abbrev route_change : RouteUpdate
route_change = record {
  node_id = codes "n";
  role = codes "EDGE";
  rendezvous_nodes = codes "z.org:4" ∷ [];
  kem_key = codes "kn";
  identity_key = [];
  relay_node_id = codes "z";
  relay_address = codes "z.org:4";
  relay_kem_key = codes "kz";
  relay_identity_key = codes "z";
  timestamp = 900;
  sig = codes "sig";
}

update_once_example :
    handle_route_update config 2000
      (λ n. none)
      source
      route_change
      (handle_route_update config 1000 (λ n. none) source route_change engine).0
    ≡ ((handle_route_update config 1000 (λ n. none) source route_change engine).0, [])
unfolding program
update_once_example =
    update_once config 1000 2000 (λ n. none) source source route_change route_change route_change
      engine refl refl refl

unsubscribed_example :
    includes
      (subscribers_of
        (codes "#x")
        (handle_channel_unsubscribe config source (codes "#x") (codes "b:7") engine).0)
      (codes "b:7")
    ≡ false
unfolding program
unsubscribed_example =
    unsubscribed config source (codes "#x") (codes "b:7") (codes "#x") (codes "b:7") engine refl
      (refl, (refl, tt))
