-- ===== src/SecureChannel/Tests.antt =====
-- Tests and instances for `SecureChannel` of src/core/secureChannel.js.
use metrice.Base.{
  true, false, Option, none, some, List, [], ◌∷◌, ◌++◌, ◌≡◌, refl, subst, arith, Str, codes, str_eq,
  str_eq_refl, str_eq_inst, starts_with, ends_with, strip_prefix, remove_first, has_char, cut,
  cut_last, count_char, to_lower, join, if◌then◌else◌, All,
}
use metrice.Base.Number.{
  trim, trim_front, trim_back, is_space, decimal, is_digit, all_digits, digits_value,
}
use metrice.AddressHelper.{
  mesh_of, is_valid_node_id, all_node_chars, is_node_char, bracket_port, host_or_own, split_port,
  wants_brackets, parse_plain, parse_bracket, parse_target,
}
use metrice.JsMap
use metrice.NonceTracker
use metrice.NonceTracker.{NonceTracker, track}
use metrice.TtlMap
use metrice.SecureChannel.Peer.{
  declared_of, normal_ip, raw_remote, clean_remote, clean_declared, names_node, is_loopback,
  is_private_172, starts_with_any, in_private_range, some_public_match, resolve, validate_address,
  validate_host, validate_declared, validate_peer_ip,
}
use metrice.SecureChannel.Frames.{
  refuse, flush, mark_ready, set_peer, session_info, observed_remote, signed_reply, accept_init,
  check_init, handle_init, is_valid_reply, observed_effects, accept_reply, handle_reply,
  payload_effects, handle_encrypted, handle_frame,
}
use metrice.SecureChannel.Lines.{
  char_bytes, count_bytes, byte_length, on_text, on_data, finish, dispatch, on_line, round, drain,
}
use metrice.SecureChannel.Lines.Drain.{IsDrained, drain_enough}
use metrice.SecureChannel.Events.{Event, chunk, turn, timeout, on_timeout, handle, run}
use metrice.SecureChannel.Events.Fine.{IsSound, Quiet}
use metrice.SecureChannel.Events.Sound.{channel-IsSound, silent_before_ready}
use metrice.SecureChannel.Handshake.{sent, handed_on, receive, Honest, answered, concluded, Opens}
use metrice.SecureChannel.Handshake.Agreement.{handshake_agreement, queues_delivered}
use metrice.SecureChannel.Authentic.{IsKept, unauthentic-IsKept}
use metrice.SecureChannel.Authentic.Spoofed.{spoofed_init_refused, replayed_init_refused}
use metrice.SecureChannel.{
  Crypto, Network, Frame, handshake_init, other_frame, destroy, pause, resume, emit_pong, Env,
  Channel, new_channel, or_else, hex_digit, escape_char, escape, json_text, json_or_null,
  json_field, json_object, init_text, observed_field, reply_text, canonical_address, signed_init,
  send_handshake_init, construct, sealed, write_payload,
}

-- A cipher library in which a key pair is one text
abbrev toy : Crypto
toy = record {
  sign = λ text key. key ++ text;
  verify = λ text sig key. str_eq sig (key ++ text);
  encapsulate = λ key draw. some (draw ∷ key, draw ∷ []);
  decapsulate = λ key box. some (box ++ key);
  derive_key = λ secret salt info. secret ++ salt;
  encrypt = λ text key draw. (key, text, draw ∷ []);
  decrypt = λ box key. if str_eq box.0 key then some box.1 else none;
  derive_node_id = λ key. some (codes "abcdefghijklmnop");
}

abbrev lan : Network
lan = record {
  remote_address = codes "::ffff:10.0.0.9";
  real_remote_address = [];
  remote_port = 4711;
  real_remote_port = 0;
  is_ipv6 = has_char b':';
  lookup = λ name. some (codes "93.184.216.34" ∷ []);
}

abbrev node : Str → Env
node name = record {
  crypto = toy;
  net = lan;
  local = record { server_name = codes "localhost"; federation_port = 4000; local_node_id = none };
  me = record {
    role = codes "RELAY";
    announce = some (codes "127.0.0.1:4000");
    node_address = none;
    identity_public = name;
    identity_private = name;
    kem_public = name;
    kem_private = name;
  };
  parse_frame = λ line. some other_frame;
  is_json = λ text. true;
  buffer_limit = 65536;
}

abbrev ada : Env
ada = node (codes "ada")

abbrev bob : Env
bob = node (codes "bob")

abbrev tracker : NonceTracker
tracker = record { ttl_ms = 60000; max_capacity = 50000; nonces = [] }

-- The initiator behind its constructor, and the responder, each with a payload that waits
abbrev ada_channel : Channel
ada_channel = record {
  is_initiator = true;
  is_ready = false;
  session_key = none;
  peer_node_address = none;
  peer_identity_key = [];
  peer_kem_key = [];
  observed_address = [];
  pending_queue = codes "\"hi\"" ∷ [];
  buffer = [];
  is_processing = false;
  my_nonce = codes "n1";
  last_pong = 5;
  is_destroyed = false;
  draws = 0;
  nonce_tracker = tracker;
}

abbrev bob_channel : Channel
bob_channel = record ada_channel {
  is_initiator = false;
  my_nonce = [];
  pending_queue = codes "\"yo\"" ∷ codes "7" ∷ [];
}

-- The box opens to the secret.
abbrev Opened : Str → Option (Str × Str) → Type 0
Opened key none = Unit
Opened key (some (secret, box)) = some (box ++ key) ≡ some secret

honest : (i r : Str) → Honest (node i) (node r)
honest i r = record {
  signs = λ text. str_eq_refl (i ++ text);
  replies = λ text. str_eq_refl (r ++ text);
  opens = λ secret box draw e. subst (Opened i) e refl;
  derives = λ secret salt info. refl;
  unseals = λ text key draw. rw (str_eq_refl key) refl;
}

program : Unit {0}
unfolding str_eq starts_with ends_with strip_prefix remove_first has_char cut cut_last count_char
    to_lower join trim trim_front trim_back is_space decimal is_digit all_digits digits_value
    mesh_of is_valid_node_id all_node_chars is_node_char bracket_port host_or_own split_port
    wants_brackets parse_plain parse_bracket parse_target JsMap.has JsMap.set TtlMap.cleanup
    TtlMap.drop_expired TtlMap.trim TtlMap.evict track NonceTracker.cleanup NonceTracker.nonce_key
    NonceTracker.enforce_capacity declared_of normal_ip raw_remote clean_remote clean_declared
    names_node is_loopback is_private_172 starts_with_any in_private_range some_public_match resolve
    validate_address validate_host validate_declared validate_peer_ip refuse flush mark_ready
    set_peer session_info observed_remote signed_reply accept_init check_init handle_init
    is_valid_reply observed_effects accept_reply handle_reply payload_effects handle_encrypted
    handle_frame char_bytes count_bytes byte_length on_text on_data finish dispatch on_line round
    drain on_timeout handle run receive new_channel or_else hex_digit escape_char escape json_text
    json_or_null json_field json_object init_text observed_field reply_text canonical_address
    signed_init send_handshake_init construct sealed write_payload
program = tt

json_escapes : json_field (codes "a", json_text (codes "x\"\\\n")) ≡ codes "\"a\":\"x\\\"\\\\\\n\""
unfolding program
json_escapes = refl

bytes_of_text : byte_length (b'a' ∷ 0xE7 ∷ 0x20AC ∷ 0xD83D ∷ 0xDE00 ∷ []) ≡ 10
unfolding program
bytes_of_text = refl

opens : Opens ada bob 1000 (codes "n1") (0 ∷ codes "ada") (0 ∷ []) ada_channel bob_channel
unfolding program
opens = record {
  honest = honest (codes "ada") (codes "bob");
  initiates = refl;
  mine = refl;
  responds = refl;
  fresh = refl;
  valid = refl;
  encapsulates = refl;
}

handshake_agreement_example :
    ((answered ada bob 1000 (codes "n1") bob_channel).0.session_key ≡ some (0 ∷ codes "adan1"))
    × ((answered ada bob 1000 (codes "n1") bob_channel).0.is_ready ≡ true)
    × ((concluded ada bob 1000 (codes "n1") ada_channel bob_channel).0.session_key
        ≡ some (0 ∷ codes "adan1"))
    × ((concluded ada bob 1000 (codes "n1") ada_channel bob_channel).0.is_ready ≡ true)
handshake_agreement_example =
    handshake_agreement ada bob 1000 b'n' (codes "1") (0 ∷ codes "ada") (0 ∷ []) ada_channel
      bob_channel opens ((omega arith, refl), ((omega arith, refl), tt))

queues_delivered_example :
    (handed_on (concluded ada bob 1000 (codes "n1") ada_channel bob_channel).1
      ≡ codes "\"yo\"" ∷ codes "7" ∷ [])
    × (handed_on
          (receive bob 1000
            (sent (concluded ada bob 1000 (codes "n1") ada_channel bob_channel).1)
            (answered ada bob 1000 (codes "n1") bob_channel).0).1
        ≡ codes "\"hi\"" ∷ [])
queues_delivered_example =
    queues_delivered ada bob 1000 b'n' (codes "1") (0 ∷ codes "ada") (0 ∷ []) ada_channel
      bob_channel opens (honest (codes "bob") (codes "ada"))
      ((omega arith, refl), ((omega arith, refl), tt)) ((omega arith, refl), tt)

-- A chunk, a round that finds a line without an object, and the timeout
abbrev happened : List Event
happened = chunk 6 (b'x' ∷ b'\n' ∷ []) (codes "x\n") ∷ turn 6 ∷ timeout ∷ []

channel-IsSound_example : IsSound (run ada happened (construct ada true (codes "n1") 5 tracker).0).0
channel-IsSound_example = channel-IsSound ada true (codes "n1") 5 tracker happened

silent_before_ready_example : All Quiet (run ada happened ada_channel).1
silent_before_ready_example = silent_before_ready ada happened ada_channel (unfold program in refl)

closed_on_junk : (run ada happened ada_channel).1 ≡ pause ∷ destroy ∷ destroy ∷ []
unfolding program
closed_on_junk = refl

-- A line end that arrives alone is taken for a keepalive byte, and the line stays unread.
line_end_alone :
    (run ada
      (chunk 6 (b'{' ∷ b'}' ∷ []) (codes "{}")
        ∷ turn 6
        ∷ chunk 7 (10 ∷ []) (codes "\n")
        ∷ turn 7
        ∷ [])
      ada_channel).1
    ≡ pause ∷ resume ∷ emit_pong ∷ []
unfolding program
line_end_alone = refl

abbrev two_lines : Channel
two_lines = record ada_channel { is_processing = true; buffer = codes "{}\n\n{" }

drain_enough_example : IsDrained (drain ada 6 6 two_lines).0
drain_enough_example = drain_enough ada 6 6 two_lines refl (omega arith)

abbrev forged : Frame
forged =
    handshake_init (some (codes "127.0.0.1:4000")) (codes "eve") (codes "eve") (codes "n2")
      (codes "bad")

unauthentic-IsKept_example : IsKept bob_channel (handle_frame bob 1000 forged bob_channel)
unauthentic-IsKept_example = unauthentic-IsKept bob 1000 forged bob_channel (unfold program in refl)

-- A name that another node's key does not give
abbrev spoofed : Frame
spoofed =
    handshake_init (some (mesh_of (codes "ponmlkjihgfedcba"))) (codes "eve") (codes "eve")
      (codes "n2") []

spoofed_init_refused_example :
    IsKept bob_channel (handle_frame bob 1000 spoofed bob_channel)
    × ((handle_frame bob 1000 spoofed bob_channel).0.is_destroyed ≡ true)
spoofed_init_refused_example =
    spoofed_init_refused bob 1000 (codes "ponmlkjihgfedcba") b'e' (codes "ve")
      (codes "abcdefghijklmnop") (codes "eve") (codes "n2") [] bob_channel (unfold program in refl)
      (unfold program in refl) refl (unfold program in refl)

abbrev bob_again : Channel
bob_again = record bob_channel {
  nonce_tracker = (track 1000 (codes "n1") lan.remote_address tracker).0;
}

abbrev replayed : Frame
replayed =
    handshake_init (some (codes "127.0.0.1:4000")) (codes "ada") (codes "ada") (codes "n1")
      (codes "sig")

replayed_init_refused_example :
    IsKept bob_again (handle_frame bob 1500 replayed bob_again)
    × ((handle_frame bob 1500 replayed bob_again).0.is_destroyed ≡ true)
replayed_init_refused_example =
    replayed_init_refused bob 1000 (some (codes "127.0.0.1:4000")) (codes "ada") (codes "ada")
      (codes "n1") (codes "sig") tracker (unfold program in refl) [] tt (omega arith) 1500
      (omega arith) bob_again refl
