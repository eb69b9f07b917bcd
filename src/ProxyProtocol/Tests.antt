-- ===== src/ProxyProtocol/Tests.antt =====
-- Tests and instances for src/utils/proxyProtocol.js.
use metrice.ProxyProtocol.Socket.Once.{callback_once}
use metrice.Base.{
  includes, ℕ, true, false, ◌||◌, some, List, [], ◌∷◌, ◌++◌, ◌≡◌, refl, arith, Str, codes,
  strip_prefix, str_eq, split, join, if◌then◌else◌, length, ◌≤◌, ◌⊎◌, none,
}
use metrice.Base.Number.{pos, parse_int}
use metrice.ProxyProtocol.Address.{dotted, format_ipv6, byte_at, read_u16}
use metrice.ProxyProtocol.Headers.{hands_on, untrusted_outcome}
use metrice.ProxyProtocol.RoundTrip.{V2Header, v1_header, parse_buffer-v1_header}
use metrice.ProxyProtocol.Socket.{Peer, fresh, chunk, timeout, close, run}
use metrice.ProxyProtocol.{
  accepted, need_more, rejected, passthrough, untrusted_proxy_header_spoof, v1_prefix, v2_magic,
  has_signature, is_partial, index_of_crlf, token_is, v1_address, v1_line, v1_tokens, parse_v1,
  v2_command, parse_v2, clean_ip, parse_buffer,
}

program : Unit {0}
unfolding has_signature is_partial includes index_of_crlf token_is v1_address v1_line v1_tokens
    parse_v1 v2_command parse_v2 clean_ip parse_buffer dotted format_ipv6 byte_at read_u16
    strip_prefix str_eq split join parse_int
program = tt

abbrev local : Str
local = codes "127.0.0.1"

abbrev trusted : List Str
trusted = local ∷ []

abbrev line : List ℕ
line = codes "PROXY TCP4 10.0.0.1 10.0.0.2 5 6" ++ 13 ∷ 10 ∷ codes "hi"

line_accepted : parse_buffer line local trusted ≡ accepted (codes "10.0.0.1") (pos 5) (codes "hi")
unfolding program
line_accepted = refl

mapped_ip :
    parse_buffer line (codes "::ffff:127.0.0.1") trusted
    ≡ accepted (codes "10.0.0.1") (pos 5) (codes "hi")
unfolding program
mapped_ip = refl

abbrev header : V2Header
header = record {
  src0 = 192;
  src1 = 168;
  src2 = 0;
  src3 = 7;
  dst0 = 10;
  dst1 = 0;
  dst2 = 0;
  dst3 = 1;
  src_port = 4660;
  dst_port = 22;
  tlv = 1 ∷ 2 ∷ 3 ∷ [];
}

untrusted : includes trusted (clean_ip (codes "8.8.8.8")) ≡ false
unfolding program
untrusted = refl

trust : includes trusted (clean_ip local) ≡ true
unfolding program
trust = refl

untrusted_outcome_example : parse_buffer line (codes "8.8.8.8") trusted ≡ (
    if has_signature v1_prefix line || has_signature v2_magic line
    then rejected untrusted_proxy_header_spoof
    else if is_partial v1_prefix line || is_partial v2_magic line
    then need_more
    else passthrough line)
untrusted_outcome_example = untrusted_outcome line (codes "8.8.8.8") trusted untrusted

hands_on-line : hands_on (parse_buffer line local trusted) ≡ some (codes "hi")
unfolding program
hands_on-line = refl

five : parse_int (codes "5") ≡ some (pos 5)
unfolding parse_int
five = refl

parse_buffer-v1_header_example :
    parse_buffer
      (v1_header false (codes "10.0.0.1") (codes "10.0.0.2") (codes "5") (codes "6")
        ++ 13 ∷ 10 ∷ codes "hi")
      local
      trusted
    ≡ accepted (codes "10.0.0.1") (pos 5) (codes "hi")
parse_buffer-v1_header_example =
    parse_buffer-v1_header false b'1' (codes "0.0.0.1") (codes "10.0.0.2") (codes "5") (codes "6")
      (codes "hi") (pos 5) local trusted trust (omega arith) five

abbrev peer : Peer
peer = record { remote_address = local; remote_port = 99; trusted_ips = trusted }

abbrev pieces : List (List ℕ)
pieces =
    codes "PROX" ∷ (codes "Y TCP4 1.2.3.4 5.6.7.8 9 10" ++ 13 ∷ 10 ∷ codes "a") ∷ codes "bc" ∷ []

callback_once_example :
    (length (run peer (chunk line ∷ timeout ∷ close ∷ []) fresh).calls ≤ 1)
    × (((run peer (chunk line ∷ timeout ∷ close ∷ []) fresh).destroyed ≡ false)
        ⊎ (((run peer (chunk line ∷ timeout ∷ close ∷ []) fresh).real_remote_address ≡ none)
            × ((run peer (chunk line ∷ timeout ∷ close ∷ []) fresh).unshifted ≡ [])))
callback_once_example = callback_once peer (chunk line ∷ timeout ∷ close ∷ [])
