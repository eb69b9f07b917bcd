-- ===== src/ProxyProtocol.antt =====
-- `ProxyProtocolParser` of src/utils/proxyProtocol.js: the PROXY headers, versions 1 and 2.
pub mod Address
pub mod Stability
pub mod Headers
pub mod RoundTrip
pub mod Socket
mod Tests
use metrice.Base.{
  includes, ℕ, suc, ◌+◌, ◌*◌, ◌/◌, ◌%◌, Bool, true, false, ◌&&◌, ◌||◌, not, Option, none, some,
  List, [], ◌∷◌, map, Str, codes, str_eq, strip_prefix, split, ltb, leb, ◌==◌, if◌then◌else◌,
  length, get_or, take, drop,
}
use metrice.Base.Number.{ℤ, pos, parse_int}
use metrice.ProxyProtocol.Address.{dotted, format_ipv6, byte_at, read_u16}

pub data Reason : Type 0 where
  untrusted_proxy_header_spoof : Reason
  v1_header_exceeds_max_length v1_invalid_address_or_port v1_unsupported_protocol_token : Reason
  v2_unsupported_version v2_ipv4_address_block_short v2_ipv6_address_block_short : Reason
  v2_invalid_command : Reason

-- `accepted` is the status OK, with the client's address, its port and the bytes behind the header.
pub data Outcome : Type 0 where
  accepted : Str → ℤ → List ℕ → Outcome
  need_more : Outcome
  rejected : Reason → Outcome
  passthrough : List ℕ → Outcome

abbrev pub v1_prefix : List ℕ
v1_prefix = codes "PROXY "

abbrev pub v2_magic : List ℕ
v2_magic = 0x0D ∷ 0x0A ∷ 0x0D ∷ 0x0A ∷ 0x00 ∷ 0x0D ∷ 0x0A ∷ 0x51 ∷ 0x55 ∷ 0x49 ∷ 0x54 ∷ 0x0A ∷ []

-- `buf.length >= n && buf.subarray(0, n).equals(signature)`
unfoldable pub has_signature : List ℕ → List ℕ → Bool
has_signature signature buf =
    leb (length signature) (length buf) && str_eq (take (length signature) buf) signature

-- `buf.length < n && signature.subarray(0, buf.length).equals(buf)`
unfoldable pub is_partial : List ℕ → List ℕ → Bool
is_partial signature buf =
    ltb (length buf) (length signature) && str_eq (take (length buf) signature) buf

-- `buf.indexOf('\r\n')`, with `none` for -1
unfoldable pub index_of_crlf : List ℕ → Option ℕ
index_of_crlf [] = none
index_of_crlf (c ∷ []) = none
index_of_crlf (c ∷ d ∷ s) =
    if (c == 13) && (d == 10)
    then some 0
    else elim (index_of_crlf (d ∷ s)) [ none ↦ none | some i ↦ some (suc i) ]

-- `tokens[i] === text`
unfoldable pub token_is : List Str → ℕ → Str → Bool
token_is tokens i text = str_eq (get_or tokens i []) text

-- `!srcIp || isNaN(srcPort)`
unfoldable pub v1_address : Str → Option ℤ → List ℕ → Outcome
v1_address [] port remainder = rejected v1_invalid_address_or_port
v1_address (c ∷ ip) none remainder = rejected v1_invalid_address_or_port
v1_address (c ∷ ip) (some port) remainder = accepted (c ∷ ip) port remainder

-- The text of a version 1 header, split at the spaces. A missing token reads as the empty text,
-- which no test takes for a protocol.
unfoldable pub v1_line : List Str → Str → List ℕ → Outcome
v1_line tokens clean_remote remainder =
    if token_is tokens 1 (codes "UNKNOWN")
    then accepted clean_remote (pos 0) remainder
    else if (token_is tokens 1 (codes "TCP4") || token_is tokens 1 (codes "TCP6"))
        && leb 6 (length tokens)
    then v1_address (get_or tokens 2 []) (parse_int (get_or tokens 4 [])) remainder
    else rejected v1_unsupported_protocol_token

-- `buf.subarray(0, i).toString('ascii').split(' ')`: the decoder drops the high bit.
unfoldable pub v1_tokens : List ℕ → List Str
v1_tokens line = split b' ' (map (λ c. c % 128) line)

unfoldable pub parse_v1 : List ℕ → Str → Outcome
parse_v1 buf clean_remote = elim (index_of_crlf buf) [
  | none ↦ if ltb 107 (length buf) then rejected v1_header_exceeds_max_length else need_more
  | some i ↦ v1_line (v1_tokens (take i buf)) clean_remote (drop (i + 2) buf)
]

-- The command and the address family of a version 2 header that is complete.
unfoldable pub v2_command : ℕ → ℕ → ℕ → List ℕ → Str → List ℕ → Outcome
v2_command cmd fam len buf clean_remote remainder =
    if cmd == 0
    then accepted clean_remote (pos 0) remainder
    else if cmd == 1
    then (if fam == 1
        then (if ltb len 12
            then rejected v2_ipv4_address_block_short
            else accepted
                (dotted (byte_at buf 16) (byte_at buf 17) (byte_at buf 18) (byte_at buf 19))
                (pos (read_u16 buf 24)) remainder)
        else if fam == 2
        then (if ltb len 36
            then rejected v2_ipv6_address_block_short
            else accepted (format_ipv6 buf 16) (pos (read_u16 buf 48)) remainder)
        else accepted clean_remote (pos 0) remainder)
    else rejected v2_invalid_command

unfoldable pub parse_v2 : List ℕ → Str → Outcome
parse_v2 buf clean_remote =
    let ver_cmd = byte_at buf 12 in
    let fam_proto = byte_at buf 13 in
    let len = read_u16 buf 14 in
    if ltb (length buf) 16
    then need_more
    else if not (ver_cmd / 16 % 16 == 2)
    then rejected v2_unsupported_version
    else if ltb (length buf) (16 + len)
    then need_more
    else v2_command (ver_cmd % 16) (fam_proto / 16 % 16) len buf clean_remote (drop (16 + len) buf)

-- `remoteIp.replace(/^::ffff:/, '')`
unfoldable pub clean_ip : Str → Str
clean_ip ip = strip_prefix (codes "::ffff:") ip

-- `parseBuffer(buf, remoteIp, trustedIps)`
unfoldable pub parse_buffer : List ℕ → Str → List Str → Outcome
parse_buffer buf remote_ip trusted_ips =
    let clean_remote = clean_ip remote_ip in
    let is_trusted = includes trusted_ips clean_remote in
    let is_v1_possible = has_signature v1_prefix buf in
    let is_v2_possible = has_signature v2_magic buf in
    if is_partial v1_prefix buf
    then need_more
    else if is_partial v2_magic buf
    then need_more
    else if (is_v1_possible || is_v2_possible) && not is_trusted
    then rejected untrusted_proxy_header_spoof
    else if is_v1_possible
    then parse_v1 buf clean_remote
    else if is_v2_possible
    then parse_v2 buf clean_remote
    else passthrough buf

-- What `parse` returns: the outcome, `success` and the version.
pub record Parsed : Type 0 where
  pub outcome : Outcome
  pub success : Bool
  pub version : Option ℕ

unfoldable pub is_accepted : Outcome → Bool
is_accepted (accepted a p r) = true
is_accepted _ = false

-- `parse(buf, remoteIp, trustedIps)`
unfoldable pub parse : List ℕ → Str → List Str → Parsed
parse buf remote_ip trusted_ips =
    let res = parse_buffer buf remote_ip trusted_ips in
    record {
      outcome = res;
      success = is_accepted res;
      version =
          if has_signature v2_magic buf
          then some 2
          else if has_signature v1_prefix buf
          then some 1
          else none;
    }
