-- ===== src/SecureChannel/Peer.antt =====
-- `validatePeerIp` of src/core/secureChannel.js.
use metrice.Base.{
  Bool, true, false, not, ◌&&◌, ◌||◌, Option, none, some, List, [], ◌∷◌, Str, codes, str_eq,
  starts_with, ends_with, strip_prefix, to_lower, leb, ◌==◌, if◌then◌else◌, length, take, ◌-◌,
}
use metrice.AddressHelper.{Local, Target, mesh, endpoint, is_valid_node_id, parse_target}
use metrice.AddressHelper.Ipv6.{canonicalize_ipv6}
use metrice.SecureChannel.{Crypto, Network, or_else}

-- `parsed.isMesh ? parsed.nodeId : parsed.host`
unfoldable pub declared_of : Target → Str
declared_of (mesh node_id) = node_id
declared_of (endpoint host port is_ipv6 warning) = host

unfoldable pub normal_ip : Network → Str → Str
normal_ip net ip = if net.is_ipv6 ip then canonicalize_ipv6 ip else ip

-- `rawRemote`
unfoldable pub raw_remote : Network → Str
raw_remote net = or_else net.real_remote_address net.remote_address

unfoldable pub clean_remote : Network → Str
clean_remote net = normal_ip net (strip_prefix (codes "::ffff:") (raw_remote net))

-- `declaredHost.replace(/\.mesh$/, '').toLowerCase()`
unfoldable pub clean_declared : Str → Str
clean_declared host =
    to_lower (if ends_with host (codes ".mesh") then take (length host - 5) host else host)

unfoldable pub names_node : Str → Bool
names_node host = ends_with host (codes ".mesh") || is_valid_node_id host

unfoldable pub is_loopback : Str → Bool
is_loopback ip =
    str_eq ip (codes "127.0.0.1") || (str_eq ip (codes "::1") || str_eq ip (codes "localhost"))

-- `172\.(1[6-9]|2\d|3[01])\.` behind the `172.`
unfoldable pub is_private_172 : Str → Bool
is_private_172 (a ∷ b ∷ c ∷ s) =
    (c == b'.')
    && (((a == b'1') && (leb b'6' b && leb b b'9'))
        || (((a == b'2') && (leb b'0' b && leb b b'9'))
            || ((a == b'3') && (leb b'0' b && leb b b'1'))))
is_private_172 (a ∷ b ∷ []) = false
is_private_172 (a ∷ []) = false
is_private_172 [] = false

unfoldable pub starts_with_any : List Str → Str → Bool
starts_with_any [] s = false
starts_with_any (p ∷ ps) s = starts_with s p || starts_with_any ps s

-- `PRIVATE_RANGES.test(address)`
unfoldable pub in_private_range : Str → Bool
in_private_range address =
    let ip = to_lower address in
    starts_with_any
      (codes "127."
        ∷ codes "10."
        ∷ codes "192.168."
        ∷ codes "169.254."
        ∷ codes "::1"
        ∷ codes "fe80:"
        ∷ codes "fc00:"
        ∷ codes "fd00:"
        ∷ [])
      ip
    || (starts_with ip (codes "172.") && is_private_172 (strip_prefix (codes "172.") ip))

-- `resolved.some(…)`
unfoldable pub some_public_match : Network → List Str → Bool
some_public_match net [] = false
some_public_match net (address ∷ rest) =
    (not (in_private_range address) && str_eq (normal_ip net address) (clean_remote net))
    || some_public_match net rest

-- The lookup of the name, and its `catch`
unfoldable pub resolve : Network → Option Str → Str → Bool
resolve net derived host = elim (net.lookup host) [
  | some addresses ↦ some_public_match net addresses
  | none ↦ elim derived [ none ↦ false | some node_id ↦ str_eq (clean_declared host) node_id ]
]

-- What is tolerated without an identity: loopback, the own name, the address of the socket, the name's address
unfoldable pub validate_address : Local → Network → Option Str → Str → Bool
validate_address env net derived host =
    is_loopback host
    || (str_eq host env.server_name || (str_eq host (clean_remote net) || resolve net derived host))

-- The host against the identity, if there is one; `none` when the key cannot be read.
unfoldable pub validate_host : Crypto → Local → Network → Str → Str → Option Bool
validate_host crypto env net [] host =
    some (if names_node host then true else validate_address env net none host)
validate_host crypto env net (c ∷ key) host = elim (crypto.derive_node_id (c ∷ key)) [
  | none ↦ none
  | some node_id ↦ some (
      if str_eq (clean_declared host) (to_lower node_id)
      then true
      else if names_node host
      then false
      else validate_address env net (some (to_lower node_id)) host)
]

unfoldable pub validate_declared : Crypto → Local → Network → Str → Str → Option Bool
validate_declared crypto env net key [] = some false
validate_declared crypto env net key (c ∷ host) =
    validate_host crypto env net key (normal_ip net (c ∷ host))

-- `validatePeerIp(declaredNodeAddress, identityPublicKey)`; `none` when it throws.
unfoldable pub validate_peer_ip : Crypto → Local → Network → Option Str → Str → Option Bool
validate_peer_ip crypto env net none key = some false
validate_peer_ip crypto env net (some address) key = elim (parse_target env address) [
  | none ↦ some false
  | some target ↦ validate_declared crypto env net key (declared_of target)
]
