-- ===== src/AddressHelper.antt =====
-- `AddressHelper` of src/utils/addressHelper.js: addresses of users, channels and nodes.
pub mod Ipv6
pub mod Same
pub mod Targets
pub mod Users
mod Tests
use metrice.Base.{
  ℕ, suc, Bool, true, false, not, ◌&&◌, ◌||◌, Option, none, some, List, [], ◌∷◌, ◌++◌, Str, codes,
  str_eq, starts_with, ends_with, strip_prefix, remove_first, includes, has_char, split, cut,
  cut_last, count_char, to_lower, leb, ◌==◌, if◌then◌else◌, length, drop, get_or, map,
}
use metrice.Base.Number.{decimal, is_digit, all_digits, digits_value, trim}

-- CONFIG.serverName, CONFIG.federationPort, and `AddressHelper.localNodeId`
pub record Local : Type 0 where
  pub server_name : Str
  pub federation_port : ℕ
  pub local_node_id : Option Str

-- `[a-zA-Z0-9_-]`
unfoldable pub is_name_char : ℕ → Bool
is_name_char c =
    (leb b'a' c && leb c b'z')
    || ((leb b'A' c && leb c b'Z') || (is_digit c || ((c == b'_') || (c == b'-'))))

unfoldable pub all_name_chars : Str → Bool
all_name_chars [] = true
all_name_chars (c ∷ s) = is_name_char c && all_name_chars s

-- `isValidUsername(username)`
unfoldable pub is_valid_username : Str → Bool
is_valid_username [] = false
is_valid_username (c ∷ s) = all_name_chars (c ∷ s)

-- `[a-z2-7]`
unfoldable pub is_node_char : ℕ → Bool
is_node_char c = (leb b'a' c && leb c b'z') || (leb b'2' c && leb c b'7')

unfoldable pub all_node_chars : Str → Bool
all_node_chars [] = true
all_node_chars (c ∷ s) = is_node_char c && all_node_chars s

-- `isValidNodeId(nodeId)`
unfoldable pub is_valid_node_id : Str → Bool
is_valid_node_id s = (length s == 16) && all_node_chars s

-- `s.replace(/İ/g, 'i')`
unfoldable pub plain_i : Str → Str
plain_i s = map (λ c. if c == 0x130 then b'i' else c) s

-- `isGlobalChannel(target)`
unfoldable pub is_global_channel : Str → Bool
is_global_channel [] = false
is_global_channel (c ∷ s) =
    includes (codes "#genel" ∷ codes "#general" ∷ codes "genel" ∷ codes "general" ∷ [])
      (get_or (split b':' (to_lower (plain_i (trim (c ∷ s))))) 0 [])

-- `isSystemConsole(target)`
unfoldable pub is_system_console : Str → Bool
is_system_console [] = false
is_system_console (c ∷ s) =
    includes (codes "*sistem" ∷ codes "*system" ∷ codes "sistem" ∷ codes "system" ∷ [])
      (to_lower (plain_i (trim (c ∷ s))))

-- What `parseTarget` returns: a node of the mesh, or a host and a port.
pub data Target : Type 0 where
  mesh : Str → Target
  endpoint : Str → ℕ → Bool → Bool → Target

-- `${nodeId}.mesh`
unfoldable pub mesh_of : Str → Str
mesh_of node_id = node_id ++ codes ".mesh"

-- The port behind `[host]`
unfoldable pub bracket_port : Local → Str → ℕ
bracket_port env [] = env.federation_port
bracket_port env (c ∷ rest) =
    if (c == b':') && all_digits rest then digits_value rest else env.federation_port

-- `possibleHost || CONFIG.serverName`
unfoldable pub host_or_own : Local → Str → Str
host_or_own env [] = env.server_name
host_or_own env (c ∷ host) = c ∷ host

-- The host and the port of a target without brackets, from the parts around its last colon
unfoldable pub split_port : Local → Str → Option (Str × Str) → Str × ℕ
split_port env target none = (target, env.federation_port)
split_port env target (some (host, port)) =
    if count_char b':' target == 1
    then (if all_digits port
        then (host_or_own env host, digits_value port)
        else (target, env.federation_port))
    else (if has_char b'.' host && all_digits port
        then (host, digits_value port)
        else (target, env.federation_port))

-- `bracketWarning`
unfoldable pub wants_brackets : Str → Option (Str × Str) → Bool
wants_brackets target none = false
wants_brackets target (some (host, port)) =
    (leb 2 (count_char b':' target) && not (starts_with target (codes "[")))
    && (all_digits port && not (has_char b'.' host))

-- The third part of `parseTarget`
unfoldable pub parse_plain : Local → Str → Target
parse_plain env target =
    let (host, port) = split_port env target (cut_last b':' target) in
    endpoint host port (leb 2 (count_char b':' target) || has_char b':' host)
      (wants_brackets target (cut_last b':' target))

-- The second part: `[host]` and `[host]:port`
unfoldable pub parse_bracket : Local → Str → Target
parse_bracket env [] = parse_plain env []
parse_bracket env (c ∷ target) =
    if c == b'['
    then elim (cut b']' target) [
      | none ↦ parse_plain env (c ∷ target)
      | some p ↦ endpoint p.0 (bracket_port env p.1) true false
    ]
    else parse_plain env (c ∷ target)

-- `parseTarget(target)`; only the empty text gives null.
unfoldable pub parse_target : Local → Str → Option Target
parse_target env [] = none
parse_target env (c ∷ target) = some (
    if ends_with (c ∷ target) (codes ".mesh") || is_valid_node_id (c ∷ target)
    then mesh (to_lower (remove_first (codes ".mesh") (c ∷ target)))
    else parse_bracket env (c ∷ target))

pub data Kind : Type 0 where
  user channel : Kind

unfoldable pub sigil : Kind → Str
sigil user = codes "@"
sigil channel = codes "#"

-- What `parse` returns. A field that is null or missing is `none` or false.
pub record Address : Type 0 where
  pub kind : Kind
  pub raw : Str
  pub name : Str
  pub node_id : Option Str
  pub mesh_address : Option Str
  pub host : Option Str
  pub port : Option ℕ
  pub is_global_channel : Bool
  pub is_local : Bool
  pub bracket_warning : Bool

-- `${sigil}${name}:${nodeId}.mesh`
unfoldable pub mesh_raw : Kind → Str → Str → Str
mesh_raw kind name node_id = sigil kind ++ (name ++ (codes ":" ++ mesh_of node_id))

unfoldable pub mesh_address_of : Kind → Str → Str → Bool → Address
mesh_address_of kind name node_id is_local = record {
  kind = kind;
  raw = mesh_raw kind name node_id;
  name = name;
  node_id = some node_id;
  mesh_address = some (mesh_of node_id);
  host = none;
  port = none;
  is_global_channel = false;
  is_local = is_local;
  bracket_warning = false;
}

-- `${sigil}${name}:${hostDisplay}:${port}`
unfoldable pub host_raw : Kind → Str → Str → ℕ → Str
host_raw kind name host port =
    sigil kind ++ (name ++ (codes ":" ++ (host ++ (codes ":" ++ decimal port))))

unfoldable pub host_address_of : Kind → Str → Str → Str → ℕ → Bool → Bool → Address
host_address_of kind name display host port is_local warning = record {
  kind = kind;
  raw = host_raw kind name display port;
  name = name;
  node_id = none;
  mesh_address = none;
  host = some host;
  port = some port;
  is_global_channel = false;
  is_local = is_local;
  bracket_warning = warning;
}

-- `this.localNodeId ? parsed.nodeId === this.localNodeId : false`
unfoldable pub is_local_node : Option Str → Str → Bool
is_local_node none node_id = false
is_local_node (some own) node_id = str_eq node_id own

-- `#name:target` and `@name:target`
unfoldable pub parse_with_target : Local → Kind → Str → Target → Address
parse_with_target env kind name (mesh node_id) =
    mesh_address_of kind name node_id (is_local_node env.local_node_id node_id)
parse_with_target env kind name (endpoint host port is_ipv6 warning) =
    host_address_of kind name (if is_ipv6 then codes "[" ++ (host ++ codes "]") else host) host port
      (str_eq host env.server_name && (port == env.federation_port)) warning

-- `#name` and `@name`: on the local node
unfoldable pub parse_local : Local → Option Str → Kind → Str → Address
parse_local env none kind name =
    host_address_of kind name env.server_name env.server_name env.federation_port true false
parse_local env (some node_id) kind name = mesh_address_of kind name node_id true

unfoldable pub global_address : Str → Address
global_address name = record {
  kind = channel;
  raw = codes "#" ++ name;
  name = name;
  node_id = none;
  mesh_address = none;
  host = none;
  port = none;
  is_global_channel = true;
  is_local = true;
  bracket_warning = false;
}

unfoldable pub is_channel : Kind → Bool
is_channel channel = true
is_channel user = false

-- A name, and the target if there is one that is not empty
unfoldable pub parse_parts : Local → Kind → Str → Option Target → Address
parse_parts env kind name (some target) = parse_with_target env kind name target
parse_parts env kind name none =
    if is_channel kind && is_global_channel name
    then global_address name
    else parse_local env env.local_node_id kind name

-- `parse` behind the `@` or `#`
unfoldable pub parse_body : Local → Kind → Str × Str → Option Address
parse_body env kind ([], target) = none
parse_body env kind (c ∷ name, target) =
    some (parse_parts env kind (c ∷ name) (parse_target env target))

-- The body around its first colon; without one there is no target.
unfoldable pub name_and_target : Str → Str × Str
name_and_target body = elim (cut b':' body) [ none ↦ (body, []) | some p ↦ p ]

-- A text without `@` or `#` in front is a user.
unfoldable pub parse_trimmed : Local → Str → Option Address
parse_trimmed env [] = none
parse_trimmed env (c ∷ body) =
    if c == b'#'
    then parse_body env channel (name_and_target body)
    else if c == b'@'
    then parse_body env user (name_and_target body)
    else parse_body env user (name_and_target (c ∷ body))

-- `parse(rawAddress)`
unfoldable pub parse : Local → Str → Option Address
parse env raw_address = parse_trimmed env (trim raw_address)

-- `nodeId || this.getLocalNodeId() || 'local'`
unfoldable pub node_or_local : Local → Option Str → Str
node_or_local env (some node_id) = node_id
node_or_local env none = elim env.local_node_id [ none ↦ codes "local" | some node_id ↦ node_id ]

-- `formatUser(username, nodeId)`
unfoldable pub format_user : Local → Str → Option Str → Str
format_user env username node_id = mesh_raw user username (node_or_local env node_id)

-- `formatChannel(channelName, nodeId)`; the name of the default channel comes from the texts of the locale.
unfoldable pub format_channel : Local → Str → Str → Option Str → Str
format_channel env default_name channel_name node_id =
    let clean = remove_first (codes "#") channel_name in
    if is_global_channel clean
    then default_name
    else format_on env clean (elim node_id [ none ↦ env.local_node_id | some id ↦ some id ])
  where
    format_on : Local → Str → Option Str → Str
    format_on env clean (some id) = mesh_raw channel clean id
    format_on env clean none = host_raw channel clean env.server_name env.federation_port

-- `setLocalNodeId(nodeId)`
unfoldable pub set_local_node_id : Str → Local → Local
set_local_node_id node_id env = record env { local_node_id = some (trim (to_lower node_id)) }
