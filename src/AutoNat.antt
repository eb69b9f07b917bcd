-- ===== src/AutoNat.antt =====
-- `AutoNatService` of src/core/autoNat.js, the side that dials back: `handleDialbackRequest`.
pub mod Node
pub mod Votes
pub mod Roles
pub mod Slots
pub mod RateLimit
mod Tests
use metrice.Base.{
  ℕ, zero, suc, ◌+◌, ◌-◌, Bool, true, false, not, ◌&&◌, ◌||◌, Option, none, some, List, [], ◌∷◌,
  ◌++◌, Str, codes, str_eq, str_eq_inst, includes, starts_with, strip_prefix, ltb, leb, ◌==◌,
  if◌then◌else◌, length, drop,
}
use metrice.Base.Number.{port_of}
use metrice.JsMap
use metrice.TtlMap.{drop_expired}

-- The fields of the service, and a slot for each socket that was opened, with its `released`.
pub record Service : Type 0 where
  pub dialback_rate_limit : List (Str × ℕ)
  pub active_dialbacks : ℕ
  pub max_concurrent_dialbacks : ℕ
  pub slots : List Bool

-- The constructor
abbrev pub new_service : Service
new_service = record {
  dialback_rate_limit = [];
  active_dialbacks = 0;
  max_concurrent_dialbacks = 5;
  slots = [];
}

-- `net.createConnection({ host, port })`, with the nonce that the confirmation carries
pub record Dial : Type 0 where
  pub host : Str
  pub port : ℕ
  pub nonce : Str

-- The message, the remote address of its socket, and the time.
pub record Request : Type 0 where
  pub target_port : Str
  pub nonce : Str
  pub remote_address : Str
  pub now : ℕ

-- `rawRemote.replace(/^::ffff:/, '')`
unfoldable pub verified_ip : Str → Str
verified_ip raw = strip_prefix (codes "::ffff:") raw

-- `(1[6-9]|2[0-9]|3[0-1])\.` at the front
unfoldable pub is_private_octet : Str → Bool
is_private_octet (a ∷ b ∷ c ∷ s) =
    (c == b'.')
    && (((a == b'1') && (leb b'6' b && leb b b'9'))
        || (((a == b'2') && (leb b'0' b && leb b b'9'))
            || ((a == b'3') && (leb b'0' b && leb b b'1'))))
is_private_octet _ = false

-- `/^(10\.|172\.(1[6-9]|2[0-9]|3[0-1])\.|192\.168\.)/`
unfoldable pub is_private : Str → Bool
is_private ip =
    starts_with ip (codes "10.")
    || ((starts_with ip (codes "172.") && is_private_octet (drop 4 ip))
        || starts_with ip (codes "192.168."))

-- `isLoopback || isPrivate || isLinkLocalOrCloud`
unfoldable pub is_local : Str → Bool
is_local ip =
    includes (codes "127.0.0.1" ∷ codes "::1" ∷ codes "localhost" ∷ []) ip
    || (is_private ip || (starts_with ip (codes "169.254.") || starts_with ip (codes "fe80:")))

-- `this.dialbackRateLimit.get(verifiedIp) || 0`
unfoldable pub last_dialback : Option ℕ → ℕ
last_dialback none = 0
last_dialback (some ts) = ts

unfoldable pub is_limited : ℕ → Str → Service → Bool
is_limited now ip s = ltb (now - last_dialback (JsMap.get ip s.dialback_rate_limit)) 10000

-- The entry of the address, and the sweep over 1000 entries
unfoldable pub note_dialback : ℕ → Str → Service → Service
note_dialback now ip s =
    let entries = JsMap.set ip now s.dialback_rate_limit in
    record s {
      dialback_rate_limit =
          if ltb 1000 (length entries) then drop_expired 60000 now entries else entries;
    }

-- `this.activeDialbacks++`, `released = false` and the connection
unfoldable pub open_dial : Str → ℕ → Str → Service → Service × Option Dial
open_dial ip port nonce s = (
  record s { active_dialbacks = s.active_dialbacks + 1; slots = s.slots ++ false ∷ [] },
  some (record { host = ip; port = port; nonce = nonce }),
)

-- The guards behind the port
unfoldable pub admit : Bool → Request → ℕ → Service → Service × Option Dial
admit is_testing r port s =
    let ip = verified_ip r.remote_address in
    if is_local ip && not is_testing
    then (s, none)
    else if leb s.max_concurrent_dialbacks s.active_dialbacks
    then (s, none)
    else if is_testing
    then open_dial ip port r.nonce s
    else if is_limited r.now ip s
    then (s, none)
    else open_dial ip port r.nonce (note_dialback r.now ip s)

-- `handleDialbackRequest(payload, channel)`
unfoldable pub handle_dialback_request : Bool → Request → Service → Service × Option Dial
handle_dialback_request is_testing r s =
    if (length r.target_port == 0)
      || ((length r.nonce == 0) || (length (verified_ip r.remote_address) == 0))
    then (s, none)
    else elim (port_of r.target_port) [ none ↦ (s, none) | some port ↦ admit is_testing r port s ]

-- The slot of the `i`th socket is set free, if it was not.
unfoldable pub free : ℕ → List Bool → List Bool
free i [] = []
free zero (released ∷ slots) = true ∷ slots
free (suc i) (released ∷ slots) = released ∷ free i slots

unfoldable pub is_held : ℕ → List Bool → Bool
is_held i [] = false
is_held zero (released ∷ slots) = not released
is_held (suc i) (released ∷ slots) = is_held i slots

-- `releaseSlot()` of the `i`th socket; its connection, error, close and timeout each call it.
unfoldable pub release_slot : ℕ → Service → Service
release_slot i s =
    if is_held i s.slots
    then record s { slots = free i s.slots; active_dialbacks = s.active_dialbacks - 1 }
    else s
