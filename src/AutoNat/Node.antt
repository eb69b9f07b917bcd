-- ===== src/AutoNat/Node.antt =====
-- `AutoNatService` of src/core/autoNat.js, the side that learns its own address and its role, with
-- `setRole` and `isRelay` of src/core/federation.js.
use metrice.Base.{
  ℕ, Bool, true, false, not, ◌&&◌, ◌||◌, Option, none, some, List, [], ◌∷◌, ◌++◌, Str, codes,
  str_eq, str_eq_inst, includes, has_char, starts_with, leb, ◌==◌, if◌then◌else◌, length,
}
use metrice.Base.Number.{ℤ, parse_int, decimal}
use metrice.JsMap
use metrice.PeerManager.{Env, PeerManager, host_of, port_text, pub_port, set_public_ip, all_peers}

pub data Role : Type 0 where
  relay cap_relay edge cap_edge_transit : Role

-- `this.role === role`
unfoldable pub is_role : Role → Role → Bool
is_role relay relay = true
is_role cap_relay cap_relay = true
is_role edge edge = true
is_role cap_edge_transit cap_edge_transit = true
is_role _ _ = false

-- `isRelay()`
unfoldable pub is_relay : Role → Bool
is_relay relay = true
is_relay cap_relay = true
is_relay _ = false

-- The fields of the federation that the service reads and writes. `pending_dialbacks` has the target
-- address for each nonce.
pub record Node : Type 0 where
  pub observed_address_votes : List (Str × List Str)
  pub public_ip : Option Str
  pub role : Role
  pub is_dialback_running : Bool
  pub pending_dialbacks : List (Str × Str)
  pub node_address : Str
  pub peer_manager : PeerManager

-- `!serverName || serverName === 'localhost' || serverName.startsWith('127.') || serverName === '0.0.0.0'`
unfoldable pub is_loopback_or_local : Str → Bool
is_loopback_or_local name =
    (length name == 0)
    || (str_eq name (codes "localhost")
        || (starts_with name (codes "127.") || str_eq name (codes "0.0.0.0")))

-- The address that a relay without a name of its own goes by
unfoldable pub adopt_address : Env → Option Str → Node → Node
adopt_address env none n = n
adopt_address env (some ip) n =
    if is_relay n.role && is_loopback_or_local env.server_name
    then record n { node_address = ip ++ (codes ":" ++ decimal (pub_port env)) }
    else n

-- `setRole(newRole)`
unfoldable pub set_role : Env → Role → Node → Node
set_role env new_role n =
    if is_role n.role new_role
    then n
    else adopt_address env n.public_ip (record n { role = new_role })

-- `fed.observedAddressVotes.get(ip)`, made if it is missing
unfoldable pub votes_for : Option (List Str) → List Str
votes_for none = []
votes_for (some peers) = peers

-- `set.add(peer)`
unfoldable pub add_vote : Str → List Str → List Str
add_vote peer peers = if includes peers peer then peers else peers ++ peer ∷ []

-- `sendPacket(host, port, { type: 'DIALBACK_REQUEST', targetIp, nonce, … })`
pub record Sent : Type 0 where
  pub host : Str
  pub port : ℤ
  pub target_ip : Str
  pub nonce : Str

-- The test ends without a result.
unfoldable pub give_up : Env → Node → Node
give_up env n = set_role env edge (record n { is_dialback_running = false })

-- The part of `initiateDialback` behind the choice of the peer
unfoldable pub send_request : Env → Str → Str → Str → Option ℤ → Node → Node × Option Sent
send_request env nonce target_ip host none n = (give_up env n, none)
send_request env nonce target_ip host (some port) n =
    if length host == 0 then (give_up env n, none) else (
      record n { pending_dialbacks = JsMap.set nonce target_ip n.pending_dialbacks },
      some (record { host = host; port = port; target_ip = target_ip; nonce = nonce }),
    )

unfoldable pub ask_first : Env → Str → Str → List Str → Node → Node × Option Sent
ask_first env nonce target_ip [] n = (give_up env n, none)
ask_first env nonce target_ip (peer ∷ peers) n =
    send_request env nonce target_ip (host_of peer) (parse_int (port_text peer)) n

-- `initiateDialback(targetIp)`, with the random nonce
unfoldable pub initiate_dialback : Env → Str → Str → Node → Node × Option Sent
initiate_dialback env nonce target_ip n =
    if n.is_dialback_running
    then (n, none)
    else ask_first env nonce target_ip (all_peers n.peer_manager.peers)
        (record n { is_dialback_running = true })

-- The timer of the test
unfoldable pub dialback_timeout : Env → Str → Node → Node
dialback_timeout env nonce n =
    if JsMap.has nonce n.pending_dialbacks
    then give_up env (record n { pending_dialbacks = JsMap.delete nonce n.pending_dialbacks })
    else n

-- The request could not be sent.
unfoldable pub dialback_failed : Env → Str → Node → Node
dialback_failed env nonce n =
    give_up env (record n { pending_dialbacks = JsMap.delete nonce n.pending_dialbacks })

-- `handleDialbackConfirm(payload)`
unfoldable pub handle_dialback_confirm : Env → Str → Node → Node
handle_dialback_confirm env nonce n =
    if JsMap.has nonce n.pending_dialbacks
    then set_role env relay (record n {
      pending_dialbacks = JsMap.delete nonce n.pending_dialbacks;
      is_dialback_running = false;
    })
    else n

-- `votes >= 2 && fed.publicIp !== ip`
unfoldable pub is_consensus : ℕ → Option Str → Str → Bool
is_consensus votes none ip = leb 2 votes
is_consensus votes (some old) ip = leb 2 votes && not (str_eq old ip)

-- The address is taken over.
unfoldable pub take_address : Env → Str → Node → Node
take_address env ip n =
    adopt_address env (some ip)
      (record n { public_ip = some ip; peer_manager = set_public_ip env ip n.peer_manager })

-- `handleObservedAddress(observedAddress, peer)`; `is_edge_only` is the configured role EDGE.
unfoldable pub observe : Env → Bool → Str → Str → Str → Node → Node × Option Sent
observe env is_edge_only nonce ip peer n =
    let peers = add_vote peer (votes_for (JsMap.get ip n.observed_address_votes)) in
    let voted = record n { observed_address_votes = JsMap.set ip peers n.observed_address_votes } in
    if is_consensus (length peers) n.public_ip ip
    then (if is_edge_only
        then (set_role env edge (take_address env ip voted), none)
        else initiate_dialback env nonce ip (take_address env ip voted))
    else (voted, none)

unfoldable pub handle_observed_address : Env → Bool → Str → Str → Str → Node → Node × Option Sent
handle_observed_address env is_edge_only nonce observed peer n =
    if not (has_char b':' observed) || (length (host_of observed) == 0)
    then (n, none)
    else observe env is_edge_only nonce (host_of observed) peer n
