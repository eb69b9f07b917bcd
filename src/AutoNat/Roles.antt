-- ===== src/AutoNat/Roles.antt =====
-- How a node of src/core/autoNat.js comes to its role.
use metrice.Base.{
  Bool, true, false, not, ◌||◌, Option, none, some, List, [], ◌∷◌, ◌≡◌, refl, ◌∙◌, ap, subst, arith,
  inl, inr, Str, str_eq_iff, str_eq_inst, length, Bool-cases, ◌⊎◌, has_char, ◌==◌,
}
use metrice.Base.Number.{ℤ, parse_int}
use metrice.JsMap
use metrice.JsMap.Laws.{has-set}
use metrice.PeerManager.{Env, set_public_ip, host_of, port_text, all_peers}
use metrice.AutoNat.Node.{
  Role, relay, edge, is_role, is_relay, Node, Sent, votes_for, add_vote, adopt_address, set_role,
  give_up, send_request, ask_first, initiate_dialback, dialback_timeout, dialback_failed,
  handle_dialback_confirm, take_address, observe, handle_observed_address, is_consensus,
}

is_role_eq : (a b : Role) → is_role a b ≡ true → a ≡ b
unfolding is_role
is_role_eq a b h = ground arith

adopt_address_role :
    (env : Env) (ip : Option Str) (n : Node) → (adopt_address env ip n).role ≡ n.role
unfolding adopt_address
adopt_address_role env none n = refl
adopt_address_role env (some ip) n = ground arith

set_role_role : (env : Env) (r : Role) (n : Node) → (set_role env r n).role ≡ r
unfolding set_role
set_role_role env r n = elim (Bool-cases (is_role n.role r)) [
  | inl same ↦ rw same (is_role_eq n.role r same)
  | inr other ↦ rw other (adopt_address_role env n.public_ip (record n { role = r }))
]

-- What the role is after a step that gives no relay: that from before, or EDGE.
abbrev Lowered : Node → Node → Type 0
Lowered n n' = (n'.role ≡ n.role) ⊎ (n'.role ≡ edge)

give_up-Lowered : (env : Env) (n : Node) → (give_up env n).role ≡ edge
unfolding give_up
give_up-Lowered env n = set_role_role env edge _

send_request-Lowered :
    (env : Env) (nonce target_ip host : Str) (port : Option ℤ) (n : Node)
    → Lowered n (send_request env nonce target_ip host port n).0
unfolding send_request
send_request-Lowered env nonce target_ip host none n = inr (give_up-Lowered env n)
send_request-Lowered env nonce target_ip host (some port) n = elim (Bool-cases (length host == 0)) [
  | inl empty ↦ rw empty (inr (give_up-Lowered env n))
  | inr good ↦ rw good (inl refl)
]

ask_first-Lowered :
    (env : Env) (nonce target_ip : Str) (peers : List Str) (n : Node)
    → Lowered n (ask_first env nonce target_ip peers n).0
unfolding ask_first
ask_first-Lowered env nonce target_ip [] n = inr (give_up-Lowered env n)
ask_first-Lowered env nonce target_ip (peer ∷ peers) n =
    send_request-Lowered env nonce target_ip (host_of peer) (parse_int (port_text peer)) n

initiate_dialback-Lowered :
    (env : Env) (nonce target_ip : Str) (n : Node)
    → Lowered n (initiate_dialback env nonce target_ip n).0
unfolding initiate_dialback
initiate_dialback-Lowered env nonce target_ip n = elim (Bool-cases n.is_dialback_running) [
  | inl running ↦ rw running (inl refl)
  | inr free ↦ rw free (
      ask_first-Lowered env nonce target_ip (all_peers n.peer_manager.peers)
        (record n { is_dialback_running = true }))
]

Lowered-trans : (a b c : Node) → b.role ≡ a.role → Lowered b c → Lowered a c
Lowered-trans a b c same (inl kept) = inl (kept ∙ same)
Lowered-trans a b c same (inr low) = inr low

take_address_role : (env : Env) (ip : Str) (n : Node) → (take_address env ip n).role ≡ n.role
unfolding take_address
take_address_role env ip n =
    adopt_address_role env (some ip)
      (record n { public_ip = some ip; peer_manager = set_public_ip env ip n.peer_manager })

observe-Lowered :
    (env : Env) (is_edge_only : Bool) (nonce ip peer : Str) (n : Node)
    → Lowered n (observe env is_edge_only nonce ip peer n).0
unfolding observe
observe-Lowered env is_edge_only nonce ip peer n =
    let peers = add_vote peer (votes_for (JsMap.get ip n.observed_address_votes)) in
    let voted = record n { observed_address_votes = JsMap.set ip peers n.observed_address_votes } in
    elim (Bool-cases (is_consensus (length peers) n.public_ip ip)) [
      | inr few ↦ rw few (inl refl)
      | inl agreed ↦ elim (Bool-cases is_edge_only) [
        | inl only ↦ rw (agreed, only) (inr (set_role_role env edge _))
        | inr both ↦
            rw (agreed, both)
              (Lowered-trans n (take_address env ip voted)
                (initiate_dialback env nonce ip (take_address env ip voted)).0
                (take_address_role env ip voted)
                (initiate_dialback-Lowered env nonce ip (take_address env ip voted)))
      ]
    ]

handle_observed_address-Lowered :
    (env : Env) (is_edge_only : Bool) (nonce observed peer : Str) (n : Node)
    → Lowered n (handle_observed_address env is_edge_only nonce observed peer n).0
unfolding handle_observed_address
handle_observed_address-Lowered env is_edge_only nonce observed peer n =
    elim (Bool-cases (not (has_char b':' observed) || (length (host_of observed) == 0))) [
      | inl bad ↦ rw bad (inl refl)
      | inr good ↦ rw good (observe-Lowered env is_edge_only nonce (host_of observed) peer n)
    ]

-- What happens to a node: a report of its address, the end of the timer, a failed request, or a
-- confirmation, which may be made up.
pub data Event : Type 0 where
  observed : Bool → Str → Str → Str → Event
  timed_out send_failed confirmed : Str → Event

abbrev pub react : Env → Event → Node → Node
react env (observed is_edge_only nonce address peer) n =
    (handle_observed_address env is_edge_only nonce address peer n).0
react env (timed_out nonce) n = dialback_timeout env nonce n
react env (send_failed nonce) n = dialback_failed env nonce n
react env (confirmed nonce) n = handle_dialback_confirm env nonce n

-- The event confirms a test that is pending.
abbrev pub Confirms : Node → Event → Type 0
Confirms n (confirmed nonce) = JsMap.has nonce n.pending_dialbacks ≡ true
Confirms n _ = ⊥

Lowered-relay : (n n' : Node) → Lowered n n' → is_relay n'.role ≡ true → is_relay n.role ≡ true
unfolding is_relay
Lowered-relay n n' (inl kept) h = rw (← kept) h
Lowered-relay n n' (inr low) h =
    let never : is_relay edge ≡ true = subst (λ r. is_relay r ≡ true) low h in cc never

not_lowered :
    {A : Type 0} (n n' : Node)
    → Lowered n n'
    → is_relay n.role ≡ false
    → is_relay n'.role ≡ true
    → A
not_lowered n n' low no_relay is_one =
    let was = Lowered-relay n n' low is_one in absurd (ground (arith, no_relay, was))

dialback_timeout-Lowered :
    (env : Env) (nonce : Str) (n : Node) → Lowered n (dialback_timeout env nonce n)
unfolding dialback_timeout
dialback_timeout-Lowered env nonce n = elim (Bool-cases (JsMap.has nonce n.pending_dialbacks)) [
  | inl pending ↦ rw pending (inr (give_up-Lowered env _))
  | inr unknown ↦ rw unknown (inl refl)
]

dialback_failed_role :
    (env : Env) (nonce : Str) (n : Node) → (dialback_failed env nonce n).role ≡ edge
unfolding dialback_failed
dialback_failed_role env nonce n = give_up-Lowered env _

-- The nonce of a request that went out is pending.
record Pends (nonce : Str) (sent : Sent) (r : Node × Option Sent) : Type 0 where
  pending : r.1 ≡ some sent → JsMap.has nonce r.0.pending_dialbacks ≡ true

send_request-Pends :
    (env : Env) (nonce target_ip host : Str) (port : Option ℤ) (n : Node) (sent : Sent)
    → Pends nonce sent (send_request env nonce target_ip host port n)
unfolding send_request
send_request-Pends env nonce target_ip host none n sent = record { pending = λ went. cc went }
send_request-Pends env nonce target_ip host (some port) n sent =
    elim (Bool-cases (length host == 0)) [
      | inl empty ↦ rw empty (record { pending = λ went. cc went })
      | inr good ↦ rw good (record {
        pending = λ went.
            ground
              (arith, has-set nonce nonce target_ip n.pending_dialbacks, str_eq_iff nonce nonce);
      })
    ]

ask_first-Pends :
    (env : Env) (nonce target_ip : Str) (peers : List Str) (n : Node) (sent : Sent)
    → Pends nonce sent (ask_first env nonce target_ip peers n)
unfolding ask_first
ask_first-Pends env nonce target_ip [] n sent = record { pending = λ went. cc went }
ask_first-Pends env nonce target_ip (peer ∷ peers) n sent =
    send_request-Pends env nonce target_ip (host_of peer) (parse_int (port_text peer)) n sent

initiate_dialback-Pends :
    (env : Env) (nonce target_ip : Str) (n : Node) (sent : Sent)
    → Pends nonce sent (initiate_dialback env nonce target_ip n)
unfolding initiate_dialback
initiate_dialback-Pends env nonce target_ip n sent = elim (Bool-cases n.is_dialback_running) [
  | inl running ↦ rw running (record { pending = λ went. cc went })
  | inr free ↦ rw free (
      ask_first-Pends env nonce target_ip (all_peers n.peer_manager.peers)
        (record n { is_dialback_running = true }) sent)
]

-- A node that is no relay becomes one only by the confirmation of a test that it has started and that
-- is still pending; a made-up confirmation, a report or a failure never makes it one.
pub relay_confirmed :
    (env : Env) (event : Event) (n : Node)
    → is_relay n.role ≡ false
    → is_relay (react env event n).role ≡ true
    → Confirms n event
relay_confirmed env (observed is_edge_only nonce address peer) n no_relay is_one =
    not_lowered n (react env (observed is_edge_only nonce address peer) n)
      (handle_observed_address-Lowered env is_edge_only nonce address peer n) no_relay is_one
relay_confirmed env (timed_out nonce) n no_relay is_one =
    not_lowered n (dialback_timeout env nonce n) (dialback_timeout-Lowered env nonce n) no_relay
      is_one
relay_confirmed env (send_failed nonce) n no_relay is_one =
    not_lowered n (dialback_failed env nonce n) (inr (dialback_failed_role env nonce n)) no_relay
      is_one
relay_confirmed env (confirmed nonce) n no_relay is_one =
    elim (Bool-cases (JsMap.has nonce n.pending_dialbacks)) [
      | inl pending ↦ pending
      | inr unknown ↦
          let same : handle_dialback_confirm env nonce n ≡ n =
            unfold handle_dialback_confirm in rw unknown refl in
          not_lowered n (handle_dialback_confirm env nonce n) (inl (ap (λ m. m.role) same)) no_relay
            is_one
    ]

-- A test that a node started and whose request went out ends by its confirmation with the node a relay,
-- or by its timer with the node an edge.
pub dialback_outcome :
    (env : Env) (nonce target_ip : Str) (n : Node) (sent : Sent)
    → (initiate_dialback env nonce target_ip n).1 ≡ some sent
    → ((handle_dialback_confirm env nonce (initiate_dialback env nonce target_ip n).0).role ≡ relay)
      × ((dialback_timeout env nonce (initiate_dialback env nonce target_ip n).0).role ≡ edge)
dialback_outcome env nonce target_ip n sent went =
    let pending = (initiate_dialback-Pends env nonce target_ip n sent).pending went in
    (
      unfold handle_dialback_confirm in rw pending (set_role_role env relay _),
      unfold dialback_timeout in rw pending (give_up-Lowered env _),
    )
