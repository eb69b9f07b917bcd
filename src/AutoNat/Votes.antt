-- ===== src/AutoNat/Votes.antt =====
-- One peer alone cannot make a node of src/core/autoNat.js believe in an address.
use metrice.Base.{
  ℕ, ◌≤◌, Bool, true, false, not, ◌||◌, Option, none, some, List, [], ◌∷◌, ◌≡◌, refl, ◌∙◌, arith,
  inl, inr, Str, str_eq, str_eq_iff, str_eq_inst, includes, has_char, ◌==◌, length, All, Bool-cases,
}
use metrice.JsMap
use metrice.JsMap.Laws.{All-set}
use metrice.PeerManager.{Env, host_of}
use metrice.AutoNat.Node.{
  Node, Sent, votes_for, add_vote, is_consensus, observe, handle_observed_address,
}

-- The voters for an address are nobody, or `peer` alone.
abbrev Only : Str → List Str → Type 0
Only peer [] = Unit
Only peer (voter ∷ []) = voter ≡ peer
Only peer (voter ∷ next ∷ voters) = ⊥

abbrev AllOnly : Str → Node → Type 0
AllOnly peer n = All (λ e. Only peer e.1) n.observed_address_votes

get-Only :
    (peer ip : Str) (votes : List (Str × List Str))
    → All (λ e. Only peer e.1) votes
    → Only peer (votes_for (JsMap.get ip votes))
unfolding JsMap.get votes_for
get-Only peer ip [] h = tt
get-Only peer ip ((key, voters) ∷ votes) (only, h) = elim (Bool-cases (str_eq key ip)) [
  | inl same ↦ rw same only
  | inr other ↦ rw other (get-Only peer ip votes h)
]

add_vote-Only :
    (peer : Str) (voters : List Str) → Only peer voters → Only peer (add_vote peer voters)
unfolding add_vote includes
add_vote-Only peer [] only = refl
add_vote-Only peer (voter ∷ []) only =
    let same : str_eq voter peer ≡ true = (str_eq_iff voter peer).1 only in rw same only
add_vote-Only peer (voter ∷ next ∷ voters) only = absurd only

Only-length : (peer : Str) (voters : List Str) → Only peer voters → length voters ≤ 1
Only-length peer [] only = omega arith
Only-length peer (voter ∷ []) only = omega arith
Only-length peer (voter ∷ next ∷ voters) only = absurd only

no_consensus :
    (votes : ℕ) (old : Option Str) (ip : Str) → votes ≤ 1 → is_consensus votes old ip ≡ false
unfolding is_consensus
no_consensus votes none ip few = ground arith
no_consensus votes (some old) ip few = ground arith

-- What one peer said changes nothing but the votes, and asks for no test.
record Unmoved (peer : Str) (before : Node) (after : Node × Option Sent) : Type 0 where
  votes : AllOnly peer after.0
  public_ip : after.0.public_ip ≡ before.public_ip
  role : after.0.role ≡ before.role
  address : after.0.node_address ≡ before.node_address
  silent : after.1 ≡ none

observe-Unmoved :
    (env : Env) (is_edge_only : Bool) (nonce ip peer : Str) (n : Node)
    → AllOnly peer n
    → Unmoved peer n (observe env is_edge_only nonce ip peer n)
unfolding observe
observe-Unmoved env is_edge_only nonce ip peer n h =
    let only = add_vote-Only peer _ (get-Only peer ip n.observed_address_votes h) in
    let few = no_consensus _ n.public_ip ip (Only-length peer _ only) in
    rw few (record {
      votes = All-set (λ e. Only peer e.1) ip _ n.observed_address_votes only h;
      public_ip = refl;
      role = refl;
      address = refl;
      silent = refl;
    })

handle-Unmoved :
    (env : Env) (is_edge_only : Bool) (nonce observed peer : Str) (n : Node)
    → AllOnly peer n
    → Unmoved peer n (handle_observed_address env is_edge_only nonce observed peer n)
unfolding handle_observed_address
handle-Unmoved env is_edge_only nonce observed peer n h =
    elim (Bool-cases (not (has_char b':' observed) || (length (host_of observed) == 0))) [
      | inl bad ↦
          rw bad
            (record { votes = h; public_ip = refl; role = refl; address = refl; silent = refl })
      | inr good ↦ rw good (observe-Unmoved env is_edge_only nonce (host_of observed) peer n h)
    ]

-- The reports of one peer, one after the other, each with the nonce that it would be given
abbrev pub hear : Env → Bool → Str → List (Str × Str) → Node → Node
hear env is_edge_only peer [] n = n
hear env is_edge_only peer ((observed, nonce) ∷ reports) n =
    hear env is_edge_only peer reports
      (handle_observed_address env is_edge_only nonce observed peer n).0

hear_from :
    (env : Env) (is_edge_only : Bool) (peer : Str) (reports : List (Str × Str)) (n : Node)
    → AllOnly peer n
    → ((hear env is_edge_only peer reports n).public_ip ≡ n.public_ip)
      × ((hear env is_edge_only peer reports n).role ≡ n.role)
      × ((hear env is_edge_only peer reports n).node_address ≡ n.node_address)
hear_from env is_edge_only peer [] n h = (refl, refl, refl)
hear_from env is_edge_only peer ((observed, nonce) ∷ reports) n h =
    let u = handle-Unmoved env is_edge_only nonce observed peer n h in
    let (ip, role, address) = hear_from env is_edge_only peer reports _ u.votes in
    (ip ∙ u.public_ip, role ∙ u.role, address ∙ u.address)

-- However many addresses a single peer reports, and however often, a node without votes keeps its public
-- address, its role and its node address.
pub one_peer :
    (env : Env) (is_edge_only : Bool) (peer : Str) (reports : List (Str × Str)) (n : Node)
    → n.observed_address_votes ≡ []
    → ((hear env is_edge_only peer reports n).public_ip ≡ n.public_ip)
      × ((hear env is_edge_only peer reports n).role ≡ n.role)
      × ((hear env is_edge_only peer reports n).node_address ≡ n.node_address)
one_peer env is_edge_only peer reports n fresh =
    hear_from env is_edge_only peer reports n (rw fresh tt)
