-- ===== src/Rendezvous/Tunnels.antt =====
-- The tunnels of a relay of src/core/rendezvousManager.js, over any requests and closed sockets.
use metrice.JsMap
use metrice.Base.{
  ℕ, ◌≤◌, true, false, ◌≡◌, sym, ap, subst, ◌∙◌, inl, inr, arith, Option, none, some, List, [], ◌∷◌,
  Str, str_eq, str_eq_inst, str_eq_iff, if-true, str_eq_refl, if-cases, some-cases, Bool-cases,
  length, All, ◌==◌,
}
use metrice.JsMap.Laws.{length-set, length-delete-le}
use metrice.Rendezvous.{Env, Connection, Bind, Tunnel, Relay, Effect, is_full}
use metrice.SecureChannel.{or_else}
use metrice.Rendezvous.Binding.{
  edge_kem_key_of, new_tunnel, accept, handle_rendezvous_bind, on_close,
}
use metrice.Rendezvous.Admission.{
  is_admissible, refused_bind, admissible_accepted, admissible_bound, behind_nonce, derives,
}

-- A request over a channel, and a socket that closes
pub data Event : Type 0 where
  bind : ℕ → Bind → Connection → Event
  close : Str → ℕ → Event

abbrev pub handle : Env → Event → Relay → Relay
handle env (bind now p conn) relay = (handle_rendezvous_bind env now p conn relay).0
handle env (close node_id socket) relay = (on_close node_id socket relay).0

abbrev pub run : Env → List Event → Relay → Relay
run env [] relay = relay
run env (e ∷ events) relay = run env events (handle env e relay)

-- The node id of a tunnel is derived from the key with which it was bound.
abbrev pub IsOwned : Env → Str × Tunnel → Type 0
IsOwned env (node_id, t) = derives (env.derive_node_id t.identity_key) node_id ≡ true

-- There is room for every tunnel, and each belongs to its node.
pub record IsValid (env : Env) (relay : Relay) : Type 0 where
  pub bounded : length relay.tunnels ≤ env.max_tunnels
  pub owned : All (IsOwned env) relay.tunnels

All-set :
    (env : Env) (node_id : Str) (t : Tunnel) (m : List (Str × Tunnel))
    → IsOwned env (node_id, t)
    → All (IsOwned env) m
    → All (IsOwned env) (JsMap.set node_id t m)
unfolding JsMap.set
All-set env node_id t [] h hs = (h, tt)
All-set env node_id t ((other, w) ∷ m) h (k, ks) =
    if-cases (All (IsOwned env)) (str_eq other node_id)
      (λ same. (subst (λ j. IsOwned env (j, t)) (sym ((str_eq_iff other node_id).0 same)) h, ks))
      (λ _. (k, All-set env node_id t m h ks))

All-delete :
    (env : Env) (node_id : Str) (m : List (Str × Tunnel))
    → All (IsOwned env) m
    → All (IsOwned env) (JsMap.delete node_id m)
unfolding JsMap.delete
All-delete env node_id [] hs = tt
All-delete env node_id ((other, w) ∷ m) (k, ks) =
    if-cases (All (IsOwned env)) (str_eq other node_id) (λ _. ks)
      (λ _. (k, All-delete env node_id m ks))

accept-IsValid :
    (env : Env) (now : ℕ) (p : Bind) (conn : Connection) (relay : Relay)
    → is_admissible env now p conn relay ≡ true
    → IsValid env relay
    → IsValid env (accept env now p conn (behind_nonce now p conn relay)).0
unfolding accept is_full new_tunnel
accept-IsValid env now p conn relay h v =
    let own : derives (env.derive_node_id p.identity_key) p.node_id ≡ true = ground arith in
    let room : is_full env p relay ≡ false = ground arith in
    record {
      bounded =
          let size =
            length-set p.node_id (new_tunnel env now p conn (behind_nonce now p conn relay))
              relay.tunnels in
          ground (arith, size, v.bounded);
      owned =
          All-set env p.node_id (new_tunnel env now p conn (behind_nonce now p conn relay))
            relay.tunnels own v.owned;
    }

handle-IsValid :
    (env : Env) (e : Event) (relay : Relay) → IsValid env relay → IsValid env (handle env e relay)
unfolding on_close
handle-IsValid env (bind now p conn) relay v =
    elim (Bool-cases (is_admissible env now p conn relay)) [
      | inl good ↦
          subst (IsValid env)
            (sym (
              ap (λ (r : Relay × List Effect). r.0)
                (admissible_accepted env now p conn relay good)))
            (accept-IsValid env now p conn relay good v)
      | inr bad ↦
          let refused = refused_bind env now p conn relay bad in
          record {
            bounded = subst (λ m. length m ≤ env.max_tunnels) (sym refused.same_tunnels) v.bounded;
            owned = subst (All (IsOwned env)) (sym refused.same_tunnels) v.owned;
          }
    ]
handle-IsValid env (close node_id socket) relay v =
    some-cases (λ (r : Relay × List Effect). IsValid env r.0) (JsMap.get node_id relay.tunnels)
      (λ _. v)
      (λ t _.
        if-cases (λ (r : Relay × List Effect). IsValid env r.0) (t.socket == socket)
          (λ _. record {
            bounded = omega (arith, length-delete-le node_id relay.tunnels, v.bounded);
            owned = All-delete env node_id relay.tunnels v.owned;
          })
          (λ _. v))

-- Whatever requests come and sockets close, a relay that starts without tunnels never has more than its limit, and the
-- node id of every tunnel is the one derived from the key with which it was bound.
pub run-IsValid :
    (env : Env) (events : List Event) (relay : Relay)
    → IsValid env relay
    → IsValid env (run env events relay)
run-IsValid env [] relay v = v
run-IsValid env (e ∷ events) relay v =
    run-IsValid env events (handle env e relay) (handle-IsValid env e relay v)

abbrev socket_of : Option Tunnel → ℕ
socket_of none = 0
socket_of (some t) = t.socket

-- A node that is admitted again over a new socket keeps its tunnel when an older socket closes.
pub rebound_kept :
    (env : Env) (now : ℕ) (p : Bind) (conn : Connection) (relay : Relay) (old : ℕ)
    → is_admissible env now p conn relay ≡ true
    → (conn.socket == old) ≡ false
    → JsMap.get p.node_id (run env (bind now p conn ∷ close p.node_id old ∷ []) relay).tunnels
      ≡ some (new_tunnel env now p conn relay)
unfolding on_close new_tunnel edge_kem_key_of or_else
rebound_kept env now p conn relay old h other =
    let r = (handle_rendezvous_bind env now p conn relay).0 in
    let bound : JsMap.get p.node_id r.tunnels ≡ some (new_tunnel env now p conn relay) =
      (admissible_bound env now p conn relay p.node_id h).0 ∙ if-true _ (str_eq_refl p.node_id) in
    some-cases
      (λ (o : Relay × List Effect).
        JsMap.get p.node_id o.0.tunnels ≡ some (new_tunnel env now p conn relay))
      (JsMap.get p.node_id r.tunnels) (λ _. bound)
      (λ t e.
        if-cases
          (λ (o : Relay × List Effect).
            JsMap.get p.node_id o.0.tunnels ≡ some (new_tunnel env now p conn relay))
          (t.socket == old)
          (λ same.
            let joined = sym e ∙ bound in
            let socket_eq : t.socket ≡ conn.socket = ap socket_of joined in
            let clash = sym (ap (λ s. s == old) socket_eq) ∙ same in cc (clash, other))
          (λ _. bound))
