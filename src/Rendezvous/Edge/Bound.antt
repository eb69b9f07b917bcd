-- ===== src/Rendezvous/Edge/Bound.antt =====
-- The relays that an edge of src/core/rendezvousManager.js is bound to.
use metrice.Base.{
  ℕ, ◌≤◌, true, false, not, ◌||◌, ◌≡◌, sym, subst, ◌∙◌, arith, Option, List, [], ◌∷◌, Str,
  str_eq_inst, includes, if-cases, some-cases, not-false, length, length-append, All, All-append,
  leb, suc,
}
use metrice.JsMap
use metrice.Rendezvous.Edge.{
  EdgeEnv, Known, Answer, Edge, EdgeEffect, is_relay_role, usable_port, is_candidate_valid,
  targets_of, change_role, check_transit_role, learn_relay, add_text, on_bound,
  bind_to_rendezvous_relay, bind_all, maintain_rendezvous_tunnels,
}

-- The relays stay as they are.
change_role-bound : (role : Str) (e : Edge) → (change_role role e).0.bound ≡ e.bound
unfolding change_role
change_role-bound role e = ground arith

pub check_transit_role-bound :
    (env : EdgeEnv) (e : Edge) → (check_transit_role env e).0.bound ≡ e.bound
unfolding check_transit_role change_role
check_transit_role-bound env e = ground arith

learn_relay-bound :
    (env : EdgeEnv) (now : ℕ) (address : Str) (a : Answer) (e : Edge)
    → (learn_relay env now address a e).0.bound ≡ e.bound
unfolding learn_relay
learn_relay-bound env now address a e = ground arith

on_bound-bound :
    (env : EdgeEnv) (now : ℕ) (address : Str) (a : Answer) (e : Edge)
    → (on_bound env now address a e).0.bound ≡ add_text address e.bound
unfolding on_bound
on_bound-bound env now address a e =
    let added = record e {
      bound = add_text address e.bound;
      relays = JsMap.set address a.socket e.relays;
    } in
    learn_relay-bound env now address a (check_transit_role env added).0
    ∙ check_transit_role-bound env added

-- At most as many relays as the setting allows, each of them a valid candidate
pub record IsBound (env : EdgeEnv) (e : Edge) : Type 0 where
  pub limited : length e.bound ≤ env.max_relays
  pub usable : All (λ a. is_candidate_valid env a ≡ true) e.bound

length-add_text :
    (address : Str) (bound : List Str) → length (add_text address bound) ≤ suc (length bound)
unfolding add_text
length-add_text address bound = ground (arith, length-append bound (address ∷ []))

add_text-IsBound :
    (env : EdgeEnv) (address : Str) (e d : Edge)
    → d.bound ≡ add_text address e.bound
    → is_candidate_valid env address ≡ true
    → leb env.max_relays (length e.bound) ≡ false
    → IsBound env e
    → IsBound env d
unfolding add_text
add_text-IsBound env address e d same valid room v = record {
  limited =
      subst (λ b. length b ≤ env.max_relays) (sym same)
        (ground (arith, length-add_text address e.bound, v.limited));
  usable = subst (All (λ a. is_candidate_valid env a ≡ true)) (sym same) (
      if-cases (All (λ a. is_candidate_valid env a ≡ true)) (includes e.bound address)
        (λ _. v.usable)
        (λ _.
          All-append (λ a. is_candidate_valid env a ≡ true) e.bound (address ∷ []) v.usable
            (valid, tt)));
}

bind-IsBound :
    (env : EdgeEnv) (answer : Str → Option Answer) (now : ℕ) (address : Str) (e : Edge)
    → is_candidate_valid env address ≡ true
    → leb env.max_relays (length e.bound) ≡ false
    → IsBound env e
    → IsBound env (bind_to_rendezvous_relay env answer now address e).0
unfolding bind_to_rendezvous_relay
bind-IsBound env answer now address e valid room v =
    some-cases (λ (r : Edge × List EdgeEffect). IsBound env r.0) (usable_port env address) (λ _. v)
      (λ port _.
        some-cases (λ (r : Edge × List EdgeEffect). IsBound env r.0) (answer address) (λ _. v)
          (λ a _.
            add_text-IsBound env address e (on_bound env now address a e).0
              (on_bound-bound env now address a e) valid room v))

bind_all-IsBound :
    (env : EdgeEnv) (answer : Str → Option Answer) (now : ℕ) (targets : List Str) (e : Edge)
    → IsBound env e
    → IsBound env (bind_all env answer now targets e).0
unfolding bind_all
bind_all-IsBound env answer now [] e v = v
bind_all-IsBound env answer now (address ∷ targets) e v =
    let skipped = bind_all-IsBound env answer now targets e v in
    if-cases (λ (r : Edge × List EdgeEffect). IsBound env r.0)
      (not (is_candidate_valid env address)) (λ _. skipped)
      (λ valid.
        if-cases (λ (r : Edge × List EdgeEffect). IsBound env r.0)
          (leb env.max_relays (length e.bound)) (λ _. v)
          (λ room.
            if-cases (λ (r : Edge × List EdgeEffect). IsBound env r.0) (includes e.bound address)
              (λ _. skipped)
              (λ _.
                bind_all-IsBound env answer now targets _
                  (bind-IsBound env answer now address e (not-false _ valid) room v))))

-- Whatever the routes, the peers and the answers of the relays are: a round of maintenance keeps an edge within its
-- limit of relays, and binds it only to addresses that are valid candidates.
pub maintain-IsBound :
    (env : EdgeEnv) (answer : Str → Option Answer) (now : ℕ) (routes : List Known)
    (peers : List Str) (e : Edge)
    → IsBound env e
    → IsBound env (maintain_rendezvous_tunnels env answer now routes peers e).0
unfolding maintain_rendezvous_tunnels
maintain-IsBound env answer now routes peers e v =
    let busy = record e { is_maintaining = true } in
    let last =
      bind_all-IsBound env answer now (targets_of env routes peers e) busy
        (record { limited = v.limited; usable = v.usable }) in
    if-cases (λ (r : Edge × List EdgeEffect). IsBound env r.0)
      (is_relay_role e.role || e.is_maintaining) (λ _. v)
      (λ _. record { limited = last.limited; usable = last.usable })
