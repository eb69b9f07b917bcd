-- ===== src/Rendezvous/Edge/Heartbeat.antt =====
-- Which relays are still bound after `sendRendezvousHeartbeat` of src/core/rendezvousManager.js.
use metrice.Base.{
  ℕ, Bool, true, false, ◌&&◌, ◌||◌, ◌≡◌, refl, sym, ap, subst, ◌∙◌, inl, inr, arith, List, [], ◌∷◌,
  Str, str_eq, str_eq_iff, str_eq_ne, str_eq_sym, str_eq_inst, includes, if◌then◌else◌, if-cases,
  if-false, Bool-cases,
}
use metrice.JsMap
use metrice.JsMap.Laws.{Distinct, Distinct-delete, get-delete_self, get-delete_ne}
use metrice.Rendezvous.Edge.Bound.{check_transit_role-bound}
use metrice.Rendezvous.Edge.{
  EdgeEnv, Edge, EdgeEffect, RelayChannel, is_relay_role, remove_text, drop_relay, pool_key,
  is_alive, is_open, beat, send_rendezvous_heartbeat,
}

-- No address twice
abbrev pub Unique : List Str → Type 0
Unique [] = Unit
Unique (a ∷ rest) = (includes rest a ≡ false) × Unique rest

pub includes-remove_text :
    (a b : Str) (bound : List Str)
    → str_eq a b ≡ false
    → includes (remove_text a bound) b ≡ includes bound b
unfolding includes remove_text
includes-remove_text a b [] h = refl
includes-remove_text a b (c ∷ bound) h = elim (Bool-cases (str_eq c a)) [
  | inl same ↦
      let gone : str_eq c b ≡ false = ap (λ t. str_eq t b) ((str_eq_iff c a).0 same) ∙ h in
      rw (same, remove_text, gone) refl
  | inr other ↦
      rw (other, remove_text) (ap (λ t. str_eq c b || t) (includes-remove_text a b bound h))
]

pub includes-remove_self :
    (a : Str) (bound : List Str) → Unique bound → includes (remove_text a bound) a ≡ false
unfolding includes remove_text
includes-remove_self a [] u = refl
includes-remove_self a (c ∷ bound) (fresh, u) = elim (Bool-cases (str_eq c a)) [
  | inl same ↦ rw (same, remove_text) (ap (includes bound) (sym ((str_eq_iff c a).0 same)) ∙ fresh)
  | inr other ↦
      rw (other, remove_text)
        (ap (λ t. t || includes (remove_text a bound) a) other ∙ includes-remove_self a bound u)
]

Unique-remove_text : (a : Str) (bound : List Str) → Unique bound → Unique (remove_text a bound)
unfolding includes remove_text
Unique-remove_text a [] u = tt
Unique-remove_text a (c ∷ bound) (fresh, u) = elim (Bool-cases (str_eq c a)) [
  | inl same ↦ rw (same, remove_text) u
  | inr other ↦
      rw (other, remove_text)
        (
          includes-remove_text a c bound (str_eq_sym a c ∙ other) ∙ fresh,
          Unique-remove_text a bound u,
        )
]

drop_relay-bound :
    (env : EdgeEnv) (a : Str) (e : Edge) → (drop_relay env a e).0.bound ≡ remove_text a e.bound
unfolding drop_relay
drop_relay-bound env a e =
    check_transit_role-bound env
      (record e { bound = remove_text a e.bound; relays = JsMap.delete a e.relays })

-- The pool behind one relay of the loop
abbrev shrunk : Str → List (Str × RelayChannel) → List (Str × RelayChannel)
shrunk a pool =
    if is_open (JsMap.get (pool_key a) pool) then JsMap.delete (pool_key a) pool else pool

-- A relay that is not in the loop is left alone.
beat-others :
    (env : EdgeEnv) (now : ℕ) (todo : List Str) (pool : List (Str × RelayChannel)) (e : Edge)
    (b : Str)
    → includes todo b ≡ false
    → includes (beat env now todo pool e).0.bound b ≡ includes e.bound b
unfolding beat includes
beat-others env now [] pool e b h = refl
beat-others env now (a ∷ todo) pool e b h =
    let apart : str_eq a b ≡ false = ground arith in
    let rest : includes todo b ≡ false = ground arith in
    if-cases
      (λ (r : Edge × List (Str × RelayChannel) × List EdgeEffect × Bool).
        includes r.0.bound b ≡ includes e.bound b)
      (is_alive now (JsMap.get (pool_key a) pool)) (λ _. beat-others env now todo pool e b rest)
      (λ _.
        beat-others env now todo (shrunk a pool) (drop_relay env a e).0 b rest
        ∙ (ap (λ bound. includes bound b) (drop_relay-bound env a e)
            ∙ includes-remove_text a b e.bound apart))

-- Taking a dead channel out of the pool changes no verdict.
alive-shrunk :
    (now : ℕ) (a b : Str) (pool : List (Str × RelayChannel))
    → Distinct pool
    → is_alive now (JsMap.get (pool_key a) pool) ≡ false
    → is_alive now (JsMap.get (pool_key b) (shrunk a pool))
      ≡ is_alive now (JsMap.get (pool_key b) pool)
unfolding is_alive
alive-shrunk now a b pool d dead =
    if-cases
      (λ p. is_alive now (JsMap.get (pool_key b) p) ≡ is_alive now (JsMap.get (pool_key b) pool))
      (is_open (JsMap.get (pool_key a) pool))
      (λ _. elim (Bool-cases (str_eq (pool_key a) (pool_key b))) [
        | inl same ↦
            let keys = (str_eq_iff (pool_key a) (pool_key b)).0 same in
            let gone =
              ap (λ k. JsMap.get k (JsMap.delete (pool_key a) pool)) (sym keys)
              ∙ get-delete_self (pool_key a) pool d in
            ap (is_alive now) gone ∙ (sym dead ∙ ap (λ k. is_alive now (JsMap.get k pool)) keys)
        | inr other ↦
            ap (is_alive now) (get-delete_ne (pool_key a) (pool_key b) pool (str_eq_ne _ _ other))
      ])
      (λ _. refl)

Distinct-shrunk :
    (a : Str) (pool : List (Str × RelayChannel)) → Distinct pool → Distinct (shrunk a pool)
Distinct-shrunk a pool d =
    if-cases Distinct (is_open (JsMap.get (pool_key a) pool))
      (λ _. Distinct-delete (pool_key a) pool d) (λ _. d)

and-right : (x y : Bool) → y ≡ true → (x && y) ≡ x
and-right true y h = h
and-right false y h = refl

and-none : (x y : Bool) → y ≡ false → (x && y) ≡ false
and-none true y h = h
and-none false y h = refl

-- The verdict of the loop on `b`
abbrev Exact :
    ℕ
    → Str
    → List (Str × RelayChannel)
    → Edge
    → Edge × List (Str × RelayChannel) × List EdgeEffect × Bool
    → Type 0
Exact now b pool e r =
    includes r.0.bound b ≡ (includes e.bound b && is_alive now (JsMap.get (pool_key b) pool))

-- What the loop decides on a relay that it comes to
beat-exact :
    (env : EdgeEnv) (now : ℕ) (todo : List Str) (pool : List (Str × RelayChannel)) (e : Edge)
    (b : Str)
    → Distinct pool
    → Unique todo
    → Unique e.bound
    → includes todo b ≡ true
    → includes (beat env now todo pool e).0.bound b
      ≡ (includes e.bound b && is_alive now (JsMap.get (pool_key b) pool))
unfolding beat includes
beat-exact env now [] pool e b d u v h = cc h
beat-exact env now (a ∷ todo) pool e b d (fresh, u) v h = elim (Bool-cases (str_eq a b)) [
  | inl same ↦
      let ends : a ≡ b = (str_eq_iff a b).0 same in
      let absent : includes todo b ≡ false = subst (λ t. includes todo t ≡ false) ends fresh in
      let verdict = ap (λ t. is_alive now (JsMap.get (pool_key t) pool)) (sym ends) in
      if-cases (Exact now b pool e) (is_alive now (JsMap.get (pool_key a) pool))
        (λ alive.
          beat-others env now todo pool e b absent
          ∙ sym (and-right (includes e.bound b) _ (verdict ∙ alive)))
        (λ dead.
          beat-others env now todo (shrunk a pool) (drop_relay env a e).0 b absent
          ∙ (ap (λ bound. includes bound b) (drop_relay-bound env a e)
              ∙ (subst (λ t. includes (remove_text t e.bound) b ≡ false) (sym ends)
                    (includes-remove_self b e.bound v)
                  ∙ sym (and-none (includes e.bound b) _ (verdict ∙ dead)))))
  | inr other ↦
      let rest : includes todo b ≡ true = ap (λ t. t || includes todo b) (sym other) ∙ h in
      if-cases (Exact now b pool e) (is_alive now (JsMap.get (pool_key a) pool))
        (λ _. beat-exact env now todo pool e b d u v rest)
        (λ dead.
          let unique =
            subst Unique (sym (drop_relay-bound env a e)) (Unique-remove_text a e.bound v) in
          beat-exact env now todo (shrunk a pool) (drop_relay env a e).0 b
            (Distinct-shrunk a pool d) u unique rest
          ∙ (ap (λ bound. includes bound b && is_alive now (JsMap.get (pool_key b) (shrunk a pool)))
                (drop_relay-bound env a e)
              ∙ (ap (λ t. t && is_alive now (JsMap.get (pool_key b) (shrunk a pool)))
                    (includes-remove_text a b e.bound other)
                  ∙ ap (λ t. includes e.bound b && t) (alive-shrunk now a b pool d dead))))
]

-- After a heartbeat of an edge, an address is bound exactly when it was bound before and its channel is in the pool,
-- open, and gave a sign within the last minute.
pub heartbeat_exact :
    (env : EdgeEnv) (now : ℕ) (pool : List (Str × RelayChannel)) (e : Edge) (b : Str)
    → is_relay_role e.role ≡ false
    → Distinct pool
    → Unique e.bound
    → includes (send_rendezvous_heartbeat env now pool e).0.bound b
      ≡ (includes e.bound b && is_alive now (JsMap.get (pool_key b) pool))
unfolding send_rendezvous_heartbeat
heartbeat_exact env now pool e b edge d u =
    ap (λ (r : Edge × List (Str × RelayChannel) × List EdgeEffect). includes r.0.bound b)
      (if-false _ edge)
    ∙ elim (Bool-cases (includes e.bound b)) [
      | inl was ↦ beat-exact env now e.bound pool e b d u u was
      | inr never ↦
          beat-others env now e.bound pool e b never
          ∙ (never ∙ ap (λ t. t && is_alive now (JsMap.get (pool_key b) pool)) (sym never))
    ]
