-- ===== src/Presence/Expiry/Exact.antt =====
-- What is left behind `cleanupExpiredPresence` of src/core/presenceManager.js.
use metrice.Federation.{Config, Engine, User, is_relay_node, relays_role, ttl_of}
use metrice.JsMap
use metrice.JsMap.Laws.{Distinct, Distinct-delete, get-delete_self, get-delete_ne}
use metrice.Presence.Refresh.{get-refresh}
use metrice.Presence.{is_tunneled}
use metrice.Rendezvous.{Presence}
use metrice.Base.{
  ℕ, ◌-◌, ◌*◌, Bool, true, false, not, ◌&&◌, ◌≤◌, ◌<◌, ◌↔◌, ◌≡◌, refl, sym, ap, subst, ◌∙◌, inl,
  inr, arith, Option, none, some, List, [], ◌∷◌, Str, str_eq, str_eq_iff, str_eq_inst, str_eq_ne,
  ltb, if◌then◌else◌, Bool-cases, if-cases, if-true, some-is,
}
use metrice.Presence.Expiry.{
  cleanup_expired_presence, effective_ttl, forget, is_forgotten, is_overdue, is_valid_route,
  node_now, user_now,
}

user_now-none :
    (cfg : Config) (now : ℕ) (e : Engine) (a : Str) (u : User)
    → (user_now cfg now e a u ≡ none)
      ↔ (((is_relay_node e && is_tunneled e.tunnels a) ≡ false) × (ttl_of cfg ≤ now - u.last_seen))
unfolding user_now ttl_of
user_now-none cfg now e a u = ground arith

node_now-none :
    (cfg : Config) (now : ℕ) (n : Str) (p : Presence)
    → (node_now cfg now n p ≡ none)
      ↔ ((if relays_role p.role then ttl_of cfg * 5 else ttl_of cfg) < now - p.last_seen)
unfolding node_now is_overdue effective_ttl
node_now-none cfg now n p = ground arith

forget-absent :
    (cfg : Config) (now : ℕ) (route : Str → Option (Str × ℕ)) (n : Str)
    (table : List (Str × Presence)) (physical : List (Str × Str))
    → JsMap.has n table ≡ false
    → JsMap.get n (forget cfg now route table physical) ≡ JsMap.get n physical
unfolding forget JsMap.has
forget-absent cfg now route n [] physical h = refl
forget-absent cfg now route n ((j, p) ∷ table) physical h = elim (Bool-cases (str_eq j n)) [
  | inl same ↦ let found : true ≡ false = rw same at h in absurd (cc found)
  | inr other ↦
      forget-absent cfg now route n table _ (rw other at h)
      ∙ if-cases (λ m. JsMap.get n m ≡ JsMap.get n physical) (is_forgotten cfg now route j p)
          (λ _. get-delete_ne j n physical (str_eq_ne j n other)) (λ _. refl)
]

get-delete_if :
    (n : Str) (b : Bool) (m : List (Str × Str))
    → Distinct m
    → JsMap.get n (if b then JsMap.delete n m else m) ≡ (if b then none else JsMap.get n m)
get-delete_if n true m d = get-delete_self n m d
get-delete_if n false m d = refl

-- The loop deletes the physical address of exactly the nodes that are forgotten.
get-forget :
    (cfg : Config) (now : ℕ) (route : Str → Option (Str × ℕ)) (n : Str) (p : Presence)
    (table : List (Str × Presence)) (physical : List (Str × Str))
    → Distinct table
    → Distinct physical
    → JsMap.get n table ≡ some p
    → JsMap.get n (forget cfg now route table physical)
      ≡ (if is_forgotten cfg now route n p then none else JsMap.get n physical)
unfolding forget JsMap.get
get-forget cfg now route n p [] physical d f h = cc
get-forget cfg now route n p ((j, q) ∷ table) physical (fresh, d) f h =
    elim (Bool-cases (str_eq j n)) [
      | inl same ↦
          let key = (str_eq_iff j n).0 same in
          let both : some q ≡ some p = sym (if-true _ same) ∙ h in
          let entry : q ≡ p = cc both in
          let verdict =
            ap (λ t. is_forgotten cfg now route t q) key
            ∙ ap (is_forgotten cfg now route n) entry in
          forget-absent cfg now route n table _ (subst (λ t. JsMap.has t table ≡ false) key fresh)
          ∙ (ap (λ b. JsMap.get n (if b then JsMap.delete j physical else physical)) verdict
              ∙ (ap
                    (λ k. JsMap.get n (
                      if is_forgotten cfg now route n p then JsMap.delete k physical else physical))
                    key
                  ∙ get-delete_if n (is_forgotten cfg now route n p) physical f))
      | inr other ↦
          let kept : Distinct
              (if is_forgotten cfg now route j q then JsMap.delete j physical else physical) =
            if-cases Distinct _ (λ _. Distinct-delete j physical f) (λ _. f) in
          get-forget cfg now route n p table _ d kept (rw other at h)
          ∙ ap (λ o. if is_forgotten cfg now route n p then none else o)
              (if-cases (λ m. JsMap.get n m ≡ JsMap.get n physical) (is_forgotten cfg now route j q)
                (λ _. get-delete_ne j n physical (str_eq_ne j n other)) (λ _. refl))
    ]

none_iff {ℓ κ} :
    {A : Type ℓ} {P : Type κ} {o r : Option A} → o ≡ r → (r ≡ none) ↔ P → (o ≡ none) ↔ P
none_iff same iff = (λ gone. iff.0 (sym same ∙ gone), λ p. same ∙ iff.1 p)

forgotten_lem :
    (cfg : Config) (now : ℕ) (route : Str → Option (Str × ℕ)) (n : Str) (p : Presence)
    → is_forgotten cfg now route n p ≡ (
        ltb (ttl_of cfg) (now - p.last_seen)
        && (not (relays_role p.role) && not (is_valid_route cfg now (route n))))
unfolding is_forgotten is_overdue effective_ttl
forgotten_lem cfg now route n p = ground arith

-- No key of the three maps stands twice. A user is gone after the sweep exactly if it is not behind a tunnel of this
-- relay and was not seen for the time to live; a node is gone from the presence table exactly if it was not seen for longer
-- than that, five times as long for a relay; and the physical address of a node in the table is gone exactly if
-- the node is, is no relay, and the database has no valid route to it.
pub cleanup_exact :
    (cfg : Config) (now : ℕ) (route : Str → Option (Str × ℕ)) (e : Engine) (a n : Str) (u : User)
    (p : Presence)
    → Distinct e.users
    → Distinct e.table
    → Distinct e.physical
    → JsMap.get a e.users ≡ some u
    → JsMap.get n e.table ≡ some p
    → ((JsMap.get a (cleanup_expired_presence cfg now route e).0.users ≡ none) ↔ (
        ((is_relay_node e && is_tunneled e.tunnels a) ≡ false) × (ttl_of cfg ≤ now - u.last_seen)))
      × ((JsMap.get n (cleanup_expired_presence cfg now route e).0.table ≡ none)
          ↔ ((if relays_role p.role then ttl_of cfg * 5 else ttl_of cfg) < now - p.last_seen))
      × (JsMap.get n (cleanup_expired_presence cfg now route e).0.physical ≡ (
          if ltb (ttl_of cfg) (now - p.last_seen)
            && (not (relays_role p.role) && not (is_valid_route cfg now (route n)))
          then none
          else JsMap.get n e.physical))
unfolding cleanup_expired_presence
cleanup_exact cfg now route e a n u p du dt dp hu hn =
    let user = get-refresh (user_now cfg now e) a e.users du ∙ some-is _ _ hu in
    let node = get-refresh (node_now cfg now) n e.table dt ∙ some-is _ _ hn in
    (
      none_iff user (user_now-none cfg now e a u),
      none_iff node (node_now-none cfg now n p),
      get-forget cfg now route n p e.table e.physical dt dp hn
          ∙ ap (λ b. if b then none else JsMap.get n e.physical) (forgotten_lem cfg now route n p),
    )
