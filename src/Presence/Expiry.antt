-- ===== src/Presence/Expiry.antt =====
-- `cleanupExpiredPresence` of src/core/presenceManager.js: entries that were not seen in time go.
pub mod Exact
use metrice.Federation.{Config, Engine, User, is_relay_node, relays_role, ttl_of}
use metrice.Federation.Packet.{
  Consequence, presence_change, delete_expired_routes, cleanup_circuits,
}
use metrice.JsMap
use metrice.JsMap.Laws.{Distinct, Distinct-delete, get-delete_self, get-delete_ne, get-eq_none}
use metrice.Presence.{refresh, is_tunneled}
use metrice.Rendezvous.{Presence}
use metrice.Base.{
  ℕ, ◌-◌, ◌*◌, Bool, true, false, not, ◌&&◌, ◌||◌, ◌≤◌, ◌<◌, ◌↔◌, ◌≡◌, refl, sym, ap, subst, ◌∙◌,
  inl, inr, arith, Option, none, some, List, [], ◌∷◌, ◌++◌, Str, str_eq, str_eq_iff, str_eq_inst,
  str_eq_ne, ltb, leb, if◌then◌else◌, Bool-cases, if-cases, if-true, some-is, Option-cases,
}

-- `effectiveTtl`
unfoldable pub effective_ttl : Config → Presence → ℕ
effective_ttl cfg p = if relays_role p.role then ttl_of cfg * 5 else ttl_of cfg

unfoldable pub is_overdue : Config → ℕ → Presence → Bool
is_overdue cfg now p =
    ltb (effective_ttl cfg p) (now - p.last_seen)
    || (ltb (ttl_of cfg) (now - p.last_seen) && not (relays_role p.role))

-- What becomes of an entry of the presence table; one that was seen in the future is set to now.
unfoldable pub node_now : Config → ℕ → Str → Presence → Option Presence
node_now cfg now node_id p =
    if ltb now p.last_seen
    then some (record p { last_seen = now })
    else if is_overdue cfg now p
    then none
    else some p

-- `hasValidDbRoute`, of the role and the time of the route that the database holds
unfoldable pub is_valid_route : Config → ℕ → Option (Str × ℕ) → Bool
is_valid_route cfg now none = false
is_valid_route cfg now (some (role, last_seen)) =
    relays_role role || leb (now - last_seen) (ttl_of cfg * 5)

-- The node is forgotten, and its physical address with it.
unfoldable pub is_forgotten : Config → ℕ → (Str → Option (Str × ℕ)) → Str → Presence → Bool
is_forgotten cfg now route node_id p =
    not (ltb now p.last_seen)
    && (is_overdue cfg now p
        && (not (relays_role p.role) && not (is_valid_route cfg now (route node_id))))

unfoldable pub forget :
    Config
    → ℕ
    → (Str → Option (Str × ℕ))
    → List (Str × Presence)
    → List (Str × Str)
    → List (Str × Str)
forget cfg now route [] physical = physical
forget cfg now route ((node_id, p) ∷ table) physical =
    forget cfg now route table
      (if is_forgotten cfg now route node_id p then JsMap.delete node_id physical else physical)

-- What becomes of a user
unfoldable pub user_now : Config → ℕ → Engine → Str → User → Option User
user_now cfg now e address u =
    if is_relay_node e && is_tunneled e.tunnels address
    then some (record u { last_seen = now })
    else if ltb now u.last_seen
    then some (record u { last_seen = now })
    else if leb (ttl_of cfg) (now - u.last_seen)
    then none
    else some u

-- `removedUsers`
unfoldable pub removes_user : Config → ℕ → Engine → List (Str × User) → Bool
removes_user cfg now e [] = false
removes_user cfg now e ((address, u) ∷ users) =
    elim (user_now cfg now e address u) [ none ↦ true | some v ↦ false ]
    || removes_user cfg now e users

-- `cleanupExpiredPresence()`, with the routes of the database
unfoldable pub cleanup_expired_presence :
    Config → ℕ → (Str → Option (Str × ℕ)) → Engine → Engine × List Consequence
cleanup_expired_presence cfg now route e = (
  record e {
    table = refresh (node_now cfg now) e.table;
    physical = forget cfg now route e.table e.physical;
    users = refresh (user_now cfg now e) e.users;
  },
  (if removes_user cfg now e e.users then presence_change ∷ [] else [])
      ++ delete_expired_routes (ttl_of cfg) ∷ cleanup_circuits 600000 ∷ [],
)
