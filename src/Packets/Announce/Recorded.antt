-- ===== src/Packets/Announce/Recorded.antt =====
-- What `handlePresenceAnnounce` of src/core/federationPacketHandler.js writes down of a node.
use metrice.Base.{
  ℕ, Bool, true, false, ◌||◌, ◌≡◌, refl, sym, ap, ◌∙◌, inl, inr, arith, Option, none, some, List,
  [], ◌∷◌, Str, codes, str_eq, str_eq_iff, str_eq_inst, Bool-cases, All, if-cases, if-false,
  if-true, length, ◌==◌, if◌then◌else◌,
}
use metrice.AddressHelper
use metrice.AddressHelper.{Address}
use metrice.Federation.{
  Config, Engine, Peering, is_clean_address, is_outside_mesh, keep_if, pick_safe, note_hearsay,
  note_peer, is_hearsay, safe_addresses, relays_role, is_relay_node,
}
use metrice.Federation.Packet.{Announce, Member, Consequence}
use metrice.JsMap
use metrice.JsMap.Laws.{get-set, has-set}
use metrice.Packets.{Source}
use metrice.Packets.Announce.{
  add_member, handle_member, handle_members, is_genuine, presence_of, register_edge, set_physical,
}
use metrice.Packets.Announce.Handler.{
  answer_announce, answers, is_new_announce, note_announce, reply_with, sync_now,
  handle_presence_announce, learn_node,
}
use metrice.SecureChannel.{or_else}
use metrice.Presence.{LocalState, create_announce}

keep_if-All : (test : Str → Bool) (xs : List Str) → All (λ a. test a ≡ true) (keep_if test xs)
unfolding keep_if
keep_if-All test [] = tt
keep_if-All test (a ∷ xs) =
    if-cases (All (λ b. test b ≡ true)) (test a) (λ good. (good, keep_if-All test xs))
      (λ _. keep_if-All test xs)

pick_safe_lem :
    (cfg : Config) (xs clean : List Str)
    → (cfg.is_test || str_eq cfg.pool_env.server_name (codes "localhost")) ≡ false
    → pick_safe cfg clean xs ≡ clean
unfolding pick_safe
pick_safe_lem cfg xs [] real = if-false (keep_if is_outside_mesh xs) real
pick_safe_lem cfg xs (a ∷ clean) real = refl

-- A node that is no test node and not on localhost keeps the addresses that others can use.
safe_addresses_lem :
    (cfg : Config) (xs : List Str)
    → (cfg.is_test || str_eq cfg.pool_env.server_name (codes "localhost")) ≡ false
    → safe_addresses cfg xs ≡ keep_if is_clean_address xs
unfolding safe_addresses
safe_addresses_lem cfg xs real = pick_safe_lem cfg xs (keep_if is_clean_address xs) real

or_else_lem : (a b : Str) → or_else a b ≡ (if length a == 0 then b else a)
unfolding or_else
or_else_lem [] b = ground arith
or_else_lem (c ∷ a) b = ground arith

presence_of_lem :
    (cfg : Config) (now : ℕ) (a : Announce)
    → (cfg.is_test || str_eq cfg.pool_env.server_name (codes "localhost")) ≡ false
    → presence_of cfg now a ≡ record {
      role = if length a.role == 0 then codes "EDGE" else a.role;
      rendezvous_nodes = keep_if is_clean_address a.rendezvous_nodes;
      kem_key = a.kem_key;
      identity_key = a.identity_key;
      channels = a.channels;
      last_seen = now;
    }
unfolding presence_of
presence_of_lem cfg now a real =
    rw (or_else_lem a.role (codes "EDGE"), safe_addresses_lem cfg a.rendezvous_nodes real) refl

note_hearsay-table :
    (cfg : Config) (now : ℕ) (peers : List Str) (e : Engine)
    → (note_hearsay cfg now peers e).table ≡ e.table
unfolding note_hearsay note_peer
note_hearsay-table cfg now [] e = refl
note_hearsay-table cfg now (peer ∷ peers) e =
    note_hearsay-table cfg now peers _
    ∙ if-cases (λ (n : Engine). n.table ≡ e.table) (is_hearsay cfg e peer) (λ _. refl) (λ _. refl)

register_edge-table :
    (role : Str) (c : Peering) (e : Engine) → (register_edge role c e).table ≡ e.table
unfolding register_edge
register_edge-table role c e =
    if-cases (λ (n : Engine). n.table ≡ e.table) (str_eq role (codes "EDGE")) (λ _. refl)
      (λ _. refl)

set_physical-table :
    (node_id : Str) (at : Option Str) (e : Engine) → (set_physical node_id at e).table ≡ e.table
unfolding set_physical
set_physical-table node_id none e = refl
set_physical-table node_id (some at) e = refl

learn_node-table :
    (cfg : Config) (now : ℕ) (from : Source) (a : Announce) (e : Engine)
    → (learn_node cfg now from a e).table ≡ JsMap.set a.node_id (presence_of cfg now a) e.table
unfolding learn_node
learn_node-table cfg now from a e =
    if-cases (λ (n : Engine). n.table ≡ JsMap.set a.node_id (presence_of cfg now a) e.table)
      (relays_role a.role)
      (λ _.
        note_hearsay-table cfg now _ _
        ∙ (set_physical-table a.node_id _ _ ∙ register_edge-table _ from.channel _))
      (λ _. set_physical-table a.node_id _ _ ∙ register_edge-table _ from.channel _)

-- The entry of a node in the table is the same.
abbrev Kept : Str → Engine → Engine → Type 0
Kept n e next = (JsMap.get n next.table ≡ JsMap.get n e.table) × (JsMap.has n next.table ≡ true)

apart :
    {V : Type 0} (k n : Str) (m : List (Str × V))
    → JsMap.has k m ≡ false
    → JsMap.has n m ≡ true
    → str_eq k n ≡ false
apart k n m absent present = elim (Bool-cases (str_eq k n)) [
  | inl same ↦
      let found : false ≡ true =
        sym absent ∙ (ap (λ t. JsMap.has t m) ((str_eq_iff k n).0 same) ∙ present) in
      absurd (cc found)
  | inr other ↦ other
]

or-none : (a b : Bool) → (a || b) ≡ false → b ≡ false
or-none true b h = cc h
or-none false b h = h

add_member-Kept :
    (cfg : Config) (now : ℕ) (a : Announce) (c : Peering) (m : Member) (name node_id n : Str)
    (e : Engine)
    → JsMap.has n e.table ≡ true
    → Kept n e (add_member cfg now a c m name node_id e).0
unfolding add_member
add_member-Kept cfg now a c m name node_id n e h =
    if-cases (λ (r : Engine × List Consequence). Kept n e r.0)
      (str_eq node_id cfg.node_id || JsMap.has node_id e.table) (λ _. (refl, h))
      (λ new.
        let other = apart node_id n e.table (or-none _ _ new) h in
        (rw (get-set, other) refl, rw (has-set, other) h))

handle_member-Kept :
    (cfg : Config) (now : ℕ) (a : Announce) (c : Peering) (m : Member) (p : Option Address)
    (n : Str) (e : Engine)
    → JsMap.has n e.table ≡ true
    → Kept n e (handle_member cfg now a c m p e).0
unfolding handle_member
handle_member-Kept cfg now a c m none n e h = (refl, h)
handle_member-Kept cfg now a c m (some p) n e h =
    if-cases (λ (r : Engine × List Consequence). Kept n e r.0) ((length m.user == 0) || p.is_local)
      (λ _. (refl, h)) (λ _. add_member-Kept cfg now a c m p.name _ n e h)

handle_members-Kept :
    (cfg : Config) (now : ℕ) (a : Announce) (c : Peering) (members : List Member) (n : Str)
    (e : Engine)
    → JsMap.has n e.table ≡ true
    → Kept n e (handle_members cfg now a c members e).0
unfolding handle_members
handle_members-Kept cfg now a c [] n e h = (refl, h)
handle_members-Kept cfg now a c (m ∷ members) n e h =
    let next = handle_member cfg now a c m (AddressHelper.parse cfg.addresses m.user) e in
    let first = handle_member-Kept cfg now a c m (AddressHelper.parse cfg.addresses m.user) n e h in
    let more = handle_members-Kept cfg now a c members n next.0 first.1 in
    (more.0 ∙ first.0, more.1)

create_announce-table :
    (cfg : Config) (now : ℕ) (state : LocalState) (e : Engine)
    → (create_announce cfg now state e).0.table ≡ e.table
unfolding create_announce
create_announce-table cfg now state e =
    if-cases (λ (n : Engine). n.table ≡ e.table) (is_relay_node e) (λ _. refl) (λ _. refl)

answer_announce-table :
    (cfg : Config) (is_new : Bool) (now : ℕ) (state : LocalState) (from : Source) (a : Announce)
    (e : Engine)
    → (answer_announce cfg is_new now state from a e).0.table ≡ e.table
unfolding answer_announce reply_with sync_now
answer_announce-table cfg is_new now state from a e =
    if-cases (λ (r : Engine × List Consequence). r.0.table ≡ e.table) (answers is_new now from a e)
      (λ _. create_announce-table cfg now state (sync_now now from.channel.channel e)) (λ _. refl)

note_announce-table :
    (sort : List Str → List Str) (a : Announce) (e : Engine)
    → (note_announce sort a e).table ≡ e.table
unfolding note_announce
note_announce-table sort a e =
    if-cases (λ (n : Engine). n.table ≡ e.table) (is_new_announce sort a e) (λ _. refl) (λ _. refl)

-- A genuine announcement is written down: behind the handler the table holds for its node the role that it gives, or EDGE
-- if it gives none, its keys and its channels, seen now, whatever its members and the answer changed. The relays of the
-- entry are those that it names less the ones that others cannot use, so they all have a host that others can use, if this node is no test node and not on localhost.
pub genuine_recorded :
    (cfg : Config) (sort : List Str → List Str) (now : ℕ) (state : LocalState) (from : Source)
    (a : Announce) (e : Engine)
    → is_genuine cfg now a ≡ true
    → (cfg.is_test || str_eq cfg.pool_env.server_name (codes "localhost")) ≡ false
    → (JsMap.get a.node_id (handle_presence_announce cfg sort now state from a e).0.table
        ≡ some (record {
          role = if length a.role == 0 then codes "EDGE" else a.role;
          rendezvous_nodes = keep_if is_clean_address a.rendezvous_nodes;
          kem_key = a.kem_key;
          identity_key = a.identity_key;
          channels = a.channels;
          last_seen = now;
        }))
      × All
          (λ address. is_clean_address address ≡ true)
          (keep_if is_clean_address a.rendezvous_nodes)
unfolding handle_presence_announce
genuine_recorded cfg sort now state from a e genuine real =
    let p = presence_of cfg now a in
    let learned = learn_node cfg now from a e in
    let table = learn_node-table cfg now from a e in
    let self = (str_eq_iff a.node_id a.node_id).1 refl in
    let there : JsMap.has a.node_id learned.table ≡ true =
      ap (JsMap.has a.node_id) table ∙ (has-set a.node_id a.node_id p e.table ∙ if-true _ self) in
    let entry : JsMap.get a.node_id learned.table ≡ some p =
      ap (JsMap.get a.node_id) table ∙ (get-set a.node_id a.node_id p e.table ∙ if-true _ self) in
    let kept = handle_members-Kept cfg now a from.channel a.memberships a.node_id learned there in
    let (joined, members) = handle_members cfg now a from.channel a.memberships learned in
    (
      ap (λ (r : Engine × List Consequence). JsMap.get a.node_id r.0.table) (if-true _ genuine)
          ∙ (ap (JsMap.get a.node_id) (
                answer_announce-table cfg (is_new_announce sort a joined) now state from a
                  (note_announce sort a joined)
                ∙ note_announce-table sort a joined)
              ∙ (kept.0 ∙ (entry ∙ ap some (presence_of_lem cfg now a real)))),
      keep_if-All is_clean_address a.rendezvous_nodes,
    )
