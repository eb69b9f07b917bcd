-- ===== src/PeerManager/Scores.antt =====
-- What a report does to the score of a peer in src/core/peerManager.js.
use metrice.Base.{
  ℕ, zero, suc, ◌+◌, ◌*◌, ◌-◌, ◌≤◌, ◌<◌, Bool, true, false, ◌&&◌, not, Option, none, some, List, [],
  ◌∷◌, ◌≡◌, ◌≢◌, refl, arith, Str, str_eq_inst, str_eq_iff, includes, leb, if◌then◌else◌, length,
  Bool-cases, ◌⊎◌, inl, inr,
}
use metrice.Base.Number.{ℤ, pos, minus, not_positive}
use metrice.JsMap
use metrice.JsMap.Laws.{
  get-set, Distinct, Distinct-set, Distinct-delete, get-delete_self, get-delete_ne, get-eq_none,
  has-get-some,
}
use metrice.PeerManager.{
  Env, Meta, PeerManager, make_room, lowest, evict_key, current, keep_or_drop, update,
  add_or_update, is_admitted, failed, is_evicted,
}

-- A known peer needs no room.
make_room_known :
    (addr : Str) (m : List (Str × Meta)) → JsMap.has addr m ≡ true → make_room addr m ≡ m
unfolding make_room
make_room_known addr m known = ground arith

-- make_room takes no other peer away while there is room.
make_room_roomy : (addr : Str) (m : List (Str × Meta)) → length m < 250 → make_room addr m ≡ m
unfolding make_room
make_room_roomy addr m room = ground arith

get-keep_or_drop :
    (b : Bool) (addr : Str) (meta : Meta) (m : List (Str × Meta))
    → Distinct m
    → JsMap.get addr (keep_or_drop b addr meta m) ≡ (if is_evicted b meta then none else some meta)
unfolding keep_or_drop
get-keep_or_drop b addr meta m distinct =
    ground (arith, get-set addr addr meta m, get-delete_self addr m distinct, str_eq_iff addr addr)

get-set_ne :
    (addr other : Str) (meta : Meta) (m : List (Str × Meta))
    → addr ≢ other
    → JsMap.get other (JsMap.set addr meta m) ≡ JsMap.get other m
get-set_ne addr other meta m different =
    ground (arith, get-set addr other meta m, str_eq_iff addr other)

get-keep_or_drop_ne :
    (b : Bool) (addr other : Str) (meta : Meta) (m : List (Str × Meta))
    → addr ≢ other
    → JsMap.get other (keep_or_drop b addr meta m) ≡ JsMap.get other m
unfolding keep_or_drop
get-keep_or_drop_ne b addr other meta m different =
    ground (
      arith,
      get-set addr other meta m,
      get-delete_ne addr other m different,
      str_eq_iff addr other,
    )

-- The entry that a verified connection leaves.
abbrev pub verified : ℕ → Meta
verified now = record { score = pos 100; last_seen = now; failures = 0; from_gossip = false }

verified_kept : (b : Bool) (now : ℕ) → is_evicted b (verified now) ≡ false
unfolding is_evicted not_positive
verified_kept b now = ground arith

-- A verified connection of an admitted address gives the peer the full score and clears its failures
-- and its mark as gossip, whatever was known of it.
pub direct_success :
    (env : Env) (now : ℕ) (addr : Str) (pm : PeerManager)
    → is_admitted env pm addr ≡ true
    → JsMap.get addr (add_or_update env now addr true false pm).peers ≡ some (verified now)
unfolding add_or_update update keep_or_drop
direct_success env now addr pm admitted =
    let m = make_room addr pm.peers in
    rw
      (
        admitted,
        verified_kept (includes env.bootstrap_peers addr) now,
        get-set addr addr (verified now) m,
        (str_eq_iff addr addr).1 refl,
      )
      refl

-- Gossip about a known peer changes the time it was last seen, and nothing else of its entry: neither
-- its score nor its failures are reset.
pub gossip_keeps :
    (env : Env) (now : ℕ) (addr : Str) (pm : PeerManager) (meta : Meta)
    → is_admitted env pm addr ≡ true
    → JsMap.get addr pm.peers ≡ some meta
    → JsMap.get addr (add_or_update env now addr true true pm).peers
      ≡ some (record meta { last_seen = now })
unfolding add_or_update update current
gossip_keeps env now addr pm meta admitted known =
    let member = has-get-some addr meta pm.peers known in
    rw (admitted, make_room_known addr pm.peers member, member, known)
      (rw
        (
          get-set addr addr (record meta { last_seen = now }) pm.peers,
          (str_eq_iff addr addr).1 refl,
        )
        refl)

-- A failure costs a known peer five points, and drops it by the rule of `is_evicted`.
failure_exact :
    (env : Env) (now : ℕ) (addr : Str) (from_gossip : Bool) (pm : PeerManager) (meta : Meta)
    → is_admitted env pm addr ≡ true
    → Distinct pm.peers
    → JsMap.get addr pm.peers ≡ some meta
    → JsMap.get addr (add_or_update env now addr false from_gossip pm).peers ≡ (
        if is_evicted (includes env.bootstrap_peers addr) (failed meta)
        then none
        else some (failed meta))
unfolding add_or_update update current
failure_exact env now addr from_gossip pm meta admitted distinct known =
    let member = has-get-some addr meta pm.peers known in
    rw (admitted, make_room_known addr pm.peers member, known)
      (get-keep_or_drop (includes env.bootstrap_peers addr) addr (failed meta) pm.peers distinct)

evict_key-Distinct :
    (best : Option (Str × ℤ)) (m : List (Str × Meta)) → Distinct m → Distinct (evict_key best m)
unfolding evict_key
evict_key-Distinct none m distinct = distinct
evict_key-Distinct (some ([], s)) m distinct = distinct
evict_key-Distinct (some (c ∷ key, s)) m distinct = Distinct-delete (c ∷ key) m distinct

make_room-Distinct : (addr : Str) (m : List (Str × Meta)) → Distinct m → Distinct (make_room addr m)
unfolding make_room
make_room-Distinct addr m distinct =
    elim (leb 250 (length m) && not (JsMap.has addr m))
      as (λ b. Distinct (if b then evict_key (lowest m none) m else m)) [
        | true ↦ evict_key-Distinct (lowest m none) m distinct
        | false ↦ distinct
      ]

keep_or_drop-Distinct :
    (b : Bool) (addr : Str) (meta : Meta) (m : List (Str × Meta))
    → Distinct m
    → Distinct (keep_or_drop b addr meta m)
unfolding keep_or_drop
keep_or_drop-Distinct b addr meta m distinct =
    elim (is_evicted b meta)
      as (λ e. Distinct (if e then JsMap.delete addr m else JsMap.set addr meta m)) [
        | true ↦ Distinct-delete addr m distinct
        | false ↦ Distinct-set addr meta m distinct
      ]

failure-Distinct :
    (env : Env) (now : ℕ) (addr : Str) (from_gossip : Bool) (pm : PeerManager)
    → Distinct pm.peers
    → Distinct (add_or_update env now addr false from_gossip pm).peers
unfolding add_or_update update
failure-Distinct env now addr from_gossip pm distinct =
    elim (Bool-cases (is_admitted env pm addr)) [
      | inl admitted ↦
          rw admitted (keep_or_drop-Distinct _ addr _ _ (make_room-Distinct addr pm.peers distinct))
      | inr refused ↦ rw refused distinct
    ]

-- No report changes which addresses are admitted.
is_admitted-add_or_update :
    (env : Env) (now : ℕ) (addr other : Str) (success from_gossip : Bool) (pm : PeerManager)
    → is_admitted env (add_or_update env now addr success from_gossip pm) other
      ≡ is_admitted env pm other
unfolding add_or_update
is_admitted-add_or_update env now addr other success from_gossip pm =
    elim (is_admitted env pm addr)
      as (λ b.
        is_admitted env
          (if b then record pm { peers = update env now addr success from_gossip pm.peers } else pm)
          other
        ≡ is_admitted env pm other) [ true ↦ unfold is_admitted in refl | false ↦ refl ]

-- `n` failed connections to `addr` in a row
abbrev pub failures : Env → ℕ → Str → ℕ → PeerManager → PeerManager
failures env now addr zero pm = pm
failures env now addr (suc n) pm =
    add_or_update env now addr false false (failures env now addr n pm)

-- The entry of a verified peer after `n` failures
abbrev pub worn : ℕ → ℕ → Meta
worn since n = record {
  score = pos (100 - 5 * n);
  last_seen = since;
  failures = n;
  from_gossip = false;
}

worn_step :
    (since n : ℕ)
    → n < 9
    → (failed (worn since n) ≡ worn since (suc n)) × (is_evicted false (worn since (suc n)) ≡ false)
unfolding failed minus is_evicted not_positive
worn_step since n small =
    let points : minus (pos (100 - 5 * n)) 5 ≡ pos (100 - 5 * suc n) = ground arith in
    let count : n + 1 ≡ suc n = omega arith in (rw (points, count) refl, ground arith)

worn_end : (since : ℕ) → is_evicted false (failed (worn since 9)) ≡ true
unfolding failed minus is_evicted not_positive
worn_end since = refl

-- The state after `n` failures of a peer that was verified in `pm`
record Worn (env : Env) (addr : Str) (since n : ℕ) (pm : PeerManager) : Type 0 where
  admitted : is_admitted env pm addr ≡ true
  distinct : Distinct pm.peers
  entry : JsMap.get addr pm.peers ≡ some (worn since n)

failures-Worn :
    (env : Env) (now since : ℕ) (addr : Str) (pm : PeerManager) (n : ℕ)
    → n ≤ 9
    → includes env.bootstrap_peers addr ≡ false
    → Worn env addr since 0 pm
    → Worn env addr since n (failures env now addr n pm)
failures-Worn env now since addr pm zero le ordinary start = start
failures-Worn env now since addr pm (suc n) le ordinary start =
    let before = failures env now addr n pm in
    let worn_before = failures-Worn env now since addr pm n (omega arith) ordinary start in
    let (same, kept) = worn_step since n (omega arith) in
    record {
      admitted =
          rw (is_admitted-add_or_update env now addr addr false false before) worn_before.admitted;
      distinct = failure-Distinct env now addr false before worn_before.distinct;
      entry =
          rw
            (
              failure_exact env now addr false before (worn since n) worn_before.admitted
                  worn_before.distinct worn_before.entry,
              ordinary,
              same,
              kept,
            )
            refl;
    }

-- An admitted peer that was verified last, and is no bootstrap peer, stays in the pool for nine failed
-- connections in a row, with five points less and one failure more for each. The tenth drops it.
pub nine_failures :
    (env : Env) (now since : ℕ) (addr : Str) (pm : PeerManager)
    → includes env.bootstrap_peers addr ≡ false
    → is_admitted env pm addr ≡ true
    → Distinct pm.peers
    → JsMap.get addr pm.peers ≡ some (verified since)
    → (n : ℕ) → n ≤ 9
    → (JsMap.get addr (failures env now addr n pm).peers
        ≡ some (record {
          score = pos (100 - 5 * n);
          last_seen = since;
          failures = n;
          from_gossip = false;
        }))
      × (JsMap.get addr (failures env now addr 10 pm).peers ≡ none)
nine_failures env now since addr pm ordinary admitted distinct entry n le =
    let start : Worn env addr since 0 pm = record {
      admitted = admitted;
      distinct = distinct;
      entry = entry;
    } in
    let last = failures-Worn env now since addr pm 9 (omega arith) ordinary start in
    (
      (failures-Worn env now since addr pm n le ordinary start).entry,
      (rw
          (
            failure_exact env now addr false (failures env now addr 9 pm) (worn since 9)
                last.admitted last.distinct last.entry,
            ordinary,
            worn_end since,
          )
          refl),
    )

-- A failed connection to an admitted address that the pool does not hold adds it, with one failure.
pub failure_of_unknown :
    (env : Env) (now : ℕ) (addr : Str) (pm : PeerManager)
    → is_admitted env pm addr ≡ true
    → length pm.peers < 250
    → Distinct pm.peers
    → JsMap.has addr pm.peers ≡ false
    → JsMap.get addr (add_or_update env now addr false false pm).peers
      ≡ some (record { score = pos 95; last_seen = now; failures = 1; from_gossip = false })
unfolding add_or_update update current
failure_of_unknown env now addr pm admitted room distinct unknown =
    rw (admitted, make_room_roomy addr pm.peers room, get-eq_none addr pm.peers unknown)
      (rw
        (get-keep_or_drop (includes env.bootstrap_peers addr) addr (failed (verified now)) pm.peers
          distinct)
        (unfold is_evicted failed minus not_positive in ground arith))

-- A report about a peer leaves the entry of every other peer as it is, if the peer is known or the
-- pool has room for it.
pub others_kept :
    (env : Env) (now : ℕ) (addr other : Str) (success from_gossip : Bool) (pm : PeerManager)
    → addr ≢ other
    → (JsMap.has addr pm.peers ≡ true) ⊎ (length pm.peers < 250)
    → JsMap.get other (add_or_update env now addr success from_gossip pm).peers
      ≡ JsMap.get other pm.peers
unfolding add_or_update update
others_kept env now addr other success from_gossip pm different room =
    let m = pm.peers in
    let same : make_room addr m ≡ m = elim room [
      | inl known ↦ make_room_known addr m known
      | inr space ↦ make_room_roomy addr m space
    ] in
    let kept : (meta : Meta) → JsMap.get other (keep_or_drop _ addr meta m) ≡ JsMap.get other m =
      λ meta. get-keep_or_drop_ne (includes env.bootstrap_peers addr) addr other meta m different in
    elim (Bool-cases (is_admitted env pm addr)) [
      | inr refused ↦ rw refused refl
      | inl admitted ↦ elim (Bool-cases success) [
        | inr failure ↦ rw (admitted, failure, same) (kept _)
        | inl ok ↦ elim (Bool-cases from_gossip) [
          | inr direct ↦ rw (admitted, ok, direct, same) (kept _)
          | inl gossip ↦ elim (Bool-cases (JsMap.has addr m)) [
            | inr new ↦ rw (admitted, ok, gossip, same, new) (kept _)
            | inl known ↦
                rw (admitted, ok, gossip, same, known) (get-set_ne addr other _ m different)
          ]
        ]
      ]
    ]
