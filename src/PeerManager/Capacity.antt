-- ===== src/PeerManager/Capacity.antt =====
-- The pool of src/core/peerManager.js holds at most 250 peers, and makes room by the lowest score.
use metrice.Base.{
  ℕ, ◌≤◌, ◌<◌, Bool, true, false, some, List, [], ◌∷◌, ◌≡◌, ◌⊎◌, inl, inr, refl, arith, Str,
  str_eq_iff, str_eq_inst, has_char, includes, leb, length, All, Bool-cases,
}
use metrice.Base.Number.{ℤ, int_lt}
use metrice.JsMap
use metrice.JsMap.Laws.{length-set, length-delete, length-delete-le}
use metrice.PeerManager.{
  Env, Meta, PeerManager, lowest, evict_key, make_room, keep_or_drop, update, add_or_update,
}

-- Every key is an address with a colon.
abbrev pub Keyed : List (Str × Meta) → Type 0
Keyed = All (λ e. has_char b':' e.0 ≡ true)

module _ (a b c : ℤ) where
  int_lt_irrefl : int_lt a a ≡ false
  unfolding int_lt
  int_lt_irrefl = ground arith

  -- c <= a < b
  int_lt_above : int_lt a b ≡ true → int_lt a c ≡ false → int_lt b c ≡ false
  unfolding int_lt
  int_lt_above h k = ground arith

  -- c <= b <= a
  int_lt_below : int_lt a b ≡ false → int_lt b c ≡ false → int_lt a c ≡ false
  unfolding int_lt
  int_lt_below h k = ground arith

-- The result of the loop from the best entry (k, s): a key of the map or `k`, with a score that no
-- other is below.
record Minimum (m : List (Str × Meta)) (k : Str) (s : ℤ) (k' : Str) (s' : ℤ) : Type 0 where
  found : lowest m (some (k, s)) ≡ some (k', s')
  member : (JsMap.has k' m ≡ true) ⊎ (k' ≡ k)
  below_start : int_lt s s' ≡ false
  below_all : All (λ e. int_lt e.1.score s' ≡ false) m

lowest_sound :
    (m : List (Str × Meta)) (k : Str) (s : ℤ) → (k' : Str) × (s' : ℤ) × Minimum m k s k' s'
unfolding lowest JsMap.has
lowest_sound [] k s = (
  k,
  s,
  record { found = refl; member = inr refl; below_start = int_lt_irrefl s s s; below_all = tt },
)
lowest_sound ((j, val) ∷ m) k s = elim (Bool-cases (int_lt val.score s)) [
  | inl less ↦
      let (k', s', low) = lowest_sound m j val.score in
      (
        k',
        s',
        record {
          found = rw (less, lowest) low.found;
          member = ground (arith, low.member, str_eq_iff j k');
          below_start = int_lt_above val.score s s' less low.below_start;
          below_all = (low.below_start, low.below_all);
        },
      )
  | inr not_less ↦
      let (k', s', low) = lowest_sound m k s in
      (
        k',
        s',
        record {
          found = rw (not_less, lowest) low.found;
          member = ground (arith, low.member, str_eq_iff j k');
          below_start = low.below_start;
          below_all = (int_lt_below val.score s s' not_less low.below_start, low.below_all);
        },
      )
]

Keyed-has :
    (k : Str) (m : List (Str × Meta)) → Keyed m → JsMap.has k m ≡ true → has_char b':' k ≡ true
unfolding JsMap.has
Keyed-has k [] keyed h = cc
Keyed-has k ((j, val) ∷ m) (colon, keyed) h = ground (arith, str_eq_iff j k, Keyed-has k m keyed)

evict_key-delete :
    (k : Str) (s : ℤ) (m : List (Str × Meta))
    → has_char b':' k ≡ true
    → evict_key (some (k, s)) m ≡ JsMap.delete k m
unfolding evict_key has_char
evict_key-delete [] s m h = cc
evict_key-delete (c ∷ k) s m h = refl

-- In a full pool, whose addresses all have a colon, a new peer takes the place of a known peer with
-- the lowest score.
pub make_room_lowest :
    (addr : Str) (m : List (Str × Meta))
    → 250 ≤ length m
    → JsMap.has addr m ≡ false
    → Keyed m
    → (key : Str) × (score : ℤ) × (make_room addr m ≡ JsMap.delete key m)
      × (JsMap.has key m ≡ true)
      × All (λ e. int_lt e.1.score score ≡ false) m
make_room_lowest addr [] full new keyed = absurd (omega arith)
make_room_lowest addr ((j, val) ∷ m) full new keyed =
    let (k, s, low) = lowest_sound m j val.score in
    let member : JsMap.has k ((j, val) ∷ m) ≡ true =
      unfold JsMap.has in ground (arith, low.member, str_eq_iff j k) in
    let fits : leb 250 (length ((j, val) ∷ m)) ≡ true = ground arith in
    (
      k,
      s,
      unfold make_room lowest in
          (rw (fits, new, low.found)
            (evict_key-delete k s _ (Keyed-has k ((j, val) ∷ m) keyed member))),
      member,
      (low.below_start, low.below_all),
    )

-- There is room for the peer, or it is known already.
Roomy : Str → List (Str × Meta) → Type 0
Roomy addr m = (length m ≤ 250) × ((JsMap.has addr m ≡ true) ⊎ (length m < 250))

make_room-Roomy :
    (addr : Str) (m : List (Str × Meta)) → length m ≤ 250 → Keyed m → Roomy addr (make_room addr m)
unfolding Roomy
make_room-Roomy addr m bounded keyed = elim (Bool-cases (JsMap.has addr m)) [
  | inl known ↦
      let same : make_room addr m ≡ m = unfold make_room in ground arith in
      rw same (bounded, inl known)
  | inr new ↦ elim (Bool-cases (leb 250 (length m))) [
    | inl full ↦
        let (k, s, deleted, member, low) = make_room_lowest addr m (ground arith) new keyed in
        rw deleted
          (omega (arith, length-delete k m member), inr (omega (arith, length-delete k m member)))
    | inr room ↦
        let same : make_room addr m ≡ m = unfold make_room in ground arith in
        rw same (bounded, inr (ground arith))
  ]
]

keep_or_drop-le :
    (is_bootstrap : Bool) (addr : Str) (meta : Meta) (m : List (Str × Meta))
    → Roomy addr m
    → length (keep_or_drop is_bootstrap addr meta m) ≤ 250
unfolding Roomy keep_or_drop
keep_or_drop-le is_bootstrap addr meta m room =
    ground (arith, length-set addr meta m, length-delete-le addr m)

known-le :
    (addr : Str) (meta : Meta) (m : List (Str × Meta))
    → Roomy addr m
    → JsMap.has addr m ≡ true
    → length (JsMap.set addr meta m) ≤ 250
unfolding Roomy
known-le addr meta m room known = ground (arith, length-set addr meta m)

update-le :
    (env : Env) (now : ℕ) (addr : Str) (success from_gossip : Bool) (m : List (Str × Meta))
    → length m ≤ 250
    → Keyed m
    → length (update env now addr success from_gossip m) ≤ 250
unfolding update
update-le env now addr success from_gossip m bounded keyed =
    let b = includes env.bootstrap_peers addr in
    let roomy = make_room-Roomy addr m bounded keyed in
    let le : (meta : Meta) → length (keep_or_drop b addr meta (make_room addr m)) ≤ 250 =
      λ meta. keep_or_drop-le b addr meta (make_room addr m) roomy in
    elim (Bool-cases success) [
      | inl ok ↦ elim (Bool-cases from_gossip) [
        | inl gossip ↦ elim (Bool-cases (JsMap.has addr (make_room addr m))) [
          | inl known ↦ rw (ok, gossip, known) (known-le addr _ (make_room addr m) roomy known)
          | inr new ↦ rw (ok, gossip, new) (le _)
        ]
        | inr direct ↦ rw (ok, direct) (le _)
      ]
      | inr failure ↦ rw failure (le _)
    ]

-- No report about a peer makes a pool of at most 250 entries, each with a colon in its address, grow
-- over 250.
pub length-add_or_update-le :
    (env : Env) (now : ℕ) (addr : Str) (success from_gossip : Bool) (pm : PeerManager)
    → length pm.peers ≤ 250
    → Keyed pm.peers
    → length (add_or_update env now addr success from_gossip pm).peers ≤ 250
unfolding add_or_update
length-add_or_update-le env now addr success from_gossip pm bounded keyed =
    ground (arith, update-le env now addr success from_gossip pm.peers bounded keyed)
