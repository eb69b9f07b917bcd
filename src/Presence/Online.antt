-- ===== src/Presence/Online.antt =====
-- Which addresses `getAllOnlineUsers` of src/core/presenceManager.js gives for a name.
use metrice.Base.{
  ℕ, true, false, ◌&&◌, ◌≡◌, refl, sym, ap, ◌∙◌, inl, inr, arith, Option, none, some, List, [], ◌∷◌,
  ◌++◌, map, Str, str_eq, str_eq_iff, str_eq_inst, if◌then◌else◌, Bool-cases, Option-cases, All,
  length, ◌==◌, if-cases, some-cases, some-is,
}
use metrice.Federation.{Config, Engine}
use metrice.JsMap
use metrice.JsMap.Laws.{Distinct, Distinct-set, get-set, All-set}
use metrice.Presence.{
  LocalState, nick_key, is_mesh, note_user, note_users, active_users, get_all_online_users,
}

-- No two addresses have the same name.
abbrev pub UniqueNicks : List Str → Type 0
UniqueNicks [] = Unit
UniqueNicks (u ∷ us) = All (λ w. str_eq (nick_key u) (nick_key w) ≡ false) us × UniqueNicks us

-- The first address of a name in a list, and its last address that is one of the mesh
abbrev pub first_of : Str → List Str → Option Str
first_of n [] = none
first_of n (u ∷ us) = if str_eq (nick_key u) n then some u else first_of n us

abbrev pub last_mesh_of : Str → List Str → Option Str
last_mesh_of n [] = none
last_mesh_of n (u ∷ us) = elim (last_mesh_of n us) [
  | some w ↦ some w
  | none ↦ if str_eq (nick_key u) n && is_mesh u then some u else none
]

abbrev or_first : Option Str → Option Str → Option Str
or_first (some u) other = some u
or_first none other = other

-- The last address of the mesh if there is one, and else the first address
abbrev pub representative : Str → List Str → Option Str
representative n us = or_first (last_mesh_of n us) (first_of n us)

abbrev Keyed : List (Str × Str) → Type 0
Keyed = All (λ (entry : Str × Str). entry.0 ≡ nick_key entry.1)

note_user-Keyed : (u : Str) (m : List (Str × Str)) → Keyed m → Keyed (note_user u m)
unfolding note_user
note_user-Keyed u m k =
    let written =
      All-set (λ (entry : Str × Str). entry.0 ≡ nick_key entry.1) (nick_key u) u m refl k in
    some-cases Keyed (JsMap.get (nick_key u) m) (λ _. written)
      (λ w _. if-cases Keyed _ (λ _. written) (λ _. k))

note_user-Distinct : (u : Str) (m : List (Str × Str)) → Distinct m → Distinct (note_user u m)
unfolding note_user
note_user-Distinct u m d =
    let written = Distinct-set (nick_key u) u m d in
    some-cases Distinct (JsMap.get (nick_key u) m) (λ _. written)
      (λ w _. if-cases Distinct _ (λ _. written) (λ _. d))

note_users-Keyed :
    (us : List Str) (m : List (Str × Str))
    → Keyed m
    → Distinct m
    → Keyed (note_users us m) × Distinct (note_users us m)
unfolding note_users
note_users-Keyed [] m k d = (k, d)
note_users-Keyed (u ∷ us) m k d =
    note_users-Keyed us (note_user u m) (note_user-Keyed u m k) (note_user-Distinct u m d)

abbrev values : List (Str × Str) → List Str
values = map (λ entry. entry.1)

absent-All :
    (key : Str) (m : List (Str × Str))
    → Keyed m
    → JsMap.has key m ≡ false
    → All (λ w. str_eq key (nick_key w) ≡ false) (values m)
unfolding JsMap.has
absent-All key [] k h = tt
absent-All key ((j, w) ∷ m) (own, k) h = elim (Bool-cases (str_eq j key)) [
  | inl same ↦ let found : true ≡ false = rw same at h in absurd (cc found)
  | inr other ↦ (
    rw (← own) (ground (arith, str_eq_iff j key, str_eq_iff key j)),
    absent-All key m k (rw other at h),
  )
]

values-UniqueNicks : (m : List (Str × Str)) → Keyed m → Distinct m → UniqueNicks (values m)
values-UniqueNicks [] k d = tt
values-UniqueNicks ((j, w) ∷ m) (own, k) (fresh, d) =
    (rw (← own) (absent-All j m k fresh), values-UniqueNicks m k d)

-- No name has two of the addresses that are given as online.
pub one_address_per_name :
    (cfg : Config) (now : ℕ) (state : LocalState) (e : Engine)
    → UniqueNicks (get_all_online_users cfg now state e).1
unfolding get_all_online_users
one_address_per_name cfg now state e =
    let all : List Str = state.users ++ active_users cfg now e.users in
    let (k, d) = note_users-Keyed all [] tt tt in values-UniqueNicks (note_users all []) k d

-- What a round makes of the address that a name has
abbrev replaced : Str → Option Str → Option Str
replaced u none = some u
replaced u (some w) = if is_mesh u then some u else some w

abbrev NonEmpty : Str → Type 0
NonEmpty u = (length u == 0) ≡ false

get-NonEmpty :
    (n w : Str) (m : List (Str × Str))
    → All (λ (entry : Str × Str). NonEmpty entry.1) m
    → JsMap.get n m ≡ some w
    → NonEmpty w
unfolding JsMap.get
get-NonEmpty n w [] full h = cc
get-NonEmpty n w ((j, v) ∷ m) (f, full) h = elim (Bool-cases (str_eq j n)) [
  | inl same ↦ ground (arith, f)
  | inr other ↦ get-NonEmpty n w m full (rw other at h)
]

-- A round for a name that has an address already: one of the mesh takes its place.
note_user_known :
    (u w : Str) (m : List (Str × Str))
    → JsMap.get (nick_key u) m ≡ some w
    → NonEmpty w
    → note_user u m ≡ (if is_mesh u then JsMap.set (nick_key u) u m else m)
unfolding note_user
note_user_known u w m h full = some-is _ _ h ∙ elim (Bool-cases (is_mesh w)) [
  | inl old ↦ elim (Bool-cases (is_mesh u)) [
    | inl new ↦ rw (full, old, new) refl
    | inr new ↦ rw (full, old, new) refl
  ]
  | inr old ↦ elim (Bool-cases (is_mesh u)) [
    | inl new ↦ rw (full, old, new) refl
    | inr new ↦ rw (full, old, new) refl
  ]
]

note_user_fresh :
    (u : Str) (m : List (Str × Str))
    → JsMap.get (nick_key u) m ≡ none
    → note_user u m ≡ JsMap.set (nick_key u) u m
unfolding note_user
note_user_fresh u m h = rw (h, note_user) refl

get-note_user :
    (u : Str) (m : List (Str × Str)) (n : Str)
    → All (λ (entry : Str × Str). NonEmpty entry.1) m
    → JsMap.get n (note_user u m)
      ≡ (if str_eq (nick_key u) n then replaced u (JsMap.get n m) else JsMap.get n m)
get-note_user u m n full =
    let same_key : str_eq (nick_key u) n ≡ true → JsMap.get n m ≡ JsMap.get (nick_key u) m =
      λ same. ap (λ t. JsMap.get t m) (sym ((str_eq_iff (nick_key u) n).0 same)) in
    elim (Option-cases (JsMap.get (nick_key u) m)) [
      | inl fresh ↦
          ap (JsMap.get n) (note_user_fresh u m fresh) ∙ elim (Bool-cases (str_eq (nick_key u) n)) [
            | inl same ↦ rw (get-set, same, same_key same, fresh) refl
            | inr other ↦ rw (get-set, other) refl
          ]
      | inr (w, known) ↦
          ap (JsMap.get n) (note_user_known u w m known (get-NonEmpty _ w m full known))
          ∙ elim (Bool-cases (is_mesh u)) [
            | inl mesh ↦ elim (Bool-cases (str_eq (nick_key u) n)) [
              | inl same ↦ rw (mesh, get-set, same, same_key same, known, mesh) refl
              | inr other ↦ rw (mesh, get-set, other) refl
            ]
            | inr plain ↦ elim (Bool-cases (str_eq (nick_key u) n)) [
              | inl same ↦ rw (plain, same, same_key same, known, plain) refl
              | inr other ↦ rw (plain, other) refl
            ]
          ]
    ]

note_user-NonEmpty :
    (u : Str) (m : List (Str × Str))
    → NonEmpty u
    → All (λ (entry : Str × Str). NonEmpty entry.1) m
    → All (λ (entry : Str × Str). NonEmpty entry.1) (note_user u m)
unfolding note_user
note_user-NonEmpty u m full fulls =
    let written = All-set (λ (entry : Str × Str). NonEmpty entry.1) (nick_key u) u m full fulls in
    some-cases (All (λ (entry : Str × Str). NonEmpty entry.1)) (JsMap.get (nick_key u) m)
      (λ _. written)
      (λ w _.
        if-cases (All (λ (entry : Str × Str). NonEmpty entry.1)) _ (λ _. written) (λ _. fulls))

-- What one address adds, whatever the later ones are
round_is :
    (u n : Str) (later before rest : Option Str)
    → or_first later (or_first (if str_eq (nick_key u) n then replaced u before else before) rest)
      ≡ or_first
          (elim later [
            | some w ↦ some w
            | none ↦ if str_eq (nick_key u) n && is_mesh u then some u else none
          ])
          (or_first before (if str_eq (nick_key u) n then some u else rest))
round_is u n (some w) before rest = refl
round_is u n none none rest = ground arith
round_is u n none (some w) rest = ground arith

get-note_users :
    (us : List Str) (m : List (Str × Str)) (n : Str)
    → All NonEmpty us
    → All (λ (entry : Str × Str). NonEmpty entry.1) m
    → JsMap.get n (note_users us m)
      ≡ or_first (last_mesh_of n us) (or_first (JsMap.get n m) (first_of n us))
unfolding note_users
get-note_users [] m n _ fulls = elim (Option-cases (JsMap.get n m)) [
  | inl absent ↦ rw (absent) refl
  | inr (w, known) ↦ rw (known) refl
]
get-note_users (u ∷ us) m n (full, more) fulls =
    get-note_users us (note_user u m) n more (note_user-NonEmpty u m full fulls)
    ∙ (ap (λ o. or_first (last_mesh_of n us) (or_first o (first_of n us)))
          (get-note_user u m n fulls)
        ∙ round_is u n (last_mesh_of n us) (JsMap.get n m) (first_of n us))

first_of-values : (n : Str) (m : List (Str × Str)) → Keyed m → first_of n (values m) ≡ JsMap.get n m
unfolding JsMap.get
first_of-values n [] k = refl
first_of-values n ((j, w) ∷ m) (own, k) = rw (← own, first_of-values n m k) refl

-- The address that is given for a name is the last one of the mesh among the clients of this node and the users that
-- were seen in time, and if there is none the first of these addresses; a name has an address exactly if one of them has that name. No address is empty.
pub online_address :
    (cfg : Config) (now : ℕ) (state : LocalState) (e : Engine) (n : Str)
    → All NonEmpty (state.users ++ active_users cfg now e.users)
    → first_of n (get_all_online_users cfg now state e).1
      ≡ representative n (state.users ++ active_users cfg now e.users)
unfolding get_all_online_users JsMap.get
online_address cfg now state e n full =
    let all : List Str = state.users ++ active_users cfg now e.users in
    first_of-values n (note_users all []) (note_users-Keyed all [] tt tt).0
    ∙ get-note_users all [] n full tt
