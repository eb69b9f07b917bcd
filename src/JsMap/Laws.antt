-- ===== src/JsMap/Laws.antt =====
-- The laws of maps that the components use.
use metrice.Base.{
  suc, ◌≤◌, true, false, none, some, List, [], ◌∷◌, ◌++◌, ◌≡◌, ◌≢◌, refl, arith, if◌then◌else◌, Eq,
  Bool-cases, inl, inr, length, All,
}
use metrice.JsMap.{get, has, set, delete}

pub beq_refl {ℓ} : {K : Type ℓ} ⦃e : Eq K⦄ (k : K) → e.beq k k ≡ true
beq_refl ⦃e⦄ k = (e.beq_iff k k).1 refl

module _ {ℓ} {K V : Type ℓ} ⦃e : Eq K⦄ where
  pub get-set :
      (k j : K) (v : V) (m : List (K × V))
      → get j (set k v m) ≡ (if e.beq k j then some v else get j m)
  unfolding get set
  get-set k j v [] = refl
  get-set k j v ((i, w) ∷ m) =
      ground (arith, e.beq_iff k j, e.beq_iff i k, e.beq_iff i j, get-set k j v m)

  pub has-set :
      (k j : K) (v : V) (m : List (K × V))
      → has j (set k v m) ≡ (if e.beq k j then true else has j m)
  unfolding has set
  has-set k j v [] = refl
  has-set k j v ((i, w) ∷ m) =
      ground (arith, e.beq_iff k j, e.beq_iff i k, e.beq_iff i j, has-set k j v m)

  pub set_fresh :
      (k : K) (v : V) (m : List (K × V)) → has k m ≡ false → set k v m ≡ m ++ (k, v) ∷ []
  unfolding has set
  set_fresh k v [] h = refl
  set_fresh k v ((i, w) ∷ m) h = ground (arith, set_fresh k v m)

  pub length-set :
      (k : K) (v : V) (m : List (K × V))
      → length (set k v m) ≡ (if has k m then length m else suc (length m))
  unfolding has set
  length-set k v [] = refl
  length-set k v ((i, w) ∷ m) = ground (arith, length-set k v m)

  pub length-delete :
      (k : K) (m : List (K × V)) → has k m ≡ true → suc (length (delete k m)) ≡ length m
  unfolding has delete
  length-delete k [] h = cc
  length-delete k ((i, w) ∷ m) h = ground (arith, length-delete k m)

  pub length-delete-le : (k : K) (m : List (K × V)) → length (delete k m) ≤ length m
  unfolding delete
  length-delete-le k [] = omega arith
  length-delete-le k ((i, w) ∷ m) = ground (arith, length-delete-le k m)

  pub delete-has : (k : K) (m : List (K × V)) → has k m ≡ false → delete k m ≡ m
  unfolding has delete
  delete-has k [] h = refl
  delete-has k ((i, w) ∷ m) h = ground (arith, delete-has k m)

  pub has-delete_ne : (k j : K) (m : List (K × V)) → k ≢ j → has j (delete k m) ≡ has j m
  unfolding has delete
  has-delete_ne k j [] h = refl
  has-delete_ne k j ((i, w) ∷ m) h =
      ground (arith, e.beq_iff i k, e.beq_iff i j, has-delete_ne k j m)

  pub get-delete_ne : (k j : K) (m : List (K × V)) → k ≢ j → get j (delete k m) ≡ get j m
  unfolding get delete
  get-delete_ne k j [] h = refl
  get-delete_ne k j ((i, w) ∷ m) h =
      ground (arith, e.beq_iff i k, e.beq_iff i j, get-delete_ne k j m)

  -- No key twice.
  abbrev pub Distinct : List (K × V) → Type 0
  Distinct [] = Unit
  Distinct ((i, w) ∷ m) = (has i m ≡ false) × Distinct m

  pub get-eq_none : (k : K) (m : List (K × V)) → has k m ≡ false → get k m ≡ none
  unfolding has get
  get-eq_none k [] h = refl
  get-eq_none k ((i, w) ∷ m) h = ground (arith, get-eq_none k m)

  pub get-delete_self : (k : K) (m : List (K × V)) → Distinct m → get k (delete k m) ≡ none
  unfolding get delete
  get-delete_self k [] d = refl
  get-delete_self k ((i, w) ∷ m) (fresh, d) =
      ground (arith, e.beq_iff i k, get-eq_none k m, get-delete_self k m d)

  pub Distinct-set : (k : K) (v : V) (m : List (K × V)) → Distinct m → Distinct (set k v m)
  unfolding set has
  Distinct-set k v [] d = (refl, tt)
  Distinct-set k v ((i, w) ∷ m) (fresh, d) = elim (Bool-cases (e.beq i k)) [
    | inl same ↦ rw same (fresh, d)
    | inr other ↦
        rw other
          (ground (arith, has-set k i v m, e.beq_iff i k, e.beq_iff k i), Distinct-set k v m d)
  ]

  has-delete_fresh : (k j : K) (m : List (K × V)) → has j m ≡ false → has j (delete k m) ≡ false
  unfolding has delete
  has-delete_fresh k j [] h = refl
  has-delete_fresh k j ((i, w) ∷ m) h = ground (arith, has-delete_fresh k j m)

  pub Distinct-delete : (k : K) (m : List (K × V)) → Distinct m → Distinct (delete k m)
  unfolding delete
  Distinct-delete k [] d = tt
  Distinct-delete k ((i, w) ∷ m) (fresh, d) = elim (Bool-cases (e.beq i k)) [
    | inl same ↦ rw same d
    | inr other ↦ rw other (has-delete_fresh k i m fresh, Distinct-delete k m d)
  ]

  pub has-append :
      (k : K) (m n : List (K × V)) → has k (m ++ n) ≡ (if has k m then true else has k n)
  unfolding has
  has-append k [] n = refl
  has-append k ((i, w) ∷ m) n = ground (arith, has-append k m n)

  pub has-get-some : (k : K) (v : V) (m : List (K × V)) → get k m ≡ some v → has k m ≡ true
  unfolding has get
  has-get-some k v [] h = cc
  has-get-some k v ((i, w) ∷ m) h = ground (arith, has-get-some k v m)

  -- What holds of every entry still holds after a write of such an entry, or a deletion.
  module _ {κ} (P : K × V → Type κ) where
    pub All-delete : (k : K) (m : List (K × V)) → All P m → All P (delete k m)
    unfolding delete
    All-delete k [] h = h
    All-delete k ((i, w) ∷ m) (p, h) =
        elim (e.beq i k) as (λ b. All P (if b then m else (i, w) ∷ delete k m)) [
          | true ↦ h
          | false ↦ (p, All-delete k m h)
        ]

    pub All-set : (k : K) (v : V) (m : List (K × V)) → P (k, v) → All P m → All P (set k v m)
    unfolding set
    All-set k v [] q h = (q, tt)
    All-set k v ((i, w) ∷ m) q (p, h) = elim (Bool-cases (e.beq i k)) [
      | inl same ↦ rw same ((rw (← (e.beq_iff i k).0 same) at q), h)
      | inr other ↦ rw other (p, All-set k v m q h)
    ]
