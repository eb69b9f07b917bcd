-- ===== src/TtlMap/Found.antt =====
-- Entries of the time-stamped maps of src/core/secureChannel.js that a look-up finds.
use metrice.Base.{
  ℕ, zero, suc, ◌+◌, ◌-◌, ◌≤◌, false, some, [], ◌∷◌, ◌++◌, ◌≡◌, ◌⊎◌, inl, inr, refl, ap, ◌∙◌, arith,
  Str, str_eq, str_eq_iff, str_eq_inst, ltb, length, drop, Bool-cases,
}
use metrice.JsMap
use metrice.JsMap.Laws.{length-set, length-delete-le}
use metrice.TtlMap.{drop_expired, trim, cleanup}
use metrice.TtlMap.Laws.{Entries, trim-drop, trim_of_le}

-- The first entry for `key` is of the time `ts` and has at most `n` entries behind it.
abbrev pub Found : Str → ℕ → ℕ → Entries → Type 0
Found key ts n [] = ⊥
Found key ts n ((j, t) ∷ m) =
    ((j ≡ key) × (t ≡ ts) × (length m ≤ n)) ⊎ ((str_eq j key ≡ false) × Found key ts n m)

pub Found-get : (key : Str) (ts n : ℕ) (m : Entries) → Found key ts n m → JsMap.get key m ≡ some ts
unfolding JsMap.get
Found-get key ts n [] h = absurd h
Found-get key ts n ((j, t) ∷ m) (inl (a, b, c)) = ground (arith, str_eq_iff j key)
Found-get key ts n ((j, t) ∷ m) (inr (other, h)) = rw other (Found-get key ts n m h)

pub Found-weaken :
    (key : Str) (ts : ℕ) {n k : ℕ} (m : Entries) → n ≤ k → Found key ts n m → Found key ts k m
Found-weaken key ts [] le h = h
Found-weaken key ts ((j, t) ∷ m) le (inl (a, b, c)) = inl (a, b, omega arith)
Found-weaken key ts ((j, t) ∷ m) le (inr (other, h)) = inr (other, Found-weaken key ts m le h)

pub Found-snoc :
    (key : Str) (ts : ℕ) (m : Entries)
    → JsMap.has key m ≡ false
    → Found key ts 0 (m ++ (key, ts) ∷ [])
unfolding JsMap.has
Found-snoc key ts [] absent = inl (refl, refl, omega arith)
Found-snoc key ts ((j, t) ∷ m) absent = inr (ground arith, Found-snoc key ts m (ground arith))

-- Another key is written.
pub Found-set :
    (key k : Str) (ts v n : ℕ) (m : Entries)
    → str_eq key k ≡ false
    → Found key ts n m
    → Found key ts (suc n) (JsMap.set k v m)
unfolding JsMap.set
Found-set key k ts v n [] other h = absurd h
Found-set key k ts v n ((j, t) ∷ m) other (inl (a, b, c)) =
    let apart : str_eq j k ≡ false = ap (λ s. str_eq s k) a ∙ other in
    rw apart (inl (a, b, ground (arith, length-set k v m)))
Found-set key k ts v n ((j, t) ∷ m) other (inr (before, h)) = elim (Bool-cases (str_eq j k)) [
  | inl same ↦ rw same (inr (before, Found-weaken key ts m (omega arith) h))
  | inr apart ↦ rw apart (inr (before, Found-set key k ts v n m other h))
]

-- Another key is deleted.
pub Found-delete :
    (key k : Str) (ts n : ℕ) (m : Entries)
    → str_eq key k ≡ false
    → Found key ts n m
    → Found key ts n (JsMap.delete k m)
unfolding JsMap.delete
Found-delete key k ts n [] other h = absurd h
Found-delete key k ts n ((j, t) ∷ m) other (inl (a, b, c)) =
    let apart : str_eq j k ≡ false = ap (λ s. str_eq s k) a ∙ other in
    rw apart (inl (a, b, omega (arith, length-delete-le k m)))
Found-delete key k ts n ((j, t) ∷ m) other (inr (before, h)) = elim (Bool-cases (str_eq j k)) [
  | inl same ↦ rw same h
  | inr apart ↦ rw apart (inr (before, Found-delete key k ts n m other h))
]

Found-drop :
    (key : Str) (ts n k : ℕ) (m : Entries)
    → k + suc n ≤ length m
    → Found key ts n m
    → Found key ts n (drop k m)
Found-drop key ts n zero m h x = x
Found-drop key ts n (suc k) [] h x = x
Found-drop key ts n (suc k) ((j, t) ∷ m) h (inl (a, b, c)) = absurd (omega arith)
Found-drop key ts n (suc k) ((j, t) ∷ m) h (inr (other, x)) =
    Found-drop key ts n k m (omega arith) x

pub Found-trim :
    (key : Str) (ts n room : ℕ) (m : Entries)
    → suc n ≤ room
    → Found key ts n m
    → Found key ts n (trim room m)
Found-trim key ts n room m h x = elim (Bool-cases (ltb room (length m))) [
  | inl over ↦ rw trim-drop (Found-drop key ts n (length m - room) m (ground arith) x)
  | inr fits ↦ rw (trim_of_le room m (ground arith)) x
]

Found-drop_expired :
    (key : Str) (ts n ttl now : ℕ) (m : Entries)
    → now - ts ≤ ttl
    → Found key ts n m
    → Found key ts n (drop_expired ttl now m)
unfolding drop_expired
Found-drop_expired key ts n ttl now [] h x = x
Found-drop_expired key ts n ttl now ((j, t) ∷ m) h (inl (a, b, c)) =
    let young : ltb ttl (now - t) ≡ false = ground arith in rw young (inl (a, b, c))
Found-drop_expired key ts n ttl now ((j, t) ∷ m) h (inr (other, x)) =
    elim (Bool-cases (ltb ttl (now - t))) [
      | inl old ↦ rw old (Found-drop_expired key ts n ttl now m h x)
      | inr young ↦ rw young (inr (other, x))
    ]

-- A sweep keeps a young entry that has few entries behind it.
pub Found-cleanup :
    (key : Str) (ts n ttl room now : ℕ) (m : Entries)
    → now - ts ≤ ttl
    → suc n ≤ room
    → Found key ts n m
    → Found key ts n (cleanup ttl room now m)
unfolding cleanup
Found-cleanup key ts n ttl room now m h k x =
    Found-trim key ts n room _ k (Found-drop_expired key ts n ttl now m h x)
