-- ===== src/TtlMap/Laws.antt =====
-- What the loops of the time-stamped maps leave.
use metrice.Base.{
  ℕ, zero, suc, ◌+◌, ◌-◌, ◌≤◌, ◌<◌, Bool, true, false, ◌&&◌, ◌||◌, List, [], ◌∷◌, ◌++◌, ◌≡◌, ◌⊎◌,
  inl, inr, refl, arith, Str, str_eq, str_eq_iff, str_eq_inst, ltb, leb, length, length-drop,
  length-append, drop, Bool-cases, ap, ◌∙◌,
}
use metrice.JsMap.{has}
use metrice.TtlMap.{drop_expired, evict, trim, cleanup}

abbrev pub Entries : Type 0
Entries = List (Str × ℕ)

drop-nil : (n : ℕ) → drop {A = Str × ℕ} n [] ≡ []
drop-nil zero = refl
drop-nil (suc n) = refl

pub evict-drop :
    (removed to_remove : ℕ) (m : Entries)
    → removed < to_remove
    → evict removed to_remove m ≡ drop (to_remove - removed) m
unfolding evict
evict-drop removed to_remove [] h = rw drop-nil
evict-drop removed to_remove (x ∷ m) h = elim (Bool-cases (leb to_remove (suc removed))) [
  | inl last ↦ let e : to_remove - removed ≡ suc zero = ground arith in rw (last, e)
  | inr more ↦
      let e : to_remove - removed ≡ suc (to_remove - suc removed) = ground arith in
      rw (more, e) (evict-drop (suc removed) to_remove m (ground arith))
]

-- The loop over the oldest entries leaves the newest `max_capacity`.
pub trim-drop : (room : ℕ) (m : Entries) → trim room m ≡ drop (length m - room) m
unfolding trim
trim-drop room m = elim (Bool-cases (ltb room (length m))) [
  | inl over ↦
      rw over (evict-drop 0 (length m - room) m (ground arith) ∙ ap (λ n. drop n m) (omega arith))
  | inr fits ↦ let e : length m - room ≡ zero = ground arith in rw (fits, e)
]

pub length-trim-le : (room : ℕ) (m : Entries) → length (trim room m) ≤ room
length-trim-le room m = rw (trim-drop room m) (omega (arith, length-drop (length m - room) m))

pub trim_of_le : (room : ℕ) (m : Entries) → length m ≤ room → trim room m ≡ m
unfolding trim
trim_of_le room m h = ground arith

pub length-cleanup-le : (ttl room now : ℕ) (m : Entries) → length (cleanup ttl room now m) ≤ room
unfolding cleanup
length-cleanup-le ttl room now m = length-trim-le room (drop_expired ttl now m)

pub length-drop_expired-le :
    (ttl now : ℕ) (m : Entries) → length (drop_expired ttl now m) ≤ length m
unfolding drop_expired
length-drop_expired-le ttl now [] = omega arith
length-drop_expired-le ttl now ((k, ts) ∷ m) = ground (arith, length-drop_expired-le ttl now m)

-- Within capacity only expired entries go.
pub cleanup_of_le :
    (ttl room now : ℕ) (m : Entries)
    → length m ≤ room
    → cleanup ttl room now m ≡ drop_expired ttl now m
unfolding cleanup
cleanup_of_le ttl room now m h = trim_of_le room _ (omega (arith, length-drop_expired-le ttl now m))

-- Time stamps in insertion order, none before `lo`, none after `now`.
abbrev pub Ordered : ℕ → ℕ → Entries → Type 0
Ordered lo now [] = Unit
Ordered lo now ((_, ts) ∷ m) = (lo ≤ ts) × (ts ≤ now) × Ordered ts now m

pub Ordered-later :
    {now later : ℕ} (lo : ℕ) (m : Entries) → now ≤ later → Ordered lo now m → Ordered lo later m
Ordered-later lo [] h o = tt
Ordered-later lo ((k, ts) ∷ m) h (a, b, o) = (a, omega arith, Ordered-later ts m h o)

pub Ordered-mono :
    {lo lo' : ℕ} (now : ℕ) (m : Entries) → lo' ≤ lo → Ordered lo now m → Ordered lo' now m
Ordered-mono now [] h o = tt
Ordered-mono now ((k, ts) ∷ m) h (a, b, o) = (omega arith, b, o)

pub Ordered-append :
    (lo now : ℕ) (k : Str) (m : Entries)
    → lo ≤ now
    → Ordered lo now m
    → Ordered lo now (m ++ (k, now) ∷ [])
Ordered-append lo now k [] h o = (h, omega arith, tt)
Ordered-append lo now k ((j, ts) ∷ m) h (a, b, o) = (a, b, Ordered-append ts now k m b o)

pub Ordered-drop_expired :
    (ttl clock lo now : ℕ) (m : Entries)
    → Ordered lo now m
    → Ordered lo now (drop_expired ttl clock m)
unfolding drop_expired
Ordered-drop_expired ttl clock lo now [] o = tt
Ordered-drop_expired ttl clock lo now ((k, ts) ∷ m) (a, b, o) =
    elim (Bool-cases (ltb ttl (clock - ts))) [
      | inl old ↦ rw old (Ordered-mono now _ a (Ordered-drop_expired ttl clock ts now m o))
      | inr young ↦ rw young (a, b, o)
    ]

pub Ordered-drop : (n lo now : ℕ) (m : Entries) → Ordered lo now m → Ordered lo now (drop n m)
Ordered-drop zero lo now m o = o
Ordered-drop (suc n) lo now [] o = tt
Ordered-drop (suc n) lo now ((k, ts) ∷ m) (a, b, o) =
    Ordered-mono now _ a (Ordered-drop n ts now m o)

pub Ordered-trim : (room lo now : ℕ) (m : Entries) → Ordered lo now m → Ordered lo now (trim room m)
Ordered-trim room lo now m o = rw trim-drop (Ordered-drop _ lo now m o)

pub Ordered-cleanup :
    (ttl room clock lo now : ℕ) (m : Entries)
    → Ordered lo now m
    → Ordered lo now (cleanup ttl room clock m)
unfolding cleanup
Ordered-cleanup ttl room clock lo now m o =
    rw trim-drop (Ordered-drop _ lo now _ (Ordered-drop_expired ttl clock lo now m o))

-- Some entry for the key is at most `ttl` old: the specification of a sweep, which looks at every
-- entry.
abbrev pub live : ℕ → ℕ → Str → Entries → Bool
live ttl now key [] = false
live ttl now key ((j, ts) ∷ m) = (str_eq j key && leb (now - ts) ttl) || live ttl now key m

young-live :
    (ttl now lo : ℕ) (key : Str) (m : Entries)
    → Ordered lo now m
    → now - lo ≤ ttl
    → live ttl now key m ≡ has key m
unfolding has
young-live ttl now lo key [] o h = refl
young-live ttl now lo key ((j, ts) ∷ m) (a, b, o) h = ground (arith, young-live ttl now ts key m o)

-- With ordered time stamps, the sweep that stops at the first young entry removes every old one.
pub has-drop_expired :
    (ttl now lo : ℕ) (key : Str) (m : Entries)
    → Ordered lo now m
    → has key (drop_expired ttl now m) ≡ live ttl now key m
unfolding has drop_expired
has-drop_expired ttl now lo key [] o = refl
has-drop_expired ttl now lo key ((j, ts) ∷ m) (a, b, o) =
    ground (arith, has-drop_expired ttl now ts key m o, young-live ttl now ts key m o)

-- An entry for `key` of time `ts` with at most `n` entries behind it.
abbrev pub Held : Str → ℕ → ℕ → Entries → Type 0
Held key ts n [] = ⊥
Held key ts n ((j, t) ∷ m) = ((j ≡ key) × (t ≡ ts) × (length m ≤ n)) ⊎ Held key ts n m

pub Held-append :
    (key : Str) (ts n : ℕ) (m : Entries) (x : Str × ℕ)
    → Held key ts n m
    → Held key ts (suc n) (m ++ x ∷ [])
Held-append key ts n [] x h = absurd h
Held-append key ts n ((j, t) ∷ m) x (inl (a, b, c)) =
    inl (a, b, omega (arith, length-append m (x ∷ [])))
Held-append key ts n ((j, t) ∷ m) x (inr h) = inr (Held-append key ts n m x h)

pub Held-snoc : (key : Str) (ts : ℕ) (m : Entries) → Held key ts 0 (m ++ (key, ts) ∷ [])
Held-snoc key ts [] = inl (refl, refl, omega arith)
Held-snoc key ts (x ∷ m) = inr (Held-snoc key ts m)

pub Held-has : (key : Str) (ts n : ℕ) (m : Entries) → Held key ts n m → has key m ≡ true
unfolding has
Held-has key ts n [] h = absurd h
Held-has key ts n ((j, t) ∷ m) (inl (a, b, c)) = ground (arith, str_eq_iff j key)
Held-has key ts n ((j, t) ∷ m) (inr h) = ground (arith, Held-has key ts n m h)

pub Held-weaken :
    (key : Str) (ts : ℕ) {n k : ℕ} (m : Entries) → n ≤ k → Held key ts n m → Held key ts k m
Held-weaken key ts [] le h = h
Held-weaken key ts ((j, t) ∷ m) le (inl (a, b, c)) = inl (a, b, omega arith)
Held-weaken key ts ((j, t) ∷ m) le (inr h) = inr (Held-weaken key ts m le h)

pub Held-drop :
    (key : Str) (ts n k : ℕ) (m : Entries)
    → k + suc n ≤ length m
    → Held key ts n m
    → Held key ts n (drop k m)
Held-drop key ts n zero m h x = x
Held-drop key ts n (suc k) [] h x = x
Held-drop key ts n (suc k) ((j, t) ∷ m) h (inl (a, b, c)) = absurd (omega arith)
Held-drop key ts n (suc k) ((j, t) ∷ m) h (inr x) = Held-drop key ts n k m (omega arith) x

Held-le-length : (key : Str) (ts n : ℕ) (m : Entries) → Held key ts n m → 0 < length m
Held-le-length key ts n [] h = absurd h
Held-le-length key ts n (x ∷ m) h = omega arith

pub Held-trim :
    (key : Str) (ts n room : ℕ) (m : Entries)
    → suc n ≤ room
    → Held key ts n m
    → Held key ts n (trim room m)
Held-trim key ts n room m h x = elim (Bool-cases (ltb room (length m))) [
  | inl over ↦ rw trim-drop (Held-drop key ts n (length m - room) m (ground arith) x)
  | inr fits ↦ rw (trim_of_le room m (ground arith)) x
]

pub Held-drop_expired :
    (key : Str) (ts n ttl now : ℕ) (m : Entries)
    → now - ts ≤ ttl
    → Held key ts n m
    → Held key ts n (drop_expired ttl now m)
unfolding drop_expired
Held-drop_expired key ts n ttl now [] h x = x
Held-drop_expired key ts n ttl now ((j, t) ∷ m) h (inl (a, b, c)) =
    let young : ltb ttl (now - t) ≡ false = ground arith in rw young (inl (a, b, c))
Held-drop_expired key ts n ttl now ((j, t) ∷ m) h (inr x) = elim (Bool-cases (ltb ttl (now - t))) [
  | inl old ↦ rw old (Held-drop_expired key ts n ttl now m h x)
  | inr young ↦ rw young (inr x)
]

-- A sweep keeps a young entry that has few entries behind it.
pub Held-cleanup :
    (key : Str) (ts n ttl room now : ℕ) (m : Entries)
    → now - ts ≤ ttl
    → suc n ≤ room
    → Held key ts n m
    → Held key ts n (cleanup ttl room now m)
unfolding cleanup
Held-cleanup key ts n ttl room now m h k x =
    Held-trim key ts n room _ k (Held-drop_expired key ts n ttl now m h x)
