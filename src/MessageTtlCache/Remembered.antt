-- ===== src/MessageTtlCache/Remembered.antt =====
-- How long `MessageTtlCache` of src/core/secureChannel.js remembers an identifier, whatever others come in between.
use metrice.Base.{
  ℕ, zero, suc, ◌+◌, ◌-◌, ◌≤◌, ◌<◌, true, false, List, [], ◌∷◌, ◌≡◌, refl, ◌∙◌, arith, Str, str_eq,
  str_eq_inst, ltb, ◌==◌, if-cases, if-false, some-is, some-cases, drop, length,
}
use metrice.JsMap
use metrice.JsMap.Laws.{set_fresh, get-eq_none}
use metrice.MessageTtlCache.{MessageTtlCache, has, add}
use metrice.TtlMap
use metrice.TtlMap.Laws.{trim-drop}
use metrice.TtlMap.Found.{
  Found, Found-get, Found-weaken, Found-snoc, Found-set, Found-delete, Found-trim, Found-cleanup,
}

-- The cache holds the identifier with at most `n` newer entries, and its settings are as given.
pub record Remembers (ttl room : ℕ) (id : Str) (ts n : ℕ) (c : MessageTtlCache) : Type 0 where
  pub found : Found id ts n c.cache
  pub ttl_eq : c.ttl_ms ≡ ttl
  pub room_eq : c.max_capacity ≡ room

pub Remembers-weaken :
    {ttl room ts : ℕ} {id : Str} {n k : ℕ} (c : MessageTtlCache)
    → n ≤ k
    → Remembers ttl room id ts n c
    → Remembers ttl room id ts k c
Remembers-weaken {ts = ts} {id = id} c le r = record {
  found = Found-weaken id ts c.cache le r.found;
  ttl_eq = r.ttl_eq;
  room_eq = r.room_eq;
}

module _ (ttl room : ℕ) (id : Str) (ts n : ℕ) where
  -- A young entry of a time after 0 is found, and the look-up changes nothing.
  pub has-Remembers :
      (now : ℕ) (c : MessageTtlCache)
      → 0 < ts
      → now ≤ ts + ttl
      → Remembers ttl room id ts n c
      → has now id c ≡ (c, true)
  unfolding has
  has-Remembers now c positive young r =
      let nonzero : (ts == 0) ≡ false = ground arith in
      let fresh : ltb c.ttl_ms (now - ts) ≡ false = ground (arith, r.ttl_eq) in
      some-is _ _ (Found-get id ts n c.cache r.found) ∙ (if-false _ nonzero ∙ if-false _ fresh)

  -- A look-up of another identifier leaves it.
  pub Remembers-has :
      (now : ℕ) (other : Str) (c : MessageTtlCache)
      → str_eq id other ≡ false
      → Remembers ttl room id ts n c
      → Remembers ttl room id ts n (has now other c).0
  unfolding has
  Remembers-has now other c apart r =
      some-cases (λ (q : MessageTtlCache × _). Remembers ttl room id ts n q.0)
        (JsMap.get other c.cache) (λ _. r)
        (λ t _.
          if-cases (λ (q : MessageTtlCache × _). Remembers ttl room id ts n q.0) (t == 0) (λ _. r)
            (λ _.
              if-cases (λ (q : MessageTtlCache × _). Remembers ttl room id ts n q.0)
                (ltb c.ttl_ms (now - t))
                (λ _. record {
                  found = Found-delete id other ts n c.cache apart r.found;
                  ttl_eq = r.ttl_eq;
                  room_eq = r.room_eq;
                })
                (λ _. r)))

  -- Adding another one puts at most one entry behind it.
  pub Remembers-add :
      (now : ℕ) (other : Str) (c : MessageTtlCache)
      → str_eq id other ≡ false
      → now ≤ ts + ttl
      → suc (suc n) ≤ room
      → Remembers ttl room id ts n c
      → Remembers ttl room id ts (suc n) (add now other c)
  unfolding add
  Remembers-add now other c apart young few r =
      let swept : Found id ts n (TtlMap.cleanup c.ttl_ms c.max_capacity now c.cache) =
        Found-cleanup id ts n c.ttl_ms c.max_capacity now c.cache (omega (arith, r.ttl_eq))
          (omega (arith, r.room_eq)) r.found in
      record {
        found =
            Found-trim id ts (suc n) c.max_capacity _ (omega (arith, r.room_eq))
              (Found-set id other ts now n _ apart swept);
        ttl_eq = r.ttl_eq;
        room_eq = r.room_eq;
      }

has-drop_expired_none :
    (id : Str) (ttl now : ℕ) (m : List (Str × ℕ))
    → JsMap.has id m ≡ false
    → JsMap.has id (TtlMap.drop_expired ttl now m) ≡ false
unfolding JsMap.has TtlMap.drop_expired
has-drop_expired_none id ttl now [] h = refl
has-drop_expired_none id ttl now ((j, t) ∷ m) h = ground (arith, has-drop_expired_none id ttl now m)

-- A look-up of an identifier that the cache does not hold
pub has_absent :
    (now : ℕ) (id : Str) (c : MessageTtlCache)
    → JsMap.has id c.cache ≡ false
    → has now id c ≡ (c, false)
unfolding has
has_absent now id c absent = ground (arith, get-eq_none id c.cache)

has-drop_none :
    (id : Str) (n : ℕ) (m : List (Str × ℕ))
    → JsMap.has id m ≡ false
    → JsMap.has id (drop n m) ≡ false
unfolding JsMap.has
has-drop_none id zero m h = h
has-drop_none id (suc n) [] h = refl
has-drop_none id (suc n) ((j, t) ∷ m) h = has-drop_none id n m (ground arith)

-- An identifier that the cache does not hold is the newest one behind `add`.
pub add-Remembers :
    (now : ℕ) (id : Str) (c : MessageTtlCache)
    → JsMap.has id c.cache ≡ false
    → 0 < c.max_capacity
    → Remembers c.ttl_ms c.max_capacity id now 0 (add now id c)
unfolding add TtlMap.cleanup
add-Remembers now id c absent room =
    let young = TtlMap.drop_expired c.ttl_ms now c.cache in
    let swept = TtlMap.cleanup c.ttl_ms c.max_capacity now c.cache in
    let gone : JsMap.has id swept ≡ false = rw (trim-drop c.max_capacity young) (
      has-drop_none id (length young - c.max_capacity) young
        (has-drop_expired_none id c.ttl_ms now c.cache absent)) in
    let written : Found id now 0 (JsMap.set id now swept) =
      rw (set_fresh id now swept gone) (Found-snoc id now swept gone) in
    record {
      found = Found-trim id now 0 c.max_capacity _ (omega arith) written;
      ttl_eq = refl;
      room_eq = refl;
    }
