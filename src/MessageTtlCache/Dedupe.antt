-- ===== src/MessageTtlCache/Dedupe.antt =====
-- What the cache of message identifiers in src/core/secureChannel.js promises.
use metrice.Base.{
  leb, ℕ, zero, suc, ◌-◌, ◌≤◌, ◌<◌, false, some, List, [], ◌∷◌, ◌++◌, ◌≡◌, inl, inr, refl, arith,
  Str, str_eq_inst, str_eq_iff, str_eq_refl, length, length-append, Bool-cases, drop,
}
use metrice.JsMap
use metrice.JsMap.Laws.{set_fresh, get-set, length-set}
use metrice.MessageTtlCache.{MessageTtlCache, has, add}
use metrice.TtlMap
use metrice.TtlMap.Laws.{length-cleanup-le, length-trim-le, trim_of_le, trim-drop}

-- The cache never holds more than `max_capacity` identifiers after an `add`.
pub length-add-le :
    (now : ℕ) (id : Str) (c : MessageTtlCache) → length (add now id c).cache ≤ c.max_capacity
unfolding add
length-add-le now id c = length-trim-le c.max_capacity _

get-append_fresh :
    (id : Str) (ts : ℕ) (m : List (Str × ℕ))
    → JsMap.has id m ≡ false
    → JsMap.get id (m ++ (id, ts) ∷ []) ≡ some ts
unfolding JsMap.has JsMap.get
get-append_fresh id ts [] h = ground (arith, str_eq_iff id id)
get-append_fresh id ts ((j, t) ∷ m) h = ground (arith, get-append_fresh id ts m)

-- Dropping older entries does not hide the one at the end.
get-drop_last :
    (id : Str) (ts n : ℕ) (m : List (Str × ℕ))
    → JsMap.has id m ≡ false
    → n ≤ length m
    → JsMap.get id (drop n (m ++ (id, ts) ∷ [])) ≡ some ts
unfolding JsMap.has
get-drop_last id ts zero m h k = get-append_fresh id ts m h
get-drop_last id ts (suc n) [] h k = absurd (omega arith)
get-drop_last id ts (suc n) ((j, t) ∷ m) h k = get-drop_last id ts n m (ground arith) (omega arith)

ttl_ms-add : (now : ℕ) (id : Str) (c : MessageTtlCache) → (add now id c).ttl_ms ≡ c.ttl_ms
unfolding add
ttl_ms-add now id c = refl

get-add :
    (now : ℕ) (id : Str) (c : MessageTtlCache)
    → 0 < c.max_capacity
    → JsMap.get id (add now id c).cache ≡ some now
unfolding add
get-add now id c room = elim (Bool-cases (JsMap.has id swept)) [
  | inl old ↦
      let stays : length (JsMap.set id now swept) ≡ length swept =
        ground (arith, length-set id now swept) in
      rw (
        trim_of_le c.max_capacity (JsMap.set id now swept) (omega (arith, bounded)),
        get-set,
        str_eq_refl,
      )
  | inr new ↦
      rw (set_fresh id now swept new, trim-drop)
        (get-drop_last id now _ swept new (omega (arith, length-append swept ((id, now) ∷ []))))
]
  where
    swept : List (Str × ℕ)
    swept = TtlMap.cleanup c.ttl_ms c.max_capacity now c.cache

    bounded : length swept ≤ c.max_capacity
    bounded = length-cleanup-le c.ttl_ms c.max_capacity now c.cache

-- An identifier that was added at `now` is found for exactly `ttl_ms` from then on, at capacity 1 or
-- more and at a time after 0.
pub has-add :
    (now later : ℕ) (id : Str) (c : MessageTtlCache)
    → 0 < now
    → 0 < c.max_capacity
    → (has later id (add now id c)).1 ≡ leb (later - now) c.ttl_ms
unfolding has
has-add now later id c positive room = ground (arith, get-add now id c room, ttl_ms-add now id c)
