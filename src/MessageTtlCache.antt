-- ===== src/MessageTtlCache.antt =====
-- `MessageTtlCache` of src/core/secureChannel.js: the identifiers of messages that were handled.
pub mod Dedupe
pub mod Remembered
mod Tests
use metrice.Base.{
  ℕ, ◌-◌, Bool, true, false, Option, none, some, List, [], Str, str_eq_inst, ltb, ◌==◌,
  if◌then◌else◌, ◌||◌,
}
use metrice.JsMap
use metrice.TtlMap
use metrice.TtlMap.{trim}

pub record MessageTtlCache : Type 0 where
  pub ttl_ms : ℕ
  pub max_capacity : ℕ
  pub cache : List (Str × ℕ)

-- `new MessageTtlCache(ttlMs, maxCapacity)`
unfoldable pub init : ℕ → ℕ → MessageTtlCache
init ttl_ms max_capacity = record { ttl_ms = ttl_ms; max_capacity = max_capacity; cache = [] }

unfoldable pub cleanup : ℕ → MessageTtlCache → MessageTtlCache
cleanup now c = record c { cache = TtlMap.cleanup c.ttl_ms c.max_capacity now c.cache }

-- `has(id)` at the time `now`. A missing entry and one of the time 0 are falsy.
unfoldable pub has : ℕ → Str → MessageTtlCache → MessageTtlCache × Bool
has now id c = elim (JsMap.get id c.cache) [
  | none ↦ (c, false)
  | some ts ↦
      if ts == 0
      then (c, false)
      else if ltb c.ttl_ms (now - ts)
      then (record c { cache = JsMap.delete id c.cache }, false)
      else (c, true)
]

-- `add(id)` at the time `now`
unfoldable pub add : ℕ → Str → MessageTtlCache → MessageTtlCache
unfolding cleanup
add now id c =
    let swept = cleanup now c in
    record swept { cache = trim swept.max_capacity (JsMap.set id now swept.cache) }
