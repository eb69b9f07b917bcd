-- ===== src/TtlMap.antt =====
-- The two loops that `NonceTracker` and `MessageTtlCache` of src/core/secureChannel.js share: maps
-- from keys to time stamps, swept from the oldest entry on.
pub mod Laws
pub mod Found
use metrice.Base.{ℕ, suc, ◌-◌, List, [], ◌∷◌, Str, ltb, leb, if◌then◌else◌, length}

-- `for (const [key, ts] of …) if (now - ts > ttl) delete(key); else break;`
-- A time stamp ahead of the clock has a negative age in JavaScript and the age 0 here: neither is
-- over the limit.
unfoldable pub drop_expired : ℕ → ℕ → List (Str × ℕ) → List (Str × ℕ)
drop_expired ttl now [] = []
drop_expired ttl now ((key, ts) ∷ m) =
    let rest = drop_expired ttl now m in if ltb ttl (now - ts) then rest else (key, ts) ∷ m

-- `for (const key of keys()) { delete(key); if (++removed >= toRemove) break; }`
unfoldable pub evict : ℕ → ℕ → List (Str × ℕ) → List (Str × ℕ)
evict removed to_remove [] = []
evict removed to_remove (entry ∷ m) =
    let rest = evict (suc removed) to_remove m in if leb to_remove (suc removed) then m else rest

-- `if (size > maxCapacity) { … }`
unfoldable pub trim : ℕ → List (Str × ℕ) → List (Str × ℕ)
unfolding evict
trim max_capacity m = if ltb max_capacity (length m) then evict 0 (length m - max_capacity) m else m

-- `cleanup(now)`
unfoldable pub cleanup : ℕ → ℕ → ℕ → List (Str × ℕ) → List (Str × ℕ)
cleanup ttl max_capacity now m = trim max_capacity (drop_expired ttl now m)
