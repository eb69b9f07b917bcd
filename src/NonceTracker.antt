-- ===== src/NonceTracker.antt =====
-- `NonceTracker` of src/core/secureChannel.js: the replay guard of the handshakes and binds.
pub mod Replay
mod Tests
use metrice.Base.{
  ℕ, ◌≤◌, Bool, true, false, List, [], ◌∷◌, ◌++◌, Str, str_eq_inst, codes, ltb, if◌then◌else◌,
  length,
}
use metrice.JsMap
use metrice.TtlMap
use metrice.TtlMap.{drop_expired, trim}

pub record NonceTracker : Type 0 where
  pub ttl_ms : ℕ
  pub max_capacity : ℕ
  -- in insertion order, with the time of insertion
  pub nonces : List (Str × ℕ)

-- `new NonceTracker(ttlMs, maxCapacity)`
unfoldable pub init : ℕ → ℕ → NonceTracker
init ttl_ms max_capacity = record { ttl_ms = ttl_ms; max_capacity = max_capacity; nonces = [] }

unfoldable pub cleanup : ℕ → NonceTracker → NonceTracker
cleanup now t = record t { nonces = TtlMap.cleanup t.ttl_ms t.max_capacity now t.nonces }

-- `${nonce}_${remoteIp}`
unfoldable pub nonce_key : Str → Str → Str
nonce_key nonce remote_ip = nonce ++ codes "_" ++ remote_ip

-- The tail of `track` behind `nonces.set(key, now)`.
unfoldable pub enforce_capacity : ℕ → NonceTracker → NonceTracker
unfolding cleanup
enforce_capacity now t =
    if ltb t.max_capacity (length t.nonces)
    then (let swept = cleanup now t in
        record swept { nonces = trim swept.max_capacity swept.nonces })
    else t

-- `track(nonce, remoteIp)` at the time `now`; false is a replay.
unfoldable pub track : ℕ → Str → Str → NonceTracker → NonceTracker × Bool
unfolding cleanup nonce_key enforce_capacity
track now nonce remote_ip t =
    let swept = cleanup now t in
    let key = nonce_key nonce remote_ip in
    if JsMap.has key swept.nonces
    then (swept, false)
    else (enforce_capacity now (record swept { nonces = JsMap.set key now swept.nonces }), true)
