-- ===== src/NonceTracker/Tests.antt =====
-- Tests and instances for `NonceTracker` of src/core/secureChannel.js.
use metrice.Base.{true, false, List, [], ◌∷◌, ◌≡◌, refl, arith, str_eq, codes}
use metrice.JsMap
use metrice.NonceTracker.Replay.{IsValid, Call, run, replay_refused}
use metrice.NonceTracker.{NonceTracker, track}
use metrice.TtlMap

abbrev started : NonceTracker
started = record { ttl_ms = 60; max_capacity = 2; nonces = [] }

abbrev once : NonceTracker
once = (track 100 (codes "n1") (codes "ip") started).0

program : Unit {0}
unfolding track JsMap.has JsMap.set TtlMap.cleanup TtlMap.drop_expired TtlMap.trim TtlMap.evict
    str_eq
program = tt

accepted_once : (track 100 (codes "n1") (codes "ip") started).1 ≡ true
unfolding program
accepted_once = refl

accepted_again_later : (track 161 (codes "n1") (codes "ip") once).1 ≡ true
unfolding program
accepted_again_later = refl

started-IsValid : IsValid 0 started
started-IsValid = omega arith

abbrev others : List Call
others = record { now = 120; nonce = codes "n2"; ip = codes "ip" } ∷ []

replay_refused_example : (track 160 (codes "n1") (codes "ip") (run others once)).1 ≡ false
replay_refused_example =
    replay_refused 100 (codes "n1") (codes "ip") started accepted_once others (omega arith)
      (omega arith) 160 (omega arith)
