-- ===== src/NonceTracker/Replay.antt =====
-- What the replay guard of src/core/secureChannel.js accepts and refuses.
use metrice.Base.{
  ℕ, suc, ◌+◌, ◌-◌, ◌≤◌, ◌<◌, Bool, true, false, not, List, [], ◌∷◌, ◌++◌, ◌≡◌, ◌∙◌, inl, inr, refl,
  arith, Str, str_eq_inst, ltb, length, All, Bool-cases,
}
use metrice.JsMap
use metrice.JsMap.Laws.{set_fresh}
use metrice.NonceTracker.{NonceTracker, cleanup, nonce_key, enforce_capacity, track}
use metrice.TtlMap
use metrice.TtlMap.Laws.{
  Ordered, Ordered-later, Ordered-append, Ordered-cleanup, Ordered-trim, live, has-drop_expired,
  Held, Held-append, Held-weaken, Held-snoc, Held-has, Held-cleanup, Held-trim, length-cleanup-le,
  length-trim-le, cleanup_of_le,
}

-- The state that calls at times up to `now` reach.
pub record IsValid (now : ℕ) (t : NonceTracker) : Type 0 where
  pub ordered : Ordered 0 now t.nonces
  pub bounded : length t.nonces ≤ t.max_capacity

module _ (now : ℕ) (t : NonceTracker) where
  length-enforce_capacity : length (enforce_capacity now t).nonces ≤ t.max_capacity
  unfolding enforce_capacity
  length-enforce_capacity =
      ground
        (arith, length-trim-le t.max_capacity (TtlMap.cleanup t.ttl_ms t.max_capacity now t.nonces))

  max_capacity-enforce_capacity : (enforce_capacity now t).max_capacity ≡ t.max_capacity
  unfolding enforce_capacity
  max_capacity-enforce_capacity = ground arith

  ttl_ms-enforce_capacity : (enforce_capacity now t).ttl_ms ≡ t.ttl_ms
  unfolding enforce_capacity
  ttl_ms-enforce_capacity = ground arith

  Ordered-enforce_capacity : Ordered 0 now t.nonces → Ordered 0 now (enforce_capacity now t).nonces
  unfolding enforce_capacity
  Ordered-enforce_capacity o = elim (Bool-cases (ltb t.max_capacity (length t.nonces))) [
    | inl over ↦
        rw over
          (Ordered-trim _ 0 now _ (Ordered-cleanup t.ttl_ms t.max_capacity now 0 now t.nonces o))
    | inr fits ↦ rw fits o
  ]

  Held-enforce_capacity :
      (key : Str) (ts n : ℕ)
      → now - ts ≤ t.ttl_ms
      → suc n ≤ t.max_capacity
      → Held key ts n t.nonces
      → Held key ts n (enforce_capacity now t).nonces
  unfolding enforce_capacity
  Held-enforce_capacity key ts n young few held =
      elim (Bool-cases (ltb t.max_capacity (length t.nonces))) [
        | inl over ↦ rw over (
            Held-trim key ts n t.max_capacity _ few
              (Held-cleanup key ts n t.ttl_ms t.max_capacity now t.nonces young few held))
        | inr fits ↦ rw fits held
      ]

-- The two outcomes of `track`, in terms of the swept map.
module _ (now : ℕ) (nonce ip : Str) (t : NonceTracker) where
  abbrev appended : NonceTracker
  appended = record t {
    nonces = TtlMap.cleanup t.ttl_ms t.max_capacity now t.nonces ++ (nonce_key nonce ip, now) ∷ [];
  }

  abbrev swept_has : Bool
  swept_has = JsMap.has (nonce_key nonce ip) (TtlMap.cleanup t.ttl_ms t.max_capacity now t.nonces)

  track_replay : swept_has ≡ true → track now nonce ip t ≡ (cleanup now t, false)
  unfolding track
  track_replay h = rw h

  track_fresh : swept_has ≡ false → track now nonce ip t ≡ (enforce_capacity now appended, true)
  unfolding track
  track_fresh h = rw (h, set_fresh _ now _ h)

-- `track` keeps the time stamps in order and the map within its capacity, if its clock does not run
-- back.
pub track-IsValid :
    {before now : ℕ} (nonce ip : Str) {t : NonceTracker}
    → before ≤ now
    → IsValid before t
    → IsValid now (track now nonce ip t).0
unfolding cleanup
track-IsValid {now = now} nonce ip {t} later v =
    let o : Ordered 0 now t.nonces = Ordered-later 0 t.nonces later v.ordered in
    let swept : Ordered 0 now (TtlMap.cleanup t.ttl_ms t.max_capacity now t.nonces) =
      Ordered-cleanup t.ttl_ms t.max_capacity now 0 now t.nonces o in
    elim (Bool-cases (swept_has now nonce ip t)) [
      | inl seen ↦ rw (track_replay now nonce ip t seen) (record {
        ordered = swept;
        bounded = length-cleanup-le t.ttl_ms t.max_capacity now t.nonces;
      })
      | inr new ↦ rw (track_fresh now nonce ip t new) (record {
        ordered = Ordered-enforce_capacity now _ (Ordered-append 0 now _ _ (omega arith) swept);
        bounded =
            rw max_capacity-enforce_capacity
              (length-enforce_capacity now (appended now nonce ip t));
      })
    ]

-- The verdict of `track` on a valid map is exact: a nonce is refused when, and only when, some entry for it is at most
-- `ttl_ms` old.
pub track_exact :
    {before now : ℕ} (nonce ip : Str) {t : NonceTracker}
    → before ≤ now
    → IsValid before t
    → (track now nonce ip t).1 ≡ not (live t.ttl_ms now (nonce_key nonce ip) t.nonces)
track_exact {now = now} nonce ip {t} later v = elim (Bool-cases (swept_has now nonce ip t)) [
  | inl seen ↦ rw (track_replay now nonce ip t seen, ← swept_exact) (cc seen)
  | inr new ↦ rw (track_fresh now nonce ip t new, ← swept_exact) (cc new)
]
  where
    swept_exact : swept_has now nonce ip t ≡ live t.ttl_ms now (nonce_key nonce ip) t.nonces
    swept_exact = rw (cleanup_of_le t.ttl_ms t.max_capacity now t.nonces v.bounded) (
        has-drop_expired t.ttl_ms now 0 (nonce_key nonce ip) t.nonces
          (Ordered-later 0 t.nonces later v.ordered))

-- A call of `track`, with the time at which it is made.
pub record Call : Type 0 where
  pub now : ℕ
  pub nonce : Str
  pub ip : Str

abbrev pub run : List Call → NonceTracker → NonceTracker
run [] t = t
run (c ∷ calls) t = run calls (track c.now c.nonce c.ip t).0

-- The tracker holds the key with at most `n` newer entries, and its settings are as given.
record Remembers (ttl room : ℕ) (key : Str) (ts n : ℕ) (t : NonceTracker) : Type 0 where
  held : Held key ts n t.nonces
  ttl_eq : t.ttl_ms ≡ ttl
  room_eq : t.max_capacity ≡ room

module _ (ttl room : ℕ) (key : Str) (ts : ℕ) where
  Remembers-track :
      (c : Call) (n : ℕ) {t : NonceTracker}
      → c.now ≤ ts + ttl
      → suc (suc n) ≤ room
      → Remembers ttl room key ts n t
      → Remembers ttl room key ts (suc n) (track c.now c.nonce c.ip t).0
  unfolding cleanup
  Remembers-track c n {t} young few r = elim (Bool-cases (swept_has c.now c.nonce c.ip t)) [
    | inl seen ↦ rw (track_replay c.now c.nonce c.ip t seen) (record {
      held = Held-weaken key ts {n = n} _ (omega arith) swept;
      ttl_eq = r.ttl_eq;
      room_eq = r.room_eq;
    })
    | inr new ↦ rw (track_fresh c.now c.nonce c.ip t new) (record {
      held =
          Held-enforce_capacity c.now (appended c.now c.nonce c.ip t) key ts (suc n) (omega arith)
            (omega arith) (Held-append key ts n _ _ swept);
      ttl_eq = ttl_ms-enforce_capacity c.now (appended c.now c.nonce c.ip t) ∙ r.ttl_eq;
      room_eq = max_capacity-enforce_capacity c.now (appended c.now c.nonce c.ip t) ∙ r.room_eq;
    })
  ]
    where
      swept : Held key ts n (TtlMap.cleanup t.ttl_ms t.max_capacity c.now t.nonces)
      swept =
          Held-cleanup key ts n t.ttl_ms t.max_capacity c.now t.nonces (omega arith) (omega arith)
            r.held

  Remembers-run :
      (calls : List Call) (n j : ℕ) {t : NonceTracker}
      → n + length calls ≡ j
      → All (λ c. c.now ≤ ts + ttl) calls
      → j < room
      → Remembers ttl room key ts n t
      → Remembers ttl room key ts j (run calls t)
  Remembers-run [] n j e young few r = let e' : n ≡ j = omega arith in rw e' at r
  Remembers-run (c ∷ calls) n j e (y, young) few r =
      Remembers-run calls (suc n) j (omega arith) young few (Remembers-track c n y (omega arith) r)

  track-Remembers :
      (now n : ℕ) (nonce ip : Str) {t : NonceTracker}
      → nonce_key nonce ip ≡ key
      → now ≤ ts + ttl
      → suc n ≤ room
      → Remembers ttl room key ts n t
      → (track now nonce ip t).1 ≡ false
  track-Remembers now n nonce ip {t} e young few r = rw (
      track_replay now nonce ip t (
        rw e (
          Held-has key ts n _ (
            Held-cleanup key ts n t.ttl_ms t.max_capacity now t.nonces (omega arith) (omega arith)
              r.held))))

-- A nonce that was accepted at `now` is refused on every later use within `ttl_ms`, as long as
-- fewer than `max_capacity` calls were made in between, whatever their nonces and order.
pub replay_refused :
    (now : ℕ) (nonce ip : Str) (t : NonceTracker)
    → (track now nonce ip t).1 ≡ true
    → (calls : List Call) → All (λ c. c.now ≤ now + t.ttl_ms) calls
    → length calls < t.max_capacity
    → (later : ℕ) → later ≤ now + t.ttl_ms
    → (track later nonce ip (run calls (track now nonce ip t).0)).1 ≡ false
replay_refused now nonce ip t accepted calls young few later soon =
    elim (Bool-cases (swept_has now nonce ip t)) [
      | inl seen ↦ absurd (cc (accepted, track_replay now nonce ip t seen))
      | inr new ↦ rw (track_fresh now nonce ip t new) (
          track-Remembers t.ttl_ms t.max_capacity key now later (length calls) nonce ip refl soon
            (omega arith)
            (Remembers-run t.ttl_ms t.max_capacity key now calls 0 (length calls) (omega arith)
              young few
              (record {
                held =
                    Held-enforce_capacity now (appended now nonce ip t) key now 0 (omega arith)
                      (omega arith) (Held-snoc key now _);
                ttl_eq = ttl_ms-enforce_capacity now (appended now nonce ip t);
                room_eq = max_capacity-enforce_capacity now (appended now nonce ip t);
              })))
    ]
  where
    key : Str
    key = nonce_key nonce ip
