-- ===== src/AutoNat/Slots.antt =====
-- The slots of src/core/autoNat.js: none is lost, and no more than five are held.
use metrice.Base.{
  ℕ, zero, suc, ◌≤◌, ◌<◌, Bool, true, false, some, List, [], ◌∷◌, ◌++◌, ◌≡◌, refl, ◌∙◌, arith, inl,
  inr, if◌then◌else◌, Option-cases,
}
use metrice.Base.Number.{port_of, port_of_bounds}
use metrice.AutoNat.{
  Service, new_service, Dial, Request, verified_ip, is_local, note_dialback, open_dial, admit,
  handle_dialback_request, free, is_held, release_slot,
}

abbrev pub held : List Bool → ℕ
held [] = 0
held (released ∷ slots) = if released then held slots else suc (held slots)

-- The counter counts the slots that are held, and is within its limit.
abbrev pub IsValid : Service → Type 0
IsValid s = (s.active_dialbacks ≡ held s.slots) × (s.active_dialbacks ≤ s.max_concurrent_dialbacks)

held-append : (slots : List Bool) → held (slots ++ false ∷ []) ≡ suc (held slots)
held-append [] = refl
held-append (released ∷ slots) = ground (arith, held-append slots)

held-free :
    (i : ℕ) (slots : List Bool) → is_held i slots ≡ true → suc (held (free i slots)) ≡ held slots
unfolding is_held free
held-free i [] h = cc
held-free zero (released ∷ slots) h = ground arith
held-free (suc i) (released ∷ slots) h = ground (arith, held-free i slots)

admit-IsValid :
    (is_testing : Bool) (r : Request) (port : ℕ) (s : Service)
    → IsValid s
    → IsValid (admit is_testing r port s).0
unfolding admit open_dial note_dialback
admit-IsValid is_testing r port s (same, le) = ground (arith, held-append s.slots)

pub handle_dialback_request-IsValid :
    (is_testing : Bool) (r : Request) (s : Service)
    → IsValid s
    → IsValid (handle_dialback_request is_testing r s).0
unfolding handle_dialback_request
handle_dialback_request-IsValid is_testing r s v = elim (Option-cases (port_of r.target_port)) [
  | inl bad ↦ ground (arith, v)
  | inr (port, good) ↦ ground (arith, v, good, admit-IsValid is_testing r port s v)
]

pub release_slot-IsValid : (i : ℕ) (s : Service) → IsValid s → IsValid (release_slot i s)
unfolding release_slot
release_slot-IsValid i s (same, le) = ground (arith, held-free i s.slots)

-- A request arrives, or a socket that was opened connects, fails, closes or times out.
pub data Call : Type 0 where
  ask : Bool → Request → Call
  settle : ℕ → Call

abbrev pub apply : Call → Service → Service
apply (ask is_testing r) s = (handle_dialback_request is_testing r s).0
apply (settle i) s = release_slot i s

abbrev pub run : List Call → Service → Service
run [] s = s
run (call ∷ calls) s = run calls (apply call s)

run-IsValid : (calls : List Call) (s : Service) → IsValid s → IsValid (run calls s)
run-IsValid [] s v = v
run-IsValid (ask is_testing r ∷ calls) s v =
    run-IsValid calls (apply (ask is_testing r) s)
      (handle_dialback_request-IsValid is_testing r s v)
run-IsValid (settle i ∷ calls) s v =
    run-IsValid calls (release_slot i s) (release_slot-IsValid i s v)

-- No call changes the limit.
admit_limit :
    (is_testing : Bool) (r : Request) (port : ℕ) (s : Service)
    → (admit is_testing r port s).0.max_concurrent_dialbacks ≡ s.max_concurrent_dialbacks
unfolding admit open_dial note_dialback
admit_limit is_testing r port s = ground arith

apply_limit :
    (call : Call) (s : Service)
    → (apply call s).max_concurrent_dialbacks ≡ s.max_concurrent_dialbacks
unfolding handle_dialback_request release_slot
apply_limit (ask is_testing r) s = elim (Option-cases (port_of r.target_port)) [
  | inl bad ↦ ground arith
  | inr (port, good) ↦ ground (arith, good, admit_limit is_testing r port s)
]
apply_limit (settle i) s = ground arith

run_limit :
    (calls : List Call) (s : Service)
    → (run calls s).max_concurrent_dialbacks ≡ s.max_concurrent_dialbacks
run_limit [] s = refl
run_limit (call ∷ calls) s = run_limit calls (apply call s) ∙ apply_limit call s

-- Whatever requests arrive and however often and in whatever order the sockets report, the counter of
-- the service is the number of sockets whose slot is held, and that is at most five.
pub slots_bounded :
    (calls : List Call)
    → ((run calls new_service).active_dialbacks ≡ held (run calls new_service).slots)
      × ((run calls new_service).active_dialbacks ≤ 5)
slots_bounded calls =
    let v = run-IsValid calls new_service (refl, omega arith) in
    (v.0, omega (arith, v.1, run_limit calls new_service))

-- Outside of tests, the service connects only to the address that the request came from, only if that
-- address is none of the local ones, and only to a port from 1 to 65535.
pub dial_target :
    (r : Request) (s : Service) (d : Dial)
    → (handle_dialback_request false r s).1 ≡ some d
    → (d.host ≡ verified_ip r.remote_address)
      × (is_local d.host ≡ false)
      × (0 < d.port)
      × (d.port ≤ 65535)
unfolding handle_dialback_request admit open_dial
dial_target r s d dialed = elim (Option-cases (port_of r.target_port)) [
  | inl bad ↦ ground (arith, dialed, bad)
  | inr (port, good) ↦ ground (arith, dialed, good, port_of_bounds r.target_port port good)
]
