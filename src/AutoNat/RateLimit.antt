-- ===== src/AutoNat/RateLimit.antt =====
-- The rate limit of src/core/autoNat.js, per address of the requester.
use metrice.Base.{
  ℕ, ◌-◌, ◌≤◌, ◌<◌, false, none, some, List, [], ◌∷◌, ◌≡◌, arith, inl, inr, Str, str_eq, str_eq_iff,
  str_eq_inst, Bool-cases, Option-cases, All,
}
use metrice.Base.Number.{port_of}
use metrice.JsMap
use metrice.JsMap.Laws.{get-set}
use metrice.TtlMap.{drop_expired}
use metrice.AutoNat.Slots.{Call, ask, settle, apply, run}
use metrice.AutoNat.{
  Service, Dial, Request, verified_ip, is_limited, last_dialback, note_dialback, open_dial, admit,
  handle_dialback_request, release_slot,
}

-- A young entry is not swept.
get-drop_expired :
    (key : Str) (ttl now ts : ℕ) (m : List (Str × ℕ))
    → JsMap.get key m ≡ some ts
    → now - ts ≤ ttl
    → JsMap.get key (drop_expired ttl now m) ≡ some ts
unfolding JsMap.get drop_expired
get-drop_expired key ttl now ts [] h young = h
get-drop_expired key ttl now ts ((k, t) ∷ m) h young =
    ground (arith, get-drop_expired key ttl now ts m)

-- The service knows that it dialed `ip` at the time `ts`.
abbrev Noted : Str → ℕ → Service → Type 0
Noted ip ts s = JsMap.get ip s.dialback_rate_limit ≡ some ts

note_dialback-Noted : (now : ℕ) (ip : Str) (s : Service) → Noted ip now (note_dialback now ip s)
unfolding note_dialback
note_dialback-Noted now ip s =
    let set_it : JsMap.get ip (JsMap.set ip now s.dialback_rate_limit) ≡ some now =
      ground (arith, get-set ip ip now s.dialback_rate_limit, str_eq_iff ip ip) in
    ground (
      arith,
      set_it,
      get-drop_expired ip 60000 now now (JsMap.set ip now s.dialback_rate_limit) set_it
          (omega arith),
    )

note_dialback_other :
    (now ts : ℕ) (ip other : Str) (s : Service)
    → str_eq other ip ≡ false
    → now - ts ≤ 60000
    → Noted ip ts s
    → Noted ip ts (note_dialback now other s)
unfolding note_dialback
note_dialback_other now ts ip other s apart young noted =
    let kept : JsMap.get ip (JsMap.set other now s.dialback_rate_limit) ≡ some ts =
      ground (arith, noted, get-set other ip now s.dialback_rate_limit) in
    ground (
      arith,
      kept,
      get-drop_expired ip 60000 now ts (JsMap.set other now s.dialback_rate_limit) kept young,
    )

-- Within ten seconds, another request from the address is refused.
admit_limited :
    (r : Request) (port ts : ℕ) (s : Service)
    → Noted (verified_ip r.remote_address) ts s
    → r.now - ts < 10000
    → admit false r port s ≡ (s, none)
unfolding admit is_limited last_dialback
admit_limited r port ts s noted soon = ground (arith, noted)

admit-Noted :
    (r : Request) (port ts : ℕ) (ip : Str) (s : Service)
    → r.now - ts < 10000
    → Noted ip ts s
    → Noted ip ts (admit false r port s).0
admit-Noted r port ts ip s soon noted =
    elim (Bool-cases (str_eq (verified_ip r.remote_address) ip)) [
      | inl same ↦
          let own : Noted (verified_ip r.remote_address) ts s =
            rw ((str_eq_iff (verified_ip r.remote_address) ip).0 same) noted in
          rw (admit_limited r port ts s own soon) noted
      | inr other ↦
          unfold admit open_dial in
          ground (
            arith,
            noted,
            note_dialback_other r.now ts ip (verified_ip r.remote_address) s other (omega arith)
                noted,
          )
    ]

handle-Noted :
    (r : Request) (ts : ℕ) (ip : Str) (s : Service)
    → r.now - ts < 10000
    → Noted ip ts s
    → Noted ip ts (handle_dialback_request false r s).0
unfolding handle_dialback_request
handle-Noted r ts ip s soon noted = elim (Option-cases (port_of r.target_port)) [
  | inl bad ↦ ground (arith, bad, noted)
  | inr (port, good) ↦ ground (arith, good, noted, admit-Noted r port ts ip s soon noted)
]

-- A call outside of tests, less than ten seconds behind `ts`.
abbrev pub IsSoon : ℕ → Call → Type 0
IsSoon ts (ask is_testing r) = (is_testing ≡ false) × (r.now - ts < 10000)
IsSoon ts (settle i) = Unit

run-Noted :
    (ts : ℕ) (ip : Str) (calls : List Call) (s : Service)
    → All (IsSoon ts) calls
    → Noted ip ts s
    → Noted ip ts (run calls s)
run-Noted ts ip [] s h noted = noted
run-Noted ts ip (ask is_testing r ∷ calls) s ((live, soon), h) noted =
    run-Noted ts ip calls (apply (ask is_testing r) s) h
      (rw live (handle-Noted r ts ip s soon noted))
run-Noted ts ip (settle i ∷ calls) s (_, h) noted =
    run-Noted ts ip calls (release_slot i s) h (unfold release_slot in ground (arith, noted))

dialed-Noted :
    (r : Request) (s : Service) (d : Dial)
    → (handle_dialback_request false r s).1 ≡ some d
    → Noted (verified_ip r.remote_address) r.now (handle_dialback_request false r s).0
unfolding handle_dialback_request admit open_dial
dialed-Noted r s d dialed = elim (Option-cases (port_of r.target_port)) [
  | inl bad ↦ ground (arith, dialed, bad)
  | inr (port, good) ↦
      ground (arith, dialed, good, note_dialback-Noted r.now (verified_ip r.remote_address) s)
]

refused :
    (r : Request) (ts : ℕ) (s : Service)
    → Noted (verified_ip r.remote_address) ts s
    → r.now - ts < 10000
    → (handle_dialback_request false r s).1 ≡ none
unfolding handle_dialback_request
refused r ts s noted soon = elim (Option-cases (port_of r.target_port)) [
  | inl bad ↦ ground (arith, bad)
  | inr (port, good) ↦ ground (arith, good, admit_limited r port ts s noted soon)
]

-- Outside of tests, an address that was dialed is not dialed again for ten seconds, whatever requests
-- came from it and from others in these ten seconds, and whatever became of the sockets.
pub dialed_once :
    (first second : Request) (s : Service) (d : Dial) (calls : List Call)
    → (handle_dialback_request false first s).1 ≡ some d
    → All (IsSoon first.now) calls
    → verified_ip second.remote_address ≡ verified_ip first.remote_address
    → second.now - first.now < 10000
    → (handle_dialback_request false second (run calls (handle_dialback_request false first s).0)).1
      ≡ none
dialed_once first second s d calls dialed soon same now_soon =
    let later = run calls (handle_dialback_request false first s).0 in
    let noted =
      run-Noted first.now (verified_ip first.remote_address) calls _ soon
        (dialed-Noted first s d dialed) in
    let own : Noted (verified_ip second.remote_address) first.now later = rw same noted in
    refused second first.now later own now_soon
