-- ===== src/ProxyProtocol/Socket/Once.antt =====
-- Every handshake of `handle` in src/utils/proxyProtocol.js ends once.
use metrice.Base.{
  ℕ, ◌≤◌, Bool, true, false, none, List, [], ◌∷◌, ◌≡◌, ◌⊎◌, refl, arith, if◌then◌else◌, length,
}
use metrice.ProxyProtocol.{Outcome, accepted, need_more, rejected, passthrough}
use metrice.ProxyProtocol.Socket.{
  Handshake, Peer, Event, chunk, error, close, timeout, fresh, fail, finish, on_data, deliver, run,
}

-- A handshake that goes on has told nobody anything and holds at most 4096 bytes. One that ended has
-- called back at most once, and if it destroyed the socket it set no address and put nothing back.
pub record IsSound (h : Handshake) : Type 0 where
  pub waiting :
      (h.finished ≡ true)
      ⊎ ((h.calls ≡ []) × (h.destroyed ≡ false) × (h.unshifted ≡ []) × (length h.buffer ≤ 4096))
  pub once : length h.calls ≤ 1
  pub refused :
      (h.destroyed ≡ false)
      ⊎ ((h.finished ≡ true) × (h.real_remote_address ≡ none) × (h.unshifted ≡ []))
  pub unset : (h.finished ≡ true) ⊎ (h.real_remote_address ≡ none)

finish-IsSound :
    (peer : Peer) (o : Outcome) (h : Handshake)
    → h.calls ≡ []
    → h.destroyed ≡ false
    → h.unshifted ≡ []
    → h.real_remote_address ≡ none
    → IsSound (finish peer o h)
unfolding finish fail
finish-IsSound peer (accepted a p r) h c d u unset = ground arith
finish-IsSound peer (passthrough r) h c d u unset = ground arith
finish-IsSound peer (rejected e) h c d u unset = ground arith
finish-IsSound peer need_more h c d u unset = ground arith

IsSound-if :
    (t : Bool) {h h' : Handshake}
    → IsSound h
    → (t ≡ false → IsSound h')
    → IsSound (if t then h else h')
IsSound-if true v w = v
IsSound-if false v w = w refl

on_data-IsSound :
    (peer : Peer) (bytes : List ℕ) (h : Handshake)
    → IsSound h
    → h.finished ≡ false
    → IsSound (on_data peer bytes h)
unfolding on_data
on_data-IsSound peer bytes h v waits =
    finish-IsSound peer _ _ (ground arith) (ground arith) (ground arith) (ground arith)

deliver-IsSound : (peer : Peer) (e : Event) (h : Handshake) → IsSound h → IsSound (deliver peer e h)
unfolding deliver fail
deliver-IsSound peer (chunk bytes) h v = IsSound-if h.finished v (on_data-IsSound peer bytes h v)
deliver-IsSound peer error h v = ground arith
deliver-IsSound peer close h v = ground arith
deliver-IsSound peer timeout h v = ground arith

run-IsSound : (peer : Peer) (es : List Event) (h : Handshake) → IsSound h → IsSound (run peer es h)
unfolding run
run-IsSound peer [] h v = v
run-IsSound peer (e ∷ es) h v = run-IsSound peer es _ (deliver-IsSound peer e h v)

-- Whatever happens on the socket, and in whatever order, the callback is called at most once, and a
-- socket that was destroyed was given no address and no bytes.
pub callback_once :
    (peer : Peer) (es : List Event)
    → (length (run peer es fresh).calls ≤ 1)
      × (((run peer es fresh).destroyed ≡ false)
          ⊎ (((run peer es fresh).real_remote_address ≡ none)
              × ((run peer es fresh).unshifted ≡ [])))
callback_once peer es = let v = run-IsSound peer es fresh (ground arith) in (v.once, ground arith)
