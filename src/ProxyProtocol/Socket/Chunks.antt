-- ===== src/ProxyProtocol/Socket/Chunks.antt =====
-- How the bytes of a handshake are cut into chunks does not matter to `handle` of
-- src/utils/proxyProtocol.js.
use metrice.Base.{ℕ, true, false, List, [], ◌∷◌, ◌++◌, ◌≡◌, if◌then◌else◌}
use metrice.ProxyProtocol.Socket.{Handshake, Peer, on_data}

abbrev pub joined : List (List ℕ) → List ℕ
joined [] = []
joined (c ∷ cs) = c ++ joined cs

-- Chunks one after another, with the bytes that arrive once the handshake is over: those go straight
-- to the connection, behind what was put back.
unfoldable pub feed : Peer → List (List ℕ) → Handshake → Handshake × List ℕ
feed peer [] h = (h, [])
feed peer (c ∷ cs) h = if h.finished then (h, c ++ joined cs) else feed peer cs (on_data peer c h)

-- The same client, and the same bytes for the connection.
pub record SameEnd (one many : Handshake) (later : List ℕ) : Type 0 where
  pub address : one.real_remote_address ≡ many.real_remote_address
  pub port : one.real_remote_port ≡ many.real_remote_port
  pub bytes : one.unshifted ≡ many.unshifted ++ later
  pub calls : one.calls ≡ many.calls

-- A handshake that is over without destroying the socket.
abbrev pub IsOver : Handshake → Type 0
IsOver h = (h.finished ≡ true) × (h.destroyed ≡ false)
