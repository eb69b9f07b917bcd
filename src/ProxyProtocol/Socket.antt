-- ===== src/ProxyProtocol/Socket.antt =====
-- `ProxyProtocolParser.handle` of src/utils/proxyProtocol.js: the listeners on one socket.
pub mod Once
pub mod Chunks
use metrice.Base.{
  ℕ, Bool, true, false, Option, none, some, List, [], ◌∷◌, ◌++◌, Str, ltb, if◌then◌else◌, length,
}
use metrice.Base.Number.{ℤ, pos}
use metrice.ProxyProtocol.{
  Outcome, Reason, accepted, need_more, rejected, passthrough, parse_buffer,
}

-- The first argument of the callback, with `none` for null.
pub data Failure : Type 0 where
  handshake_timeout header_size_overflow socket_error : Failure
  protocol_rejected : Reason → Failure

pub record Handshake : Type 0 where
  pub buffer : List ℕ
  pub finished : Bool
  pub destroyed : Bool
  pub real_remote_address : Option Str
  pub real_remote_port : Option ℤ
  -- what `socket.unshift` put back, or nothing
  pub unshifted : List ℕ
  -- the calls of the callback, in order
  pub calls : List (Option Failure)

pub record Peer : Type 0 where
  pub remote_address : Str
  pub remote_port : ℕ
  pub trusted_ips : List Str

abbrev pub fresh : Handshake
fresh = record {
  buffer = [];
  finished = false;
  destroyed = false;
  real_remote_address = none;
  real_remote_port = none;
  unshifted = [];
  calls = [];
}

pub data Event : Type 0 where
  chunk : List ℕ → Event
  error close timeout : Event

-- `cleanup(); socket.destroy(); callback(new Error(…), socket);`
unfoldable pub fail : Failure → Handshake → Handshake
fail e h = record h { finished = true; destroyed = true; calls = h.calls ++ some e ∷ [] }

-- The end of `onData`, behind the status tests.
unfoldable pub finish : Peer → Outcome → Handshake → Handshake
finish peer (accepted a p r) h = record h {
  finished = true;
  real_remote_address = some a;
  real_remote_port = some p;
  unshifted = r;
  calls = h.calls ++ none ∷ [];
}
finish peer (passthrough r) h = record h {
  finished = true;
  real_remote_address = some peer.remote_address;
  real_remote_port = some (pos peer.remote_port);
  unshifted = h.buffer;
  calls = h.calls ++ none ∷ [];
}
finish peer (rejected e) h = fail (protocol_rejected e) h
finish peer need_more h = if ltb 4096 (length h.buffer) then fail header_size_overflow h else h

unfoldable pub on_data : Peer → List ℕ → Handshake → Handshake
on_data peer bytes h =
    let buffer = h.buffer ++ bytes in
    finish peer (parse_buffer buffer peer.remote_address peer.trusted_ips)
      (record h { buffer = buffer })

-- `cleanup` removes the listeners and the timer, so nothing is delivered once it has run.
unfoldable pub deliver : Peer → Event → Handshake → Handshake
deliver peer (chunk bytes) h = if h.finished then h else on_data peer bytes h
deliver peer error h =
    if h.finished
    then h
    else record h { finished = true; calls = h.calls ++ some socket_error ∷ [] }
deliver peer close h = if h.finished then h else record h { finished = true }
deliver peer timeout h = if h.finished then h else fail handshake_timeout h

unfoldable pub run : Peer → List Event → Handshake → Handshake
run peer [] h = h
run peer (e ∷ es) h = run peer es (deliver peer e h)
