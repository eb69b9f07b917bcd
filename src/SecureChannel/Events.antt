-- ===== src/SecureChannel/Events.antt =====
-- The events of a channel of src/core/secureChannel.js, in the order in which they happen.
pub mod Fine
pub mod Sound
use metrice.Base.{ℕ, Bool, true, false, List, [], ◌∷◌, ◌++◌, Str, if◌then◌else◌}
use metrice.SecureChannel.Frames.{refuse}
use metrice.SecureChannel.Lines.{on_data, round}
use metrice.SecureChannel.{Effect, Env, Channel, write_payload}

-- A chunk of the socket with the text that the decoder makes of it, a round of the loop over the lines,
-- a call of `writePayload`, and the timeout of 30 seconds.
pub data Event : Type 0 where
  chunk : ℕ → List ℕ → Str → Event
  turn : ℕ → Event
  payload : Str → Event
  timeout : Event

-- The listener of the timeout
unfoldable pub on_timeout : Channel → Channel × List Effect
on_timeout c = if c.is_ready then (c, []) else refuse c

unfoldable pub handle : Env → Event → Channel → Channel × List Effect
handle env (chunk now bytes text) c = on_data env now bytes text c
handle env (turn now) c = round env now c
handle env (payload text) c = write_payload env.crypto text c
handle env timeout c = on_timeout c

unfoldable pub run : Env → List Event → Channel → Channel × List Effect
run env [] c = (c, [])
run env (e ∷ events) c =
    let (next, effects) = handle env e c in
    let (last, more) = run env events next in (last, effects ++ more)
