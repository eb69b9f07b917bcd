-- ===== src/SecureChannel/Events/Sound.antt =====
-- What holds of a channel of src/core/secureChannel.js after any events.
use metrice.Base.{
  ℕ, Bool, true, false, List, [], ◌∷◌, ◌++◌, ◌≡◌, refl, ap, Str, if-cases, some-cases, All,
  All-append, cut, ltb, ◌==◌, ◌∙◌,
}
use metrice.Base.Number.{trim}
use metrice.NonceTracker.{NonceTracker}
use metrice.SecureChannel.Lines.{byte_length, on_text, on_data, finish, on_line, round}
use metrice.SecureChannel.Events.{Event, chunk, turn, payload, timeout, on_timeout, handle, run}
use metrice.SecureChannel.Events.Fine.{
  has_key, IsSound, Quiet, IsFine, kept, through, ready, refuse-IsFine, dispatch-IsFine,
}
use metrice.SecureChannel.Frames.{refuse}
use metrice.SecureChannel.{
  Effect, Env, Channel, construct, new_channel, send_handshake_init, sealed, write, write_payload,
}

on_text-IsFine : (env : Env) (text : Str) (c : Channel) → IsFine c (on_text env text c)
unfolding on_text
on_text-IsFine env text c =
    if-cases (IsFine c) (ltb env.buffer_limit (byte_length (c.buffer ++ text)))
      (λ _. through refl refl refl (refuse-IsFine (record c { buffer = c.buffer ++ text })))
      (λ _.
        if-cases (IsFine c) c.is_processing (λ _. kept refl refl refl tt)
          (λ _. kept refl refl refl (refl, tt)))

on_data-IsFine :
    (env : Env) (now : ℕ) (bytes : List ℕ) (text : Str) (c : Channel)
    → IsFine c (on_data env now bytes text c)
unfolding on_data
on_data-IsFine env now [] text c = on_text-IsFine env text c
on_data-IsFine env now (b ∷ []) text c =
    if-cases (IsFine c) (b == 9) (λ _. kept refl refl refl (refl, tt))
      (λ _.
        if-cases (IsFine c) (b == 10) (λ _. kept refl refl refl (refl, tt))
          (λ _. on_text-IsFine env text c))
on_data-IsFine env now (b ∷ d ∷ bytes) text c = on_text-IsFine env text c

finish-IsFine : {c : Channel} (r : Channel × List Effect) → IsFine c r → IsFine c (finish r)
unfolding finish
finish-IsFine r fine = record {
  sound = λ s. let known = fine.sound s in record { keyed = known.keyed; flushed = known.flushed };
  silent = λ h.
      All-append Quiet r.1 _ (fine.silent h)
        (if-cases (All Quiet) r.0.is_destroyed (λ _. tt) (λ _. (refl, tt)));
  stays = fine.stays;
}

on_line-IsFine :
    (env : Env) (now : ℕ) (line : Str) (c : Channel) → IsFine c (on_line env now line c)
unfolding on_line
on_line-IsFine env now [] c = kept refl refl refl tt
on_line-IsFine env now (b ∷ line) c =
    if-cases (IsFine c) (b == b'{')
      (λ _.
        some-cases (IsFine c) (env.parse_frame (b ∷ line)) (λ _. kept refl refl refl tt)
          (λ frame _. dispatch-IsFine env now frame c))
      (λ _. finish-IsFine (refuse c) (refuse-IsFine c))

round-IsFine : (env : Env) (now : ℕ) (c : Channel) → IsFine c (round env now c)
unfolding round
round-IsFine env now c =
    if-cases (IsFine c) c.is_processing
      (λ _.
        some-cases (IsFine c) (cut b'\n' c.buffer)
          (λ _. finish-IsFine (c, []) (kept refl refl refl tt))
          (λ p _.
            through refl refl refl (on_line-IsFine env now (trim p.0) (record c { buffer = p.1 }))))
      (λ _. kept refl refl refl tt)

-- A payload waits only while the channel is not ready.
queued :
    (text : Str) (c : Channel)
    → (IsSound c → c.is_ready ≡ false)
    → IsFine c (record c { pending_queue = c.pending_queue ++ text ∷ [] }, [])
queued text c waits = record {
  sound = λ s. record { keyed = s.keyed; flushed = λ h. let w = waits s in cc (h, w) };
  silent = λ _. tt;
  stays = λ h. h;
}

write_payload-IsFine :
    (env : Env) (text : Str) (c : Channel) → IsFine c (write_payload env.crypto text c)
unfolding write_payload
write_payload-IsFine env text c =
    some-cases (IsFine c) c.session_key
      (λ unkeyed. queued text c (λ s. s.keyed ∙ ap has_key unkeyed))
      (λ key _.
        if-cases (IsFine c) c.is_ready
          (λ h.
            through refl refl refl
              (ready (write (sealed (env.crypto.encrypt text key c.draws)) ∷ []) h))
          (λ h. queued text c (λ _. h)))

still_waiting : (a b : Bool) → (a ≡ true → b ≡ true) → b ≡ false → a ≡ false
still_waiting true b h k = let t = h refl in cc (t, k)
still_waiting false b h k = refl

handle-IsFine : (env : Env) (e : Event) (c : Channel) → IsFine c (handle env e c)
unfolding handle on_timeout
handle-IsFine env (chunk now bytes text) c = on_data-IsFine env now bytes text c
handle-IsFine env (turn now) c = round-IsFine env now c
handle-IsFine env (payload text) c = write_payload-IsFine env text c
handle-IsFine env timeout c =
    if-cases (IsFine c) c.is_ready (λ _. kept refl refl refl tt) (λ _. refuse-IsFine c)

run-IsFine : (env : Env) (events : List Event) (c : Channel) → IsFine c (run env events c)
unfolding run
run-IsFine env [] c = kept refl refl refl tt
run-IsFine env (e ∷ events) c =
    let first = handle-IsFine env e c in
    let rest = run-IsFine env events (handle env e c).0 in
    record {
      sound = λ s. rest.sound (first.sound s);
      silent = λ h.
          All-append Quiet (handle env e c).1 _
            (first.silent (
              still_waiting (handle env e c).0.is_ready
                (run env events (handle env e c).0).0.is_ready rest.stays h))
            (rest.silent h);
      stays = λ h. rest.stays (first.stays h);
    }

construct-IsSound :
    (env : Env) (is_initiator : Bool) (nonce : Str) (now : ℕ) (tracker : NonceTracker)
    → IsSound (construct env is_initiator nonce now tracker).0
unfolding construct new_channel send_handshake_init
construct-IsSound env true nonce now tracker = record { keyed = refl; flushed = λ _. refl }
construct-IsSound env false nonce now tracker = record { keyed = refl; flushed = λ _. refl }

-- A new channel goes through any chunks, rounds of the line loop, payloads and timeouts. Then it has a session key
-- exactly when it is ready, and when it is ready no payload waits in the queue.
pub channel-IsSound :
    (env : Env) (is_initiator : Bool) (nonce : Str) (now : ℕ) (tracker : NonceTracker)
    (events : List Event)
    → IsSound (run env events (construct env is_initiator nonce now tracker).0).0
channel-IsSound env is_initiator nonce now tracker events =
    (run-IsFine env events (construct env is_initiator nonce now tracker).0).sound
      (construct-IsSound env is_initiator nonce now tracker)

-- As long as a channel is not ready, whatever events it went through, it has sent no encrypted frame, handed on no
-- payload, and has not been announced as ready.
pub silent_before_ready :
    (env : Env) (events : List Event) (c : Channel)
    → (run env events c).0.is_ready ≡ false
    → All Quiet (run env events c).1
silent_before_ready env events c h = (run-IsFine env events c).silent h
