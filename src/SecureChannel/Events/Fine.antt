-- ===== src/SecureChannel/Events/Fine.antt =====
-- What every frame does to a channel of src/core/secureChannel.js.
use metrice.Base.{
  ℕ, suc, Bool, true, false, not, ◌&&◌, ◌||◌, Option, none, some, List, [], ◌∷◌, ◌++◌, ◌≡◌, refl,
  sym, ◌∙◌, ap, Str, if-cases, some-cases, All, All-append, length, ◌==◌, str_eq,
}
use metrice.NonceTracker.{track}
use metrice.SecureChannel.Peer.{validate_peer_ip}
use metrice.SecureChannel.Frames.{
  refuse, mark_ready, set_peer, session_info, signed_reply, accept_init, check_init, handle_init,
  is_valid_reply, observed_effects, accept_reply, handle_reply, payload_effects, handle_encrypted,
  handle_frame,
}
use metrice.SecureChannel.Lines.{dispatch}
use metrice.SecureChannel.{
  Crypto, Frame, handshake_init, handshake_reply, encrypted_frame, dialback_confirm, onion_cell,
  other_frame, Effect, write, write_pong, destroy, pause, resume, clear_timeout, save_trusted_key,
  emit_ready, emit_pong, emit_observed, emit_payload, emit_dialback, emit_onion, Env, Channel,
  init_text,
}

abbrev pub has_key : Option Str → Bool
has_key none = false
has_key (some key) = true

-- A channel has a session key exactly when it is ready, and then no payload waits.
pub record IsSound (c : Channel) : Type 0 where
  pub keyed : c.is_ready ≡ has_key c.session_key
  pub flushed : c.is_ready ≡ true → c.pending_queue ≡ []

abbrev pub is_quiet_frame : Frame → Bool
is_quiet_frame (encrypted_frame iv ciphertext auth_tag) = false
is_quiet_frame (handshake_init address identity_key kem_key nonce sig) = true
is_quiet_frame (handshake_reply address identity_key kem_key encapsulated_key nonce observed sig) =
    true
is_quiet_frame (dialback_confirm frame) = true
is_quiet_frame (onion_cell frame) = true
is_quiet_frame other_frame = true

-- An effect that sends no sealed frame, hands on no payload, and does not announce the channel as ready
abbrev pub is_quiet : Effect → Bool
is_quiet (write frame) = is_quiet_frame frame
is_quiet (emit_payload text) = false
is_quiet emit_ready = false
is_quiet write_pong = true
is_quiet destroy = true
is_quiet pause = true
is_quiet resume = true
is_quiet clear_timeout = true
is_quiet (save_trusted_key address identity_key kem_key) = true
is_quiet emit_pong = true
is_quiet (emit_observed observed address) = true
is_quiet (emit_dialback frame) = true
is_quiet (emit_onion frame) = true

abbrev pub Quiet : Effect → Type 0
Quiet e = is_quiet e ≡ true

-- What every operation does to a channel `c`
pub record IsFine (c : Channel) (r : Channel × List Effect) : Type 0 where
  pub sound : IsSound c → IsSound r.0
  pub silent : r.0.is_ready ≡ false → All Quiet r.1
  pub stays : c.is_ready ≡ true → r.0.is_ready ≡ true

-- An operation that leaves alone what counts
pub kept :
    {c d : Channel} {effects : List Effect}
    → d.is_ready ≡ c.is_ready
    → d.session_key ≡ c.session_key
    → d.pending_queue ≡ c.pending_queue
    → All Quiet effects
    → IsFine c (d, effects)
kept ready key queue quiet = record {
  sound = λ s. record {
    keyed = ready ∙ (s.keyed ∙ ap has_key (sym key));
    flushed = λ h. queue ∙ s.flushed (sym ready ∙ h);
  };
  silent = λ _. quiet;
  stays = λ h. ready ∙ h;
}

-- Changing first what does not count changes nothing.
pub through :
    {c d : Channel} {r : Channel × List Effect}
    → d.is_ready ≡ c.is_ready
    → d.session_key ≡ c.session_key
    → d.pending_queue ≡ c.pending_queue
    → IsFine d r
    → IsFine c r
through ready key queue fine = record {
  sound = λ s. fine.sound ((kept {effects = []} ready key queue tt).sound s);
  silent = fine.silent;
  stays = λ h. fine.stays (ready ∙ h);
}

-- More effects in front, of a channel that is ready
pub prepend :
    {c : Channel} {r : Channel × List Effect} (effects : List Effect)
    → All Quiet effects
    → IsFine c r
    → IsFine c (r.0, effects ++ r.1)
prepend {r = r} effects quiet fine = record {
  sound = fine.sound;
  silent = λ h. All-append Quiet effects r.1 quiet (fine.silent h);
  stays = fine.stays;
}

pub refuse-IsFine : (c : Channel) → IsFine c (refuse c)
unfolding refuse
refuse-IsFine c = kept refl refl refl (refl, tt)

mark_ready-IsFine : (crypto : Crypto) (key : Str) (c : Channel) → IsFine c (mark_ready crypto key c)
unfolding mark_ready
mark_ready-IsFine crypto key c = record {
  sound = λ s. record { keyed = refl; flushed = λ _. refl };
  silent = λ h. cc h;
  stays = λ _. refl;
}

accept_init-IsFine :
    (env : Env) (address : Option Str) (identity_key kem_key nonce : Str) (c : Channel)
    → IsFine c (accept_init env address identity_key kem_key nonce c)
unfolding accept_init set_peer signed_reply
accept_init-IsFine env address identity_key kem_key nonce c =
    some-cases (IsFine c) (env.crypto.encapsulate kem_key c.draws)
      (λ _. kept refl refl refl (refl, tt))
      (λ secret _.
        prepend
          (save_trusted_key address identity_key kem_key
            ∷ write (signed_reply env secret.1 nonce)
            ∷ [])
          (refl, (refl, tt))
          (through refl refl refl (
            mark_ready-IsFine env.crypto (env.crypto.derive_key secret.0 nonce session_info)
              (record (set_peer address identity_key kem_key c) { draws = suc c.draws }))))

check_init-IsFine :
    (env : Env) (address : Option Str) (identity_key kem_key nonce sig : Str) (c : Channel)
    → IsFine c (check_init env address identity_key kem_key nonce sig c)
unfolding check_init
check_init-IsFine env address identity_key kem_key nonce sig c =
    some-cases (IsFine c) (validate_peer_ip env.crypto env.local env.net address identity_key)
      (λ _. kept refl refl refl tt)
      (λ ok _.
        if-cases (IsFine c)
          (ok && env.crypto.verify (init_text address identity_key kem_key nonce) sig identity_key)
          (λ _. accept_init-IsFine env address identity_key kem_key nonce c) (λ _. refuse-IsFine c))

handle_init-IsFine :
    (env : Env) (now : ℕ) (address : Option Str) (identity_key kem_key nonce sig : Str)
    (c : Channel)
    → IsFine c (handle_init env now address identity_key kem_key nonce sig c)
unfolding handle_init
handle_init-IsFine env now address identity_key kem_key nonce sig c =
    let tracked = record c {
      nonce_tracker = (track now nonce env.net.remote_address c.nonce_tracker).0;
    } in
    if-cases (IsFine c) c.is_initiator (λ _. refuse-IsFine c)
      (λ _.
        if-cases (IsFine c) (track now nonce env.net.remote_address c.nonce_tracker).1
          (λ _.
            through refl refl refl
              (check_init-IsFine env address identity_key kem_key nonce sig tracked))
          (λ _. through refl refl refl (refuse-IsFine tracked)))

observed_effects-Quiet :
    (observed : Str) (address : Option Str) → All Quiet (observed_effects observed address)
unfolding observed_effects
observed_effects-Quiet [] address = tt
observed_effects-Quiet (c ∷ observed) address = (refl, tt)

accept_reply-IsFine :
    (env : Env) (address : Option Str) (identity_key kem_key encapsulated_key nonce observed : Str)
    (c : Channel)
    → IsFine c (accept_reply env address identity_key kem_key encapsulated_key nonce observed c)
unfolding accept_reply set_peer
accept_reply-IsFine env address identity_key kem_key encapsulated_key nonce observed c =
    let known = record (set_peer address identity_key kem_key c) { observed_address = observed } in
    some-cases (IsFine c) (env.crypto.decapsulate env.me.kem_private encapsulated_key)
      (λ _. kept refl refl refl (refl, tt))
      (λ secret _.
        prepend (save_trusted_key address identity_key kem_key ∷ observed_effects observed address)
          (refl, observed_effects-Quiet observed address)
          (through refl refl refl
            (mark_ready-IsFine env.crypto (env.crypto.derive_key secret nonce session_info) known)))

handle_reply-IsFine :
    (env : Env) (address : Option Str)
    (identity_key kem_key encapsulated_key nonce observed sig : Str) (c : Channel)
    → IsFine c (handle_reply env address identity_key kem_key encapsulated_key nonce observed sig c)
unfolding handle_reply
handle_reply-IsFine env address identity_key kem_key encapsulated_key nonce observed sig c =
    if-cases (IsFine c) (not c.is_initiator) (λ _. refuse-IsFine c)
      (λ _.
        if-cases (IsFine c) ((length c.my_nonce == 0) || not (str_eq nonce c.my_nonce))
          (λ _. refuse-IsFine c)
          (λ _.
            if-cases (IsFine c)
              (is_valid_reply env.crypto address identity_key kem_key encapsulated_key nonce
                observed sig)
              (λ _.
                accept_reply-IsFine env address identity_key kem_key encapsulated_key nonce observed
                  c)
              (λ _. refuse-IsFine c)))

-- A channel that is ready may have any effects.
pub ready : {c : Channel} (effects : List Effect) → c.is_ready ≡ true → IsFine c (c, effects)
ready effects h = record { sound = λ s. s; silent = λ k. cc (h, k); stays = λ k. k }

handle_encrypted-IsFine :
    (env : Env) (box : Str × Str × Str) (c : Channel) → IsFine c (handle_encrypted env box c)
unfolding handle_encrypted
handle_encrypted-IsFine env box c =
    some-cases (IsFine c) c.session_key (λ _. kept refl refl refl tt)
      (λ key _.
        if-cases (IsFine c) c.is_ready
          (λ h. ready (payload_effects env (env.crypto.decrypt box key)) h)
          (λ _. kept refl refl refl tt))

pub dispatch-IsFine :
    (env : Env) (now : ℕ) (frame : Frame) (c : Channel) → IsFine c (dispatch env now frame c)
unfolding dispatch handle_frame
dispatch-IsFine env now (handshake_init address identity_key kem_key nonce sig) c =
    handle_init-IsFine env now address identity_key kem_key nonce sig c
dispatch-IsFine env now
      (handshake_reply address identity_key kem_key encapsulated_key nonce observed sig) c =
    handle_reply-IsFine env address identity_key kem_key encapsulated_key nonce observed sig c
dispatch-IsFine env now (encrypted_frame iv ciphertext auth_tag) c =
    handle_encrypted-IsFine env (iv, ciphertext, auth_tag) c
dispatch-IsFine env now (dialback_confirm frame) c = kept refl refl refl (refl, tt)
dispatch-IsFine env now (onion_cell frame) c = kept refl refl refl (refl, tt)
dispatch-IsFine env now other_frame c = kept refl refl refl tt
