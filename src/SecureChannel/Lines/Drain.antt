-- ===== src/SecureChannel/Lines/Drain.antt =====
-- The loop over the lines of src/core/secureChannel.js ends.
use metrice.Base.{
  ℕ, zero, suc, ◌<◌, true, false, Option, none, some, List, [], ◌∷◌, ◌≡◌, refl, sym, subst, ◌∙◌,
  arith, Str, if-cases, some-cases, cut, ◌==◌, inl, inr, ◌⊎◌, Bool-cases, Option-cases, length,
}
use metrice.Base.Number.{trim}
use metrice.SecureChannel.Frames.{
  refuse, mark_ready, set_peer, accept_init, check_init, handle_init, accept_reply, handle_reply,
  handle_encrypted, handle_frame,
}
use metrice.SecureChannel.Lines.{finish, dispatch, on_line, round, drain}
use metrice.SecureChannel.{
  Frame, handshake_init, handshake_reply, encrypted_frame, dialback_confirm, onion_cell,
  other_frame, Effect, Env, Channel,
}

-- A frame leaves the line buffer and the loop alone.
abbrev Keeps : Channel → Channel × List Effect → Type 0
Keeps c r = (r.0.buffer ≡ c.buffer) × (r.0.is_processing ≡ c.is_processing)

handle_init-Keeps :
    (env : Env) (now : ℕ) (address : Option Str) (identity_key kem_key nonce sig : Str)
    (c : Channel)
    → Keeps c (handle_init env now address identity_key kem_key nonce sig c)
unfolding handle_init check_init accept_init set_peer mark_ready refuse
handle_init-Keeps env now address identity_key kem_key nonce sig c = (ground arith, ground arith)

handle_reply-Keeps :
    (env : Env) (address : Option Str)
    (identity_key kem_key encapsulated_key nonce observed sig : Str) (c : Channel)
    → Keeps c (handle_reply env address identity_key kem_key encapsulated_key nonce observed sig c)
unfolding handle_reply accept_reply set_peer mark_ready refuse
handle_reply-Keeps env address identity_key kem_key encapsulated_key nonce observed sig c =
    (ground arith, ground arith)

handle_encrypted-Keeps :
    (env : Env) (box : Str × Str × Str) (c : Channel) → Keeps c (handle_encrypted env box c)
unfolding handle_encrypted
handle_encrypted-Keeps env box c = (ground arith, ground arith)

dispatch-Keeps :
    (env : Env) (now : ℕ) (frame : Frame) (c : Channel) → Keeps c (dispatch env now frame c)
unfolding dispatch handle_frame
dispatch-Keeps env now (handshake_init address identity_key kem_key nonce sig) c =
    handle_init-Keeps env now address identity_key kem_key nonce sig c
dispatch-Keeps env now
      (handshake_reply address identity_key kem_key encapsulated_key nonce observed sig) c =
    handle_reply-Keeps env address identity_key kem_key encapsulated_key nonce observed sig c
dispatch-Keeps env now (encrypted_frame iv ciphertext auth_tag) c =
    handle_encrypted-Keeps env (iv, ciphertext, auth_tag) c
dispatch-Keeps env now (dialback_confirm frame) c = (refl, refl)
dispatch-Keeps env now (onion_cell frame) c = (refl, refl)
dispatch-Keeps env now other_frame c = (refl, refl)

-- The loop has ended, and no whole line is left unless the socket is destroyed.
pub record IsDrained (c : Channel) : Type 0 where
  pub idle : c.is_processing ≡ false
  pub empty : (c.is_destroyed ≡ true) ⊎ (cut b'\n' c.buffer ≡ none)

-- After a line the loop is at its end, or goes on with the same buffer.
abbrev Goes : Channel → Channel × List Effect → Type 0
Goes c r = IsDrained r.0 ⊎ Keeps c r

on_line-Goes : (env : Env) (now : ℕ) (line : Str) (c : Channel) → Goes c (on_line env now line c)
unfolding on_line finish refuse
on_line-Goes env now [] c = inr (refl, refl)
on_line-Goes env now (b ∷ line) c =
    if-cases (Goes c) (b == b'{')
      (λ _.
        some-cases (Goes c) (env.parse_frame (b ∷ line)) (λ _. inr (refl, refl))
          (λ frame _. inr (dispatch-Keeps env now frame c)))
      (λ _. inl (record { idle = refl; empty = inl refl }))

-- What is behind a separator is shorter.
length-cut : (c : ℕ) (s : Str) (p : Str × Str) → cut c s ≡ some p → length p.1 < length s
unfolding cut
length-cut c [] p h = cc h
length-cut c (d ∷ s) p h = elim (Bool-cases (d == c)) [
  | inl here ↦ ground arith
  | inr later ↦ elim (Option-cases (cut c s)) [
    | inl nowhere ↦ ground arith
    | inr (q, e) ↦ let shorter = length-cut c s q e in ground arith
  ]
]

-- What a round with the loop running comes to
abbrev Shrinks : Channel → Channel × List Effect → Type 0
Shrinks c r = IsDrained r.0 ⊎ ((r.0.is_processing ≡ true) × (length r.0.buffer < length c.buffer))

Goes→Shrinks :
    (c d : Channel) (r : Channel × List Effect)
    → d.is_processing ≡ true
    → length d.buffer < length c.buffer
    → Goes d r
    → Shrinks c r
Goes→Shrinks c d r running shorter (inl done) = inl done
Goes→Shrinks c d r running shorter (inr (same, goes)) =
    inr (goes ∙ running, subst (λ b. length b < length c.buffer) (sym same) shorter)

-- A round with the loop running ends it, or takes a line off the buffer.
round-Shrinks :
    (env : Env) (now : ℕ) (c : Channel) → c.is_processing ≡ true → Shrinks c (round env now c)
unfolding round finish
round-Shrinks env now c h =
    if-cases (Shrinks c) c.is_processing
      (λ _.
        some-cases (Shrinks c) (cut b'\n' c.buffer)
          (λ e. inl (record { idle = refl; empty = inr e }))
          (λ p e.
            let d = record c { buffer = p.1 } in
            Goes→Shrinks c d (on_line env now (trim p.0) d) h (length-cut b'\n' c.buffer p e)
              (on_line-Goes env now (trim p.0) d)))
      (λ k. cc (h, k))

drain-idle :
    (env : Env) (now fuel : ℕ) (c : Channel)
    → c.is_processing ≡ false
    → (drain env now fuel c).0 ≡ c
unfolding drain
drain-idle env now zero c h = refl
drain-idle env now (suc fuel) c h = rw (h) refl

-- The loop over the lines ends within one round for each code unit in the buffer and one more, whatever the lines are.
-- Then it no longer runs, and no whole line is left in the buffer unless the socket was destroyed.
pub drain_enough :
    (env : Env) (now fuel : ℕ) (c : Channel)
    → c.is_processing ≡ true
    → length c.buffer < fuel
    → IsDrained (drain env now fuel c).0
unfolding drain
drain_enough env now zero c running enough = absurd (omega arith)
drain_enough env now (suc fuel) c running enough =
    if-cases (λ (r : Channel × List Effect). IsDrained r.0) c.is_processing
      (λ _. elim (round-Shrinks env now c running) [
        | inl done ↦
            subst IsDrained (sym (drain-idle env now fuel (round env now c).0 done.idle)) done
        | inr (more, shorter) ↦ drain_enough env now fuel (round env now c).0 more (omega arith)
      ])
      (λ stopped. cc (running, stopped))
