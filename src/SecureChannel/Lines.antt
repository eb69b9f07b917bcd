-- ===== src/SecureChannel/Lines.antt =====
-- The `data` listener of src/core/secureChannel.js: keepalive bytes, the line buffer and its loop.
pub mod Drain
use metrice.Base.{
  ℕ, zero, suc, ◌+◌, Bool, true, false, not, ◌&&◌, ◌||◌, Option, none, some, List, [], ◌∷◌, ◌++◌,
  Str, codes, starts_with, cut, leb, ltb, ◌==◌, if◌then◌else◌,
}
use metrice.Base.Number.{trim}
use metrice.SecureChannel.Frames.{refuse, handle_frame}
use metrice.SecureChannel.{
  Frame, handshake_init, handshake_reply, encrypted_frame, dialback_confirm, onion_cell,
  other_frame, Effect, write_pong, destroy, pause, resume, emit_pong, emit_dialback, emit_onion,
  Env, Channel,
}

-- `Buffer.byteLength(text, 'utf-8')`: a low surrogate behind a high one adds one byte to its three.
unfoldable pub char_bytes : Bool → ℕ → ℕ
char_bytes after_high c =
    if ltb c 0x80
    then 1
    else if ltb c 0x800
    then 2
    else if after_high && (leb 0xDC00 c && leb c 0xDFFF)
    then 1
    else 3

unfoldable pub count_bytes : Bool → Str → ℕ
count_bytes after_high [] = 0
count_bytes after_high (c ∷ s) =
    char_bytes after_high c + count_bytes (leb 0xD800 c && leb c 0xDBFF) s

unfoldable pub byte_length : Str → ℕ
byte_length s = count_bytes false s

-- The text of a chunk that is no keepalive byte
unfoldable pub on_text : Env → Str → Channel → Channel × List Effect
on_text env text c =
    let grown = record c { buffer = c.buffer ++ text } in
    if ltb env.buffer_limit (byte_length (c.buffer ++ text))
    then refuse grown
    else if c.is_processing
    then (grown, [])
    else (record grown { is_processing = true }, pause ∷ [])

-- The listener up to its loop; `text` is what the decoder makes of the bytes.
unfoldable pub on_data : Env → ℕ → List ℕ → Str → Channel → Channel × List Effect
on_data env now [] text c = on_text env text c
on_data env now (b ∷ []) text c =
    if b == 9
    then (c, write_pong ∷ [])
    else if b == 10
    then (record c { last_pong = now }, emit_pong ∷ [])
    else on_text env text c
on_data env now (b ∷ d ∷ bytes) text c = on_text env text c

-- The `finally` block
unfoldable pub finish : Channel × List Effect → Channel × List Effect
finish (c, effects) =
    (record c { is_processing = false }, effects ++ (if c.is_destroyed then [] else resume ∷ []))

-- A line that was parsed
unfoldable pub dispatch : Env → ℕ → Frame → Channel → Channel × List Effect
dispatch env now (dialback_confirm frame) c = (c, emit_dialback frame ∷ [])
dispatch env now (onion_cell frame) c = (c, emit_onion frame ∷ [])
dispatch env now (handshake_init address identity_key kem_key nonce sig) c =
    handle_frame env now (handshake_init address identity_key kem_key nonce sig) c
dispatch env now (handshake_reply address identity_key kem_key encapsulated_key nonce observed sig)
      c =
    handle_frame env now
      (handshake_reply address identity_key kem_key encapsulated_key nonce observed sig) c
dispatch env now (encrypted_frame iv ciphertext auth_tag) c =
    handle_frame env now (encrypted_frame iv ciphertext auth_tag) c
dispatch env now other_frame c = handle_frame env now other_frame c

-- A line that is trimmed
unfoldable pub on_line : Env → ℕ → Str → Channel → Channel × List Effect
on_line env now [] c = (c, [])
on_line env now (b ∷ line) c =
    if b == b'{'
    then elim (env.parse_frame (b ∷ line)) [
      | none ↦ (c, [])
      | some frame ↦ dispatch env now frame c
    ]
    else finish (refuse c)

-- One round of the loop, if it runs
unfoldable pub round : Env → ℕ → Channel → Channel × List Effect
round env now c =
    if c.is_processing
    then elim (cut b'\n' c.buffer) [
      | none ↦ finish (c, [])
      | some p ↦ on_line env now (trim p.0) (record c { buffer = p.1 })
    ]
    else (c, [])

-- The loop, with one round of fuel for each line and one for the end
unfoldable pub drain : Env → ℕ → ℕ → Channel → Channel × List Effect
drain env now zero c = (c, [])
drain env now (suc fuel) c =
    let (next, effects) = round env now c in
    let (last, more) = drain env now fuel next in
    if c.is_processing then (last, effects ++ more) else (c, [])
