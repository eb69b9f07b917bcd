-- ===== src/InputParser/Commands.antt =====
-- What `extractTelnetEvents` of src/utils/inputParser.js takes out of the bytes.
use metrice.Base.{
  ℕ, zero, suc, ◌+◌, ◌*◌, ◌≤◌, ◌<◌, false, List, [], ◌∷◌, ◌++◌, ◌≡◌, refl, arith, inl, inr, ◌==◌,
  length, drop, if◌then◌else◌, ap, ◌∙◌, length-drop, All, Bool-cases,
}
use metrice.InputParser.Telnet.{
  Action, resize, Extracted, behind_end, word_at, resize_event, is_naws, skip_command,
  command_events, extract_loop, extract_telnet_events,
}

-- A byte that starts no command
abbrev pub IsPlain : ℕ → Type 0
IsPlain b = (b == 0xFF) ≡ false

length-behind_end-le : (bytes : List ℕ) → length (behind_end bytes) ≤ length bytes
unfolding behind_end
length-behind_end-le [] = omega arith
length-behind_end-le (b ∷ bytes) = ground (arith, length-behind_end-le bytes)

length-skip_command-le : (rest : List ℕ) → length (skip_command rest) ≤ length rest
unfolding skip_command
length-skip_command-le rest = ground (
  arith,
  length-behind_end-le (drop 5 rest),
  length-behind_end-le (drop 1 rest),
  length-drop 5 rest,
  length-drop 2 rest,
  length-drop 1 rest,
)

-- Fuel over the number of bytes changes nothing.
extract_loop_fuel :
    (n m : ℕ) (bytes : List ℕ)
    → length bytes ≤ n
    → length bytes ≤ m
    → extract_loop n bytes ≡ extract_loop m bytes
unfolding extract_loop
extract_loop_fuel zero zero bytes h k = refl
extract_loop_fuel zero (suc m) [] h k = refl
extract_loop_fuel zero (suc m) (b ∷ rest) h k = absurd (omega arith)
extract_loop_fuel (suc n) zero [] h k = refl
extract_loop_fuel (suc n) zero (b ∷ rest) h k = absurd (omega arith)
extract_loop_fuel (suc n) (suc m) [] h k = refl
extract_loop_fuel (suc n) (suc m) (b ∷ rest) h k =
    let shorter = length-skip_command-le rest in
    let behind = extract_loop_fuel n m (skip_command rest) (omega arith) (omega arith) in
    let next = extract_loop_fuel n m rest (omega arith) (omega arith) in
    elim (Bool-cases (b == 0xFF)) [
      | inl command ↦ rw (command, extract_loop, behind) refl
      | inr plain ↦ rw (plain, extract_loop, next) refl
    ]

-- The loop ends: with any fuel of at least the length of the buffer, it reads the buffer to its end.
pub extract_loop_enough :
    (fuel : ℕ) (buffer : List ℕ)
    → length buffer ≤ fuel
    → extract_loop fuel buffer ≡ extract_telnet_events buffer
unfolding extract_telnet_events
extract_loop_enough fuel buffer enough =
    extract_loop_fuel fuel (length buffer) buffer enough (omega arith)

extract_loop-IsPlain : (fuel : ℕ) (bytes : List ℕ) → All IsPlain (extract_loop fuel bytes).sanitized
unfolding extract_loop
extract_loop-IsPlain zero bytes = tt
extract_loop-IsPlain (suc fuel) [] = tt
extract_loop-IsPlain (suc fuel) (b ∷ rest) = elim (Bool-cases (b == 0xFF)) [
  | inl command ↦ rw (command, extract_loop) (extract_loop-IsPlain fuel (skip_command rest))
  | inr plain ↦ rw (plain, extract_loop) (plain, extract_loop-IsPlain fuel rest)
]

extract_loop_plain :
    (fuel : ℕ) (bytes : List ℕ)
    → length bytes ≤ fuel
    → All IsPlain bytes
    → extract_loop fuel bytes ≡ record { sanitized = bytes; events = [] }
unfolding extract_loop
extract_loop_plain zero [] h k = refl
extract_loop_plain zero (b ∷ rest) h k = absurd (omega arith)
extract_loop_plain (suc fuel) [] h k = refl
extract_loop_plain (suc fuel) (b ∷ rest) h (plain, k) =
    rw (plain, extract_loop, extract_loop_plain fuel rest (omega arith) k) refl

-- Whatever the client sends, no byte 0xFF is left; and bytes without a command are left as they are,
-- with no event.
pub sanitized-IsPlain :
    (buffer plain : List ℕ)
    → All IsPlain plain
    → All IsPlain (extract_telnet_events buffer).sanitized
      × (extract_telnet_events plain ≡ record { sanitized = plain; events = [] })
unfolding extract_telnet_events
sanitized-IsPlain buffer plain is_plain = (
  extract_loop-IsPlain (length buffer) buffer,
  extract_loop_plain (length plain) plain (omega arith) is_plain,
)

-- A byte of a subnegotiation, where 0xFF is doubled
abbrev pub doubled : ℕ → List ℕ
doubled b = if b == 0xFF then b ∷ b ∷ [] else b ∷ []

-- The subnegotiation of a window size by RFC 1073
abbrev pub naws : ℕ → ℕ → ℕ → ℕ → List ℕ
naws w1 w0 h1 h0 =
    0xFF
    ∷ 0xFA
    ∷ 0x1F
    ∷ (doubled w1 ++ (doubled w0 ++ (doubled h1 ++ (doubled h0 ++ 0xFF ∷ 0xF0 ∷ []))))

-- Without a byte 0xFF nothing is doubled.
naws_plain :
    (w1 w0 h1 h0 : ℕ)
    → All IsPlain (w1 ∷ w0 ∷ h1 ∷ h0 ∷ [])
    → naws w1 w0 h1 h0 ≡ 0xFF ∷ 0xFA ∷ 0x1F ∷ w1 ∷ w0 ∷ h1 ∷ h0 ∷ 0xFF ∷ 0xF0 ∷ []
naws_plain w1 w0 h1 h0 (a, (b, (c, (d, _)))) = rw (a, b, c, d) refl

command_step :
    (fuel : ℕ) (rest : List ℕ) (events : List Action) (after : Extracted)
    → command_events rest ≡ events
    → extract_loop fuel (skip_command rest) ≡ after
    → extract_loop (suc fuel) (0xFF ∷ rest)
      ≡ record { sanitized = after.sanitized; events = events ++ after.events }
unfolding extract_loop
command_step fuel rest events after same_events same_after = rw (same_events, same_after) refl

-- The search for the end finds the last byte of the command, or the low byte of the height if that is
-- 0xF0; then the two bytes behind it are a command of their own.
naws_end :
    (fuel h0 : ℕ) (rest : List ℕ)
    → suc (suc (length rest)) ≤ fuel
    → extract_loop fuel (behind_end (h0 ∷ 0xFF ∷ 0xF0 ∷ rest)) ≡ extract_loop (length rest) rest
unfolding behind_end
naws_end zero h0 rest enough = absurd (omega arith)
naws_end (suc fuel) h0 rest enough = elim (Bool-cases (h0 == 0xF0)) [
  | inl early ↦
      rw (early, behind_end)
        (unfold extract_loop skip_command command_events is_naws in
          extract_loop_fuel fuel (length rest) rest (omega arith) (omega arith))
  | inr late ↦
      rw (late, behind_end)
        (extract_loop_fuel (suc fuel) (length rest) rest (omega arith) (omega arith))
]

read_naws :
    (w1 w0 h1 h0 : ℕ) (rest : List ℕ)
    → 0 < w1 * 256 + w0
    → 0 < h1 * 256 + h0
    → extract_telnet_events (0xFF ∷ 0xFA ∷ 0x1F ∷ w1 ∷ w0 ∷ h1 ∷ h0 ∷ 0xFF ∷ 0xF0 ∷ rest) ≡ record {
      sanitized = (extract_telnet_events rest).sanitized;
      events = resize (w1 * 256 + w0) (h1 * 256 + h0) ∷ (extract_telnet_events rest).events;
    }
unfolding extract_telnet_events
read_naws w1 w0 h1 h0 rest wide high =
    let command = 0xFA ∷ 0x1F ∷ w1 ∷ w0 ∷ h1 ∷ h0 ∷ 0xFF ∷ 0xF0 ∷ rest in
    let fuel = suc (suc (suc (suc (suc (suc (suc (suc (length rest)))))))) in
    let size : command_events command ≡ resize (w1 * 256 + w0) (h1 * 256 + h0) ∷ [] =
      unfold command_events is_naws word_at resize_event in ground arith in
    let end : extract_loop fuel (skip_command command) ≡ extract_loop (length rest) rest =
      unfold skip_command is_naws in naws_end fuel h0 rest (omega arith) in
    command_step fuel command (resize (w1 * 256 + w0) (h1 * 256 + h0) ∷ [])
      (extract_loop (length rest) rest) size end

-- A window size with both sides over zero and without a byte 0xFF, which RFC 1073 doubles, becomes one event with these
-- sides, and the bytes behind it are read as if it had not been there.
pub extract-naws :
    (w1 w0 h1 h0 : ℕ) (rest : List ℕ)
    → All IsPlain (w1 ∷ w0 ∷ h1 ∷ h0 ∷ [])
    → 0 < w1 * 256 + w0
    → 0 < h1 * 256 + h0
    → extract_telnet_events (naws w1 w0 h1 h0 ++ rest) ≡ record {
      sanitized = (extract_telnet_events rest).sanitized;
      events = resize (w1 * 256 + w0) (h1 * 256 + h0) ∷ (extract_telnet_events rest).events;
    }
extract-naws w1 w0 h1 h0 rest plain wide high =
    ap (λ bytes. extract_telnet_events (bytes ++ rest)) (naws_plain w1 w0 h1 h0 plain)
    ∙ read_naws w1 w0 h1 h0 rest wide high
