-- ===== src/InputParser/Telnet.antt =====
-- `extractTelnetEvents` of src/utils/inputParser.js, and the actions of the parser.
use metrice.Base.{
  ℕ, zero, suc, ◌+◌, ◌*◌, Bool, true, false, ◌&&◌, List, [], ◌∷◌, ◌++◌, Str, ltb, leb, ◌==◌,
  if◌then◌else◌, length, drop, get_or,
}

pub data Action : Type 0 where
  resize : ℕ → ℕ → Action
  paste_complete : Str → Bool → Action
  key_esc key_tab key_backspace key_ctrl_w key_ctrl_u key_interrupt : Action
  key_enter : Bool → Action
  key_up key_down key_right key_left key_home key_end key_delete key_page_up key_page_down : Action
  key_unknown char : Str → Action

-- The bytes that are left, and the events.
pub record Extracted : Type 0 where
  pub sanitized : List ℕ
  pub events : List Action

-- `while (i < buffer.length && buffer[i] !== 0xF0) i++;` and the `i++` of the loop.
unfoldable pub behind_end : List ℕ → List ℕ
behind_end [] = []
behind_end (b ∷ bytes) = if b == 0xF0 then bytes else behind_end bytes

-- `(buffer[i] << 8) | buffer[i + 1]`; a byte behind the end counts as 0.
unfoldable pub word_at : List ℕ → ℕ → ℕ
word_at bytes i = get_or bytes i 0 * 256 + get_or bytes (i + 1) 0

-- `if (width > 0 && height > 0) events.push({ type: 'RESIZE', width, height })`
unfoldable pub resize_event : ℕ → ℕ → List Action
resize_event width height = if ltb 0 width && ltb 0 height then resize width height ∷ [] else []

unfoldable pub is_naws : List ℕ → Bool
is_naws rest = (get_or rest 0 0 == 0xFA) && (get_or rest 1 0 == 0x1F)

-- What follows the command whose first byte, 0xFF, stands in front of `rest`.
unfoldable pub skip_command : List ℕ → List ℕ
skip_command rest =
    if is_naws rest
    then behind_end (drop 5 rest)
    else if leb 0xFA (get_or rest 0 0) && leb (get_or rest 0 0) 0xFE
    then (if get_or rest 0 0 == 0xFA then behind_end (drop 1 rest) else drop 2 rest)
    else drop 1 rest

unfoldable pub command_events : List ℕ → List Action
command_events rest = if is_naws rest then resize_event (word_at rest 2) (word_at rest 4) else []

-- The loop from the bytes on that are still to be read. Fuel `buffer.length` is enough.
unfoldable pub extract_loop : ℕ → List ℕ → Extracted
extract_loop zero bytes = record { sanitized = []; events = [] }
extract_loop (suc fuel) [] = record { sanitized = []; events = [] }
extract_loop (suc fuel) (b ∷ rest) = elim (b == 0xFF) [
  | true ↦
      let after = extract_loop fuel (skip_command rest) in
      record { sanitized = after.sanitized; events = command_events rest ++ after.events }
  | false ↦
      let after = extract_loop fuel rest in
      record { sanitized = b ∷ after.sanitized; events = after.events }
]

-- `extractTelnetEvents(buffer)`
unfoldable pub extract_telnet_events : List ℕ → Extracted
extract_telnet_events buffer = extract_loop (length buffer) buffer
