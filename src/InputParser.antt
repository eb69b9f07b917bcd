-- ===== src/InputParser.antt =====
-- `InputParser` of src/utils/inputParser.js: the keys and pastes of a terminal.
pub mod Telnet
pub mod Commands
pub mod Paste
mod Tests
use metrice.Base.{
  ℕ, zero, suc, ◌+◌, ◌-◌, ◌*◌, Bool, true, false, not, ◌&&◌, ◌||◌, Option, none, some, List, [],
  ◌∷◌, ◌++◌, Str, codes, str_eq, has_char, ltb, leb, ◌==◌, if◌then◌else◌, length, take,
}
use metrice.Base.Number.{is_digit}
use Telnet.{
  Action, paste_complete, key_esc, key_tab, key_backspace, key_ctrl_w, key_ctrl_u, key_interrupt,
  key_enter, key_up, key_down, key_right, key_left, key_home, key_end, key_delete, key_page_up,
  key_page_down, key_unknown, char, extract_telnet_events, resize_event,
}

-- `escapeState`: 0, 1 and 2.
pub data EscapeState : Type 0 where
  idle after_esc in_sequence : EscapeState

-- The fields of the parser, less the decoder.
pub record Parser : Type 0 where
  pub escape_state : EscapeState
  pub escape_code : Str
  pub is_paste_mode : Bool
  pub paste_buffer : Str

-- `new InputParser()`
abbrev pub started : Parser
started = record { escape_state = idle; escape_code = []; is_paste_mode = false; paste_buffer = [] }

-- The parser behind a character, and the actions it pushed.
abbrev pub Result : Type 0
Result = Parser × List Action

unfoldable pub esc : ℕ
esc = 0x1B

-- `\d+` at the front: the digits, their value read on from `n`, and the text behind them.
unfoldable pub span_digits : ℕ → Str → ℕ × Str
span_digits n [] = (n, [])
span_digits n (c ∷ s) =
    let rest = span_digits (n * 10 + (c - b'0')) s in if is_digit c then rest else (n, c ∷ s)

-- `(\d+)` and one more character
unfoldable pub number_and : ℕ → Str → Option (ℕ × Str)
number_and stop [] = none
number_and stop (c ∷ s) =
    let (n, rest) = span_digits 0 (c ∷ s) in
    if is_digit c
    then elim rest [ [] ↦ none | d ∷ more ↦ if d == stop then some (n, more) else none ]
    else none

-- `/\x1b\[(\d+);(\d+)R/` at the front
unfoldable pub report_here : Str → Option (ℕ × ℕ)
report_here (c ∷ d ∷ s) =
    if (c == 0x1B) && (d == b'[')
    then elim (number_and b';' s) [
      | none ↦ none
      | some first ↦ elim (number_and b'R' first.1) [
        | none ↦ none
        | some second ↦ some (first.0, second.0)
      ]
    ]
    else none
report_here _ = none

-- `escapeCode.match(/\x1b\[(\d+);(\d+)R/)`, with the row and the column
unfoldable pub find_report : Str → Option (ℕ × ℕ)
find_report [] = none
find_report (c ∷ s) =
    let later = find_report s in
    elim (report_here (c ∷ s)) [ none ↦ later | some found ↦ some found ]

unfoldable pub report_events : Str → List Action
report_events code = elim (find_report code) [
  | none ↦ []
  | some found ↦ resize_event found.1 found.0
]

-- `mapEscapeSequence(seq)`
unfoldable pub map_escape_sequence : Str → Action
map_escape_sequence seq =
    if str_eq seq (0x1B ∷ codes "[A") || str_eq seq (0x1B ∷ codes "OA")
    then key_up
    else if str_eq seq (0x1B ∷ codes "[B") || str_eq seq (0x1B ∷ codes "OB")
    then key_down
    else if str_eq seq (0x1B ∷ codes "[C") || str_eq seq (0x1B ∷ codes "OC")
    then key_right
    else if str_eq seq (0x1B ∷ codes "[D") || str_eq seq (0x1B ∷ codes "OD")
    then key_left
    else if str_eq seq (0x1B ∷ codes "[H") || str_eq seq (0x1B ∷ codes "[1~")
    then key_home
    else if str_eq seq (0x1B ∷ codes "[F") || str_eq seq (0x1B ∷ codes "[4~")
    then key_end
    else if str_eq seq (0x1B ∷ codes "[3~")
    then key_delete
    else if str_eq seq (0x1B ∷ codes "[5~")
    then key_page_up
    else if str_eq seq (0x1B ∷ codes "[6~")
    then key_page_down
    else key_unknown seq

-- The chain of tests at the end of the loop
unfoldable pub key_actions : Bool → ℕ → List Action
key_actions has_chars code =
    if code == 0x09
    then (if has_chars then char (codes "  ") ∷ [] else key_tab ∷ [])
    else if code == 0x0A
    then key_enter has_chars ∷ []
    else if (code == 0x08) || (code == 0x7F)
    then key_backspace ∷ []
    else if code == 0x17
    then key_ctrl_w ∷ []
    else if code == 0x15
    then key_ctrl_u ∷ []
    else if (code == 0x03) || (code == 0x04)
    then key_interrupt ∷ []
    else if leb 32 code
    then char (code ∷ []) ∷ []
    else []

-- A character outside of escape sequences. In a paste it goes to the buffer of at most 64 KB.
unfoldable pub typed : Bool → ℕ → Parser → Result
typed has_chars code p =
    if p.is_paste_mode
    then (
      (if ltb (length p.paste_buffer) 65536
          then record p { paste_buffer = p.paste_buffer ++ code ∷ [] }
          else p),
      [],
    )
    else (p, key_actions has_chars code)

unfoldable pub reset_escape : Parser → Parser
reset_escape p = record p { escape_state = idle; escape_code = [] }

unfoldable pub start_escape : Parser → Parser
start_escape p = record p { escape_state = after_esc; escape_code = 0x1B ∷ [] }

-- `if (!this.isPasteMode) actions.push({ type: 'KEY_ESC' })`
unfoldable pub esc_actions : Parser → List Action
esc_actions p = if p.is_paste_mode then [] else key_esc ∷ []

-- `escapeState === 1`
unfoldable pub step_after_esc : Bool → ℕ → Parser → Result
step_after_esc has_chars code p =
    if code == 0x1B
    then (start_escape p, esc_actions p)
    else if (code == b'[') || (code == b'O')
    then (record p { escape_state = in_sequence; escape_code = p.escape_code ++ code ∷ [] }, [])
    else (let (next, actions) = typed has_chars code (reset_escape p) in
        (next, esc_actions p ++ actions))

-- The end of a sequence, with the whole of it in `escapeCode`
unfoldable pub end_sequence : Parser → Result
end_sequence p =
    if str_eq p.escape_code (0x1B ∷ codes "[200~")
    then (reset_escape (record p { is_paste_mode = true; paste_buffer = [] }), [])
    else if str_eq p.escape_code (0x1B ∷ codes "[201~")
    then (
      reset_escape (record p { is_paste_mode = false; paste_buffer = [] }),
      paste_complete p.paste_buffer true ∷ [],
    )
    else (reset_escape p, (if p.is_paste_mode then [] else map_escape_sequence p.escape_code ∷ []))

-- `escapeState === 2`
unfoldable pub step_in_sequence : ℕ → Parser → Result
step_in_sequence code p =
    let longer = record p { escape_code = p.escape_code ++ code ∷ [] } in
    if code == 0x1B
    then (start_escape p, [])
    else if code == b'R'
    then (reset_escape longer, report_events longer.escape_code)
    else if (code == b'~') || (leb 0x40 code && leb code 0x7E)
    then end_sequence longer
    else (longer, [])

unfoldable pub step_escape : EscapeState → Bool → ℕ → Parser → Result
step_escape idle has_chars code p =
    if code == 0x1B then (start_escape p, []) else typed has_chars code p
step_escape after_esc has_chars code p = step_after_esc has_chars code p
step_escape in_sequence has_chars code p = step_in_sequence code p

-- One round of the loop of `parse`
unfoldable pub step : Bool → ℕ → Parser → Result
step has_chars code p = if code == 0 then (p, []) else step_escape p.escape_state has_chars code p

-- The loop over the characters
unfoldable pub run : Bool → Str → Parser → Result
run has_chars [] p = (p, [])
run has_chars (c ∷ text) p =
    let (next, actions) = step has_chars c p in
    let (last, more) = run has_chars text next in (last, actions ++ more)

-- `text.replace(/\r<c>/g, '\n')`
unfoldable pub replace_pairs : ℕ → Str → Str
replace_pairs c [] = []
replace_pairs c (d ∷ []) = d ∷ []
replace_pairs c (d ∷ e ∷ s) =
    let both = replace_pairs c s in
    let one = replace_pairs c (e ∷ s) in if (d == 13) && (e == c) then 10 ∷ both else d ∷ one

-- `text.replace(/\r/g, '\n')`
unfoldable pub replace_returns : Str → Str
replace_returns [] = []
replace_returns (c ∷ s) = (if c == 13 then 10 else c) ∷ replace_returns s

unfoldable pub normalize : Str → Str
normalize text = replace_returns (replace_pairs 10 (replace_pairs 0 text))

unfoldable pub trim_start : Str → Str
trim_start [] = []
trim_start (c ∷ s) = let rest = trim_start s in if c == 10 then rest else c ∷ s

unfoldable pub trim_end : Str → Str
trim_end [] = []
trim_end (c ∷ s) = let rest = trim_end s in if (c == 10) && (length rest == 0) then [] else c ∷ rest

-- `text.replace(/^\n+|\n+$/g, '')`
unfoldable pub strip_edges : Str → Str
strip_edges text = trim_end (trim_start text)

-- The loop for `hasCharsInChunk`
unfoldable pub has_printable : Str → Bool
has_printable [] = false
has_printable (c ∷ s) = (leb 32 c && not (c == 0x7F)) || has_printable s

unfoldable pub is_idle : EscapeState → Bool
is_idle idle = true
is_idle _ = false

-- The test for a block of several lines that is pasted without brackets
unfoldable pub is_block : Str → Parser → Bool
is_block text p =
    (not p.is_paste_mode && is_idle p.escape_state)
    && (not (has_char 0x1B text) && has_char 10 (strip_edges text))

-- `parse` behind the decoder and the replacement of carriage returns
unfoldable pub parse_text : Str → Parser → Result
parse_text text p =
    if is_block text p
    then (p, paste_complete (take 65536 (strip_edges text)) false ∷ [])
    else run (has_printable text) text p

-- `parse(rawBuffer)`. The decoder of `node:string_decoder` keeps a state of its own.
module _ {D : Type 0} (write : D → List ℕ → D × Str) where
  unfoldable pub parse : List ℕ → D × Parser → (D × Parser) × List Action
  parse raw_buffer (decoder, p) =
      let extracted = extract_telnet_events raw_buffer in
      let (decoder', text) = write decoder extracted.sanitized in
      let (p', actions) = parse_text (normalize text) p in
      if length extracted.sanitized == 0
      then ((decoder, p), extracted.events)
      else ((decoder', p'), extracted.events ++ actions)
