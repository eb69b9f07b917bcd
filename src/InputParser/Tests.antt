-- ===== src/InputParser/Tests.antt =====
-- Tests and instances for src/utils/inputParser.js.
use metrice.Base.{
  ℕ, true, false, List, [], ◌∷◌, ◌++◌, ◌≡◌, refl, arith, Str, codes, str_eq, has_char,
}
use metrice.Base.Number.{is_digit}
use metrice.InputParser.Commands.{naws, extract-naws}
use metrice.InputParser.Telnet.{
  resize, key_up, key_enter, char, paste_complete, behind_end, word_at, resize_event, is_naws,
  skip_command, command_events, extract_loop, extract_telnet_events,
}
use metrice.InputParser.{
  started, parse, parse_text, normalize, replace_pairs, replace_returns, trim_start, trim_end,
  strip_edges, has_printable, is_idle, is_block, run, step, step_escape, step_after_esc,
  step_in_sequence, end_sequence, typed, start_escape, reset_escape, esc_actions, key_actions,
  map_escape_sequence, report_events, find_report, report_here, number_and, span_digits,
}

program : Unit {0}
unfolding behind_end word_at resize_event is_naws skip_command command_events extract_loop
    extract_telnet_events parse parse_text normalize replace_pairs replace_returns trim_start
    trim_end strip_edges has_printable is_idle is_block run step step_escape step_after_esc
    step_in_sequence end_sequence typed start_escape reset_escape esc_actions key_actions
    map_escape_sequence report_events find_report report_here number_and span_digits str_eq has_char
    is_digit
program = tt

-- A decoder without state, for ASCII
abbrev decode : Unit {0} → List ℕ → Unit {0} × Str
decode d bytes = (d, bytes)

types_line :
    (parse decode (codes "hi" ++ 13 ∷ 0 ∷ []) (tt, started)).1
    ≡ char (codes "h") ∷ char (codes "i") ∷ key_enter true ∷ []
unfolding program
types_line = refl

arrow : (parse_text (0x1B ∷ codes "[A") started).1 ≡ key_up ∷ []
unfolding program
arrow = refl

report : (parse_text (0x1B ∷ codes "[24;80R") started).1 ≡ resize 80 24 ∷ []
unfolding program
report = refl

block :
    (parse_text (codes "a" ++ 10 ∷ codes "b") started).1
    ≡ paste_complete (codes "a" ++ 10 ∷ codes "b") false ∷ []
unfolding program
block = refl

will_echo :
    extract_telnet_events (0xFF ∷ 0xFB ∷ 1 ∷ codes "x")
    ≡ record { sanitized = codes "x"; events = [] }
unfolding program
will_echo = refl

extract-naws_example : extract_telnet_events (naws 0 80 0 24 ++ codes "x") ≡ record {
  sanitized = (extract_telnet_events (codes "x")).sanitized;
  events = resize 80 24 ∷ (extract_telnet_events (codes "x")).events;
}
extract-naws_example =
    extract-naws 0 80 0 24 (codes "x") (refl, (refl, (refl, (refl, tt)))) (omega arith)
      (omega arith)

-- A width of 255 is sent with its byte doubled, and is read with a height of 65280 instead of 24.
doubled_width : (extract_telnet_events (naws 0 255 0 24)).events ≡ resize 255 65280 ∷ []
unfolding program
doubled_width = refl
