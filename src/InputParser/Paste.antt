-- ===== src/InputParser/Paste.antt =====
-- The pastes of src/utils/inputParser.js: bounded, and never read as keys.
pub mod Bracketed
use metrice.Base.{
  ℕ, ◌≤◌, Bool, true, false, ◌&&◌, List, [], ◌∷◌, ◌++◌, ◌≡◌, refl, arith, inl, inr, leb, le→leb,
  ◌==◌, length, length-append, length-take, Bool-cases, Str, codes, take,
}
use metrice.InputParser.Telnet.{Action, paste_complete, resize_event}
use metrice.InputParser.{
  Parser, Result, EscapeState, idle, after_esc, in_sequence, step, step_escape, step_after_esc,
  step_in_sequence, end_sequence, typed, reset_escape, start_escape, esc_actions, key_actions,
  map_escape_sequence, report_events, run, is_block, strip_edges, has_printable, parse_text,
}

-- No paste among the actions is longer than 64 KB.
abbrev pub small_pastes : List Action → Bool
small_pastes [] = true
small_pastes (paste_complete content bracketed ∷ actions) =
    leb (length content) 65536 && small_pastes actions
small_pastes (_ ∷ actions) = small_pastes actions

small_pastes-append :
    (a b : List Action)
    → small_pastes a ≡ true
    → small_pastes b ≡ true
    → small_pastes (a ++ b) ≡ true
small_pastes-append [] b h k = k
small_pastes-append (x ∷ a) b h k = ground (arith, small_pastes-append a b)

-- The buffer is bounded, and so are the pastes that were completed.
abbrev pub IsBounded : Result → Type 0
IsBounded r = (length r.0.paste_buffer ≤ 65536) × (small_pastes r.1 ≡ true)

key_actions_small : (has_chars : Bool) (code : ℕ) → small_pastes (key_actions has_chars code) ≡ true
unfolding key_actions
key_actions_small has_chars code = ground arith

map_escape_sequence_small : (seq : Str) → small_pastes (map_escape_sequence seq ∷ []) ≡ true
unfolding map_escape_sequence
map_escape_sequence_small seq = ground arith

report_events_small : (code : Str) → small_pastes (report_events code) ≡ true
unfolding report_events resize_event
report_events_small code = ground arith

typed-IsBounded :
    (has_chars : Bool) (code : ℕ) (p : Parser)
    → length p.paste_buffer ≤ 65536
    → IsBounded (typed has_chars code p)
unfolding typed
typed-IsBounded has_chars code p h =
    ground (arith, key_actions_small has_chars code, length-append p.paste_buffer (code ∷ []))

end_sequence-IsBounded : (p : Parser) → length p.paste_buffer ≤ 65536 → IsBounded (end_sequence p)
unfolding end_sequence reset_escape
end_sequence-IsBounded p h = ground (arith, map_escape_sequence_small p.escape_code)

esc_actions_small : (p : Parser) → small_pastes (esc_actions p) ≡ true
unfolding esc_actions
esc_actions_small p = ground arith

step_after_esc-IsBounded :
    (has_chars : Bool) (code : ℕ) (p : Parser)
    → length p.paste_buffer ≤ 65536
    → IsBounded (step_after_esc has_chars code p)
unfolding step_after_esc start_escape reset_escape
step_after_esc-IsBounded has_chars code p h =
    let plain =
      typed-IsBounded has_chars code (record p { escape_state = idle; escape_code = [] }) h in
    let quiet = esc_actions_small p in
    let both =
      small_pastes-append (esc_actions p)
        (typed has_chars code (record p { escape_state = idle; escape_code = [] })).1 quiet
        plain.1 in
    ground (arith, plain, quiet, both)

step_in_sequence-IsBounded :
    (code : ℕ) (p : Parser) → length p.paste_buffer ≤ 65536 → IsBounded (step_in_sequence code p)
unfolding step_in_sequence start_escape reset_escape
step_in_sequence-IsBounded code p h =
    let longer = record p { escape_code = p.escape_code ++ code ∷ [] } in
    ground (arith, end_sequence-IsBounded longer h, report_events_small longer.escape_code)

step_escape-IsBounded :
    (state : EscapeState) (has_chars : Bool) (code : ℕ) (p : Parser)
    → length p.paste_buffer ≤ 65536
    → IsBounded (step_escape state has_chars code p)
unfolding step_escape start_escape
step_escape-IsBounded idle has_chars code p h = ground (arith, typed-IsBounded has_chars code p h)
step_escape-IsBounded after_esc has_chars code p h = step_after_esc-IsBounded has_chars code p h
step_escape-IsBounded in_sequence has_chars code p h = step_in_sequence-IsBounded code p h

step-IsBounded :
    (has_chars : Bool) (code : ℕ) (p : Parser)
    → length p.paste_buffer ≤ 65536
    → IsBounded (step has_chars code p)
unfolding step
step-IsBounded has_chars code p h =
    ground (arith, step_escape-IsBounded p.escape_state has_chars code p h)

run-IsBounded :
    (has_chars : Bool) (text : Str) (p : Parser)
    → length p.paste_buffer ≤ 65536
    → IsBounded (run has_chars text p)
unfolding run
run-IsBounded has_chars [] p h = (h, refl)
run-IsBounded has_chars (c ∷ text) p h =
    let first = step-IsBounded has_chars c p h in
    let rest = run-IsBounded has_chars text (step has_chars c p).0 first.0 in
    (rest.0, small_pastes-append (step has_chars c p).1 _ first.1 rest.1)

short_content : (text : Str) → leb (length (take 65536 text)) 65536 ≡ true
short_content text = le→leb _ _ (omega (arith, length-take 65536 text))

-- Whatever text arrives, and in whatever state, the paste buffer stays within 64 KB, and no paste of
-- more than 64 KB is handed on, bracketed or not.
pub parse_text-IsBounded :
    (text : Str) (p : Parser) → length p.paste_buffer ≤ 65536 → IsBounded (parse_text text p)
unfolding parse_text
parse_text-IsBounded text p h = elim (Bool-cases (is_block text p)) [
  | inl block ↦ rw block (h, rw (short_content (strip_edges text)) refl)
  | inr other ↦ rw other (run-IsBounded (has_printable text) text p h)
]

-- A character of a paste: no escape and no zero.
abbrev pub IsPasted : ℕ → Type 0
IsPasted c = ((c == 0x1B) ≡ false) × ((c == 0) ≡ false)

-- A parser within a paste
abbrev pub pasting : Str → Parser
pasting buffer = record {
  escape_state = idle;
  escape_code = [];
  is_paste_mode = true;
  paste_buffer = buffer;
}

abbrev pub paste_start : Str
paste_start = 0x1B ∷ codes "[200~"

abbrev pub paste_end : Str
paste_end = 0x1B ∷ codes "[201~"

-- An idle parser, outside of a paste
abbrev pub resting : Str → Parser
resting buffer = record {
  escape_state = idle;
  escape_code = [];
  is_paste_mode = false;
  paste_buffer = buffer;
}
