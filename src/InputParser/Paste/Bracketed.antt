-- ===== src/InputParser/Paste/Bracketed.antt =====
-- A bracketed paste through the whole of `parse` of src/utils/inputParser.js.
use metrice.Base.{ℕ, false, ◌&&◌, [], ◌∷◌, ◌≡◌, ◌==◌, Str, codes, if◌then◌else◌}

-- A text in which each carriage return, with a line feed behind it or without, is one line feed
abbrev pub line_ends : Str → Str
line_ends [] = []
line_ends (d ∷ []) = (if d == 13 then 10 else d) ∷ []
line_ends (d ∷ e ∷ s) =
    let both = line_ends s in
    let one = line_ends (e ∷ s) in
    if (d == 13) && (e == 10) then 10 ∷ both else (if d == 13 then 10 else d) ∷ one

abbrev NonZero : ℕ → Type 0
NonZero c = (c == 0) ≡ false

-- The start of a paste without its last character
abbrev paste_open : Str
paste_open = 0x1B ∷ codes "[200"
