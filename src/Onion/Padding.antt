-- ===== src/Onion/Padding.antt =====
-- The size of a padded cell of src/core/onionRouter.js.
use metrice.Base.{
  ℕ, zero, suc, ◌+◌, ◌-◌, Bool, false, ◌&&◌, ◌≡◌, refl, sym, ap, subst, ◌∙◌, arith, List, [], ◌∷◌,
  ◌++◌, append_assoc, map, Str, codes, join, leb, if◌then◌else◌, replicate,
}
use metrice.SecureChannel.Lines.{char_bytes, count_bytes, byte_length}
use metrice.SecureChannel.{escape_char, escape, json_text, json_field, json_object}
use metrice.Onion.{uniform_cell_size, Cell, padded_text, pad_of, format_padded_cell}

-- `longer` takes `n` bytes more than `short`, whatever stands around them.
abbrev Grows : ℕ → Str → Str → Type 0
Grows n short longer =
    (after_high : Bool) (z : Str)
    → count_bytes after_high (longer ++ z) ≡ n + count_bytes after_high (short ++ z)

Grows-front :
    (n : ℕ) (x short longer : Str) → Grows n short longer → Grows n (x ++ short) (x ++ longer)
unfolding count_bytes
Grows-front n [] short longer h f z = h f z
Grows-front n (c ∷ x) short longer h f z =
    let rest = Grows-front n x short longer h (leb 0xD800 c && leb c 0xDBFF) z in
    omega (arith, rest)

Grows-back :
    (n : ℕ) (short longer x : Str) → Grows n short longer → Grows n (short ++ x) (longer ++ x)
Grows-back n short longer x h f z =
    ap (count_bytes f) (append_assoc longer x z)
    ∙ (h f (x ++ z) ∙ ap (λ t. n + count_bytes f t) (sym (append_assoc short x z)))

escape-zeros : (n : ℕ) → escape (replicate n b'0') ≡ replicate n b'0'
unfolding escape escape_char
escape-zeros zero = refl
escape-zeros (suc n) = ap (◌∷◌ b'0') (escape-zeros n)

quote_bytes : (f : Bool) (z : Str) → count_bytes f (b'"' ∷ z) ≡ suc (count_bytes false z)
unfolding count_bytes char_bytes
quote_bytes f z = ground arith

zeros-Grows : (n : ℕ) → Grows n (codes "\"") (replicate n b'0' ++ codes "\"")
unfolding count_bytes char_bytes
zeros-Grows zero f z = omega arith
zeros-Grows (suc n) f z =
    let rest = zeros-Grows n false z in
    let here = quote_bytes f z in
    let there = quote_bytes false z in ground (arith, rest, here, there)

join-Grows :
    (n : ℕ) (texts : List Str) (short longer : Str)
    → Grows n short longer
    → Grows n (join (codes ",") (texts ++ short ∷ [])) (join (codes ",") (texts ++ longer ∷ []))
unfolding join
join-Grows n [] short longer h = h
join-Grows n (s ∷ []) short longer h =
    Grows-front n s (codes "," ++ short) (codes "," ++ longer)
      (Grows-front n (codes ",") short longer h)
join-Grows n (s ∷ t ∷ texts) short longer h =
    let rest = join-Grows n (t ∷ texts) short longer h in
    Grows-front n s (codes "," ++ join (codes ",") ((t ∷ texts) ++ short ∷ []))
      (codes "," ++ join (codes ",") ((t ∷ texts) ++ longer ∷ []))
      (Grows-front n (codes ",") (join (codes ",") ((t ∷ texts) ++ short ∷ []))
        (join (codes ",") ((t ∷ texts) ++ longer ∷ [])) rest)

-- The field `pad`
pad_field-Grows :
    (n : ℕ)
    → Grows n
        (json_field (codes "pad", json_text []))
        (json_field (codes "pad", json_text (replicate n b'0')))
unfolding json_field json_text escape
pad_field-Grows n =
    let key = codes "\"" ++ (escape (codes "pad") ++ codes "\"") in
    let quoted = codes ":" ++ codes "\"" in
    Grows-front n key (quoted ++ codes "\"") (quoted ++ (escape (replicate n b'0') ++ codes "\"")) (
      Grows-front n quoted (codes "\"") (escape (replicate n b'0') ++ codes "\"") (
        subst (λ t. Grows n (codes "\"") (t ++ codes "\"")) (sym (escape-zeros n)) (zeros-Grows n)))

pad-Grows : (c : Cell) (n : ℕ) → Grows n (padded_text c []) (padded_text c (replicate n b'0'))
unfolding padded_text json_object
pad-Grows c n =
    let fields = map json_field (
      (codes "type", json_text (codes "ONION_CELL"))
      ∷ (codes "circuitId", json_text c.circuit_id)
      ∷ (codes "iv", json_text c.iv)
      ∷ (codes "authTag", json_text c.auth_tag)
      ∷ (codes "ciphertext", json_text c.ciphertext)
      ∷ []) in
    let short = json_field (codes "pad", json_text []) in
    let longer = json_field (codes "pad", json_text (replicate n b'0')) in
    let inside = join-Grows n fields short longer (pad_field-Grows n) in
    Grows-front n (codes "{") (join (codes ",") (fields ++ short ∷ []) ++ codes "}")
      (join (codes ",") (fields ++ longer ∷ []) ++ codes "}")
      (Grows-back n (join (codes ",") (fields ++ short ∷ []))
        (join (codes ",") (fields ++ longer ∷ [])) (codes "}") inside)

-- A padded cell takes exactly the uniform size, its line end included, when it is not longer without padding; if it is,
-- it stays as long as it is.
pub length-format_padded_cell :
    (c : Cell)
    → byte_length (format_padded_cell c) ≡ (
        if leb (byte_length (padded_text c [] ++ codes "\n")) uniform_cell_size
        then uniform_cell_size
        else byte_length (padded_text c [] ++ codes "\n"))
unfolding format_padded_cell pad_of byte_length
length-format_padded_cell c =
    let size = count_bytes false (padded_text c [] ++ codes "\n") in
    let grown = pad-Grows c (uniform_cell_size - size) false (codes "\n") in ground (arith, grown)
