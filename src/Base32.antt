-- ===== src/Base32.antt =====
-- `Base32` of src/utils/base32.js: RFC 4648 text with the lower case alphabet.
pub mod Steps
pub mod RoundTrip
mod Tests
use metrice.Base.{
  ℕ, zero, suc, ◌+◌, ◌-◌, ◌*◌, ◌/◌, ◌%◌, ◌^◌, true, false, Option, none, some, List, [], ◌∷◌, ◌++◌,
  Str, codes, to_lower, ltb, leb, ◌==◌, if◌then◌else◌, length, get_or, replicate, ◌≡◌, refl,
}

abbrev pub alphabet : Str
alphabet = codes "abcdefghijklmnopqrstuvwxyz234567"

-- `ALPHABET[i]`; every index that the code uses is below 32.
unfoldable pub letter : ℕ → ℕ
letter i = get_or alphabet i 0

-- `while (bits >= 5) { output += ALPHABET[(value >>> (bits - 5)) & 31]; bits -= 5; }`, with the bits
-- left and the letters written. `value` is the 32-bit pattern; fuel `bits` is enough.
unfoldable pub emit : ℕ → ℕ → ℕ → Str → ℕ × Str
unfolding letter
emit zero value bits output = (bits, output)
emit (suc fuel) value bits output =
    let next = emit fuel value (bits - 5) (output ++ letter ((value / 2 ^ (bits - 5)) % 32) ∷ []) in
    if leb 5 bits then next else (bits, output)

-- `if (bits > 0) output += ALPHABET[(value << (5 - bits)) & 31];`
unfoldable pub flush : ℕ → ℕ → Str → Str
unfolding letter
flush value bits output =
    if ltb 0 bits then output ++ letter ((value * 2 ^ (5 - bits)) % 2 ^ 32 % 32) ∷ [] else output

-- `value = (value << 8) | byte`, on 32 bits: the low eight bits of the shifted value are zero.
unfoldable pub push_byte : ℕ → ℕ → ℕ
push_byte value byte = (value * 256) % 2 ^ 32 + byte

-- The loop over the bytes, from the state (value, bits, output).
unfoldable pub encode_loop : List ℕ → ℕ → ℕ → Str → Str
encode_loop [] value bits output = flush value bits output
encode_loop (byte ∷ buf) value bits output =
    let value' = push_byte value byte in
    let (bits', output') = emit (bits + 8) value' (bits + 8) output in
    encode_loop buf value' bits' output'

-- `while (output.length % 8 !== 0) output += '=';` ends within eight rounds.
unfoldable pub pad : ℕ → Str → Str
pad zero output = output
pad (suc fuel) output =
    let next = pad fuel (output ++ b'=' ∷ []) in if length output % 8 == 0 then output else next

-- `encode(buffer, false)`
unfoldable pub encode : List ℕ → Str
unfolding encode_loop emit flush push_byte
encode buffer = encode_loop buffer 0 0 []

-- `encode(buffer, true)`
unfoldable pub encode_padded : List ℕ → Str
unfolding encode pad
encode_padded buffer = pad 8 (encode buffer)

-- `ALPHABET.indexOf(c)`, with `none` for -1
index_from : ℕ → ℕ → Str → Option ℕ
index_from c i [] = none
index_from c i (d ∷ s) = if d == c then some i else index_from c (i + 1) s

unfoldable pub index_of : ℕ → Option ℕ
unfolding index_from
index_of c = index_from c 0 alphabet

-- `s.replace(/=+$/, '')`: a character in front of what is left of the rest.
strip_before : ℕ → Str → Str
strip_before c [] = if c == b'=' then [] else c ∷ []
strip_before c (d ∷ t) = c ∷ d ∷ t

unfoldable pub strip_padding : Str → Str
unfolding strip_before
strip_padding [] = []
strip_padding (c ∷ s) = strip_before c (strip_padding s)

-- `value = (value << 5) | idx`, on 32 bits
unfoldable pub push_letter : ℕ → ℕ → ℕ
push_letter value idx = (value * 32) % 2 ^ 32 + idx

-- The loop over the letters, from the state (value, bits, result).
unfoldable pub decode_loop : Str → ℕ → ℕ → List ℕ → List ℕ
decode_loop [] value bits result = result
decode_loop (c ∷ s) value bits result = elim (index_of c) [
  | none ↦ decode_loop s value bits result
  | some idx ↦ elim (leb 8 (bits + 5)) [
    | true ↦
        decode_loop s (push_letter value idx) (bits + 5 - 8)
          (result ++ ((push_letter value idx / 2 ^ (bits + 5 - 8)) % 256) ∷ [])
    | false ↦ decode_loop s (push_letter value idx) (bits + 5) result
  ]
]

unfoldable pub decode : Str → List ℕ
unfolding decode_loop index_of push_letter strip_padding to_lower
decode str = decode_loop (strip_padding (to_lower str)) 0 0 []
