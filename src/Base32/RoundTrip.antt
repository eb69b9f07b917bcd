-- ===== src/Base32/RoundTrip.antt =====
-- Decoding an encoded buffer, for src/utils/base32.js.
use metrice.Base.{
  ℕ, ◌+◌, ◌-◌, ◌*◌, ◌/◌, ◌%◌, ◌^◌, ◌≤◌, ◌<◌, List, [], ◌∷◌, Str, ◌≡◌, ◌∙◌, refl, sym, ap, arith,
  All, to_lower, append-nil, length,
}
use metrice.Base32.{
  letter, emit, flush, push_byte, encode_loop, push_letter, decode_loop, strip_padding, encode,
  encode_padded, decode,
}
use metrice.Base32.Steps.{
  decode_short, decode_byte, decode_loop-append, encode_loop-append, encode_loop-letters,
  strip_padding-letters, pad-replicate, length-pad,
}

abbrev pub IsByte : ℕ → Type 0
IsByte b = b < 256

-- After some bytes the encoder has `k` bits of the last byte still to write, and the decoder has
-- read the other `8 - k`. `Linked k buf` says that from there on the decoder completes that byte
-- and returns the bytes that follow.
abbrev Linked : ℕ → List ℕ → Type 0
Linked k buf =
    (v w : ℕ)
    → decode_loop (encode_loop buf v k []) w (8 - k) []
      ≡ ((w % 2 ^ (8 - k)) * 2 ^ k + v % 2 ^ k) ∷ buf

abbrev Aligned : List ℕ → Type 0
Aligned buf = (v w : ℕ) → decode_loop (encode_loop buf v 0 []) w 0 [] ≡ buf

module _ (buf : List ℕ) (v k i w j : ℕ) (small : i < 32) where
  -- The decoder reads a letter that completes no byte.
  read_short :
      j + 5 < 8
      → decode_loop (encode_loop buf v k (letter i ∷ [])) w j []
        ≡ decode_loop (encode_loop buf v k []) (push_letter w i) (j + 5) []
  read_short few =
      ap (λ s. decode_loop s w j []) (encode_loop-append buf v k (letter i ∷ []))
      ∙ decode_short i _ w j small [] few

  -- The decoder reads a letter that completes a byte, in front of the text `s`.
  read_byte :
      (s : Str)
      → 8 ≤ j + 5
      → decode_loop (letter i ∷ s) w j []
        ≡ ((push_letter w i / 2 ^ (j + 5 - 8)) % 256)
          ∷ decode_loop s (push_letter w i) (j + 5 - 8) []
  read_byte s enough = decode_byte i s w j small [] enough ∙ decode_loop-append s _ _ _

module _ (buf : List ℕ) (v k i i' w j : ℕ) (small : i < 32) (small' : i' < 32) where
  -- Two letters, the first of which completes a byte.
  read_byte_short :
      8 ≤ j + 5
      → j + 5 - 8 + 5 < 8
      → decode_loop (encode_loop buf v k (letter i ∷ letter i' ∷ [])) w j []
        ≡ ((push_letter w i / 2 ^ (j + 5 - 8)) % 256)
          ∷ decode_loop
              (encode_loop buf v k [])
              (push_letter (push_letter w i) i')
              (j + 5 - 8 + 5)
              []
  read_byte_short enough few =
      ap (λ s. decode_loop s w j []) (encode_loop-append buf v k (letter i ∷ letter i' ∷ []))
      ∙ read_byte buf v k i w j small _ enough
      ∙ ap (λ r. ((push_letter w i / 2 ^ (j + 5 - 8)) % 256) ∷ r)
          (decode_short i' _ (push_letter w i) (j + 5 - 8) small' [] few)

  -- Two letters that each complete a byte.
  read_byte_byte :
      8 ≤ j + 5
      → 8 ≤ j + 5 - 8 + 5
      → decode_loop (encode_loop buf v k (letter i ∷ letter i' ∷ [])) w j []
        ≡ ((push_letter w i / 2 ^ (j + 5 - 8)) % 256)
          ∷ ((push_letter (push_letter w i) i' / 2 ^ (j + 5 - 8 + 5 - 8)) % 256)
          ∷ decode_loop
              (encode_loop buf v k [])
              (push_letter (push_letter w i) i')
              (j + 5 - 8 + 5 - 8)
              []
  read_byte_byte enough enough' =
      ap (λ s. decode_loop s w j []) (encode_loop-append buf v k (letter i ∷ letter i' ∷ []))
      ∙ read_byte buf v k i w j small _ enough
      ∙ ap (λ r. ((push_letter w i / 2 ^ (j + 5 - 8)) % 256) ∷ r)
          (read_byte buf v k i' (push_letter w i) (j + 5 - 8) small' _ enough')

cons_eq : {a b : ℕ} {xs ys : List ℕ} → a ≡ b → xs ≡ ys → a ∷ xs ≡ b ∷ ys
cons_eq p q = λ i. p i ∷ q i

Aligned-nil : Aligned []
unfolding encode_loop flush decode_loop
Aligned-nil v w = refl

Aligned-cons : (b : ℕ) (buf : List ℕ) → IsByte b → Linked 3 buf → Aligned (b ∷ buf)
unfolding encode_loop emit push_byte push_letter
Aligned-cons b buf h rest v w =
    let v' = push_byte v b in
    read_short buf v' 3 (v' / 8 % 32) w 0 (omega arith) (omega arith)
    ∙ rest v' (push_letter w (v' / 8 % 32))
    ∙ cons_eq (omega arith) refl

module _ (v w : ℕ) where
  -- The last letter holds the `k` bits that are left.
  LinkedThree-nil : decode_loop (encode_loop [] v 3 []) w 5 [] ≡ (w % 32 * 8 + v % 8) ∷ []
  unfolding encode_loop flush decode_loop push_letter
  LinkedThree-nil =
      read_byte [] v 0 (v * 4 % 2 ^ 32 % 32) w 5 (omega arith) [] (omega arith)
      ∙ cons_eq (omega arith) refl

  LinkedOne-nil : decode_loop (encode_loop [] v 1 []) w 7 [] ≡ (w % 128 * 2 + v % 2) ∷ []
  unfolding encode_loop flush decode_loop push_letter
  LinkedOne-nil =
      read_byte [] v 0 (v * 16 % 2 ^ 32 % 32) w 7 (omega arith) [] (omega arith)
      ∙ cons_eq (omega arith) refl

  LinkedFour-nil : decode_loop (encode_loop [] v 4 []) w 4 [] ≡ (w % 16 * 16 + v % 16) ∷ []
  unfolding encode_loop flush decode_loop push_letter
  LinkedFour-nil =
      read_byte [] v 0 (v * 2 % 2 ^ 32 % 32) w 4 (omega arith) [] (omega arith)
      ∙ cons_eq (omega arith) refl

  LinkedTwo-nil : decode_loop (encode_loop [] v 2 []) w 6 [] ≡ (w % 64 * 4 + v % 4) ∷ []
  unfolding encode_loop flush decode_loop push_letter
  LinkedTwo-nil =
      read_byte [] v 0 (v * 8 % 2 ^ 32 % 32) w 6 (omega arith) [] (omega arith)
      ∙ cons_eq (omega arith) refl

module _ (b : ℕ) (buf : List ℕ) (h : IsByte b) where
  LinkedThree-cons : Linked 1 buf → Linked 3 (b ∷ buf)
  unfolding encode_loop emit push_byte push_letter
  LinkedThree-cons rest v w =
      let v' = push_byte v b in
      read_byte_short buf v' 1 (v' / 64 % 32) (v' / 2 % 32) w 5 (omega arith) (omega arith)
        (omega arith) (omega arith)
      ∙ cons_eq (omega arith) (rest v' _ ∙ cons_eq (omega arith) refl)

  LinkedOne-cons : Linked 4 buf → Linked 1 (b ∷ buf)
  unfolding encode_loop emit push_byte push_letter
  LinkedOne-cons rest v w =
      let v' = push_byte v b in
      ap (λ s. decode_loop s w 7 []) (encode_loop-append buf v' 4 (letter (v' / 16 % 32) ∷ []))
      ∙ read_byte buf v' 4 (v' / 16 % 32) w 7 (omega arith) _ (omega arith)
      ∙ cons_eq (omega arith) (rest v' _ ∙ cons_eq (omega arith) refl)

  LinkedFour-cons : Linked 2 buf → Linked 4 (b ∷ buf)
  unfolding encode_loop emit push_byte push_letter
  LinkedFour-cons rest v w =
      let v' = push_byte v b in
      read_byte_short buf v' 2 (v' / 128 % 32) (v' / 4 % 32) w 4 (omega arith) (omega arith)
        (omega arith) (omega arith)
      ∙ cons_eq (omega arith) (rest v' _ ∙ cons_eq (omega arith) refl)

  LinkedTwo-cons : Aligned buf → Linked 2 (b ∷ buf)
  unfolding encode_loop emit push_byte push_letter
  LinkedTwo-cons rest v w =
      let v' = push_byte v b in
      read_byte_byte buf v' 0 (v' / 32 % 32) (v' / 1 % 32) w 6 (omega arith) (omega arith)
        (omega arith) (omega arith)
      ∙ cons_eq (omega arith) (cons_eq (omega arith) (rest v' _))

-- Where the two loops stand, by the number of bits that the encoder still holds.
record AllPhases (buf : List ℕ) : Type 0 where
  zero_bits : Aligned buf
  three_bits : Linked 3 buf
  one_bit : Linked 1 buf
  four_bits : Linked 4 buf
  two_bits : Linked 2 buf

all_phases : (buf : List ℕ) → All IsByte buf → AllPhases buf
all_phases [] h = record {
  zero_bits = Aligned-nil;
  three_bits = LinkedThree-nil;
  one_bit = LinkedOne-nil;
  four_bits = LinkedFour-nil;
  two_bits = LinkedTwo-nil;
}
all_phases (b ∷ buf) (h, hs) =
    let rest = all_phases buf hs in
    record {
      zero_bits = Aligned-cons b buf h rest.three_bits;
      three_bits = LinkedThree-cons b buf h rest.one_bit;
      one_bit = LinkedOne-cons b buf h rest.four_bits;
      four_bits = LinkedFour-cons b buf h rest.two_bits;
      two_bits = LinkedTwo-cons b buf h rest.zero_bits;
    }

-- Decoding an unpadded text gives the buffer back, whatever bytes it holds.
pub decode-encode : (buf : List ℕ) → All IsByte buf → decode (encode buf) ≡ buf
unfolding decode encode
decode-encode buf h =
    ap (λ s. decode_loop s 0 0 [])
      (ap (λ t. strip_padding (to_lower t)) (sym (append-nil (encode buf)))
        ∙ strip_padding-letters (encode buf) 0 (encode_loop-letters buf 0 0 [] tt))
    ∙ (all_phases buf h).zero_bits 0 0

-- Decoding a padded text gives the buffer back, and the length of the text is a multiple of eight.
pub decode-encode_padded :
    (buf : List ℕ)
    → All IsByte buf
    → (decode (encode_padded buf) ≡ buf) × (length (encode_padded buf) % 8 ≡ 0)
unfolding decode encode encode_padded
decode-encode_padded buf h =
    let (n, e) = pad-replicate 8 (encode buf) in
    (
      ap (λ s. decode_loop s 0 0 [])
            (ap (λ t. strip_padding (to_lower t)) e
              ∙ strip_padding-letters (encode buf) n (encode_loop-letters buf 0 0 [] tt))
          ∙ (all_phases buf h).zero_bits 0 0,
      length-pad 8 (encode buf) (omega arith),
    )
