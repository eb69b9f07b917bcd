-- ===== src/Base32/Steps.antt =====
-- Single steps of the encoder and the decoder of src/utils/base32.js.
use metrice.Base.{
  ℕ, zero, suc, ◌+◌, ◌-◌, ◌*◌, ◌/◌, ◌%◌, ◌^◌, ◌≤◌, ◌<◌, Bool, true, false, not, ◌&&◌, none, some,
  if◌then◌else◌, ==_iff, List, [], ◌∷◌, ◌++◌, Str, to_lower, to_lower_char, ltb, leb, ◌==◌, ◌≡◌,
  refl, arith, append_assoc, append-nil, length, length-append, All, Bool-cases, inl, inr, ap, ◌∙◌,
  All-append, replicate, sym, Option-cases,
}
use metrice.Base32.{
  letter, emit, flush, push_byte, encode_loop, index_of, push_letter, decode_loop, strip_padding,
  strip_before, pad,
}

module _ (holds : ℕ → Bool) where
  passes : ℕ → ℕ → Bool
  passes i zero = true
  passes i (suc count) = if holds i then passes (suc i) count else false

  passes-holds :
      (count i : ℕ) → passes i count ≡ true → (x : ℕ) → i ≤ x → x < i + count → holds x ≡ true
  unfolding passes
  passes-holds zero i all x low high = absurd (omega arith)
  passes-holds (suc count) i all x low high = elim (Bool-cases (i == x)) [
    | inl here ↦ rw (← (==_iff i x).0 here) (ground arith)
    | inr above ↦ passes-holds count (suc i) (ground arith) x (ground arith) (omega arith)
  ]

-- What the decoder relies on of one letter: it is found again, is no capital and no padding.
is_found : ℕ → Bool
is_found i = elim (index_of (letter i)) [ none ↦ false | some j ↦ j == i ]

is_plain : ℕ → Bool
is_plain i = (to_lower_char (letter i) == letter i) && not (letter i == b'=')

found_table : passes is_found 0 32 ≡ true
unfolding passes is_found index_of letter
found_table = refl

plain_table : passes is_plain 0 32 ≡ true
unfolding passes is_plain to_lower_char letter
plain_table = refl

pub index_of-letter : (i : ℕ) → i < 32 → index_of (letter i) ≡ some i
unfolding is_found
index_of-letter i h = ground (arith, passes-holds is_found 32 0 found_table i (omega arith) h)

-- The text of an encoded buffer: letters of the alphabet.
abbrev pub IsLetter : ℕ → Type 0
IsLetter c = (i : ℕ) × (i < 32) × (c ≡ letter i)

pub IsLetter-plain : (c : ℕ) → IsLetter c → (to_lower_char c ≡ c) × ((c == b'=') ≡ false)
unfolding is_plain
IsLetter-plain c (i, h, e) =
    rw e (ground (arith, passes-holds is_plain 32 0 plain_table i (omega arith) h))

module _ (i : ℕ) (s : Str) (w j : ℕ) (small : i < 32) where
  -- A letter that does not complete a byte.
  pub decode_short :
      (out : List ℕ)
      → j + 5 < 8
      → decode_loop (letter i ∷ s) w j out ≡ decode_loop s (push_letter w i) (j + 5) out
  unfolding decode_loop
  decode_short out h = ground (arith, index_of-letter i small)

  -- A letter that completes a byte.
  pub decode_byte :
      (out : List ℕ)
      → 8 ≤ j + 5
      → decode_loop (letter i ∷ s) w j out
        ≡ decode_loop s
            (push_letter w i)
            (j + 5 - 8)
            (out ++ ((push_letter w i / 2 ^ (j + 5 - 8)) % 256) ∷ [])
  unfolding decode_loop
  decode_byte out h = ground (arith, index_of-letter i small)

-- The accumulators only grow.
pub decode_loop-append :
    (s : Str) (w j : ℕ) (out : List ℕ) → decode_loop s w j out ≡ out ++ decode_loop s w j []
unfolding decode_loop
decode_loop-append [] w j out = sym (append-nil out)
decode_loop-append (c ∷ s) w j out = elim (Option-cases (index_of c)) [
  | inl miss ↦ rw (miss, decode_loop) (decode_loop-append s w j out)
  | inr (i, hit) ↦ elim (Bool-cases (leb 8 (j + 5))) [
    | inl full ↦
        rw (hit, decode_loop, full)
          (decode_loop-append s _ _ (out ++ byte i)
            ∙ append_assoc out (byte i) _
            ∙ ap (λ t. out ++ t) (sym (decode_loop-append s _ _ (byte i))))
    | inr more ↦ rw (hit, decode_loop, more) (decode_loop-append s _ _ out)
  ]
]
  where
    byte : ℕ → List ℕ
    byte i = ((push_letter w i / 2 ^ (j + 5 - 8)) % 256) ∷ []

pub emit-append :
    (fuel v bits : ℕ) (out : Str)
    → emit fuel v bits out ≡ ((emit fuel v bits []).0, out ++ (emit fuel v bits []).1)
unfolding emit
emit-append zero v bits out = rw append-nil
emit-append (suc fuel) v bits out = elim (Bool-cases (leb 5 bits)) [
  | inl more ↦
      let l : Str = letter (v / 2 ^ (bits - 5) % 32) ∷ [] in
      ground (
        arith,
        emit-append fuel v (bits - 5) (out ++ l),
        emit-append fuel v (bits - 5) l,
        append_assoc out l (emit fuel v (bits - 5) []).1,
      )
  | inr done ↦ rw done (rw append-nil)
]

flush-append : (v bits : ℕ) (out : Str) → flush v bits out ≡ out ++ flush v bits []
unfolding flush
flush-append v bits out = ground (arith, append-nil out)

pub encode_loop-append :
    (buf : List ℕ) (v bits : ℕ) (out : Str)
    → encode_loop buf v bits out ≡ out ++ encode_loop buf v bits []
unfolding encode_loop
encode_loop-append [] v bits out = flush-append v bits out
encode_loop-append (b ∷ buf) v bits out =
    let v' = push_byte v b in
    let r : ℕ × Str = emit (bits + 8) v' (bits + 8) [] in
    ap (λ (e : ℕ × Str). encode_loop buf v' e.0 e.1) (emit-append (bits + 8) v' (bits + 8) out)
    ∙ encode_loop-append buf v' r.0 (out ++ r.1)
    ∙ append_assoc out r.1 _
    ∙ ap (λ t. out ++ t) (sym (encode_loop-append buf v' r.0 r.1))

-- The encoder writes letters only.
emit-letters :
    (fuel v bits : ℕ) (out : Str) → All IsLetter out → All IsLetter (emit fuel v bits out).1
unfolding emit
emit-letters zero v bits out h = h
emit-letters (suc fuel) v bits out h = elim (Bool-cases (leb 5 bits)) [
  | inl more ↦ rw more (
      emit-letters fuel v (bits - 5) _
        (All-append IsLetter out _ h ((v / 2 ^ (bits - 5) % 32, omega arith, refl), tt)))
  | inr done ↦ rw done h
]

flush-letters : (v bits : ℕ) (out : Str) → All IsLetter out → All IsLetter (flush v bits out)
unfolding flush
flush-letters v bits out h = elim (Bool-cases (ltb 0 bits)) [
  | inl more ↦
      rw more
        (All-append IsLetter out _ h ((v * 2 ^ (5 - bits) % 2 ^ 32 % 32, omega arith, refl), tt))
  | inr done ↦ rw done h
]

pub encode_loop-letters :
    (buf : List ℕ) (v bits : ℕ) (out : Str)
    → All IsLetter out
    → All IsLetter (encode_loop buf v bits out)
unfolding encode_loop
encode_loop-letters [] v bits out h = flush-letters v bits out h
encode_loop-letters (b ∷ buf) v bits out h =
    let v' = push_byte v b in
    encode_loop-letters buf v' _ _ (emit-letters (bits + 8) v' (bits + 8) out h)

strip_before_letter : (c : ℕ) (r : Str) → (c == b'=') ≡ false → strip_before c r ≡ c ∷ r
unfolding strip_before
strip_before_letter c [] h = rw h
strip_before_letter c (d ∷ t) h = refl

-- `toLowerCase` and the removal of the padding leave the letters, with any padding behind them.
pub strip_padding-letters :
    (s : Str) (n : ℕ) → All IsLetter s → strip_padding (to_lower (s ++ replicate n b'=')) ≡ s
unfolding strip_padding to_lower
strip_padding-letters [] zero h = refl
strip_padding-letters [] (suc n) h = rw (strip_padding-letters [] n tt)
strip_padding-letters (c ∷ s) n (l, h) =
    let (plain, not_padding) = IsLetter-plain c l in
    rw (plain, strip_padding-letters s n h) (strip_before_letter c s not_padding)

pub pad-replicate : (fuel : ℕ) (out : Str) → (n : ℕ) × (pad fuel out ≡ out ++ replicate n b'=')
unfolding pad
pad-replicate zero out = (0, sym (append-nil out))
pad-replicate (suc fuel) out = elim (Bool-cases (length out % 8 == 0)) [
  | inl done ↦ (0, rw done (sym (append-nil out)))
  | inr more ↦
      let (n, e) = pad-replicate fuel (out ++ b'=' ∷ []) in
      (suc n, rw more (e ∙ append_assoc out (b'=' ∷ []) (replicate n b'=')))
]

-- As many rounds as the last group of eight is short of are enough.
pub length-pad :
    (fuel : ℕ) (out : Str)
    → 8 ≤ fuel + length out % 8 + 8 * (1 - length out % 8)
    → length (pad fuel out) % 8 ≡ 0
unfolding pad
length-pad zero out h = omega arith
length-pad (suc fuel) out h = elim (Bool-cases (length out % 8 == 0)) [
  | inl done ↦ rw done (ground arith)
  | inr more ↦
      rw more
        (length-pad fuel (out ++ b'=' ∷ []) (let e = length-append out (b'=' ∷ []) in ground arith))
]
