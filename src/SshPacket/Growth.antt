-- ===== src/SshPacket/Growth.antt =====
-- The growing buffer of `SshPacketWriter` in src/utils/sshPacket.js: it never loses a byte.
use metrice.Base.{
  ℕ, zero, suc, ◌+◌, ◌*◌, ◌≤◌, ◌<◌, List, [], ◌∷◌, ◌++◌, ◌≡◌, refl, ap, ◌∙◌, sym, arith, inl, inr,
  ltb, length, take, replicate, Bool-cases, append-nil, append_assoc,
}
use metrice.SshPacket.{
  Writer, writer, copy, double_size, ensure_capacity, put, write_raw, to_buffer,
}

length-copy :
    (bytes buffer : List ℕ) (offset : ℕ) → length (copy bytes buffer offset) ≡ length buffer
unfolding copy
length-copy [] buffer offset = refl
length-copy (b ∷ bytes) [] offset = refl
length-copy (b ∷ bytes) (c ∷ buffer) zero = omega (arith, length-copy bytes buffer zero)
length-copy (b ∷ bytes) (c ∷ buffer) (suc offset) =
    omega (arith, length-copy (b ∷ bytes) buffer offset)

-- The first `n` bytes behind a copy end with the copied ones.
take-copy :
    (n : ℕ) (bytes buffer : List ℕ) (offset : ℕ)
    → n ≡ offset + length bytes
    → n ≤ length buffer
    → take n (copy bytes buffer offset) ≡ take offset buffer ++ bytes
unfolding copy
take-copy n [] buffer offset same room =
    let plain : n ≡ offset = omega arith in
    ap (λ k. take k buffer) plain ∙ sym (append-nil (take offset buffer))
take-copy n (b ∷ bytes) [] offset same room = absurd (omega arith)
take-copy zero (b ∷ bytes) (c ∷ buffer) offset same room = absurd (omega arith)
take-copy (suc n) (b ∷ bytes) (c ∷ buffer) zero same room =
    ap (◌∷◌ b) (take-copy n bytes buffer zero (omega arith) (omega arith))
take-copy (suc n) (b ∷ bytes) (c ∷ buffer) (suc offset) same room =
    ap (◌∷◌ c) (take-copy n (b ∷ bytes) buffer offset (omega arith) (omega arith))

length-replicate : (n : ℕ) → length {A = ℕ} (replicate n 0) ≡ n
length-replicate zero = refl
length-replicate (suc n) = omega (arith, length-replicate n)

-- Doubling ends within `needed` rounds.
double_size_fits :
    (fuel needed size : ℕ) → 0 < size → needed ≤ fuel + size → needed ≤ double_size fuel needed size
unfolding double_size
double_size_fits zero needed size positive fuel_left = omega arith
double_size_fits (suc fuel) needed size positive fuel_left =
    ground (arith, double_size_fits fuel needed (size * 2) (omega arith) (omega arith))

double_size_grows : (fuel needed size : ℕ) → size ≤ double_size fuel needed size
unfolding double_size
double_size_grows zero needed size = omega arith
double_size_grows (suc fuel) needed size = ground (arith, double_size_grows fuel needed (size * 2))

-- The offset is within a buffer that is not empty.
pub record IsValid (w : Writer) : Type 0 where
  pub within : w.offset ≤ length w.buffer
  pub positive : 0 < length w.buffer

-- What `ensureCapacity` promises: room for the bytes, the same bytes written, the same offset.
pub record Ensured (n : ℕ) (w w' : Writer) : Type 0 where
  pub room : w'.offset + n ≤ length w'.buffer
  pub positive : 0 < length w'.buffer
  pub kept : to_buffer w' ≡ to_buffer w
  pub same_offset : w'.offset ≡ w.offset

take-all : (xs : List ℕ) → take (length xs) xs ≡ xs
take-all [] = refl
take-all (x ∷ xs) = ap (◌∷◌ x) (take-all xs)

take-take_le : (n m : ℕ) (xs : List ℕ) → n ≤ m → take n (take m xs) ≡ take n xs
take-take_le zero m xs h = refl
take-take_le (suc n) zero xs h = absurd (omega arith)
take-take_le (suc n) (suc m) [] h = refl
take-take_le (suc n) (suc m) (x ∷ xs) h = ap (◌∷◌ x) (take-take_le n m xs (omega arith))

-- A copy to the front of a buffer that is long enough
take-copy_front :
    (bytes buffer : List ℕ) (n : ℕ)
    → length bytes ≤ length buffer
    → n ≤ length bytes
    → take n (copy bytes buffer 0) ≡ take n bytes
take-copy_front bytes buffer n room h =
    sym (take-take_le n (length bytes) (copy bytes buffer 0) h)
    ∙ ap (take n) (take-copy (length bytes) bytes buffer 0 (omega arith) room)

pub ensure_capacity-Ensured : (n : ℕ) (w : Writer) → IsValid w → Ensured n w (ensure_capacity n w)
unfolding ensure_capacity to_buffer
ensure_capacity-Ensured n w v = elim (Bool-cases (ltb (length w.buffer) (w.offset + n))) [
  | inr fits ↦
      rw fits
        (record { room = ground arith; positive = v.positive; kept = refl; same_offset = refl })
  | inl short ↦
      let size = double_size (w.offset + n) (w.offset + n) (length w.buffer * 2) in
      let large =
        double_size_fits (w.offset + n) (w.offset + n) (length w.buffer * 2)
          (omega (arith, v.positive)) (omega arith) in
      let grown = double_size_grows (w.offset + n) (w.offset + n) (length w.buffer * 2) in
      let new_length : length (copy w.buffer (replicate size 0) 0) ≡ size =
        length-copy w.buffer (replicate size 0) 0 ∙ length-replicate size in
      rw short (record {
        room = omega (arith, new_length, large);
        positive = omega (arith, new_length, grown, v.positive);
        kept =
            take-copy_front w.buffer (replicate size 0) w.offset
              (omega (arith, length-replicate size, grown)) v.within;
        same_offset = refl;
      })
]

-- Bytes put behind those that are written
pub record Appended (bytes : List ℕ) (w w' : Writer) : Type 0 where
  pub valid : IsValid w'
  pub written : to_buffer w' ≡ to_buffer w ++ bytes

pub put-Appended :
    (bytes : List ℕ) (w w' : Writer) → Ensured (length bytes) w w' → Appended bytes w (put bytes w')
unfolding put to_buffer
put-Appended bytes w w' e =
    let same = length-copy bytes w'.buffer w'.offset in
    record {
      valid = record {
        within = omega (arith, same, e.room);
        positive = omega (arith, same, e.positive);
      };
      written =
          take-copy (w'.offset + length bytes) bytes w'.buffer w'.offset refl e.room
          ∙ ap (λ t. t ++ bytes) e.kept;
    }

pub length-put : (bytes : List ℕ) (w : Writer) → length (put bytes w).buffer ≡ length w.buffer
unfolding put
length-put bytes w = length-copy bytes w.buffer w.offset

pub offset-put : (bytes : List ℕ) (w : Writer) → (put bytes w).offset ≡ w.offset + length bytes
unfolding put
offset-put bytes w = refl

pub ensure_capacity_fits :
    (n : ℕ) (w : Writer) → w.offset + n ≤ length w.buffer → ensure_capacity n w ≡ w
unfolding ensure_capacity
ensure_capacity_fits n w room = ground arith

-- The bytes of two writes, one after the other
pub Appended-trans :
    {b c : List ℕ} {w w' w'' : Writer}
    → Appended b w w'
    → Appended c w' w''
    → Appended (b ++ c) w w''
Appended-trans {b} {c} {w} first second = record {
  valid = second.valid;
  written = second.written ∙ (ap (λ t. t ++ c) first.written ∙ append_assoc (to_buffer w) b c);
}

pub writer-IsValid : (n : ℕ) → 0 < n → IsValid (writer n)
unfolding writer
writer-IsValid n positive = record {
  within = omega arith;
  positive = omega (arith, length-replicate n);
}

-- However small the buffer of a writer is made, as long as it is valid (not empty, and the offset within), `writeRaw` adds exactly the given
-- bytes behind those that were written before, and the writer stays valid.
pub write_raw_appends :
    (bytes : List ℕ) (w : Writer)
    → IsValid w
    → IsValid (write_raw bytes w) × (to_buffer (write_raw bytes w) ≡ to_buffer w ++ bytes)
unfolding write_raw
write_raw_appends bytes w v =
    let a =
      put-Appended bytes w (ensure_capacity (length bytes) w)
        (ensure_capacity-Ensured (length bytes) w v) in
    (a.valid, a.written)
