-- ===== src/SshPacket/RoundTrip.antt =====
-- What `SshPacketWriter` of src/utils/sshPacket.js writes, `SshPacketReader` reads.
use metrice.Base.{
  ℕ, zero, suc, ◌+◌, ◌^◌, ◌≤◌, ◌<◌, true, false, Option, some, List, [], ◌∷◌, ◌++◌, ◌≡◌, refl, ap,
  ◌∙◌, sym, subst, arith, ltb, leb, length, drop, length-append, length-drop, take-length,
  drop-length, append-nil, append_assoc, map, join, All,
}
use metrice.SshPacket.Fields.{
  Field, byte_field, uint32_field, boolean_field, buffer_field, mpint_field, name_list_field,
  kind_of, IsField, write_field, read_field, received, wire, block, wires, write_fields,
  read_fields,
}
use metrice.SshPacket.Growth.{
  IsValid, Appended, ensure_capacity-Ensured, put-Appended, Appended-trans, length-put, offset-put,
  ensure_capacity_fits, writer-IsValid,
}
use metrice.SshPacket.Names.{names_of-ascii}
use metrice.SshPacket.{
  Reader, Writer, reader, advance, big_endian, read_byte, read_boolean, read_uint32, read_bytes,
  read_buffer, read_string, read_name_list, writer, put, ensure_capacity, write_byte, write_boolean,
  write_uint32, write_buffer, write_string, write_mpint, write_name_list, mpint_bytes, uint32_bytes,
  ascii_bytes, to_buffer,
}

-- The write succeeds, and adds `bytes`.
abbrev Writes : List ℕ → Writer → Option Writer → Type 0
Writes bytes w result = (w' : Writer) × (result ≡ some w') × Appended bytes w w'

write_byte-Writes :
    (val : ℕ) (w : Writer) → IsValid w → val ≤ 255 → Writes (val ∷ []) w (write_byte val w)
unfolding write_byte
write_byte-Writes val w v small =
    let fits : ltb 255 val ≡ false = ground arith in
    (
      put (val ∷ []) (ensure_capacity 1 w),
      rw fits refl,
      put-Appended (val ∷ []) w _ (ensure_capacity-Ensured 1 w v),
    )

write_uint32-Writes :
    (val : ℕ) (w : Writer)
    → IsValid w
    → val < 2 ^ 32
    → Writes (uint32_bytes val) w (write_uint32 val w)
unfolding write_uint32 uint32_bytes
write_uint32-Writes val w v small =
    let fits : leb (2 ^ 32) val ≡ false = ground arith in
    (
      put (uint32_bytes val) (ensure_capacity 4 w),
      rw fits refl,
      put-Appended (uint32_bytes val) w _ (ensure_capacity-Ensured 4 w v),
    )

write_buffer-Writes :
    (bytes : List ℕ) (w : Writer)
    → IsValid w
    → length bytes < 2 ^ 32
    → Writes (block bytes) w (write_buffer bytes w)
unfolding write_buffer write_uint32 uint32_bytes
write_buffer-Writes bytes w v small =
    let w1 = ensure_capacity (4 + length bytes) w in
    let e = ensure_capacity-Ensured (4 + length bytes) w v in
    let fits : leb (2 ^ 32) (length bytes) ≡ false = ground arith in
    let roomy = ensure_capacity_fits 4 w1 (omega (arith, e.room)) in
    let w2 = put (uint32_bytes (length bytes)) w1 in
    let head = put-Appended (uint32_bytes (length bytes)) w w1 (record {
      room = omega (arith, e.room);
      positive = e.positive;
      kept = e.kept;
      same_offset = e.same_offset;
    }) in
    let tail = put-Appended bytes w2 w2 (record {
      room = omega (
        arith,
        e.room,
        length-put (uint32_bytes (length bytes)) w1,
        offset-put (uint32_bytes (length bytes)) w1,
      );
      positive = head.valid.positive;
      kept = refl;
      same_offset = refl;
    }) in
    (put bytes w2, rw (fits, roomy) refl, Appended-trans head tail)

write_field-Writes :
    (f : Field) (w : Writer) → IsValid w → IsField f → Writes (wire f) w (write_field f w)
unfolding write_boolean write_mpint write_name_list write_string
write_field-Writes (byte_field val) w v ok = write_byte-Writes val w v ok
write_field-Writes (uint32_field val) w v ok = write_uint32-Writes val w v ok
write_field-Writes (boolean_field true) w v ok = write_byte-Writes 1 w v (omega arith)
write_field-Writes (boolean_field false) w v ok = write_byte-Writes 0 w v (omega arith)
write_field-Writes (buffer_field bytes) w v ok = write_buffer-Writes bytes w v ok
write_field-Writes (mpint_field bytes) w v ok = write_buffer-Writes _ w v ok
write_field-Writes (name_list_field names) w v ok = write_buffer-Writes _ w v ok.1

-- What is left to read, from an offset within the buffer.
record At (r : Reader) (left : List ℕ) : Type 0 where
  ahead : drop r.offset r.buffer ≡ left
  within : r.offset ≤ length r.buffer

drop_sum : (n m k : ℕ) (xs : List ℕ) → k ≡ n + m → drop k xs ≡ drop m (drop n xs)
drop_sum zero m k xs same = let plain : k ≡ m = omega arith in ap (λ j. drop j xs) plain
drop_sum (suc n) m zero xs same = absurd (omega arith)
drop_sum (suc n) zero (suc k) [] same = refl
drop_sum (suc n) (suc m) (suc k) [] same = refl
drop_sum (suc n) m (suc k) (x ∷ xs) same = drop_sum n m k xs (omega arith)

At-advance :
    (bytes rest : List ℕ) (r : Reader) → At r (bytes ++ rest) → At (advance (length bytes) r) rest
unfolding advance
At-advance bytes rest r at = record {
  ahead =
      drop_sum r.offset (length bytes) _ r.buffer refl
      ∙ (ap (drop (length bytes)) at.ahead ∙ drop-length bytes rest);
  within = omega (
    arith,
    at.within,
    length-drop r.offset r.buffer,
    ap length at.ahead,
    length-append bytes rest,
  );
}

advance_sum : (n m k : ℕ) (r : Reader) → k ≡ n + m → advance m (advance n r) ≡ advance k r
unfolding advance
advance_sum n m k r same =
    let sum : r.offset + n + m ≡ r.offset + k = omega arith in ap (λ o. record r { offset = o }) sum

big_endian-uint32_bytes :
    (val : ℕ) (rest : List ℕ) → val < 2 ^ 32 → big_endian (uint32_bytes val ++ rest) ≡ some val
unfolding big_endian uint32_bytes
big_endian-uint32_bytes val rest small = ap some (omega arith)

read_byte-At :
    (b : ℕ) (rest : List ℕ) (r : Reader) → At r (b ∷ rest) → read_byte r ≡ (advance 1 r, some b)
unfolding read_byte
read_byte-At b rest r at = rw (at.ahead, read_byte) refl

read_uint32-At :
    (val : ℕ) (rest : List ℕ) (r : Reader)
    → val < 2 ^ 32
    → At r (uint32_bytes val ++ rest)
    → read_uint32 r ≡ (advance 4 r, some val)
unfolding read_uint32
read_uint32-At val rest r small at =
    rw (at.ahead, big_endian-uint32_bytes val rest small, read_uint32) refl

read_bytes-At :
    (bytes rest : List ℕ) (r : Reader)
    → At r (bytes ++ rest)
    → read_bytes (length bytes) r ≡ (advance (length bytes) r, some bytes)
unfolding read_bytes
read_bytes-At bytes rest r at =
    let fits : ltb (length r.buffer) (r.offset + length bytes) ≡ false = ground (
      arith,
      at.within,
      length-drop r.offset r.buffer,
      ap length at.ahead,
      length-append bytes rest,
    ) in
    rw (fits, at.ahead, take-length bytes rest) refl

read_buffer-At :
    (bytes rest : List ℕ) (r : Reader)
    → length bytes < 2 ^ 32
    → At r (block bytes ++ rest)
    → read_buffer r ≡ (advance (length (block bytes)) r, some bytes)
unfolding read_buffer
read_buffer-At bytes rest r small at =
    let n = length bytes in
    let len_at : At r (uint32_bytes n ++ (bytes ++ rest)) = record {
      ahead = at.ahead ∙ append_assoc (uint32_bytes n) bytes rest;
      within = at.within;
    } in
    let four : length (uint32_bytes n) ≡ 4 = unfold uint32_bytes in refl in
    let body_at : At (advance 4 r) (bytes ++ rest) =
      subst (λ k. At (advance k r) (bytes ++ rest)) four
        (At-advance (uint32_bytes n) (bytes ++ rest) r len_at) in
    let len_read = read_uint32-At n (bytes ++ rest) r small len_at in
    rw (len_read, read_buffer, len_read, read_bytes-At bytes rest (advance 4 r) body_at)
      (ap (λ r'. (r', some bytes))
        (advance_sum 4 n (length (block bytes)) r
          (omega (arith, four, length-append (uint32_bytes n) bytes))))

read_field-At :
    (f : Field) (rest : List ℕ) (r : Reader)
    → IsField f
    → At r (wire f ++ rest)
    → read_field (kind_of f) r ≡ (advance (length (wire f)) r, some (received f))
unfolding read_boolean read_name_list read_string
read_field-At (byte_field val) rest r ok at = rw (read_byte-At val rest r at) refl
read_field-At (uint32_field val) rest r ok at =
    rw (read_uint32-At val rest r ok at) (unfold uint32_bytes in refl)
read_field-At (boolean_field true) rest r ok at = rw (read_byte-At 1 rest r at) refl
read_field-At (boolean_field false) rest r ok at = rw (read_byte-At 0 rest r at) refl
read_field-At (buffer_field bytes) rest r ok at = rw (read_buffer-At bytes rest r ok at) refl
read_field-At (mpint_field bytes) rest r ok at =
    rw (read_buffer-At (mpint_bytes bytes) rest r ok at) refl
read_field-At (name_list_field names) rest r (named, ok) at =
    rw
      (
        read_buffer-At (ascii_bytes (join (b',' ∷ []) names)) rest r ok at,
        names_of-ascii names named,
      )
      refl

read_fields-At :
    (fs : List Field) (rest : List ℕ) (r : Reader)
    → All IsField fs
    → At r (wires fs ++ rest)
    → read_fields (map kind_of fs) r ≡ (advance (length (wires fs)) r, some (map received fs))
read_fields-At [] rest r ok at =
    let same : r.offset ≡ r.offset + 0 = omega arith in
    unfold advance in ap (λ o. (record r { offset = o }, some [])) same
read_fields-At (f ∷ fs) rest r (ok, oks) at =
    let first_at : At r (wire f ++ (wires fs ++ rest)) = record {
      ahead = at.ahead ∙ append_assoc (wire f) (wires fs) rest;
      within = at.within;
    } in
    let rest_at = At-advance (wire f) (wires fs ++ rest) r first_at in
    let first_read = read_field-At f (wires fs ++ rest) r ok first_at in
    rw
      (
        first_read,
        read_fields,
        first_read,
        read_fields-At fs rest (advance (length (wire f)) r) oks rest_at,
      )
      (ap (λ r'. (r', some (received f ∷ map received fs)))
        (advance_sum (length (wire f)) (length (wires fs)) (length (wire f ++ wires fs)) r
          (length-append (wire f) (wires fs))))

write_fields-Writes :
    (fs : List Field) (w : Writer)
    → IsValid w
    → All IsField fs
    → Writes (wires fs) w (write_fields fs w)
write_fields-Writes [] w v ok =
    (w, refl, record { valid = v; written = sym (append-nil (to_buffer w)) })
write_fields-Writes (f ∷ fs) w v (ok, oks) =
    let (w', first, appended) = write_field-Writes f w v ok in
    let (w'', later, more) = write_fields-Writes fs w' appended.valid oks in
    (w'', rw (first, write_fields) later, Appended-trans appended more)

-- Whatever fields are written one after the other, from an empty writer of any positive size, the
-- writes succeed, and the reader gets the same fields back in the same order and stops at the end. The
-- numbers are in range, the blocks are shorter than 2^32 bytes and the names are non-empty ASCII
-- without commas; an mpint comes back with the zero byte that was put in front of it.
pub read-write_fields :
    (fs : List Field) (initial_size : ℕ)
    → 0 < initial_size
    → All IsField fs
    → (w : Writer) × (write_fields fs (writer initial_size) ≡ some w)
      × (read_fields (map kind_of fs) (reader (to_buffer w))
          ≡ (advance (length (to_buffer w)) (reader (to_buffer w)), some (map received fs)))
read-write_fields fs initial_size positive ok =
    let (w, wrote, appended) =
      write_fields-Writes fs (writer initial_size) (writer-IsValid initial_size positive) ok in
    let bytes : to_buffer w ≡ wires fs = appended.written ∙ (unfold to_buffer writer in refl) in
    let at : At (reader (wires fs)) (wires fs ++ []) = record {
      ahead = unfold reader in sym (append-nil (wires fs));
      within = unfold reader in omega arith;
    } in
    (w, wrote, rw bytes (read_fields-At fs [] (reader (wires fs)) ok at))
