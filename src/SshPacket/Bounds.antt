-- ===== src/SshPacket/Bounds.antt =====
-- `SshPacketReader` of src/utils/sshPacket.js stays within its buffer, whatever the bytes.
use metrice.Base.{
  ℕ, ◌≤◌, none, some, ◌≡◌, refl, arith, inl, inr, length, length-drop, ap, Option-cases, ◌∙◌,
}
use metrice.SshPacket.Fields.{
  Field, Kind, byte_kind, uint32_kind, boolean_kind, buffer_kind, mpint_kind, name_list_kind,
  as_field, read_field,
}
use metrice.SshPacket.{
  Reader, Read, advance, big_endian, read_byte, read_boolean, read_uint32, read_bytes, read_buffer,
  read_string, read_name_list,
}

-- The reader behind a call: on the same buffer, not before `r`, and not behind the end.
abbrev IsForward : Reader → Reader → Type 0
IsForward r r' = (r'.buffer ≡ r.buffer) × (r.offset ≤ r'.offset) × (r'.offset ≤ length r.buffer)

read_byte-IsForward : (r : Reader) → r.offset ≤ length r.buffer → IsForward r (read_byte r).0
unfolding read_byte advance
read_byte-IsForward r within = ground (arith, length-drop r.offset r.buffer)

read_uint32-IsForward : (r : Reader) → r.offset ≤ length r.buffer → IsForward r (read_uint32 r).0
unfolding read_uint32 advance big_endian
read_uint32-IsForward r within = ground (arith, length-drop r.offset r.buffer)

read_bytes-IsForward :
    (n : ℕ) (r : Reader) → r.offset ≤ length r.buffer → IsForward r (read_bytes n r).0
unfolding read_bytes advance
read_bytes-IsForward n r within = ground arith

read_buffer-IsForward : (r : Reader) → r.offset ≤ length r.buffer → IsForward r (read_buffer r).0
unfolding read_buffer
read_buffer-IsForward r within =
    let first = read_uint32-IsForward r within in
    elim (Option-cases (read_uint32 r).1) [
      | inl failed ↦ rw (failed, read_buffer) first
      | inr (n, found) ↦
          let behind = (read_uint32 r).0 in
          let second = read_bytes-IsForward n behind (omega (arith, first, ap length first.0)) in
          rw (found, read_buffer)
            (
              second.0 ∙ first.0,
              omega (arith, first, second),
              omega (arith, second, ap length first.0),
            )
    ]

as_field_reader : {A : Type 0} (f : A → Field) (x : Read A) → (as_field f x).0 ≡ x.0
as_field_reader f (r, none) = refl
as_field_reader f (r, some val) = refl

-- No read of any kind, failed or not, moves the reader back or behind the end of its buffer, or changes
-- the buffer.
pub read_field_within :
    (kind : Kind) (r : Reader)
    → r.offset ≤ length r.buffer
    → ((read_field kind r).0.buffer ≡ r.buffer)
      × (r.offset ≤ (read_field kind r).0.offset)
      × ((read_field kind r).0.offset ≤ length r.buffer)
read_field_within byte_kind r within = rw as_field_reader (read_byte-IsForward r within)
read_field_within uint32_kind r within = rw as_field_reader (read_uint32-IsForward r within)
read_field_within boolean_kind r within =
    rw as_field_reader (unfold read_boolean in read_byte-IsForward r within)
read_field_within buffer_kind r within = rw as_field_reader (read_buffer-IsForward r within)
read_field_within mpint_kind r within = rw as_field_reader (read_buffer-IsForward r within)
read_field_within name_list_kind r within =
    rw as_field_reader (unfold read_name_list read_string in read_buffer-IsForward r within)
