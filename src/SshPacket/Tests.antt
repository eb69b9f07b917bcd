-- ===== src/SshPacket/Tests.antt =====
-- Tests and instances for src/utils/sshPacket.js.
use metrice.Base.{
  true, none, some, List, [], ◌∷◌, ◌++◌, ◌≡◌, refl, arith, codes, All, map, join, length,
}
use metrice.SshPacket.Fields.{
  Field, byte_field, uint32_field, boolean_field, mpint_field, name_list_field, kind_of, IsField,
  received, write_fields, read_fields,
}
use metrice.SshPacket.Growth.{IsValid, writer-IsValid, write_raw_appends}
use metrice.SshPacket.RoundTrip.{read-write_fields}
use metrice.SshPacket.{
  Writer, reader, advance, big_endian, read_uint32, read_bytes, read_buffer, writer, copy,
  double_size, ensure_capacity, put, write_byte, write_uint32, write_raw, mpint_bytes, uint32_bytes,
  ascii_bytes, to_buffer,
}

program : Unit {0}
unfolding reader advance big_endian read_uint32 read_bytes read_buffer writer copy double_size
    ensure_capacity put write_byte write_uint32 write_raw mpint_bytes uint32_bytes ascii_bytes
    to_buffer join
program = tt

-- A length that asks for more than is there
short_buffer : (read_buffer (reader (0 ∷ 0 ∷ 0 ∷ 9 ∷ 1 ∷ 2 ∷ []))).1 ≡ none
unfolding program
short_buffer = refl

read_two : (read_buffer (reader (0 ∷ 0 ∷ 0 ∷ 2 ∷ 1 ∷ 2 ∷ 3 ∷ []))).1 ≡ some (1 ∷ 2 ∷ [])
unfolding program
read_two = refl

grows : to_buffer (write_raw (4 ∷ 5 ∷ 6 ∷ []) (writer 1)) ≡ 4 ∷ 5 ∷ 6 ∷ []
unfolding program
grows = refl

write_raw_appends_example :
    IsValid (write_raw (4 ∷ 5 ∷ 6 ∷ []) (writer 1))
    × (to_buffer (write_raw (4 ∷ 5 ∷ 6 ∷ []) (writer 1)) ≡ to_buffer (writer 1) ++ 4 ∷ 5 ∷ 6 ∷ [])
write_raw_appends_example =
    write_raw_appends (4 ∷ 5 ∷ 6 ∷ []) (writer 1) (writer-IsValid 1 (omega arith))

abbrev kexinit : List Field
kexinit =
    byte_field 20
    ∷ boolean_field true
    ∷ uint32_field 70000
    ∷ name_list_field (codes "aes256-ctr" ∷ codes "aes128-ctr" ∷ [])
    ∷ mpint_field (200 ∷ 1 ∷ [])
    ∷ []

kexinit_ok : All IsField kexinit
unfolding program
kexinit_ok = (omega arith, (tt, (omega arith, ((ground arith, omega arith), (omega arith, tt)))))

read-write_fields_example :
    (w : Writer) × (write_fields kexinit (writer 8) ≡ some w)
    × (read_fields (map kind_of kexinit) (reader (to_buffer w))
        ≡ (advance (length (to_buffer w)) (reader (to_buffer w)), some (map received kexinit)))
read-write_fields_example = read-write_fields kexinit 8 (omega arith) kexinit_ok
