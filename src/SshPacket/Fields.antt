-- ===== src/SshPacket/Fields.antt =====
-- The fields of an SSH packet, as src/utils/sshPacket.js writes and reads them one after the other.
use metrice.Base.{
  ℕ, ◌≤◌, ◌<◌, ◌^◌, Bool, Option, none, some, List, [], ◌∷◌, ◌++◌, Str, All, Lacks, length,
  if◌then◌else◌, join,
}
use metrice.SshPacket.{
  Reader, Read, Writer, read_byte, read_boolean, read_uint32, read_buffer, read_name_list,
  write_byte, write_boolean, write_uint32, write_buffer, write_mpint, write_name_list, mpint_bytes,
  uint32_bytes, ascii_bytes,
}

pub data Field : Type 0 where
  byte_field uint32_field : ℕ → Field
  boolean_field : Bool → Field
  buffer_field mpint_field : List ℕ → Field
  name_list_field : List Str → Field

pub data Kind : Type 0 where
  byte_kind uint32_kind boolean_kind buffer_kind mpint_kind name_list_kind : Kind

abbrev pub kind_of : Field → Kind
kind_of (byte_field val) = byte_kind
kind_of (uint32_field val) = uint32_kind
kind_of (boolean_field val) = boolean_kind
kind_of (buffer_field bytes) = buffer_kind
kind_of (mpint_field bytes) = mpint_kind
kind_of (name_list_field names) = name_list_kind

-- A name: not empty, in ASCII, without a comma.
abbrev pub IsName : Str → Type 0
IsName name = (1 ≤ length name) × All (λ c. c < 128) name × Lacks b',' name

-- What the writer takes: numbers in range, blocks whose length fits 32 bits.
abbrev pub IsField : Field → Type 0
IsField (byte_field val) = val ≤ 255
IsField (uint32_field val) = val < 2 ^ 32
IsField (boolean_field val) = Unit
IsField (buffer_field bytes) = length bytes < 2 ^ 32
IsField (mpint_field bytes) = length (mpint_bytes bytes) < 2 ^ 32
IsField (name_list_field names) =
    All IsName names × (length (ascii_bytes (join (b',' ∷ []) names)) < 2 ^ 32)

abbrev pub write_field : Field → Writer → Option Writer
write_field (byte_field val) w = write_byte val w
write_field (uint32_field val) w = write_uint32 val w
write_field (boolean_field val) w = write_boolean val w
write_field (buffer_field bytes) w = write_buffer bytes w
write_field (mpint_field bytes) w = write_mpint bytes w
write_field (name_list_field names) w = write_name_list names w

-- A value that was read, as a field
abbrev pub as_field : {A : Type 0} → (A → Field) → Read A → Read Field
as_field f (r, none) = (r, none)
as_field f (r, some val) = (r, some (f val))

abbrev pub read_field : Kind → Reader → Read Field
read_field byte_kind r = as_field byte_field (read_byte r)
read_field uint32_kind r = as_field uint32_field (read_uint32 r)
read_field boolean_kind r = as_field boolean_field (read_boolean r)
read_field buffer_kind r = as_field buffer_field (read_buffer r)
read_field mpint_kind r = as_field mpint_field (read_buffer r)
read_field name_list_kind r = as_field name_list_field (read_name_list r)

-- A number comes back with the zero byte that the writer put in front of it.
abbrev pub received : Field → Field
received (mpint_field bytes) = mpint_field (mpint_bytes bytes)
received f = f

abbrev pub block : List ℕ → List ℕ
block bytes = uint32_bytes (length bytes) ++ bytes

-- The bytes of a field by RFC 4251
abbrev pub wire : Field → List ℕ
wire (byte_field val) = val ∷ []
wire (uint32_field val) = uint32_bytes val
wire (boolean_field val) = (if val then 1 else 0) ∷ []
wire (buffer_field bytes) = block bytes
wire (mpint_field bytes) = block (mpint_bytes bytes)
wire (name_list_field names) = block (ascii_bytes (join (b',' ∷ []) names))

abbrev pub wires : List Field → List ℕ
wires [] = []
wires (f ∷ fs) = wire f ++ wires fs

abbrev pub write_fields : List Field → Writer → Option Writer
write_fields [] w = some w
write_fields (f ∷ fs) w = elim (write_field f w) [ none ↦ none | some w' ↦ write_fields fs w' ]

-- One more field in front, unless a later one failed
abbrev pub and_then : Field → Read (List Field) → Read (List Field)
and_then f (r, none) = (r, none)
and_then f (r, some fs) = (r, some (f ∷ fs))

abbrev pub read_fields : List Kind → Reader → Read (List Field)
read_fields [] r = (r, some [])
read_fields (k ∷ ks) r =
    let (r', field) = read_field k r in
    elim field [ none ↦ (r', none) | some f ↦ and_then f (read_fields ks r') ]
