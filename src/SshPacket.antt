-- ===== src/SshPacket.antt =====
-- `SshPacketReader` and `SshPacketWriter` of src/utils/sshPacket.js. A buffer is a list of bytes.
pub mod Bounds
pub mod Fields
pub mod Growth
mod Names
pub mod RoundTrip
mod Tests
use mathlib.Core.Option.{map as option_map}
use metrice.Base.{
  ℕ, zero, suc, ◌+◌, ◌-◌, ◌*◌, ◌/◌, ◌%◌, ◌^◌, Bool, true, false, not, Option, none, some, List, [],
  ◌∷◌, ◌++◌, map, Str, split, join, ltb, leb, ◌==◌, if◌then◌else◌, length, take, drop, replicate,
}

pub record Reader : Type 0 where
  pub buffer : List ℕ
  pub offset : ℕ

-- The reader behind the call, and `none` for an exception.
abbrev pub Read : Type 0 → Type 0
Read A = Reader × Option A

-- `new SshPacketReader(buffer)`
unfoldable pub reader : List ℕ → Reader
reader buffer = record { buffer = buffer; offset = 0 }

-- `get remaining`: the offset is never behind the end.
unfoldable pub remaining : Reader → ℕ
remaining r = length r.buffer - r.offset

unfoldable pub advance : ℕ → Reader → Reader
advance n r = record r { offset = r.offset + n }

-- `readByte()`; `readUInt8` throws at the end of the buffer.
unfoldable pub read_byte : Reader → Read ℕ
read_byte r = elim (drop r.offset r.buffer) [
  | [] ↦ (r, none)
  | val ∷ rest ↦ (advance 1 r, some val)
]

unfoldable pub read_boolean : Reader → Read Bool
read_boolean r = let (r', val) = read_byte r in (r', option_map (λ v. not (v == 0)) val)

-- The number that `readUInt32BE` reads from the bytes at its offset; it throws if fewer than four are left.
unfoldable pub big_endian : List ℕ → Option ℕ
big_endian (a ∷ b ∷ c ∷ d ∷ rest) = some (((a * 256 + b) * 256 + c) * 256 + d)
big_endian _ = none

-- `readUInt32()`
unfoldable pub read_uint32 : Reader → Read ℕ
read_uint32 r = elim (big_endian (drop r.offset r.buffer)) [
  | none ↦ (r, none)
  | some val ↦ (advance 4 r, some val)
]

-- The test of `readBuffer` and `readString`, and the bytes.
unfoldable pub read_bytes : ℕ → Reader → Read (List ℕ)
read_bytes len r =
    if ltb (length r.buffer) (r.offset + len)
    then (r, none)
    else (advance len r, some (take len (drop r.offset r.buffer)))

-- `readBuffer()`, and `readMpint()`. When the length is too large, its four bytes are read already.
unfoldable pub read_buffer : Reader → Read (List ℕ)
read_buffer r =
    let (r', len) = read_uint32 r in elim len [ none ↦ (r', none) | some n ↦ read_bytes n r' ]

-- `readString(encoding)`, where `decode` is the decoder of the encoding.
unfoldable pub read_string : (List ℕ → Str) → Reader → Read Str
read_string decode r = let (r', bytes) = read_buffer r in (r', option_map decode bytes)

-- The decoder `ascii` drops the high bit.
unfoldable pub ascii : List ℕ → Str
ascii bytes = map (λ b. b % 128) bytes

-- `raw ? raw.split(',') : []`
unfoldable pub names_of : Str → List Str
names_of [] = []
names_of (c ∷ raw) = split b',' (c ∷ raw)

-- `readNameList()`
unfoldable pub read_name_list : Reader → Read (List Str)
read_name_list r = let (r', raw) = read_string ascii r in (r', option_map names_of raw)

-- The buffer is as long as its capacity.
pub record Writer : Type 0 where
  pub buffer : List ℕ
  pub offset : ℕ

-- `new SshPacketWriter(initialSize)`
unfoldable pub writer : ℕ → Writer
writer initial_size = record { buffer = replicate initial_size 0; offset = 0 }

-- `bytes.copy(buffer, offset)`: it stops at the end of the target.
unfoldable pub copy : List ℕ → List ℕ → ℕ → List ℕ
copy [] buffer offset = buffer
copy (b ∷ bytes) [] offset = []
copy (b ∷ bytes) (c ∷ buffer) zero = b ∷ copy bytes buffer zero
copy (b ∷ bytes) (c ∷ buffer) (suc offset) = c ∷ copy (b ∷ bytes) buffer offset

-- `while (needed > nextSize) nextSize *= 2;` Fuel `needed` is enough from a size of 1 or more.
unfoldable pub double_size : ℕ → ℕ → ℕ → ℕ
double_size zero needed size = size
double_size (suc fuel) needed size =
    let next = double_size fuel needed (size * 2) in if ltb size needed then next else size

-- `ensureCapacity(bytesNeeded)`
unfoldable pub ensure_capacity : ℕ → Writer → Writer
ensure_capacity bytes_needed w =
    let needed = w.offset + bytes_needed in
    if ltb (length w.buffer) needed
    then (record w {
      buffer = copy w.buffer (replicate (double_size needed needed (length w.buffer * 2)) 0) 0;
    })
    else w

-- The bytes at the offset, and the offset behind them.
unfoldable pub put : List ℕ → Writer → Writer
put bytes w = record w { buffer = copy bytes w.buffer w.offset; offset = w.offset + length bytes }

-- `writeByte(val)`: `writeUInt8` throws on a value over 255.
unfoldable pub write_byte : ℕ → Writer → Option Writer
write_byte val w = if ltb 255 val then none else some (put (val ∷ []) (ensure_capacity 1 w))

unfoldable pub write_boolean : Bool → Writer → Option Writer
write_boolean val w = write_byte (if val then 1 else 0) w

unfoldable pub uint32_bytes : ℕ → List ℕ
uint32_bytes val = (val / 2 ^ 24) ∷ (val / 2 ^ 16 % 256) ∷ (val / 2 ^ 8 % 256) ∷ (val % 256) ∷ []

-- `writeUInt32(val)`: `writeUInt32BE` throws on a value of 2^32 or more.
unfoldable pub write_uint32 : ℕ → Writer → Option Writer
write_uint32 val w =
    if leb (2 ^ 32) val then none else some (put (uint32_bytes val) (ensure_capacity 4 w))

-- `writeRaw(buf)`
unfoldable pub write_raw : List ℕ → Writer → Writer
write_raw bytes w = put bytes (ensure_capacity (length bytes) w)

-- `writeBuffer(buf)`
unfoldable pub write_buffer : List ℕ → Writer → Option Writer
write_buffer bytes w =
    option_map (put bytes) (write_uint32 (length bytes) (ensure_capacity (4 + length bytes) w))

-- `writeString(str, encoding)`, where `encode` is the encoder of the encoding.
unfoldable pub write_string : (Str → List ℕ) → Str → Writer → Option Writer
write_string encode text w = write_buffer (encode text) w

-- A zero byte in front, unless the first byte is there and has its high bit clear.
unfoldable pub mpint_bytes : List ℕ → List ℕ
mpint_bytes [] = 0 ∷ []
mpint_bytes (b ∷ bytes) = if b / 128 % 2 == 0 then b ∷ bytes else 0 ∷ b ∷ bytes

-- `writeMpint(buf)`
unfoldable pub write_mpint : List ℕ → Writer → Option Writer
write_mpint bytes w = write_buffer (mpint_bytes bytes) w

-- The encoder `ascii` keeps the low eight bits.
unfoldable pub ascii_bytes : Str → List ℕ
ascii_bytes text = map (λ c. c % 256) text

-- `writeNameList(list)`
unfoldable pub write_name_list : List Str → Writer → Option Writer
write_name_list names w = write_string ascii_bytes (join (b',' ∷ []) names) w

-- `toBuffer()`
unfoldable pub to_buffer : Writer → List ℕ
to_buffer w = take w.offset w.buffer
