-- ===== src/ProxyProtocol/Address.antt =====
-- Addresses as src/utils/proxyProtocol.js prints them.
use metrice.Base.Number.{decimal, hex}
use metrice.Base.{
  ℕ, zero, suc, ◌+◌, ◌*◌, Option, none, some, List, [], ◌∷◌, ◌++◌, map, Str, codes, ltb, leb, ◌==◌,
  if◌then◌else◌, get_or, join, take, drop, ◌≡◌, refl,
}

-- `buf[i]` and `buf.readUInt16BE(i)`; the callers have checked that the bytes are there.
unfoldable pub byte_at : List ℕ → ℕ → ℕ
byte_at buf i = get_or buf i 0

unfoldable pub read_u16 : List ℕ → ℕ → ℕ
unfolding byte_at
read_u16 buf i = byte_at buf i * 256 + byte_at buf (i + 1)

-- `${buf[16]}.${buf[17]}.${buf[18]}.${buf[19]}`
unfoldable pub dotted : ℕ → ℕ → ℕ → ℕ → Str
unfolding decimal join
dotted a b c d = join (codes ".") (decimal a ∷ decimal b ∷ decimal c ∷ decimal d ∷ [])

-- The variables of the search for the longest run of zeros; `none` is the start -1.
pub record Runs : Type 0 where
  pub max_start : Option ℕ
  pub max_length : ℕ
  pub current_start : Option ℕ
  pub current_length : ℕ

-- The run that a zero word at `i` starts or prolongs.
unfoldable pub grow : ℕ → Runs → Runs
grow i r = elim r.current_start [
  | none ↦ record r { current_start = some i; current_length = 1 }
  | some s ↦ record r { current_length = r.current_length + 1 }
]

unfoldable pub record_max : Runs → Runs
record_max r =
    if ltb r.max_length r.current_length
    then record r { max_start = r.current_start; max_length = r.current_length }
    else r

-- One round of `for (let i = 0; i < 8; i++)`
unfoldable pub step_run : ℕ → ℕ → Runs → Runs
unfolding grow record_max
step_run i word r =
    if word == 0
    then record_max (grow i r)
    else record r { current_start = none; current_length = 0 }

unfoldable pub scan_runs : ℕ → List ℕ → Runs → Runs
unfolding step_run
scan_runs i [] r = r
scan_runs i (word ∷ words) r = scan_runs (i + 1) words (step_run i word r)

abbrev pub no_runs : Runs
no_runs = record { max_start = none; max_length = 0; current_start = none; current_length = 0 }

unfoldable pub compress : Option ℕ → ℕ → List ℕ → Str
unfolding hex join
compress none len words = join (codes ":") (map hex words)
compress (some start) len words =
    if leb 2 len
    then join (codes ":") (map hex (take start words))
      ++ codes "::"
      ++ join (codes ":") (map hex (drop (start + len) words))
    else join (codes ":") (map hex words)

unfoldable pub format_words : List ℕ → Str
unfolding scan_runs compress
format_words words = let r = scan_runs 0 words no_runs in compress r.max_start r.max_length words

-- The eight words from `offset` on.
unfoldable pub read_words : ℕ → List ℕ → ℕ → List ℕ
unfolding read_u16
read_words zero buf offset = []
read_words (suc n) buf offset = read_u16 buf offset ∷ read_words n buf (offset + 2)

-- `formatIPv6(buf, offset)`
unfoldable pub format_ipv6 : List ℕ → ℕ → Str
unfolding format_words read_words
format_ipv6 buf offset = format_words (read_words 8 buf offset)

format_words_runs :
    format_words (0x2001 ∷ 0xdb8 ∷ 0 ∷ 0 ∷ 1 ∷ 0 ∷ 0 ∷ 1 ∷ []) ≡ codes "2001:db8::1:0:0:1"
unfolding format_words
format_words_runs = refl

dotted_runs : dotted 192 168 0 1 ≡ codes "192.168.0.1"
unfolding dotted
dotted_runs = refl
