-- ===== src/ProxyProtocol/RoundTrip.antt =====
-- Headers as a proxy writes them, read by `parseBuffer` of src/utils/proxyProtocol.js.
use metrice.Base.{
  includes, ℕ, suc, ◌+◌, ◌/◌, ◌%◌, ◌<◌, Bool, true, false, some, List, [], ◌∷◌, ◌++◌, ◌≡◌, ◌∙◌,
  refl, arith, Str, codes, str_eq, if◌then◌else◌, length, length-append, drop, take-length,
  drop-length, All, Lacks, split, join, split-join, map,
}
use metrice.Base.Number.{ℤ, pos, parse_int}
use metrice.ProxyProtocol.Address.{byte_at, read_u16, dotted}
use metrice.ProxyProtocol.Headers.{signature_whole}
use metrice.ProxyProtocol.{
  accepted, has_signature, index_of_crlf, token_is, v1_address, v1_line, v1_tokens, parse_v1,
  v2_command, parse_v2, parse_buffer, v1_prefix, v2_magic, clean_ip,
}

-- The addresses of an IPv4 connection, and the extensions behind them.
pub record V2Header : Type 0 where
  pub src0 : ℕ
  pub src1 : ℕ
  pub src2 : ℕ
  pub src3 : ℕ
  pub dst0 : ℕ
  pub dst1 : ℕ
  pub dst2 : ℕ
  pub dst3 : ℕ
  pub src_port : ℕ
  pub dst_port : ℕ
  pub tlv : List ℕ

abbrev pub v2_block : V2Header → List ℕ
v2_block h =
    h.src0
    ∷ h.src1
    ∷ h.src2
    ∷ h.src3
    ∷ h.dst0
    ∷ h.dst1
    ∷ h.dst2
    ∷ h.dst3
    ∷ (h.src_port / 256)
    ∷ (h.src_port % 256)
    ∷ (h.dst_port / 256)
    ∷ (h.dst_port % 256)
    ∷ h.tlv

-- Version 2, command PROXY, TCP over IPv4.
abbrev pub v2_ipv4 : V2Header → List ℕ
v2_ipv4 h =
    let block = v2_block h in
    v2_magic ++ (0x21 ∷ 0x11 ∷ (length block / 256) ∷ (length block % 256) ∷ block)

has_magic : (s : List ℕ) → has_signature v2_magic (v2_magic ++ s) ≡ true
unfolding has_signature str_eq
has_magic s = ground arith

no_prefix : (s : List ℕ) → has_signature v1_prefix (v2_magic ++ s) ≡ false
unfolding has_signature str_eq
no_prefix s = ground arith

parse_v2_ipv4 :
    (h : V2Header) (clean : Str) (rest : List ℕ)
    → parse_v2 (v2_ipv4 h ++ rest) clean
      ≡ accepted (dotted h.src0 h.src1 h.src2 h.src3) (pos h.src_port) rest
unfolding parse_v2 v2_command byte_at read_u16
parse_v2_ipv4 h clean rest = ground (arith, length-append h.tlv rest, drop-length h.tlv rest)

-- From a trusted proxy, the source address and port of a version 2 header over IPv4 are returned as
-- written, for every block of extensions, with exactly the bytes behind the header.
pub parse_buffer-v2_ipv4 :
    (h : V2Header) (rest : List ℕ) (ip : Str) (trusted : List Str)
    → includes trusted (clean_ip ip) ≡ true
    → parse_buffer (v2_ipv4 h ++ rest) ip trusted
      ≡ accepted (dotted h.src0 h.src1 h.src2 h.src3) (pos h.src_port) rest
unfolding parse_buffer
parse_buffer-v2_ipv4 h rest ip trusted trust =
    let b = v2_ipv4 h ++ rest in
    let magic : has_signature v2_magic b ≡ true = has_magic _ in
    let no_v1 : has_signature v1_prefix b ≡ false = no_prefix _ in
    ground (arith, signature_whole b, parse_v2_ipv4 h (clean_ip ip) rest)

-- A character of the text between the spaces.
abbrev pub IsVisible : Str → Type 0
IsVisible = All (λ c. (32 < c) × (c < 127))

abbrev IsPrintable : Str → Type 0
IsPrintable = All (λ c. (31 < c) × (c < 127))

IsPrintable-append : (s t : Str) → IsPrintable s → IsPrintable t → IsPrintable (s ++ t)
IsPrintable-append [] t h k = k
IsPrintable-append (c ∷ s) t (p, h) k = (p, IsPrintable-append s t h k)

IsVisible-IsPrintable : (s : Str) → IsVisible s → IsPrintable s
IsVisible-IsPrintable [] h = tt
IsVisible-IsPrintable (c ∷ s) (p, h) = (omega arith, IsVisible-IsPrintable s h)

IsVisible-Lacks : (s : Str) → IsVisible s → Lacks 32 s
IsVisible-Lacks [] h = tt
IsVisible-Lacks (c ∷ s) (p, h) = (ground arith, IsVisible-Lacks s h)

All-Lacks : (ts : List Str) → All IsVisible ts → All (Lacks 32) ts
All-Lacks [] h = tt
All-Lacks (t ∷ ts) (p, h) = (IsVisible-Lacks t p, All-Lacks ts h)

join-IsPrintable : (ts : List Str) → All IsVisible ts → IsPrintable (join (32 ∷ []) ts)
unfolding join
join-IsPrintable [] h = tt
join-IsPrintable (s ∷ []) (p, h) = IsVisible-IsPrintable s p
join-IsPrintable (s ∷ t ∷ ts) (p, h) =
    IsPrintable-append s _ (IsVisible-IsPrintable s p) (omega arith, join-IsPrintable (t ∷ ts) h)

ascii_id : (s : Str) → IsPrintable s → map (λ c. c % 128) s ≡ s
ascii_id [] h = refl
ascii_id (c ∷ s) (p, h) = let e : c % 128 ≡ c = omega arith in λ i. e i ∷ ascii_id s h i

index_of_crlf_end :
    (s rest : List ℕ) → IsPrintable s → index_of_crlf (s ++ 13 ∷ 10 ∷ rest) ≡ some (length s)
unfolding index_of_crlf
index_of_crlf_end [] rest h = refl
index_of_crlf_end (c ∷ []) rest (p, h) = ground arith
index_of_crlf_end (c ∷ d ∷ s) rest (p, h) = ground (arith, index_of_crlf_end (d ∷ s) rest h)

-- "TCP4" or "TCP6"
abbrev pub family : Bool → Str
family six = if six then codes "TCP6" else codes "TCP4"

abbrev pub v1_words : Bool → Str → Str → Str → Str → List Str
v1_words six src dst src_port dst_port =
    codes "PROXY" ∷ family six ∷ src ∷ dst ∷ src_port ∷ dst_port ∷ []

-- "PROXY TCP4 <src> <dst> <src_port> <dst_port>"
abbrev pub v1_header : Bool → Str → Str → Str → Str → List ℕ
v1_header six src dst src_port dst_port = join (32 ∷ []) (v1_words six src dst src_port dst_port)

v1_words_parsed :
    (six : Bool) (c : ℕ) (src dst src_port dst_port : Str) (clean : Str) (rest : List ℕ) (port : ℤ)
    → parse_int src_port ≡ some port
    → v1_line (v1_words six (c ∷ src) dst src_port dst_port) clean rest
      ≡ accepted (c ∷ src) port rest
unfolding v1_line token_is str_eq v1_address
v1_words_parsed true c src dst src_port dst_port clean rest port h = rw h
v1_words_parsed false c src dst src_port dst_port clean rest port h = rw h

drop_line_end : (line rest : List ℕ) → drop (length line + 2) (line ++ 13 ∷ 10 ∷ rest) ≡ rest
drop_line_end [] rest = refl
drop_line_end (c ∷ line) rest =
    let e : suc (length line) + 2 ≡ suc (length line + 2) = omega arith in
    rw e (drop_line_end line rest)

family-IsVisible : (six : Bool) → IsVisible (family six)
family-IsVisible true = omega arith
family-IsVisible false = omega arith

-- A printable line is cut at its end and at its spaces.
parse_v1_line :
    (line rest : List ℕ) (words : List Str) (clean : Str)
    → IsPrintable line
    → split 32 line ≡ words
    → parse_v1 (line ++ 13 ∷ 10 ∷ rest) clean ≡ v1_line words clean rest
unfolding parse_v1 v1_tokens
parse_v1_line line rest words clean printable cut = rw (
  index_of_crlf_end line rest printable,
  parse_v1,
  drop_line_end line rest,
  take-length line (13 ∷ 10 ∷ rest),
  v1_tokens,
  ascii_id line printable,
  cut,
)

prefixed :
    (rest : List ℕ) (ts : List Str) (t : Str)
    → has_signature v1_prefix (join (32 ∷ []) (codes "PROXY" ∷ t ∷ ts) ++ rest) ≡ true
unfolding has_signature str_eq join
prefixed rest ts t = ground arith

-- From a trusted proxy, the source address and port of a version 1 header are returned as written,
-- with exactly the bytes behind the line end. The four texts are visible ASCII and the port is a
-- number that `parseInt` reads.
pub parse_buffer-v1_header :
    (six : Bool) (c : ℕ) (src dst src_port dst_port : Str) (rest : List ℕ) (port : ℤ) (ip : Str)
    (trusted : List Str)
    → includes trusted (clean_ip ip) ≡ true
    → All IsVisible ((c ∷ src) ∷ dst ∷ src_port ∷ dst_port ∷ [])
    → parse_int src_port ≡ some port
    → parse_buffer (v1_header six (c ∷ src) dst src_port dst_port ++ 13 ∷ 10 ∷ rest) ip trusted
      ≡ accepted (c ∷ src) port rest
unfolding parse_buffer
parse_buffer-v1_header six c src dst src_port dst_port rest port ip trusted trust visible number =
    let words = v1_words six (c ∷ src) dst src_port dst_port in
    let b = join (32 ∷ []) words ++ 13 ∷ 10 ∷ rest in
    let all_visible : All IsVisible words = (omega arith, (family-IsVisible six, visible)) in
    let parsed =
      parse_v1_line (join (32 ∷ []) words) rest words (clean_ip ip)
        (join-IsPrintable words all_visible)
        (split-join 32 (codes "PROXY") _ (All-Lacks words all_visible))
      ∙ v1_words_parsed six c src dst src_port dst_port (clean_ip ip) rest port number in
    let signed =
      prefixed (13 ∷ 10 ∷ rest) ((c ∷ src) ∷ dst ∷ src_port ∷ dst_port ∷ []) (family six) in
    ground (arith, signature_whole b)
