-- ===== src/ProxyProtocol/Stability.antt =====
-- What more bytes change in the outcome of `parseBuffer` of src/utils/proxyProtocol.js.
use metrice.Base.{
  ℕ, zero, suc, ◌+◌, ◌-◌, ◌*◌, ◌/◌, ◌%◌, ◌≤◌, ◌<◌, true, false, ◌&&◌, Option, none, some, List, [],
  ◌∷◌, ◌++◌, ◌≡◌, ◌≢◌, ◌∙◌, inl, inr, refl, sym, ap, arith, Str, str_eq, ◌==◌, length,
  length-append, get_or, get_or-append, take, drop, take-append, drop-append, Option-cases,
}
use metrice.Base.Number.{ℤ, parse_int}
use metrice.ProxyProtocol.Address.{byte_at, read_u16, read_words, format_ipv6, format_words}
use metrice.ProxyProtocol.{
  Outcome, accepted, need_more, rejected, passthrough, v1_header_exceeds_max_length, has_signature,
  is_partial, index_of_crlf, v1_address, v1_line, v1_tokens, parse_v1, v2_command, parse_v2,
  parse_buffer, v1_prefix, v2_magic, clean_ip,
}

-- The outcome with `x` behind the bytes that it hands on.
abbrev pub extend : List ℕ → Outcome → Outcome
extend x (accepted a p r) = accepted a p (r ++ x)
extend x need_more = need_more
extend x (rejected e) = rejected e
extend x (passthrough r) = passthrough (r ++ x)

has_signature-nil : (s : List ℕ) → has_signature [] s ≡ true
unfolding has_signature str_eq
has_signature-nil s = ground arith

module _ (c d : ℕ) (p s : List ℕ) where
  pub has_signature-cons : has_signature (d ∷ p) (c ∷ s) ≡ ((c == d) && has_signature p s)
  unfolding has_signature str_eq
  has_signature-cons = ground arith

  pub is_partial-cons : is_partial (d ∷ p) (c ∷ s) ≡ ((d == c) && is_partial p s)
  unfolding is_partial str_eq
  is_partial-cons = ground arith

-- Once a buffer is no proper beginning of a signature, more bytes decide nothing.
signature-append :
    (p s x : List ℕ)
    → is_partial p s ≡ false
    → (is_partial p (s ++ x) ≡ false) × (has_signature p (s ++ x) ≡ has_signature p s)
signature-append [] s x h =
    (unfold is_partial in ground arith, has_signature-nil (s ++ x) ∙ sym (has_signature-nil s))
signature-append (d ∷ p) [] x h = absurd (unfold is_partial str_eq in ground arith)
signature-append (d ∷ p) (c ∷ s) x h = ground (
  arith,
  signature-append p s x,
  has_signature-cons c d p s,
  has_signature-cons c d p (s ++ x),
  is_partial-cons c d p s,
  is_partial-cons c d p (s ++ x),
)

index_of_crlf-append :
    (s x : List ℕ) (i : ℕ)
    → index_of_crlf s ≡ some i
    → (index_of_crlf (s ++ x) ≡ some i) × (i + 2 ≤ length s)
unfolding index_of_crlf
index_of_crlf-append [] x i h = cc
index_of_crlf-append (c ∷ []) x i h = cc
index_of_crlf-append (c ∷ d ∷ s) x i h = ground (arith, index_of_crlf-append (d ∷ s) x (i - 1))

v1_address-append :
    (ip : Str) (port : Option ℤ) (r x : List ℕ)
    → v1_address ip port (r ++ x) ≡ extend x (v1_address ip port r)
unfolding v1_address
v1_address-append [] port r x = refl
v1_address-append (c ∷ ip) none r x = refl
v1_address-append (c ∷ ip) (some port) r x = refl

v1_line-append :
    (tokens : List Str) (clean : Str) (r x : List ℕ)
    → v1_line tokens clean (r ++ x) ≡ extend x (v1_line tokens clean r)
unfolding v1_line
v1_line-append tokens clean r x =
    ground (arith, v1_address-append (get_or tokens 2 []) (parse_int (get_or tokens 4 [])) r x)

-- A version 1 header that has been decided, by its line end or by its content.
parse_v1-append :
    (b x : List ℕ) (clean : Str)
    → parse_v1 b clean ≢ need_more
    → parse_v1 b clean ≢ rejected v1_header_exceeds_max_length
    → parse_v1 (b ++ x) clean ≡ extend x (parse_v1 b clean)
unfolding parse_v1
parse_v1-append b x clean more long = elim (Option-cases (index_of_crlf b)) [
  | inl miss ↦ absurd (ground arith)
  | inr (i, hit) ↦
      let (hit', fits) = index_of_crlf-append b x i hit in
      rw (hit, hit', parse_v1, take-append i b x (omega arith), drop-append (i + 2) b x fits)
        (v1_line-append (v1_tokens (take i b)) clean (drop (i + 2) b) x)
]

module _ (b x : List ℕ) where
  byte_at-append : (i : ℕ) → i < length b → byte_at (b ++ x) i ≡ byte_at b i
  unfolding byte_at
  byte_at-append i h = get_or-append i b x 0 h

  read_u16-append : (i : ℕ) → i + 1 < length b → read_u16 (b ++ x) i ≡ read_u16 b i
  unfolding read_u16
  read_u16-append i h = cc (get_or-append i b x 0 (omega arith), get_or-append (i + 1) b x 0 h)

  read_words-append : (n i : ℕ) → i + 2 * n ≤ length b → read_words n (b ++ x) i ≡ read_words n b i
  unfolding read_words
  read_words-append zero i h = refl
  read_words-append (suc n) i h =
      cc (read_u16-append i (omega arith), read_words-append n (i + 2) (omega arith))

  format_ipv6-append : (i : ℕ) → i + 16 ≤ length b → format_ipv6 (b ++ x) i ≡ format_ipv6 b i
  unfolding format_ipv6
  format_ipv6-append i h = ap format_words (read_words-append 8 i h)

  v2_command-append :
      (cmd fam len : ℕ) (clean : Str) (r : List ℕ)
      → 16 + len ≤ length b
      → v2_command cmd fam len (b ++ x) clean (r ++ x) ≡ extend x (v2_command cmd fam len b clean r)
  unfolding v2_command
  v2_command-append cmd fam len clean r h = ground (
    arith,
    byte_at-append 16,
    byte_at-append 17,
    byte_at-append 18,
    byte_at-append 19,
    read_u16-append 24,
    format_ipv6-append 16,
    read_u16-append 48,
  )

  parse_v2-append :
      (clean : Str)
      → parse_v2 b clean ≢ need_more
      → parse_v2 (b ++ x) clean ≡ extend x (parse_v2 b clean)
  unfolding parse_v2
  parse_v2-append clean more = ground (
    arith,
    byte_at-append 12,
    byte_at-append 13,
    read_u16-append 14,
    length-append b x,
    drop-append (16 + read_u16 b 14) b x,
    v2_command-append (byte_at b 12 % 16) (byte_at b 13 / 16 % 16) (read_u16 b 14) clean
        (drop (16 + read_u16 b 14) b),
  )

-- Once the outcome of `parseBuffer` is decided, more bytes are only handed on behind it. The exception is a version 1
-- header over 107 bytes whose line end is still missing.
pub parse_buffer-append :
    (b x : List ℕ) (ip : Str) (trusted : List Str)
    → parse_buffer b ip trusted ≢ need_more
    → parse_buffer b ip trusted ≢ rejected v1_header_exceeds_max_length
    → parse_buffer (b ++ x) ip trusted ≡ extend x (parse_buffer b ip trusted)
unfolding parse_buffer
parse_buffer-append b x ip trusted more long = ground (
  arith,
  signature-append v1_prefix b x,
  signature-append v2_magic b x,
  parse_v1-append b x (clean_ip ip),
  parse_v2-append b x (clean_ip ip),
)
