-- ===== src/ProxyProtocol/Headers.antt =====
-- What `parseBuffer` of src/utils/proxyProtocol.js accepts, and what it hands on.
use metrice.Base.{
  includes, ℕ, ◌+◌, ◌-◌, ◌≤◌, Bool, true, false, ◌&&◌, ◌||◌, not, Option, none, some, List, [], ◌∷◌,
  ◌≡◌, ◌≢◌, inl, inr, refl, subst, some-injective, arith, Str, ltb, ◌==◌, if◌then◌else◌, length,
  take, drop, Bool-cases, Option-cases,
}
use metrice.Base.Number.{ℤ}
use metrice.ProxyProtocol.Stability.{has_signature-cons, is_partial-cons}
use metrice.ProxyProtocol.Address.{read_u16}
use metrice.ProxyProtocol.{
  Outcome, Reason, accepted, need_more, rejected, passthrough, has_signature, is_partial,
  index_of_crlf, v1_address, v1_line, v1_tokens, parse_v1, v2_command, parse_v2, parse_buffer,
  v1_prefix, v2_magic, clean_ip, untrusted_proxy_header_spoof,
}

index_of_crlf-le : (s : List ℕ) (i : ℕ) → index_of_crlf s ≡ some i → i + 2 ≤ length s
unfolding index_of_crlf
index_of_crlf-le [] i h = cc
index_of_crlf-le (c ∷ []) i h = cc
index_of_crlf-le (c ∷ d ∷ s) i h = ground (arith, index_of_crlf-le (d ∷ s) (i - 1))

-- The bytes that an outcome hands on to the connection.
abbrev pub hands_on : Outcome → Option (List ℕ)
hands_on (accepted a p r) = some r
hands_on (passthrough r) = some r
hands_on need_more = none
hands_on (rejected e) = none

-- The bytes are those of the buffer behind its first `n`.
abbrev pub Behind : List ℕ → List ℕ → Type 0
Behind b r = (n : ℕ) × (r ≡ drop n b) × (n ≤ length b)

-- Whatever the outcome hands on is a rest of the buffer.
record Handed (b : List ℕ) (o : Outcome) : Type 0 where
  behind : (r : List ℕ) → hands_on o ≡ some r → Behind b r

module _ (b : List ℕ) where
  Handed-if :
      (t : Bool) {o o' : Outcome} → Handed b o → Handed b o' → Handed b (if t then o else o')
  Handed-if true h h' = h
  Handed-if false h h' = h'

  Handed-accepted : {a : Str} {p : ℤ} {s : List ℕ} → Behind b s → Handed b (accepted a p s)
  Handed-accepted {s = s} h = record { behind = λ r e. subst (Behind b) (some-injective s r e) h }

  Handed-passthrough : {s : List ℕ} → Behind b s → Handed b (passthrough s)
  Handed-passthrough {s} h = record { behind = λ r e. subst (Behind b) (some-injective s r e) h }

  Handed-rejected : {e : Reason} → Handed b (rejected e)
  Handed-rejected = record { behind = λ r e. cc }

  Handed-need_more : Handed b need_more
  Handed-need_more = record { behind = λ r e. cc }

  v1_address-Handed :
      (ip : Str) (port : Option ℤ) (rest : List ℕ)
      → Behind b rest
      → Handed b (v1_address ip port rest)
  unfolding v1_address
  v1_address-Handed [] port rest h = Handed-rejected
  v1_address-Handed (c ∷ ip) none rest h = Handed-rejected
  v1_address-Handed (c ∷ ip) (some port) rest h = Handed-accepted h

  v1_line-Handed :
      (tokens : List Str) (clean : Str) (rest : List ℕ)
      → Behind b rest
      → Handed b (v1_line tokens clean rest)
  unfolding v1_line
  v1_line-Handed tokens clean rest h =
      Handed-if _ (Handed-accepted h) (Handed-if _ (v1_address-Handed _ _ rest h) Handed-rejected)

  parse_v1-Handed : (clean : Str) → Handed b (parse_v1 b clean)
  unfolding parse_v1
  parse_v1-Handed clean = elim (Option-cases (index_of_crlf b)) [
    | inl miss ↦ rw (miss, parse_v1) (Handed-if _ Handed-rejected Handed-need_more)
    | inr (i, hit) ↦
        rw (hit, parse_v1)
          (v1_line-Handed (v1_tokens (take i b)) clean _ (i + 2, refl, index_of_crlf-le b i hit))
  ]

  v2_command-Handed :
      (cmd fam len : ℕ) (clean : Str) (rest : List ℕ)
      → Behind b rest
      → Handed b (v2_command cmd fam len b clean rest)
  unfolding v2_command
  v2_command-Handed cmd fam len clean rest h = Handed-if (cmd == 0) (Handed-accepted h) (
      Handed-if (cmd == 1)
        (Handed-if (fam == 1) (Handed-if (ltb len 12) Handed-rejected (Handed-accepted h)) (
          Handed-if (fam == 2) (Handed-if (ltb len 36) Handed-rejected (Handed-accepted h))
            (Handed-accepted h)))
        Handed-rejected)

  parse_v2-Handed : (clean : Str) → Handed b (parse_v2 b clean)
  unfolding parse_v2
  parse_v2-Handed clean = elim (Bool-cases (ltb (length b) (16 + read_u16 b 14))) [
    | inl short ↦
        rw short (Handed-if _ Handed-need_more (Handed-if _ Handed-rejected Handed-need_more))
    | inr whole ↦ rw whole (
        Handed-if _ Handed-need_more (
          Handed-if _ Handed-rejected
            (v2_command-Handed _ _ _ clean _ (16 + read_u16 b 14, refl, ground arith))))
  ]

  parse_buffer-Handed : (ip : Str) (trusted : List Str) → Handed b (parse_buffer b ip trusted)
  unfolding parse_buffer
  parse_buffer-Handed ip trusted = Handed-if (is_partial v1_prefix b) Handed-need_more (
      Handed-if (is_partial v2_magic b) Handed-need_more (
        Handed-if
          ((has_signature v1_prefix b || has_signature v2_magic b)
            && not (includes trusted (clean_ip ip)))
          Handed-rejected
          (Handed-if (has_signature v1_prefix b) (parse_v1-Handed (clean_ip ip)) (
            Handed-if (has_signature v2_magic b) (parse_v2-Handed (clean_ip ip))
              (Handed-passthrough {s = b} (0, refl, omega arith))))))

-- Nothing is made up: the bytes that `parseBuffer` hands on are those of the buffer behind its first
-- `n`, for some `n` within the buffer.
pub hands_on_rest :
    (b : List ℕ) (ip : Str) (trusted : List Str) (r : List ℕ)
    → hands_on (parse_buffer b ip trusted) ≡ some r
    → (n : ℕ) × (r ≡ drop n b) × (n ≤ length b)
hands_on_rest b ip trusted r h = (parse_buffer-Handed b ip trusted).behind r h

has_signature-length : (p b : List ℕ) → has_signature p b ≡ true → length p ≤ length b
unfolding has_signature
has_signature-length p b h = ground arith

is_partial_long : (p b : List ℕ) → length p ≤ length b → is_partial p b ≡ false
unfolding is_partial
is_partial_long p b h = ground arith

-- Two signatures that differ in the first byte are not confused.
signatures_differ :
    (c d : ℕ) (p q b : List ℕ)
    → c ≢ d
    → has_signature (c ∷ p) b ≡ true
    → is_partial (d ∷ q) b ≡ false
signatures_differ c d p q [] ne h = absurd (unfold has_signature in ground arith)
signatures_differ c d p q (e ∷ b) ne h =
    ground (arith, has_signature-cons e c p b, is_partial-cons e d q b)

-- A whole signature is no beginning of the same or of the other signature.
pub signature_whole :
    (b : List ℕ)
    → (has_signature v1_prefix b || has_signature v2_magic b) ≡ true
    → (is_partial v1_prefix b ≡ false) × (is_partial v2_magic b ≡ false)
signature_whole b h = elim (Bool-cases (has_signature v1_prefix b)) [
  | inl one ↦ (
    is_partial_long v1_prefix b (has_signature-length v1_prefix b one),
    signatures_differ b'P' 13 _ _ b (omega arith) one,
  )
  | inr not_one ↦
      let two : has_signature v2_magic b ≡ true = ground arith in
      (
        signatures_differ 13 b'P' _ _ b (omega arith) two,
        is_partial_long v2_magic b (has_signature-length v2_magic b two),
      )
]

-- A peer that is not trusted is never believed, whatever it sends: a whole signature is refused,
-- the beginning of one waits, and all else is passed through untouched.
pub untrusted_outcome :
    (b : List ℕ) (ip : Str) (trusted : List Str)
    → includes trusted (clean_ip ip) ≡ false
    → parse_buffer b ip trusted ≡ (
        if has_signature v1_prefix b || has_signature v2_magic b
        then rejected untrusted_proxy_header_spoof
        else if is_partial v1_prefix b || is_partial v2_magic b
        then need_more
        else passthrough b)
unfolding parse_buffer
untrusted_outcome b ip trusted h = ground (arith, signature_whole b)
