-- ===== src/AddressHelper/Targets.antt =====
-- Targets that are written as a host and a port, as a host in brackets, or as a node of the mesh, are
-- read back by `parseTarget` of src/utils/addressHelper.js.
use metrice.Base.{
  ℕ, ◌^◌, ◌≤◌, ◌<◌, true, false, some, [], ◌∷◌, ◌++◌, ◌≡◌, refl, ap, sym, subst, ◌∙◌, arith, inl,
  inr, Str, codes, ends_with, has_char, count_char, ◌==◌, length, All, Lacks, Lacks-has_char,
  cut_last-append, count_char-append, count_char-Lacks, last_or, last_or-append, ends_with_last,
  Bool-cases, ==_iff,
}
use metrice.Base.Decimal.{
  IsDigit, decimal-IsDigit, length-decimal, digits_value-decimal, all_digits-All,
}
use metrice.Base.Number.{decimal, is_digit, all_digits}
use metrice.AddressHelper.{
  Local, endpoint, is_node_char, all_node_chars, is_valid_node_id, host_or_own, split_port,
  wants_brackets, parse_plain, parse_bracket, parse_target,
}

-- `host:port`
abbrev pub with_port : Str → ℕ → Str
with_port host port = host ++ b':' ∷ decimal port

IsDigit-Lacks : (c : ℕ) (s : Str) → is_digit c ≡ false → All IsDigit s → Lacks c s
unfolding is_digit
IsDigit-Lacks c [] h k = tt
IsDigit-Lacks c (d ∷ s) h (k, ks) = (ground arith, IsDigit-Lacks c s h ks)

last-IsDigit : (d : ℕ) (s : Str) → IsDigit d → All IsDigit s → IsDigit (last_or d s)
last-IsDigit d [] h k = h
last-IsDigit d (c ∷ s) h (k, ks) = last-IsDigit c s k ks

ends_in-IsDigit : (d : ℕ) (s : Str) → 1 ≤ length s → All IsDigit s → IsDigit (last_or d s)
ends_in-IsDigit d [] some_digit h = absurd (omega arith)
ends_in-IsDigit d (c ∷ s) some_digit (h, hs) = last-IsDigit c s h hs

port-Lacks : (port : ℕ) → Lacks b':' (decimal port)
port-Lacks port = IsDigit-Lacks b':' (decimal port) (unfold is_digit in refl) (decimal-IsDigit port)

port_digits : (port : ℕ) → all_digits (decimal port) ≡ true
port_digits port = all_digits-All (decimal port) (length-decimal port) (decimal-IsDigit port)

-- A text that ends with the digits of a port does not end with `.mesh`.
not_mesh : (host : Str) (port : ℕ) → ends_with (with_port host port) (codes ".mesh") ≡ false
not_mesh host port = elim (Bool-cases (ends_with (with_port host port) (codes ".mesh"))) [
  | inr other ↦ other
  | inl ends ↦
      let last = ends_with_last (with_port host port) (codes "mesh") b'.' ends in
      let whole = last_or-append 0 host (b':' ∷ decimal port) in
      let digit =
        ends_in-IsDigit b':' (decimal port) (length-decimal port) (decimal-IsDigit port) in
      let wrong : is_digit b'h' ≡ true = subst IsDigit (sym whole ∙ last) digit in
      unfold is_digit in absurd (cc wrong)
]

all_node_chars-has_char :
    (c : ℕ) (s : Str) → has_char c s ≡ true → is_node_char c ≡ false → all_node_chars s ≡ false
unfolding all_node_chars has_char
all_node_chars-has_char c [] h k = cc h
all_node_chars-has_char c (d ∷ s) h k = elim (Bool-cases (d == c)) [
  | inl same ↦
      let bad : is_node_char d ≡ false =
        subst (λ e. is_node_char e ≡ false) (sym ((==_iff d c).0 same)) k in
      rw (bad) refl
  | inr other ↦ ground (arith, all_node_chars-has_char c s)
]

has_char-append : (c : ℕ) (s t : Str) → has_char c (s ++ c ∷ t) ≡ true
unfolding has_char
has_char-append c [] t = ground arith
has_char-append c (d ∷ s) t = ground (arith, has_char-append c s t)

not_node : (host : Str) (port : ℕ) → is_valid_node_id (with_port host port) ≡ false
unfolding is_valid_node_id
not_node host port =
    let bad =
      all_node_chars-has_char b':' (with_port host port) (has_char-append b':' host (decimal port))
        (unfold is_node_char in refl) in
    ground (arith, bad)

-- The first part of `parseTarget` does not apply.
parse_target_port :
    (env : Local) (c : ℕ) (host : Str) (port : ℕ)
    → parse_target env (with_port (c ∷ host) port)
      ≡ some (parse_bracket env (with_port (c ∷ host) port))
unfolding parse_target
parse_target_port env c host port = rw (not_mesh (c ∷ host) port, not_node (c ∷ host) port) refl

count_port : (host : Str) (port : ℕ) → Lacks b':' host → count_char b':' (with_port host port) ≡ 1
count_port host port lacks =
    count_char-append b':' host (b':' ∷ decimal port)
    ∙ rw (count_char-Lacks b':' host lacks)
        (unfold count_char in rw (count_char-Lacks b':' (decimal port) (port-Lacks port)) refl)

-- A host without colons and brackets and a port of at most 20 digits are read back from `host:port`.
pub parse_target-with_port :
    (env : Local) (c : ℕ) (host : Str) (port : ℕ)
    → (c == b'[') ≡ false
    → Lacks b':' (c ∷ host)
    → port < 10 ^ 20
    → parse_target env (with_port (c ∷ host) port) ≡ some (endpoint (c ∷ host) port false false)
unfolding parse_bracket parse_plain host_or_own split_port wants_brackets
parse_target-with_port env c host port plain lacks small =
    parse_target_port env c host port
    ∙ ap some (
        rw (plain, parse_bracket)
          (rw
            (
              cut_last-append b':' (c ∷ host) (decimal port) (port-Lacks port),
              split_port,
              wants_brackets,
              count_port (c ∷ host) port lacks,
              port_digits port,
              digits_value-decimal port,
              Lacks-has_char b':' (c ∷ host) lacks,
            )
            refl))
