-- ===== src/AddressHelper/Ipv6.antt =====
-- `canonicalizeIPv6` of src/utils/addressHelper.js. The parts of an address are read up to the first code unit
-- that is no hexadecimal digit; signs and the prefix 0x do not occur in an address.
use metrice.Base.{
  ℕ, ◌+◌, ◌-◌, ◌*◌, ◌&&◌, Option, none, some, List, [], ◌∷◌, ◌++◌, ◌≡◌, refl, Str, codes,
  starts_with, ends_with, strip_prefix, has_char, split, join, cut, cut_last, ltb, leb,
  if◌then◌else◌, length, take, drop, replicate, option_map,
}
use metrice.ProxyProtocol.Address.{format_words}
use metrice.Base.Number.{pos, negsuc, parse_int, is_digit, trim}

-- `replace(/^\[|\]$/g, '')`, and the text in front of a scope
unfoldable pub strip_brackets : Str → Str
strip_brackets s =
    let inside = strip_prefix (codes "[") s in
    if ends_with inside (codes "]") then take (length inside - 1) inside else inside

unfoldable pub before_scope : Str → Str
before_scope s = elim (cut b'%' s) [ none ↦ s | some p ↦ p.0 ]

-- `str.slice(0, lastColon)` and `str.slice(lastColon + 1)`; without a colon the first ends one short.
unfoldable pub around_last_colon : Str → Str × Str
around_last_colon s = elim (cut_last b':' s) [ none ↦ (take (length s - 1) s, s) | some p ↦ p ]

unfoldable pub octet_of : Str → Option ℕ
octet_of s = elim (parse_int s) [
  | none ↦ none
  | some z ↦ elim z [ pos o ↦ if leb o 255 then some o else none | negsuc _ ↦ none ]
]

-- `v4Words`
unfoldable pub v4_words : List Str → Option (List ℕ)
v4_words (a ∷ b ∷ c ∷ d ∷ []) = elim (octet_of a) [
  | none ↦ none
  | some o0 ↦ elim (octet_of b) [
    | none ↦ none
    | some o1 ↦ elim (octet_of c) [
      | none ↦ none
      | some o2 ↦ option_map (λ o3. (o0 * 256 + o1) ∷ (o2 * 256 + o3) ∷ []) (octet_of d)
    ]
  ]
]
v4_words _ = none

-- What follows once the address that is embedded has been read: the text and its words
unfoldable pub embedded : Str → Option (Str × List ℕ)
embedded s =
    let (front, tail) = around_last_colon s in
    if has_char b'.' tail
    then option_map (λ words. (front, words)) (v4_words (split b'.' tail))
    else some (s, [])

unfoldable pub hex_value : ℕ → Option ℕ
hex_value c =
    if is_digit c
    then some (c - b'0')
    else if leb b'a' c && leb c b'f'
    then some (c - 87)
    else if leb b'A' c && leb c b'F'
    then some (c - 55)
    else none

unfoldable pub read_hex : ℕ → Str → ℕ
read_hex n [] = n
read_hex n (c ∷ s) = elim (hex_value c) [ none ↦ n | some d ↦ read_hex (n * 16 + d) s ]

-- `parseInt(p, 16)`
unfoldable pub parse_hex : Str → Option ℕ
parse_hex [] = none
parse_hex (c ∷ s) = option_map (λ d. read_hex d s) (hex_value c)

unfoldable pub all_hex : List Str → Option (List ℕ)
all_hex [] = some []
all_hex (p ∷ parts) = elim (parse_hex p) [
  | none ↦ none
  | some w ↦ option_map (λ words. w ∷ words) (all_hex parts)
]

-- The texts around the first `::`
unfoldable pub cut_gap : Str → Option (Str × Str)
cut_gap [] = none
cut_gap (c ∷ s) =
    let rest = cut_gap s in
    if starts_with (c ∷ s) (codes "::")
    then some ([], drop 1 s)
    else option_map (λ p. (c ∷ p.0, p.1)) rest

unfoldable pub parts_of : Str → List Str
parts_of [] = []
parts_of (c ∷ s) = split b':' (c ∷ s)

-- `headParts` and `tailParts`; more than one gap is no address.
unfoldable pub halves_of : Str → Option (List Str × List Str)
halves_of s = elim (cut_gap s) [
  | none ↦ some (split b':' s, [])
  | some p ↦ elim (cut_gap p.1) [ none ↦ some (parts_of p.0, parts_of p.1) | some _ ↦ none ]
]

unfoldable pub fill : List ℕ → List ℕ → Option (List ℕ)
fill head tail =
    if ltb 8 (length head + length tail)
    then none
    else some (head ++ (replicate (8 - (length head + length tail)) 0 ++ tail))

-- The eight words of an address
unfoldable pub words_of : Str × List ℕ → Option (List ℕ)
words_of (s, v4) = elim (halves_of s) [
  | none ↦ none
  | some h ↦ elim (all_hex h.0) [
    | none ↦ none
    | some head ↦ elim (all_hex h.1) [ none ↦ none | some tail ↦ fill head (tail ++ v4) ]
  ]
]

-- The loop for the longest run of zeros and the text without it, which are the same as those of `formatIPv6`
unfoldable pub print_words : List ℕ → Str
print_words words = format_words words

-- `canonicalizeIPv6(ip)`
unfoldable pub canonicalize_ipv6 : Str → Str
canonicalize_ipv6 ip = elim (embedded (before_scope (strip_brackets (trim ip)))) [
  | none ↦ ip
  | some e ↦ elim (words_of e) [ none ↦ ip | some words ↦ print_words words ]
]

program : Unit {0}
unfolding starts_with ends_with strip_prefix has_char split join cut cut_last trim parse_int
    is_digit strip_brackets before_scope around_last_colon octet_of v4_words embedded hex_value
    read_hex parse_hex all_hex cut_gap parts_of halves_of fill words_of format_words print_words
    canonicalize_ipv6
program = tt

longest_gap : canonicalize_ipv6 (codes "[2001:DB8:0:0:1:0:0:0%eth0]") ≡ codes "2001:db8:0:0:1::"
unfolding program
longest_gap = refl

-- An embedded address is read behind a word, but not directly behind the gap.
mapped_address : canonicalize_ipv6 (codes "::ffff:192.168.1.1") ≡ codes "::ffff:c0a8:101"
unfolding program
mapped_address = refl

compatible_address : canonicalize_ipv6 (codes "::192.168.1.1") ≡ codes "::192.168.1.1"
unfolding program
compatible_address = refl
