-- ===== src/Base/Number.antt =====
-- `parseInt(s, 10)`, and the integers that it returns.
use Prim.Native.Nat.{ℕ, zero, suc, ◌+◌, ◌-◌, ◌*◌, ◌/◌, ◌%◌, ◌≤◌, ◌<◌}
use mathlib.Core.Bool.{Bool, true, false, ◌&&◌, ◌||◌}
use mathlib.Core.List.{[], ◌∷◌}
use mathlib.Core.Option.{Option, none, some}
use mathlib.Core.Path.{◌≡◌, refl}
use native.Mathlib.Omega.{arith}
use metrice.Base.Tests.{ltb, leb, ◌==◌, if◌then◌else◌}
use metrice.Base.Text.{Str, codes, last_or}

-- `negsuc n` is -(n + 1).
pub data ℤ : Type 0 where
  pos : ℕ → ℤ
  negsuc : ℕ → ℤ

-- -n
unfoldable pub negate : ℕ → ℤ
negate zero = pos 0
negate (suc n) = negsuc n

-- z - k
unfoldable pub minus : ℤ → ℕ → ℤ
unfolding negate
minus (pos n) k = if leb k n then pos (n - k) else negate (k - n)
minus (negsuc n) k = negsuc (n + k)

-- `n + 1`
unfoldable pub plus_one : ℤ → ℤ
plus_one (pos n) = pos (suc n)
plus_one (negsuc zero) = pos zero
plus_one (negsuc (suc n)) = negsuc n

-- a < b
unfoldable pub int_lt : ℤ → ℤ → Bool
int_lt (pos a) (pos b) = ltb a b
int_lt (pos a) (negsuc b) = false
int_lt (negsuc a) (pos b) = true
int_lt (negsuc a) (negsuc b) = ltb b a

-- a <= 0
unfoldable pub not_positive : ℤ → Bool
not_positive (pos a) = a == 0
not_positive (negsuc a) = true

unfoldable pub is_digit : ℕ → Bool
is_digit c = leb b'0' c && leb c b'9'

-- The white space that `parseInt` skips, in the Basic Latin and Latin-1 blocks.
unfoldable pub is_space : ℕ → Bool
is_space c = (leb 9 c && leb c 13) || (c == 32) || (c == 160)

skip_spaces : Str → Str
unfolding is_space
skip_spaces [] = []
skip_spaces (c ∷ s) = if is_space c then skip_spaces s else c ∷ s

-- The digits at the front, read on from `n`.
unfoldable pub read_digits : ℕ → Str → ℕ
unfolding is_digit
read_digits n [] = n
read_digits n (c ∷ s) = if is_digit c then read_digits (n * 10 + (c - b'0')) s else n

-- `none` is NaN: no digit at the front.
read_number : Str → Option ℕ
unfolding is_digit read_digits
read_number [] = none
read_number (c ∷ s) = if is_digit c then some (read_digits 0 (c ∷ s)) else none

signed : Option ℕ → Option ℤ
unfolding negate
signed none = none
signed (some n) = some (negate n)

unsigned : Option ℕ → Option ℤ
unsigned none = none
unsigned (some n) = some (pos n)

read_signed : Str → Option ℤ
unfolding read_number signed unsigned
read_signed [] = none
read_signed (c ∷ s) =
    if c == b'-'
    then signed (read_number s)
    else if c == b'+'
    then unsigned (read_number s)
    else unsigned (read_number (c ∷ s))

unfoldable pub parse_int : Str → Option ℤ
unfolding read_signed skip_spaces
parse_int s = read_signed (skip_spaces s)

parse_int_runs : parse_int (codes " -42x") ≡ some (negsuc 41)
unfolding parse_int
parse_int_runs = refl

-- `Number.isNaN(p) || p <= 0 || p > 65535` fails: a usable TCP port.
unfoldable pub port_of : Str → Option ℕ
unfolding parse_int
port_of s = elim (parse_int s) [
  | none ↦ none
  | some z ↦ elim z [ pos p ↦ if (p == 0) || ltb 65535 p then none else some p | negsuc _ ↦ none ]
]

pub port_of_bounds : (s : Str) (p : ℕ) → port_of s ≡ some p → (0 < p) × (p ≤ 65535)
unfolding port_of
port_of_bounds s p h = ground arith

pub port_of-parse_int : (s : Str) (p : ℕ) → port_of s ≡ some p → parse_int s ≡ some (pos p)
unfolding port_of
port_of-parse_int s p h = ground arith

-- `0`-`9`, `a`-`f`
unfoldable pub digit : ℕ → ℕ
digit d = if ltb d 10 then b'0' + d else b'a' + (d - 10)

-- The digits of `n` in front of `out`. Fuel `k` is enough below `base ^ k`.
unfoldable pub digits : ℕ → ℕ → ℕ → Str → Str
unfolding digit
digits base zero n out = out
digits base (suc fuel) n out =
    let more = digits base fuel (n / base) (digit (n % base) ∷ out) in
    if ltb n base then digit n ∷ out else more

-- `${n}` and `n.toString(16)`, for numbers of at most 20 digits
unfoldable pub decimal : ℕ → Str
unfolding digits
decimal n = digits 10 20 n []

unfoldable pub hex : ℕ → Str
unfolding digits
hex n = digits 16 20 n []

-- `/^\d+$/.test(s)`
unfoldable pub all_digits : Str → Bool
unfolding is_digit
all_digits [] = false
all_digits (c ∷ []) = is_digit c
all_digits (c ∷ d ∷ s) = is_digit c && all_digits (d ∷ s)

-- The value of `parseInt(s, 10)` on a text of digits
unfoldable pub digits_value : Str → ℕ
unfolding read_digits
digits_value s = read_digits 0 s

-- `s.trim()`
unfoldable pub trim_front : Str → Str
unfolding is_space
trim_front [] = []
trim_front (c ∷ s) = let rest = trim_front s in if is_space c then rest else c ∷ s

unfoldable pub trim_back : Str → Str
unfolding is_space
trim_back [] = []
trim_back (c ∷ s) = keep c (trim_back s)
  where
    keep : ℕ → Str → Str
    keep c [] = if is_space c then [] else c ∷ []
    keep c (d ∷ rest) = c ∷ d ∷ rest

unfoldable pub trim : Str → Str
unfolding trim_front trim_back
trim s = trim_back (trim_front s)

trim_back_keep : (c : ℕ) (s : Str) → is_space (last_or c s) ≡ false → trim_back (c ∷ s) ≡ c ∷ s
unfolding trim_back is_space
trim_back_keep c [] h = rw (h) refl
trim_back_keep c (d ∷ s) h = rw (trim_back_keep d s h, trim_back) refl

-- A text without white space at its ends stays.
pub trim_keep :
    (c : ℕ) (s : Str) → is_space c ≡ false → is_space (last_or c s) ≡ false → trim (c ∷ s) ≡ c ∷ s
unfolding trim trim_front is_space
trim_keep c s h k = rw (h, trim_front) (trim_back_keep c s k)
