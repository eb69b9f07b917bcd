-- ===== src/Base/Decimal.antt =====
-- `${n}` and `parseInt`: the digits of a number, and the number of its digits.
use Prim.Native.Nat.{ℕ, zero, suc, ◌+◌, ◌-◌, ◌*◌, ◌/◌, ◌%◌, ◌^◌, ◌≤◌, ◌<◌}
use mathlib.Core.Bool.{true}
use mathlib.Core.List.{[], ◌∷◌}
use mathlib.Core.Path.{◌≡◌, refl, ap, ◌∙◌}
use native.Mathlib.Omega.{arith}
use metrice.Base.Tests.{ltb, if-cases, ltb→lt}
use metrice.Base.Lists.{length, All}
use metrice.Base.Text.{Str}
use metrice.Base.Number.{is_digit, read_digits, digits_value, all_digits, digit, digits, decimal}

abbrev pub IsDigit : ℕ → Type 0
IsDigit c = is_digit c ≡ true

digit-IsDigit : (d : ℕ) → d < 10 → IsDigit (digit d)
unfolding is_digit digit
digit-IsDigit d h = ground arith

digits-IsDigit : (fuel n : ℕ) (out : Str) → All IsDigit out → All IsDigit (digits 10 fuel n out)
unfolding digits
digits-IsDigit zero n out h = h
digits-IsDigit (suc fuel) n out h =
    if-cases (All IsDigit) (ltb n 10) (λ small. (digit-IsDigit n (ltb→lt n 10 small), h))
      (λ large.
        digits-IsDigit fuel (n / 10) (digit (n % 10) ∷ out)
          (digit-IsDigit (n % 10) (omega arith), h))

-- From fuel 1 on there is a digit.
length-digits : (fuel n : ℕ) (out : Str) → length out ≤ length (digits 10 fuel n out)
unfolding digits
length-digits zero n out = omega arith
length-digits (suc fuel) n out = ground (arith, length-digits fuel (n / 10) (digit (n % 10) ∷ out))

pub length-decimal : (n : ℕ) → 1 ≤ length (decimal n)
unfolding decimal digits
length-decimal n = ground (arith, length-digits 19 (n / 10) (digit (n % 10) ∷ []))

pub decimal-IsDigit : (n : ℕ) → All IsDigit (decimal n)
unfolding decimal
decimal-IsDigit n = digits-IsDigit 20 n [] tt

digit_value : (d : ℕ) → d < 10 → digit d - b'0' ≡ d
unfolding digit
digit_value d h = ground arith

read_digit :
    (d a : ℕ) (out : Str) → d < 10 → read_digits a (digit d ∷ out) ≡ read_digits (a * 10 + d) out
unfolding read_digits
read_digit d a out h = rw (digit-IsDigit d h, read_digits, digit_value d h) refl

read_digits-digits :
    (fuel n : ℕ) (out : Str)
    → n < 10 ^ fuel
    → read_digits 0 (digits 10 fuel n out) ≡ read_digits n out
unfolding digits
read_digits-digits zero n out small = let none_left : n ≡ 0 = omega arith in rw none_left refl
read_digits-digits (suc fuel) n out small =
    if-cases (λ s. read_digits 0 s ≡ read_digits n out) (ltb n 10)
      (λ one.
        let same : 0 * 10 + n ≡ n = omega arith in
        read_digit n 0 out (ltb→lt n 10 one) ∙ ap (λ k. read_digits k out) same)
      (λ more.
        let whole : n / 10 * 10 + n % 10 ≡ n = omega arith in
        read_digits-digits fuel (n / 10) (digit (n % 10) ∷ out) (omega arith)
        ∙ (read_digit (n % 10) (n / 10) out (omega arith) ∙ ap (λ k. read_digits k out) whole))

pub digits_value-decimal : (n : ℕ) → n < 10 ^ 20 → digits_value (decimal n) ≡ n
unfolding digits_value decimal read_digits
digits_value-decimal n small = read_digits-digits 20 n [] small

pub all_digits-All : (s : Str) → 1 ≤ length s → All IsDigit s → all_digits s ≡ true
unfolding all_digits
all_digits-All [] h k = absurd (omega arith)
all_digits-All (c ∷ []) h k = k.0
all_digits-All (c ∷ d ∷ s) h (k, ks) = ground (arith, k, all_digits-All (d ∷ s) (omega arith) ks)
