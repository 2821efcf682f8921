-- ===== src/Prelude/Decimal.antt =====
-- `std::to_string` of an integer, and `std::from_chars` in base 10 into a `std::int64_t`.
use Prim.Native.Nat.{ℕ, zero, suc, ◌+◌, ◌-◌, ◌*◌, ◌/◌, ◌%◌, ◌^◌, ◌<◌}
use mathlib.Core.Path.{◌≡◌, refl, ◌∙◌, ap}
use mathlib.Core.Logic.{inl, inr}
use mathlib.Core.Bool.{Bool, ◌&&◌, true, false}
use mathlib.Core.List.{[], ◌∷◌}
use mathlib.Core.Option.{Option, none, some}
use native.Mathlib.Omega.{arith}
use audd_cpp.Prelude.Tests.{ltb, leb, ◌==◌, if◌then◌else◌, Bool-cases}
use audd_cpp.Prelude.Lists.{All}
use audd_cpp.Prelude.Int.{ℤ, pos, negsuc, InInt64}
use audd_cpp.Prelude.Text.{Text}

-- The digits of `n` in front of `rest`. A number has at most `n + 1` digits.
unfoldable pub print_digits : ℕ → ℕ → Text → Text
print_digits zero n rest = rest
print_digits (suc fuel) n rest =
    let more = print_digits fuel (n / 10) ((b'0' + n % 10) ∷ rest) in
    if ltb n 10 then (b'0' + n) ∷ rest else more

unfoldable pub to_string : ℤ → Text
unfolding print_digits
to_string (pos n) = print_digits (suc n) n []
to_string (negsuc n) = b'-' ∷ print_digits (suc (suc n)) (suc n) []

abbrev pub is_digit : ℕ → Bool
is_digit c = leb b'0' c && leb c b'9'

-- The value of the longest run of digits, and what follows it.
unfoldable pub read_digits : ℕ → Text → ℕ × Text
read_digits acc [] = (acc, [])
read_digits acc (c ∷ rest) =
    let more = read_digits (acc * 10 + (c - b'0')) rest in
    if is_digit c then more else (acc, c ∷ rest)

abbrev pub starts_with_digit : Text → Bool
starts_with_digit [] = false
starts_with_digit (c ∷ rest) = is_digit c

abbrev pub negate : ℕ → ℤ
negate zero = pos 0
negate (suc n) = negsuc n

-- `none` is an error code: no digits, or a value out of the range of `std::int64_t`.
unfoldable pub from_digits : (ℕ → Bool) → (ℕ → ℤ) → Text → Option (ℤ × Text)
unfolding read_digits
from_digits in_range signed text =
    let (n, rest) = read_digits 0 text in
    if starts_with_digit text && in_range n then some (signed n, rest) else none

unfoldable pub from_chars : Text → Option (ℤ × Text)
unfolding from_digits
from_chars [] = none
from_chars (c ∷ rest) =
    if c == b'-'
    then from_digits (λ n. leb n (2 ^ 63)) negate rest
    else from_digits (λ n. ltb n (2 ^ 63)) pos (c ∷ rest)

read_digits_step :
    (acc d : ℕ) (rest : Text)
    → d < 10
    → read_digits acc ((b'0' + d) ∷ rest) ≡ read_digits (acc * 10 + d) rest
unfolding read_digits
read_digits_step acc d rest h =
    let digit : is_digit (b'0' + d) ≡ true = ground arith in
    let value : b'0' + d - b'0' ≡ d = omega arith in rw (digit, value) refl

read_digits-print_digits :
    (fuel n : ℕ) (rest : Text)
    → n < fuel
    → read_digits 0 (print_digits fuel n rest) ≡ read_digits n rest
unfolding print_digits
read_digits-print_digits zero n rest h = absurd (omega arith)
read_digits-print_digits (suc fuel) n rest h = elim (Bool-cases (ltb n 10)) [
  | inl last ↦
      rw last
        (read_digits_step 0 n rest (ground arith) ∙ ap (λ k. read_digits k rest) (omega arith))
  | inr more ↦
      let value : n / 10 * 10 + n % 10 ≡ n = omega arith in
      rw more (
        read_digits-print_digits fuel (n / 10) ((b'0' + n % 10) ∷ rest) (ground arith)
        ∙ read_digits_step (n / 10) (n % 10) rest (omega arith)
        ∙ ap (λ k. read_digits k rest) value)
]

starts_with_digit-print_digits :
    (fuel n : ℕ) (rest : Text) → n < fuel → starts_with_digit (print_digits fuel n rest) ≡ true
unfolding print_digits
starts_with_digit-print_digits zero n rest h = absurd (omega arith)
starts_with_digit-print_digits (suc fuel) n rest h = elim (Bool-cases (ltb n 10)) [
  | inl last ↦ rw last (ground arith)
  | inr more ↦ rw more (starts_with_digit-print_digits fuel (n / 10) _ (ground arith))
]

from_chars_of_digits :
    (text : Text)
    → starts_with_digit text ≡ true
    → from_chars text ≡ from_digits (λ n. ltb n (2 ^ 63)) pos text
unfolding from_chars
from_chars_of_digits [] h = cc
from_chars_of_digits (c ∷ text) h = let plain : (c == b'-') ≡ false = ground arith in rw plain refl

from_digits-print_digits :
    (in_range : ℕ → Bool) (signed : ℕ → ℤ) (n : ℕ)
    → in_range n ≡ true
    → from_digits in_range signed (print_digits (suc n) n []) ≡ some (signed n, [])
unfolding from_digits
from_digits-print_digits in_range signed n h =
    rw
      (
        starts_with_digit-print_digits (suc n) n [] (omega arith),
        read_digits-print_digits (suc n) n [] (omega arith),
      )
      (unfold read_digits in rw h refl)

-- Reading what was printed gives the number back.
pub from_chars-to_string : (v : ℤ) → InInt64 v → from_chars (to_string v) ≡ some (v, [])
unfolding to_string
from_chars-to_string (pos n) h =
    from_chars_of_digits _ (starts_with_digit-print_digits (suc n) n [] (omega arith))
    ∙ from_digits-print_digits (λ n. ltb n (2 ^ 63)) pos n (ground arith)
from_chars-to_string (negsuc n) h =
    unfold from_chars in
    from_digits-print_digits (λ n. leb n (2 ^ 63)) negate (suc n) (ground arith)

pub print_digits-is_digit :
    (fuel n : ℕ) (rest : Text)
    → All (λ c. is_digit c ≡ true) rest
    → All (λ c. is_digit c ≡ true) (print_digits fuel n rest)
unfolding print_digits
print_digits-is_digit zero n rest h = h
print_digits-is_digit (suc fuel) n rest h = elim (Bool-cases (ltb n 10)) [
  | inl last ↦ rw last (ground arith, h)
  | inr more ↦ rw more (print_digits-is_digit fuel (n / 10) _ (ground arith, h))
]
