-- ===== src/Coerce/Numbers.antt =====
-- Integers in the coercions of src/json_parse.cpp: strict parsing, ranges, and the way back from the
-- rendered text.
use mathlib.Core.Option.{some-injective}
use mathlib.Core.List.{append-nil}
use audd_cpp.Prelude.{
  ℕ, zero, suc, ◌-◌, ◌^◌, ◌≤◌, ◌<◌, ◌≡◌, refl, sym, ap, ◌∙◌, Bool, true, false, Option, none, some,
  [], ◌∷◌, ◌++◌, arith, ltb, leb, ◌==◌, All, Bool-cases, Option-cases, inl, inr, String,
}
use audd_cpp.Prelude.Int.{ℤ, pos, negsuc, InInt64, InInt32, wrap64, wrap64-InInt64, wrap32-InInt32}
use audd_cpp.Prelude.Text.{Text, is_empty}
use audd_cpp.Prelude.Decimal.{
  to_string, from_chars, from_digits, read_digits, is_digit, print_digits-is_digit,
  from_chars-to_string, negate,
}
use audd_cpp.Json.{Json, boolean, integer, unsigned, float, str}
use audd_cpp.Platform.{Platform}
use audd_cpp.Coerce.{
  strip_plus, whole, trim_ascii, parse_full_int, coerce_int, coerce_string, j_int, find_value, read,
}
use audd_cpp.Coerce.Trim.{IsBlank, NotBlank, trim_ascii_solid}

digits-NotBlank : (s : Text) → All (λ c. is_digit c ≡ true) s → NotBlank s
digits-NotBlank [] h = tt
digits-NotBlank (c ∷ s) h = (ground (arith, h.0), digits-NotBlank s h.1)

to_string-NotBlank : (v : ℤ) → NotBlank (to_string v)
unfolding to_string
to_string-NotBlank (pos n) = digits-NotBlank _ (print_digits-is_digit (suc n) n [] tt)
to_string-NotBlank (negsuc n) =
    (refl, digits-NotBlank _ (print_digits-is_digit (suc (suc n)) (suc n) [] tt))

-- A text that parses as a number does not begin with a plus, and is not empty.
from_chars-strip_plus :
    (t : Text) {v : ℤ} {rest : Text}
    → from_chars t ≡ some (v, rest)
    → (strip_plus t ≡ t) × (is_empty t ≡ false)
unfolding from_chars from_digits
from_chars-strip_plus [] h = cc
from_chars-strip_plus (c ∷ t) h = ground arith

-- Rendering an integer of `std::int64_t` and parsing it again, with any blanks around it, gives the integer
-- back.
pub parse_full_int-to_string :
    (before after : Text) (v : ℤ)
    → IsBlank before
    → IsBlank after
    → InInt64 v
    → parse_full_int (before ++ (to_string v ++ after)) ≡ some v
unfolding parse_full_int
parse_full_int-to_string before after v hb ha range =
    let parsed = from_chars-to_string v range in
    let (no_plus, nonempty) = from_chars-strip_plus (to_string v) parsed in
    rw
      (
        trim_ascii_solid before (to_string v) after hb (to_string-NotBlank v) ha,
        no_plus,
        nonempty,
        parsed,
      )
      refl

from_digits-eq-some :
    (in_range : ℕ → Bool) (signed : ℕ → ℤ) (t : Text) {v : ℤ} {rest : Text}
    → from_digits in_range signed t ≡ some (v, rest)
    → (n : ℕ) × (in_range n ≡ true) × (v ≡ signed n)
unfolding from_digits
from_digits-eq-some in_range signed t h = ((read_digits 0 t).0, ground arith, ground arith)

negate-InInt64 : (n : ℕ) → leb n (2 ^ 63) ≡ true → InInt64 (negate n)
negate-InInt64 zero h = omega arith
negate-InInt64 (suc n) h = ground arith

pos-InInt64 : (n : ℕ) → ltb n (2 ^ 63) ≡ true → InInt64 (pos n)
pos-InInt64 n h = ground arith

from_chars-InInt64 : (t : Text) {v : ℤ} {rest : Text} → from_chars t ≡ some (v, rest) → InInt64 v
unfolding from_chars
from_chars-InInt64 [] h = cc
from_chars-InInt64 (c ∷ t) {v} h = elim (Bool-cases (c == b'-')) [
  | inl minus ↦
      let (n, fits, same) = from_digits-eq-some (λ n. leb n (2 ^ 63)) negate t (rw minus at h) in
      rw same (negate-InInt64 n fits)
  | inr plain ↦
      let (n, fits, same) = from_digits-eq-some (λ n. ltb n (2 ^ 63)) pos (c ∷ t) (rw plain at h) in
      rw same (pos-InInt64 n fits)
]

whole-eq-some : (o : Option (ℤ × Text)) {v : ℤ} → whole o ≡ some v → o ≡ some (v, [])
whole-eq-some none h = cc
whole-eq-some (some (v, [])) h = ground arith
whole-eq-some (some (v, c ∷ rest)) h = cc

-- A text that is accepted as an integer gives one that a `std::int64_t` holds.
pub parse_full_int-InInt64 : (s : Text) (v : ℤ) → parse_full_int s ≡ some v → InInt64 v
unfolding parse_full_int
parse_full_int-InInt64 s v h = elim (Bool-cases (is_empty (strip_plus (trim_ascii s)))) [
  | inl empty ↦ absurd (ground arith)
  | inr more ↦
      from_chars-InInt64 (strip_plus (trim_ascii s))
        (whole-eq-some (from_chars (strip_plus (trim_ascii s))) (rw more at h))
]

parse_bare : (v : ℤ) → InInt64 v → parse_full_int (to_string v) ≡ some v
parse_bare v range =
    ap parse_full_int (sym (append-nil (to_string v)))
    ∙ parse_full_int-to_string [] [] v tt tt range

module _ (P : Platform) where
  open P use {Double, to_int64}

  -- The number that the value carries is one that `std::int64_t` holds; for a double, after the cast.
  abbrev pub CarriesInt64 : Json Double → Type 0
  CarriesInt64 (integer n) = InInt64 n
  CarriesInt64 (float d) = InInt64 (to_int64 d)
  CarriesInt64 _ = Unit

  -- Every coercion to an integer that succeeds gives a value of `std::int64_t`, where an integer that the JSON
  -- value holds, or the conversion of its `double`, is one.
  pub coerce_int-InInt64 :
      (j : Json Double) (v : ℤ) → CarriesInt64 j → coerce_int P j ≡ some v → InInt64 v
  unfolding coerce_int
  coerce_int-InInt64 (integer n) v c h = rw (← some-injective n v h) c
  coerce_int-InInt64 (unsigned n) v c h =
      rw (← some-injective (wrap64 (pos n)) v h) (wrap64-InInt64 (pos n))
  coerce_int-InInt64 (float d) v c h = rw (← some-injective (to_int64 d) v h) c
  coerce_int-InInt64 (boolean true) v c h = rw (← some-injective (pos 1) v h) (omega arith)
  coerce_int-InInt64 (boolean false) v c h = rw (← some-injective (pos 0) v h) (omega arith)
  coerce_int-InInt64 (str s) v c h = parse_full_int-InInt64 s v h
  coerce_int-InInt64 _ v c h = cc

  -- A field that is read as `int` is in the range of `int`, whatever the member holds.
  pub j_int-InInt32 : (j : Json Double) (key : String) → InInt32 (j_int P j key)
  unfolding j_int
  j_int-InInt32 j key = elim (Option-cases (find_value P j key)) [
    | inl missing ↦ rw missing (omega arith)
    | inr (v, found) ↦ rw found (elim (Option-cases (coerce_int P v)) [
      | inl failed ↦ rw (failed, read) (omega arith)
      | inr (n, e) ↦ rw (e, read) (wrap32-InInt32 n)
    ])
  ]

  abbrev pub IsIntegral : Json Double → Type 0
  IsIntegral (integer n) = InInt64 n
  IsIntegral (unsigned n) = Unit
  IsIntegral _ = ⊥

  -- An integral number that arrives as text reads as the same integer: what `coerce_string` renders,
  -- `coerce_int` reads back to what it gives for the number itself.
  pub coerce_int-coerce_string :
      (j : Json Double) (s : Text)
      → IsIntegral j
      → coerce_string P j ≡ some s
      → coerce_int P (str s) ≡ coerce_int P j
  unfolding coerce_int coerce_string
  coerce_int-coerce_string (integer n) s range h =
      rw (← some-injective (to_string n) s h) (parse_bare n range)
  coerce_int-coerce_string (unsigned n) s range h =
      rw (← some-injective (to_string (wrap64 (pos n))) s h)
        (parse_bare (wrap64 (pos n)) (wrap64-InInt64 (pos n)))
  coerce_int-coerce_string (boolean b) s range h = elim range [ ]
  coerce_int-coerce_string _ s range h = elim range [ ]

  -- An unsigned number that `std::int64_t` does not hold is rendered as the negative number with the same low 64 bits.
  pub coerce_string_large :
      (n : ℕ)
      → 2 ^ 63 ≤ n
      → n < 2 ^ 64
      → coerce_string P (unsigned n) ≡ some (to_string (negsuc (2 ^ 64 - 1 - n)))
  unfolding coerce_string
  coerce_string_large n low high =
      let e : wrap64 (pos n) ≡ negsuc (2 ^ 64 - 1 - n) = ground arith in rw e refl
