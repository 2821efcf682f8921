-- ===== src/Coerce.antt =====
-- src/json_parse.cpp: the coercions of scalars and the readers of fields.
pub mod Trim
pub mod Laws
pub mod Numbers
mod Tests
use mathlib.Core.Option
use audd_cpp.Prelude.{
  ℕ, ◌+◌, ◌-◌, ◌≡◌, Bool, true, false, not, ◌&&◌, ◌||◌, Option, none, some, List, [], ◌∷◌, String,
  map, ltb, leb, ◌==◌, if◌then◌else◌, length, all, ◌++◌,
}
use audd_cpp.Prelude.Int.{ℤ, pos, negsuc, wrap32, wrap64}
use audd_cpp.Prelude.Text.{Text, utf8, text_eq, is_empty}
use audd_cpp.Prelude.Decimal.{to_string, from_chars}
use audd_cpp.Json.{Json, null, boolean, integer, unsigned, float, str, array, object, find, is_null}
use audd_cpp.Platform.{Platform}

abbrev pub is_ws : ℕ → Bool
is_ws c = c == b' ' || c == 0x09 || c == 0x0a || c == 0x0d || c == 0x0c || c == 0x0b

-- `while (b < e && is_ws(s[b])) ++b`
unfoldable pub trim_start : Text → Text
trim_start [] = []
trim_start (c ∷ s) = if is_ws c then trim_start s else c ∷ s

-- `while (e > b && is_ws(s[e - 1])) --e`: what is dropped is blank to the end.
unfoldable pub trim_end : Text → Text
trim_end [] = []
trim_end (c ∷ s) = let rest = trim_end s in if is_empty rest && is_ws c then [] else c ∷ rest

unfoldable pub trim_ascii : Text → Text
unfolding trim_start trim_end
trim_ascii s = trim_end (trim_start s)

-- `if (!t.empty() && t.front() == '+') t.erase(t.begin())`
abbrev pub strip_plus : Text → Text
strip_plus [] = []
strip_plus (c ∷ t) = if c == b'+' then t else c ∷ t

-- `res.ec != std::errc{} || res.ptr != last`
abbrev pub whole : Option (ℤ × Text) → Option ℤ
whole none = none
whole (some (v, rest)) = if is_empty rest then some v else none

unfoldable pub parse_full_int : Text → Option ℤ
unfolding trim_ascii from_chars
parse_full_int s =
    let t = strip_plus (trim_ascii s) in if is_empty t then none else whole (from_chars t)

-- `std::isalpha` and `std::tolower` in the "C" locale.
abbrev pub is_alpha : ℕ → Bool
is_alpha c = (leb b'A' c && leb c b'Z') || (leb b'a' c && leb c b'z')

abbrev pub to_lower : ℕ → ℕ
to_lower c = if leb b'A' c && leb c b'Z' then c + 32 else c

abbrev pub letter_allowed : ℕ → Bool
letter_allowed c = not (is_alpha c) || c == b'e' || c == b'E'

unfoldable pub bool_of_word : Text → Option Bool
unfolding text_eq
bool_of_word s =
    if is_empty s
      || text_eq s (utf8 "false")
      || text_eq s (utf8 "0")
      || text_eq s (utf8 "no")
      || text_eq s (utf8 "off")
    then some false
    else if text_eq s (utf8 "true")
        || text_eq s (utf8 "1")
        || text_eq s (utf8 "yes")
        || text_eq s (utf8 "on")
    then some true
    else none

module _ (P : Platform) where
  open P use {Double, of_int, to_int64, is_finite, trunc, eq, less, stod, dump}

  abbrev pub finite_whole : Text → Option (Double × ℕ) → Option Double
  finite_whole t none = none
  finite_whole t (some (v, consumed)) =
      if consumed == length t then (if is_finite v then some v else none) else none

  unfoldable pub parse_full_double : Text → Option Double
  unfolding trim_ascii
  parse_full_double s =
      let t = trim_ascii s in
      if is_empty t then none else if all letter_allowed t then finite_whole t (stod t) else none

  abbrev pub min_int64 : Double
  min_int64 = of_int (negsuc 0x7fff_ffff_ffff_ffff)

  abbrev pub two_to_63 : Double
  two_to_63 = of_int (pos 0x8000_0000_0000_0000)

  -- `is_number_integer()` holds of an unsigned number too, so `get<std::int64_t>()` converts both.
  unfoldable pub num_to_string : Json Double → Text
  unfolding to_string
  num_to_string (integer n) = to_string n
  num_to_string (unsigned n) = to_string (wrap64 (pos n))
  num_to_string (float d) =
      if is_finite d && eq d (trunc d) && not (less d min_int64) && less d two_to_63
      then to_string (to_int64 d)
      else dump (float d)
  num_to_string v = dump v

  unfoldable pub coerce_string : Json Double → Option Text
  unfolding num_to_string
  coerce_string (str s) = some s
  coerce_string (boolean b) = some (if b then utf8 "true" else utf8 "false")
  coerce_string (integer n) = some (num_to_string (integer n))
  coerce_string (unsigned n) = some (num_to_string (unsigned n))
  coerce_string (float d) = some (num_to_string (float d))
  coerce_string _ = none

  unfoldable pub coerce_int : Json Double → Option ℤ
  unfolding parse_full_int
  coerce_int (integer n) = some n
  coerce_int (unsigned n) = some (wrap64 (pos n))
  coerce_int (float d) = some (to_int64 d)
  coerce_int (boolean b) = some (if b then pos 1 else pos 0)
  coerce_int (str s) = parse_full_int s
  coerce_int _ = none

  unfoldable pub coerce_id : Json Double → Option ℤ
  unfolding coerce_int
  coerce_id (boolean b) = none
  coerce_id v = coerce_int v

  unfoldable pub coerce_double : Json Double → Option Double
  unfolding parse_full_double
  coerce_double (integer n) = some (of_int n)
  coerce_double (unsigned n) = some (of_int (pos n))
  coerce_double (float d) = some d
  coerce_double (boolean b) = some (if b then of_int (pos 1) else of_int (pos 0))
  coerce_double (str s) = parse_full_double s
  coerce_double _ = none

  abbrev pub nonzero : Double → Bool
  nonzero d = not (eq d (of_int (pos 0)))

  unfoldable pub coerce_bool : Json Double → Option Bool
  unfolding trim_ascii bool_of_word
  coerce_bool (boolean b) = some b
  coerce_bool (integer n) = some (nonzero (of_int n))
  coerce_bool (unsigned n) = some (nonzero (of_int (pos n)))
  coerce_bool (float d) = some (nonzero d)
  coerce_bool (str s) = bool_of_word (map to_lower (trim_ascii s))
  coerce_bool _ = none

  -- `none` is the null pointer.
  unfoldable pub find_value : Json Double → String → Option (Json Double)
  unfolding find
  find_value j key = elim (find j key) [ none ↦ none | some v ↦ if is_null v then none else some v ]

  -- The value of a reader on a found field, or the default of its type.
  abbrev pub read {ℓ} : {A : Type ℓ} → (Json Double → Option A) → A → Option (Json Double) → A
  read coerce default none = default
  read coerce default (some v) = elim (coerce v) [ none ↦ default | some a ↦ a ]

  unfoldable pub j_str : Json Double → String → Text
  unfolding find_value coerce_string
  j_str j key = read coerce_string [] (find_value j key)

  unfoldable pub j_int64 : Json Double → String → ℤ
  unfolding find_value coerce_int
  j_int64 j key = read coerce_int (pos 0) (find_value j key)

  -- `static_cast<int>` keeps the low 32 bits.
  unfoldable pub j_int : Json Double → String → ℤ
  unfolding find_value coerce_int
  j_int j key = read (λ v. Option.map wrap32 (coerce_int v)) (pos 0) (find_value j key)

  unfoldable pub j_bool : Json Double → String → Bool
  unfolding find_value coerce_bool
  j_bool j key = read coerce_bool false (find_value j key)
