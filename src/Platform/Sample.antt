-- ===== src/Platform/Sample.antt =====
-- A platform and a libcurl that compute, for the examples: the numbers are integers, and two callback
-- bodies parse.
use audd_cpp.Prelude.{ℕ, ◌+◌, ◌-◌, true, Option, none, some, [], length, if◌then◌else◌}
use audd_cpp.Prelude.Int.{ℤ, pos, wrap32, wrap64, ◌==ℤ◌, ltb_ℤ, pos_part}
use audd_cpp.Prelude.Text.{Text, utf8, text_eq}
use audd_cpp.Prelude.Decimal.{from_chars}
use audd_cpp.Json.{Json, object, array, member, end, cons, nil}
use audd_cpp.Platform.{Platform}
use audd_cpp.Http.Transport.{Curl}

abbrev pub stod : Text → Option (ℤ × ℕ)
stod t = elim (from_chars t) [ none ↦ none | some (v, rest) ↦ some (v, length t - length rest) ]

-- {"notification": {}}
abbrev pub notification_body : Text
notification_body = utf8 "n"

abbrev pub notification_json : Json ℤ
notification_json = object (member "notification" (object end) end)

-- {"result": {"results": [{}, {}]}}
abbrev pub match_body : Text
match_body = utf8 "m"

abbrev pub match_json : Json ℤ
match_json = object (
    member "result"
      (object (member "results" (array (cons (object end) (cons (object end) nil))) end)) end)

unfoldable pub parse : Text → Option (Json ℤ)
unfolding text_eq
parse t =
    if text_eq t notification_body
    then some notification_json
    else if text_eq t match_body
    then some match_json
    else none

abbrev pub platform : Platform
platform = record {
  Double = ℤ;
  of_int = λ n. n;
  to_int64 = wrap64;
  to_int = wrap32;
  is_finite = λ d. true;
  trunc = λ d. d;
  eq = λ a b. a ==ℤ b;
  less = ltb_ℤ;
  add = λ a b. pos (pos_part a + pos_part b);
  mul = λ a b. a;
  div = λ a b. a;
  stod = stod;
  parse = parse;
  dump = λ j. [];
}

abbrev pub curl : Curl
curl = record { escape = λ s. some s; strerror = λ code. utf8 "failed" }
