-- ===== src/Response/Tests.antt =====
-- Examples of responses: a deprecation warning with a result.
use text.Mathlib.Text.{◌==◌ as str_eq}
use audd_cpp.Prelude.{String, none, if◌then◌else◌, ◌≡◌, refl, [], some, false}
use audd_cpp.Prelude.Int.{ℤ, pos}
use audd_cpp.Prelude.Text.{utf8}
use audd_cpp.Json.{find, Json, object, member, unsigned, str, end}
use audd_cpp.Error.{ok}
use audd_cpp.Http.{HttpResponse}
use audd_cpp.Platform.Sample.{platform}
use audd_cpp.Response.{decode_or_throw}
use audd_cpp.Response.Laws.{decode_or_throw-deprecated}

abbrev answer : Json ℤ → HttpResponse ℤ
answer j = record { http_status = pos 200; raw_body = utf8 "{}"; json_body = j; request_id = [] }

abbrev warning : Json ℤ
warning = object (member "error_code" (unsigned 51) (member "error_message" (str (utf8 "old")) end))

abbrev warned : Json ℤ
warned = object (
    member "error" warning
      (member "result" (object end) (member "status" (str (utf8 "error")) end)))

decode_or_throw-deprecated_example :
    (out : Json ℤ) × (decode_or_throw platform (answer warned) false ≡ (ok out, some (utf8 "old")))
    × ((key : String)
        → find out key ≡ (
            if str_eq "status" key
            then some (str (utf8 "success"))
            else if str_eq "error" key
            then none
            else find warned key))
unfolding find
decode_or_throw-deprecated_example =
    decode_or_throw-deprecated platform (answer warned) false warning (object end) (utf8 "old") refl
      refl refl refl refl refl refl
