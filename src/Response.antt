-- ===== src/Response.antt =====
-- The response of an API call: `raise_from_error_response` of src/json_parse.cpp and `decode_or_throw` of
-- src/client.cpp.
pub mod Laws
mod Tests
use audd_cpp.Prelude.{
  ℕ, Bool, true, false, not, ◌&&◌, ◌||◌, Option, none, some, List, [], ◌∷◌, ◌++◌, String,
  if◌then◌else◌,
}
use audd_cpp.Prelude.Int.{ℤ, pos, wrap32, ltb_ℤ, ◌==ℤ◌}
use audd_cpp.Prelude.Text.{Text, utf8, text_eq}
use audd_cpp.Prelude.Dict.{Dict, insert, erase}
use audd_cpp.Prelude.Decimal.{to_string}
use audd_cpp.Json.{Json, str, object, find, is_object, is_null, entries, members, from_members}
use audd_cpp.Platform.{Platform}
use audd_cpp.Coerce.{j_str, j_int}
use audd_cpp.Error.{
  Exception, Result, ok, err, audd, api, custom_catalog_access, ApiError, api_error, build_message,
  serialization_error,
}
use audd_cpp.Http.{HttpResponse}
use audd_cpp.Parse.{branded_message}
use audd_cpp.Parse.Extras.{object_at}
use audd_cpp.Callback.{get_int}

-- The call of `on_deprecation` with its text, if there was one, beside the result.
abbrev pub Decoded : Type 0 → Type 0
Decoded A = Result A × Option Text

module _ (P : Platform) where
  open P use {Double, dump}

  -- A member of the echoed parameters as text.
  abbrev pub param_text : Json Double → Text
  param_text (str s) = s
  param_text v = dump v

  abbrev pub param_texts : Dict (Json Double) → Dict Text
  param_texts [] = []
  param_texts ((k, v) ∷ ms) = (k, param_text v) ∷ param_texts ms

  -- `request_params`, or else `requested_params`, if it is an object.
  unfoldable pub requested_params : Json Double → Dict Text
  unfolding find
  requested_params body = elim (find body "request_params") [
    | some v ↦ param_texts (entries v)
    | none ↦ elim (find body "requested_params") [ some v ↦ param_texts (entries v) | none ↦ [] ]
  ]

  unfoldable pub error_code_of : Json Double → ℤ
  unfolding object_at
  error_code_of body = elim (object_at body "error") [
    | none ↦ pos 0
    | some e ↦ j_int P e "error_code"
  ]

  unfoldable pub error_message_of : Json Double → Text
  unfolding object_at
  error_message_of body = elim (object_at body "error") [
    | none ↦ []
    | some e ↦ j_str P e "error_message"
  ]

  unfoldable pub branded_of : Json Double → Text
  unfolding find
  branded_of body = elim (find body "result") [ none ↦ [] | some v ↦ branded_message P v ]

  -- The fields that are set behind the constructor.
  abbrev pub with_details : Json Double → ApiError → ApiError
  with_details body e = record e {
    requested_params = requested_params body;
    request_method = j_str P body "request_api_method";
    branded_message = branded_of body;
    raw_response = if is_null body then [] else dump body;
  }

  unfoldable pub raise_from_error_response : Json Double → ℤ → Text → Bool → Exception
  unfolding requested_params error_code_of error_message_of branded_of api_error build_message
  raise_from_error_response body http_status request_id custom_catalog_context =
      let code = error_code_of body in
      let msg = error_message_of body in
      let denied = custom_catalog_context && (code ==ℤ pos 904 || code ==ℤ pos 905) in
      let e = with_details body (api_error code (build_message msg) http_status request_id) in
      if denied
      then audd (custom_catalog_access (record e { message = msg }) msg)
      else audd (api (with_details body (api_error code msg http_status request_id)))

  -- `err_it->value("error_code", 0)`, with 0 where `get` throws.
  unfoldable pub warning_code : Json Double → ℤ
  unfolding find get_int
  warning_code e = elim (find e "error_code") [
    | none ↦ pos 0
    | some v ↦ elim (get_int P v) [ none ↦ pos 0 | some n ↦ n ]
  ]

  -- `value(key, std::string())`, with "" where `get` throws.
  unfoldable pub string_at : Json Double → String → Text
  unfolding find
  string_at j key = elim (find j key) [ some (str s) ↦ s | _ ↦ [] ]

  -- The error block of a deprecation warning that comes with a usable result.
  unfoldable pub deprecation : Json Double → Option (Json Double)
  unfolding object_at find warning_code
  deprecation body = elim (object_at body "error") [
    | none ↦ none
    | some e ↦
        if warning_code e ==ℤ pos 51
        then elim (find body "result") [ none ↦ none | some v ↦ if is_null v then none else some e ]
        else none
  ]

  -- `body.erase("error"); body["status"] = "success"`
  unfoldable pub strip_warning : Json Double → Json Double
  strip_warning (object ms) =
      object (from_members (insert "status" (str (utf8 "success")) (erase "error" (members ms))))
  strip_warning j = j

  abbrev pub api_failure : HttpResponse Double → Text → Exception
  api_failure resp msg = audd (
      api (record (api_error (pos 0) msg resp.http_status resp.request_id) {
        raw_response = resp.raw_body;
      }))

  -- The part behind the warning, over `body`.
  unfoldable pub decode_status : HttpResponse Double → Json Double → Bool → Result (Json Double)
  unfolding string_at raise_from_error_response text_eq
  decode_status resp body custom_catalog_context =
      let status = string_at body "status" in
      if text_eq status (utf8 "error")
      then err
          (raise_from_error_response body resp.http_status resp.request_id custom_catalog_context)
      else if text_eq status (utf8 "success")
      then ok body
      else err (api_failure resp (utf8 "Unexpected response status: " ++ status))

  -- The body that is an object, with its deprecation warning.
  unfoldable pub decode_object :
      HttpResponse Double → Bool → Option (Json Double) → Decoded (Json Double)
  unfolding strip_warning decode_status string_at
  decode_object resp custom_catalog_context none =
      (decode_status resp resp.json_body custom_catalog_context, none)
  decode_object resp custom_catalog_context (some e) = (
    decode_status resp (strip_warning resp.json_body) custom_catalog_context,
    some (string_at e "error_message"),
  )

  unfoldable pub decode_or_throw : HttpResponse Double → Bool → Decoded (Json Double)
  unfolding deprecation decode_object serialization_error to_string
  decode_or_throw resp custom_catalog_context =
      let body = resp.json_body in
      if is_null body
      then (if ltb_ℤ resp.http_status (pos 400)
          then (err (audd (serialization_error (utf8 "Unparseable response") resp.raw_body)), none)
          else (
            err (
                api_failure resp (
                  utf8 "HTTP "
                  ++ (to_string resp.http_status ++ utf8 " with non-JSON response body"))),
            none,
          ))
      else if is_object body
      then decode_object resp custom_catalog_context (deprecation body)
      else (err (api_failure resp (utf8 "Unexpected response shape (not an object)")), none)
