-- ===== src/Http.antt =====
-- src/http_client.cpp: the two requests of `HttpClient`. libcurl is a parameter: what it escapes and how
-- a transfer ends come from outside.
pub mod Transport
pub mod Header
pub mod Query
pub mod Token
pub mod Capture
pub mod Decoded
pub mod Init
mod Tests
use audd_cpp.Prelude.{
  ℕ, ◌+◌, ◌*◌, ◌^◌, Bool, true, false, not, ◌&&◌, Option, none, some, List, [], ◌∷◌, ◌++◌, String,
  ltb, if◌then◌else◌,
}
use audd_cpp.Prelude.Int.{ℤ, pos, ltb_ℤ, pos_part, ◌==ℤ◌, wrap32}
use audd_cpp.Prelude.Text.{Text, utf8, is_empty, has_byte, before_byte}
use audd_cpp.Prelude.Dict.{Dict, lookup, insert}
use audd_cpp.Json.{Json, null}
use audd_cpp.Platform.{Platform}
use audd_cpp.Error.{Exception, audd, connection_error, Result, ok, err}
use audd_cpp.Retry.{Exec}
use audd_cpp.Http.Transport.{
  CurlCode, Curl, Transfer, failure_is_pre_upload, perform_failed_before_upload, is_ok,
}
use audd_cpp.Http.Header.{capture_request_ids}
use audd_cpp.Http.Query.{build_query}

pub record FileField : Type 0 where
  pub name : Text
  pub content_type : Text
  pub path : Text
  pub bytes : List ℕ

abbrev pub is_path : FileField → Bool
is_path f = not (is_empty f.path)

pub record FormFields : Type 0 where
  pub form : Dict Text
  pub file : Option FileField

abbrev pub no_fields : FormFields
no_fields = record { form = []; file = none }

pub record HttpClient : Type 0 where
  pub api_token : Text
  pub timeout : ℤ

-- What is handed to libcurl for one transfer.
pub data Body : Type 0 where
  multipart : List (Text × Text) → FileField → Body
  urlencoded : Text → Body
  no_body : Body

pub record Request : Type 0 where
  pub url : Text
  pub user_agent : Text
  pub timeout_ms : ℕ
  pub connect_timeout_ms : ℕ
  pub body : Body

-- `json_body` is null where the body does not parse.
pub record HttpResponse (D : Type 0) : Type 0 where
  pub http_status : ℤ
  pub raw_body : Text
  pub json_body : Json D
  pub request_id : Text

-- `HttpClient::user_agent()`, with `version()`
abbrev pub user_agent : Text
user_agent = utf8 "audd-cpp/1.5.17"

-- `if (timeout_ms <= 0) timeout_ms = 90 * 1000`
abbrev pub timeout_ms : ℤ → ℕ
timeout_ms timeout = if ltb_ℤ (pos 0) timeout then pos_part timeout else 90 * 1000

-- `if (!api_token_.empty() && m.find("api_token") == m.end()) m["api_token"] = api_token_`
unfoldable pub inject_token : Text → Dict Text → Dict Text
inject_token token m = elim (lookup "api_token" m) [
  | some present ↦ m
  | none ↦ if is_empty token then m else insert "api_token" token m
]

-- A text that is passed as a C string ends before its first zero byte.
abbrev pub c_str : Text → Text
c_str = before_byte 0

-- The names and the values are passed as C strings.
abbrev pub parts : Dict Text → List (Text × Text)
parts [] = []
parts ((k, v) ∷ m) = (c_str (utf8 k), c_str v) ∷ parts m

-- The transfers ahead, one for each request, and the requests performed so far.
pub record Network : Type 0 where
  pub answers : ℕ → Transfer
  pub asked : ℕ
  pub performed : List Request

module _ (P : Platform) (C : Curl) where
  open P use {Double, parse}
  open C use {strerror}

  abbrev pub to_json : Option (Json Double) → Json Double
  to_json none = null
  to_json (some j) = j

  unfoldable pub response_of : Transfer → HttpResponse Double
  unfolding capture_request_ids
  response_of t = record {
    http_status = wrap32 t.status;
    raw_body = t.received;
    json_body = to_json (parse t.received);
    request_id = capture_request_ids t.headers [];
  }

  -- `curl_easy_perform`, and what follows it in both requests.
  unfoldable pub perform : Request → Transfer → Exec Network (HttpResponse Double)
  unfolding response_of perform_failed_before_upload connection_error
  perform request t n =
      let sent = record n { performed = n.performed ++ request ∷ [] } in
      if is_ok t.code
      then (ok (response_of t), sent)
      else (err (audd (connection_error (strerror t.code) (perform_failed_before_upload t))), sent)

  -- The transfer that answers the next request.
  abbrev pub next : Network → Transfer
  next n = n.answers n.asked

  abbrev pub count : Network → Network
  count n = record n { asked = n.asked + 1 }

  abbrev pub body_of : FormFields → Body
  body_of fields = elim fields.file [
    | some file ↦ multipart (parts fields.form) (record file {
      name = c_str file.name;
      content_type = c_str file.content_type;
      path = c_str file.path;
    })
    | none ↦ urlencoded (build_query C [] fields.form)
  ]

  -- `curl_mime_filedata(...) != CURLE_OK`, for a file that is given by its path.
  abbrev pub attach_fails : Option FileField → Transfer → Option Text
  attach_fails none t = none
  attach_fails (some file) t = if is_path file && not t.attached then some file.path else none

  unfoldable pub post_form : HttpClient → Text → FormFields → Exec Network (HttpResponse Double)
  unfolding inject_token perform connection_error
  post_form client url fields n =
      let full = record fields { form = inject_token client.api_token fields.form } in
      let t = next n in
      let request : Request = record {
        url = c_str url;
        user_agent = user_agent;
        timeout_ms = timeout_ms client.timeout;
        connect_timeout_ms = 30 * 1000;
        body = body_of full;
      } in
      if not t.easy_init
      then (err (audd (connection_error (utf8 "curl_easy_init failed") true)), count n)
      else elim (attach_fails fields.file t) [
        | some path ↦
            (err (audd (connection_error (utf8 "failed to attach file: " ++ path) true)), count n)
        | none ↦ perform request t (count n)
      ]

  -- `full_url`, with the query behind the `?` or `&` that fits.
  abbrev pub with_query : Text → Text → Text
  with_query url q =
      if is_empty q then url else url ++ ((if has_byte b'?' url then b'&' else b'?') ∷ q)

  unfoldable pub get : HttpClient → Text → Dict Text → Exec Network (HttpResponse Double)
  unfolding inject_token perform connection_error
  get client url params n =
      let with_token = inject_token client.api_token params in
      let t = next n in
      let request : Request = record {
        url = c_str (with_query url (build_query C [] with_token));
        user_agent = user_agent;
        timeout_ms = timeout_ms client.timeout;
        connect_timeout_ms = 30 * 1000;
        body = no_body;
      } in
      if not t.easy_init
      then (err (audd (connection_error (utf8 "curl_easy_init failed") true)), count n)
      else perform request t (count n)
