-- ===== src/Callback.antt =====
-- src/callback.cpp: a callback body as a typed event.
pub mod Laws
mod Tests
use audd_cpp.Prelude.{ℕ, Bool, true, false, Option, none, some, List, [], ◌∷◌, ◌++◌, if◌then◌else◌}
use audd_cpp.Prelude.Int.{ℤ, pos, wrap32}
use audd_cpp.Prelude.Text.{Text, utf8}
use audd_cpp.Json.{Json, boolean, integer, unsigned, float, find, is_object}
use audd_cpp.Platform.{Platform}
use audd_cpp.Error.{Exception, Result, ok, err, audd, serialization_error}
use audd_cpp.Parse.Songs.{
  StreamCallbackMatch, StreamCallbackNotification, parse_stream_callback_match,
  parse_stream_callback_notification,
}

pub data CallbackEvent (D : Type 0) : Type 0 where
  matched : StreamCallbackMatch D → CallbackEvent D
  notified : StreamCallbackNotification D → CallbackEvent D

-- `is_match` and `is_notification`
abbrev pub is_match : {D : Type 0} → CallbackEvent D → Bool
is_match (matched m) = true
is_match (notified n) = false

abbrev pub is_notification : {D : Type 0} → CallbackEvent D → Bool
is_notification (matched m) = false
is_notification (notified n) = true

abbrev pub as_event {ℓ} : {A B : Type ℓ} → (A → B) → Result A → Result B
as_event f (ok a) = ok (f a)
as_event f (err e) = err e

module _ (P : Platform) where
  open P use {Double, to_int, parse}

  -- `get<int>()`, `none` where it throws. A Boolean converts.
  unfoldable pub get_int : Json Double → Option ℤ
  get_int (integer n) = some (wrap32 n)
  get_int (unsigned n) = some (wrap32 (pos n))
  get_int (float d) = some (to_int d)
  get_int (boolean b) = some (if b then pos 1 else pos 0)
  get_int _ = none

  -- `outer_time`; a value that does not convert leaves 0, and so does null, which `get` refuses too.
  unfoldable pub outer_time : Json Double → ℤ
  unfolding find get_int
  outer_time j = elim (find j "time") [
    | none ↦ pos 0
    | some t ↦ elim (get_int t) [ none ↦ pos 0 | some n ↦ n ]
  ]

  -- The event of an object, by its two members: `notification` comes first.
  unfoldable pub event_of :
      Json Double
      → Text
      → Option (Json Double)
      → Option (Json Double)
      → Result (CallbackEvent Double)
  unfolding outer_time parse_stream_callback_match parse_stream_callback_notification
  event_of j body (some notification) result =
      ok (notified (parse_stream_callback_notification P notification (outer_time j) body))
  event_of j body none (some result) = as_event matched (parse_stream_callback_match P result body)
  event_of j body none none =
      err
        (audd (serialization_error (utf8 "callback body has neither result nor notification") body))

  abbrev pub not_an_object : Text → Exception
  not_an_object body = audd (serialization_error (utf8 "callback body is not a JSON object") body)

  -- `failure` is the text of the exception that the parser throws.
  unfoldable pub parse_callback : Text → Text → Result (CallbackEvent Double)
  unfolding find event_of
  parse_callback failure body = elim (parse body) [
    | none ↦
        err (audd (serialization_error (utf8 "callback body is not valid JSON: " ++ failure) body))
    | some j ↦
        if is_object j
        then event_of j body (find j "notification") (find j "result")
        else err (not_an_object body)
  ]

  -- The overload of include/audd/callback.hpp for the body of a request.
  abbrev pub handle_callback : Text → Text → Result (CallbackEvent Double)
  handle_callback failure body = parse_callback failure body
