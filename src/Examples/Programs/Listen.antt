-- ===== src/Examples/Programs/Listen.antt =====
-- The programs of examples/ that take what a stream brings: streams_callback_handler.cpp and
-- streams_longpoll.cpp.
use audd_cpp.Prelude.{ℕ, Bool, Option, none, some, List, [], ◌∷◌, ◌++◌}
use audd_cpp.Prelude.Int.{ℤ, pos}
use audd_cpp.Prelude.Text.{Text, utf8}
use audd_cpp.Prelude.Decimal.{to_string}
use audd_cpp.Platform.{Platform}
use audd_cpp.Error.{Exception, Result, ok, err, audd, invalid_argument, what}
use audd_cpp.Http.Transport.{Curl}
use audd_cpp.Parse.Songs.{StreamCallbackSong}
use audd_cpp.Callback.{CallbackEvent, matched, notified, parse_callback, handle_callback}
use audd_cpp.Client.{World}
use audd_cpp.Md5.Context.{Md5Ctx}
use audd_cpp.SubClients.Subscribe.{Subscription, default_options, longpoll, category_of_radio}
use audd_cpp.Examples.Programs.{
  Run, exits, newline, named, failed, atoi, with_client, from_environment,
}

-- An answer of the HTTP server, and what its handler printed.
pub record Reply : Type 0 where
  pub status : ℕ
  pub content : Text
  pub printed : Text

module _ {D : Type 0} where
  unfoldable pub alternative_lines : List (StreamCallbackSong D) → Text
  alternative_lines [] = []
  alternative_lines (alt ∷ songs) =
      utf8 "  alt: " ++ (named alt.artist alt.title ++ (newline ++ alternative_lines songs))

  unfoldable pub event_text : CallbackEvent D → Text
  unfolding alternative_lines to_string
  event_text (matched v) =
      utf8 "recognized: "
      ++ (named v.song.artist v.song.title
          ++ (utf8 " (radio "
              ++ (to_string v.radio_id
                  ++ (utf8 ", score "
                      ++ (to_string v.song.score
                          ++ (utf8 ")" ++ (newline ++ alternative_lines v.alternatives)))))))
  event_text (notified v) =
      utf8 "notification "
      ++ (to_string v.notification_code ++ (utf8 ": " ++ (v.notification_message ++ newline)))

  -- `none` is an exception that leaves the handler.
  unfoldable pub reply : Result (CallbackEvent D) → Option Reply
  unfolding event_text what
  reply (ok ev) = some (record { status = 200; content = []; printed = event_text ev })
  reply (err (audd e)) = some (record { status = 400; content = what e; printed = [] })
  reply (err (invalid_argument text)) = none

module _ (P : Platform) where
  -- The handler of examples/streams_callback_handler.cpp; `failure` is the text of the JSON parser.
  unfoldable pub handle_post : Text → Text → Option Reply
  unfolding reply parse_callback
  handle_post failure body = reply (handle_callback P failure body)

-- `e.what()` of the exception that the callback for errors rethrows.
abbrev pub what_of : Exception → Text
what_of (audd e) = what e
what_of (invalid_argument text) = text

abbrev pub error_lines : List Exception → Text
error_lines [] = []
error_lines (e ∷ later) = utf8 "longpoll error: " ++ (what_of e ++ (newline ++ error_lines later))

abbrev pub category_line : Text → Text
category_line category = utf8 "category=" ++ (category ++ newline)

-- No argument is the radio 1.
abbrev pub given_radio : List Text → ℤ
given_radio [] = pos 1
given_radio (id ∷ more) = atoi id

module _ {D : Type 0} where
  unfoldable pub heard_lines : List (CallbackEvent D) → Text
  heard_lines [] = []
  heard_lines (matched m ∷ later) =
      utf8 "matched: " ++ (named m.song.artist m.song.title ++ (newline ++ heard_lines later))
  heard_lines (notified n ∷ later) =
      utf8 "notification: " ++ (n.notification_message ++ (newline ++ heard_lines later))

  -- Behind the call of `longpoll`; `events` and `errors` are what `run` hands to the callbacks, in the order
  -- in which they print.
  abbrev pub listened :
      Text → List (CallbackEvent D) → List Exception → Result (Subscription D) × World → Run
  listened printed events errors (err e, w) = failed printed e w
  listened printed events errors (ok subscription, w) = record {
    ending = exits 0;
    out = printed ++ heard_lines events;
    errors = error_lines errors;
    world = w;
  }

module _ (P : Platform) (C : Curl) (opens : Text → Bool) (fresh : Md5Ctx) where
  open P use {Double}

  -- examples/streams_longpoll.cpp
  unfoldable pub streams_longpoll :
      Bool → Option Text → List Text → List (CallbackEvent Double) → List Exception → World → Run
  unfolding failed heard_lines longpoll
  streams_longpoll works env args events errors w =
      with_client P C opens works (from_environment P C opens env)
        (λ client.
          let category = category_of_radio P C fresh client (given_radio args) in
          listened (category_line category) events errors
            (longpoll P C client category default_options w))
        w
