-- ===== src/Longpoll.antt =====
-- src/longpoll.cpp: the queues, the classification of responses (src/json_parse.cpp), and the worker.
pub mod Queue
pub mod Category
pub mod Threads
pub mod Laws
pub mod Rounds
pub mod Handle
mod Tests
use audd_cpp.Prelude.{
  ℕ, ◌+◌, ◌*◌, Bool, true, false, not, ◌&&◌, ◌||◌, Option, none, some, List, [], ◌∷◌, ◌++◌, min,
  if◌then◌else◌,
}
use audd_cpp.Prelude.Int.{ℤ, pos, ltb_ℤ, wrap64}
use audd_cpp.Prelude.Text.{Text, utf8, is_empty}
use audd_cpp.Prelude.Dict.{Dict, insert}
use audd_cpp.Prelude.Decimal.{to_string}
use audd_cpp.Json.{Json, boolean, integer, unsigned, float, find, is_object, is_null}
use audd_cpp.Platform.{Platform}
use audd_cpp.Error.{Exception, Result, ok, err, audd, connection, api, api_error}
use audd_cpp.Http.{HttpResponse}
use audd_cpp.Recognition.{has_value}
use audd_cpp.Parse.Songs.{StreamCallbackMatch, StreamCallbackNotification}
use audd_cpp.Callback.{CallbackEvent, matched, notified, parse_callback}
use audd_cpp.Longpoll.Queue
use audd_cpp.Longpoll.Queue.{DemuxQueue, push, close}

pub data LongpollDisposition : Type 0 where
  terminal keep_alive event skip : LongpollDisposition

-- Where the worker stands: at the test of the loop, in the request, in the sleep behind a connection
-- error, or returned.
pub data Phase : Type 0 where
  testing requesting sleeping returned : Phase

pub record Poll (D : Type 0) : Type 0 where
  pub matches : DemuxQueue (StreamCallbackMatch D)
  pub notifications : DemuxQueue (StreamCallbackNotification D)
  pub errors : DemuxQueue Exception
  pub closed : Bool
  pub phase : Phase
  pub cur_since : ℤ
  pub backoff : ℕ

abbrev pub backoff_base : ℕ
backoff_base = 500

abbrev pub backoff_cap : ℕ
backoff_cap = 30000

-- `start_longpoll_`, up to the loop.
unfoldable pub start : {D : Type 0} → ℤ → Poll D
start since_time = record {
  matches = Queue.empty;
  notifications = Queue.empty;
  errors = Queue.empty;
  closed = false;
  phase = Phase.testing;
  cur_since = since_time;
  backoff = backoff_base;
}

-- `if (opts.timeout_seconds <= 0) opts.timeout_seconds = 50`
abbrev pub timeout_of : ℤ → ℤ
timeout_of seconds = if ltb_ℤ (pos 0) seconds then seconds else pos 50

unfoldable pub poll_params : Text → ℤ → ℤ → Dict Text
unfolding to_string
poll_params category timeout cur_since =
    let asked = insert "timeout" (to_string timeout) (insert "category" category []) in
    if ltb_ℤ (pos 0) cur_since then insert "since_time" (to_string cur_since) asked else asked

module _ {D : Type 0} where
  -- As one step: in the source other threads may come between its lines, and between `errors.push(...)` and
  -- it. Longpoll.Threads takes these lines one by one.
  unfoldable pub close_all : Poll D → Poll D
  unfolding close
  close_all p = record p {
    closed = true;
    matches = close p.matches;
    notifications = close p.notifications;
    errors = close p.errors;
  }

  -- `errors.push(...)`, `close_all()` and the return of the worker, as one step too.
  unfoldable pub fail : Exception → Poll D → Poll D
  unfolding close_all push
  fail e p = record (close_all (record p { errors = push e p.errors })) { phase = Phase.returned }

  -- `while (!closed.load())`
  unfoldable pub test : Poll D → Poll D
  test p = record p { phase = if p.closed then Phase.returned else Phase.requesting }

  -- The end of `sleep_or_stop`, and what follows it.
  unfoldable pub wake : Poll D → Poll D
  wake p =
      if p.closed
      then record p { phase = Phase.returned }
      else record p { phase = Phase.testing; backoff = min (p.backoff * 2) backoff_cap }

module _ (P : Platform) where
  open P use {Double, to_int64}

  -- `get<long long>()`, `none` where it throws. A Boolean converts.
  unfoldable pub get_long_long : Json Double → Option ℤ
  get_long_long (integer n) = some n
  get_long_long (unsigned n) = some (wrap64 (pos n))
  get_long_long (float d) = some (to_int64 d)
  get_long_long (boolean b) = some (if b then pos 1 else pos 0)
  get_long_long _ = none

  unfoldable pub advance_since : Json Double → ℤ → ℤ
  unfolding find get_long_long
  advance_since body cur_since = elim (find body "timestamp") [
    | none ↦ cur_since
    | some t ↦ elim (get_long_long t) [ none ↦ cur_since | some n ↦ n ]
  ]

  unfoldable pub classify_longpoll_response : ℤ → Json Double → Bool → LongpollDisposition
  unfolding find
  classify_longpoll_response http_status body body_empty =
      if not (ltb_ℤ http_status (pos 400))
      then terminal
      else if body_empty
      then skip
      else if has_value (find body "timeout")
          && not (has_value (find body "result"))
          && not (has_value (find body "notification"))
      then keep_alive
      else event

  -- The exception of a terminal response.
  unfoldable pub terminal_error : HttpResponse Double → Exception
  unfolding api_error to_string
  terminal_error resp = audd (
      api
        (record (api_error (pos 0)
          (utf8 "Longpoll endpoint returned HTTP " ++ to_string resp.http_status) resp.http_status
          resp.request_id) { raw_response = resp.raw_body }))

  -- The parsed event goes to its queue; a body that does not parse is skipped.
  unfoldable pub deliver_event : ℤ → Result (CallbackEvent Double) → Poll Double → Poll Double
  unfolding push
  deliver_event since (err e) p = p
  deliver_event since (ok (matched m)) p = record p {
    matches = push m p.matches;
    cur_since = since;
  }
  deliver_event since (ok (notified n)) p = record p {
    notifications = push n p.notifications;
    cur_since = since;
  }

  unfoldable pub deliver : Text → HttpResponse Double → Poll Double → Poll Double
  unfolding deliver_event parse_callback advance_since
  deliver failure resp p =
      deliver_event (advance_since resp.json_body p.cur_since)
        (parse_callback P failure resp.raw_body) p

  unfoldable pub dispatch :
      Text → HttpResponse Double → Poll Double → LongpollDisposition → Poll Double
  unfolding terminal_error fail advance_since deliver
  dispatch failure resp p terminal = fail (terminal_error resp) p
  dispatch failure resp p skip = p
  dispatch failure resp p keep_alive = record p {
    cur_since = advance_since resp.json_body p.cur_since;
  }
  dispatch failure resp p event = deliver failure resp p

  -- A response that came: back to the test of the loop, unless the poll was closed meanwhile.
  unfoldable pub respond : Text → HttpResponse Double → Poll Double → Poll Double
  unfolding dispatch classify_longpoll_response
  respond failure resp p =
      let disposition =
        classify_longpoll_response resp.http_status resp.json_body (is_empty resp.raw_body) in
      if p.closed
      then record p { phase = Phase.returned }
      else dispatch failure resp (record p { phase = Phase.testing; backoff = backoff_base })
          disposition

  -- What `catch (const AudDConnectionError&)` takes.
  abbrev pub is_connection : Exception → Bool
  is_connection (audd (connection what before)) = true
  is_connection _ = false

  -- The end of the request, with the response or what it threw. `failure` is the text of the parser.
  unfoldable pub receive : Text → Result (HttpResponse Double) → Poll Double → Poll Double
  unfolding respond fail
  receive failure (err e) p =
      if is_connection e then record p { phase = Phase.sleeping } else fail e p
  receive failure (ok resp) p = respond failure resp p
