-- ===== src/Longpoll/Threads.antt =====
-- The threads of a subscription in src/longpoll.cpp: the worker, the threads that call `close`, and the
-- three of `LongpollPoll::run`. One action is one access to what they share, so a close may fall between
-- any two steps of the worker.
pub mod State
pub mod Piped
pub mod Flags
pub mod Consistent
pub mod Run
pub mod Report
pub mod Rise
pub mod Halt
pub mod Left
pub mod Join
mod Tests
use audd_cpp.Prelude.{
  ℕ, suc, ◌+◌, ◌*◌, ◌≡◌, Bool, true, false, Option, none, some, List, [], ◌∷◌, ◌++◌, min, ◌==◌,
  if◌then◌else◌,
}
use audd_cpp.Prelude.Int.{ℤ}
use audd_cpp.Prelude.Text.{Text, is_empty}
use audd_cpp.Platform.{Platform}
use audd_cpp.Error.{Exception, Result, ok, err}
use audd_cpp.Http.{HttpResponse}
use audd_cpp.Parse.Songs.{StreamCallbackMatch, StreamCallbackNotification}
use audd_cpp.Callback.{CallbackEvent, matched, notified, parse_callback}
use audd_cpp.Longpoll.Queue
use audd_cpp.Longpoll.Queue.{DemuxQueue, push, close, pull, Pulled, value, ended, waiting}
use audd_cpp.Longpoll.{
  LongpollDisposition, terminal, keep_alive, event, skip, backoff_base, backoff_cap, is_connection,
  terminal_error, advance_since, classify_longpoll_response,
}
use audd_cpp.Longpoll.Threads.State.{
  Stage, entering, marked, closed_matches, closed_notifications, finished, Worker, Pump, Main,
  System, next, accept, joins, pumped, caught, joined,
}

module _ {D : Type 0} where
  -- The line of `close_all` that comes next.
  unfoldable pub close_line : Stage → System D → System D
  unfolding close
  close_line entering s = record s { closed = true }
  close_line marked s = record s { matches = close s.matches }
  close_line closed_matches s = record s { notifications = close s.notifications }
  close_line closed_notifications s = record s { errors = close s.errors }
  close_line finished s = s

  -- Behind its last line the worker returns.
  abbrev pub after_close : Stage → Worker D
  after_close closed_notifications = Worker.returned
  after_close stage = Worker.closing (next stage)

  unfoldable pub close_step : ℕ → System D → System D
  unfolding close_line
  close_step i s = record (close_line (s.closer i) s) {
    closer = λ j. if i == j then next (s.closer i) else s.closer j;
  }

  unfoldable pub match_step : Pump (StreamCallbackMatch D) → System D → System D
  unfolding pull
  match_step Pump.pulling s =
      let (r, q) = pull s.matches in record s { match_pump = pumped r; matches = q }
  match_step (Pump.holding m) s = record s {
    match_pump = Pump.pulling;
    delivered_matches = s.delivered_matches ++ m ∷ [];
  }
  match_step Pump.over s = s

  unfoldable pub notification_step : Pump (StreamCallbackNotification D) → System D → System D
  unfolding pull
  notification_step Pump.pulling s =
      let (r, q) = pull s.notifications in
      record s { notification_pump = pumped r; notifications = q }
  notification_step (Pump.holding n) s = record s {
    notification_pump = Pump.pulling;
    delivered_notifications = s.delivered_notifications ++ n ∷ [];
  }
  notification_step Pump.over s = s

  unfoldable pub main_step : Main → System D → System D
  unfolding pull close_line
  main_step Main.pulling s = let (r, q) = pull s.errors in record s { main = caught r; errors = q }
  main_step (Main.holding e) s = record s {
    main = Main.closing entering;
    reported = s.reported ++ e ∷ [];
  }
  main_step (Main.closing stage) s = record (close_line stage s) { main = joins stage }
  main_step Main.joining s = record s { main = joined s.match_pump s.notification_pump }
  main_step Main.done s = s

module _ (P : Platform) where
  open P use {Double}

  -- Where the end of the request leads.
  abbrev pub received : Result (HttpResponse Double) → Worker Double
  received (err e) = if is_connection P e then Worker.sleeping else Worker.failing e
  received (ok resp) = Worker.arrived resp

  -- Where the parse of an event leads; a body that does not parse is skipped.
  abbrev pub parsed : HttpResponse Double → Result (CallbackEvent Double) → Worker Double
  parsed resp (err e) = Worker.testing
  parsed resp (ok ev) = Worker.storing resp ev

  unfoldable pub handle :
      Text → HttpResponse Double → LongpollDisposition → System Double → System Double
  unfolding terminal_error advance_since parse_callback
  handle failure resp terminal s = record s { worker = Worker.failing (terminal_error P resp) }
  handle failure resp skip s = record s { worker = Worker.testing }
  handle failure resp keep_alive s = record s {
    worker = Worker.testing;
    cur_since = advance_since P resp.json_body s.cur_since;
  }
  handle failure resp event s = record s {
    worker = parsed resp (parse_callback P failure resp.raw_body);
  }

  -- One step of the worker. `r` is how its request ends, if it is in one, and `failure` the text of the
  -- JSON parser.
  unfoldable pub work :
      Text → Result (HttpResponse Double) → Worker Double → System Double → System Double
  unfolding handle push close_line advance_since classify_longpoll_response
  work failure r Worker.testing s = record s {
    worker = if s.closed then Worker.returned else Worker.requesting;
  }
  work failure r Worker.requesting s = record s { worker = received r }
  work failure r Worker.sleeping s =
      if s.closed
      then record s { worker = Worker.returned }
      else record s { worker = Worker.testing; backoff = min (s.backoff * 2) backoff_cap }
  work failure r (Worker.arrived resp) s =
      if s.closed
      then record s { worker = Worker.returned }
      else record s { worker = Worker.handling resp; backoff = backoff_base }
  work failure r (Worker.handling resp) s =
      handle failure resp
        (classify_longpoll_response P resp.http_status resp.json_body (is_empty resp.raw_body)) s
  work failure r (Worker.storing resp (matched m)) s = record s {
    worker = Worker.testing;
    matches = push m s.matches;
    accepted_matches = accept s.matches.closed m s.accepted_matches;
    cur_since = advance_since P resp.json_body s.cur_since;
  }
  work failure r (Worker.storing resp (notified n)) s = record s {
    worker = Worker.testing;
    notifications = push n s.notifications;
    accepted_notifications = accept s.notifications.closed n s.accepted_notifications;
    cur_since = advance_since P resp.json_body s.cur_since;
  }
  work failure r (Worker.failing e) s = record s {
    worker = Worker.closing entering;
    errors = push e s.errors;
    accepted_errors = accept s.errors.closed e s.accepted_errors;
  }
  work failure r (Worker.closing stage) s = record (close_line stage s) {
    worker = after_close stage;
  }
  work failure r Worker.returned s = s

  -- Which thread runs next, with what the outside gives to the worker. A thread that waits does nothing.
  pub data Action : Type 0 where
    works : Text → Result (HttpResponse Double) → Action
    closes : ℕ → Action
    match_pumps notification_pumps main_runs : Action

  unfoldable pub act : Action → System Double → System Double
  unfolding work close_step match_step notification_step main_step
  act (works failure r) s = work failure r s.worker s
  act (closes i) s = close_step i s
  act match_pumps s = match_step s.match_pump s
  act notification_pumps s = notification_step s.notification_pump s
  act main_runs s = main_step s.main s

  -- The threads in the order of a schedule.
  unfoldable pub schedule : List Action → System Double → System Double
  unfolding act
  schedule [] s = s
  schedule (a ∷ later) s = schedule later (act a s)
