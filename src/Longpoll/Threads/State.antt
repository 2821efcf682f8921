-- ===== src/Longpoll/Threads/State.antt =====
-- What the threads of a subscription of src/longpoll.cpp share, and where each of them is.
use audd_cpp.Prelude.{ℕ, Bool, true, false, List, [], ◌∷◌, ◌++◌}
use audd_cpp.Prelude.Int.{ℤ}
use audd_cpp.Error.{Exception}
use audd_cpp.Http.{HttpResponse}
use audd_cpp.Parse.Songs.{StreamCallbackMatch, StreamCallbackNotification}
use audd_cpp.Callback.{CallbackEvent}
use audd_cpp.Longpoll.Queue
use audd_cpp.Longpoll.Queue.{DemuxQueue, Pulled, value, ended, waiting}
use audd_cpp.Longpoll.{backoff_base}

-- How far a call of `close_all` is: before its first line, behind each of them, and returned.
pub data Stage : Type 0 where
  entering marked closed_matches closed_notifications finished : Stage

-- Where the worker is, with the variables that are live there.
pub data Worker (D : Type 0) : Type 0 where
  testing requesting sleeping returned : Worker D
  arrived handling : HttpResponse D → Worker D
  storing : HttpResponse D → CallbackEvent D → Worker D
  failing : Exception → Worker D
  closing : Stage → Worker D

-- A thread of `run` that hands the values of one queue to a callback.
pub data Pump (T : Type 0) : Type 0 where
  pulling over : Pump T
  holding : T → Pump T

-- The thread that called `run`.
pub data Main : Type 0 where
  pulling joining done : Main
  holding : Exception → Main
  closing : Stage → Main

-- `accepted_*` are the values pushed while their queue was open, `delivered_*` and `reported` the calls of
-- the callbacks so far; the other fields are the program's. An empty callback is one that does nothing.
pub record System (D : Type 0) : Type 0 where
  pub matches : DemuxQueue (StreamCallbackMatch D)
  pub notifications : DemuxQueue (StreamCallbackNotification D)
  pub errors : DemuxQueue Exception
  pub closed : Bool
  pub worker : Worker D
  pub cur_since : ℤ
  pub backoff : ℕ
  pub closer : ℕ → Stage
  pub main : Main
  pub match_pump : Pump (StreamCallbackMatch D)
  pub notification_pump : Pump (StreamCallbackNotification D)
  pub accepted_matches : List (StreamCallbackMatch D)
  pub accepted_notifications : List (StreamCallbackNotification D)
  pub accepted_errors : List Exception
  pub delivered_matches : List (StreamCallbackMatch D)
  pub delivered_notifications : List (StreamCallbackNotification D)
  pub reported : List Exception

unfoldable pub begin : {D : Type 0} → ℤ → System D
begin since_time = record {
  matches = Queue.empty;
  notifications = Queue.empty;
  errors = Queue.empty;
  closed = false;
  worker = Worker.testing;
  cur_since = since_time;
  backoff = backoff_base;
  closer = λ i. entering;
  main = Main.pulling;
  match_pump = Pump.pulling;
  notification_pump = Pump.pulling;
  accepted_matches = [];
  accepted_notifications = [];
  accepted_errors = [];
  delivered_matches = [];
  delivered_notifications = [];
  reported = [];
}

-- A thread that has returned may call `close` again.
abbrev pub next : Stage → Stage
next entering = marked
next marked = closed_matches
next closed_matches = closed_notifications
next closed_notifications = finished
next finished = entering

abbrev pub accept : {T : Type 0} → Bool → T → List T → List T
accept true v vs = vs
accept false v vs = vs ++ v ∷ []

-- Behind its last line, `run` joins its threads.
abbrev pub joins : Stage → Main
joins closed_notifications = Main.joining
joins stage = Main.closing (next stage)

-- A value that is pulled is held until the callback has it; a closed and empty queue ends the loop.
abbrev pub pumped : {T : Type 0} → Pulled T → Pump T
pumped (value v) = Pump.holding v
pumped ended = Pump.over
pumped waiting = Pump.pulling

-- The loop over the errors has one round at most.
abbrev pub caught : Pulled Exception → Main
caught (value e) = Main.holding e
caught ended = Main.joining
caught waiting = Main.pulling

-- `joinable()` threads are joined: both pumps have ended.
abbrev pub joined : {S T : Type 0} → Pump S → Pump T → Main
joined Pump.over Pump.over = Main.done
joined _ _ = Main.joining
