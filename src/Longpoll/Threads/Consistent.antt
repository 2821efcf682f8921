-- ===== src/Longpoll/Threads/Consistent.antt =====
-- What holds between the threads of a subscription of src/longpoll.cpp, whatever their order.
pub mod Rounds
pub mod Pumps
pub mod Caller
pub mod Schedule
use audd_cpp.Prelude.{
  ℕ, zero, suc, ◌≤◌, ◌*◌, ◌≡◌, refl, sym, ap, ◌∙◌, ◌⊎◌, inl, inr, Bool, true, false, List, [], ◌∷◌,
  ◌++◌, min, length, arith, if◌then◌else◌, Bool-cases,
}
use audd_cpp.Prelude.Int.{ℤ}
use audd_cpp.Prelude.Text.{Text, is_empty}
use audd_cpp.Platform.{Platform}
use audd_cpp.Error.{Exception, Result, ok, err}
use audd_cpp.Http.{HttpResponse}
use audd_cpp.Callback.{CallbackEvent, matched, notified, parse_callback}
use audd_cpp.Longpoll.{
  LongpollDisposition, terminal, keep_alive, event, skip, is_connection, classify_longpoll_response,
}
use audd_cpp.Longpoll.Queue.{DemuxQueue, push, close, pull}
use audd_cpp.Longpoll.Threads.State.{
  Stage, entering, marked, closed_matches, closed_notifications, finished, Worker, Pump, Main,
  System, begin, next, accept, joins, pumped, caught, joined,
}
use audd_cpp.Longpoll.Threads.Piped.{
  IsTracked, IsPiped, IsDrained, push-IsPiped, push-IsTracked, close-IsPiped, pull-IsPiped,
  give-IsTracked,
}
use audd_cpp.Longpoll.Threads.Flags.{
  flags, line, reached, worker_reached, main_reached, IsFlagged, line-IsFlagged, closer-IsFlagged,
  flags-close_line, joins-reached, after_close-reached,
}
use audd_cpp.Longpoll.Threads.{
  close_line, close_step, after_close, match_step, notification_step, main_step, received, parsed,
  handle, work, Action, works, closes, match_pumps, notification_pumps, main_runs, act, schedule,
}

abbrev pub in_main : Main → List Exception
in_main (Main.holding e) = e ∷ []
in_main _ = []

-- The errors that a worker at this place can have pushed.
abbrev pub raised : {D : Type 0} → Worker D → ℕ
raised (Worker.closing stage) = 1
raised Worker.returned = 1
raised _ = 0

-- Behind the loop over the errors none is queued: one was reported, or the queue was closed.
abbrev pub IsSettled : Main → DemuxQueue Exception → List Exception → Type 0
IsSettled Main.pulling d reported = Unit
IsSettled (Main.holding e) d reported = Unit
IsSettled _ d reported = (d.q ≡ []) × ((d.closed ≡ true) ⊎ (1 ≤ length reported))

abbrev pub is_over : {T : Type 0} → Pump T → Bool
is_over Pump.over = true
is_over _ = false

-- `run` returns behind both of its threads.
abbrev pub IsJoined : {S T : Type 0} → Main → Pump S → Pump T → Type 0
IsJoined Main.done p q = (is_over p ≡ true) × (is_over q ≡ true)
IsJoined _ p q = Unit

pub record IsConsistent {D : Type 0} (s : System D) : Type 0 where
  pub flagged : IsFlagged (flags s) s.closer s.worker s.main
  pub matches : IsPiped s.matches s.match_pump s.accepted_matches s.delivered_matches
  pub notifications :
      IsPiped s.notifications s.notification_pump s.accepted_notifications s.delivered_notifications
  pub errors : IsTracked s.errors (in_main s.main) s.accepted_errors s.reported
  pub few : length s.accepted_errors ≤ raised s.worker
  pub settled : IsSettled s.main s.errors s.reported
  pub joined : IsJoined s.main s.match_pump s.notification_pump
  pub low : 500 ≤ s.backoff
  pub high : s.backoff ≤ 30000

pub begin-IsConsistent : {D : Type 0} (since_time : ℤ) → IsConsistent (begin {D = D} since_time)
unfolding begin
begin-IsConsistent since_time = record {
  flagged = (refl, λ i. refl, refl, refl);
  matches = (refl, tt);
  notifications = (refl, tt);
  errors = refl;
  few = omega arith;
  settled = tt;
  joined = tt;
  low = omega arith;
  high = omega arith;
}

close-IsSettled :
    (m : Main) (d : DemuxQueue Exception) (reported : List Exception)
    → IsSettled m d reported
    → IsSettled m (close d) reported
unfolding close
close-IsSettled Main.pulling d reported h = tt
close-IsSettled (Main.holding e) d reported h = tt
close-IsSettled (Main.closing stage) d reported h = (h.0, inl refl)
close-IsSettled Main.joining d reported h = (h.0, inl refl)
close-IsSettled Main.done d reported h = (h.0, inl refl)

-- The loop over the errors is behind it, so its threads are what is left.
pub joins-IsSettled :
    (stage : Stage) (d : DemuxQueue Exception) (reported : List Exception)
    → IsSettled (Main.closing stage) d reported
    → IsSettled (joins stage) d reported
joins-IsSettled entering d reported h = h
joins-IsSettled marked d reported h = h
joins-IsSettled closed_matches d reported h = h
joins-IsSettled closed_notifications d reported h = h
joins-IsSettled finished d reported h = h

pub joins-IsJoined :
    {S T : Type 0} (stage : Stage) (p : Pump S) (q : Pump T) → IsJoined (joins stage) p q
joins-IsJoined entering p q = tt
joins-IsJoined marked p q = tt
joins-IsJoined closed_matches p q = tt
joins-IsJoined closed_notifications p q = tt
joins-IsJoined finished p q = tt

pub in_main-joins : (stage : Stage) → in_main (joins stage) ≡ []
in_main-joins entering = refl
in_main-joins marked = refl
in_main-joins closed_matches = refl
in_main-joins closed_notifications = refl
in_main-joins finished = refl

pub raised-after_close : (D : Type 0) (stage : Stage) → raised {D = D} (after_close stage) ≡ 1
raised-after_close D entering = refl
raised-after_close D marked = refl
raised-after_close D closed_matches = refl
raised-after_close D closed_notifications = refl
raised-after_close D finished = refl

module _ {D : Type 0} where
  -- The worker goes on, with the queues as they were.
  pub moves :
      (s : System D) (w : Worker D) (b : ℕ) (since : ℤ)
      → raised s.worker ≡ 0
      → worker_reached w (flags s) ≡ true
      → 500 ≤ b
      → b ≤ 30000
      → IsConsistent s
      → IsConsistent (record s { worker = w; backoff = b; cur_since = since })
  moves s w b since none_yet r low high c = record {
    flagged = (c.flagged.0, c.flagged.1, r, c.flagged.3);
    matches = c.matches;
    notifications = c.notifications;
    errors = c.errors;
    few = omega (arith, c.few, none_yet);
    settled = c.settled;
    joined = c.joined;
    low = low;
    high = high;
  }

  -- The threads go on, with what they share as it was.
  placed :
      (s : System D) (closer : ℕ → Stage) (w : Worker D) (m : Main)
      → IsFlagged (flags s) closer w m
      → raised s.worker ≤ raised w
      → in_main m ≡ in_main s.main
      → IsSettled m s.errors s.reported
      → IsJoined m s.match_pump s.notification_pump
      → IsConsistent s
      → IsConsistent (record s { closer = closer; worker = w; main = m })
  placed s closer w m f more same settled joined c = record {
    flagged = f;
    matches = c.matches;
    notifications = c.notifications;
    errors = rw same c.errors;
    few = omega (arith, c.few, more);
    settled = settled;
    joined = joined;
    low = c.low;
    high = c.high;
  }

  close_line-IsConsistent :
      (stage : Stage) (s : System D)
      → reached stage (flags s) ≡ true
      → IsConsistent s
      → IsConsistent (close_line stage s)
  unfolding close_line close
  close_line-IsConsistent entering s r c = record {
    flagged = line-IsFlagged entering (flags s) s.closer s.worker s.main r c.flagged;
    matches = c.matches;
    notifications = c.notifications;
    errors = c.errors;
    few = c.few;
    settled = c.settled;
    joined = c.joined;
    low = c.low;
    high = c.high;
  }
  close_line-IsConsistent marked s r c = record {
    flagged = line-IsFlagged marked (flags s) s.closer s.worker s.main r c.flagged;
    matches = close-IsPiped s.matches s.match_pump s.accepted_matches s.delivered_matches c.matches;
    notifications = c.notifications;
    errors = c.errors;
    few = c.few;
    settled = c.settled;
    joined = c.joined;
    low = c.low;
    high = c.high;
  }
  close_line-IsConsistent closed_matches s r c = record {
    flagged = line-IsFlagged closed_matches (flags s) s.closer s.worker s.main r c.flagged;
    matches = c.matches;
    notifications =
        close-IsPiped s.notifications s.notification_pump s.accepted_notifications
          s.delivered_notifications c.notifications;
    errors = c.errors;
    few = c.few;
    settled = c.settled;
    joined = c.joined;
    low = c.low;
    high = c.high;
  }
  close_line-IsConsistent closed_notifications s r c = record {
    flagged = line-IsFlagged closed_notifications (flags s) s.closer s.worker s.main r c.flagged;
    matches = c.matches;
    notifications = c.notifications;
    errors = c.errors;
    few = c.few;
    settled = close-IsSettled s.main s.errors s.reported c.settled;
    joined = c.joined;
    low = c.low;
    high = c.high;
  }
  close_line-IsConsistent finished s r c = c

  pub line_placed :
      (stage : Stage) (s : System D) (closer : ℕ → Stage) (w : Worker D) (m : Main)
      → reached stage (flags s) ≡ true
      → IsFlagged (line stage (flags s)) closer w m
      → raised s.worker ≤ raised w
      → in_main m ≡ in_main s.main
      → IsSettled m s.errors s.reported
      → IsJoined m s.match_pump s.notification_pump
      → IsConsistent s
      → IsConsistent (record (close_line stage s) { closer = closer; worker = w; main = m })
  unfolding close_line close
  line_placed entering s closer w m r f more same settled joined c =
      placed (close_line entering s) closer w m f more same settled joined
        (close_line-IsConsistent entering s r c)
  line_placed marked s closer w m r f more same settled joined c =
      placed (close_line marked s) closer w m f more same settled joined
        (close_line-IsConsistent marked s r c)
  line_placed closed_matches s closer w m r f more same settled joined c =
      placed (close_line closed_matches s) closer w m f more same settled joined
        (close_line-IsConsistent closed_matches s r c)
  line_placed closed_notifications s closer w m r f more same settled joined c =
      placed (close_line closed_notifications s) closer w m f more same
        (close-IsSettled m s.errors s.reported settled) joined
        (close_line-IsConsistent closed_notifications s r c)
  line_placed finished s closer w m r f more same settled joined c =
      placed (close_line finished s) closer w m f more same settled joined
        (close_line-IsConsistent finished s r c)
