-- ===== src/Longpoll/Threads/Halt.antt =====
-- The worker of src/longpoll.cpp returns behind a close.
use audd_cpp.Prelude.{ℕ, ◌-◌, ◌≤◌, ◌≡◌, refl, true, List, arith, if_lem}
use audd_cpp.Prelude.Text.{Text}
use audd_cpp.Platform.{Platform}
use audd_cpp.Error.{Result, ok, err}
use audd_cpp.Http.{HttpResponse}
use audd_cpp.Callback.{CallbackEvent, matched, notified}
use audd_cpp.Parse.Songs.{StreamCallbackMatch, StreamCallbackNotification}
use audd_cpp.Longpoll.{LongpollDisposition, terminal, keep_alive, event, skip, is_connection}
use audd_cpp.Longpoll.Threads.State.{
  Stage, entering, marked, closed_matches, closed_notifications, finished, Worker, Pump, Main,
  System,
}
use audd_cpp.Longpoll.Threads.Flags.{worker-close_line}
use audd_cpp.Longpoll.Threads.Rise.{turns, schedule-falls, schedule-reached}
use audd_cpp.Longpoll.Threads.{
  close_step, after_close, match_step, notification_step, main_step, received, parsed, handle, work,
  Action, works, closes, match_pumps, notification_pumps, main_runs, act, schedule,
}

abbrev pub lines_left : Stage → ℕ
lines_left finished = 5
lines_left entering = 4
lines_left marked = 3
lines_left closed_matches = 2
lines_left closed_notifications = 1

-- The steps that are left to the worker, at most, once the poll is closed.
abbrev pub steps_left : {D : Type 0} → Worker D → ℕ
steps_left Worker.returned = 0
steps_left Worker.testing = 1
steps_left Worker.sleeping = 1
steps_left (Worker.arrived resp) = 1
steps_left (Worker.storing resp ev) = 2
steps_left (Worker.closing stage) = lines_left stage
steps_left (Worker.failing e) = 5
steps_left (Worker.handling resp) = 6
steps_left Worker.requesting = 6

steps_left-after_close :
    (D : Type 0) (stage : Stage) → steps_left {D = D} (after_close stage) ≤ lines_left stage - 1
steps_left-after_close D entering = omega arith
steps_left-after_close D marked = omega arith
steps_left-after_close D closed_matches = omega arith
steps_left-after_close D closed_notifications = omega arith
steps_left-after_close D finished = omega arith

module _ {D : Type 0} where
  pub match_step-worker :
      (p : Pump (StreamCallbackMatch D)) (s : System D) → (match_step p s).worker ≡ s.worker
  unfolding match_step
  match_step-worker Pump.pulling s = refl
  match_step-worker (Pump.holding m) s = refl
  match_step-worker Pump.over s = refl

  pub notification_step-worker :
      (p : Pump (StreamCallbackNotification D)) (s : System D)
      → (notification_step p s).worker ≡ s.worker
  unfolding notification_step
  notification_step-worker Pump.pulling s = refl
  notification_step-worker (Pump.holding n) s = refl
  notification_step-worker Pump.over s = refl

  pub main_step-worker : (m : Main) (s : System D) → (main_step m s).worker ≡ s.worker
  unfolding main_step
  main_step-worker Main.pulling s = refl
  main_step-worker (Main.holding e) s = refl
  main_step-worker (Main.closing stage) s = worker-close_line stage s
  main_step-worker Main.joining s = refl
  main_step-worker Main.done s = refl

module _ (P : Platform) where
  open P use {Double}

  received-steps_left : (r : Result (HttpResponse Double)) → steps_left (received P r) ≤ 5
  received-steps_left (ok resp) = omega arith
  received-steps_left (err e) =
      if_lem {A = Worker Double} (λ w. steps_left w ≤ 5) (is_connection P e) {x = Worker.sleeping}
        {y = Worker.failing e} (λ h. omega arith) (λ h. omega arith)

  parsed-steps_left :
      (resp : HttpResponse Double) (r : Result (CallbackEvent Double))
      → steps_left (parsed P resp r) ≤ 5
  parsed-steps_left resp (ok ev) = omega arith
  parsed-steps_left resp (err e) = omega arith

  handle-steps_left :
      (failure : Text) (resp : HttpResponse Double) (d : LongpollDisposition) (s : System Double)
      → steps_left (handle P failure resp d s).worker ≤ 5
  unfolding handle
  handle-steps_left failure resp terminal s = omega arith
  handle-steps_left failure resp skip s = omega arith
  handle-steps_left failure resp keep_alive s = omega arith
  handle-steps_left failure resp event s = parsed-steps_left resp _

  work-steps_left :
      (failure : Text) (r : Result (HttpResponse Double)) (w : Worker Double) (s : System Double)
      → s.worker ≡ w
      → s.closed ≡ true
      → steps_left (work P failure r w s).worker ≤ steps_left w - 1
  unfolding work
  work-steps_left failure r Worker.testing s e shut = rw shut (omega arith)
  work-steps_left failure r Worker.requesting s e shut = received-steps_left r
  work-steps_left failure r Worker.sleeping s e shut = rw shut (omega arith)
  work-steps_left failure r (Worker.arrived resp) s e shut = rw shut (omega arith)
  work-steps_left failure r (Worker.handling resp) s e shut = handle-steps_left failure resp _ s
  work-steps_left failure r (Worker.storing resp (matched m)) s e shut = omega arith
  work-steps_left failure r (Worker.storing resp (notified n)) s e shut = omega arith
  work-steps_left failure r (Worker.failing x) s e shut = omega arith
  work-steps_left failure r (Worker.closing stage) s e shut = steps_left-after_close Double stage
  work-steps_left failure r Worker.returned s e shut = rw e (omega arith)

  abbrev pub is_work : Action P → ℕ
  is_work (works failure r) = 1
  is_work _ = 0

  act-steps_left :
      (a : Action P) (s : System Double)
      → s.closed ≡ true
      → steps_left (act P a s).worker ≤ steps_left s.worker - is_work a
  unfolding act close_step
  act-steps_left (works failure r) s shut = work-steps_left failure r s.worker s refl shut
  act-steps_left (closes i) s shut = rw (worker-close_line (s.closer i) s) (omega arith)
  act-steps_left match_pumps s shut = rw (match_step-worker s.match_pump s) (omega arith)
  act-steps_left notification_pumps s shut =
      rw (notification_step-worker s.notification_pump s) (omega arith)
  act-steps_left main_runs s shut = rw (main_step-worker s.main s) (omega arith)

  few_left : (w : Worker Double) → steps_left w ≤ 6
  few_left Worker.returned = omega arith
  few_left Worker.testing = omega arith
  few_left Worker.sleeping = omega arith
  few_left (Worker.arrived resp) = omega arith
  few_left (Worker.storing resp ev) = omega arith
  few_left (Worker.closing finished) = omega arith
  few_left (Worker.closing entering) = omega arith
  few_left (Worker.closing marked) = omega arith
  few_left (Worker.closing closed_matches) = omega arith
  few_left (Worker.closing closed_notifications) = omega arith
  few_left (Worker.failing e) = omega arith
  few_left (Worker.handling resp) = omega arith
  few_left Worker.requesting = omega arith

  none_left : (w : Worker Double) → steps_left w ≤ 0 → w ≡ Worker.returned
  none_left Worker.returned h = refl
  none_left Worker.testing h = absurd (omega (arith, h))
  none_left Worker.sleeping h = absurd (omega (arith, h))
  none_left (Worker.arrived resp) h = absurd (omega (arith, h))
  none_left (Worker.storing resp ev) h = absurd (omega (arith, h))
  none_left (Worker.closing finished) h = absurd (omega (arith, h))
  none_left (Worker.closing entering) h = absurd (omega (arith, h))
  none_left (Worker.closing marked) h = absurd (omega (arith, h))
  none_left (Worker.closing closed_matches) h = absurd (omega (arith, h))
  none_left (Worker.closing closed_notifications) h = absurd (omega (arith, h))
  none_left (Worker.failing e) h = absurd (omega (arith, h))
  none_left (Worker.handling resp) h = absurd (omega (arith, h))
  none_left Worker.requesting h = absurd (omega (arith, h))

  -- A closed poll stays closed and its worker returns within six steps of its own, wherever it was, whatever
  -- its requests bring, and whatever the other threads do meanwhile.
  pub schedule-returned :
      (actions : List (Action P)) (s : System Double)
      → s.closed ≡ true
      → 6 ≤ turns P is_work actions
      → ((schedule P actions s).worker ≡ Worker.returned) × ((schedule P actions s).closed ≡ true)
  schedule-returned actions s shut enough =
      let fell =
        schedule-falls P (λ s. steps_left s.worker) is_work marked act-steps_left actions s shut in
      (
        none_left (schedule P actions s).worker (omega (arith, fell, few_left s.worker)),
        schedule-reached P marked actions s shut,
      )
