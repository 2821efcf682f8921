-- ===== src/Longpoll/Threads/Report.antt =====
-- The error that ends a subscription of src/longpoll.cpp reaches the callback of `run`.
use mathlib.Core.Path.{subst}
use audd_cpp.Prelude.{◌≤◌, ◌≡◌, refl, sym, ap, ◌∙◌, false, List, [], ◌∷◌, ◌++◌, length, arith}
use audd_cpp.Prelude.Int.{ℤ}
use audd_cpp.Prelude.Text.{Text}
use audd_cpp.Platform.{Platform}
use audd_cpp.Error.{Exception, Result}
use audd_cpp.Http.{HttpResponse}
use audd_cpp.Parse.Songs.{StreamCallbackMatch, StreamCallbackNotification}
use audd_cpp.Longpoll.Threads.State.{
  Stage, entering, marked, closed_matches, closed_notifications, finished, Worker, Pump, Main,
  System, begin, accept,
}
use audd_cpp.Longpoll.Threads.Flags.{worker-close_line}
use audd_cpp.Longpoll.Threads.Consistent.{raised, raised-after_close}
use audd_cpp.Longpoll.Threads.Consistent.Schedule.{schedule-IsConsistent}
use audd_cpp.Longpoll.Threads.Run.{schedule-delivered}
use audd_cpp.Longpoll.Threads.Halt.{match_step-worker, notification_step-worker, main_step-worker}
use audd_cpp.Longpoll.Threads.{
  close_line, close_step, match_step, notification_step, main_step, work, Action, works, closes,
  match_pumps, notification_pumps, main_runs, act, schedule,
}

module _ {D : Type 0} where
  close_line-accepted_errors :
      (stage : Stage) (s : System D) → (close_line stage s).accepted_errors ≡ s.accepted_errors
  unfolding close_line
  close_line-accepted_errors entering s = refl
  close_line-accepted_errors marked s = refl
  close_line-accepted_errors closed_matches s = refl
  close_line-accepted_errors closed_notifications s = refl
  close_line-accepted_errors finished s = refl

  match_step-accepted_errors :
      (p : Pump (StreamCallbackMatch D)) (s : System D)
      → (match_step p s).accepted_errors ≡ s.accepted_errors
  unfolding match_step
  match_step-accepted_errors Pump.pulling s = refl
  match_step-accepted_errors (Pump.holding v) s = refl
  match_step-accepted_errors Pump.over s = refl

  notification_step-accepted_errors :
      (p : Pump (StreamCallbackNotification D)) (s : System D)
      → (notification_step p s).accepted_errors ≡ s.accepted_errors
  unfolding notification_step
  notification_step-accepted_errors Pump.pulling s = refl
  notification_step-accepted_errors (Pump.holding v) s = refl
  notification_step-accepted_errors Pump.over s = refl

  main_step-accepted_errors :
      (m : Main) (s : System D) → (main_step m s).accepted_errors ≡ s.accepted_errors
  unfolding main_step
  main_step-accepted_errors Main.pulling s = refl
  main_step-accepted_errors (Main.holding e) s = refl
  main_step-accepted_errors (Main.closing stage) s = close_line-accepted_errors stage s
  main_step-accepted_errors Main.joining s = refl
  main_step-accepted_errors Main.done s = refl

  -- The worker is behind the push of an error, and these are the errors.
  abbrev HasRaised : List Exception → System D → Type 0
  HasRaised es s = (raised s.worker ≡ 1) × (s.accepted_errors ≡ es)

module _ (P : Platform) where
  open P use {Double}

  work-HasRaised :
      (failure : Text) (r : Result (HttpResponse Double)) (w : Worker Double) (es : List Exception)
      (s : System Double)
      → s.worker ≡ w
      → HasRaised es s
      → HasRaised es (work P failure r w s)
  unfolding work
  work-HasRaised failure r (Worker.closing stage) es s e h =
      (raised-after_close Double stage, close_line-accepted_errors stage s ∙ h.1)
  work-HasRaised failure r Worker.returned es s e h = h
  work-HasRaised failure r Worker.testing es s e h = absurd (omega (arith, ap raised e, h.0))
  work-HasRaised failure r Worker.requesting es s e h = absurd (omega (arith, ap raised e, h.0))
  work-HasRaised failure r Worker.sleeping es s e h = absurd (omega (arith, ap raised e, h.0))
  work-HasRaised failure r (Worker.arrived resp) es s e h = absurd (omega (arith, ap raised e, h.0))
  work-HasRaised failure r (Worker.handling resp) es s e h =
      absurd (omega (arith, ap raised e, h.0))
  work-HasRaised failure r (Worker.storing resp ev) es s e h =
      absurd (omega (arith, ap raised e, h.0))
  work-HasRaised failure r (Worker.failing x) es s e h = absurd (omega (arith, ap raised e, h.0))

  act-HasRaised :
      (a : Action P) (es : List Exception) (s : System Double)
      → HasRaised es s
      → HasRaised es (act P a s)
  unfolding act close_step
  act-HasRaised (works failure r) es s h = work-HasRaised failure r s.worker es s refl h
  act-HasRaised (closes i) es s h = (
    ap raised (worker-close_line (s.closer i) s) ∙ h.0,
    close_line-accepted_errors (s.closer i) s ∙ h.1,
  )
  act-HasRaised match_pumps es s h = (
    ap raised (match_step-worker s.match_pump s) ∙ h.0,
    match_step-accepted_errors s.match_pump s ∙ h.1,
  )
  act-HasRaised notification_pumps es s h = (
    ap raised (notification_step-worker s.notification_pump s) ∙ h.0,
    notification_step-accepted_errors s.notification_pump s ∙ h.1,
  )
  act-HasRaised main_runs es s h =
      (ap raised (main_step-worker s.main s) ∙ h.0, main_step-accepted_errors s.main s ∙ h.1)

  schedule-HasRaised :
      (actions : List (Action P)) (es : List Exception) (s : System Double)
      → HasRaised es s
      → HasRaised es (schedule P actions s)
  unfolding schedule
  schedule-HasRaised [] es s h = h
  schedule-HasRaised (a ∷ later) es s h =
      schedule-HasRaised later es (act P a s) (act-HasRaised a es s h)

  schedule-append :
      (earlier later : List (Action P)) (s : System Double)
      → schedule P (earlier ++ later) s ≡ schedule P later (schedule P earlier s)
  unfolding schedule
  schedule-append [] later s = refl
  schedule-append (a ∷ earlier) later s = schedule-append earlier later (act P a s)

  none_before : (es : List Exception) → length es ≤ 0 → es ≡ []
  none_before [] h = refl
  none_before (e ∷ es) h = absurd (omega (arith, h))

  raises :
      (failure : Text) (r : Result (HttpResponse Double)) (e : Exception) (s : System Double)
      → s.errors.closed ≡ false
      → s.accepted_errors ≡ []
      → HasRaised (e ∷ []) (work P failure r (Worker.failing e) s)
  unfolding work
  raises failure r e s opened none =
      (refl, ap (λ b. accept b e s.accepted_errors) opened ∙ ap (λ es. es ++ e ∷ []) none)

  -- An exception that ends the worker is reported: where it is about to be pushed, on a queue of errors that
  -- is still open, and `run` has returned in the end, whatever the threads did before and after, the callback
  -- for errors has been called once, with this exception.
  pub schedule-reported :
      (earlier later : List (Action P)) (since_time : ℤ) (failure : Text)
      (r : Result (HttpResponse Double)) (e : Exception)
      → (schedule P earlier (begin since_time)).worker ≡ Worker.failing e
      → (schedule P earlier (begin since_time)).errors.closed ≡ false
      → (schedule P (earlier ++ works failure r ∷ later) (begin since_time)).main ≡ Main.done
      → (schedule P (earlier ++ works failure r ∷ later) (begin since_time)).reported ≡ e ∷ []
  unfolding schedule act
  schedule-reported earlier later since_time failure r e fails opened returned =
      let s = schedule P earlier (begin since_time) in
      let c = schedule-IsConsistent P earlier since_time in
      let none = none_before s.accepted_errors (omega (arith, c.few, ap raised fails)) in
      let pushed : HasRaised (e ∷ []) (act P (works failure r) s) =
        subst (λ w. HasRaised (e ∷ []) (work P failure r w s)) (sym fails)
          (raises failure r e s opened none) in
      let all = schedule-HasRaised later (e ∷ []) (act P (works failure r) s) pushed in
      (schedule-delivered P (earlier ++ works failure r ∷ later) since_time returned).2
      ∙ ap (λ t. t.accepted_errors)
          (schedule-append earlier (works failure r ∷ later) (begin since_time))
      ∙ all.1
