-- ===== src/Longpoll/Threads/Join.antt =====
-- `LongpollPoll::run` of src/longpoll.cpp returns behind a close.
use audd_cpp.Prelude.{
  ℕ, ◌+◌, ◌-◌, ◌*◌, ◌≤◌, ◌≡◌, refl, ap, ◌∙◌, Bool, true, false, List, [], ◌∷◌, ◌++◌, length, arith,
  if_lem,
}
use audd_cpp.Prelude.Text.{Text}
use audd_cpp.Platform.{Platform}
use audd_cpp.Error.{Exception, Result}
use audd_cpp.Http.{HttpResponse}
use audd_cpp.Callback.{matched, notified}
use audd_cpp.Parse.Songs.{StreamCallbackMatch, StreamCallbackNotification}
use audd_cpp.Longpoll.{LongpollDisposition, terminal, keep_alive, event, skip}
use audd_cpp.Longpoll.Queue.{DemuxQueue, pull}
use audd_cpp.Longpoll.Threads.State.{
  Stage, entering, marked, closed_matches, closed_notifications, finished, Worker, Pump, Main,
  System, joins, caught, joined,
}
use audd_cpp.Longpoll.Threads.Flags.{main-close_line}
use audd_cpp.Longpoll.Threads.Rise.{turns, schedule-falls}
use audd_cpp.Longpoll.Threads.Halt.{lines_left}
use audd_cpp.Longpoll.Threads.{
  close_step, match_step, notification_step, main_step, handle, work, Action, works, closes,
  match_pumps, notification_pumps, main_runs, act, schedule,
}
use audd_cpp.Longpoll.Threads.Left.{
  turns_left_zero, turns_left_le, matches_left, notifications_left, close_line-left, main_step-left,
  match_step-falls, match_step-left, notification_step-falls, notification_step-left,
  work-matches_left, work-notifications_left,
}

abbrev pub main_left : Main → ℕ
main_left Main.pulling = 7
main_left (Main.holding e) = 6
main_left (Main.closing stage) = lines_left stage
main_left Main.joining = 0
main_left Main.done = 0

caught-left :
    (q : List Exception) (c : Bool)
    → let d : DemuxQueue Exception = record { q = q; closed = c } in
      c ≡ true → main_left (caught (pull d).0) ≤ 6
unfolding pull
caught-left [] true e = omega arith
caught-left [] false e = absurd (ground (arith, e))
caught-left (v ∷ q) c e = omega arith

joins-left : (stage : Stage) → main_left (joins stage) ≤ lines_left stage - 1
joins-left entering = omega arith
joins-left marked = omega arith
joins-left closed_matches = omega arith
joins-left closed_notifications = omega arith
joins-left finished = omega arith

joined-left : {S T : Type 0} (p : Pump S) (q : Pump T) → main_left (joined p q) ≤ 0
joined-left Pump.over Pump.over = omega arith
joined-left Pump.over Pump.pulling = omega arith
joined-left Pump.over (Pump.holding w) = omega arith
joined-left Pump.pulling q = omega arith
joined-left (Pump.holding v) q = omega arith

main_left_le : (m : Main) → main_left m ≤ 7
main_left_le Main.pulling = omega arith
main_left_le (Main.holding e) = omega arith
main_left_le (Main.closing finished) = omega arith
main_left_le (Main.closing entering) = omega arith
main_left_le (Main.closing marked) = omega arith
main_left_le (Main.closing closed_matches) = omega arith
main_left_le (Main.closing closed_notifications) = omega arith
main_left_le Main.joining = omega arith
main_left_le Main.done = omega arith

module _ {D : Type 0} where
  main_step-falls :
      (m : Main) (s : System D)
      → s.main ≡ m
      → s.errors.closed ≡ true
      → main_left (main_step m s).main ≤ main_left m - 1
  unfolding main_step
  main_step-falls Main.pulling s e shut = caught-left s.errors.q s.errors.closed shut
  main_step-falls (Main.holding x) s e shut = omega arith
  main_step-falls (Main.closing stage) s e shut = joins-left stage
  main_step-falls Main.joining s e shut = joined-left s.match_pump s.notification_pump
  main_step-falls Main.done s e shut = rw e (omega arith)

  match_step-main :
      (p : Pump (StreamCallbackMatch D)) (s : System D) → (match_step p s).main ≡ s.main
  unfolding match_step
  match_step-main Pump.pulling s = refl
  match_step-main (Pump.holding v) s = refl
  match_step-main Pump.over s = refl

  notification_step-main :
      (p : Pump (StreamCallbackNotification D)) (s : System D)
      → (notification_step p s).main ≡ s.main
  unfolding notification_step
  notification_step-main Pump.pulling s = refl
  notification_step-main (Pump.holding v) s = refl
  notification_step-main Pump.over s = refl

  -- With both of its threads ended, `run` has no more to wait for.
  joining_lem :
      (m : Main) (s : System D)
      → main_left m ≤ 0
      → s.main ≡ m
      → s.match_pump ≡ Pump.over
      → s.notification_pump ≡ Pump.over
      → (main_step m s).main ≡ Main.done
  unfolding main_step
  joining_lem Main.joining s none e p q = rw (p, q) refl
  joining_lem Main.done s none e p q = e
  joining_lem Main.pulling s none e p q = absurd (omega (arith, none))
  joining_lem (Main.holding x) s none e p q = absurd (omega (arith, none))
  joining_lem (Main.closing finished) s none e p q = absurd (omega (arith, none))
  joining_lem (Main.closing entering) s none e p q = absurd (omega (arith, none))
  joining_lem (Main.closing marked) s none e p q = absurd (omega (arith, none))
  joining_lem (Main.closing closed_matches) s none e p q = absurd (omega (arith, none))
  joining_lem (Main.closing closed_notifications) s none e p q = absurd (omega (arith, none))

module _ (P : Platform) where
  open P use {Double}

  handle-main :
      (failure : Text) (resp : HttpResponse Double) (d : LongpollDisposition) (s : System Double)
      → (handle P failure resp d s).main ≡ s.main
  unfolding handle
  handle-main failure resp terminal s = refl
  handle-main failure resp skip s = refl
  handle-main failure resp keep_alive s = refl
  handle-main failure resp event s = refl

  work-main :
      (failure : Text) (r : Result (HttpResponse Double)) (w : Worker Double) (s : System Double)
      → (work P failure r w s).main ≡ s.main
  unfolding work
  work-main failure r Worker.testing s = refl
  work-main failure r Worker.requesting s = refl
  work-main failure r Worker.sleeping s =
      if_lem {A = System Double} (λ t. t.main ≡ s.main) s.closed (λ h. refl) (λ h. refl)
  work-main failure r (Worker.arrived resp) s =
      if_lem {A = System Double} (λ t. t.main ≡ s.main) s.closed (λ h. refl) (λ h. refl)
  work-main failure r (Worker.handling resp) s = handle-main failure resp _ s
  work-main failure r (Worker.storing resp (matched v)) s = refl
  work-main failure r (Worker.storing resp (notified v)) s = refl
  work-main failure r (Worker.failing e) s = refl
  work-main failure r (Worker.closing stage) s = main-close_line stage s
  work-main failure r Worker.returned s = refl

  abbrev pub is_match : Action P → ℕ
  is_match match_pumps = 1
  is_match _ = 0

  abbrev pub is_notification : Action P → ℕ
  is_notification notification_pumps = 1
  is_notification _ = 0

  abbrev pub is_main : Action P → ℕ
  is_main main_runs = 1
  is_main _ = 0

  act-matches_left :
      (a : Action P) (s : System Double)
      → s.matches.closed ≡ true
      → matches_left (act P a s) ≤ matches_left s - is_match a
  unfolding act close_step
  act-matches_left (works failure r) s shut =
      omega (arith, work-matches_left P failure r s.worker s shut)
  act-matches_left (closes i) s shut = omega (arith, (close_line-left (s.closer i) s).0)
  act-matches_left match_pumps s shut = match_step-falls s.match_pump s refl shut
  act-matches_left notification_pumps s shut =
      omega (arith, notification_step-left s.notification_pump s)
  act-matches_left main_runs s shut = omega (arith, (main_step-left s.main s).0)

  act-notifications_left :
      (a : Action P) (s : System Double)
      → s.notifications.closed ≡ true
      → notifications_left (act P a s) ≤ notifications_left s - is_notification a
  unfolding act close_step
  act-notifications_left (works failure r) s shut =
      omega (arith, work-notifications_left P failure r s.worker s shut)
  act-notifications_left (closes i) s shut = omega (arith, (close_line-left (s.closer i) s).1)
  act-notifications_left match_pumps s shut = omega (arith, match_step-left s.match_pump s)
  act-notifications_left notification_pumps s shut =
      notification_step-falls s.notification_pump s refl shut
  act-notifications_left main_runs s shut = omega (arith, (main_step-left s.main s).1)

  act-main_left :
      (a : Action P) (s : System Double)
      → s.errors.closed ≡ true
      → main_left (act P a s).main ≤ main_left s.main - is_main a
  unfolding act close_step
  act-main_left (works failure r) s shut = rw (work-main failure r s.worker s) (omega arith)
  act-main_left (closes i) s shut = rw (main-close_line (s.closer i) s) (omega arith)
  act-main_left match_pumps s shut = rw (match_step-main s.match_pump s) (omega arith)
  act-main_left notification_pumps s shut =
      rw (notification_step-main s.notification_pump s) (omega arith)
  act-main_left main_runs s shut = main_step-falls s.main s refl shut

  schedule-append :
      (actions : List (Action P)) (a : Action P) (s : System Double)
      → schedule P (actions ++ a ∷ []) s ≡ act P a (schedule P actions s)
  unfolding schedule
  schedule-append [] a s = refl
  schedule-append (b ∷ later) a s = schedule-append later a (act P b s)

  -- Once the three queues are closed, `run` returns: whatever the other threads do meanwhile, it has returned
  -- behind seven steps of its own thread, two for each match that is queued and two more of the thread of
  -- the matches, as many of the thread of the notifications, and one more step of its own.
  pub schedule-done :
      (actions : List (Action P)) (s : System Double)
      → s.matches.closed ≡ true
      → s.notifications.closed ≡ true
      → s.errors.closed ≡ true
      → 2 + 2 * length s.matches.q ≤ turns P is_match actions
      → 2 + 2 * length s.notifications.q ≤ turns P is_notification actions
      → 7 ≤ turns P is_main actions
      → (schedule P (actions ++ main_runs ∷ []) s).main ≡ Main.done
  unfolding act
  schedule-done actions s ms ns es many_matches many_notifications many =
      let t = schedule P actions s in
      let fm =
        schedule-falls P matches_left is_match closed_matches act-matches_left actions s ms in
      let fn =
        schedule-falls P notifications_left is_notification closed_notifications
          act-notifications_left actions s ns in
      let fr =
        schedule-falls P (λ s. main_left s.main) is_main finished act-main_left actions s es in
      let pm : t.match_pump ≡ Pump.over =
        turns_left_zero t.match_pump t.matches.q
          (omega (arith, fm, turns_left_le s.match_pump s.matches.q)) in
      let pn : t.notification_pump ≡ Pump.over =
        turns_left_zero t.notification_pump t.notifications.q
          (omega (arith, fn, turns_left_le s.notification_pump s.notifications.q)) in
      ap (λ u. u.main) (schedule-append actions main_runs s)
      ∙ joining_lem t.main t (omega (arith, fr, main_left_le s.main)) refl pm pn
