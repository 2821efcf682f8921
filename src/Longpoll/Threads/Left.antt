-- ===== src/Longpoll/Threads/Left.antt =====
-- What is left to do for the threads of `LongpollPoll::run` of src/longpoll.cpp behind a close.
use audd_cpp.Prelude.{
  ℕ, ◌+◌, ◌-◌, ◌*◌, ◌≤◌, ◌≡◌, refl, ap, Bool, true, false, List, [], ◌∷◌, length, arith, if_lem,
}
use audd_cpp.Prelude.Text.{Text}
use audd_cpp.Platform.{Platform}
use audd_cpp.Error.{Result}
use audd_cpp.Http.{HttpResponse}
use audd_cpp.Callback.{matched, notified}
use audd_cpp.Parse.Songs.{StreamCallbackMatch, StreamCallbackNotification}
use audd_cpp.Longpoll.{LongpollDisposition, terminal, keep_alive, event, skip}
use audd_cpp.Longpoll.Queue.{DemuxQueue, close, pull}
use audd_cpp.Longpoll.Threads.State.{
  Stage, entering, marked, closed_matches, closed_notifications, finished, Worker, Pump, Main,
  System, pumped,
}
use audd_cpp.Longpoll.Threads.Piped.{push-closed}
use audd_cpp.Longpoll.Threads.{close_line, match_step, notification_step, main_step, handle, work}

module _ {T : Type 0} where
  -- The steps that are left to a thread of `run`, at most, once its queue is closed: it pulls each value
  -- and hands it over, and pulls the end.
  abbrev pub turns_left : Pump T → List T → ℕ
  turns_left Pump.over q = 0
  turns_left Pump.pulling q = 1 + 2 * length q
  turns_left (Pump.holding v) q = 2 + 2 * length q

  turns_left-pull_from :
      (q : List T) (c : Bool)
      → let d : DemuxQueue T = record { q = q; closed = c } in
        c ≡ true → turns_left (pumped (pull d).0) (pull d).1.q ≤ 2 * length q
  unfolding pull
  turns_left-pull_from [] true e = omega arith
  turns_left-pull_from [] false e = absurd (ground (arith, e))
  turns_left-pull_from (v ∷ q) c e = omega arith

  pub turns_left_zero : (p : Pump T) (q : List T) → turns_left p q ≤ 0 → p ≡ Pump.over
  turns_left_zero Pump.over q h = refl
  turns_left_zero Pump.pulling q h = absurd (omega (arith, h))
  turns_left_zero (Pump.holding v) q h = absurd (omega (arith, h))

  pub turns_left_le : (p : Pump T) (q : List T) → turns_left p q ≤ 2 + 2 * length q
  turns_left_le Pump.over q = omega arith
  turns_left_le Pump.pulling q = omega arith
  turns_left_le (Pump.holding v) q = omega arith

-- What one thread of `run` has left, and the steps of the other threads, which leave it alone.
module _ {D : Type 0} where
  abbrev pub matches_left : System D → ℕ
  matches_left s = turns_left s.match_pump s.matches.q

  abbrev pub notifications_left : System D → ℕ
  notifications_left s = turns_left s.notification_pump s.notifications.q

  pub close_line-left :
      (stage : Stage) (s : System D)
      → (matches_left (close_line stage s) ≡ matches_left s)
        × (notifications_left (close_line stage s) ≡ notifications_left s)
  unfolding close_line close
  close_line-left entering s = (refl, refl)
  close_line-left marked s = (refl, refl)
  close_line-left closed_matches s = (refl, refl)
  close_line-left closed_notifications s = (refl, refl)
  close_line-left finished s = (refl, refl)

  pub main_step-left :
      (m : Main) (s : System D)
      → (matches_left (main_step m s) ≡ matches_left s)
        × (notifications_left (main_step m s) ≡ notifications_left s)
  unfolding main_step
  main_step-left Main.pulling s = (refl, refl)
  main_step-left (Main.holding e) s = (refl, refl)
  main_step-left (Main.closing stage) s = close_line-left stage s
  main_step-left Main.joining s = (refl, refl)
  main_step-left Main.done s = (refl, refl)

  pub match_step-falls :
      (p : Pump (StreamCallbackMatch D)) (s : System D)
      → s.match_pump ≡ p
      → s.matches.closed ≡ true
      → matches_left (match_step p s) ≤ turns_left p s.matches.q - 1
  unfolding match_step
  match_step-falls Pump.pulling s e shut =
      omega (arith, turns_left-pull_from s.matches.q s.matches.closed shut)
  match_step-falls (Pump.holding v) s e shut = omega arith
  match_step-falls Pump.over s e shut = rw e (omega arith)

  pub match_step-left :
      (p : Pump (StreamCallbackMatch D)) (s : System D)
      → notifications_left (match_step p s) ≡ notifications_left s
  unfolding match_step
  match_step-left Pump.pulling s = refl
  match_step-left (Pump.holding v) s = refl
  match_step-left Pump.over s = refl

  pub notification_step-falls :
      (p : Pump (StreamCallbackNotification D)) (s : System D)
      → s.notification_pump ≡ p
      → s.notifications.closed ≡ true
      → notifications_left (notification_step p s) ≤ turns_left p s.notifications.q - 1
  unfolding notification_step
  notification_step-falls Pump.pulling s e shut =
      omega (arith, turns_left-pull_from s.notifications.q s.notifications.closed shut)
  notification_step-falls (Pump.holding v) s e shut = omega arith
  notification_step-falls Pump.over s e shut = rw e (omega arith)

  pub notification_step-left :
      (p : Pump (StreamCallbackNotification D)) (s : System D)
      → matches_left (notification_step p s) ≡ matches_left s
  unfolding notification_step
  notification_step-left Pump.pulling s = refl
  notification_step-left (Pump.holding v) s = refl
  notification_step-left Pump.over s = refl

module _ (P : Platform) where
  open P use {Double}

  handle-left :
      (failure : Text) (resp : HttpResponse Double) (d : LongpollDisposition) (s : System Double)
      → (matches_left (handle P failure resp d s) ≡ matches_left s)
        × (notifications_left (handle P failure resp d s) ≡ notifications_left s)
  unfolding handle
  handle-left failure resp terminal s = (refl, refl)
  handle-left failure resp skip s = (refl, refl)
  handle-left failure resp keep_alive s = (refl, refl)
  handle-left failure resp event s = (refl, refl)

  pub work-matches_left :
      (failure : Text) (r : Result (HttpResponse Double)) (w : Worker Double) (s : System Double)
      → s.matches.closed ≡ true
      → matches_left (work P failure r w s) ≡ matches_left s
  unfolding work
  work-matches_left failure r Worker.testing s shut = refl
  work-matches_left failure r Worker.requesting s shut = refl
  work-matches_left failure r Worker.sleeping s shut =
      if_lem {A = System Double} (λ t. matches_left t ≡ matches_left s) s.closed (λ h. refl)
        (λ h. refl)
  work-matches_left failure r (Worker.arrived resp) s shut =
      if_lem {A = System Double} (λ t. matches_left t ≡ matches_left s) s.closed (λ h. refl)
        (λ h. refl)
  work-matches_left failure r (Worker.handling resp) s shut = (handle-left failure resp _ s).0
  work-matches_left failure r (Worker.storing resp (matched v)) s shut =
      ap (λ d. turns_left s.match_pump d.q) (push-closed v s.matches shut)
  work-matches_left failure r (Worker.storing resp (notified v)) s shut = refl
  work-matches_left failure r (Worker.failing e) s shut = refl
  work-matches_left failure r (Worker.closing stage) s shut = (close_line-left stage s).0
  work-matches_left failure r Worker.returned s shut = refl

  pub work-notifications_left :
      (failure : Text) (r : Result (HttpResponse Double)) (w : Worker Double) (s : System Double)
      → s.notifications.closed ≡ true
      → notifications_left (work P failure r w s) ≡ notifications_left s
  unfolding work
  work-notifications_left failure r Worker.testing s shut = refl
  work-notifications_left failure r Worker.requesting s shut = refl
  work-notifications_left failure r Worker.sleeping s shut =
      if_lem {A = System Double} (λ t. notifications_left t ≡ notifications_left s) s.closed
        (λ h. refl) (λ h. refl)
  work-notifications_left failure r (Worker.arrived resp) s shut =
      if_lem {A = System Double} (λ t. notifications_left t ≡ notifications_left s) s.closed
        (λ h. refl) (λ h. refl)
  work-notifications_left failure r (Worker.handling resp) s shut = (handle-left failure resp _ s).1
  work-notifications_left failure r (Worker.storing resp (notified v)) s shut =
      ap (λ d. turns_left s.notification_pump d.q) (push-closed v s.notifications shut)
  work-notifications_left failure r (Worker.storing resp (matched v)) s shut = refl
  work-notifications_left failure r (Worker.failing e) s shut = refl
  work-notifications_left failure r (Worker.closing stage) s shut = (close_line-left stage s).1
  work-notifications_left failure r Worker.returned s shut = refl
