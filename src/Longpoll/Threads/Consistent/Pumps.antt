-- ===== src/Longpoll/Threads/Consistent/Pumps.antt =====
-- The steps of `close` and of the threads of `run` in src/longpoll.cpp keep the threads consistent.
use mathlib.Core.Path.{subst}
use audd_cpp.Prelude.{ℕ, ◌≡◌, refl, Bool, true, false, List, [], ◌∷◌, arith}
use audd_cpp.Parse.Songs.{StreamCallbackMatch, StreamCallbackNotification}
use audd_cpp.Longpoll.Queue.{DemuxQueue, pull}
use audd_cpp.Longpoll.Threads.State.{Pump, Main, System}
use audd_cpp.Longpoll.Threads.Piped.{in_hand, IsTracked, IsPiped, pull-IsPiped, give-IsTracked}
use audd_cpp.Longpoll.Threads.Flags.{worker-close_line, main-close_line, flags, closer-IsFlagged}
use audd_cpp.Longpoll.Threads.{close_step, match_step, notification_step}
use audd_cpp.Longpoll.Threads.Consistent.{is_over, IsJoined, IsConsistent, line_placed}

module _ {S T : Type 0} where
  first_live :
      (m : Main) (p p' : Pump S) (q : Pump T) → is_over p ≡ false → IsJoined m p q → IsJoined m p' q
  first_live Main.done p p' q live j = absurd (ground (arith, live, j))
  first_live Main.pulling p p' q live j = tt
  first_live (Main.holding e) p p' q live j = tt
  first_live (Main.closing stage) p p' q live j = tt
  first_live Main.joining p p' q live j = tt

  second_live :
      (m : Main) (p : Pump S) (q q' : Pump T) → is_over q ≡ false → IsJoined m p q → IsJoined m p q'
  second_live Main.done p q q' live j = absurd (ground (arith, live, j))
  second_live Main.pulling p q q' live j = tt
  second_live (Main.holding e) p q q' live j = tt
  second_live (Main.closing stage) p q q' live j = tt
  second_live Main.joining p q q' live j = tt

closed-pull_from :
    {T : Type 0} (c : Bool) (q : List T)
    → let d : DemuxQueue T = record { q = q; closed = c } in (pull d).1.closed ≡ c
unfolding pull
closed-pull_from true [] = refl
closed-pull_from false [] = refl
closed-pull_from c (v ∷ q) = refl

pub closed-pull : {T : Type 0} (d : DemuxQueue T) → (pull d).1.closed ≡ d.closed
unfolding pull
closed-pull d = closed-pull_from d.closed d.q

module _ {D : Type 0} where
  pub match_step-IsConsistent :
      (p : Pump (StreamCallbackMatch D)) (s : System D)
      → s.match_pump ≡ p
      → IsConsistent s
      → IsConsistent (match_step p s)
  unfolding match_step
  match_step-IsConsistent Pump.pulling s e c = record {
    flagged = rw (closed-pull s.matches) c.flagged;
    matches =
        pull-IsPiped s.matches s.accepted_matches s.delivered_matches
          (subst (λ p. IsPiped s.matches p s.accepted_matches s.delivered_matches) e c.matches);
    notifications = c.notifications;
    errors = c.errors;
    few = c.few;
    settled = c.settled;
    joined = first_live s.main s.match_pump _ s.notification_pump (rw e refl) c.joined;
    low = c.low;
    high = c.high;
  }
  match_step-IsConsistent (Pump.holding m) s e c = record {
    flagged = c.flagged;
    matches = (
      give-IsTracked m s.matches s.accepted_matches s.delivered_matches (
          subst (λ p. IsTracked s.matches (in_hand p) s.accepted_matches s.delivered_matches) e
            c.matches.0),
      tt,
    );
    notifications = c.notifications;
    errors = c.errors;
    few = c.few;
    settled = c.settled;
    joined = first_live s.main s.match_pump _ s.notification_pump (rw e refl) c.joined;
    low = c.low;
    high = c.high;
  }
  match_step-IsConsistent Pump.over s e c = c

  pub notification_step-IsConsistent :
      (p : Pump (StreamCallbackNotification D)) (s : System D)
      → s.notification_pump ≡ p
      → IsConsistent s
      → IsConsistent (notification_step p s)
  unfolding notification_step
  notification_step-IsConsistent Pump.pulling s e c = record {
    flagged = rw (closed-pull s.notifications) c.flagged;
    matches = c.matches;
    notifications =
        pull-IsPiped s.notifications s.accepted_notifications s.delivered_notifications (
          subst (λ p. IsPiped s.notifications p s.accepted_notifications s.delivered_notifications)
            e c.notifications);
    errors = c.errors;
    few = c.few;
    settled = c.settled;
    joined = second_live s.main s.match_pump s.notification_pump _ (rw e refl) c.joined;
    low = c.low;
    high = c.high;
  }
  notification_step-IsConsistent (Pump.holding n) s e c = record {
    flagged = c.flagged;
    matches = c.matches;
    notifications = (
      give-IsTracked n s.notifications s.accepted_notifications s.delivered_notifications (
          subst
            (λ p.
              IsTracked s.notifications (in_hand p) s.accepted_notifications
                s.delivered_notifications)
            e c.notifications.0),
      tt,
    );
    errors = c.errors;
    few = c.few;
    settled = c.settled;
    joined = second_live s.main s.match_pump s.notification_pump _ (rw e refl) c.joined;
    low = c.low;
    high = c.high;
  }
  notification_step-IsConsistent Pump.over s e c = c

  pub close_step-IsConsistent :
      (i : ℕ) (s : System D) → IsConsistent s → IsConsistent (close_step i s)
  unfolding close_step
  close_step-IsConsistent i s c =
      rw (worker-close_line (s.closer i) s, main-close_line (s.closer i) s)
        (line_placed (s.closer i) s _ s.worker s.main (c.flagged.1 i)
          (closer-IsFlagged i (flags s) s.closer s.worker s.main c.flagged) (omega arith) refl
          c.settled c.joined c)
