-- ===== src/Longpoll/Threads/Run.antt =====
-- What `LongpollPoll::run` of src/longpoll.cpp has done when it returns.
use mathlib.Core.Path.{subst}
use mathlib.Core.List.{append-nil}
use audd_cpp.Prelude.{◌≤◌, ◌≡◌, sym, ap, ◌∙◌, true, List, [], ◌++◌, length, arith}
use audd_cpp.Prelude.Int.{ℤ}
use audd_cpp.Platform.{Platform}
use audd_cpp.Longpoll.Queue.{DemuxQueue}
use audd_cpp.Longpoll.Threads.State.{Pump, Main, System, begin}
use audd_cpp.Longpoll.Threads.Piped.{IsTracked, IsPiped}
use audd_cpp.Longpoll.Threads.Flags.{flags, in_order-closed, main_reached}
use audd_cpp.Longpoll.Threads.Consistent.{in_main, is_over, IsSettled, IsJoined, IsConsistent}
use audd_cpp.Longpoll.Threads.Consistent.Caller.{raised_le}
use audd_cpp.Longpoll.Threads.Consistent.Schedule.{schedule-IsConsistent}
use audd_cpp.Longpoll.Threads.{Action, schedule}

module _ {T : Type 0} where
  emptied :
      (d : DemuxQueue T) (accepted delivered : List T)
      → IsTracked d [] accepted delivered
      → d.q ≡ []
      → delivered ≡ accepted
  emptied d accepted delivered t none_left =
      sym (append-nil delivered)
      ∙ sym (append-nil (delivered ++ []))
      ∙ ap (λ q. (delivered ++ []) ++ q) (sym none_left)
      ∙ t

  over_lem :
      (d : DemuxQueue T) (p : Pump T) (accepted delivered : List T)
      → is_over p ≡ true
      → IsPiped d p accepted delivered
      → delivered ≡ accepted
  over_lem d Pump.over accepted delivered e t = emptied d accepted delivered t.0 t.1.0
  over_lem d Pump.pulling accepted delivered e t = absurd (ground (arith, e))
  over_lem d (Pump.holding v) accepted delivered e t = absurd (ground (arith, e))

done_lem :
    {D : Type 0} (s : System D)
    → s.main ≡ Main.done
    → IsConsistent s
    → (s.delivered_matches ≡ s.accepted_matches)
      × (s.delivered_notifications ≡ s.accepted_notifications)
      × (s.reported ≡ s.accepted_errors)
      × (length s.reported ≤ 1)
      × (s.closed ≡ true)
done_lem s e c =
    let j = subst (λ m. IsJoined m s.match_pump s.notification_pump) e c.joined in
    let t = subst (λ m. IsTracked s.errors (in_main m) s.accepted_errors s.reported) e c.errors in
    let h = subst (λ m. IsSettled m s.errors s.reported) e c.settled in
    let r = subst (λ m. main_reached m (flags s) ≡ true) e c.flagged.3 in
    let all = emptied s.errors s.accepted_errors s.reported t h.0 in
    (
      over_lem s.matches s.match_pump s.accepted_matches s.delivered_matches j.0 c.matches,
      over_lem s.notifications s.notification_pump s.accepted_notifications
          s.delivered_notifications j.1 c.notifications,
      all,
      omega (arith, ap length all, c.few, raised_le s.worker),
      in_order-closed (flags s) c.flagged.0 r,
    )

module _ (P : Platform) where
  open P use {Double}

  -- When `run` has returned, whatever the order in which the worker, the threads of `run` and those that call
  -- `close` took their steps: the callbacks have had every match and every notification that was pushed on
  -- an open queue, each once and in the order of the pushes, and every error that was, which is one at
  -- most, and the poll is closed.
  pub schedule-delivered :
      (actions : List (Action P)) (since_time : ℤ)
      → (schedule P actions (begin since_time)).main ≡ Main.done
      → let s : System Double = schedule P actions (begin since_time) in
        (s.delivered_matches ≡ s.accepted_matches)
        × (s.delivered_notifications ≡ s.accepted_notifications)
        × (s.reported ≡ s.accepted_errors)
        × (length s.reported ≤ 1)
        × (s.closed ≡ true)
  schedule-delivered actions since_time e =
      done_lem (schedule P actions (begin since_time)) e
        (schedule-IsConsistent P actions since_time)
