-- ===== src/Longpoll/Threads/Consistent/Schedule.antt =====
-- Every schedule of the threads of src/longpoll.cpp keeps them consistent.
use audd_cpp.Prelude.{refl, List, [], ◌∷◌}
use audd_cpp.Prelude.Int.{ℤ}
use audd_cpp.Platform.{Platform}
use audd_cpp.Longpoll.Threads.State.{System, begin}
use audd_cpp.Longpoll.Threads.{
  Action, works, closes, match_pumps, notification_pumps, main_runs, act, schedule,
}
use audd_cpp.Longpoll.Threads.Consistent.{IsConsistent, begin-IsConsistent}
use audd_cpp.Longpoll.Threads.Consistent.Rounds.{work-IsConsistent}
use audd_cpp.Longpoll.Threads.Consistent.Pumps.{
  match_step-IsConsistent, notification_step-IsConsistent, close_step-IsConsistent,
}
use audd_cpp.Longpoll.Threads.Consistent.Caller.{main_step-IsConsistent}

module _ (P : Platform) where
  open P use {Double}

  pub act-IsConsistent :
      (a : Action P) (s : System Double) → IsConsistent s → IsConsistent (act P a s)
  unfolding act
  act-IsConsistent (works failure r) s c = work-IsConsistent P failure r s.worker s refl c
  act-IsConsistent (closes i) s c = close_step-IsConsistent i s c
  act-IsConsistent match_pumps s c = match_step-IsConsistent s.match_pump s refl c
  act-IsConsistent notification_pumps s c =
      notification_step-IsConsistent s.notification_pump s refl c
  act-IsConsistent main_runs s c = main_step-IsConsistent s.main s refl c

  from-IsConsistent :
      (actions : List (Action P)) (s : System Double)
      → IsConsistent s
      → IsConsistent (schedule P actions s)
  unfolding schedule
  from-IsConsistent [] s c = c
  from-IsConsistent (a ∷ later) s c = from-IsConsistent later (act P a s) (act-IsConsistent a s c)

  -- Whatever the order in which the threads take their turns: the flags of a close are set in the order of
  -- `close_all` and before every step that relies on them; of each queue, what was delivered, what a thread
  -- has in hand and what is queued is what was pushed while it was open, in that order; a thread of `run`
  -- ends only with its queue closed and empty; one error at most was pushed, and none is queued behind the
  -- loop over the errors; `run` returns behind both of its threads; and the backoff stays between 500 and
  -- 30000 milliseconds.
  pub schedule-IsConsistent :
      (actions : List (Action P)) (since_time : ℤ)
      → IsConsistent (schedule P actions (begin since_time))
  schedule-IsConsistent actions since_time =
      from-IsConsistent actions (begin since_time) (begin-IsConsistent since_time)
