-- ===== src/Longpoll/Queue/Wakes.antt =====
-- The condition variable of `DemuxQueue`, src/longpoll.cpp, under any number of threads. What a call does
-- while it holds the mutex is one step, as a wait gives it up and joins the waiting in one; a notification is
-- a step of its own, behind the unlock. The threads are alike, so only how many stand at a place is kept.
pub mod Awake
pub mod Inside
pub mod Rest
use audd_cpp.Prelude.{
  ℕ, zero, suc, ◌+◌, ◌≤◌, ◌<◌, ◌≡◌, refl, sym, ap, ◌∙◌, ◌⊎◌, inl, inr, Bool, true, false, List, [],
  ◌∷◌, ◌++◌, length, arith, if◌then◌else◌,
}
use audd_cpp.Longpoll.Queue.{
  DemuxQueue, Pulled, value, ended, waiting, Operation, empty, push, close, pull_from, accepted,
}

-- The threads that sleep in `pull`, those that were woken and have not got the mutex again, and those
-- between the unlock and the notification of a `push` or a `close`; the values that were returned, in order,
-- and how often the end was. The last two record what happened and steer nothing.
pub record Waits (T : Type 0) : Type 0 where
  pub queue : DemuxQueue T
  pub asleep : ℕ
  pub woken : ℕ
  pub pushed : ℕ
  pub closing : ℕ
  pub taken : List T
  pub ends : ℕ

-- A call of one of the three operations, or a thread that goes on: with `notify_one`, with `notify_all`,
-- with another look at the queue, or out of its sleep without a notification.
pub data Move (T : Type 0) : Type 0 where
  pushes : T → Move T
  closes pulls notifies_one notifies_all resumes stirs : Move T

module _ {T : Type 0} where
  abbrev pub at_start : Waits T
  at_start = record {
    queue = empty;
    asleep = 0;
    woken = 0;
    pushed = 0;
    closing = 0;
    taken = [];
    ends = 0;
  }

  -- A thread that has the mutex returns, or goes to sleep.
  abbrev pub looked : Pulled T × DemuxQueue T → Waits T → Waits T
  looked (value v, q) s = record s { queue = q; taken = s.taken ++ v ∷ [] }
  looked (ended, q) s = record s { queue = q; ends = suc s.ends }
  looked (waiting, q) s = record s { queue = q; asleep = suc s.asleep }

  abbrev pub wake_one : ℕ → Waits T → Waits T
  wake_one zero s = s
  wake_one (suc n) s = record s { asleep = n; woken = suc s.woken }

  abbrev pub notify_one : ℕ → Waits T → Waits T
  notify_one zero s = s
  notify_one (suc n) s = wake_one s.asleep (record s { pushed = n })

  abbrev pub notify_all : ℕ → Waits T → Waits T
  notify_all zero s = s
  notify_all (suc n) s = record s { closing = n; asleep = 0; woken = s.woken + s.asleep }

  abbrev pub resume : ℕ → Waits T → Waits T
  resume zero s = s
  resume (suc n) s = looked (pull_from s.queue.closed s.queue.q) (record s { woken = n })

  -- A `push` on a closed queue returns without a notification.
  unfoldable pub move : Move T → Waits T → Waits T
  unfolding push close
  move (pushes v) s = record s {
    queue = push v s.queue;
    pushed = if s.queue.closed then s.pushed else suc s.pushed;
  }
  move closes s = record s { queue = close s.queue; closing = suc s.closing }
  move pulls s = looked (pull_from s.queue.closed s.queue.q) s
  move notifies_one s = notify_one s.pushed s
  move notifies_all s = notify_all s.closing s
  move resumes s = resume s.woken s
  move stirs s = wake_one s.asleep s

  unfoldable pub moves : List (Move T) → Waits T → Waits T
  unfolding move
  moves [] s = s
  moves (m ∷ later) s = moves later (move m s)

  -- The calls of `pull` of a schedule, and what of it `push` and `close` do to the queue.
  abbrev pub pull_calls : List (Move T) → ℕ
  pull_calls [] = 0
  pull_calls (pulls ∷ later) = suc (pull_calls later)
  pull_calls (m ∷ later) = pull_calls later

  abbrev pub operations : List (Move T) → List (Operation T)
  operations [] = []
  operations (pushes v ∷ later) = Operation.pushes v ∷ operations later
  operations (closes ∷ later) = Operation.closes ∷ operations later
  operations (m ∷ later) = operations later

  abbrev pub repeat : ℕ → Move T → List (Move T) → List (Move T)
  repeat zero m later = later
  repeat (suc n) m later = m ∷ repeat n m later

  -- The threads that are under way go on: those that are to notify do, and those that were woken look.
  abbrev pub to_rest : Waits T → List (Move T)
  to_rest s =
      repeat s.closing notifies_all
        (repeat s.pushed notifies_one (repeat (s.woken + s.asleep) resumes []))

  abbrev pub under_way : Waits T → ℕ
  under_way s = s.closing + s.pushed + s.woken
