-- ===== src/Longpoll/Queue/Wakes/Awake.antt =====
-- No wake-up of `DemuxQueue`, src/longpoll.cpp, is lost: the invariant of its condition variable.
use audd_cpp.Prelude.{
  ℕ, zero, suc, ◌+◌, ◌≤◌, ◌<◌, ◌≡◌, refl, ap, ◌⊎◌, inl, inr, Bool, true, false, List, [], ◌∷◌, ◌++◌,
  length, arith, if◌then◌else◌,
}
use audd_cpp.Longpoll.Queue.{push, close, pull_from}
use audd_cpp.Longpoll.Queue.Wakes.{
  Waits, Move, pushes, closes, pulls, notifies_one, notifies_all, resumes, stirs, looked, wake_one,
  notify_one, notify_all, resume, move, moves,
}

module _ {T : Type 0} where
  -- A thread sleeps only while the queue is empty, or somebody is on the way to look at each value; and only
  -- while it is open, or a `notify_all` is to come.
  pub record IsAwake (s : Waits T) : Type 0 where
    pub seen : (s.asleep ≡ 0) ⊎ (length s.queue.q ≤ s.pushed + s.woken)
    pub told : (s.queue.closed ≡ false) ⊎ ((s.asleep ≡ 0) ⊎ (0 < s.closing))

  looked-IsAwake :
      (closed : Bool) (q : List T) (s : Waits T)
      → (s.asleep ≡ 0) ⊎ (length q ≤ suc (s.pushed + s.woken))
      → (closed ≡ false) ⊎ ((s.asleep ≡ 0) ⊎ (0 < s.closing))
      → IsAwake (looked (pull_from closed q) s)
  looked-IsAwake closed (v ∷ q) s h k = record { seen = ground (arith, h); told = k }
  looked-IsAwake true [] s h k = record { seen = ground arith; told = k }
  looked-IsAwake false [] s h k = record { seen = ground arith; told = inl refl }

  pub length-push : (v : T) (q : List T) → length (q ++ v ∷ []) ≡ suc (length q)
  length-push v [] = refl
  length-push v (w ∷ q) = ap suc (length-push v q)

  wake_one-IsAwake :
      (n : ℕ) (s : Waits T)
      → s.asleep ≡ n
      → (s.asleep ≡ 0) ⊎ (length s.queue.q ≤ suc (s.pushed + s.woken))
      → (s.queue.closed ≡ false) ⊎ ((s.asleep ≡ 0) ⊎ (0 < s.closing))
      → IsAwake (wake_one n s)
  wake_one-IsAwake zero s e h k = record { seen = inl e; told = k }
  wake_one-IsAwake (suc n) s e h k = record {
    seen = ground (arith, h, e);
    told = ground (arith, k, e);
  }

  notify_one-IsAwake : (n : ℕ) (s : Waits T) → s.pushed ≡ n → IsAwake s → IsAwake (notify_one n s)
  notify_one-IsAwake zero s e c = c
  notify_one-IsAwake (suc n) s e c =
      wake_one-IsAwake s.asleep (record s { pushed = n }) refl (ground (arith, c.seen, e)) c.told

  resume-IsAwake : (n : ℕ) (s : Waits T) → s.woken ≡ n → IsAwake s → IsAwake (resume n s)
  resume-IsAwake zero s e c = c
  resume-IsAwake (suc n) s e c =
      looked-IsAwake s.queue.closed s.queue.q (record s { woken = n }) (ground (arith, c.seen, e))
        c.told

  push-IsAwake :
      (v : T) (closed : Bool) (q : List T) (s : Waits T)
      → (s.asleep ≡ 0) ⊎ (length q ≤ s.pushed + s.woken)
      → (closed ≡ false) ⊎ ((s.asleep ≡ 0) ⊎ (0 < s.closing))
      → IsAwake (record s {
        queue = push v (record { q = q; closed = closed });
        pushed = if closed then s.pushed else suc s.pushed;
      })
  unfolding push
  push-IsAwake v true q s h k = record { seen = h; told = k }
  push-IsAwake v false q s h k = record {
    seen = ground (arith, h, length-push v q);
    told = inl refl;
  }

  notify_all-IsAwake : (n : ℕ) (s : Waits T) → s.closing ≡ n → IsAwake s → IsAwake (notify_all n s)
  notify_all-IsAwake zero s e c = c
  notify_all-IsAwake (suc n) s e c = record { seen = inl refl; told = inr (inl refl) }

  move-IsAwake : (m : Move T) (s : Waits T) → IsAwake s → IsAwake (move m s)
  unfolding move close
  move-IsAwake (pushes v) s c = push-IsAwake v s.queue.closed s.queue.q s c.seen c.told
  move-IsAwake closes s c = record { seen = c.seen; told = ground arith }
  move-IsAwake pulls s c = looked-IsAwake s.queue.closed s.queue.q s (ground (arith, c.seen)) c.told
  move-IsAwake notifies_one s c = notify_one-IsAwake s.pushed s refl c
  move-IsAwake notifies_all s c = notify_all-IsAwake s.closing s refl c
  move-IsAwake resumes s c = resume-IsAwake s.woken s refl c
  move-IsAwake stirs s c = wake_one-IsAwake s.asleep s refl (ground (arith, c.seen)) c.told

  pub moves-IsAwake : (ms : List (Move T)) (s : Waits T) → IsAwake s → IsAwake (moves ms s)
  unfolding moves
  moves-IsAwake [] s c = c
  moves-IsAwake (m ∷ later) s c = moves-IsAwake later (move m s) (move-IsAwake m s c)
