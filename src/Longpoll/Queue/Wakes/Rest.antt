-- ===== src/Longpoll/Queue/Wakes/Rest.antt =====
-- The threads of `DemuxQueue`, src/longpoll.cpp, come to rest.
use mathlib.Core.List.{append-nil}
use audd_cpp.Prelude.{
  ℕ, zero, suc, ◌+◌, ◌≤◌, ◌≡◌, refl, ap, ◌∙◌, ◌⊎◌, inl, inr, Bool, true, false, List, [], ◌∷◌, ◌++◌,
  length, arith,
}
use audd_cpp.Longpoll.Queue.{pull_from, accepted}
use audd_cpp.Longpoll.Queue.Wakes.{
  Waits, Move, notifies_one, notifies_all, resumes, at_start, looked, wake_one, resume, move, moves,
  pull_calls, operations, repeat, to_rest, under_way,
}
use audd_cpp.Longpoll.Queue.Wakes.Awake.{IsAwake, moves-IsAwake}
use audd_cpp.Longpoll.Queue.Wakes.Inside.{through, moves-inside, moves-through, accepted-nothing}

module _ {T : Type 0} where
  looked-counts :
      (closed : Bool) (q : List T) (s : Waits T)
      → let t = looked (pull_from closed q) s in
        (t.closing ≡ s.closing) × (t.pushed ≡ s.pushed) × (t.woken ≡ s.woken)
  looked-counts closed (v ∷ q) s = (refl, refl, refl)
  looked-counts true [] s = (refl, refl, refl)
  looked-counts false [] s = (refl, refl, refl)

  wake_one-counts :
      (n : ℕ) (s : Waits T)
      → s.asleep ≡ n
      → let t = wake_one n s in
        (t.closing ≡ s.closing) × (t.pushed ≡ s.pushed) × (t.woken + t.asleep ≡ s.woken + s.asleep)
  wake_one-counts zero s e = (refl, refl, refl)
  wake_one-counts (suc n) s e = (refl, refl, ground (arith, e))

  resume-under_way :
      (k n : ℕ) (s : Waits T)
      → s.woken ≡ k
      → under_way s ≤ suc n
      → s.closing + s.pushed ≡ 0
      → (under_way (resume k s) ≤ n) × ((resume k s).closing + (resume k s).pushed ≡ 0)
  resume-under_way zero n s e h r = (ground (arith, e, r), r)
  resume-under_way (suc k) n s e h r =
      let t = record s { woken = k } in
      let same = looked-counts s.queue.closed s.queue.q t in
      (ground (arith, e, h, r, same), ground (arith, r, same))

  resumes_lem :
      (n : ℕ) (s : Waits T)
      → under_way s ≤ n
      → s.closing + s.pushed ≡ 0
      → under_way (moves (repeat n resumes []) s) ≡ 0
  unfolding moves move
  resumes_lem zero s h r = ground (arith, h)
  resumes_lem (suc n) s h r =
      let step = resume-under_way s.woken n s refl h r in
      resumes_lem n (resume s.woken s) step.0 step.1

  ones_lem :
      (p n : ℕ) (s : Waits T)
      → s.pushed ≡ p
      → s.closing ≡ 0
      → s.woken + s.asleep ≤ n
      → under_way (moves (repeat p notifies_one (repeat n resumes [])) s) ≡ 0
  unfolding moves move
  ones_lem zero n s e c h = resumes_lem n s (ground (arith, e, c, h)) (ground (arith, e, c))
  ones_lem (suc p) n s e c h =
      let t = wake_one s.asleep (record s { pushed = p }) in
      let same = wake_one-counts s.asleep (record s { pushed = p }) refl in
      rw e (ones_lem p n t same.1 (same.0 ∙ c) (ground (arith, h, same.2)))

  alls_lem :
      (k n : ℕ) (s : Waits T)
      → s.closing ≡ k
      → s.woken + s.asleep ≤ n
      → under_way
          (moves (repeat k notifies_all (repeat s.pushed notifies_one (repeat n resumes []))) s)
        ≡ 0
  unfolding moves move
  alls_lem zero n s e h = ones_lem s.pushed n s refl e h
  alls_lem (suc k) n s e h = rw e (
      alls_lem k n (record s { closing = k; asleep = 0; woken = s.woken + s.asleep }) refl
        (ground (arith, h)))

  -- The moves to rest call nothing.
  repeat-calls :
      (n : ℕ) (m : Move T) (later : List (Move T))
      → ((l : List (Move T))
          → (pull_calls (m ∷ l) ≡ pull_calls l) × (operations (m ∷ l) ≡ operations l))
      → (pull_calls (repeat n m later) ≡ pull_calls later)
        × (operations (repeat n m later) ≡ operations later)
  repeat-calls zero m later f = (refl, refl)
  repeat-calls (suc n) m later f =
      let rest = repeat-calls n m later f in
      let first = f (repeat n m later) in (first.0 ∙ rest.0, first.1 ∙ rest.1)

  to_rest-calls : (s : Waits T) → (pull_calls (to_rest s) ≡ 0) × (operations (to_rest s) ≡ [])
  to_rest-calls s =
      let last = repeat-calls (s.woken + s.asleep) resumes [] (λ l. (refl, refl)) in
      let ones =
        repeat-calls s.pushed notifies_one (repeat (s.woken + s.asleep) resumes [])
          (λ l. (refl, refl)) in
      let alls =
        repeat-calls s.closing notifies_all
          (repeat s.pushed notifies_one (repeat (s.woken + s.asleep) resumes []))
          (λ l. (refl, refl)) in
      (alls.0 ∙ ones.0 ∙ last.0, alls.1 ∙ ones.1 ∙ last.1)

  nothing_queued : (q : List T) → length q ≡ 0 → q ≡ []
  nothing_queued [] e = refl
  nothing_queued (v ∷ q) e = absurd (ground (arith, e))

  at_rest :
      (s : Waits T)
      → IsAwake s
      → under_way s ≡ 0
      → (s.asleep ≡ 0) ⊎ ((s.queue.q ≡ []) × (s.queue.closed ≡ false))
  at_rest s c e = elim c.seen [
    | inl nobody ↦ inl nobody
    | inr few ↦ elim c.told [
      | inr (inl nobody) ↦ inl nobody
      | inr (inr some_one) ↦ absurd (ground (arith, e, some_one))
      | inl opened ↦ inr (nothing_queued s.queue.q (ground (arith, e, few)), opened)
    ]
  ]

  -- No wake-up is lost. However many threads call `push`, `close` and `pull`, in whatever order they take
  -- their turns and whichever sleepers are woken without a notification: once those that are to notify and
  -- those that were woken have gone on, each call of `pull` has returned a value or the end, or sleeps, and
  -- one sleeps only while the queue is empty and open. The values that were returned, in order, and those
  -- that are queued are the ones that were pushed before the first close.
  pub moves-awake :
      (ms : List (Move T))
      → let s = moves ms at_start in
        let t = moves (to_rest s) s in
        (under_way t ≡ 0)
        × (length t.taken + t.ends + t.asleep ≡ pull_calls ms)
        × ((t.asleep ≡ 0) ⊎ ((t.queue.q ≡ []) × (t.queue.closed ≡ false)))
        × (t.taken ++ t.queue.q ≡ accepted false (operations ms))
  moves-awake ms =
      let s = moves ms at_start in
      let t = moves (to_rest s) s in
      let rest = alls_lem s.closing (s.woken + s.asleep) s refl (ground arith) in
      let start : IsAwake at_start = record { seen = inl refl; told = inl refl } in
      let awake = moves-IsAwake (to_rest s) s (moves-IsAwake ms at_start start) in
      let none = to_rest-calls s in
      (
        rest,
        ground (arith, rest, moves-inside (to_rest s) s, moves-inside ms at_start, none.0),
        at_rest t awake rest,
        moves-through (to_rest s) s
            ∙ ap (λ os. through s ++ accepted s.queue.closed os) none.1
            ∙ ap (λ l. through s ++ l) (accepted-nothing s.queue.closed)
            ∙ append-nil (through s)
            ∙ moves-through ms at_start,
      )
