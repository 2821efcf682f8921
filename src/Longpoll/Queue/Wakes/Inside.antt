-- ===== src/Longpoll/Queue/Wakes/Inside.antt =====
-- What became of the calls of `pull` and of the values pushed, in `DemuxQueue` of src/longpoll.cpp.
use mathlib.Core.List.{append_assoc, append-nil}
use audd_cpp.Prelude.{
  ℕ, zero, suc, ◌+◌, ◌≡◌, refl, sym, ap, ◌∙◌, Bool, true, false, List, [], ◌∷◌, ◌++◌, length, arith,
}
use audd_cpp.Longpoll.Queue.{DemuxQueue, Operation, push, close, pull_from, accepted}
use audd_cpp.Longpoll.Queue.Wakes.{
  Waits, Move, pushes, closes, pulls, notifies_one, notifies_all, resumes, stirs, looked, wake_one,
  notify_one, notify_all, resume, move, moves, pull_calls, operations,
}
use audd_cpp.Longpoll.Queue.Wakes.Awake.{length-push}

module _ {T : Type 0} where
  -- The threads in `pull`, and the values that went through the queue.
  abbrev pub inside : Waits T → ℕ
  inside s = length s.taken + s.ends + s.asleep + s.woken

  abbrev pub through : Waits T → List T
  through s = s.taken ++ s.queue.q

  looked-inside :
      (closed : Bool) (q : List T) (s : Waits T)
      → inside (looked (pull_from closed q) s) ≡ suc (inside s)
  looked-inside closed (v ∷ q) s = ground (arith, length-push v s.taken)
  looked-inside true [] s = ground arith
  looked-inside false [] s = ground arith

  looked-through :
      (closed : Bool) (q : List T) (s : Waits T)
      → (through (looked (pull_from closed q) s) ≡ s.taken ++ q)
        × ((looked (pull_from closed q) s).queue.closed ≡ closed)
  looked-through closed (v ∷ q) s = (append_assoc s.taken (v ∷ []) q, refl)
  looked-through true [] s = (refl, refl)
  looked-through false [] s = (refl, refl)

  wake_one-inside : (n : ℕ) (s : Waits T) → s.asleep ≡ n → inside (wake_one n s) ≡ inside s
  wake_one-inside zero s e = refl
  wake_one-inside (suc n) s e = ground (arith, e)

  notify_one-inside : (n : ℕ) (s : Waits T) → inside (notify_one n s) ≡ inside s
  notify_one-inside zero s = refl
  notify_one-inside (suc n) s = wake_one-inside s.asleep (record s { pushed = n }) refl

  notify_all-inside : (n : ℕ) (s : Waits T) → inside (notify_all n s) ≡ inside s
  notify_all-inside zero s = refl
  notify_all-inside (suc n) s = ground arith

  resume-inside : (n : ℕ) (s : Waits T) → s.woken ≡ n → inside (resume n s) ≡ inside s
  resume-inside zero s e = refl
  resume-inside (suc n) s e =
      looked-inside s.queue.closed s.queue.q (record s { woken = n }) ∙ ground (arith, e)

  pub moves-inside :
      (ms : List (Move T)) (s : Waits T) → inside (moves ms s) ≡ inside s + pull_calls ms
  unfolding moves move
  moves-inside [] s = ground arith
  moves-inside (pushes v ∷ later) s = moves-inside later (move (pushes v) s)
  moves-inside (closes ∷ later) s = moves-inside later (move closes s)
  moves-inside (pulls ∷ later) s =
      ground (arith, moves-inside later (move pulls s), looked-inside s.queue.closed s.queue.q s)
  moves-inside (notifies_one ∷ later) s =
      moves-inside later (move notifies_one s)
      ∙ ap (λ n. n + pull_calls later) (notify_one-inside s.pushed s)
  moves-inside (notifies_all ∷ later) s =
      moves-inside later (move notifies_all s)
      ∙ ap (λ n. n + pull_calls later) (notify_all-inside s.closing s)
  moves-inside (resumes ∷ later) s =
      moves-inside later (move resumes s)
      ∙ ap (λ n. n + pull_calls later) (resume-inside s.woken s refl)
  moves-inside (stirs ∷ later) s =
      moves-inside later (move stirs s)
      ∙ ap (λ n. n + pull_calls later) (wake_one-inside s.asleep s refl)

  -- A step that puts nothing on the queue and does not close it.
  abbrev Keeps : Waits T → Waits T → Type 0
  Keeps t s = (through t ≡ through s) × (t.queue.closed ≡ s.queue.closed)

  wake_one-Keeps : (n : ℕ) (s : Waits T) → Keeps (wake_one n s) s
  wake_one-Keeps zero s = (refl, refl)
  wake_one-Keeps (suc n) s = (refl, refl)

  notify_one-Keeps : (n : ℕ) (s : Waits T) → Keeps (notify_one n s) s
  notify_one-Keeps zero s = (refl, refl)
  notify_one-Keeps (suc n) s = wake_one-Keeps s.asleep (record s { pushed = n })

  notify_all-Keeps : (n : ℕ) (s : Waits T) → Keeps (notify_all n s) s
  notify_all-Keeps zero s = (refl, refl)
  notify_all-Keeps (suc n) s = (refl, refl)

  resume-Keeps : (n : ℕ) (s : Waits T) → Keeps (resume n s) s
  resume-Keeps zero s = (refl, refl)
  resume-Keeps (suc n) s = looked-through s.queue.closed s.queue.q (record s { woken = n })

  accepted-closes :
      (closed : Bool) (os : List (Operation T)) → accepted closed (Operation.closes ∷ os) ≡ []
  accepted-closes true os = refl
  accepted-closes false os = refl

  pub accepted-nothing : (closed : Bool) → accepted {T = T} closed [] ≡ []
  accepted-nothing true = refl
  accepted-nothing false = refl

  -- The queue behind a step that keeps it, and the rest of a schedule.
  kept_lem :
      (t s : Waits T) (later : List (Move T))
      → Keeps t s
      → through (moves later t) ≡ through t ++ accepted t.queue.closed (operations later)
      → through (moves later t) ≡ through s ++ accepted s.queue.closed (operations later)
  kept_lem t s later k e =
      e
      ∙ ap (λ l. l ++ accepted t.queue.closed (operations later)) k.0
      ∙ ap (λ b. through s ++ accepted b (operations later)) k.1

  push-through :
      (v : T) (closed : Bool) (q front : List T) (os : List (Operation T))
      → let d : DemuxQueue T = push v (record { q = q; closed = closed }) in
        (front ++ d.q) ++ accepted d.closed os
        ≡ (front ++ q) ++ accepted closed (Operation.pushes v ∷ os)
  unfolding push
  push-through v true q front os = refl
  push-through v false q front os =
      ap (λ l. l ++ accepted false os) (sym (append_assoc front q (v ∷ [])))
      ∙ append_assoc (front ++ q) (v ∷ []) (accepted false os)

  pub moves-through :
      (ms : List (Move T)) (s : Waits T)
      → through (moves ms s) ≡ through s ++ accepted s.queue.closed (operations ms)
  unfolding moves move close
  moves-through [] s =
      sym (append-nil (through s))
      ∙ ap (λ l. through s ++ l) (sym (accepted-nothing s.queue.closed))
  moves-through (pushes v ∷ later) s =
      moves-through later (move (pushes v) s)
      ∙ push-through v s.queue.closed s.queue.q s.taken (operations later)
  moves-through (closes ∷ later) s =
      moves-through later (move closes s)
      ∙ ap (λ l. through s ++ l) (sym (accepted-closes s.queue.closed (operations later)))
  moves-through (pulls ∷ later) s =
      kept_lem (move pulls s) s later (looked-through s.queue.closed s.queue.q s)
        (moves-through later (move pulls s))
  moves-through (notifies_one ∷ later) s =
      kept_lem (move notifies_one s) s later (notify_one-Keeps s.pushed s)
        (moves-through later (move notifies_one s))
  moves-through (notifies_all ∷ later) s =
      kept_lem (move notifies_all s) s later (notify_all-Keeps s.closing s)
        (moves-through later (move notifies_all s))
  moves-through (resumes ∷ later) s =
      kept_lem (move resumes s) s later (resume-Keeps s.woken s)
        (moves-through later (move resumes s))
  moves-through (stirs ∷ later) s =
      kept_lem (move stirs s) s later (wake_one-Keeps s.asleep s)
        (moves-through later (move stirs s))
