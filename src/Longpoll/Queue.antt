-- ===== src/Longpoll/Queue.antt =====
-- `DemuxQueue` of src/longpoll.cpp. Each operation holds the mutex, so it is one step.
pub mod Wakes
use mathlib.Core.List.{append_assoc, append-nil}
use audd_cpp.Prelude.{◌≡◌, sym, ap, ◌∙◌, Bool, true, false, List, [], ◌∷◌, ◌++◌, if◌then◌else◌}

pub record DemuxQueue (T : Type 0) : Type 0 where
  pub q : List T
  pub closed : Bool

abbrev pub empty : {T : Type 0} → DemuxQueue T
empty = record { q = []; closed = false }

-- The end of a `pull`: a value, the end of the stream, or still waiting.
pub data Pulled (T : Type 0) : Type 0 where
  value : T → Pulled T
  ended waiting : Pulled T

module _ {T : Type 0} where
  unfoldable pub push : T → DemuxQueue T → DemuxQueue T
  push v d = if d.closed then d else record d { q = d.q ++ v ∷ [] }

  unfoldable pub close : DemuxQueue T → DemuxQueue T
  close d = record d { closed = true }

  abbrev pub pull_from : Bool → List T → Pulled T × DemuxQueue T
  pull_from closed (v ∷ q) = (value v, record { q = q; closed = closed })
  pull_from true [] = (ended, record { q = []; closed = true })
  pull_from false [] = (waiting, record { q = []; closed = false })

  -- One round of `pull`: with nothing queued it waits until a push or the close.
  unfoldable pub pull : DemuxQueue T → Pulled T × DemuxQueue T
  pull d = pull_from d.closed d.q

-- What the threads do to one queue, in the order in which they hold the mutex.
pub data Operation (T : Type 0) : Type 0 where
  pushes : T → Operation T
  closes pulls : Operation T

abbrev pub got : {T : Type 0} → Pulled T → List T → List T
got (value v) rest = v ∷ rest
got ended rest = rest
got waiting rest = rest

module _ {T : Type 0} where
  -- The values pulled, in order, and the queue that is left.
  unfoldable pub run_operations : List (Operation T) → DemuxQueue T → List T × DemuxQueue T
  unfolding push close pull
  run_operations [] d = ([], d)
  run_operations (pushes v ∷ ops) d = run_operations ops (push v d)
  run_operations (closes ∷ ops) d = run_operations ops (close d)
  run_operations (pulls ∷ ops) d =
      let (r, d') = pull d in let (vs, last) = run_operations ops d' in (got r vs, last)

  -- The values pushed before the first close.
  abbrev pub accepted : Bool → List (Operation T) → List T
  accepted true ops = []
  accepted false [] = []
  accepted false (pushes v ∷ ops) = v ∷ accepted false ops
  accepted false (closes ∷ ops) = []
  accepted false (pulls ∷ ops) = accepted false ops

  from_parts :
      (ops : List (Operation T)) (closed : Bool) (q : List T)
      → let d : DemuxQueue T = record { q = q; closed = closed } in
        (run_operations ops d).0 ++ (run_operations ops d).1.q ≡ q ++ accepted closed ops
  unfolding run_operations
  from_parts [] true q = sym (append-nil q)
  from_parts [] false q = sym (append-nil q)
  from_parts (pushes v ∷ ops) true q = from_parts ops true q
  from_parts (pushes v ∷ ops) false q =
      from_parts ops false (q ++ v ∷ []) ∙ append_assoc q (v ∷ []) (accepted false ops)
  from_parts (closes ∷ ops) true q = from_parts ops true q
  from_parts (closes ∷ ops) false q = from_parts ops true q
  from_parts (pulls ∷ ops) true [] = from_parts ops true []
  from_parts (pulls ∷ ops) false [] = from_parts ops false []
  from_parts (pulls ∷ ops) true (v ∷ q) = ap (λ l. v ∷ l) (from_parts ops true q)
  from_parts (pulls ∷ ops) false (v ∷ q) = ap (λ l. v ∷ l) (from_parts ops false q)

  -- Whatever the threads interleave, what was queued and what is pushed before the first close is pulled in
  -- that order, and what is not pulled yet is still queued: nothing is lost, added or reordered, and a close
  -- keeps what is queued.
  pub run_operations-accepted :
      (ops : List (Operation T)) (d : DemuxQueue T)
      → (run_operations ops d).0 ++ (run_operations ops d).1.q ≡ d.q ++ accepted d.closed ops
  run_operations-accepted ops d = from_parts ops d.closed d.q
