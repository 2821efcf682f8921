-- ===== src/Longpoll/Threads/Piped.antt =====
-- The values of one queue of src/longpoll.cpp on their way to the callback of `run`.
use mathlib.Core.List.{append_assoc, append-nil}
use audd_cpp.Prelude.{
  ◌≡◌, refl, sym, ap, ◌∙◌, Bool, true, false, List, [], ◌∷◌, ◌++◌, if◌then◌else◌,
}
use audd_cpp.Longpoll.Queue.{DemuxQueue, push, close, pull}
use audd_cpp.Longpoll.Threads.State.{Pump, pumped, accept}

abbrev pub in_hand : {T : Type 0} → Pump T → List T
in_hand (Pump.holding v) = v ∷ []
in_hand Pump.pulling = []
in_hand Pump.over = []

-- What was delivered, what a thread has in hand and what is queued is what was accepted, in that order.
abbrev pub IsTracked : {T : Type 0} → DemuxQueue T → List T → List T → List T → Type 0
IsTracked d hand accepted delivered = (delivered ++ hand) ++ d.q ≡ accepted

-- A thread ends behind the close of a queue that it has emptied.
abbrev pub IsDrained : {T : Type 0} → Pump T → DemuxQueue T → Type 0
IsDrained Pump.over d = (d.q ≡ []) × (d.closed ≡ true)
IsDrained Pump.pulling d = Unit
IsDrained (Pump.holding v) d = Unit

abbrev pub IsPiped : {T : Type 0} → DemuxQueue T → Pump T → List T → List T → Type 0
IsPiped d p accepted delivered = IsTracked d (in_hand p) accepted delivered × IsDrained p d

module _ {T : Type 0} where
  push_parts :
      (v : T) (q : List T) (c : Bool) (hand accepted delivered : List T)
      → let d : DemuxQueue T = record { q = q; closed = c } in
        IsTracked d hand accepted delivered
        → IsTracked (push v d) hand (accept c v accepted) delivered
  unfolding push
  push_parts v q true hand accepted delivered t = t
  push_parts v q false hand accepted delivered t =
      sym (append_assoc (delivered ++ hand) q (v ∷ [])) ∙ ap (λ l. l ++ v ∷ []) t

  pub push-IsTracked :
      (v : T) (d : DemuxQueue T) (hand accepted delivered : List T)
      → IsTracked d hand accepted delivered
      → IsTracked (push v d) hand (accept d.closed v accepted) delivered
  push-IsTracked v d = push_parts v d.q d.closed

  pub push-closed : (v : T) (d : DemuxQueue T) → d.closed ≡ true → push v d ≡ d
  unfolding push
  push-closed v d shut = ap (λ c. if c then d else record d { q = d.q ++ v ∷ [] }) shut

  pub push-IsPiped :
      (v : T) (d : DemuxQueue T) (p : Pump T) (accepted delivered : List T)
      → IsPiped d p accepted delivered
      → IsPiped (push v d) p (accept d.closed v accepted) delivered
  push-IsPiped v d Pump.pulling accepted delivered t =
      (push-IsTracked v d [] accepted delivered t.0, tt)
  push-IsPiped v d (Pump.holding w) accepted delivered t =
      (push-IsTracked v d (w ∷ []) accepted delivered t.0, tt)
  push-IsPiped v d Pump.over accepted delivered t = (
    push-IsTracked v d [] accepted delivered t.0,
    (
      ap (λ e. e.q) (push-closed v d t.1.1) ∙ t.1.0,
      ap (λ e. e.closed) (push-closed v d t.1.1) ∙ t.1.1,
    ),
  )

  pub close-IsPiped :
      (d : DemuxQueue T) (p : Pump T) (accepted delivered : List T)
      → IsPiped d p accepted delivered
      → IsPiped (close d) p accepted delivered
  unfolding close
  close-IsPiped d Pump.pulling accepted delivered t = t
  close-IsPiped d (Pump.holding w) accepted delivered t = t
  close-IsPiped d Pump.over accepted delivered t = (t.0, (t.1.0, refl))

  pub next_in_hand :
      (v : T) (q : List T) (accepted delivered : List T)
      → (delivered ++ []) ++ v ∷ q ≡ accepted
      → (delivered ++ v ∷ []) ++ q ≡ accepted
  next_in_hand v q accepted delivered t =
      append_assoc delivered (v ∷ []) q ∙ ap (λ l. l ++ v ∷ q) (sym (append-nil delivered)) ∙ t

  pull_parts :
      (q : List T) (c : Bool) (accepted delivered : List T)
      → let d : DemuxQueue T = record { q = q; closed = c } in
        IsPiped d Pump.pulling accepted delivered
        → IsPiped (pull d).1 (pumped (pull d).0) accepted delivered
  unfolding pull
  pull_parts [] true accepted delivered t = (t.0, (refl, refl))
  pull_parts [] false accepted delivered t = t
  pull_parts (v ∷ q) c accepted delivered t = (next_in_hand v q accepted delivered t.0, tt)

  pub pull-IsPiped :
      (d : DemuxQueue T) (accepted delivered : List T)
      → IsPiped d Pump.pulling accepted delivered
      → IsPiped (pull d).1 (pumped (pull d).0) accepted delivered
  unfolding pull
  pull-IsPiped d = pull_parts d.q d.closed

  pub give-IsTracked :
      (v : T) (d : DemuxQueue T) (accepted delivered : List T)
      → IsTracked d (v ∷ []) accepted delivered
      → IsTracked d [] accepted (delivered ++ v ∷ [])
  give-IsTracked v d accepted delivered t =
      ap (λ l. l ++ d.q) (append-nil (delivered ++ v ∷ [])) ∙ t
