-- ===== src/Longpoll/Handle.antt =====
-- The class `LongpollPoll` of include/audd/longpoll.hpp and src/longpoll.cpp: a subscription, or nothing
-- where it has been moved from.
use audd_cpp.Prelude.{ℕ, zero, suc, ◌≡◌, refl, ap, ◌∙◌, true, Option, none, some, List, [], ◌∷◌}
use audd_cpp.Error.{Exception}
use audd_cpp.Parse.Songs.{StreamCallbackMatch, StreamCallbackNotification}
use audd_cpp.Longpoll.{Poll, close_all}
use audd_cpp.Longpoll.Queue.{close, Pulled, value, ended, pull}

pub record LongpollPoll (D : Type 0) : Type 0 where
  pub impl : Option (Poll D)

module _ {D : Type 0} where
  -- `LongpollPoll()`, which is what a move leaves behind, too.
  abbrev pub empty_handle : LongpollPoll D
  empty_handle = record { impl = none }

  -- The new handle and the old one.
  unfoldable pub move_handle : LongpollPoll D → LongpollPoll D × LongpollPoll D
  move_handle h = (record { impl = h.impl }, empty_handle)

  unfoldable pub close_handle : LongpollPoll D → LongpollPoll D
  unfolding close_all
  close_handle h = elim h.impl [ none ↦ h | some p ↦ record { impl = some (close_all p) } ]

  -- `waiting` is a call that has not returned yet.
  unfoldable pub next_match : LongpollPoll D → Pulled (StreamCallbackMatch D) × LongpollPoll D
  unfolding pull
  next_match h = elim h.impl [
    | none ↦ (ended, h)
    | some p ↦ let (r, q) = pull p.matches in (r, record { impl = some (record p { matches = q }) })
  ]

  unfoldable pub next_notification :
      LongpollPoll D → Pulled (StreamCallbackNotification D) × LongpollPoll D
  unfolding pull
  next_notification h = elim h.impl [
    | none ↦ (ended, h)
    | some p ↦
        let (r, q) = pull p.notifications in
        (r, record { impl = some (record p { notifications = q }) })
  ]

  unfoldable pub next_error : LongpollPoll D → Pulled Exception × LongpollPoll D
  unfolding pull
  next_error h = elim h.impl [
    | none ↦ (ended, h)
    | some p ↦ let (r, q) = pull p.errors in (r, record { impl = some (record p { errors = q }) })
  ]

-- What `k` calls of one `next_` method return.
abbrev pub calls : {T H : Type 0} → (H → Pulled T × H) → ℕ → H → List (Pulled T)
calls next zero h = []
calls next (suc k) h = let (r, h') = next h in r ∷ calls next k h'

-- What is queued, in order, and then the end for ever.
abbrev pub then_ended : {T : Type 0} → ℕ → List T → List (Pulled T)
then_ended zero q = []
then_ended (suc k) [] = ended ∷ then_ended k []
then_ended (suc k) (v ∷ q) = value v ∷ then_ended k q

module _ {T H : Type 0} (next : H → Pulled T × H) where
  -- A handle that is stuck at the end returns it each time.
  calls_ended : (k : ℕ) (h : H) → next h ≡ (ended, h) → calls next k h ≡ then_ended k []
  calls_ended zero h e = refl
  calls_ended (suc k) h e =
      ap (λ (r : Pulled T × H). r.0 ∷ calls next k r.1) e ∙ ap (λ l. ended ∷ l) (calls_ended k h e)

module _ {D : Type 0} where
  closed_matches :
      (k : ℕ) (p : Poll D) (q : List (StreamCallbackMatch D))
      → calls next_match k
          (record { impl = some (record p { matches = record { q = q; closed = true } }) })
        ≡ then_ended k q
  unfolding next_match pull
  closed_matches zero p q = refl
  closed_matches (suc k) p [] = ap (λ l. ended ∷ l) (closed_matches k p [])
  closed_matches (suc k) p (v ∷ q) = ap (λ l. value v ∷ l) (closed_matches k p q)

  closed_notifications :
      (k : ℕ) (p : Poll D) (q : List (StreamCallbackNotification D))
      → calls next_notification k
          (record { impl = some (record p { notifications = record { q = q; closed = true } }) })
        ≡ then_ended k q
  unfolding next_notification pull
  closed_notifications zero p q = refl
  closed_notifications (suc k) p [] = ap (λ l. ended ∷ l) (closed_notifications k p [])
  closed_notifications (suc k) p (v ∷ q) = ap (λ l. value v ∷ l) (closed_notifications k p q)

  closed_errors :
      (k : ℕ) (p : Poll D) (q : List Exception)
      → calls next_error k
          (record { impl = some (record p { errors = record { q = q; closed = true } }) })
        ≡ then_ended k q
  unfolding next_error pull
  closed_errors zero p q = refl
  closed_errors (suc k) p [] = ap (λ l. ended ∷ l) (closed_errors k p [])
  closed_errors (suc k) p (v ∷ q) = ap (λ l. value v ∷ l) (closed_errors k p q)

  -- The queues of a handle, which are empty where it was moved from.
  abbrev pub queued_matches : LongpollPoll D → List (StreamCallbackMatch D)
  queued_matches h = elim h.impl [ none ↦ [] | some p ↦ p.matches.q ]

  abbrev pub queued_notifications : LongpollPoll D → List (StreamCallbackNotification D)
  queued_notifications h = elim h.impl [ none ↦ [] | some p ↦ p.notifications.q ]

  abbrev pub queued_errors : LongpollPoll D → List Exception
  queued_errors h = elim h.impl [ none ↦ [] | some p ↦ p.errors.q ]

  moved_from :
      (k : ℕ)
      → (calls next_match k (empty_handle {D = D}) ≡ then_ended k [])
        × (calls next_notification k (empty_handle {D = D}) ≡ then_ended k [])
        × (calls next_error k (empty_handle {D = D}) ≡ then_ended k [])
  unfolding next_match next_notification next_error
  moved_from k = (
    calls_ended next_match k empty_handle refl,
    calls_ended next_notification k empty_handle refl,
    calls_ended next_error k empty_handle refl,
  )

  closed_calls :
      (k : ℕ) (impl : Option (Poll D))
      → let c = close_handle (record { impl = impl }) in
        (calls next_match k c ≡ then_ended k (queued_matches (record { impl = impl })))
        × (calls next_notification k c
            ≡ then_ended k (queued_notifications (record { impl = impl })))
        × (calls next_error k c ≡ then_ended k (queued_errors (record { impl = impl })))
  unfolding close_handle close_all close
  closed_calls k none = moved_from k
  closed_calls k (some p) = (
    closed_matches k (close_all p) p.matches.q,
    closed_notifications k (close_all p) p.notifications.q,
    closed_errors k (close_all p) p.errors.q,
  )

  -- Once a handle is closed no call of the three `next_` methods waits: however many follow, each method
  -- returns what was queued for it, in order, and then the end each time; a handle that was moved from
  -- does so, too, with nothing queued, and the one that it was moved to has its queues.
  pub calls-close_handle :
      (k : ℕ) (h : LongpollPoll D)
      → let c = close_handle (move_handle h).0 in
        (calls next_match k c ≡ then_ended k (queued_matches h))
        × (calls next_notification k c ≡ then_ended k (queued_notifications h))
        × (calls next_error k c ≡ then_ended k (queued_errors h))
        × (calls next_match k (move_handle h).1 ≡ then_ended k [])
        × (calls next_notification k (move_handle h).1 ≡ then_ended k [])
        × (calls next_error k (move_handle h).1 ≡ then_ended k [])
        × (close_handle (move_handle h).1 ≡ (move_handle h).1)
  unfolding close_handle move_handle
  calls-close_handle k h =
      let closed = closed_calls k h.impl in
      let left = moved_from k in (closed.0, closed.1, closed.2, left.0, left.1, left.2, refl)
