-- ===== src/Http/Init/Once.antt =====
-- `global_init` of src/http_client.cpp initialises libcurl once.
use mathlib.Core.Path.{subst}
use audd_cpp.Prelude.{
  ℕ, suc, ◌≤◌, ◌≡◌, refl, sym, Bool, true, false, Option, none, some, List, [], ◌∷◌, if◌then◌else◌,
  arith,
}
use audd_cpp.Http.Init.{
  Pc, calling, locking, checking, initialising, storing, leaving, throwing, returned, Process,
  begin, advance, schedule,
}

-- How many of the calls of `curl_global_init` gave CURLE_OK.
abbrev pub successes : List Bool → ℕ
successes [] = 0
successes (true ∷ calls) = suc (successes calls)
successes (false ∷ calls) = successes calls

-- The places between the lock and the unlock.
abbrev pub is_inside : Pc → Bool
is_inside checking = true
is_inside initialising = true
is_inside storing = true
is_inside leaving = true
is_inside throwing = true
is_inside _ = false

-- The places that a thread reaches only with libcurl initialised.
abbrev pub is_ready : Pc → Bool
is_ready leaving = true
is_ready returned = true
is_ready _ = false

-- The places that a thread reaches only before the flag is set.
abbrev pub is_early : Pc → Bool
is_early initialising = true
is_early storing = true
is_early throwing = true
is_early _ = false

-- What is true of a thread.
pub record IsPlaced (initialized : Bool) (holder : Option ℕ) (i : ℕ) (p : Pc) : Type 0 where
  pub held : is_inside p ≡ true → holder ≡ some i
  pub ready : is_ready p ≡ true → initialized ≡ true
  pub inside : holder ≡ some i → is_inside p ≡ true
  pub early : is_early p ≡ true → initialized ≡ false

-- The successes that the flag does not show yet: that of a thread which is about to set it.
abbrev pub is_storing : Pc → ℕ
is_storing storing = 1
is_storing _ = 0

abbrev pub unset : Option ℕ → (ℕ → Pc) → ℕ
unset none pc = 0
unset (some i) pc = is_storing (pc i)

-- All calls before the last one failed.
abbrev pub IsFinal : List Bool → Type 0
IsFinal [] = Unit
IsFinal (works ∷ calls) = successes calls ≡ 0

pub record IsOnce (s : Process) : Type 0 where
  pub placed : (i : ℕ) → IsPlaced s.initialized s.holder i (s.pc i)
  pub final : IsFinal s.calls
  pub counted : successes s.calls ≡ (if s.initialized then 1 else unset s.holder s.pc)

begin-IsOnce : IsOnce begin
begin-IsOnce = record {
  placed = λ i. record { held = λ h. cc; ready = λ h. cc; inside = λ h. cc; early = λ h. cc };
  final = tt;
  counted = refl;
}

locking-calls : (works : Bool) (i : ℕ) (s : Process) → (advance works i locking s).calls ≡ s.calls
unfolding advance
locking-calls works i s = ground arith

advance-IsPlaced :
    (works : Bool) (i : ℕ) (p : Pc) (s : Process)
    → s.pc i ≡ p
    → IsOnce s
    → let t = advance works i p s in (j : ℕ) → IsPlaced t.initialized t.holder j (t.pc j)
unfolding advance
advance-IsPlaced works i calling s e c j = ground (arith, c.placed i, c.placed j)
advance-IsPlaced works i p s e c j = ground (arith, c.placed i, c.placed j)

advance-IsFinal :
    (works : Bool) (i : ℕ) (p : Pc) (s : Process)
    → s.pc i ≡ p
    → IsOnce s
    → IsFinal (advance works i p s).calls
unfolding advance
advance-IsFinal works i locking s e c = subst IsFinal (sym (locking-calls works i s)) (c.final)
advance-IsFinal works i initialising s e c = ground (arith, c.counted, c.placed i)
advance-IsFinal works i p s e c = c.final

advance-counted :
    (works : Bool) (i : ℕ) (p : Pc) (s : Process)
    → s.pc i ≡ p
    → IsOnce s
    → let t = advance works i p s in
      successes t.calls ≡ (if t.initialized then 1 else unset t.holder t.pc)
unfolding advance
advance-counted works i calling s e c = ground (arith, c.counted, c.placed i)
advance-counted works i p s e c = ground (arith, c.counted, c.placed i)

advance-IsOnce :
    (works : Bool) (i : ℕ) (s : Process) → IsOnce s → IsOnce (advance works i (s.pc i) s)
advance-IsOnce works i s c = record {
  placed = advance-IsPlaced works i (s.pc i) s refl c;
  final = advance-IsFinal works i (s.pc i) s refl c;
  counted = advance-counted works i (s.pc i) s refl c;
}

unset-le : (holder : Option ℕ) (pc : ℕ → Pc) → unset holder pc ≤ 1
unset-le none pc = omega arith
unset-le (some i) pc = ground arith

once_lem : (s : Process) → IsOnce s → successes s.calls ≤ 1
once_lem s c = ground (arith, c.counted, unset-le s.holder s.pc)

ready_lem :
    (s : Process)
    → IsOnce s
    → (i : ℕ) → s.pc i ≡ returned
    → (s.initialized ≡ true) × (successes s.calls ≡ 1)
ready_lem s c i e = ground (arith, c.counted, c.placed i)

schedule-IsOnce : (actions : List (ℕ × Bool)) (s : Process) → IsOnce s → IsOnce (schedule actions s)
unfolding schedule
schedule-IsOnce [] s c = c
schedule-IsOnce ((i, works) ∷ later) s c =
    schedule-IsOnce later (advance works i (s.pc i) s) (advance-IsOnce works i s c)

-- Whatever the order in which any number of threads take their turns in `global_init`, and whichever calls of
-- `curl_global_init` fail: one call at most succeeds, and none follows it; a thread that has returned does
-- so with libcurl initialised, by the one call; two threads are never between the lock and the unlock at
-- once; and the mutex is held only by a thread that is there, so an exception releases it.
pub schedule-once :
    (actions : List (ℕ × Bool))
    → let s = schedule actions begin in
      (successes s.calls ≤ 1)
      × IsFinal s.calls
      × ((i : ℕ) → s.pc i ≡ returned → (s.initialized ≡ true) × (successes s.calls ≡ 1))
      × ((i j : ℕ) → is_inside (s.pc i) ≡ true → is_inside (s.pc j) ≡ true → i ≡ j)
      × ((i : ℕ) → s.holder ≡ some i → is_inside (s.pc i) ≡ true)
schedule-once actions =
    let s = schedule actions begin in
    let c = schedule-IsOnce actions begin begin-IsOnce in
    (
      once_lem s c,
      c.final,
      λ i e. ready_lem s c i e,
      λ i j h k. ground (arith, (c.placed i).held h, (c.placed j).held k),
      λ i h. (c.placed i).inside h,
    )
