-- ===== src/Retry/Schedule.antt =====
-- Which calls and sleeps the retry helper (src/internal/retry.hpp) makes, read off a log.
use audd_cpp.Prelude.{
  ℕ, zero, suc, ◌*◌, ◌-◌, ◌≤◌, ◌≡◌, refl, ap, ◌∙◌, ◌⊎◌, inl, inr, true, false, List, [], ◌∷◌, ◌++◌,
  arith, length, All, Bool-cases,
}
use audd_cpp.Prelude.Int.{ℤ}
use audd_cpp.Error.{Result}
use audd_cpp.Retry.{Exec, RetryGate, retryable, attempts, retry_loop, retry_on_connection_error}
use mathlib.Core.List.{append_assoc}

-- What an observer of the call sees, in order.
pub data Step (A : Type 0) : Type 0 where
  called : Result A → Step A
  slept : ℕ → Step A

abbrev pub Logged : Type 0 → Type 0 → Type 0
Logged S A = S × List (Step A)

-- The sleeps double between the failed calls, and the last call ends it.
abbrev pub schedule : {A : Type 0} → ℕ → List (Result A) → Result A → List (Step A)
schedule wait [] last = called last ∷ []
schedule wait (r ∷ failed) last = called r ∷ slept wait ∷ schedule (wait * 2) failed last

module _ {S A : Type 0} (sleep : ℕ → S → S) (f : Exec S A) (gate : RetryGate) where
  abbrev pub logged_sleep : ℕ → Logged S A → Logged S A
  logged_sleep wait (s, log) = (sleep wait s, log ++ slept wait ∷ [])

  abbrev pub logged_call : Exec (Logged S A) A
  logged_call (s, log) = let (r, s') = f s in (r, (s', log ++ called r ∷ []))

  -- What the failed calls and the last one satisfy, with `left` attempts behind the first call.
  pub record Follows (left wait : ℕ) (log : List (Step A)) (run : Result A × Logged S A)
      : Type 0 where
    pub failed : List (Result A)
    pub in_order : run.1.1 ≡ log ++ schedule wait failed run.0
    pub each : All (λ r. retryable gate r ≡ true) failed
    pub few : length failed ≤ left
    pub stopped : (retryable gate run.0 ≡ false) ⊎ (length failed ≡ left)

  Follows-once :
      (left wait : ℕ) (s : S) (log : List (Step A))
      → (retryable gate (f s).0 ≡ false) ⊎ (0 ≡ left)
      → Follows left wait log (logged_call (s, log))
  Follows-once left wait s log why = record {
    failed = [];
    in_order = refl;
    each = tt;
    few = omega arith;
    stopped = why;
  }

  retry_loop-Follows :
      (left wait : ℕ) (s : S) (log : List (Step A))
      → Follows left wait log (retry_loop logged_sleep logged_call gate left wait (s, log))
  unfolding retry_loop
  retry_loop-Follows zero wait s log = Follows-once 0 wait s log (inr refl)
  retry_loop-Follows (suc left) wait s log = elim (Bool-cases (retryable gate (f s).0)) [
    | inr final ↦ rw final (Follows-once (suc left) wait s log (inl final))
    | inl again ↦
        let r = (f s).0 in
        let ih =
          retry_loop-Follows left (wait * 2) (sleep wait (f s).1)
            ((log ++ called r ∷ []) ++ slept wait ∷ []) in
        rw again (record {
          failed = r ∷ ih.failed;
          in_order = ih.in_order ∙ simp append_assoc;
          each = (again, ih.each);
          few = omega (arith, ih.few);
          stopped = elim ih.stopped [ inl done ↦ inl done | inr all ↦ inr (ap suc all) ];
        })
  ]

  -- The helper calls at most `attempts max_attempts` times. Every call but the last failed in a way that
  -- the gate lets pass, and was followed by a sleep, each twice as long as the one before; it stops at the
  -- first call that did not fail so, or with the attempts used up.
  pub retry_on_connection_error-Follows :
      (max_attempts : ℤ) (backoff : ℕ) (s : S)
      → Follows
          (attempts max_attempts - 1)
          backoff
          []
          (retry_on_connection_error logged_sleep logged_call gate max_attempts backoff (s, []))
  unfolding retry_on_connection_error
  retry_on_connection_error-Follows max_attempts backoff s =
      retry_loop-Follows (attempts max_attempts - 1) backoff s []

  retry_loop_unlogged :
      (left wait : ℕ) (s : S) (log : List (Step A))
      → let run = retry_loop logged_sleep logged_call gate left wait (s, log) in
        (run.0, run.1.0) ≡ retry_loop sleep f gate left wait s
  unfolding retry_loop
  retry_loop_unlogged zero wait s log = refl
  retry_loop_unlogged (suc left) wait s log = elim (Bool-cases (retryable gate (f s).0)) [
    | inr final ↦ rw final refl
    | inl again ↦ rw again (retry_loop_unlogged left (wait * 2) (sleep wait (f s).1) _)
  ]
