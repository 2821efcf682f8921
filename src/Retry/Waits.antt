-- ===== src/Retry/Waits.antt =====
-- How long the retry helper (src/internal/retry.hpp) sleeps.
use native.Mathlib.Nat.{mul_assoc}
use native.Mathlib.Omega.{pow_step}
use audd_cpp.Prelude.{
  ℕ, zero, suc, ◌+◌, ◌*◌, ◌-◌, ◌^◌, ◌≤◌, ◌≡◌, ap, ◌∙◌, sym, List, [], ◌∷◌, arith, length, All,
}
use audd_cpp.Prelude.Int.{ℤ}
use audd_cpp.Error.{Result}
use audd_cpp.Retry.{Exec, RetryGate, attempts, retry_on_connection_error}
use audd_cpp.Retry.Schedule.{
  Step, called, slept, schedule, Follows, logged_sleep, logged_call,
  retry_on_connection_error-Follows,
}

abbrev pub waits : {A : Type 0} → List (Step A) → List ℕ
waits [] = []
waits (called r ∷ log) = waits log
waits (slept wait ∷ log) = wait ∷ waits log

abbrev pub total : List ℕ → ℕ
total [] = 0
total (n ∷ later) = n + total later

-- A wait that is doubled `n` times.
abbrev doubled : ℕ → ℕ → ℕ
doubled zero wait = wait
doubled (suc n) wait = doubled n (wait * 2)

doubled_lem : (n wait : ℕ) → doubled n wait ≡ wait * 2 ^ n
doubled_lem zero wait = omega arith
doubled_lem (suc n) wait =
    doubled_lem n (wait * 2) ∙ mul_assoc wait 2 (2 ^ n) ∙ ap (λ k. wait * k) (sym (pow_step 2 n))

doubled-rises : (n wait : ℕ) → wait ≤ doubled n wait
doubled-rises zero wait = omega arith
doubled-rises (suc n) wait = omega (arith, doubled-rises n (wait * 2))

-- `n` attempts are left behind the first.
schedule-waits :
    {A : Type 0} (n wait : ℕ) (failed : List (Result A)) (last : Result A)
    → length failed ≤ n
    → All (λ w. w * 2 ≤ doubled n wait) (waits (schedule wait failed last))
      × (total (waits (schedule wait failed last)) + wait ≤ doubled n wait)
schedule-waits n wait [] last h = (tt, omega (arith, doubled-rises n wait))
schedule-waits zero wait (r ∷ failed) last h = absurd (ground (arith, h))
schedule-waits (suc n) wait (r ∷ failed) last h =
    let later = schedule-waits n (wait * 2) failed last (omega (arith, h)) in
    ((doubled-rises n (wait * 2), later.0), omega (arith, later.1))

module _ {S A : Type 0} (sleep : ℕ → S → S) (f : Exec S A) (gate : RetryGate) where
  Follows-waits :
      (left wait : ℕ) (run : Result A × (S × List (Step A)))
      → Follows sleep f gate left wait [] run
      → All (λ w. w * 2 ≤ wait * 2 ^ left) (waits run.1.1)
        × (total (waits run.1.1) + wait ≤ wait * 2 ^ left)
  Follows-waits left wait run c =
      rw (c.in_order, sym (doubled_lem left wait)) (schedule-waits left wait c.failed run.0 c.few)

  -- The helper calls at most `attempts max_attempts` times. Every call but the last failed in a way that
  -- the gate lets pass, and was followed by a sleep, each twice as long as the one before; it stops at the
  -- first call that did not fail so, or with the attempts used up. With the first wait `backoff` and `k`
  -- attempts behind the first, no wait is above `backoff * 2 ^ k` when it is doubled once more, and all the
  -- sleeps together are at most that, less `backoff`.
  pub retry_on_connection_error-waits :
      (max_attempts : ℤ) (backoff : ℕ) (s : S)
      → let left = attempts max_attempts - 1 in
        let run =
          retry_on_connection_error
            (logged_sleep sleep f gate)
            (logged_call sleep f gate)
            gate
            max_attempts
            backoff
            (s, []) in
        Follows sleep f gate left backoff [] run
        × All (λ w. w * 2 ≤ backoff * 2 ^ left) (waits run.1.1)
        × (total (waits run.1.1) + backoff ≤ backoff * 2 ^ left)
  retry_on_connection_error-waits max_attempts backoff s =
      let run = retry_on_connection_error-Follows sleep f gate max_attempts backoff s in
      let bounds = Follows-waits _ backoff _ run in (run, bounds.0, bounds.1)
