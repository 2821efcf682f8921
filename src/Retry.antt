-- ===== src/Retry.antt =====
-- src/internal/retry.hpp. A call that may throw and changes a state gives its result with the state
-- that it leaves.
pub mod Schedule
pub mod Keeps
pub mod Waits
mod Tests
use audd_cpp.Prelude.{ℕ, zero, suc, ◌+◌, ◌*◌, ◌-◌, Bool, true, false, if◌then◌else◌}
use audd_cpp.Prelude.Int.{ℤ, pos, pos_part, ltb_ℤ}
use audd_cpp.Error.{Exception, Result, audd, AudDError, connection, ok, err}

abbrev pub Exec {ℓ} : Type ℓ → Type ℓ → Type ℓ
Exec S A = S → Result A × S

pub data RetryGate : Type 0 where
  all_connection_errors pre_upload_only : RetryGate

abbrev pub passes : RetryGate → Bool → Bool
passes all_connection_errors before = true
passes pre_upload_only before = before

-- The exceptions that the handler catches and does not throw on, while attempts are left.
abbrev pub retryable {ℓ} : {A : Type ℓ} → RetryGate → Result A → Bool
retryable gate (err (audd (connection what before))) = passes gate before
retryable gate _ = false

-- `if (max_attempts < 1) max_attempts = 1`
abbrev pub attempts : ℤ → ℕ
attempts max_attempts = if ltb_ℤ max_attempts (pos 1) then 1 else pos_part max_attempts

module _ {ℓ} {S A : Type ℓ} (sleep : ℕ → S → S) (f : Exec S A) (gate : RetryGate) where
  abbrev pub retry_after : (S → Result A × S) → ℕ → Result A × S → Result A × S
  retry_after again wait (r, s) = if retryable gate r then again (sleep wait s) else (r, s)

  -- The loop with `left` attempts behind this one; with none left the exception is thrown on.
  unfoldable pub retry_loop : ℕ → ℕ → S → Result A × S
  retry_loop zero wait s = f s
  retry_loop (suc left) wait s = retry_after (retry_loop left (wait * 2)) wait (f s)

  unfoldable pub retry_on_connection_error : ℤ → ℕ → S → Result A × S
  unfolding retry_loop
  retry_on_connection_error max_attempts backoff = retry_loop (attempts max_attempts - 1) backoff
