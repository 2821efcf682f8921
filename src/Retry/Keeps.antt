-- ===== src/Retry/Keeps.antt =====
-- What the calls and the sleeps leave alone, the retry helper (src/internal/retry.hpp) leaves alone.
use audd_cpp.Prelude.{ℕ, zero, suc, ◌*◌, ◌-◌, ◌≡◌, ◌∙◌, Bool-cases, inl, inr}
use audd_cpp.Prelude.Int.{ℤ}
use audd_cpp.Retry.{Exec, RetryGate, retryable, attempts, retry_loop, retry_on_connection_error}

module _ {S A X : Type 0} (sleep : ℕ → S → S) (f : Exec S A) (gate : RetryGate) (view : S → X)
    (sleep_keeps : (wait : ℕ) (s : S) → view (sleep wait s) ≡ view s)
    (call_keeps : (s : S) → view (f s).1 ≡ view s) where
  retry_loop-keeps : (left wait : ℕ) (s : S) → view (retry_loop sleep f gate left wait s).1 ≡ view s
  unfolding retry_loop
  retry_loop-keeps zero wait s = call_keeps s
  retry_loop-keeps (suc left) wait s = elim (Bool-cases (retryable gate (f s).0)) [
    | inr final ↦ rw final (call_keeps s)
    | inl again ↦ rw again (
        retry_loop-keeps left (wait * 2) (sleep wait (f s).1)
        ∙ sleep_keeps wait (f s).1
        ∙ call_keeps s)
  ]

  pub retry_on_connection_error-keeps :
      (max_attempts : ℤ) (backoff : ℕ) (s : S)
      → view (retry_on_connection_error sleep f gate max_attempts backoff s).1 ≡ view s
  unfolding retry_on_connection_error
  retry_on_connection_error-keeps max_attempts backoff s =
      retry_loop-keeps (attempts max_attempts - 1) backoff s
