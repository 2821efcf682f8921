-- ===== src/Retry/Tests.antt =====
-- Examples of the retry helper.
use audd_cpp.Prelude.{
  ℕ, ◌*◌, ◌^◌, ◌≤◌, ◌≡◌, refl, List, ◌∷◌, All, ◌+◌, ◌-◌, ◌==◌, if◌then◌else◌, [], true,
}
use audd_cpp.Prelude.Int.{pos}
use audd_cpp.Error.{Result, ok, err, audd, connection}
use audd_cpp.Retry.{Exec, all_connection_errors, attempts, retry_on_connection_error}
use audd_cpp.Retry.Schedule.{Step, Follows, logged_sleep, logged_call}
use audd_cpp.Retry.Waits.{waits, total, retry_on_connection_error-waits}

-- A call that fails twice; the state counts the calls.
abbrev third_time : Exec ℕ ℕ
third_time n = (if n == 2 then ok n else err (audd (connection [] true)), n + 1)

abbrev no_sleep : ℕ → ℕ → ℕ
no_sleep wait n = n

abbrev run : Result ℕ × (ℕ × List (Step ℕ))
run =
    retry_on_connection_error (logged_sleep no_sleep third_time all_connection_errors)
      (logged_call no_sleep third_time all_connection_errors) all_connection_errors (pos 3) 500
      (0, [])

two_waits : waits run.1.1 ≡ 500 ∷ 1000 ∷ []
unfolding retry_on_connection_error
two_waits = refl

retry_on_connection_error-waits_example :
    Follows no_sleep third_time all_connection_errors (attempts (pos 3) - 1) 500 [] run
    × All (λ w. w * 2 ≤ 500 * 2 ^ (attempts (pos 3) - 1)) (waits run.1.1)
    × (total (waits run.1.1) + 500 ≤ 500 * 2 ^ (attempts (pos 3) - 1))
retry_on_connection_error-waits_example =
    retry_on_connection_error-waits no_sleep third_time all_connection_errors (pos 3) 500 0
