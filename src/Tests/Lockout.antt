-- ===== src/Tests/Lockout.antt =====
-- Ten failures at the times 1 to 10, the tenth of which locks the email, and an unlock at 20.
use jewelry_backend.Common.{ℕ, ◌≡◌, refl, true, false, List, [], ◌∷◌, arith}
use jewelry_backend.Lockout.{
  AuthEvent, login_failed, account_locked, consecutive_failures, is_locked, last_at,
  record_failed_login, record_unlock,
}
use jewelry_backend.Lockout.Held.{record_unlock-is_locked, record_failed_login-is_locked}

abbrev failed_at : ℕ → AuthEvent
failed_at t = record { event_type = login_failed; occurred_at = t }

abbrev nine_failures : List AuthEvent
nine_failures =
    failed_at 9
    ∷ failed_at 8
    ∷ failed_at 7
    ∷ failed_at 6
    ∷ failed_at 5
    ∷ failed_at 4
    ∷ failed_at 3
    ∷ failed_at 2
    ∷ failed_at 1
    ∷ []

abbrev locked_log : List AuthEvent
locked_log = record { event_type = account_locked; occurred_at = 10 } ∷ failed_at 10 ∷ nine_failures

tenth_locks : record_failed_login 10 nine_failures ≡ locked_log
unfolding record_failed_login consecutive_failures last_at
tenth_locks = refl

ten_counted : consecutive_failures 10 (failed_at 10 ∷ nine_failures) ≡ 10
unfolding consecutive_failures last_at
ten_counted = refl

record_failed_login-is_locked_example : is_locked 11 (record_failed_login 10 nine_failures) ≡ true
record_failed_login-is_locked_example =
    record_failed_login-is_locked 10 11 nine_failures (omega (arith, ten_counted))
      (
        omega arith,
        (
          omega arith,
          (
            omega arith,
            (
              omega arith,
              (omega arith, (omega arith, (omega arith, (omega arith, (omega arith, tt))))),
            ),
          ),
        ),
      )
      (omega arith)

record_unlock-is_locked_example : is_locked 21 (record_unlock 20 locked_log) ≡ false
record_unlock-is_locked_example = record_unlock-is_locked 20 21 locked_log (
  omega arith,
  (
    omega arith,
    (
      omega arith,
      (
        omega arith,
        (
          omega arith,
          (
            omega arith,
            (omega arith, (omega arith, (omega arith, (omega arith, (omega arith, tt))))),
          ),
        ),
      ),
    ),
  ),
)
