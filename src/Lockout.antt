-- ===== src/Lockout.antt =====
-- The lockout of a login after repeated failures: app/core/login_lockout.py. The log is the rows of
-- `auth_audit_log` of one claimed email, lower-cased and trimmed, the newest first; times are in
-- microseconds, as the database keeps them. The row of a failure, the count and the row of a lock read
-- one clock; the hash columns of the rows and a failed write, which is rolled back, are left out.
pub mod Held
use jewelry_backend.Common.{
  ℕ, ◌+◌, ◌*◌, Bool, true, false, ◌&&◌, ◌||◌, not, List, [], ◌∷◌, Option, none, some, ltb, leb, max,
  if◌then◌else◌, count_if,
}

pub data Event : Type 0 where
  login_failed login_success account_locked account_unlocked : Event

abbrev pub is_failed : Event → Bool
is_failed login_failed = true
is_failed _ = false

abbrev pub is_lock : Event → Bool
is_lock account_locked = true
is_lock _ = false

abbrev pub is_unlock : Event → Bool
is_unlock account_unlocked = true
is_unlock _ = false

-- The events that start the count again.
abbrev pub is_reset : Event → Bool
is_reset login_failed = false
is_reset _ = true

pub record AuthEvent : Type 0 where
  pub event_type : Event
  pub occurred_at : ℕ

abbrev pub lockout_threshold : ℕ
lockout_threshold = 10

-- Fifteen minutes.
abbrev pub lockout_window : ℕ
lockout_window = 900_000_000

abbrev pub lockout_duration : ℕ
lockout_duration = 900_000_000

-- `occurred_at > now - span`
abbrev pub within : ℕ → ℕ → AuthEvent → Bool
within span now e = ltb now (e.occurred_at + span)

-- `max(occurred_at)` of the rows that pass a test, `None` where there is none.
unfoldable pub last_at : (AuthEvent → Bool) → List AuthEvent → Option ℕ
last_at test [] = none
last_at test (e ∷ log) = elim (last_at test log) [
  | none ↦ if test e then some e.occurred_at else none
  | some t ↦ if test e then some (max e.occurred_at t) else some t
]

-- `or_(last.is_(None), occurred_at > last)`
abbrev pub after : Option ℕ → AuthEvent → Bool
after none e = true
after (some t) e = ltb t e.occurred_at

abbrev pub any_of : (AuthEvent → Bool) → List AuthEvent → Bool
any_of test [] = false
any_of test (e ∷ log) = test e || any_of test log

unfoldable pub is_locked : ℕ → List AuthEvent → Bool
is_locked now log =
    let last_unlock = last_at (λ e. is_unlock e.event_type && within lockout_duration now e) log in
    any_of (λ e. is_lock e.event_type && (within lockout_duration now e && after last_unlock e)) log

unfoldable pub consecutive_failures : ℕ → List AuthEvent → ℕ
consecutive_failures now log =
    let last_reset = last_at (λ e. is_reset e.event_type && within lockout_window now e) log in
    count_if (λ e. is_failed e.event_type && (within lockout_window now e && after last_reset e))
      log

-- The row of a failed login, then the row of the lock where that failure was one too many. Both
-- rows and the count read one clock.
unfoldable pub record_failed_login : ℕ → List AuthEvent → List AuthEvent
record_failed_login now log =
    let failed = record { event_type = login_failed; occurred_at = now } ∷ log in
    if leb lockout_threshold (consecutive_failures now failed)
    then record { event_type = account_locked; occurred_at = now } ∷ failed
    else failed

unfoldable pub record_unlock : ℕ → List AuthEvent → List AuthEvent
record_unlock now log = record { event_type = account_unlocked; occurred_at = now } ∷ log
