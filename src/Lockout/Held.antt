-- ===== src/Lockout/Held.antt =====
-- When a lock holds and what ends it, and the count of failures: app/core/login_lockout.py.
use jewelry_backend.Common.{
  ℕ, suc, ◌+◌, ◌≤◌, ◌<◌, ◌≡◌, refl, ap, Bool, true, false, ◌&&◌, List, [], ◌∷◌, some, arith, ltb,
  leb, count_if, All, All-map, Bool-cases, Option-cases, inl, inr,
}
use jewelry_backend.Lockout.{
  AuthEvent, is_failed, is_reset, is_lock, is_unlock, login_failed, account_locked,
  account_unlocked, lockout_duration, lockout_window, lockout_threshold, within, last_at, after,
  any_of, is_locked, consecutive_failures, record_failed_login, record_unlock,
}

-- Every row is of a time up to `t`.
abbrev pub IsUpTo : ℕ → List AuthEvent → Type 0
IsUpTo t = All (λ e. e.occurred_at ≤ t)

last_at_below :
    (test : AuthEvent → Bool) (t s : ℕ) (log : List AuthEvent)
    → All (λ e. e.occurred_at < t) log
    → last_at test log ≡ some s
    → s < t
unfolding last_at
last_at_below test t s [] up h = cc
last_at_below test t s (e ∷ log) up h = elim (Option-cases (last_at test log)) [
  | inl no_row ↦ ground (arith, no_row)
  | inr (u, row) ↦ ground (arith, row, last_at_below test t u log up.1 row)
]

last_at_bound :
    (test : AuthEvent → Bool) (t s : ℕ) (log : List AuthEvent)
    → IsUpTo t log
    → last_at test log ≡ some s
    → s ≤ t
last_at_bound test t s log up h =
    let below = last_at_below test (suc t) s log (All-map _ _ (λ e bound. omega arith) log up) h in
    omega arith

-- A row that passes the test and is not older than any other is the last.
last_at_head :
    (test : AuthEvent → Bool) (e : AuthEvent) (log : List AuthEvent)
    → IsUpTo e.occurred_at log
    → test e ≡ true
    → last_at test (e ∷ log) ≡ some e.occurred_at
unfolding last_at
last_at_head test e log up passes = elim (Option-cases (last_at test log)) [
  | inl no_row ↦ rw (no_row, passes) refl
  | inr (u, row) ↦
      let bound = last_at_bound test e.occurred_at u log up row in
      rw (row, passes) (ap some (ground arith))
]

any_of_none :
    (test : AuthEvent → Bool) (log : List AuthEvent)
    → All (λ e. test e ≡ false) log
    → any_of test log ≡ false
any_of_none test [] h = refl
any_of_none test (e ∷ log) h = rw h.0 (any_of_none test log h.1)

count_if_none :
    (test : AuthEvent → Bool) (log : List AuthEvent)
    → All (λ e. test e ≡ false) log
    → count_if test log ≡ 0
count_if_none test [] h = refl
count_if_none test (e ∷ log) h = ground (arith, h.0, count_if_none test log h.1)

-- A row up to the time of a mark is out of the span, or is not after the mark.
not_after :
    (mark : AuthEvent → Bool) (marked : AuthEvent) (span now : ℕ) (kind : Bool) (e : AuthEvent)
    (log : List AuthEvent)
    → IsUpTo marked.occurred_at log
    → mark marked ≡ true
    → e.occurred_at ≤ marked.occurred_at
    → (kind
        && (within span now e
            && after (last_at (λ x. mark x && within span now x) (marked ∷ log)) e))
      ≡ false
not_after mark marked span now kind e log up is_mark earlier =
    elim (Bool-cases (within span now marked)) [
      | inl recent ↦
          rw
            (last_at_head (λ x. mark x && within span now x) marked log up
              (rw (is_mark, recent) refl))
            (ground arith)
      | inr old ↦ ground arith
    ]

not_after-All :
    (mark : AuthEvent → Bool) (marked : AuthEvent) (span now : ℕ) (kind : AuthEvent → Bool)
    (log : List AuthEvent)
    → IsUpTo marked.occurred_at log
    → mark marked ≡ true
    → All
        (λ e.
          (kind e
            && (within span now e
                && after (last_at (λ x. mark x && within span now x) (marked ∷ log)) e))
          ≡ false)
        log
not_after-All mark marked span now kind log up is_mark =
    All-map (λ e. e.occurred_at ≤ marked.occurred_at) _
      (λ e earlier. not_after mark marked span now (kind e) e log up is_mark earlier) log up

-- An unlock releases the email at once and for good: with no row newer than the unlock, the email is
-- not locked at any later time, whatever locks the log holds.
pub record_unlock-is_locked :
    (at now : ℕ) (log : List AuthEvent)
    → IsUpTo at log
    → is_locked now (record_unlock at log) ≡ false
unfolding record_unlock is_locked
record_unlock-is_locked at now log up = any_of_none _ log (
    not_after-All (λ x. is_unlock x.event_type)
      (record { event_type = account_unlocked; occurred_at = at }) lockout_duration now
      (λ x. is_lock x.event_type) log up refl)

-- A row that resets the count leaves no failure to count, at any later time.
reset_count :
    (e : AuthEvent) (now : ℕ) (log : List AuthEvent)
    → IsUpTo e.occurred_at log
    → is_reset e.event_type ≡ true
    → is_failed e.event_type ≡ false
    → consecutive_failures now (e ∷ log) ≡ 0
unfolding consecutive_failures
reset_count e now log up is_mark no_failure = count_if_none _ (e ∷ log) (
  rw no_failure refl,
  not_after-All (λ x. is_reset x.event_type) e lockout_window now (λ x. is_failed x.event_type) log
      up is_mark,
)

-- After a failed login is recorded fewer failures than the threshold are counted, since the lock
-- itself starts the count again.
pub record_failed_login-consecutive_failures :
    (now : ℕ) (log : List AuthEvent)
    → IsUpTo now log
    → consecutive_failures now (record_failed_login now log) < lockout_threshold
unfolding record_failed_login
record_failed_login-consecutive_failures now log up =
    let failed = record { event_type = login_failed; occurred_at = now } ∷ log in
    elim (Bool-cases (leb lockout_threshold (consecutive_failures now failed))) [
      | inl too_many ↦
          rw
            (
              too_many,
              reset_count (record { event_type = account_locked; occurred_at = now }) now failed
                  (omega arith, up) refl refl,
            )
            (omega arith)
      | inr few ↦ rw few (ground arith)
    ]

leb-true : (a b : ℕ) → a ≤ b → leb a b ≡ true
leb-true a b h = ground arith

ltb-true : (a b : ℕ) → a < b → ltb a b ≡ true
ltb-true a b h = ground arith

-- The failure that is one too many locks the email: it is then locked at every time before the end
-- of the lockout.
pub record_failed_login-is_locked :
    (at now : ℕ) (log : List AuthEvent)
    → lockout_threshold
      ≤ consecutive_failures at (record { event_type = login_failed; occurred_at = at } ∷ log)
    → All (λ e. e.occurred_at < at) log
    → now < at + lockout_duration
    → is_locked now (record_failed_login at log) ≡ true
unfolding record_failed_login is_locked last_at
record_failed_login-is_locked at now log reached earlier soon =
    let too_many = leb-true _ _ reached in
    let last = last_at (λ x. is_unlock x.event_type && within lockout_duration now x) log in
    rw (too_many, ltb-true now (at + lockout_duration) soon)
      (elim (Option-cases last) [
        | inl never ↦ rw never refl
        | inr (u, unlocked) ↦
            rw (unlocked, ltb-true u at (last_at_below _ at u log earlier unlocked)) refl
      ])
