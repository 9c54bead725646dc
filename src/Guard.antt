-- ===== src/Guard.antt =====
-- Trading on a rate that has gone stale: app/core/gold_guard.py. Times are microseconds of UTC, so
-- that the normalisation of time zones is done; the message of an error is left out.
pub mod Recorded
use jewelry_backend.Common.{
  ℕ, ◌+◌, ◌-◌, ◌/◌, Bool, true, false, not, ◌&&◌, ◌||◌, Option, none, some, [], ◌∷◌, String, str_eq,
  ltb, leb, if◌then◌else◌, Result, ok, err,
}
use jewelry_backend.Money.{Decimal}
use jewelry_backend.Audit.{ChainError}
use jewelry_backend.Audit.Ledger.{Log, LedgerFields, Value, append}

-- What the price service says of the rate.
pub record RateInfo : Type 0 where
  pub rate : Decimal
  pub source : String
  pub market_closed : Bool
  pub fetched_at : ℕ

pub record StaleRateAck : Type 0 where
  pub rate_fetched_at : ℕ

-- The codes of the 409 answers, with the rate, its time and its age in minutes.
pub data Refusal : Type 0 where
  stale_rate_ack_required stale_rate_ack_mismatch : Decimal → ℕ → ℕ → Refusal

-- One second.
abbrev pub ack_tolerance : ℕ
ack_tolerance = 1_000_000

-- Whole minutes, none where the clock is behind.
abbrev pub age_minutes : ℕ → ℕ → ℕ
age_minutes now fetched_at = (now - fetched_at) / 60_000_000

abbrev pub requires_ack : RateInfo → Bool
requires_ack info = if str_eq info.source "override" then false else info.market_closed

-- `abs(a - b)`
abbrev pub distance : ℕ → ℕ → ℕ
distance a b = a - b + (b - a)

unfoldable pub assert_rate_acceptable :
    ℕ → RateInfo → Option StaleRateAck → Result Refusal (Unit {0})
assert_rate_acceptable now info none =
    if not (requires_ack info)
    then ok tt
    else err (stale_rate_ack_required info.rate info.fetched_at (age_minutes now info.fetched_at))
assert_rate_acceptable now info (some ack) =
    if not (requires_ack info)
    then ok tt
    else if leb ack_tolerance (distance ack.rate_fetched_at info.fetched_at)
    then err (stale_rate_ack_mismatch info.rate info.fetched_at (age_minutes now info.fetched_at))
    else ok tt

-- The order or the buyback that is justified.
pub record Trade : Type 0 where
  pub actor_user_id : String
  pub ref_type : String
  pub ref_id : String
  pub context : String

abbrev pub ack_event : ℕ → RateInfo → Trade → LedgerFields
ack_event now info t = record {
  event_type = "SALE_ON_STALE_RATE_ACK";
  actor_user_id = t.actor_user_id;
  occurred_at = now;
  ref_type = t.ref_type;
  ref_id = t.ref_id;
  payload =
      ("rate_24k", Value.amount info.rate)
      ∷ ("rate_fetched_at", Value.number info.fetched_at)
      ∷ ("age_minutes", Value.number (age_minutes now info.fetched_at))
      ∷ ("context", Value.text t.context)
      ∷ [];
}

module _ (digest : String → LedgerFields → String) where
  -- `id` is the key that the database gives the row.
  unfoldable pub record_stale_rate_ack :
      Log LedgerFields
      → String
      → ℕ
      → RateInfo
      → Trade
      → Option StaleRateAck
      → Result ChainError (Log LedgerFields)
  record_stale_rate_ack log id now info t none = ok log
  record_stale_rate_ack log id now info t (some ack) =
      let written = append digest log id (ack_event now info t) in
      if not (requires_ack info) then ok log else written
