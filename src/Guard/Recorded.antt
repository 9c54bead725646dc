-- ===== src/Guard/Recorded.antt =====
-- What the guard accepts, and that a trade on a stale rate leaves its row: app/core/gold_guard.py.
use jewelry_backend.Common.{
  ℕ, ◌+◌, ◌<◌, ◌≡◌, ◌≢◌, ◌↔◌, ◌⊎◌, inl, inr, refl, arith, false, Option, none, some, String, ok,
  if◌then◌else◌, Bool-cases, eq_iff,
}
use jewelry_backend.Audit.Ledger.{Log, LedgerFields, IsSound, append-eq, appended, appended-IsSound}
use jewelry_backend.Guard.{
  RateInfo, ack_event, StaleRateAck, Trade, ack_tolerance, distance, requires_ack,
  assert_rate_acceptable, record_stale_rate_ack,
}

-- An acknowledgement names the time of the rate, up to the tolerance.
abbrev pub Names : RateInfo → Option StaleRateAck → Type 0
Names info none = ⊥
Names info (some ack) = distance ack.rate_fetched_at info.fetched_at < ack_tolerance

requires_ack-false_iff :
    (info : RateInfo)
    → (requires_ack info ≡ false) ↔ ((info.source ≡ "override") ⊎ (info.market_closed ≡ false))
requires_ack-false_iff info = ground (arith, eq_iff info.source "override")

-- A rate is accepted exactly when it is an override, the market is not closed, or the request
-- acknowledges the time of the rate to less than a second.
pub assert_rate_acceptable_iff :
    (now : ℕ) (info : RateInfo) (ack : Option StaleRateAck)
    → (assert_rate_acceptable now info ack ≡ ok tt)
      ↔ ((info.source ≡ "override") ⊎ ((info.market_closed ≡ false) ⊎ Names info ack))
unfolding assert_rate_acceptable
assert_rate_acceptable_iff now info none = ground (arith, requires_ack-false_iff info)
assert_rate_acceptable_iff now info (some ack) = ground (arith, requires_ack-false_iff info)

module _ (digest : String → LedgerFields → String)
    (digest_nonempty : (p : String) (f : LedgerFields) → digest p f ≢ "") where
  -- A trade that the guard accepts leaves one more row when its rate needed an acknowledgement and
  -- none when it did not; the ledger stays sound.
  pub accepted_trade_is_recorded :
      (log : Log LedgerFields) (id : String) (now : ℕ) (info : RateInfo) (t : Trade)
      (ack : Option StaleRateAck)
      → IsSound digest log
      → assert_rate_acceptable now info ack ≡ ok tt
      → (log' : Log LedgerFields) × (record_stale_rate_ack digest log id now info t ack ≡ ok log')
        × IsSound digest log'
        × (log'.row_count ≡ log.row_count + (if requires_ack info then 1 else 0))
  unfolding assert_rate_acceptable record_stale_rate_ack
  accepted_trade_is_recorded log id now info t none s accepted =
      elim (Bool-cases (requires_ack info)) [
        | inl needed ↦ cc (rw needed at accepted)
        | inr free ↦ (log, refl, s, rw free (omega arith))
      ]
  accepted_trade_is_recorded log id now info t (some ack) s accepted =
      elim (Bool-cases (requires_ack info)) [
        | inl needed ↦ (
          appended digest log id (ack_event now info t),
          rw (needed, append-eq digest log id (ack_event now info t) s.nonempty) refl,
          appended-IsSound digest digest_nonempty log id (ack_event now info t) s,
          rw needed refl,
        )
        | inr free ↦ (log, rw free refl, s, rw free (omega arith))
      ]
