-- ===== src/Tests/Guard.antt =====
-- A closed market, a rate of the time 5,000,000 and a cashier who acknowledges it.
use jewelry_backend.Common.{
  ◌≡◌, ◌≢◌, ◌↔◌, ◌⊎◌, ◌+◌, refl, true, false, some, String, ok, if◌then◌else◌,
}
use jewelry_backend.Common.Int.{pos}
use jewelry_backend.Audit.Ledger.{Log, LedgerFields, IsSound, empty_log, empty_log-IsSound}
use jewelry_backend.Guard.{
  RateInfo, StaleRateAck, Trade, requires_ack, assert_rate_acceptable, record_stale_rate_ack,
}
use jewelry_backend.Guard.Recorded.{Names, assert_rate_acceptable_iff, accepted_trade_is_recorded}

abbrev digest : String → LedgerFields → String
digest h f = "audit"

digest-ne-empty : (h : String) (f : LedgerFields) → digest h f ≢ ""
digest-ne-empty h f e = cc

abbrev stale : RateInfo
stale = record {
  rate = pos 9_500_000_000;
  source = "goldapi";
  market_closed = true;
  fetched_at = 5_000_000;
}

abbrev ack : StaleRateAck
ack = record { rate_fetched_at = 5_000_123 }

abbrev sale : Trade
sale = record { actor_user_id = "u1"; ref_type = "order"; ref_id = "o1"; context = "ORDER" }

accepted : assert_rate_acceptable 9_000_000 stale (some ack) ≡ ok tt
unfolding assert_rate_acceptable
accepted = refl

assert_rate_acceptable_iff_example :
    (assert_rate_acceptable 9_000_000 stale (some ack) ≡ ok tt)
    ↔ ((stale.source ≡ "override") ⊎ ((stale.market_closed ≡ false) ⊎ Names stale (some ack)))
assert_rate_acceptable_iff_example = assert_rate_acceptable_iff 9_000_000 stale (some ack)

accepted_trade_is_recorded_example :
    (log' : Log LedgerFields) × (record_stale_rate_ack digest empty_log "e1" 9_000_000 stale sale
        (some ack)
      ≡ ok log')
    × IsSound digest log'
    × (log'.row_count ≡ 0 + (if requires_ack stale then 1 else 0))
accepted_trade_is_recorded_example =
    accepted_trade_is_recorded digest digest-ne-empty empty_log "e1" 9_000_000 stale sale (some ack)
      (empty_log-IsSound digest digest-ne-empty) accepted
