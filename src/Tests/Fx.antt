-- ===== src/Tests/Fx.antt =====
-- A receipt of 900,000 LBP, booked at 89,000 and received at 90,000: the rate cost one tenth of a
-- dollar.
use jewelry_backend.Common.{◌≡◌, refl, List, [], ◌∷◌, ok, err, Result}
use jewelry_backend.Common.Int.{pos, ◌+ℤ◌, ◌-ℤ◌, ◌*ℤ◌}
use jewelry_backend.Money.{quantize, half_even, quantize_quotient, nearest}
use jewelry_backend.Gl.Lines.{sum_of}
use jewelry_backend.Fx.{
  Leg, Settlement, Error, receipt, settlement_legs, same_currency, control_legs, cash_money,
  cash_leg, leg_debit, leg_credit, fx_plug,
}
use jewelry_backend.Fx.Balanced.{settlement_legs_balance}

abbrev in_pounds : Settlement
in_pounds = record {
  kind = receipt;
  recorded_currency = "LBP";
  allocations =
      record {
        invoice_currency = "LBP";
        invoice_fx_rate = pos 8_900_000_000_000;
        applied_money = pos 90_000_000_000_000;
      }
      ∷ [];
  control_system_key = "AR";
  cash_system_key = "CASH_LBP";
  tender_currency = "LBP";
  tender_fx_rate = pos 9_000_000_000_000;
}

abbrev value_of : Result Error (List Leg) → List Leg
value_of (ok legs) = legs
value_of (err raised) = []

abbrev legs_in_pounds : List Leg
legs_in_pounds = value_of (settlement_legs in_pounds)

in_pounds_ok : settlement_legs in_pounds ≡ ok legs_in_pounds
unfolding settlement_legs same_currency control_legs cash_money cash_leg fx_plug quantize half_even
    quantize_quotient nearest ◌+ℤ◌ ◌-ℤ◌ ◌*ℤ◌
in_pounds_ok = refl

settlement_legs_balance_example : sum_of leg_debit legs_in_pounds ≡ sum_of leg_credit legs_in_pounds
settlement_legs_balance_example = settlement_legs_balance in_pounds legs_in_pounds in_pounds_ok
