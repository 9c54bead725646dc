-- ===== src/Fx.antt =====
-- The legs of a settlement with realized exchange differences: app/core/gl_fx.py. Amounts and rates
-- count units of 10^-8. A division by a rate of zero raises in Python; here it is an error.
pub mod Balanced
use jewelry_backend.Common.{
  ℕ, Bool, true, false, not, ◌||◌, List, [], ◌∷◌, ◌++◌, String, str_eq, if◌then◌else◌, Result, ok,
  err, ◌>>=◌, ◌>>◌, raise_if,
}
use jewelry_backend.Common.Int.{ℤ, pos, ◌+ℤ◌, ◌-ℤ◌, ◌*ℤ◌, eq_ℤ, ltb_ℤ, nonzero}
use jewelry_backend.Money.{Decimal, quantize, quantize_product, quantize_quotient}
use jewelry_backend.Gl.Lines.{q_money, one, sum_of}

pub data Kind : Type 0 where
  receipt payment : Kind

abbrev pub is_receipt : Kind → Bool
is_receipt receipt = true
is_receipt payment = false

pub record Leg : Type 0 where
  pub system_key : String
  pub debit : Bool
  pub money : Decimal
  pub base : Decimal
  pub currency : String
  pub fx_rate : Decimal
  pub memo : String

pub record Allocation : Type 0 where
  pub invoice_currency : String
  pub invoice_fx_rate : Decimal
  pub applied_money : Decimal

-- The arguments of `settlement_legs`; a kind outside the two is not representable.
pub record Settlement : Type 0 where
  pub kind : Kind
  pub recorded_currency : String
  pub allocations : List Allocation
  pub control_system_key : String
  pub cash_system_key : String
  pub tender_currency : String
  pub tender_fx_rate : Decimal

pub data Error : Type 0 where
  no_allocation : Error
  cross_currency : String → Error
  cannot_settle : Error
  division_by_zero : Error

-- `(a / b).quantize(0.01)`; the numerator is brought to the scale of a quotient.
abbrev pub divide : Decimal → Decimal → Result Error Decimal
divide a b = if nonzero b then ok (quantize_quotient q_money (a *ℤ one) b) else err division_by_zero

-- The first loop: every document is in the currency of the settlement.
unfoldable pub same_currency : String → List Allocation → Result Error (Unit {0})
same_currency currency [] = ok tt
same_currency currency (al ∷ allocations) =
    if str_eq al.invoice_currency currency
    then same_currency currency allocations
    else err (cross_currency al.invoice_currency)

-- One control leg for each allocation, at its captured rate.
unfoldable pub control_legs : Settlement → List Allocation → Result Error (List Leg)
control_legs s [] = ok []
control_legs s (al ∷ allocations) =
    let money = quantize q_money al.applied_money in
    let rest = control_legs s allocations in
    divide money al.invoice_fx_rate >>= λ base. rest >>= λ legs. ok (
      record {
        system_key = s.control_system_key;
        debit = not (is_receipt s.kind);
        money = money;
        base = base;
        currency = s.recorded_currency;
        fx_rate = al.invoice_fx_rate;
        memo = if is_receipt s.kind then "relieve AR" else "relieve AP";
      }
      ∷ legs)

-- What the tender account receives, in its own currency.
unfoldable pub cash_money : Settlement → Decimal → Result Error Decimal
cash_money s total =
    if str_eq s.tender_currency s.recorded_currency
    then ok (quantize q_money total)
    else if str_eq s.recorded_currency "USD"
    then ok (quantize q_money (quantize_product q_money total s.tender_fx_rate))
    else err cannot_settle

unfoldable pub cash_leg : Settlement → Decimal → Result Error Leg
unfolding cash_money
cash_leg s total = cash_money s total >>= λ money.
    (if eq_ℤ s.tender_fx_rate one then ok money else divide money s.tender_fx_rate) >>= λ base.
    ok (record {
      system_key = s.cash_system_key;
      debit = is_receipt s.kind;
      money = money;
      base = base;
      currency = s.tender_currency;
      fx_rate = s.tender_fx_rate;
      memo = if is_receipt s.kind then "receipt" else "cash out";
    })

-- The base amount of a leg on the debit side, and on the credit side.
abbrev pub leg_debit : Leg → Decimal
leg_debit l = if l.debit then l.base else pos 0

abbrev pub leg_credit : Leg → Decimal
leg_credit l = if l.debit then pos 0 else l.base

-- The leg that balances the entry, none where it balances.
unfoldable pub fx_plug : List Leg → List Leg
fx_plug legs =
    let plug = quantize q_money (sum_of leg_credit legs -ℤ sum_of leg_debit legs) in
    if ltb_ℤ (pos 0) plug
    then record {
      system_key = "FX_LOSS";
      debit = true;
      money = plug;
      base = plug;
      currency = "USD";
      fx_rate = one;
      memo = "realized FX loss";
    }
      ∷ []
    else if ltb_ℤ plug (pos 0)
    then record {
      system_key = "FX_GAIN";
      debit = false;
      money = pos 0 -ℤ plug;
      base = pos 0 -ℤ plug;
      currency = "USD";
      fx_rate = one;
      memo = "realized FX gain";
    }
      ∷ []
    else []

-- `total_recorded_money`
abbrev pub recorded_money : List Allocation → Decimal
recorded_money = sum_of (λ al. quantize q_money al.applied_money)

abbrev pub require_allocations : List Allocation → Result Error (Unit {0})
require_allocations [] = err no_allocation
require_allocations (al ∷ allocations) = ok tt

unfoldable pub settlement_legs : Settlement → Result Error (List Leg)
settlement_legs s = do
  require_allocations s.allocations
  same_currency s.recorded_currency s.allocations
  control ← control_legs s s.allocations
  cash ← cash_leg s (recorded_money s.allocations)
  let legs = control ++ cash ∷ []
  ok (legs ++ fx_plug legs)
