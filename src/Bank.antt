-- ===== src/Bank.antt =====
-- Cash and bank accounts: app/core/bank.py. Amounts count units of 10^-8, dates are day numbers.
pub mod Codes
pub mod Transfer
pub mod Matching
pub mod Statement
pub mod Changes
pub mod Accepted
use jewelry_backend.Common.{
  ℕ, ◌*◌, Bool, true, false, Option, none, some, List, String, str_eq, if◌then◌else◌,
}
use jewelry_backend.Common.Int.{pos, ◌*ℤ◌}
use jewelry_backend.Money.{Decimal, quantize, quantize_quotient}
use jewelry_backend.Gl.Lines.{q_money}
use jewelry_backend.Gl.Store

pub data BankAccountType : Type 0 where
  bank cash petty_cash : BankAccountType

pub record BankAccount : Type 0 where
  pub id : String
  pub gl_account_id : String
  pub account_type : BankAccountType
  pub currency : String

-- What the functions raise; `unfinished` stands for a loop that has not ended.
pub data Error : Type 0 where
  no_free_code same_account not_positive no_fx_account matched_elsewhere no_line unfinished : Error
  not_posted : Store.Error → Error

-- The USD base of an amount at the LBP rate, of the exact quotient.
unfoldable pub usd_base : Decimal → String → Decimal → Decimal
usd_base amount currency lbp_rate =
    if str_eq currency "LBP"
    then quantize_quotient q_money (amount *ℤ pos 100_000_000) lbp_rate
    else quantize q_money amount
