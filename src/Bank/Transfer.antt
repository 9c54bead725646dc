-- ===== src/Bank/Transfer.antt =====
-- `post_transfer` of app/core/bank.py, and that its entry is even.
use Prim.Native.String.{◌++◌ as append}
use jewelry_backend.Common.{
  false, Option, none, some, List, [], ◌∷◌, String, str_eq, if◌then◌else◌, Result, ok, err, ◌>>=◌,
  ◌>>◌, raise_if,
}
use jewelry_backend.Common.Int.{pos, ◌-ℤ◌, leb_ℤ, ltb_ℤ, nonzero}
use jewelry_backend.Common.Dates.{Date}
use jewelry_backend.Money.{Decimal, quantize}
use jewelry_backend.Audit.Ledger.{LedgerFields}
use jewelry_backend.Gl.Lines.{GlLine, q_money}
use jewelry_backend.Gl.Store.{Db, GlFields, Entry}
use jewelry_backend.Gl.Store
use jewelry_backend.Gl.Post.{Posting, Supply, post_entry}
use jewelry_backend.Postings.{debit_money, credit_money, resolve_account_id}
use jewelry_backend.Bank.{
  BankAccount, Error, same_account, not_positive, no_fx_account, not_posted, usd_base,
}

pub record Transfer : Type 0 where
  pub from_account : BankAccount
  pub to_account : BankAccount
  pub amount : Decimal
  pub dest_amount : Option Decimal
  pub memo : String
  pub entry_date : Date
  pub actor_user_id : String
  pub lbp_rate : Decimal
  pub source_id : String

-- `dest_amount if dest_amount is not None else amount`
abbrev pub amount_or : Decimal → Option Decimal → Decimal
amount_or amount none = amount
amount_or amount (some d) = d

abbrev pub dest_amt : Transfer → Decimal
dest_amt t = amount_or t.amount t.dest_amount

abbrev pub src_base : Transfer → Decimal
src_base t = usd_base t.amount t.from_account.currency t.lbp_rate

abbrev pub dest_base : Transfer → Decimal
dest_base t = usd_base (dest_amt t) t.to_account.currency t.lbp_rate

abbrev pub in_line : Transfer → GlLine
in_line t =
    record (debit_money t.to_account.gl_account_id (dest_base t) (append "transfer in: " t.memo)) {
      money_debit = quantize q_money (dest_amt t);
      currency = t.to_account.currency;
    }

abbrev pub out_line : Transfer → GlLine
out_line t =
    record (credit_money t.from_account.gl_account_id (src_base t)
      (append "transfer out: " t.memo)) {
        money_credit = quantize q_money t.amount;
        currency = t.from_account.currency;
      }

-- What the exchange leaves: a loss where it is positive, a gain where it is negative.
abbrev pub residual : Transfer → Decimal
residual t = quantize q_money (src_base t -ℤ dest_base t)

abbrev pub required : Result Store.Error String → Result Error String
required (ok id) = ok id
required (err missing) = err no_fx_account

abbrev pub fx_line : String → Decimal → GlLine
fx_line id r =
    if ltb_ℤ (pos 0) r
    then debit_money id r "transfer FX"
    else credit_money id (pos 0 -ℤ r) "transfer FX"

unfoldable pub transfer_lines : Db → Transfer → Result Error (List GlLine)
transfer_lines db t =
    let key = if ltb_ℤ (pos 0) (residual t) then "FX_LOSS" else "FX_GAIN" in
    let three = required (resolve_account_id db key) >>= λ id.
    ok (in_line t ∷ out_line t ∷ fx_line id (residual t) ∷ []) in
    if nonzero (residual t) then three else ok (in_line t ∷ out_line t ∷ [])

abbrev pub transfer_posting : Transfer → List GlLine → Posting
transfer_posting t lines = record {
  entry_date = t.entry_date;
  memo = append "Transfer: " t.memo;
  source_type = "TRANSFER";
  source_id = some t.source_id;
  lines = lines;
  actor_user_id = t.actor_user_id;
  reverses_entry_id = none;
  occurred_at = none;
  allow_closed_period = false;
}

abbrev pub entry_or_refusal : Result Store.Error (Entry × Db) → Result Error (Entry × Db)
entry_or_refusal (ok posted) = ok posted
entry_or_refusal (err raised) = err (not_posted raised)

-- `source_id` stands for the text that `uuid4` makes.
unfoldable pub post_transfer :
    (String → GlFields → String)
    → (String → LedgerFields → String)
    → Db
    → Transfer
    → Supply
    → Result Error (Entry × Db)
post_transfer gl_digest ledger_digest db t supply = do
  raise_if (str_eq t.from_account.id t.to_account.id) same_account
  raise_if (leb_ℤ t.amount (pos 0)) not_positive
  lines ← transfer_lines db t
  entry_or_refusal (post_entry gl_digest ledger_digest db (transfer_posting t lines) supply)
