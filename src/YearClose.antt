-- ===== src/YearClose.antt =====
-- The trial balance of app/core/gl.py, in the base currency, and the closing entry of a year:
-- app/core/period_close.py. The accounts are read in the order of their codes.
pub mod Trial
pub mod Emptied
use Prim.Native.String.{◌++◌ as append_text}
use jewelry_backend.Common.{
  ℕ, suc, ◌+◌, Bool, true, false, not, ◌&&◌, ◌||◌, Option, none, some, List, [], ◌∷◌, ◌++◌, String,
  str_eq, ◌==◌, if◌then◌else◌, Result, ok, err, ◌>>=◌, ◌>>◌, raise_if, find, map,
}
use jewelry_backend.Common.Int.{ℤ, pos, ◌+ℤ◌, ◌-ℤ◌, ltb_ℤ, eq_ℤ, nonzero}
use jewelry_backend.Common.Dates.{Date, date_leb, decimal_text}
use jewelry_backend.Money.{Decimal, quantize}
use jewelry_backend.Audit.Ledger.{LedgerFields, Value, append}
use jewelry_backend.Gl.Lines.{GlLine, money, one, q_money, sum_of}
use jewelry_backend.Gl.Store.{
  AccountType, income, expense, Account, Period, PeriodStatus, opened, closed, is_open, JournalLine,
  GlFields, Entry, Db, header_of, lines_of, entry_id, find_reversal, is_text,
}
use jewelry_backend.Gl.Store
use jewelry_backend.Gl.Post.{Posting, Supply, post_entry, hashed}

-- What an account's lines sum to up to a day.
abbrev pub at_account : (JournalLine → Decimal) → String → JournalLine → Decimal
at_account f id l = if str_eq l.account_id id then f l else pos 0

abbrev pub up_to : Date → (Entry → Decimal) → Entry → Decimal
up_to as_of f e = if date_leb (header_of e).entry_date as_of then f e else pos 0

abbrev pub base_at : (JournalLine → Decimal) → Date → List Entry → String → Decimal
base_at f as_of entries id =
    sum_of (up_to as_of (λ e. sum_of (at_account f id) (lines_of e))) entries

pub record AccountRow : Type 0 where
  pub account_id : String
  pub type : AccountType
  pub base_debit : Decimal
  pub base_credit : Decimal

pub record TrialBalance : Type 0 where
  pub accounts : List AccountRow
  pub total_base_debit : Decimal
  pub total_base_credit : Decimal
  pub balanced : Bool

abbrev pub account_row : Date → List Entry → Account → AccountRow
account_row as_of entries a = record {
  account_id = a.id;
  type = a.type;
  base_debit = quantize q_money (base_at JournalLine.base_debit as_of entries a.id);
  base_credit = quantize q_money (base_at JournalLine.base_credit as_of entries a.id);
}

abbrev pub account_rows : Date → List Entry → List Account → List AccountRow
account_rows as_of entries [] = []
account_rows as_of entries (a ∷ accounts) =
    account_row as_of entries a ∷ account_rows as_of entries accounts

-- An account without lines has a row of zeros here, which no reader of the rows tells from none.
unfoldable pub compute_trial_balance : Db → Date → TrialBalance
compute_trial_balance db as_of =
    let rows = account_rows as_of db.entries db.accounts in
    let total_d = quantize q_money (sum_of AccountRow.base_debit rows) in
    let total_c = quantize q_money (sum_of AccountRow.base_credit rows) in
    record {
      accounts = rows;
      total_base_debit = total_d;
      total_base_credit = total_c;
      balanced = eq_ℤ total_d total_c;
    }

-- A line of the preview.
pub record CloseLine : Type 0 where
  pub account_id : String
  pub debit : Decimal
  pub credit : Decimal

abbrev pub income_of : AccountRow → Decimal
income_of a = elim a.type [ income ↦ a.base_credit -ℤ a.base_debit | _ ↦ pos 0 ]

abbrev pub expense_of : AccountRow → Decimal
expense_of a = elim a.type [ expense ↦ a.base_debit -ℤ a.base_credit | _ ↦ pos 0 ]

abbrev pub line_if : Bool → CloseLine → List CloseLine
line_if test line = if test then line ∷ [] else []

-- The line that empties an account: an income by a debit, an expense by a credit.
unfoldable pub closing_line : AccountRow → List CloseLine
closing_line a = elim a.type [
  | income ↦
      line_if (nonzero (income_of a)) (record {
        account_id = a.account_id;
        debit = quantize q_money (income_of a);
        credit = pos 0;
      })
  | expense ↦ line_if (nonzero (expense_of a)) (record {
    account_id = a.account_id;
    debit = pos 0;
    credit = quantize q_money (expense_of a);
  })
  | _ ↦ []
]

unfoldable pub closing_lines : List AccountRow → List CloseLine
closing_lines [] = []
closing_lines (a ∷ accounts) = closing_line a ++ closing_lines accounts

abbrev pub net_income : List AccountRow → Decimal
net_income accounts = quantize q_money (sum_of income_of accounts -ℤ sum_of expense_of accounts)

-- What the year leaves goes to retained earnings: a profit as a credit, a loss as a debit.
abbrev pub earnings_line : String → Decimal → List CloseLine
earnings_line id net =
    if ltb_ℤ (pos 0) net
    then record { account_id = id; debit = pos 0; credit = net } ∷ []
    else line_if (ltb_ℤ net (pos 0))
        (record { account_id = id; debit = pos 0 -ℤ net; credit = pos 0 })

unfoldable pub year_close_lines : String → List AccountRow → List CloseLine
year_close_lines id accounts = closing_lines accounts ++ earnings_line id (net_income accounts)

-- What the handler raises.
pub data Error : Type 0 where
  open_periods no_periods already_closed nothing_to_close no_retained_earnings : Error
  not_posted : Store.Error → Error

abbrev pub year_end : ℕ → Date
year_end year = record { year = year; month = 12; day = 31 }

-- A closing entry of the year that is not reversed.
abbrev pub closes_year : ℕ → List Entry → Entry → Bool
closes_year year entries e =
    str_eq (header_of e).source_type "YEAR_CLOSE"
    && (header_of e).entry_date.year == year
    && unreversed (find_reversal entries (entry_id e))
  where
    unreversed : Option Entry → Bool
    unreversed none = true
    unreversed (some r) = false

abbrev pub gl_line : CloseLine → GlLine
gl_line l = record {
  account_id = l.account_id;
  denomination = money;
  base_debit = l.debit;
  base_credit = l.credit;
  money_debit = l.debit;
  money_credit = l.credit;
  currency = "USD";
  fx_rate = one;
  metal_debit_grams = pos 0;
  metal_credit_grams = pos 0;
  karat = none;
  memo = "year close";
}

abbrev pub is_some {ℓ} : {A : Type ℓ} → Option A → Bool
is_some none = false
is_some (some a) = true

abbrev pub of_year : ℕ → Period → Bool
of_year year p = p.year == year

abbrev pub open_in : ℕ → Period → Bool
open_in year p = p.year == year && is_open p.status

abbrev pub of_month : ℕ → ℕ → Period → Bool
of_month year m p = p.year == year && p.period_no == m

-- A period of the month where there is none; `key` is its new key.
unfoldable pub add_period : String → ℕ → ℕ → PeriodStatus → List Period → List Period
add_period key year m status periods =
    if is_some (find (of_month year m) periods)
    then periods
    else periods ++ record { id = key; year = year; period_no = m; status = status } ∷ []

-- The open periods of the next year that are missing.
unfoldable pub open_months : (ℕ → String) → ℕ → List ℕ → List Period → List Period
open_months key year [] periods = periods
open_months key year (m ∷ months) periods =
    open_months key year months (add_period (key m) year m opened periods)

abbrev pub twelve : List ℕ
twelve = 1 ∷ 2 ∷ 3 ∷ 4 ∷ 5 ∷ 6 ∷ 7 ∷ 8 ∷ 9 ∷ 10 ∷ 11 ∷ 12 ∷ []

abbrev pub retained_earnings : Option Account → Result Error String
retained_earnings none = err no_retained_earnings
retained_earnings (some a) = ok a.id

abbrev pub require_lines : List CloseLine → Result Error (Unit {0})
require_lines [] = err nothing_to_close
require_lines (l ∷ lines) = ok tt

abbrev pub close_posting : ℕ → String → List CloseLine → Posting
close_posting year actor lines = record {
  entry_date = year_end year;
  memo = append_text "Year close " (decimal_text 1 year);
  source_type = "YEAR_CLOSE";
  source_id = none;
  lines = map gl_line lines;
  actor_user_id = actor;
  reverses_entry_id = none;
  occurred_at = none;
  allow_closed_period = true;
}

abbrev pub closed_event : ℕ → String → ℕ → Decimal → Entry → LedgerFields
closed_event year actor now net entry = record {
  event_type = "GL_YEAR_CLOSED";
  actor_user_id = actor;
  occurred_at = now;
  ref_type = "fiscal_year";
  ref_id = decimal_text 1 year;
  payload =
      ("year", Value.number year)
      ∷ ("net_income", Value.amount net)
      ∷ ("entry_id", Value.text (entry_id entry))
      ∷ [];
}

abbrev pub or_not_posted : {A : Type 0} → Result Store.Error A → Result Error A
or_not_posted (ok a) = ok a
or_not_posted (err raised) = err (not_posted raised)

-- The keys that the database gives: of the periods, of the entry and of the event.
pub record Keys : Type 0 where
  pub december : String
  pub month : ℕ → String
  pub supply : Supply
  pub event_id : String

-- The guards and the lines of the closing entry.
unfoldable pub close_checks : ℕ → Db → Result Error (List CloseLine)
close_checks year db = do
  raise_if (is_some (find (open_in year) db.periods)) open_periods
  raise_if (not (is_some (find (of_year year) db.periods))) no_periods
  raise_if (is_some (find (closes_year year db.entries) db.entries)) already_closed
  earnings ←
      retained_earnings
        (find (λ (a : Account). is_text "RETAINED_EARNINGS" a.system_key) db.accounts)
  let lines = year_close_lines earnings (compute_trial_balance db (year_end year)).accounts
  require_lines lines
  ok lines

module _ (gl_digest : String → GlFields → String)
    (ledger_digest : String → LedgerFields → String) where
  unfoldable pub close_year : Keys → ℕ → String → Db → Result Error (Entry × Db)
  close_year keys year actor db = do
    lines ← close_checks year db
    let dec_db = record db { periods = add_period keys.december year 12 closed db.periods }
    (entry, posted) ←
        or_not_posted
          (post_entry gl_digest ledger_digest dec_db (close_posting year actor lines) keys.supply)
    let net = net_income (compute_trial_balance db (year_end year)).accounts
    ledger ← or_not_posted (
        hashed (
          append ledger_digest posted.ledger keys.event_id
            (closed_event year actor keys.supply.now net entry)))
    ok (
      entry,
      record posted {
        ledger = ledger;
        periods = open_months keys.month (suc year) twelve posted.periods;
      },
    )
