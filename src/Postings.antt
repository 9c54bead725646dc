-- ===== src/Postings.antt =====
-- The posting rules of app/core/gl_postings.py: what all mappers share. A mapper returns the entry it
-- posted, none where it skips, and the tables. Amounts and grams count units of 10^-8, quantities one.
pub mod Sale
pub mod Refund
pub mod Supplier
pub mod Metal
pub mod Even
pub mod Once
pub mod Void
use jewelry_backend.Common.{
  ℕ, ◌^◌, ◌/◌, Bool, true, false, not, ◌&&◌, Option, none, some, List, [], ◌∷◌, ◌++◌, String,
  str_eq, ◌==◌, if◌then◌else◌, Result, ok, err, ◌>>=◌, find,
}
use jewelry_backend.Common.Int.{ℤ, pos, ◌*ℤ◌}
use jewelry_backend.Common.Dates.{Date}
use jewelry_backend.Money.{Decimal, by_sign, half_even, quantize}
use jewelry_backend.Pricing.{Karat, k18, k21, k22, k24, karat_purity}
use jewelry_backend.Audit.Ledger.{LedgerFields}
use jewelry_backend.Gl.Lines.{GlLine, money, dual, one, q_money}
use jewelry_backend.Gl.Store.{
  Account, Period, opened, Entry, Db, GlFields, Error, not_seeded, live_for, is_text,
}
use jewelry_backend.Gl.Post.{Posting, Supply, post_entry}

-- The columns of `settings` that posting reads.
pub record Settings : Type 0 where
  pub accounting_auto_post_enabled : Bool
  pub vat_percent : Decimal

-- The columns of `products` that posting reads.
pub record ProductCost : Type 0 where
  pub id : String
  pub cost_basis_usd : Option Decimal
  pub stone_cost_usd : Option Decimal

-- `karat.value`
abbrev pub karat_value : Karat → String
karat_value k18 = "K18"
karat_value k21 = "K21"
karat_value k22 = "K22"
karat_value k24 = "K24"

-- `d or ZERO`
abbrev pub or_zero : Option Decimal → Decimal
or_zero none = pos 0
or_zero (some d) = d

-- The period of the month, opened where there is none; `period_id` is its new key.
abbrev pub of_month : Date → Period → Bool
of_month d p = p.year == d.year && p.period_no == d.month

abbrev pub is_none {ℓ} : {A : Type ℓ} → Option A → Bool
is_none none = true
is_none (some a) = false

unfoldable pub ensure_period : String → Date → Db → Db
ensure_period period_id d db =
    if is_none (find (of_month d) db.periods)
    then record db {
      periods =
          db.periods
          ++ record { id = period_id; year = d.year; period_no = d.month; status = opened } ∷ [];
    }
    else db

abbrev pub has_key : String → Account → Bool
has_key key a = is_text key a.system_key

abbrev pub account_or : String → Option Account → Result Error String
account_or key none = err (not_seeded key)
account_or key (some a) = ok a.id

-- `resolve_account_id`
unfoldable pub resolve_account_id : Db → String → Result Error String
resolve_account_id db key = account_or key (find (has_key key) db.accounts)

-- The entry of a source that is not a reversal.
unfoldable pub find_live_entry : Db → String → String → Option Entry
find_live_entry db source_type source_id = find (live_for source_type source_id) db.entries

-- The lines that the mappers build: `GLLine(denomination="MONEY", ...)` and `"DUAL"`.
abbrev pub blank : String → String → GlLine
blank account_id memo = record {
  account_id = account_id;
  denomination = money;
  base_debit = pos 0;
  base_credit = pos 0;
  money_debit = pos 0;
  money_credit = pos 0;
  currency = "USD";
  fx_rate = one;
  metal_debit_grams = pos 0;
  metal_credit_grams = pos 0;
  karat = none;
  memo = memo;
}

abbrev pub debit_money : String → Decimal → String → GlLine
debit_money account_id amount memo = record (blank account_id memo) {
  base_debit = amount;
  money_debit = amount;
}

abbrev pub credit_money : String → Decimal → String → GlLine
credit_money account_id amount memo = record (blank account_id memo) {
  base_credit = amount;
  money_credit = amount;
}

abbrev pub debit_metal : String → Decimal → Decimal → String → String → GlLine
debit_metal account_id cost grams karat memo = record (blank account_id memo) {
  denomination = dual;
  base_debit = cost;
  metal_debit_grams = grams;
  karat = some karat;
}

abbrev pub credit_metal : String → Decimal → Decimal → String → String → GlLine
credit_metal account_id cost grams karat memo = record (blank account_id memo) {
  denomination = dual;
  base_credit = cost;
  metal_credit_grams = grams;
  karat = some karat;
}

-- `if test: lines.append(...)`
abbrev pub lines_if : Bool → List GlLine → List GlLine
lines_if test lines = if test then lines else []

-- `(rate * weight * purity * quantity).quantize(0.01)`: 19 decimals rounded to cents, back in units.
unfoldable pub gold_value : Decimal → Decimal → Karat → ℤ → Decimal
gold_value rate weight karat quantity =
    by_sign (λ n. half_even (10 ^ 17) n / 10 ^ 11)
      (rate *ℤ weight *ℤ karat_purity karat *ℤ quantity)

-- What a mapper is given besides its operation.
pub record Context : Type 0 where
  pub settings : Settings
  pub actor_user_id : String
  pub entry_date : Date
  pub period_id : String
  pub supply : Supply

abbrev pub posting_of : Context → String → String → String → List GlLine → Posting
posting_of c memo source_type source_id lines = record {
  entry_date = c.entry_date;
  memo = memo;
  source_type = source_type;
  source_id = some source_id;
  lines = lines;
  actor_user_id = c.actor_user_id;
  reverses_entry_id = none;
  occurred_at = none;
  allow_closed_period = false;
}

-- The two early returns that every mapper begins with: the flag is off, or the source is posted.
abbrev pub when_unposted {ℓ} :
    {A : Type ℓ}
    → Option A
    → Result Error (Option Entry × Db)
    → Db
    → Result Error (Option Entry × Db)
when_unposted none rest db = rest
when_unposted (some existing) rest db = ok (none, db)

unfoldable pub unless_posted :
    Context
    → String
    → String
    → Db
    → Result Error (Option Entry × Db)
    → Result Error (Option Entry × Db)
unless_posted c source_type source_id db rest =
    if not c.settings.accounting_auto_post_enabled
    then ok (none, db)
    else when_unposted (find_live_entry db source_type source_id) rest db

module _ (gl_digest : String → GlFields → String)
    (ledger_digest : String → LedgerFields → String) where
  -- `return await gl.post_entry(...)`
  unfoldable pub post_lines :
      Context → String → String → String → List GlLine → Db → Result Error (Option Entry × Db)
  post_lines c memo source_type source_id lines db =
      post_entry gl_digest ledger_digest db (posting_of c memo source_type source_id lines) c.supply
      >>= λ posted. ok (some posted.0, posted.1)
