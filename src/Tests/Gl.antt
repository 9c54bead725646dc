-- ===== src/Tests/Gl.antt =====
-- A small ledger: three accounts, one open month, a sale that is posted and then reversed.
use jewelry_backend.Common.{
  ◌≡◌, ◌≢◌, refl, true, false, none, some, [], ◌∷◌, ◌++◌, String, ok, err, Result, arith, ◌↔◌, All,
}
use jewelry_backend.Common.Int.{pos, ◌+ℤ◌}
use jewelry_backend.Common.Dates.{Date}
use jewelry_backend.Money.{half_even}
use jewelry_backend.Audit.{genesis_hash}
use jewelry_backend.Audit.Walk.{genesis_hash-ne-empty}
use jewelry_backend.Audit.Ledger.{LedgerFields, empty_log, empty_log-IsSound}
use jewelry_backend.Gl.Lines.{
  GlLine, validate_balanced, one, money_errors, metal_errors, line_errors, karats,
  normalize_line_decimals,
}
use jewelry_backend.Gl.Lines
use jewelry_backend.Gl.Balance.{IsBalanced, validate_balanced_iff}
use jewelry_backend.Gl.Store.{
  Account, asset, income, opened, GlFields, JournalLine, Entry, Db, Error, header_of, entry_id,
  reversed_already, resolve_open_period, resolve_denominations, next_doc_no,
  refuse_duplicate_posting, unique_live_source_type,
}
use jewelry_backend.Gl.Post.{Posting, Supply, post_entry, post_checks, write_entry}
use jewelry_backend.Gl.Post.Invariant.{IsSound}
use jewelry_backend.Gl.Post.Soundness.{post_entry-IsSound}
use jewelry_backend.YearClose.{compute_trial_balance}
use jewelry_backend.YearClose.Trial.{AllKnown, replayed, compute_trial_balance_lem}
use jewelry_backend.Gl.Reverse.{Reversal, reverse_entry, find_entry}
use jewelry_backend.Gl.Reverse.Mirror.{Cancels, reverse_entry-Cancels}
use jewelry_backend.Gl.Reverse.Once.{reverse_twice}

-- Digests that the tests can compute.
abbrev gl_digest : String → GlFields → String
gl_digest h f = "gl"

abbrev ledger_digest : String → LedgerFields → String
ledger_digest h f = "audit"

gl_digest-ne-empty : (h : String) (f : GlFields) → gl_digest h f ≢ ""
gl_digest-ne-empty h f e = cc

ledger_digest-ne-empty : (h : String) (f : LedgerFields) → ledger_digest h f ≢ ""
ledger_digest-ne-empty h f e = cc

abbrev cash : Account
cash = record {
  id = "cash";
  code = "1000";
  type = asset;
  denomination = Lines.money;
  system_key = some "CASH";
  is_active = true;
}

abbrev sales : Account
sales = record {
  id = "sales";
  code = "4000";
  type = income;
  denomination = Lines.money;
  system_key = some "SALES_REVENUE";
  is_active = true;
}

abbrev start : Db
start = record {
  accounts = cash ∷ sales ∷ [];
  periods = record { id = "p1"; year = 2026; period_no = 1; status = opened } ∷ [];
  sequences = [];
  entries = [];
  latest_entry_hash = genesis_hash;
  row_count = 0;
  ledger = empty_log;
}

start-IsSound : IsSound gl_digest ledger_digest start
start-IsSound = record {
  chain = tt;
  head = refl;
  count = refl;
  hash_present = genesis_hash-ne-empty;
  audit = empty_log-IsSound ledger_digest ledger_digest-ne-empty;
  balanced = tt;
  reversed_once = λ id. omega arith;
  posted_once = λ t id u. omega arith;
  normal = tt;
  numbered = tt;
  numbers_differ = λ n. omega arith;
}

-- 12.5 dollars: a debit of cash and a credit of sales.
abbrev debit_cash : GlLine
debit_cash = record {
  account_id = "cash";
  denomination = Lines.unset;
  base_debit = pos 1_250_000_000;
  base_credit = pos 0;
  money_debit = pos 1_250_000_000;
  money_credit = pos 0;
  currency = "USD";
  fx_rate = one;
  metal_debit_grams = pos 0;
  metal_credit_grams = pos 0;
  karat = none;
  memo = "";
}

abbrev credit_sales : GlLine
credit_sales = record debit_cash {
  account_id = "sales";
  base_debit = pos 0;
  base_credit = pos 1_250_000_000;
  money_debit = pos 0;
  money_credit = pos 1_250_000_000;
}

abbrev day : Date
day = record { year = 2026; month = 1; day = 31 }

abbrev sale : Posting
sale = record {
  entry_date = day;
  memo = "sale";
  source_type = "ORDER";
  source_id = some "o1";
  lines = debit_cash ∷ credit_sales ∷ [];
  actor_user_id = "u1";
  reverses_entry_id = none;
  occurred_at = none;
  allow_closed_period = false;
}

abbrev supply : Supply
supply = record { entry_id = "e1"; event_id = "a1"; now = 100 }

abbrev supply_2 : Supply
supply_2 = record { entry_id = "e2"; event_id = "a2"; now = 200 }

-- The tables after a call, or those of the start where it raises.
abbrev tables : Result Error (Entry × Db) → Db
tables (ok (e, db)) = db
tables (err _) = start

abbrev entry_of : Entry → Result Error (Entry × Db) → Entry
entry_of d (ok (e, db)) = e
entry_of d (err _) = d

abbrev no_entry : Entry
no_entry = record {
  period_id = "";
  row = record {
    id = "";
    prev_hash = "";
    entry_hash = "";
    fields = record {
      header = record {
        entry_no = record { series = ""; day = day; seq = 0 };
        entry_date = day;
        memo = "";
        source_type = "";
        source_id = none;
        reverses_entry_id = none;
        actor_user_id = "";
        occurred_at = 0;
      };
      lines = [];
    };
  };
}

abbrev posted : Result Error (Entry × Db)
posted = post_entry gl_digest ledger_digest start sale supply

abbrev undo : Reversal
undo = record { original_entry_id = "e1"; actor_user_id = "u1"; entry_date = day; memo = "" }

abbrev undone : Result Error (Entry × Db)
undone = reverse_entry gl_digest ledger_digest (tables posted) undo supply_2

posted_ok : posted ≡ ok (entry_of no_entry posted, tables posted)
unfolding post_entry post_checks write_entry resolve_open_period resolve_denominations next_doc_no
    refuse_duplicate_posting validate_balanced money_errors metal_errors line_errors karats
    normalize_line_decimals half_even ◌+ℤ◌ unique_live_source_type
posted_ok = refl

validate_balanced_iff_example :
    (validate_balanced (debit_cash ∷ credit_sales ∷ []) ≡ [])
    ↔ IsBalanced (debit_cash ∷ credit_sales ∷ [])
validate_balanced_iff_example = validate_balanced_iff (debit_cash ∷ credit_sales ∷ [])

post_entry-IsSound_example : IsSound gl_digest ledger_digest (tables posted)
post_entry-IsSound_example =
    post_entry-IsSound gl_digest ledger_digest gl_digest-ne-empty ledger_digest-ne-empty start sale
      supply start-IsSound posted_ok

undone_ok : undone ≡ ok (entry_of no_entry undone, tables undone)
unfolding reverse_entry post_entry post_checks write_entry resolve_open_period resolve_denominations
    next_doc_no refuse_duplicate_posting validate_balanced money_errors metal_errors line_errors
    karats normalize_line_decimals half_even ◌+ℤ◌ unique_live_source_type
undone_ok = refl

post_entry-IsSound_fact : IsSound gl_digest ledger_digest (tables posted)
post_entry-IsSound_fact =
    post_entry-IsSound gl_digest ledger_digest gl_digest-ne-empty ledger_digest-ne-empty start sale
      supply start-IsSound posted_ok

reverse_entry-Cancels_example :
    (original : Entry) × (find_entry (tables posted).entries "e1" ≡ some original)
    × ((header_of (entry_of no_entry undone)).reverses_entry_id ≡ some (entry_id original))
    × ((tables undone).entries ≡ (tables posted).entries ++ entry_of no_entry undone ∷ [])
    × Cancels original (entry_of no_entry undone)
reverse_entry-Cancels_example =
    reverse_entry-Cancels gl_digest ledger_digest gl_digest-ne-empty ledger_digest-ne-empty
      (tables posted) undo supply_2 post_entry-IsSound_fact undone_ok

reverse_twice_example :
    (existing : Entry) × (reverse_entry gl_digest ledger_digest (tables undone) undo supply
      ≡ err (reversed_already (header_of existing).entry_no))
reverse_twice_example =
    reverse_twice gl_digest ledger_digest gl_digest-ne-empty ledger_digest-ne-empty (tables posted)
      undo undo supply_2 supply post_entry-IsSound_fact undone_ok refl

posted_known : All (AllKnown (tables posted).accounts) (tables posted).entries
unfolding post_entry post_checks write_entry resolve_open_period resolve_denominations next_doc_no
    refuse_duplicate_posting validate_balanced money_errors metal_errors line_errors karats
    normalize_line_decimals half_even ◌+ℤ◌ unique_live_source_type
posted_known = ((refl, (refl, tt)), tt)

compute_trial_balance_lem_example :
    ((compute_trial_balance (tables posted) day).total_base_debit
      ≡ replayed JournalLine.base_debit day (tables posted).entries)
    × ((compute_trial_balance (tables posted) day).total_base_credit
        ≡ replayed JournalLine.base_credit day (tables posted).entries)
    × ((compute_trial_balance (tables posted) day).balanced ≡ true)
compute_trial_balance_lem_example =
    compute_trial_balance_lem gl_digest ledger_digest (tables posted) day post_entry-IsSound_fact
      posted_known
