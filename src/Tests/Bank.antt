-- ===== src/Tests/Bank.antt =====
-- A transfer from pounds to dollars, a search for a code, and a statement of one line.
use jewelry_backend.Common.{
  ℕ, ◌≤◌, ◌<◌, ◌≡◌, ◌⊎◌, refl, true, none, some, List, [], ◌∷◌, String, ok, err, Result, All, arith,
}
use jewelry_backend.Common.Int.{pos}
use jewelry_backend.Audit.{genesis_hash}
use jewelry_backend.Audit.Ledger.{empty_log}
use jewelry_backend.Gl.Lines.{GlLine}
use jewelry_backend.Gl.Lines
use jewelry_backend.Gl.Store.{Account, Db}
use jewelry_backend.Gl.Store
use jewelry_backend.Bank.{BankAccount, Error, no_free_code, bank, cash}
use jewelry_backend.Bank.Codes.{
  next_bank_account_code, IsFirstFree, member, next_bank_account_code_ends,
}
use jewelry_backend.Bank.Transfer.{Transfer}
use jewelry_backend.Bank.Matching.{
  StatementLine, unmatched, matched, LedgerLine, fits, suggest_matches,
}
use jewelry_backend.Bank.Statement.{unmatched_lines, cleared_ids, suggestions_for}
use jewelry_backend.Bank.Changes.{accept_all, take_back, matches_of, OpenNameNone}
use jewelry_backend.Bank.Accepted.{suggestions_restored}

abbrev loss_account : Account
loss_account = record {
  id = "fx";
  code = "6750";
  type = Store.expense;
  denomination = Lines.money;
  system_key = some "FX_LOSS";
  is_active = true;
}

abbrev db : Db
db = record {
  accounts = loss_account ∷ [];
  periods = [];
  sequences = [];
  entries = [];
  latest_entry_hash = genesis_hash;
  row_count = 0;
  ledger = empty_log;
}

abbrev till : BankAccount
till = record { id = "b1"; gl_account_id = "g1"; account_type = cash; currency = "LBP" }

-- 900,000 pounds at 90,000 are 10 dollars, of which 9.99 arrive.
abbrev transfer : Transfer
transfer = record {
  from_account = till;
  to_account = record till { id = "b2"; gl_account_id = "g2"; currency = "USD" };
  amount = pos 90_000_000_000_000;
  dest_amount = some (pos 999_000_000);
  memo = "";
  entry_date = record { year = 2026; month = 1; day = 31 };
  actor_user_id = "u1";
  lbp_rate = pos 9_000_000_000_000;
  source_id = "t1";
}

abbrev lines_or : Result Error (List GlLine) → List GlLine
lines_or (ok lines) = lines
lines_or (err raised) = []

next_bank_account_code_ends_example :
    ((n : ℕ) × (next_bank_account_code (512_201 ∷ 512_203 ∷ []) bank ≡ ok n)
      × IsFirstFree (512_201 ∷ 512_203 ∷ []) 512_200 512_999 n)
    ⊎ ((next_bank_account_code (512_201 ∷ 512_203 ∷ []) bank ≡ err no_free_code)
        × ((m : ℕ) → 512_200 < m → m ≤ 512_999 → member m (512_201 ∷ 512_203 ∷ []) ≡ true))
next_bank_account_code_ends_example = next_bank_account_code_ends (512_201 ∷ 512_203 ∷ []) bank

abbrev received : StatementLine
received = record {
  id = "s1";
  bank_account_id = "b1";
  stmt_date = 20;
  amount = pos 500;
  matched_gl_line_id = none;
  status = unmatched;
  reconciliation_id = none;
}

abbrev booked : LedgerLine
booked = record { id = "l1"; entry_date = 18; money_debit = pos 500; money_credit = pos 0 }

-- A second line of the same amount, and one that is matched already.
abbrev statement : List StatementLine
statement =
    received
    ∷ record received { id = "s2"; stmt_date = 21 }
    ∷ record received { id = "s3"; matched_gl_line_id = some "l0"; status = matched }
    ∷ []

one_suggestion :
    suggestions_for "b1" 5 (record booked { id = "l0" } ∷ booked ∷ []) statement
    ≡ record { statement_line = received; gl_line = booked } ∷ []
unfolding suggest_matches unmatched_lines cleared_ids
one_suggestion = refl

single_match : (id : String) → matches_of id statement ≤ 1
single_match id = ground arith

open_names : OpenNameNone statement
open_names = ((λ e. refl), ((λ e. refl), ((λ e. cc), tt)))

suggestions_restored_example :
    All
      (λ s. fits 5 s.statement_line s.gl_line ≡ true)
      (suggestions_for "b1" 5 (booked ∷ []) statement)
    × ((changed : List StatementLine) × (accept_all
            (suggestions_for "b1" 5 (booked ∷ []) statement)
            statement
          ≡ ok changed)
        × ((id : String) → matches_of id changed ≤ 1)
        × (take_back (suggestions_for "b1" 5 (booked ∷ []) statement) changed ≡ ok statement))
suggestions_restored_example =
    suggestions_restored "b1" 5 (booked ∷ []) statement (refl, (refl, (refl, tt))) open_names
      single_match
