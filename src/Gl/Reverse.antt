-- ===== src/Gl/Reverse.antt =====
-- `reverse_entry` of app/core/gl.py.
pub mod Mirror
pub mod Once
use jewelry_backend.Common.{
  Bool, true, false, Option, none, some, List, String, map, str_eq, if◌then◌else◌, Result, ok, err,
  ◌>>=◌, ◌>>◌, raise_if, find,
}
use Prim.Native.String.{◌++◌ as append_text}
use jewelry_backend.Common.Dates.{Date, DocNo, doc_no_text}
use jewelry_backend.Audit.Ledger.{LedgerFields}
use jewelry_backend.Gl.Lines.{GlLine, unset}
use jewelry_backend.Gl.Store.{
  JournalLine, GlFields, Entry, Db, Error, entry_id, header_of, lines_of, is_reversal,
  find_reversal, entry_not_found, is_a_reversal, is_a_year_close, reversed_already,
}
use jewelry_backend.Gl.Post.{Posting, Supply, post_entry}

-- The arguments of `reverse_entry`.
pub record Reversal : Type 0 where
  pub original_entry_id : String
  pub actor_user_id : String
  pub entry_date : Date
  pub memo : String

abbrev pub reversal_memo : String → String
reversal_memo memo = if str_eq memo "" then "reversal" else append_text "reversal of " memo

-- The line with debit and credit exchanged in every dimension; the account decides the rest.
unfoldable pub swap_line : JournalLine → GlLine
swap_line l = record {
  account_id = l.account_id;
  denomination = unset;
  base_debit = l.base_credit;
  base_credit = l.base_debit;
  money_debit = l.money_credit;
  money_credit = l.money_debit;
  currency = l.currency;
  fx_rate = l.fx_rate;
  metal_debit_grams = l.metal_credit_grams;
  metal_credit_grams = l.metal_debit_grams;
  karat = l.karat;
  memo = reversal_memo l.memo;
}

abbrev pub refuse_existing : Option Entry → Result Error (Unit {0})
refuse_existing none = ok tt
refuse_existing (some existing) = err (reversed_already (header_of existing).entry_no)

-- The refusals that depend on the original alone, and an earlier reversal.
unfoldable pub reversal_checks : Db → Entry → Result Error (Unit {0})
unfolding find_reversal
reversal_checks db original = do
  raise_if (is_reversal original) (is_a_reversal (header_of original).entry_no)
  raise_if (str_eq (header_of original).source_type "YEAR_CLOSE")
      (is_a_year_close (header_of original).entry_no)
  refuse_existing (find_reversal db.entries (entry_id original))

unfoldable pub reversal_posting : Reversal → Entry → Posting
unfolding swap_line
reversal_posting r original = record {
  entry_date = r.entry_date;
  memo =
      if str_eq r.memo ""
      then append_text "Reversal of " (doc_no_text (header_of original).entry_no)
      else r.memo;
  source_type = "REVERSAL";
  source_id = some (entry_id original);
  lines = map swap_line (lines_of original);
  actor_user_id = r.actor_user_id;
  reverses_entry_id = some (entry_id original);
  occurred_at = none;
  allow_closed_period = false;
}

abbrev pub find_entry : List Entry → String → Option Entry
find_entry entries id = find (λ (e : Entry). str_eq (entry_id e) id) entries

module _ (gl_digest : String → GlFields → String)
    (ledger_digest : String → LedgerFields → String) where
  abbrev pub reverse_found : Db → Reversal → Supply → Option Entry → Result Error (Entry × Db)
  reverse_found db r supply none = err entry_not_found
  reverse_found db r supply (some original) = reversal_checks db original >>= λ checked.
      post_entry gl_digest ledger_digest db (reversal_posting r original) supply

  unfoldable pub reverse_entry : Db → Reversal → Supply → Result Error (Entry × Db)
  unfolding reversal_checks reversal_posting
  reverse_entry db r supply = reverse_found db r supply (find_entry db.entries r.original_entry_id)
