-- ===== src/Gl/Post.antt =====
-- `post_entry` of app/core/gl.py, in the caller's transaction: a refusal leaves the tables as they
-- were. The row locks make it one step. The unique indexes behind its checks are not modelled:
-- that they never fire is what the theorems on duplicates show.
pub mod Numbers
pub mod Checks
pub mod Written
pub mod Invariant
pub mod Soundness
use jewelry_backend.Common.{
  ℕ, ◌+◌, Bool, Option, none, some, List, [], ◌∷◌, ◌++◌, String, map, Result, ok, err, ◌>>=◌, ◌>>◌,
  length,
}
use jewelry_backend.Common.Dates.{Date, DocNo}
use jewelry_backend.Money.{Decimal}
use jewelry_backend.Audit.{ChainError, compute_entry_hash}
use jewelry_backend.Audit.Ledger.{LedgerFields, Value, append}
use jewelry_backend.Audit.Ledger
use jewelry_backend.Gl.Lines.{GlLine, LineError, normalize_line_decimals, validate_balanced, sum_of}
use jewelry_backend.Gl.Store.{
  Period, JournalLine, Header, GlFields, Entry, Db, Error, unbalanced, hash_refused,
  resolve_open_period, resolve_denominations, refuse_duplicate_posting, next_doc_no,
}

-- The arguments of `post_entry`.
pub record Posting : Type 0 where
  pub entry_date : Date
  pub memo : String
  pub source_type : String
  pub source_id : Option String
  pub lines : List GlLine
  pub actor_user_id : String
  pub reverses_entry_id : Option String
  pub occurred_at : Option ℕ
  pub allow_closed_period : Bool

-- What the database and the clock supply: two new keys and the time.
pub record Supply : Type 0 where
  pub entry_id : String
  pub event_id : String
  pub now : ℕ

-- `_line_to_hash_dict`
abbrev pub line_to_hash_dict : GlLine → JournalLine
line_to_hash_dict ln = record {
  account_id = ln.account_id;
  money_debit = ln.money_debit;
  money_credit = ln.money_credit;
  currency = ln.currency;
  fx_rate = ln.fx_rate;
  base_debit = ln.base_debit;
  base_credit = ln.base_credit;
  metal_debit_grams = ln.metal_debit_grams;
  metal_credit_grams = ln.metal_credit_grams;
  karat = ln.karat;
  memo = ln.memo;
}

abbrev pub or_now : Option ℕ → ℕ → ℕ
or_now none now = now
or_now (some t) now = t

-- `if errors: raise`
abbrev pub require_valid : List LineError → Result Error (Unit {0})
require_valid [] = ok tt
require_valid (e ∷ es) = err (unbalanced (e ∷ es))

abbrev pub hashed : {A : Type 0} → Result ChainError A → Result Error A
hashed (ok a) = ok a
hashed (err _) = err hash_refused

-- The part before the first write: the period, and the lines that are to be stored.
unfoldable pub post_checks : Db → Posting → Result Error (Period × List GlLine)
post_checks db p = do
  period ← resolve_open_period db.periods p.entry_date p.allow_closed_period
  resolved ← resolve_denominations db.accounts p.lines
  let lines = map normalize_line_decimals resolved
  require_valid (validate_balanced lines)
  refuse_duplicate_posting db.entries p.source_type p.source_id p.reverses_entry_id
  ok (period, lines)

abbrev pub fields_of : Posting → Supply → DocNo → List GlLine → GlFields
fields_of p supply entry_no lines = record {
  header = record {
    entry_no = entry_no;
    entry_date = p.entry_date;
    memo = p.memo;
    source_type = p.source_type;
    source_id = p.source_id;
    reverses_entry_id = p.reverses_entry_id;
    actor_user_id = p.actor_user_id;
    occurred_at = or_now p.occurred_at supply.now;
  };
  lines = map line_to_hash_dict lines;
}

-- The event GL_ENTRY_POSTED of the inventory ledger.
abbrev pub posted_event : Posting → Supply → DocNo → List GlLine → LedgerFields
posted_event p supply entry_no lines = record {
  event_type = "GL_ENTRY_POSTED";
  actor_user_id = p.actor_user_id;
  occurred_at = supply.now;
  ref_type = "gl_journal_entry";
  ref_id = supply.entry_id;
  payload =
      ("entry_no", Value.doc_no entry_no)
      ∷ ("source_type", Value.text p.source_type)
      ∷ ("source_id", Value.optional p.source_id)
      ∷ ("line_count", Value.number (length lines))
      ∷ ("base_debit_total", Value.amount (sum_of GlLine.base_debit lines))
      ∷ [];
}

module _ (gl_digest : String → GlFields → String)
    (ledger_digest : String → LedgerFields → String) where
  -- The writes: the entry number, the entry with its lines, the head and the audit event.
  unfoldable pub write_entry :
      Db → Posting → Supply → Period → List GlLine → Result Error (Entry × Db)
  unfolding append compute_entry_hash
  write_entry db p supply period lines =
      let (entry_no, sequences) = next_doc_no db.sequences "JE" p.entry_date in
      let fields = fields_of p supply entry_no lines in
      do
        entry_hash ← hashed (compute_entry_hash gl_digest db.latest_entry_hash fields)
        ledger ←
            hashed (
              append ledger_digest db.ledger supply.event_id (posted_event p supply entry_no lines))
        let entry : Entry = record {
          period_id = period.id;
          row = record {
            id = supply.entry_id;
            prev_hash = db.latest_entry_hash;
            entry_hash = entry_hash;
            fields = fields;
          };
        }
        ok (
          entry,
          record db {
            sequences = sequences;
            entries = db.entries ++ entry ∷ [];
            latest_entry_hash = entry_hash;
            row_count = db.row_count + 1;
            ledger = ledger;
          },
        )

  unfoldable pub post_entry : Db → Posting → Supply → Result Error (Entry × Db)
  post_entry db p supply =
      post_checks db p >>= λ checked. write_entry db p supply checked.0 checked.1
