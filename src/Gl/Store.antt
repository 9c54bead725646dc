-- ===== src/Gl/Store.antt =====
-- The tables of the general ledger (app/models/__init__.py) and the reads of app/core/gl.py that
-- posting makes. Ids are texts that are only compared; a list holds a table in insertion order.
use jewelry_backend.Common.{
  ℕ, ◌+◌, Bool, true, false, not, ◌&&◌, ◌||◌, Option, none, some, List, [], ◌∷◌, String, str_eq,
  ◌==◌, if◌then◌else◌, Result, ok, err, ◌>>=◌, find,
}
use jewelry_backend.Common.Dates.{Date, DocNo, same_day_key}
use jewelry_backend.Money.{Decimal}
use jewelry_backend.Audit.{Row}
use jewelry_backend.Audit.Ledger.{Log, LedgerFields}
use jewelry_backend.Gl.Lines.{GlLine, Denomination, LineError}

pub data AccountType : Type 0 where
  asset liability equity income expense : AccountType

pub record Account : Type 0 where
  pub id : String
  pub code : String
  pub type : AccountType
  pub denomination : Denomination
  pub system_key : Option String
  pub is_active : Bool

pub data PeriodStatus : Type 0 where
  opened closed : PeriodStatus

pub record Period : Type 0 where
  pub id : String
  pub year : ℕ
  pub period_no : ℕ
  pub status : PeriodStatus

-- A counter row of `gl_entry_sequence`: the last number given out for its series and day.
pub record Sequence : Type 0 where
  pub key : DocNo

-- `_GL_LINE_FIELDS`: the columns of a stored line, which are also what is hashed of it.
pub record JournalLine : Type 0 where
  pub account_id : String
  pub money_debit : Decimal
  pub money_credit : Decimal
  pub currency : String
  pub fx_rate : Decimal
  pub base_debit : Decimal
  pub base_credit : Decimal
  pub metal_debit_grams : Decimal
  pub metal_credit_grams : Decimal
  pub karat : Option String
  pub memo : String

-- `_GL_HEADER_FIELDS`
pub record Header : Type 0 where
  pub entry_no : DocNo
  pub entry_date : Date
  pub memo : String
  pub source_type : String
  pub source_id : Option String
  pub reverses_entry_id : Option String
  pub actor_user_id : String
  pub occurred_at : ℕ

-- What `compute_gl_entry_hash` hashes beside the hash before it.
pub record GlFields : Type 0 where
  pub header : Header
  pub lines : List JournalLine

-- `GLJournalEntry` with its lines, in the order of `line_no`
pub record Entry : Type 0 where
  pub period_id : String
  pub row : Row GlFields

abbrev pub entry_id : Entry → String
entry_id e = e.row.id

abbrev pub header_of : Entry → Header
header_of e = e.row.fields.header

abbrev pub lines_of : Entry → List JournalLine
lines_of e = e.row.fields.lines

abbrev pub entry_rows : List Entry → List (Row GlFields)
entry_rows [] = []
entry_rows (e ∷ es) = e.row ∷ entry_rows es

-- The database, as far as the general ledger goes, with the two chain heads.
pub record Db : Type 0 where
  pub accounts : List Account
  pub periods : List Period
  pub sequences : List Sequence
  pub entries : List Entry
  pub latest_entry_hash : String
  pub row_count : ℕ
  pub ledger : Log LedgerFields

-- What the handlers raise, by cause.
pub data Error : Type 0 where
  no_period : Date → Error
  period_closed : Date → Error
  unknown_account : String → Error
  inactive_account : String → Error
  unbalanced : List LineError → Error
  reversed_already : DocNo → Error
  source_posted : DocNo → Error
  entry_not_found : Error
  is_a_reversal : DocNo → Error
  is_a_year_close : DocNo → Error
  hash_refused : Error
  not_seeded : String → Error

-- The HTTP status of each.
pub status_code : Error → ℕ
status_code (no_period _) = 422
status_code (period_closed _) = 422
status_code (unknown_account _) = 422
status_code (inactive_account _) = 422
status_code (unbalanced _) = 422
status_code (reversed_already _) = 409
status_code (source_posted _) = 409
status_code entry_not_found = 404
status_code (is_a_reversal _) = 409
status_code (is_a_year_close _) = 409
status_code hash_refused = 500
status_code (not_seeded _) = 422

abbrev pub is_open : PeriodStatus → Bool
is_open opened = true
is_open closed = false

-- `_resolve_open_period`
unfoldable pub resolve_open_period : List Period → Date → Bool → Result Error Period
resolve_open_period periods entry_date allow_closed =
    elim (find (λ p. p.year == entry_date.year && p.period_no == entry_date.month) periods) [
      | none ↦ err (no_period entry_date)
      | some period ↦
          if not (is_open period.status) && not allow_closed
          then err (period_closed entry_date)
          else ok period
    ]

-- `_next_entry_no` and `ar._next_doc_no`: the counter of the series and day goes up by one, and
-- starts at zero where there is no row yet.
unfoldable pub next_doc_no : List Sequence → String → Date → DocNo × List Sequence
next_doc_no [] series day =
    let number : DocNo = record { series = series; day = day; seq = 1 } in
    (number, record { key = number } ∷ [])
next_doc_no (row ∷ rows) series day =
    let number : DocNo = record { series = series; day = day; seq = row.key.seq + 1 } in
    let rest = next_doc_no rows series day in
    if same_day_key row.key number
    then (number, record { key = number } ∷ rows)
    else (rest.0, row ∷ rest.1)

-- A line at its account's denomination; the account must exist and be active.
abbrev pub resolve_line : Option Account → GlLine → Result Error GlLine
resolve_line none ln = err (unknown_account ln.account_id)
resolve_line (some acct) ln =
    if acct.is_active
    then ok (record ln { denomination = acct.denomination })
    else err (inactive_account acct.code)

-- `_resolve_denominations`
unfoldable pub resolve_denominations : List Account → List GlLine → Result Error (List GlLine)
resolve_denominations accounts [] = ok []
resolve_denominations accounts (ln ∷ lines) =
    let rest = resolve_denominations accounts lines in
    do
      ln' ← resolve_line (find (λ a. str_eq a.id ln.account_id) accounts) ln
      lines' ← rest
      ok (ln' ∷ lines')

-- `GLJournalEntry.reverses_entry_id == entry_id`
abbrev pub reverses_target : String → Option String → Bool
reverses_target id none = false
reverses_target id (some r) = str_eq r id

abbrev pub reverses : String → Entry → Bool
reverses id e = reverses_target id (header_of e).reverses_entry_id

abbrev pub is_present : Option String → Bool
is_present none = false
is_present (some r) = true

abbrev pub is_reversal : Entry → Bool
is_reversal e = is_present (header_of e).reverses_entry_id

abbrev pub is_text : String → Option String → Bool
is_text id none = false
is_text id (some s) = str_eq s id

-- An entry of the source that is not a reversal.
abbrev pub live_for : String → String → Entry → Bool
live_for source_type source_id e =
    str_eq (header_of e).source_type source_type
    && (is_text source_id (header_of e).source_id && not (is_reversal e))

unfoldable pub find_reversal : List Entry → String → Option Entry
find_reversal entries id = find (reverses id) entries

-- `GL_UNIQUE_LIVE_SOURCE_TYPES`
unfoldable pub unique_live_source_type : String → Bool
unique_live_source_type s =
    str_eq s "ORDER"
    || str_eq s "ORDER_REFUND"
    || str_eq s "SUPPLIER_PURCHASE"
    || str_eq s "SUPPLIER_PAYMENT"
    || str_eq s "BUYBACK"
    || str_eq s "MELT"
    || str_eq s "ADJUSTMENT"

-- `_refuse_duplicate_posting`
unfoldable pub refuse_duplicate_posting :
    List Entry → String → Option String → Option String → Result Error (Unit {0})
unfolding find_reversal
refuse_duplicate_posting entries source_type source_id (some id) = elim (find_reversal entries id) [
  | none ↦ ok tt
  | some existing ↦ err (reversed_already (header_of existing).entry_no)
]
refuse_duplicate_posting entries source_type none none = ok tt
refuse_duplicate_posting entries source_type (some id) none =
    if unique_live_source_type source_type
    then elim (find (live_for source_type id) entries) [
      | none ↦ ok tt
      | some existing ↦ err (source_posted (header_of existing).entry_no)
    ]
    else ok tt
