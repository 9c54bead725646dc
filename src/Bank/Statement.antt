-- ===== src/Bank/Statement.antt =====
-- The statement lines as a table: the queries of `suggest_matches`, and `apply_match` and `unmatch`
-- of one line of it, of app/core/bank.py. The lines of the ledger come from a query of their own.
use jewelry_backend.Common.{
  ℕ, Bool, not, ◌&&◌, Option, none, some, List, [], ◌∷◌, ◌++◌, String, str_eq, if◌then◌else◌,
  Result, ok, err, ◌>>=◌, find, replace,
}
use jewelry_backend.Bank.{Error, no_line}
use jewelry_backend.Bank.Matching.{
  StatementLine, LedgerLine, Suggestion, is_matched, suggest_matches, apply_match, unmatch,
}

-- The lines of the account that are not matched.
unfoldable pub unmatched_lines : String → List StatementLine → List StatementLine
unmatched_lines account [] = []
unmatched_lines account (sl ∷ rows) =
    let rest = unmatched_lines account rows in
    if str_eq sl.bank_account_id account && not (is_matched sl.status) then sl ∷ rest else rest

abbrev pub texts_of : Option String → List String
texts_of none = []
texts_of (some id) = id ∷ []

-- The ledger lines that the matched lines of any account name.
unfoldable pub cleared_ids : List StatementLine → List String
cleared_ids [] = []
cleared_ids (sl ∷ rows) =
    let rest = cleared_ids rows in
    if is_matched sl.status then texts_of sl.matched_gl_line_id ++ rest else rest

abbrev pub suggestions_for : String → ℕ → List LedgerLine → List StatementLine → List Suggestion
suggestions_for account window gl_rows rows =
    suggest_matches window gl_rows (cleared_ids rows) [] (unmatched_lines account rows)

abbrev pub has_key : String → StatementLine → Bool
has_key id sl = str_eq sl.id id

abbrev pub require_line : Option StatementLine → Result Error StatementLine
require_line none = err no_line
require_line (some sl) = ok sl

-- One line, by its key, is changed in its place.
unfoldable pub change_line :
    (StatementLine → Result Error StatementLine)
    → String
    → List StatementLine
    → Result Error (List StatementLine)
change_line change id rows = require_line (find (has_key id) rows) >>= λ sl.
    change sl >>= λ changed. ok (replace (has_key id) changed rows)

abbrev pub apply_match_to : String → String → List StatementLine → Result Error (List StatementLine)
apply_match_to id gl_line_id = change_line (λ sl. apply_match sl gl_line_id) id

abbrev pub unmatch_of : String → List StatementLine → Result Error (List StatementLine)
unmatch_of = change_line (λ sl. ok (unmatch sl))
