-- ===== src/Bank/Matching.antt =====
-- The loop of `suggest_matches`, the change of a line by `apply_match` and `unmatch`, and the
-- reconciliation of app/core/bank.py; the queries around them are in Bank/Statement.
use jewelry_backend.Common.{
  ℕ, ◌≤◌, ◌-◌, ◌≡◌, refl, sym, ap, ◌∙◌, inl, inr, Bool, true, false, not, ◌&&◌, ◌||◌, Option, none,
  some, List, [], ◌∷◌, ◌++◌, String, str_eq, if◌then◌else◌, leb, ltb, arith, Bool-cases,
  Option-cases, Result, ok, err, find, find-test, All, All-map, count_if, eq_iff,
}
use jewelry_backend.Common.Int.{pos, ◌-ℤ◌, ltb_ℤ, eq_ℤ}
use jewelry_backend.Money.{Decimal, quantize, magnitude}
use jewelry_backend.Gl.Lines.{q_money, sum_of}
use jewelry_backend.Bank.{Error, matched_elsewhere}

pub data LineStatus : Type 0 where
  unmatched matched : LineStatus

pub record StatementLine : Type 0 where
  pub id : String
  pub bank_account_id : String
  pub stmt_date : ℕ
  pub amount : Decimal
  pub matched_gl_line_id : Option String
  pub status : LineStatus
  pub reconciliation_id : Option String

-- A line of the account with the date of its entry.
pub record LedgerLine : Type 0 where
  pub id : String
  pub entry_date : ℕ
  pub money_debit : Decimal
  pub money_credit : Decimal

abbrev pub is_matched : LineStatus → Bool
is_matched matched = true
is_matched unmatched = false

-- `abs((a - b).days) > window_days`
abbrev pub too_far : ℕ → ℕ → ℕ → Bool
too_far window a b = ltb window (a - b) || ltb window (b - a)

abbrev pub side_of : StatementLine → LedgerLine → Decimal
side_of sl line = if ltb_ℤ (pos 0) sl.amount then line.money_debit else line.money_credit

abbrev pub has_text : String → List String → Bool
has_text id [] = false
has_text id (x ∷ xs) = str_eq x id || has_text id xs

-- The amount, to the side that the sign asks for, and the day.
abbrev pub fits : ℕ → StatementLine → LedgerLine → Bool
fits window sl line =
    eq_ℤ (side_of sl line) (pos (magnitude sl.amount))
    && not (too_far window line.entry_date sl.stmt_date)

-- The tests of the inner loop, in their order.
abbrev pub may_match : ℕ → List String → List String → StatementLine → LedgerLine → Bool
may_match window cleared used sl line =
    not (has_text line.id cleared || has_text line.id used) && fits window sl line

pub record Suggestion : Type 0 where
  pub statement_line : StatementLine
  pub gl_line : LedgerLine

abbrev pub suggested : StatementLine → Option LedgerLine → List Suggestion
suggested sl none = []
suggested sl (some line) = record { statement_line = sl; gl_line = line } ∷ []

abbrev pub used_with : List String → Option LedgerLine → List String
used_with used none = used
used_with used (some line) = line.id ∷ used

-- The outer loop over the unmatched lines of the statement.
unfoldable pub suggest_matches :
    ℕ → List LedgerLine → List String → List String → List StatementLine → List Suggestion
suggest_matches window gl_rows cleared used [] = []
suggest_matches window gl_rows cleared used (sl ∷ lines) =
    let line = find (may_match window cleared used sl) gl_rows in
    suggested sl line ++ suggest_matches window gl_rows cleared (used_with used line) lines

abbrev pub same_text : Option String → String → Bool
same_text none id = false
same_text (some x) id = str_eq x id

-- A matched line is left as it is for the same ledger line, and refused for another.
unfoldable pub apply_match : StatementLine → String → Result Error StatementLine
apply_match sl gl_line_id =
    let match_it = record sl { matched_gl_line_id = some gl_line_id; status = matched } in
    if is_matched sl.status
    then (if same_text sl.matched_gl_line_id gl_line_id then ok sl else err matched_elsewhere)
    else ok match_it

abbrev pub unmatch : StatementLine → StatementLine
unmatch sl = record sl { matched_gl_line_id = none; status = unmatched }

pub record Reconciliation : Type 0 where
  pub id : String
  pub statement_date : ℕ
  pub statement_balance : Decimal
  pub gl_balance : Decimal
  pub cleared_amount : Decimal
  pub difference : Decimal

abbrev pub dated_by : ℕ → LedgerLine → Decimal
dated_by date line =
    if leb line.entry_date date then line.money_debit -ℤ line.money_credit else pos 0

abbrev pub is_cleared : String → StatementLine → Bool
is_cleared id sl = same_text sl.reconciliation_id id && is_matched sl.status

abbrev pub cleared_of : String → StatementLine → Decimal
cleared_of id sl = if is_cleared id sl then sl.amount else pos 0

unfoldable pub compute_reconciliation :
    List LedgerLine → List StatementLine → Reconciliation → Reconciliation
compute_reconciliation gl_rows lines rec =
    let gl_balance = quantize q_money (sum_of (dated_by rec.statement_date) gl_rows) in
    record rec {
      gl_balance = gl_balance;
      cleared_amount = quantize q_money (sum_of (cleared_of rec.id) lines);
      difference = quantize q_money (rec.statement_balance -ℤ gl_balance);
    }

-- A ledger line that is used already, or cleared, is not suggested again.
abbrev pub is_of : String → Suggestion → Bool
is_of id s = str_eq s.gl_line.id id

and_parts : (b c : Bool) → (not b && c) ≡ true → (b ≡ false) × (c ≡ true)
and_parts true c h = cc
and_parts false c h = (refl, h)

or_false : (b c : Bool) → (b || c) ≡ false → (b ≡ false) × (c ≡ false)
or_false true c h = cc
or_false false c h = (refl, h)

-- Every suggestion fits, and its ledger line is neither cleared nor used before.
pub suggest_matches-All :
    (window : ℕ) (gl_rows : List LedgerLine) (cleared used : List String)
    (lines : List StatementLine)
    → All
        (λ s.
          (fits window s.statement_line s.gl_line ≡ true)
          × (has_text s.gl_line.id cleared ≡ false)
          × (has_text s.gl_line.id used ≡ false))
        (suggest_matches window gl_rows cleared used lines)
unfolding suggest_matches
suggest_matches-All window gl_rows cleared used [] = tt
suggest_matches-All window gl_rows cleared used (sl ∷ lines) =
    elim (Option-cases (find (may_match window cleared used sl) gl_rows)) [
      | inl nothing ↦ rw nothing (suggest_matches-All window gl_rows cleared used lines)
      | inr (line, found) ↦
          let (fresh, fit) =
            and_parts _ _ (find-test (may_match window cleared used sl) gl_rows found) in
          let (open_line, unused) = or_false _ _ fresh in
          rw found (
            (fit, open_line, unused),
            All-map _ _ (λ s h. (h.0, h.1, (or_false _ _ h.2).1)) _
                (suggest_matches-All window gl_rows cleared (line.id ∷ used) lines),
          )
    ]

pub none_of :
    (id : String) (used : List String) (items : List Suggestion)
    → has_text id used ≡ true
    → All (λ s. has_text s.gl_line.id used ≡ false) items
    → count_if (is_of id) items ≡ 0
none_of id used [] taken h = refl
none_of id used (s ∷ items) taken h = elim (Bool-cases (str_eq s.gl_line.id id)) [
  | inl this ↦
      cc
        (sym (h.0) ∙ ap (λ (x : String). has_text x used) ((eq_iff s.gl_line.id id).0 this) ∙ taken)
  | inr other ↦ rw (other, count_if) (none_of id used items taken h.1)
]

suggested_at_most_once :
    (window : ℕ) (gl_rows : List LedgerLine) (cleared used : List String)
    (lines : List StatementLine) (id : String)
    → count_if (is_of id) (suggest_matches window gl_rows cleared used lines) ≤ 1
unfolding suggest_matches
suggested_at_most_once window gl_rows cleared used [] id = omega arith
suggested_at_most_once window gl_rows cleared used (sl ∷ lines) id =
    elim (Option-cases (find (may_match window cleared used sl) gl_rows)) [
      | inl nothing ↦ rw nothing (suggested_at_most_once window gl_rows cleared used lines id)
      | inr (line, found) ↦ elim (Bool-cases (str_eq line.id id)) [
        | inl this ↦
            let later =
              All-map _ (λ s. has_text s.gl_line.id (line.id ∷ used) ≡ false) (λ s h. h.2) _
                (suggest_matches-All window gl_rows cleared (line.id ∷ used) lines) in
            let none_later = none_of id (line.id ∷ used) _ (rw this refl) later in
            rw (found, this, count_if, none_later) (omega arith)
        | inr other ↦
            rw (found, other, count_if)
              (suggested_at_most_once window gl_rows cleared (line.id ∷ used) lines id)
      ]
    ]

-- Every suggestion pairs a statement line with a ledger line of an equal amount on the side that its
-- sign asks for, at most `window` days away, that is not cleared, and no ledger line is suggested
-- twice.
pub suggest_matches_once :
    (window : ℕ) (gl_rows : List LedgerLine) (cleared : List String) (lines : List StatementLine)
    → All
        (λ s.
          (fits window s.statement_line s.gl_line ≡ true) × (has_text s.gl_line.id cleared ≡ false))
        (suggest_matches window gl_rows cleared [] lines)
      × ((id : String) → count_if (is_of id) (suggest_matches window gl_rows cleared [] lines) ≤ 1)
suggest_matches_once window gl_rows cleared lines = (
  All-map _ _ (λ s h. (h.0, h.1)) _ (suggest_matches-All window gl_rows cleared [] lines),
  λ id. suggested_at_most_once window gl_rows cleared [] lines id,
)
