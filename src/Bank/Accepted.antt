-- ===== src/Bank/Accepted.antt =====
-- What it comes to when the suggestions for a statement are accepted, and taken back.
use jewelry_backend.Common.{
  ℕ, suc, ◌+◌, ◌≤◌, arith, ◌≡◌, refl, sym, ap, ◌∙◌, inl, inr, Bool, true, false, not, ◌&&◌, ◌||◌,
  Option, none, some, List, [], ◌∷◌, ◌++◌, String, str_eq, eq_iff, if◌then◌else◌, Bool-cases,
  Option-cases, ok, find, All, All-map, ◌⊎◌, count_if,
}
use jewelry_backend.Bank.Matching.{
  StatementLine, LineStatus, unmatched, matched, LedgerLine, Suggestion, is_matched, same_text,
  has_text, fits, may_match, suggest_matches, apply_match, unmatch, is_of, suggest_matches_once,
  none_of,
}
use jewelry_backend.Bank.Statement.{unmatched_lines, cleared_ids, texts_of, suggestions_for}
use jewelry_backend.Bank.Changes.{
  accept_all, take_back, is_matched_to, matches_of, has_line, UniqueKeys, OpenNameNone,
  change_line_first, Elsewhere, accept_all_behind, take_back_behind, matched_with, apply_match_open,
  unmatch-matched,
}

or_true : (b c : Bool) → c ≡ true → (b || c) ≡ true
or_true true c e = refl
or_true false c e = e

-- Every suggestion is for one of the lines.
suggested_lines :
    (window : ℕ) (gl_rows : List LedgerLine) (cleared used : List String)
    (lines : List StatementLine)
    → All
        (λ s. has_line s.statement_line.id lines ≡ true)
        (suggest_matches window gl_rows cleared used lines)
unfolding suggest_matches
suggested_lines window gl_rows cleared used [] = tt
suggested_lines window gl_rows cleared used (sl ∷ lines) =
    elim (Option-cases (find (may_match window cleared used sl) gl_rows)) [
      | inl nothing ↦
          rw nothing (All-map _ _ later _ (suggested_lines window gl_rows cleared used lines))
      | inr (line, found) ↦ rw found (
        first (str_eq sl.id sl.id) ((eq_iff sl.id sl.id).1 refl),
        All-map _ _ later _ (suggested_lines window gl_rows cleared (line.id ∷ used) lines),
      )
    ]
  where
    first : (b : Bool) → b ≡ true → (b || has_line sl.id lines) ≡ true
    first true e = refl
    first false e = cc

    later :
        (s : Suggestion)
        → has_line s.statement_line.id lines ≡ true
        → has_line s.statement_line.id (sl ∷ lines) ≡ true
    later s h = or_true (str_eq sl.id s.statement_line.id) _ h

unmatched_lines-has_line :
    (account id : String) (rows : List StatementLine)
    → has_line id (unmatched_lines account rows) ≡ true
    → has_line id rows ≡ true
unfolding unmatched_lines
unmatched_lines-has_line account id [] h = h
unmatched_lines-has_line account id (sl ∷ rows) h =
    kept (str_eq sl.bank_account_id account && not (is_matched sl.status)) h
      (unmatched_lines-has_line account id rows)
  where
    either :
        (this before now : Bool)
        → (this || before) ≡ true
        → (before ≡ true → now ≡ true)
        → (this || now) ≡ true
    either true before now e later = refl
    either false before now e later = later e

    kept :
        (open' : Bool)
        → has_line id
            (if open' then sl ∷ unmatched_lines account rows else unmatched_lines account rows)
          ≡ true
        → (has_line id (unmatched_lines account rows) ≡ true → has_line id rows ≡ true)
        → has_line id (sl ∷ rows) ≡ true
    kept true e later = either (str_eq sl.id id) _ _ e later
    kept false e later = or_true (str_eq sl.id id) _ (later e)

apart_from :
    (id : String) (rows : List StatementLine) (items : List Suggestion)
    → has_line id rows ≡ false
    → All (λ s. has_line s.statement_line.id rows ≡ true) items
    → Elsewhere id items
apart_from id rows [] h k = tt
apart_from id rows (s ∷ items) h k = (other (Bool-cases _), apart_from id rows items h k.1)
  where
    other :
        (str_eq id s.statement_line.id ≡ true) ⊎ (str_eq id s.statement_line.id ≡ false)
        → str_eq id s.statement_line.id ≡ false
    other (inl same) = absurd_flag (sym h ∙ (ap (λ x. has_line x rows) ((eq_iff _ _).0 same) ∙ k.0))
      where
        absurd_flag : {A : Type 0} → false ≡ true → A
        absurd_flag e = cc
    other (inr differ) = differ

-- What accepting the suggestions of a list does to the rows.
record Accepted (items : List Suggestion) (rows : List StatementLine) : Type 0 where
  changed : List StatementLine
  accepted : accept_all items rows ≡ ok changed
  taken_back : take_back items changed ≡ ok rows
  keys : (id : String) → has_line id changed ≡ has_line id rows
  counts : (id : String) → matches_of id changed ≡ matches_of id rows + count_if (is_of id) items

-- A row that is left as it is.
passed :
    (r : StatementLine) (items : List Suggestion) (rows : List StatementLine)
    → Elsewhere r.id items
    → Accepted items rows
    → Accepted items (r ∷ rows)
passed r items rows apart a = record {
  changed = r ∷ a.changed;
  accepted = accept_all_behind r items rows apart a.accepted;
  taken_back = take_back_behind r items a.changed apart a.taken_back;
  keys = λ id. ap (λ (b : Bool). str_eq r.id id || b) (a.keys id);
  counts = λ id. count (is_matched_to id r) _ _ _ (a.counts id);
}
  where
    count :
        (b : Bool) (now before more : ℕ)
        → now ≡ before + more
        → elim b [ true ↦ suc now | false ↦ now ]
          ≡ elim b [ true ↦ suc before | false ↦ before ] + more
    count true now before more e = omega (arith, e)
    count false now before more e = e

-- A row that is open and is matched.
took :
    (r : StatementLine) (line : LedgerLine) (items : List Suggestion) (rows : List StatementLine)
    → has_line r.id rows ≡ false
    → is_matched r.status ≡ false
    → r.matched_gl_line_id ≡ none
    → Elsewhere r.id items
    → Accepted items rows
    → Accepted (record { statement_line = r; gl_line = line } ∷ items) (r ∷ rows)
unfolding accept_all take_back
took r line items rows apart open' names elsewhere a =
    let r' = matched_with r line.id in
    record {
      changed = r' ∷ a.changed;
      accepted =
          rw
            (change_line_first (λ sl. apply_match sl line.id) r r' rows apart
              (apply_match_open r line.id open'))
            (accept_all_behind r' items rows elsewhere a.accepted);
      taken_back =
          rw
            (change_line_first (λ sl. ok (unmatch sl)) r' r a.changed (a.keys r.id ∙ apart)
              (ap ok (unmatch-matched r line.id open' names)))
            (take_back_behind r items a.changed elsewhere a.taken_back);
      keys = λ id. ap (λ (b : Bool). str_eq r.id id || b) (a.keys id);
      counts = λ id. rw (open', count_if) (count (str_eq line.id id) _ _ _ (a.counts id));
    }
  where
    count :
        (b : Bool) (now before more : ℕ)
        → now ≡ before + more
        → elim b [ true ↦ suc now | false ↦ now ]
          ≡ before + elim b [ true ↦ suc more | false ↦ more ]
    count true now before more e = omega (arith, e)
    count false now before more e = e

suggestions-Accepted :
    (account : String) (window : ℕ) (gl_rows : List LedgerLine) (cleared used : List String)
    (rows : List StatementLine)
    → UniqueKeys rows
    → OpenNameNone rows
    → Accepted (suggest_matches window gl_rows cleared used (unmatched_lines account rows)) rows
unfolding suggest_matches unmatched_lines accept_all take_back
suggestions-Accepted account window gl_rows cleared used [] unique names = record {
  changed = [];
  accepted = refl;
  taken_back = refl;
  keys = λ id. refl;
  counts = λ id. refl;
}
suggestions-Accepted account window gl_rows cleared used (r ∷ rows) unique names =
    elim (Bool-cases (str_eq r.bank_account_id account && not (is_matched r.status))) [
      | inr skipped ↦ rw skipped (
          passed r _ rows (others used)
            (suggestions-Accepted account window gl_rows cleared used rows unique.1 names.1))
      | inl wanted ↦
          rw wanted (elim (Option-cases (find (may_match window cleared used r) gl_rows)) [
            | inl nothing ↦ rw nothing (
                passed r _ rows (others used)
                  (suggestions-Accepted account window gl_rows cleared used rows unique.1 names.1))
            | inr (line, found) ↦
                let open' = is_open (str_eq r.bank_account_id account) _ wanted in
                rw found (
                  took r line _ rows unique.0 open' (names.0 open') (others (line.id ∷ used)) (
                    suggestions-Accepted account window gl_rows cleared (line.id ∷ used) rows
                      unique.1 names.1))
          ])
    ]
  where
    is_open : (b c : Bool) → (b && not c) ≡ true → c ≡ false
    is_open true true h = cc
    is_open true false h = refl
    is_open false c h = cc

    others :
        (taken : List String)
        → Elsewhere r.id
            (suggest_matches window gl_rows cleared taken (unmatched_lines account rows))
    others taken = apart_from r.id rows _ unique.0 (
        All-map _ _ (λ s h. unmatched_lines-has_line account s.statement_line.id rows h) _
          (suggested_lines window gl_rows cleared taken (unmatched_lines account rows)))

-- A ledger line that no matched line names is not cleared.
cleared_ids-matches_of :
    (id : String) (rows : List StatementLine)
    → has_text id (cleared_ids rows) ≡ false
    → matches_of id rows ≡ 0
unfolding cleared_ids
cleared_ids-matches_of id [] h = refl
cleared_ids-matches_of id (sl ∷ rows) h =
    one sl.status sl.matched_gl_line_id h (cleared_ids-matches_of id rows)
  where
    one :
        (st : LineStatus) (name : Option String)
        → has_text id
            (if is_matched st then texts_of name ++ cleared_ids rows else cleared_ids rows)
          ≡ false
        → (has_text id (cleared_ids rows) ≡ false → matches_of id rows ≡ 0)
        → elim (is_matched st && same_text name id) [
          | true ↦ suc (matches_of id rows)
          | false ↦ matches_of id rows
        ]
          ≡ 0
    one unmatched name e later = later e
    one matched none e later = later e
    one matched (some x) e later = not_this (str_eq x id) _ _ e later
      where
        not_this :
            (b others : Bool) (n : ℕ)
            → (b || others) ≡ false
            → (others ≡ false → n ≡ 0)
            → elim b [ true ↦ suc n | false ↦ n ] ≡ 0
        not_this true others n f zero = cc
        not_this false others n f zero = zero f

-- The suggestions for an account, of a table with unique keys in which no ledger line is matched
-- twice and an open line names none: each pairs its line with a ledger line of an equal amount on
-- the side that its sign asks for, at most `window` days away; accepting them one by one succeeds
-- and leaves no ledger line matched twice; and unmatching their lines restores the table.
pub suggestions_restored :
    (account : String) (window : ℕ) (gl_rows : List LedgerLine) (rows : List StatementLine)
    → UniqueKeys rows
    → OpenNameNone rows
    → ((id : String) → matches_of id rows ≤ 1)
    → All
        (λ s. fits window s.statement_line s.gl_line ≡ true)
        (suggestions_for account window gl_rows rows)
      × ((changed : List StatementLine) × (accept_all
              (suggestions_for account window gl_rows rows)
              rows
            ≡ ok changed)
          × ((id : String) → matches_of id changed ≤ 1)
          × (take_back (suggestions_for account window gl_rows rows) changed ≡ ok rows))
suggestions_restored account window gl_rows rows unique names single =
    let (paired, once) =
      suggest_matches_once window gl_rows (cleared_ids rows) (unmatched_lines account rows) in
    let a = suggestions-Accepted account window gl_rows (cleared_ids rows) [] rows unique names in
    (
      All-map _ _ (λ s h. h.0) _ paired,
      (
        a.changed,
        a.accepted,
        (λ id. rw (a.counts id) (elim (Bool-cases (has_text id (cleared_ids rows))) [
          | inl cleared ↦
              fits_one _ _ (single id)
                (none_of id (cleared_ids rows) _ cleared (All-map _ _ (λ s h. h.1) _ paired))
          | inr open' ↦ first_one _ _ (cleared_ids-matches_of id rows open') (once id)
        ])),
        a.taken_back,
      ),
    )
  where
    fits_one : (m n : ℕ) → m ≤ 1 → n ≡ 0 → m + n ≤ 1
    fits_one m n h e = omega arith

    first_one : (m n : ℕ) → m ≡ 0 → n ≤ 1 → m + n ≤ 1
    first_one m n e h = omega arith
