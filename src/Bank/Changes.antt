-- ===== src/Bank/Changes.antt =====
-- Lines of a statement that are changed one by one, for a list of suggestions.
use jewelry_backend.Common.{
  ℕ, arith, ◌≡◌, refl, sym, ap, ap₂, Bool, true, false, ◌&&◌, ◌||◌, Option, none, some, List, [],
  ◌∷◌, String, str_eq, eq_iff, Result, ok, err, ◌>>=◌, find, replace, All, count_if, ok-injective,
  bind_inversion,
}
use jewelry_backend.Bank.{Error}
use jewelry_backend.Bank.Matching.{
  StatementLine, LineStatus, unmatched, matched, Suggestion, is_matched, same_text, apply_match,
  unmatch,
}
use jewelry_backend.Bank.Statement.{has_key, require_line, change_line, apply_match_to, unmatch_of}

-- The suggestions are accepted one by one, in their order, and taken back likewise.
unfoldable pub accept_all : List Suggestion → List StatementLine → Result Error (List StatementLine)
accept_all [] rows = ok rows
accept_all (s ∷ items) rows =
    apply_match_to s.statement_line.id s.gl_line.id rows >>= accept_all items

unfoldable pub take_back : List Suggestion → List StatementLine → Result Error (List StatementLine)
take_back [] rows = ok rows
take_back (s ∷ items) rows = unmatch_of s.statement_line.id rows >>= take_back items

-- How many lines are matched to a ledger line.
abbrev pub is_matched_to : String → StatementLine → Bool
is_matched_to id sl = is_matched sl.status && same_text sl.matched_gl_line_id id

abbrev pub matches_of : String → List StatementLine → ℕ
matches_of id = count_if (is_matched_to id)

abbrev pub has_line : String → List StatementLine → Bool
has_line id [] = false
has_line id (sl ∷ rows) = str_eq sl.id id || has_line id rows

-- Keys are unique.
abbrev pub UniqueKeys : List StatementLine → Type 0
UniqueKeys [] = Unit
UniqueKeys (sl ∷ rows) = (has_line sl.id rows ≡ false) × UniqueKeys rows

-- A line that is not matched names no ledger line.
abbrev pub OpenNameNone : List StatementLine → Type 0
OpenNameNone rows = All (λ sl. is_matched sl.status ≡ false → sl.matched_gl_line_id ≡ none) rows

replace_absent :
    (id : String) (y : StatementLine) (rows : List StatementLine)
    → has_line id rows ≡ false
    → replace (has_key id) y rows ≡ rows
replace_absent id y [] h = refl
replace_absent id y (sl ∷ rows) h = ground (arith, replace_absent id y rows)

-- A line that is not the first is changed behind the first.
change_line_behind :
    (change : StatementLine → Result Error StatementLine) (id : String) (r : StatementLine)
    (rows : List StatementLine)
    → str_eq r.id id ≡ false
    → change_line change id (r ∷ rows) ≡ (change_line change id rows >>= λ rows'. ok (r ∷ rows'))
unfolding change_line
change_line_behind change id r rows h =
    skip (str_eq r.id id) (find (has_key id) rows) (λ c. replace (has_key id) c rows) h
  where
    then_first :
        (x : Result Error StatementLine) (rest : StatementLine → List StatementLine)
        → (x >>= λ c. ok (r ∷ rest c)) ≡ ((x >>= λ c. ok (rest c)) >>= λ rows'. ok (r ∷ rows'))
    then_first (err raised) rest = refl
    then_first (ok c) rest = refl

    skip :
        (b : Bool) (found : Option StatementLine) (rest : StatementLine → List StatementLine)
        → b ≡ false
        → (require_line (elim b [ true ↦ some r | false ↦ found ]) >>= λ sl.
            change sl >>= λ c. ok (elim b [ true ↦ c | false ↦ r ] ∷ rest c))
          ≡ ((require_line found >>= λ sl. change sl >>= λ c. ok (rest c)) >>= λ rows'.
              ok (r ∷ rows'))
    skip true found rest e = cc
    skip false none rest e = refl
    skip false (some sl) rest e = then_first (change sl) rest

-- The first line is changed in its place.
pub change_line_first :
    (change : StatementLine → Result Error StatementLine) (r r' : StatementLine)
    (rows : List StatementLine)
    → has_line r.id rows ≡ false
    → change r ≡ ok r'
    → change_line change r.id (r ∷ rows) ≡ ok (r' ∷ rows)
unfolding change_line
change_line_first change r r' rows apart done =
    first (str_eq r.id r.id) (find (has_key r.id) rows) ((eq_iff r.id r.id).1 refl)
  where
    first :
        (b : Bool) (found : Option StatementLine)
        → b ≡ true
        → (require_line (elim b [ true ↦ some r | false ↦ found ]) >>= λ sl.
            change sl >>= λ c. ok (elim b [ true ↦ c | false ↦ r ] ∷ replace (has_key r.id) c rows))
          ≡ ok (r' ∷ rows)
    first true found e = rw (done, replace_absent r.id r' rows apart) refl
    first false found e = cc

-- Suggestions for other lines than the first leave it where it is.
abbrev pub Elsewhere : String → List Suggestion → Type 0
Elsewhere id items = All (λ s. str_eq id s.statement_line.id ≡ false) items

pub accept_all_behind :
    (r : StatementLine) (items : List Suggestion) (rows : List StatementLine)
    {rows' : List StatementLine}
    → Elsewhere r.id items
    → accept_all items rows ≡ ok rows'
    → accept_all items (r ∷ rows) ≡ ok (r ∷ rows')
unfolding accept_all
accept_all_behind r [] rows {rows'} apart h =
    ap (λ (x : List StatementLine). ok (r ∷ x)) (ok-injective h)
accept_all_behind r (s ∷ items) rows {rows'} apart h =
    let (next, changed, h1) =
      bind_inversion (apply_match_to s.statement_line.id s.gl_line.id rows) _ h in
    rw
      (
        change_line_behind (λ sl. apply_match sl s.gl_line.id) s.statement_line.id r rows apart.0,
        changed,
      )
      (accept_all_behind r items next apart.1 h1)

pub take_back_behind :
    (r : StatementLine) (items : List Suggestion) (rows : List StatementLine)
    {rows' : List StatementLine}
    → Elsewhere r.id items
    → take_back items rows ≡ ok rows'
    → take_back items (r ∷ rows) ≡ ok (r ∷ rows')
unfolding take_back
take_back_behind r [] rows {rows'} apart h =
    ap (λ (x : List StatementLine). ok (r ∷ x)) (ok-injective h)
take_back_behind r (s ∷ items) rows {rows'} apart h =
    let (next, changed, h1) = bind_inversion (unmatch_of s.statement_line.id rows) _ h in
    rw (change_line_behind (λ sl. ok (unmatch sl)) s.statement_line.id r rows apart.0, changed)
      (take_back_behind r items next apart.1 h1)

-- Matching a line that is open, and unmatching it again.
open_status : (st : LineStatus) → is_matched st ≡ false → st ≡ unmatched
open_status unmatched h = refl
open_status matched h = cc

abbrev pub matched_with : StatementLine → String → StatementLine
matched_with r id = record r { matched_gl_line_id = some id; status = matched }

pub apply_match_open :
    (r : StatementLine) (id : String)
    → is_matched r.status ≡ false
    → apply_match r id ≡ ok (matched_with r id)
unfolding apply_match
apply_match_open r id h = rw h refl

pub unmatch-matched :
    (r : StatementLine) (id : String)
    → is_matched r.status ≡ false
    → r.matched_gl_line_id ≡ none
    → unmatch (matched_with r id) ≡ r
unmatch-matched r id h e =
    ap₂ (λ m st. record r { matched_gl_line_id = m; status = st }) (sym e)
      (sym (open_status r.status h))
