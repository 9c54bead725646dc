-- ===== src/StockTake/Lines.antt =====
-- A stock take and its lines: the rows, the edits of a draft, and the freeze at the submit.
use jewelry_backend.Common.{
  ℕ, ◌+◌, Bool, true, false, not, ◌&&◌, Option, none, some, List, [], ◌∷◌, ◌++◌, String, str_eq,
  if◌then◌else◌, Result, ok, err, ◌>>=◌, ◌>>◌, raise_if, find, replace,
}
use jewelry_backend.Common.Int.{ℤ, pos, ◌-ℤ◌, nonzero}
use jewelry_backend.Money.{magnitude}
use jewelry_backend.StockTake.Units.{
  RefType, same_ref, UnitRow, Error, wrong_status, line_not_found, line_exists, target_on_hand_qty,
}

pub data TakeStatus : Type 0 where
  draft submitted closed : TakeStatus

pub data Resolution : Type 0 where
  pending approved rejected no_variance : Resolution

-- A row of `stock_take_lines`.
pub record Line : Type 0 where
  pub id : String
  pub ref_type : RefType
  pub ref_id : String
  pub counted_qty : ℤ
  pub expected_qty_at_submit : Option ℤ
  pub variance : Option ℤ
  pub resolution : Resolution
  pub rejection_reason : Option String
  pub adjustment_id : Option String
  pub resolved_at : Option ℕ
  pub resolved_by_user_id : Option String

-- A row of `stock_takes` with its lines.
pub record Take : Type 0 where
  pub id : String
  pub started_by_user_id : String
  pub notes : String
  pub status : TakeStatus
  pub submitted_at : Option ℕ
  pub closed_at : Option ℕ
  pub lines : List Line

abbrev pub is_draft : TakeStatus → Bool
is_draft draft = true
is_draft _ = false

abbrev pub is_submitted : TakeStatus → Bool
is_submitted submitted = true
is_submitted _ = false

abbrev pub is_closed : TakeStatus → Bool
is_closed closed = true
is_closed _ = false

abbrev pub is_pending : Resolution → Bool
is_pending pending = true
is_pending _ = false

abbrev pub is_approved : Resolution → Bool
is_approved approved = true
is_approved _ = false

abbrev pub is_rejected : Resolution → Bool
is_rejected rejected = true
is_rejected _ = false

abbrev pub is_no_variance : Resolution → Bool
is_no_variance no_variance = true
is_no_variance _ = false

abbrev pub has_id : String → Line → Bool
has_id id line = str_eq line.id id

-- A new line; its key is given by the database.
abbrev pub new_line : String → RefType → String → ℤ → Line
new_line id ref_type ref_id counted = record {
  id = id;
  ref_type = ref_type;
  ref_id = ref_id;
  counted_qty = counted;
  expected_qty_at_submit = none;
  variance = none;
  resolution = pending;
  rejection_reason = none;
  adjustment_id = none;
  resolved_at = none;
  resolved_by_user_id = none;
}

-- The unique index of a take: one line for each target.
abbrev pub counts_target : RefType → String → Line → Bool
counts_target ref_type ref_id line = same_ref line.ref_type ref_type && str_eq line.ref_id ref_id

abbrev pub refuse_existing_line : Option Line → Result Error (Unit {0})
refuse_existing_line none = ok tt
refuse_existing_line (some line) = err line_exists

abbrev pub require_line : Option Line → Result Error Line
require_line none = err line_not_found
require_line (some line) = ok line

-- `add_line`, `edit_line` and `remove_line` on the take that was read.
unfoldable pub add_line : List UnitRow → String → RefType → String → ℤ → Take → Result Error Take
add_line units id ref_type ref_id counted take = do
  raise_if (not (is_draft take.status)) wrong_status
  target_on_hand_qty units ref_type ref_id
  refuse_existing_line (find (counts_target ref_type ref_id) take.lines)
  ok (record take { lines = take.lines ++ new_line id ref_type ref_id counted ∷ [] })

unfoldable pub edit_line : String → ℤ → Take → Result Error Take
edit_line line_id counted take = do
  raise_if (not (is_draft take.status)) wrong_status
  line ← require_line (find (has_id line_id) take.lines)
  ok (record take {
    lines = replace (has_id line_id) (record line { counted_qty = counted }) take.lines;
  })

abbrev pub without : String → List Line → List Line
without id [] = []
without id (line ∷ lines) =
    let rest = without id lines in elim (has_id id line) [ true ↦ rest | false ↦ line ∷ rest ]

unfoldable pub remove_line : String → Take → Result Error Take
remove_line line_id take = do
  raise_if (not (is_draft take.status)) wrong_status
  line ← require_line (find (has_id line_id) take.lines)
  ok (record take { lines = without line_id take.lines })

-- One pass of the loop of `submit_stock_take`: the quantity on hand is frozen in the line.
abbrev pub frozen : ℕ → String → ℤ → Line → Line
frozen now actor expected line =
    let variance = line.counted_qty -ℤ expected in
    record line {
      expected_qty_at_submit = some expected;
      variance = some variance;
      resolution = if nonzero variance then line.resolution else no_variance;
      resolved_at = if nonzero variance then line.resolved_at else some now;
      resolved_by_user_id = if nonzero variance then line.resolved_by_user_id else some actor;
    }

unfoldable pub freeze_lines : List UnitRow → ℕ → String → List Line → Result Error (List Line)
freeze_lines units now actor [] = ok []
freeze_lines units now actor (line ∷ lines) =
    let later = freeze_lines units now actor lines in
    target_on_hand_qty units line.ref_type line.ref_id >>= λ expected.
    later >>= λ rest. ok (frozen now actor expected line ∷ rest)

-- The variance of a line as the loop counts it.
abbrev pub variance_of : Option ℤ → ℤ
variance_of none = pos 0
variance_of (some v) = v

abbrev pub varies : Line → Bool
varies line = nonzero (variance_of line.variance)

abbrev pub total_variance_abs : List Line → ℕ
total_variance_abs [] = 0
total_variance_abs (line ∷ lines) = magnitude (variance_of line.variance) + total_variance_abs lines
