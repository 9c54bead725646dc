-- ===== src/StockTake/Handlers.antt =====
-- The handlers that record events: `create_stock_take`, `submit_stock_take`, `approve_line`,
-- `reject_line` and `_maybe_close_take`. The lock on the row of the take makes each of them one step.
use Prim.Native.String.{◌++◌ as append}
use jewelry_backend.Common.{
  ℕ, not, Option, none, some, List, [], ◌∷◌, String, ◌==◌, if◌then◌else◌, Result, ok, err, ◌>>=◌,
  ◌>>◌, raise_if, find, replace, count_if, length,
}
use jewelry_backend.Common.Int.{ℤ, nonzero}
use jewelry_backend.Audit.Ledger.{Value}
use jewelry_backend.Audit.Events.{Event}
use jewelry_backend.StockTake.Units.{
  UnitRow, Change, Adjusted, Error, wrong_status, no_lines, already_resolved,
  no_variance_to_approve, to_adjustment_target, of_int, apply_unit_stock_adjustment_core, ref_value,
}
use jewelry_backend.StockTake.Lines.{
  draft, submitted, closed, Resolution, approved, rejected, Line, Take, is_draft, is_submitted,
  is_closed, is_pending, is_approved, is_rejected, is_no_variance, has_id, require_line,
  freeze_lines, variance_of, varies, total_variance_abs,
}

abbrev pub take_event : String → Take → List (String × Value) → Event
take_event event_type take payload = record {
  event_type = event_type;
  ref_type = "stock_take";
  ref_id = take.id;
  payload = payload;
}

-- The take that is created, before its first line.
abbrev pub create_stock_take : String → String → String → Take × List Event
create_stock_take id actor notes =
    let take : Take = record {
      id = id;
      started_by_user_id = actor;
      notes = notes;
      status = draft;
      submitted_at = none;
      closed_at = none;
      lines = [];
    } in
    (take, take_event "STOCK_TAKE_STARTED" take (("notes", Value.text notes) ∷ []) ∷ [])

abbrev pub closed_event : Take → Event
closed_event take = take_event "STOCK_TAKE_CLOSED" take (
    ("approved_count", Value.number (count_if (λ l. is_approved l.resolution) take.lines))
    ∷ ("rejected_count", Value.number (count_if (λ l. is_rejected l.resolution) take.lines))
    ∷ ("no_variance_count", Value.number (count_if (λ l. is_no_variance l.resolution) take.lines))
    ∷ [])

-- Closes a take that has no pending line.
unfoldable pub maybe_close_take : ℕ → Take → Take × List Event
maybe_close_take now take =
    if is_closed take.status
    then (take, [])
    else if count_if (λ l. is_pending l.resolution) take.lines == 0
    then (record take { status = closed; closed_at = some now }, closed_event take ∷ [])
    else (take, [])

abbrev pub require_lines : List Line → Result Error (Unit {0})
require_lines [] = err no_lines
require_lines (line ∷ lines) = ok tt

abbrev pub submitted_event : Take → List Line → Event
submitted_event take lines = take_event "STOCK_TAKE_SUBMITTED" take (
    ("line_count", Value.number (length lines))
    ∷ ("variance_count", Value.number (count_if varies lines))
    ∷ ("total_variance_abs", Value.number (total_variance_abs lines))
    ∷ [])

-- What a handler leaves of the take, and its events.
unfoldable pub submit_stock_take :
    List UnitRow → ℕ → String → Take → Result Error (Take × List Event)
submit_stock_take units now actor take = do
  raise_if (not (is_draft take.status)) wrong_status
  require_lines take.lines
  lines ← freeze_lines units now actor take.lines
  let (take', later) =
      maybe_close_take now
        (record take { status = submitted; submitted_at = some now; lines = lines })
  ok (take', submitted_event take lines ∷ later)

abbrev pub require_variance : Option ℤ → Result Error ℤ
require_variance none = err no_variance_to_approve
require_variance (some v) = if nonzero v then ok v else err no_variance_to_approve

abbrev pub line_event : String → Take → Line → List (String × Value) → Event
line_event event_type take line rest = record {
  event_type = event_type;
  ref_type = "stock_take_line";
  ref_id = line.id;
  payload =
      ("stock_take_id", Value.text take.id)
      ∷ ("ref_type", Value.text (ref_value line.ref_type))
      ∷ ("ref_id", Value.text line.ref_id)
      ∷ ("counted_qty", Value.integer line.counted_qty)
      ∷ ("expected_qty", Value.integer (variance_of line.expected_qty_at_submit))
      ∷ ("variance", Value.integer (variance_of line.variance))
      ∷ rest;
}

-- The adjustment that an approval asks for.
abbrev pub change_of : String → Take → Line → ℤ → Change
change_of actor take line variance = record {
  target_type = to_adjustment_target line.ref_type;
  target_id = line.ref_id;
  delta = of_int variance;
  reason = "CORRECTION";
  notes = append "Stock-take " (append take.id (append " approval (line " (append line.id ")")));
  actor_user_id = actor;
  ledger_extra = ("stock_take_line_id", Value.text line.id) ∷ [];
}

abbrev pub resolve : Resolution → Option String → Option String → ℕ → String → Line → Line
resolve resolution reason adjustment now actor line = record line {
  resolution = resolution;
  rejection_reason = reason;
  adjustment_id = adjustment;
  resolved_at = some now;
  resolved_by_user_id = some actor;
}

abbrev pub with_line : Line → Take → Take
with_line line take = record take { lines = replace (has_id line.id) line take.lines }

-- The line of a take that may be resolved.
unfoldable pub pending_line : String → Take → Result Error Line
pending_line line_id take = do
  raise_if (not (is_submitted take.status)) wrong_status
  line ← require_line (find (has_id line_id) take.lines)
  raise_if (not (is_pending line.resolution)) already_resolved
  ok line

-- `adjustment_id` is the key that the database gives the adjustment.
unfoldable pub approve_line :
    List UnitRow → String → ℕ → String → String → Take → Result Error (Take × Adjusted × List Event)
approve_line units adjustment_id now actor line_id take = do
  line ← pending_line line_id take
  variance ← require_variance line.variance
  adjusted ←
      apply_unit_stock_adjustment_core adjustment_id (change_of actor take line variance) units
  let (take', later) =
      maybe_close_take now (
        with_line (resolve approved line.rejection_reason (some adjustment_id) now actor line) take)
  ok (
    take',
    adjusted,
    adjusted.event
        ∷ line_event "STOCK_TAKE_LINE_APPROVED" take line
            (("adjustment_id", Value.text adjustment_id) ∷ [])
        ∷ later,
  )

unfoldable pub reject_line : ℕ → String → String → String → Take → Result Error (Take × List Event)
reject_line now actor line_id reason take = do
  line ← pending_line line_id take
  let (take', later) =
      maybe_close_take now
        (with_line (resolve rejected (some reason) line.adjustment_id now actor line) take)
  ok (
    take',
    line_event "STOCK_TAKE_LINE_REJECTED" take line (("reason", Value.text reason) ∷ []) ∷ later,
  )
