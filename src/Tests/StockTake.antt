-- ===== src/Tests/StockTake.antt =====
-- Eight coins are counted where ten are on hand: the take is submitted, its line approved, and closed.
use jewelry_backend.Common.{
  ◌≡◌, refl, some, List, [], ◌∷◌, String, str_eq, ◌&&◌, Result, ok, err, find, if◌then◌else◌,
}
use jewelry_backend.Common.Int.{ℤ, pos, ◌≤ℤ◌, ◌+ℤ◌, ◌-ℤ◌}
use jewelry_backend.Audit.Events.{Event}
use jewelry_backend.StockTake.Units.{
  RefType, coin_stock, same_ref, UnitRow, Adjusted, Error, lot_target,
  apply_unit_stock_adjustment_core, adjust_row,
}
use jewelry_backend.StockTake.Lines.{closed, Line, Take, new_line, has_id, add_line, freeze_lines}
use jewelry_backend.StockTake.Handlers.{
  create_stock_take, submit_stock_take, approve_line, pending_line, maybe_close_take,
}
use jewelry_backend.StockTake.Steps.{IsValid, Step, Reach, here, next, added, submitted_step}
use jewelry_backend.StockTake.Valid.{Reach-IsValid}
use jewelry_backend.StockTake.Frozen.{on_hand, approve_line_moves, closed_is_final}

abbrev coins : List UnitRow
coins = record { kind = coin_stock; id = "c1"; on_hand_qty = pos 10 } ∷ []

abbrev created : Take
created = (create_stock_take "t1" "admin" "").0

abbrev counted : Take
counted = record created { lines = new_line "l1" coin_stock "c1" (pos 8) ∷ [] }

abbrev take_of : Take → Result Error (Take × List Event) → Take
take_of d (ok (t, events)) = t
take_of d (err raised) = d

abbrev events_of : Result Error (Take × List Event) → List Event
events_of (ok (t, events)) = events
events_of (err raised) = []

abbrev approved_of :
    Take × Adjusted × List Event
    → Result Error (Take × Adjusted × List Event)
    → Take × Adjusted × List Event
approved_of d (ok r) = r
approved_of d (err raised) = d

abbrev submission : Result Error (Take × List Event)
submission = submit_stock_take coins 5 "admin" counted

abbrev frozen_take : Take
frozen_take = take_of created submission

abbrev nothing : Take × Adjusted × List Event
nothing = (
  created,
  record {
    units = [];
    adjustment = record {
      id = "";
      target_type = lot_target;
      target_id = "";
      delta = pos 0;
      reason = "";
      notes = "";
      actor_user_id = "";
    };
    event = record { event_type = ""; ref_type = ""; ref_id = ""; payload = [] };
  },
  [],
)

abbrev approval : Result Error (Take × Adjusted × List Event)
approval = approve_line coins "a1" 6 "admin" "l1" frozen_take

abbrev after : Take × Adjusted × List Event
after = approved_of nothing approval

add_ok : add_line coins "l1" coin_stock "c1" (pos 8) created ≡ ok counted
unfolding add_line
add_ok = refl

submit_ok : submission ≡ ok (frozen_take, events_of submission)
unfolding submit_stock_take freeze_lines maybe_close_take ◌-ℤ◌
submit_ok = refl

approve_ok : approval ≡ ok (after.0, after.1, after.2)
unfolding submit_stock_take freeze_lines maybe_close_take approve_line pending_line
    apply_unit_stock_adjustment_core adjust_row ◌-ℤ◌ ◌+ℤ◌
approve_ok = refl

after_closed : after.0.status ≡ closed
unfolding submit_stock_take freeze_lines maybe_close_take approve_line pending_line
    apply_unit_stock_adjustment_core adjust_row ◌-ℤ◌ ◌+ℤ◌
after_closed = refl

eight_left : on_hand coin_stock "c1" after.1.units ≡ some (pos 8)
unfolding submit_stock_take freeze_lines maybe_close_take approve_line pending_line
    apply_unit_stock_adjustment_core adjust_row ◌-ℤ◌ ◌+ℤ◌
eight_left = refl

frozen-Reach : Reach created frozen_take
frozen-Reach =
    next (next here (added coins "l1" coin_stock "c1" (pos 8) add_ok))
      (submitted_step coins 5 "admin" (events_of submission) submit_ok)

Reach-IsValid_example : IsValid frozen_take
Reach-IsValid_example = Reach-IsValid "t1" "admin" "" frozen-Reach

approve_line_moves_example :
    (line : Line) × (expected before : ℤ) × (find (has_id "l1") frozen_take.lines ≡ some line)
    × (line.expected_qty_at_submit ≡ some expected)
    × (on_hand line.ref_type line.ref_id coins ≡ some before)
    × (pos 0 ≤ℤ before +ℤ (line.counted_qty -ℤ expected))
    × ((j : RefType) (i : String)
        → on_hand j i after.1.units ≡ (
            if same_ref line.ref_type j && str_eq line.ref_id i
            then some (before +ℤ (line.counted_qty -ℤ expected))
            else on_hand j i coins))
approve_line_moves_example =
    approve_line_moves coins "a1" 6 "admin" "l1" frozen_take after.0 after.1 after.2
      (Reach-IsValid "t1" "admin" "" frozen-Reach) approve_ok

closed_is_final_example : ¬ Step after.0 created
closed_is_final_example = closed_is_final after.0 created after_closed
