-- ===== src/StockTake/Units.antt =====
-- The units in stock and their adjustment: `apply_unit_stock_adjustment_core`, the conversion of
-- app/core/stock_take.py, and `_get_target_on_hand_qty`.
use jewelry_backend.Common.{
  ℕ, ◌*◌, ◌/◌, ◌%◌, ◌==◌, Bool, true, false, ◌&&◌, Option, none, some, List, ◌∷◌, String, str_eq,
  if◌then◌else◌, Result, ok, err, ◌>>=◌, find, replace,
}
use jewelry_backend.Common.Int.{ℤ, pos, ◌+ℤ◌, ltb_ℤ}
use jewelry_backend.Money.{Decimal, magnitude, by_sign}
use jewelry_backend.Audit.Ledger.{Value}
use jewelry_backend.Audit.Events.{Event}

pub data RefType : Type 0 where
  coin_stock ounce_stock : RefType

pub data AdjustmentTarget : Type 0 where
  lot_target coin_target ounce_target product_target : AdjustmentTarget

-- `to_adjustment_target`
abbrev pub to_adjustment_target : RefType → AdjustmentTarget
to_adjustment_target coin_stock = coin_target
to_adjustment_target ounce_stock = ounce_target

abbrev pub same_ref : RefType → RefType → Bool
same_ref coin_stock coin_stock = true
same_ref ounce_stock ounce_stock = true
same_ref _ _ = false

-- A row of `coin_types` or of `ounce_types`.
pub record UnitRow : Type 0 where
  pub kind : RefType
  pub id : String
  pub on_hand_qty : ℤ

abbrev pub is_unit : RefType → String → UnitRow → Bool
is_unit kind id row = same_ref row.kind kind && str_eq row.id id

abbrev pub find_unit : RefType → String → List UnitRow → Option UnitRow
find_unit kind id = find (is_unit kind id)

-- A row of `manual_adjustments`.
pub record ManualAdjustment : Type 0 where
  pub id : String
  pub target_type : AdjustmentTarget
  pub target_id : String
  pub delta : Decimal
  pub reason : String
  pub notes : String
  pub actor_user_id : String

pub data Error : Type 0 where
  unsupported_target : Error
  delta_not_integer : Error
  target_not_found : RefType → String → Error
  below_zero : ℤ → ℤ → Error
  take_not_found : Error
  wrong_status : Error
  line_not_found : Error
  line_exists : Error
  no_lines : Error
  already_resolved : Error
  no_variance_to_approve : Error

pub record Change : Type 0 where
  pub target_type : AdjustmentTarget
  pub target_id : String
  pub delta : Decimal
  pub reason : String
  pub notes : String
  pub actor_user_id : String
  pub ledger_extra : List (String × Value)

abbrev pub unit_scale : ℕ
unit_scale = 100_000_000

-- `delta != delta.to_integral_value()` and `int(delta)`
abbrev pub is_integral : Decimal → Bool
is_integral delta = magnitude delta % unit_scale == 0

abbrev pub to_int : Decimal → ℤ
to_int = by_sign (λ n. n / unit_scale)

-- `_D(str(n))`
abbrev pub of_int : ℤ → Decimal
of_int = by_sign (λ n. n * unit_scale)

abbrev pub kind_of : AdjustmentTarget → Result Error RefType
kind_of coin_target = ok coin_stock
kind_of ounce_target = ok ounce_stock
kind_of lot_target = err unsupported_target
kind_of product_target = err unsupported_target

-- `ref_type.value`
abbrev pub ref_value : RefType → String
ref_value coin_stock = "COIN_STOCK"
ref_value ounce_stock = "OUNCE_STOCK"

abbrev pub event_of : RefType → String
event_of coin_stock = "COIN_STOCK_ADJUSTED"
event_of ounce_stock = "OUNCE_STOCK_ADJUSTED"

abbrev pub ref_kind : RefType → String
ref_kind coin_stock = "coin_type"
ref_kind ounce_stock = "ounce_type"

-- The row that was read and locked, its new quantity, the adjustment and the event. `id` is the
-- key that the database gives the adjustment.
abbrev pub adjusted_event : String → RefType → Change → ℤ → ℤ → Event
adjusted_event id kind c before after = record {
  event_type = event_of kind;
  ref_type = ref_kind kind;
  ref_id = c.target_id;
  payload =
      ("adjustment_id", Value.text id)
      ∷ ("delta_qty", Value.integer (to_int c.delta))
      ∷ ("reason", Value.text c.reason)
      ∷ ("notes", Value.text c.notes)
      ∷ ("qty_before", Value.integer before)
      ∷ ("qty_after", Value.integer after)
      ∷ c.ledger_extra;
}

pub record Adjusted : Type 0 where
  pub units : List UnitRow
  pub adjustment : ManualAdjustment
  pub event : Event

unfoldable pub adjust_row :
    String → RefType → Change → List UnitRow → Option UnitRow → Result Error Adjusted
adjust_row id kind c units none = err (target_not_found kind c.target_id)
adjust_row id kind c units (some row) =
    let new_qty = row.on_hand_qty +ℤ to_int c.delta in
    if ltb_ℤ new_qty (pos 0)
    then err (below_zero row.on_hand_qty (to_int c.delta))
    else ok (record {
      units = replace (is_unit kind c.target_id) (record row { on_hand_qty = new_qty }) units;
      adjustment = record {
        id = id;
        target_type = c.target_type;
        target_id = c.target_id;
        delta = c.delta;
        reason = c.reason;
        notes = c.notes;
        actor_user_id = c.actor_user_id;
      };
      event = adjusted_event id kind c row.on_hand_qty new_qty;
    })

unfoldable pub apply_unit_stock_adjustment_core :
    String → Change → List UnitRow → Result Error Adjusted
apply_unit_stock_adjustment_core id c units = do
  kind ← kind_of c.target_type
  if is_integral c.delta
      then adjust_row id kind c units (find_unit kind c.target_id units)
      else err delta_not_integer

-- `_get_target_on_hand_qty`
abbrev pub target_on_hand_qty : List UnitRow → RefType → String → Result Error ℤ
target_on_hand_qty units kind id = elim (find_unit kind id units) [
  | none ↦ err (target_not_found kind id)
  | some row ↦ ok row.on_hand_qty
]
