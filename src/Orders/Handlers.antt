-- ===== src/Orders/Handlers.antt =====
-- `void_order`, `refund_order` and `refund_order_item` of app/api/orders.py. What a handler decides
-- is the order, the stock, the events and what is posted; the row lock makes it one step.
use jewelry_backend.Common.{
  ℕ, Bool, true, false, not, ◌&&◌, Option, none, some, List, [], ◌∷◌, ◌++◌, String, str_eq,
  if◌then◌else◌, Result, ok, err, ◌>>=◌, ◌>>◌, raise_if, find, length,
}
use jewelry_backend.Common.Int.{ℤ, pos, ◌+ℤ◌, ◌-ℤ◌, ◌*ℤ◌, leb_ℤ, ltb_ℤ, pos_part, nonzero}
use jewelry_backend.Money.{Decimal, quantize, quantize_quotient}
use jewelry_backend.Audit.Ledger.{Value}
use jewelry_backend.Audit.Events.{Event}
use jewelry_backend.Gl.Lines.{q_money}
use jewelry_backend.Postings.Refund.{Slice}
use jewelry_backend.Orders.{
  Order, OrderItem, OrderStatus, refunded, partially_refunded, voided, is_completed, is_voided,
  was_refunded, is_refundable, status_value, Error, already_voided, refunded_before, not_completed,
  not_refundable, item_not_found, fully_refunded_line, quantity_below_one, too_many, remaining_of,
  recompute_order_totals,
}
use jewelry_backend.Orders.Restock.{
  StockRow, return_units, ref_of, sale_event, kind_value, code_key, status_after,
}

-- The time and the user of a request.
pub record Request : Type 0 where
  pub now : ℕ
  pub user_id : String

-- What a handler leaves: `part` is the slice of the refund that is posted, none for the whole sale.
pub record Outcome : Type 0 where
  pub order : Order
  pub stock : List StockRow
  pub events : List Event
  pub part : Option Slice

abbrev pub returned_payload : Order → OrderItem → StockRow → List (String × Value)
returned_payload o it row =
    (code_key row.kind, Value.text row.code)
      ∷ ("reversal_of", Value.text (sale_event row.kind))
      ∷ ("quantity_returned", Value.integer it.sold.quantity)
      ∷ ("qty_after", Value.integer row.on_hand_qty)
      ∷ status_after row.kind
    ++ (("voided_order_id", Value.text o.id)
        ∷ ("voided_order_number", Value.text o.order_number)
        ∷ [])

abbrev pub reversal_event : Order → OrderItem → Option StockRow → List Event
reversal_event o it none = []
reversal_event o it (some row) =
    record {
      event_type = "ORDER_VOID";
      ref_type = ref_of row.kind;
      ref_id = row.id;
      payload = returned_payload o it row;
    }
    ∷ []

-- The loop over the lines: stock goes back, with an event for each line whose stock was there.
unfoldable pub return_all : Order → List OrderItem → List StockRow → List StockRow × List Event
return_all o [] stock = (stock, [])
return_all o (it ∷ items) stock =
    let (stock', row) = return_units it it.sold.quantity stock in
    let (after, events) = return_all o items stock' in (after, reversal_event o it row ++ events)

abbrev pub void_event : Order → String → List Event → Event
void_event o reason reversals = record {
  event_type = "ORDER_VOID";
  ref_type = "order";
  ref_id = o.id;
  payload =
      ("order_number", Value.text o.order_number)
      ∷ ("reason", Value.text reason)
      ∷ ("items_reversed", Value.number (length reversals))
      ∷ [];
}

unfoldable pub void_order : Request → String → Order → List StockRow → Result Error Outcome
void_order r reason o stock = do
  raise_if (is_voided o.status) already_voided
  raise_if (was_refunded o.status) refunded_before
  let (after, reversals) = return_all o o.items stock
  ok (record {
    order = record o {
      status = voided;
      voided_at = some r.now;
      voided_by = some r.user_id;
      void_reason = some reason;
    };
    stock = after;
    events = void_event o reason reversals ∷ reversals;
    part = none;
  })

-- A full refund changes the status alone.
unfoldable pub refund_order : Order → List StockRow → Result Error Outcome
refund_order o stock = do
  raise_if (not (is_completed o.status)) not_completed
  ok (record { order = record o { status = refunded }; stock = stock; events = []; part = none })

abbrev pub has_id : String → OrderItem → Bool
has_id id it = str_eq it.id id

abbrev pub require_item : Option OrderItem → Result Error OrderItem
require_item none = err item_not_found
require_item (some it) = ok it

-- `body.quantity if body.quantity is not None else remaining`
abbrev pub asked : Option ℤ → ℤ → ℤ
asked none remaining = remaining
asked (some q) remaining = q

-- `(final_price / quantity * qty).quantize(0.01)`, of the exact quotient
unfoldable pub refund_value : OrderItem → ℤ → Decimal
refund_value it qty =
    if nonzero it.sold.quantity
    then quantize_quotient q_money (it.final_price *ℤ qty) it.sold.quantity
    else quantize q_money (it.final_price *ℤ qty)

abbrev pub refunded_item : ℕ → ℤ → OrderItem → OrderItem
refunded_item now qty it = record it {
  refunded_qty = it.refunded_qty +ℤ qty;
  refunded_amount = quantize q_money (it.refunded_amount +ℤ refund_value it qty);
  refunded_at = some now;
}

-- The item that `next` finds is changed in place.
abbrev pub with_item : String → OrderItem → List OrderItem → List OrderItem
with_item id y [] = []
with_item id y (x ∷ xs) =
    let rest = with_item id y xs in elim (has_id id x) [ true ↦ y ∷ xs | false ↦ x ∷ rest ]

-- `all(it.refunded_qty >= it.quantity for it in order.items)`
abbrev pub all_refunded : List OrderItem → Bool
all_refunded [] = true
all_refunded (it ∷ items) = leb_ℤ it.sold.quantity it.refunded_qty && all_refunded items

abbrev pub status_of : List OrderItem → OrderStatus
status_of items = if all_refunded items then refunded else partially_refunded

abbrev pub stock_payload : ℤ → Option StockRow → List (String × Value)
stock_payload qty none = []
stock_payload qty (some row) =
    (code_key row.kind, Value.text row.code)
    ∷ ("quantity_returned", Value.integer qty)
    ∷ ("qty_after", Value.integer row.on_hand_qty)
    ∷ status_after row.kind

abbrev pub item_event : Order → Order → OrderItem → ℤ → Decimal → Option StockRow → Event
item_event before o it qty value row = record {
  event_type = "ORDER_ITEM_REFUND";
  ref_type = "order_item";
  ref_id = it.id;
  payload =
      ("order_id", Value.text o.id)
      ∷ ("order_number", Value.text o.order_number)
      ∷ ("item_kind", Value.text (kind_value it.sold.item_kind))
      ∷ ("code", Value.text it.product_code)
      ∷ ("refunded_qty", Value.integer qty)
      ∷ ("refunded_qty_total", Value.integer it.refunded_qty)
      ∷ ("line_quantity", Value.integer it.sold.quantity)
      ∷ ("refund_amount", Value.amount value)
      ∷ ("cash_refunded_usd", Value.amount (quantize q_money (before.total_usd -ℤ o.total_usd)))
      ∷ ("order_status_after", Value.text (status_value o.status))
      ∷ ("order_total_usd_after", Value.amount o.total_usd)
      ∷ stock_payload qty row;
}

-- The guards on the line and on the units that are asked for.
unfoldable pub refundable_units : Order → String → Option ℤ → Result Error (OrderItem × ℤ)
refundable_units o item_id quantity = do
  raise_if (not (is_refundable o.status)) not_refundable
  it ← require_item (find (has_id item_id) o.items)
  raise_if (leb_ℤ (remaining_of it) (pos 0)) fully_refunded_line
  let qty = asked quantity (remaining_of it)
  raise_if (ltb_ℤ qty (pos 1)) quantity_below_one
  raise_if (ltb_ℤ (remaining_of it) qty) too_many
  ok (it, qty)

-- The order with the units of the line refunded: totals, then the status.
unfoldable pub order_after : ℕ → String → OrderItem → ℤ → Order → Order
order_after now item_id it qty o =
    let items = with_item item_id (refunded_item now qty it) o.items in
    record (recompute_order_totals (record o { items = items })) { status = status_of items }

abbrev pub slice_of : OrderItem → OrderItem → ℤ → Slice
slice_of it after qty = record {
  item_id = it.id;
  item = it.sold;
  refund_value = refund_value it qty;
  refund_qty = some (pos_part qty);
  refund_seq = pos_part after.refunded_qty;
}

unfoldable pub refund_order_item :
    Request → String → Option ℤ → Order → List StockRow → Result Error Outcome
refund_order_item r item_id quantity o stock = do
  (it, qty) ← refundable_units o item_id quantity
  let (after, row) = return_units it qty stock
  let it' = refunded_item r.now qty it
  let o' = order_after r.now item_id it qty o
  ok (record {
    order = o';
    stock = after;
    events = item_event o o' it' qty (refund_value it qty) row ∷ [];
    part = some (slice_of it it' qty);
  })
