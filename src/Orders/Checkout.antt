-- ===== src/Orders/Checkout.antt =====
-- The checkout: of `create_order` of app/api/orders.py, the loop over the lines, the discount and the
-- totals, for a payment that is not on credit. Columns that nothing here reads are left out.
use jewelry_backend.Common.{
  Option, none, List, [], ◌∷◌, ◌++◌, String, Result, ok, err, ◌>>=◌, ◌>>◌, raise_if,
}
use jewelry_backend.Common.Int.{pos, ◌+ℤ◌, ◌-ℤ◌, ltb_ℤ}
use jewelry_backend.Money.{Decimal, quantize_product}
use jewelry_backend.Audit.Ledger.{Value}
use jewelry_backend.Audit.Events.{Event}
use jewelry_backend.Gl.Lines.{q_money}
use jewelry_backend.Postings.{or_zero}
use jewelry_backend.Postings.Sale.{PaymentMethod}
use jewelry_backend.Orders.{Order, OrderItem, completed, percent_of}
use jewelry_backend.Orders.Restock.{StockRow}
use jewelry_backend.Orders.SaleLine.{
  CheckoutLine, Catalog, CheckoutError, no_items, negative_discount, discount_too_large, SoldLine,
  checkout_line,
}

-- The items so far, the subtotal, the stock and the events.
pub record Cart : Type 0 where
  pub items : List OrderItem
  pub subtotal : Decimal
  pub stock : List StockRow
  pub events : List Event

abbrev pub add_to_cart : Cart → SoldLine → Cart
add_to_cart cart s = record {
  items = cart.items ++ s.item ∷ [];
  subtotal = cart.subtotal +ℤ s.total;
  stock = s.stock;
  events = cart.events ++ s.event ∷ [];
}

unfoldable pub checkout_lines : Catalog → List CheckoutLine → Cart → Result CheckoutError Cart
checkout_lines c [] cart = ok cart
checkout_lines c (line ∷ lines) cart =
    checkout_line c line cart.stock >>= λ s. checkout_lines c lines (add_to_cart cart s)

pub record CheckoutRequest : Type 0 where
  pub order_id : String
  pub order_number : String
  pub payment_method : PaymentMethod
  pub discount_percent : Option Decimal
  pub lines : List CheckoutLine

abbrev pub require_items : List CheckoutLine → Result CheckoutError (Unit {0})
require_items [] = err no_items
require_items (line ∷ lines) = ok tt

abbrev pub order_of : Catalog → CheckoutRequest → Cart → Decimal → Order
order_of c r cart discount_percent =
    let vat = percent_of cart.subtotal c.settings.vat_percent in
    let discount = percent_of cart.subtotal discount_percent in
    let total = cart.subtotal +ℤ vat -ℤ discount in
    record {
      id = r.order_id;
      order_number = r.order_number;
      status = completed;
      payment_method = r.payment_method;
      subtotal = cart.subtotal;
      vat_percent = c.settings.vat_percent;
      vat_amount = vat;
      discount_percent = discount_percent;
      discount_amount = discount;
      total_usd = total;
      total_lbp = quantize_product q_money total c.settings.lbp_exchange_rate;
      lbp_exchange_rate = c.settings.lbp_exchange_rate;
      voided_at = none;
      voided_by = none;
      void_reason = none;
      items = cart.items;
    }

abbrev pub empty_cart : List StockRow → Cart
empty_cart stock = record { items = []; subtotal = pos 0; stock = stock; events = [] }

-- The order's key and number in the payload of each event.
abbrev pub with_order : CheckoutRequest → List Event → List Event
with_order r [] = []
with_order r (e ∷ events) =
    record e {
      payload =
          e.payload
          ++ (("order_id", Value.text r.order_id)
              ∷ ("order_number", Value.text r.order_number)
              ∷ []);
    }
    ∷ with_order r events

unfoldable pub create_order :
    Catalog → CheckoutRequest → List StockRow → Result CheckoutError (Order × Cart)
create_order c r stock = do
  require_items r.lines
  cart ← checkout_lines c r.lines (empty_cart stock)
  let discount_percent = or_zero r.discount_percent
  raise_if (ltb_ℤ discount_percent (pos 0)) negative_discount
  raise_if (ltb_ℤ c.settings.max_discount_percent discount_percent) discount_too_large
  ok (order_of c r cart discount_percent, record cart { events = with_order r cart.events })
