-- ===== src/Orders.antt =====
-- Orders after the sale: the tables of app/models/__init__.py that app/api/orders.py reads and writes
-- when an order is voided or refunded. Quantities are whole numbers, amounts count units of 10^-8.
pub mod Restock
pub mod Handlers
pub mod SaleLine
pub mod Checkout
pub mod Priced
pub mod Kept
pub mod Tracked
pub mod Exact
use jewelry_backend.Common.{
  ℕ, Bool, true, false, not, ◌&&◌, ◌||◌, Option, none, some, List, [], ◌∷◌, String, str_eq,
  if◌then◌else◌,
}
use jewelry_backend.Common.Int.{ℤ, pos, ◌+ℤ◌, ◌-ℤ◌, ◌*ℤ◌, leb_ℤ}
use jewelry_backend.Money.{Decimal, quantize, quantize_quotient, quantize_product}
use jewelry_backend.Gl.Lines.{q_money, sum_of}
use jewelry_backend.Postings.Sale.{
  SoldItem, SoldOrder, ItemKind, product, coin, ounce, PaymentMethod,
}

pub data OrderStatus : Type 0 where
  completed refunded partially_refunded voided : OrderStatus

abbrev pub is_completed : OrderStatus → Bool
is_completed completed = true
is_completed _ = false

abbrev pub is_voided : OrderStatus → Bool
is_voided voided = true
is_voided _ = false

-- PARTIALLY_REFUNDED or REFUNDED
abbrev pub was_refunded : OrderStatus → Bool
was_refunded refunded = true
was_refunded partially_refunded = true
was_refunded _ = false

-- COMPLETED or PARTIALLY_REFUNDED
abbrev pub is_refundable : OrderStatus → Bool
is_refundable completed = true
is_refundable partially_refunded = true
is_refundable _ = false

abbrev pub status_value : OrderStatus → String
status_value completed = "COMPLETED"
status_value refunded = "REFUNDED"
status_value partially_refunded = "PARTIALLY_REFUNDED"
status_value voided = "VOIDED"

-- `order_items`: the columns that posting reads too are in `sold`; `unit_type_id` is
-- `coin_type_id` of a coin and `ounce_type_id` of a bar.
pub record OrderItem : Type 0 where
  pub id : String
  pub sold : SoldItem
  pub unit_type_id : Option String
  pub product_code : String
  pub final_price : Decimal
  pub refunded_qty : ℤ
  pub refunded_amount : Decimal
  pub refunded_at : Option ℕ

pub record Order : Type 0 where
  pub id : String
  pub order_number : String
  pub status : OrderStatus
  pub payment_method : PaymentMethod
  pub subtotal : Decimal
  pub vat_percent : Decimal
  pub vat_amount : Decimal
  pub discount_percent : Decimal
  pub discount_amount : Decimal
  pub total_usd : Decimal
  pub total_lbp : Decimal
  pub lbp_exchange_rate : Decimal
  pub voided_at : Option ℕ
  pub voided_by : Option String
  pub void_reason : Option String
  pub items : List OrderItem

-- What the handlers raise.
pub data Error : Type 0 where
  order_not_found already_voided refunded_before not_completed not_refundable item_not_found
        fully_refunded_line quantity_below_one too_many :
      Error

pub status_code : Error → ℕ
status_code order_not_found = 404
status_code already_voided = 400
status_code refunded_before = 400
status_code not_completed = 400
status_code not_refundable = 400
status_code item_not_found = 404
status_code fully_refunded_line = 400
status_code quantity_below_one = 422
status_code too_many = 409

abbrev pub remaining_of : OrderItem → ℤ
remaining_of it = it.sold.quantity -ℤ it.refunded_qty

-- An amount with a percentage has 16 decimals, hence the divisor.
abbrev pub percent_of : Decimal → Decimal → Decimal
percent_of amount percent = quantize_quotient q_money (amount *ℤ percent) (pos 10_000_000_000)

-- `_recompute_order_totals`
unfoldable pub recompute_order_totals : Order → Order
recompute_order_totals o =
    let remaining = sum_of (λ (it : OrderItem). it.final_price -ℤ it.refunded_amount) o.items in
    let vat = percent_of remaining o.vat_percent in
    let discount = percent_of remaining o.discount_percent in
    let total = remaining +ℤ vat -ℤ discount in
    record o {
      subtotal = quantize q_money remaining;
      vat_amount = vat;
      discount_amount = discount;
      total_usd = quantize q_money total;
      total_lbp = quantize_product q_money total o.lbp_exchange_rate;
    }

-- The order as the posting rules read it.
abbrev pub sold_items : List OrderItem → List SoldItem
sold_items [] = []
sold_items (it ∷ items) = it.sold ∷ sold_items items

abbrev pub posted_view : Order → SoldOrder
posted_view o = record {
  id = o.id;
  order_number = o.order_number;
  payment_method = o.payment_method;
  subtotal = o.subtotal;
  vat_amount = o.vat_amount;
  discount_amount = o.discount_amount;
  total_usd = o.total_usd;
  items = sold_items o.items;
}
