-- ===== src/Tests/Checkout.antt =====
-- A checkout of two coins at a discount.
use jewelry_backend.Common.{◌≡◌, refl, true, some, List, [], ◌∷◌, Result, ok, err, arith, All}
use jewelry_backend.Common.Int.{pos, ◌+ℤ◌, ◌-ℤ◌, ◌≤ℤ◌}
use jewelry_backend.Gl.Cents.{IsCents}
use jewelry_backend.Pricing.{k21}
use jewelry_backend.Postings.Sale.{coin, cash}
use jewelry_backend.Orders.{Order, completed}
use jewelry_backend.Orders.Restock.{StockRow, available}
use jewelry_backend.Orders.Kept.{IsKept}
use jewelry_backend.Orders.SaleLine.{Catalog, CheckoutError, checkout_unit_line, sell_line}
use jewelry_backend.Orders.Checkout.{
  CheckoutRequest, Cart, create_order, checkout_lines, empty_cart, order_of,
}
use jewelry_backend.Orders.Priced.{InStock, create_order_lem}

abbrev catalog : Catalog
catalog = record {
  rate_24k = pos 10_000_000_000;
  settings = record {
    vat_percent = pos 1_000_000_000;
    max_discount_percent = pos 1_000_000_000;
    lbp_exchange_rate = pos 9_000_000_000_000;
    markup_k18 = pos 0;
    markup_k21 = pos 0;
    markup_k24 = pos 0;
  };
  products = [];
  units =
      record {
        kind = coin;
        id = "c1";
        is_active = true;
        karat = k21;
        weight_grams = pos 800_000_000;
        markup_per_gram = pos 0;
        margin_mode = "USD";
        margin_value = pos 500_000_000;
      }
      ∷ [];
}

abbrev stock : List StockRow
stock =
    record { kind = coin; id = "c1"; code = "C-1"; on_hand_qty = pos 7; status = available } ∷ []

abbrev request : CheckoutRequest
request = record {
  order_id = "o1";
  order_number = "ORD-1";
  payment_method = cash;
  discount_percent = some (pos 500_000_000);
  lines = record { item_kind = coin; type_id = some "c1"; quantity = pos 2; item_id = "i1" } ∷ [];
}

abbrev pair_or : Result CheckoutError (Order × Cart) → Order × Cart
pair_or (ok x) = x
pair_or (err raised) = (order_of catalog request (empty_cart stock) (pos 0), empty_cart stock)

abbrev made : Order × Cart
made = pair_or (create_order catalog request stock)

created : create_order catalog request stock ≡ ok (made.0, made.1)
unfolding create_order checkout_lines checkout_unit_line sell_line
created = refl

create_order_lem_example :
    All InStock made.1.stock
    × (made.0.status ≡ completed)
    × IsKept made.0
    × IsCents made.0.subtotal
    × IsCents made.0.discount_amount
    × (made.0.discount_percent ≤ℤ catalog.settings.max_discount_percent)
    × (made.0.total_usd ≡ made.0.subtotal -ℤ made.0.discount_amount +ℤ made.0.vat_amount)
create_order_lem_example = create_order_lem catalog request stock (omega arith, tt) created
