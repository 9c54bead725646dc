-- ===== src/Tests/Orders.antt =====
-- An order of three coins and a ring: one coin comes back, then the rest.
use jewelry_backend.Common.{◌≡◌, refl, none, some, List, [], ◌∷◌, Result, ok, err, inl, arith}
use mathlib.Core.Bool.{xor}
use jewelry_backend.Common.Int.{pos, ◌-ℤ◌, ◌*ℤ◌}
use jewelry_backend.Money.{quantize_quotient, half_even, nearest}
use jewelry_backend.Pricing.{k21}
use jewelry_backend.Postings.Sale.{SoldItem, product, coin, cash}
use jewelry_backend.Orders.{Order, OrderItem, completed, voided, Error}
use jewelry_backend.Orders.Restock.{StockRow, available}
use jewelry_backend.Orders.Handlers.{
  Request, Outcome, void_order, refund_order_item, refundable_units, refund_value,
}
use jewelry_backend.Orders.Kept.{
  State, state_of, Step, void_step, item_step, here, then_step, IsKept, Reach-IsKept, void_is_final,
}
use jewelry_backend.Orders.Exact.{IsExact, Reach-IsExact}

abbrev coin_sold : SoldItem
coin_sold = record {
  item_kind = coin;
  product_id = none;
  karat = k21;
  weight_grams = pos 800_000_000;
  gold_rate_at_sale = pos 10_000_000_000;
  making_charge = pos 0;
  stone_cost_at_sale = none;
  quantity = pos 3;
}

abbrev coins : OrderItem
coins = record {
  id = "i1";
  sold = coin_sold;
  unit_type_id = some "c1";
  product_code = "C-1";
  final_price = pos 240_000_000_000;
  refunded_qty = pos 0;
  refunded_amount = pos 0;
  refunded_at = none;
}

abbrev ring : OrderItem
ring = record coins {
  id = "i2";
  sold = record coin_sold { item_kind = product; product_id = some "p1"; quantity = pos 1 };
  unit_type_id = none;
  product_code = "P-1";
  final_price = pos 50_000_000_000;
}

abbrev order : Order
order = record {
  id = "o1";
  order_number = "ORD-1";
  status = completed;
  payment_method = cash;
  subtotal = pos 290_000_000_000;
  vat_percent = pos 1_000_000_000;
  vat_amount = pos 29_000_000_000;
  discount_percent = pos 0;
  discount_amount = pos 0;
  total_usd = pos 319_000_000_000;
  total_lbp = pos 0;
  lbp_exchange_rate = pos 0;
  voided_at = none;
  voided_by = none;
  void_reason = none;
  items = coins ∷ ring ∷ [];
}

abbrev stock : List StockRow
stock =
    record { kind = coin; id = "c1"; code = "C-1"; on_hand_qty = pos 7; status = available }
    ∷ record { kind = product; id = "p1"; code = "P-1"; on_hand_qty = pos 0; status = available }
    ∷ []

abbrev start : State
start = record { order = order; stock = stock }

abbrev request : Request
request = record { now = 10; user_id = "u1" }

abbrev left : State → Result Error Outcome → State
left s (ok x) = state_of x
left s (err raised) = s

abbrev outcome : Result Error Outcome → Outcome
outcome (ok x) = x
outcome (err raised) = record { order = order; stock = stock; events = []; part = none }

abbrev one_back : Result Error Outcome
one_back = refund_order_item request "i1" (some (pos 1)) order stock

one_back_ok : one_back ≡ ok (outcome one_back)
unfolding refund_order_item refundable_units ◌-ℤ◌
one_back_ok = refl

abbrev void : Result Error Outcome
void = void_order request "mistake" order stock

void_ok : void ≡ ok (outcome void)
unfolding void_order
void_ok = refl

start-IsKept : IsKept order
start-IsKept = record {
  lines = ((omega arith, omega arith), ((omega arith, omega arith), tt));
  whole = λ e. (refl, (refl, tt));
  part = λ e. cc;
}

one_step : Step start (state_of (outcome one_back))
one_step = item_step request "i1" (some (pos 1)) one_back_ok

void_reached : Step start (state_of (outcome void))
void_reached = void_step request "mistake" void_ok

Reach-IsKept_example : IsKept (outcome one_back).order
Reach-IsKept_example =
    Reach-IsKept refl (refl, (refl, tt)) (omega arith, (omega arith, tt)) (then_step here one_step)

Reach-IsExact_example : IsExact stock (state_of (outcome one_back))
Reach-IsExact_example = Reach-IsExact refl start-IsKept (then_step here one_step)

voided_now : (outcome void).order.status ≡ voided
unfolding void_order
voided_now = refl

void_is_final_example : ¬ Step (state_of (outcome void)) start
void_is_final_example = void_is_final (state_of (outcome void)) start (inl voided_now)

-- The three coins returned one at a time are worth 100 dollars in all, and 99.99 come back.
abbrev thirds : OrderItem
thirds = record coins { final_price = pos 10_000_000_000 }

third_value : refund_value thirds (pos 1) ≡ pos 3_333_000_000
unfolding refund_value quantize_quotient nearest half_even ◌*ℤ◌ xor
third_value = refl
