-- ===== src/Orders/SaleLine.antt =====
-- A line of the checkout: `_checkout_product_line` and `_checkout_unit_line` of app/api/orders.py, at a
-- rate that the guard has let pass. Names and snapshots that nothing here reads are left out. Prices
-- follow `calculate_price` and `calculate_unit_price` of app/core/pricing.py.
use jewelry_backend.Common.{
  ℕ, ◌^◌, ◌/◌, ◌*◌, Bool, true, false, not, ◌&&◌, Option, none, some, List, [], ◌∷◌, String, str_eq,
  if◌then◌else◌, Result, ok, err, ◌>>=◌, ◌>>◌, raise_if, find,
}
use jewelry_backend.Common.Int.{ℤ, pos, ◌+ℤ◌, ◌-ℤ◌, ◌*ℤ◌, ltb_ℤ, eq_ℤ}
use jewelry_backend.Money.{Decimal, by_sign, half_up}
use jewelry_backend.Audit.Ledger.{Value}
use jewelry_backend.Audit.Events.{Event}
use jewelry_backend.Gl.Lines.{q_money}
use jewelry_backend.Pricing.{Karat, k18, k21, k22, k24, karat_purity, cent_29}
use jewelry_backend.Postings.{or_zero, karat_value}
use jewelry_backend.Postings.Sale.{ItemKind, product, is_product, SoldItem}
use jewelry_backend.Orders.{OrderItem}
use jewelry_backend.Orders.Restock.{
  StockRow, available, sold, is_retired, same_kind, is_row, ref_of, sale_event,
}

-- The columns of `settings` that the checkout reads.
pub record SaleSettings : Type 0 where
  pub vat_percent : Decimal
  pub max_discount_percent : Decimal
  pub lbp_exchange_rate : Decimal
  pub markup_k18 : Decimal
  pub markup_k21 : Decimal
  pub markup_k24 : Decimal

-- The columns of `products`, and of `coin_types` and `ounce_types`, that pricing reads.
pub record ProductPrice : Type 0 where
  pub id : String
  pub is_active : Bool
  pub karat : Karat
  pub weight_grams : Decimal
  pub margin_percent : Decimal
  pub making_charge : Decimal
  pub stone_value_usd : Option Decimal
  pub stone_cost_usd : Option Decimal

pub record UnitPrice : Type 0 where
  pub kind : ItemKind
  pub id : String
  pub is_active : Bool
  pub karat : Karat
  pub weight_grams : Decimal
  pub markup_per_gram : Decimal
  pub margin_mode : String
  pub margin_value : Decimal

pub record CheckoutLine : Type 0 where
  pub item_kind : ItemKind
  pub type_id : Option String
  pub quantity : ℤ
  pub item_id : String

pub record Catalog : Type 0 where
  pub rate_24k : Decimal
  pub settings : SaleSettings
  pub products : List ProductPrice
  pub units : List UnitPrice

pub data CheckoutError : Type 0 where
  no_items id_required quantity_below_one over_cap invalid_item not_available insufficient_stock
        negative_discount discount_too_large :
      CheckoutError

-- `markup_map.get(karat, 0)`
abbrev pub karat_markup : SaleSettings → Karat → Decimal
karat_markup s k18 = s.markup_k18
karat_markup s k21 = s.markup_k21
karat_markup s k22 = pos 0
karat_markup s k24 = s.markup_k24

-- An exact amount of a finer scale, rounded half-up to cents, in units of 10^-8.
abbrev pub to_cents : ℕ → Decimal → Decimal
to_cents quantum = by_sign (λ n. half_up quantum n / quantum * q_money)

-- `calculate_price(...)["final_price"]`, of an amount with 29 decimals
unfoldable pub product_final_price : Catalog → ProductPrice → Decimal
product_final_price c p =
    let effective =
      c.rate_24k *ℤ karat_purity p.karat +ℤ karat_markup c.settings p.karat *ℤ pos (10 ^ 3) in
    let metal = effective *ℤ p.weight_grams in
    to_cents cent_29 (
      metal *ℤ pos (10 ^ 10)
      +ℤ metal *ℤ p.margin_percent
      +ℤ (p.making_charge +ℤ or_zero p.stone_value_usd) *ℤ pos (10 ^ 21))

-- `calculate_unit_price(...)["final_price"]`, of an amount with 26 decimals
unfoldable pub unit_final_price : Catalog → UnitPrice → Decimal
unit_final_price c u =
    let metal = (c.rate_24k +ℤ u.markup_per_gram) *ℤ u.weight_grams in
    let margin =
      if str_eq u.margin_mode "PERCENT"
      then metal *ℤ u.margin_value
      else u.margin_value *ℤ pos (10 ^ 18) in
    to_cents (10 ^ 24) (metal *ℤ pos (10 ^ 10) +ℤ margin)

-- The units leave the stock; a product is SOLD when none is left.
abbrev pub sell_row : ℤ → StockRow → StockRow
sell_row qty row =
    let left = row.on_hand_qty -ℤ qty in
    record row {
      on_hand_qty = left;
      status =
          if is_product row.kind
          then (if eq_ℤ left (pos 0) then sold else available)
          else row.status;
    }

-- The row of the key changes; keys are unique.
abbrev pub sell_rows : ItemKind → String → ℤ → List StockRow → List StockRow
sell_rows kind id qty [] = []
sell_rows kind id qty (row ∷ rows) =
    let rest = sell_rows kind id qty rows in
    elim (is_row kind id row) [ true ↦ sell_row qty row ∷ rows | false ↦ row ∷ rest ]

abbrev pub require_id : Option String → Result CheckoutError String
require_id none = err id_required
require_id (some id) = ok id

abbrev pub require : {A : Type 0} → CheckoutError → Option A → Result CheckoutError A
require e none = err e
require e (some a) = ok a

-- What a line leaves: the item, its total, the stock, the event.
pub record SoldLine : Type 0 where
  pub item : OrderItem
  pub total : Decimal
  pub stock : List StockRow
  pub event : Event

abbrev pub unit_payload : Catalog → StockRow → ℤ → Decimal → List (String × Value)
unit_payload c row quantity price =
    ("code", Value.text row.code)
    ∷ ("quantity", Value.integer quantity)
    ∷ ("unit_price", Value.amount price)
    ∷ ("line_total", Value.amount (price *ℤ quantity))
    ∷ ("gold_rate_at_sale", Value.amount c.rate_24k)
    ∷ ("qty_after", Value.integer (row.on_hand_qty -ℤ quantity))
    ∷ []

abbrev pub product_payload : Catalog → ProductPrice → StockRow → ℤ → Decimal → List (String × Value)
product_payload c p row quantity price =
    ("product_code", Value.text row.code)
    ∷ ("karat", Value.text (karat_value p.karat))
    ∷ ("weight_grams", Value.amount p.weight_grams)
    ∷ ("quantity", Value.integer quantity)
    ∷ ("unit_price", Value.amount price)
    ∷ ("line_total", Value.amount (price *ℤ quantity))
    ∷ ("gold_rate_at_sale", Value.amount c.rate_24k)
    ∷ ("stone_value", Value.amount (or_zero p.stone_value_usd))
    ∷ ("qty_after", Value.integer (row.on_hand_qty -ℤ quantity))
    ∷ (
      "status_after",
      Value.text (if eq_ℤ (row.on_hand_qty -ℤ quantity) (pos 0) then "SOLD" else "AVAILABLE"),
    )
    ∷ []

-- A row of the stock with enough on hand, and what selling from it leaves.
unfoldable pub sell_line :
    CheckoutLine
    → String
    → StockRow
    → SoldItem
    → Decimal
    → List (String × Value)
    → List StockRow
    → Result CheckoutError SoldLine
sell_line line id row item price payload stock = do
  raise_if (ltb_ℤ row.on_hand_qty line.quantity) insufficient_stock
  ok (record {
    item = record {
      id = line.item_id;
      sold = item;
      unit_type_id = if is_product line.item_kind then none else some id;
      product_code = row.code;
      final_price = price *ℤ line.quantity;
      refunded_qty = pos 0;
      refunded_amount = pos 0;
      refunded_at = none;
    };
    total = price *ℤ line.quantity;
    stock = sell_rows line.item_kind id line.quantity stock;
    event = record {
      event_type = sale_event line.item_kind;
      ref_type = ref_of line.item_kind;
      ref_id = id;
      payload = payload;
    };
  })

unfoldable pub checkout_product_line :
    Catalog → CheckoutLine → List StockRow → Result CheckoutError SoldLine
checkout_product_line c line stock = do
  id ← require_id line.type_id
  raise_if (ltb_ℤ line.quantity (pos 1)) quantity_below_one
  p ← require invalid_item (find (λ (x : ProductPrice). str_eq x.id id) c.products)
  row ← require invalid_item (find (is_row product id) stock)
  raise_if (not p.is_active) invalid_item
  raise_if (is_retired row.status) not_available
  sell_line line id row
      (record {
        item_kind = product;
        product_id = some id;
        karat = p.karat;
        weight_grams = p.weight_grams;
        gold_rate_at_sale = c.rate_24k;
        making_charge = p.making_charge;
        stone_cost_at_sale = p.stone_cost_usd;
        quantity = line.quantity;
      })
      (product_final_price c p) (product_payload c p row line.quantity (product_final_price c p))
      stock

-- COIN_OUNCE_QTY_CAP
abbrev pub coin_ounce_qty_cap : ℤ
coin_ounce_qty_cap = pos 100

unfoldable pub checkout_unit_line :
    Catalog → CheckoutLine → List StockRow → Result CheckoutError SoldLine
checkout_unit_line c line stock = do
  id ← require_id line.type_id
  raise_if (ltb_ℤ line.quantity (pos 1)) quantity_below_one
  raise_if (ltb_ℤ coin_ounce_qty_cap line.quantity) over_cap
  row ← require invalid_item (find (is_row line.item_kind id) stock)
  u ←
      require invalid_item
        (find (λ (x : UnitPrice). same_kind line.item_kind x.kind && str_eq x.id id) c.units)
  raise_if (not u.is_active) invalid_item
  sell_line line id row
      (record {
        item_kind = line.item_kind;
        product_id = none;
        karat = u.karat;
        weight_grams = u.weight_grams;
        gold_rate_at_sale = c.rate_24k;
        making_charge = pos 0;
        stone_cost_at_sale = none;
        quantity = line.quantity;
      })
      (unit_final_price c u) (unit_payload c row line.quantity (unit_final_price c u)) stock

abbrev pub checkout_line : Catalog → CheckoutLine → List StockRow → Result CheckoutError SoldLine
checkout_line c line stock =
    if is_product line.item_kind
    then checkout_product_line c line stock
    else checkout_unit_line c line stock
