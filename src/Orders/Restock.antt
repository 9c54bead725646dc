-- ===== src/Orders/Restock.antt =====
-- The stock that a void or a refund returns: app/api/orders.py, in `void_order` and
-- `refund_order_item`.
use jewelry_backend.Common.{
  Bool, true, false, not, ◌&&◌, Option, none, some, List, [], ◌∷◌, String, str_eq, if◌then◌else◌,
  find,
}
use jewelry_backend.Common.Int.{ℤ, ◌+ℤ◌}
use jewelry_backend.Audit.Ledger.{Value}
use jewelry_backend.Postings.Sale.{ItemKind, product, coin, ounce, is_product}
use jewelry_backend.Orders.{OrderItem}

pub data ProductStatus : Type 0 where
  available sold melted inactive : ProductStatus

-- MELTED or INACTIVE
abbrev pub is_retired : ProductStatus → Bool
is_retired melted = true
is_retired inactive = true
is_retired _ = false

-- A row of `products`, `coin_types` or `ounce_types`; only products have a status, and the handlers
-- read and write it of products alone.
pub record StockRow : Type 0 where
  pub kind : ItemKind
  pub id : String
  pub code : String
  pub on_hand_qty : ℤ
  pub status : ProductStatus

abbrev pub same_kind : ItemKind → ItemKind → Bool
same_kind product product = true
same_kind coin coin = true
same_kind ounce ounce = true
same_kind _ _ = false

-- The primary key of the table of the kind.
abbrev pub is_row : ItemKind → String → StockRow → Bool
is_row kind id row = same_kind kind row.kind && str_eq row.id id

-- `item.product_id`, `item.coin_type_id` or `item.ounce_type_id`, by the kind of the item
abbrev pub stock_id : OrderItem → Option String
stock_id it = if is_product it.sold.item_kind then it.sold.product_id else it.unit_type_id

-- A product that is melted or inactive takes nothing back.
abbrev pub takes_back : StockRow → Bool
takes_back row = not (is_product row.kind && is_retired row.status)

abbrev pub taken_back : ℤ → StockRow → StockRow
taken_back qty row = record row {
  on_hand_qty = row.on_hand_qty +ℤ qty;
  status = if is_product row.kind then available else row.status;
}

-- The row of the key, where it takes the units back; keys are unique, so one row changes.
abbrev pub restock_row : ItemKind → String → ℤ → StockRow → StockRow
restock_row kind id qty row =
    if is_row kind id row && takes_back row then taken_back qty row else row

abbrev pub restock_rows : ItemKind → String → ℤ → List StockRow → List StockRow
restock_rows kind id qty [] = []
restock_rows kind id qty (row ∷ rows) = restock_row kind id qty row ∷ restock_rows kind id qty rows

-- The row that took the units back, as it is after.
abbrev pub returned_row : ℤ → Option StockRow → Option StockRow
returned_row qty none = none
returned_row qty (some row) = if takes_back row then some (taken_back qty row) else none

-- The units of an item go back to its stock; with no stock to go to nothing changes.
abbrev pub return_to :
    ItemKind → ℤ → Option String → List StockRow → List StockRow × Option StockRow
return_to kind qty none stock = (stock, none)
return_to kind qty (some id) stock =
    (restock_rows kind id qty stock, returned_row qty (find (is_row kind id) stock))

unfoldable pub return_units : OrderItem → ℤ → List StockRow → List StockRow × Option StockRow
return_units it qty stock = return_to it.sold.item_kind qty (stock_id it) stock

abbrev pub ref_of : ItemKind → String
ref_of product = "product"
ref_of coin = "coin_type"
ref_of ounce = "ounce_type"

abbrev pub sale_event : ItemKind → String
sale_event product = "SALE_PRODUCT"
sale_event coin = "SALE_COIN"
sale_event ounce = "SALE_OUNCE"

abbrev pub kind_value : ItemKind → String
kind_value product = "PRODUCT"
kind_value coin = "COIN"
kind_value ounce = "OUNCE"

abbrev pub code_key : ItemKind → String
code_key product = "product_code"
code_key _ = "code"

-- `status_after`, of products
abbrev pub status_after : ItemKind → List (String × Value)
status_after product = ("status_after", Value.text "AVAILABLE") ∷ []
status_after _ = []
