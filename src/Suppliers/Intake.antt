-- ===== src/Suppliers/Intake.antt =====
-- What a purchase moves: `_consume_lots`, the gold that leaves, and `_materialize_item`, the stock
-- that comes in. A product's code, names and prices are left out: nothing here reads them.
use jewelry_backend.Common.{
  ℕ, suc, false, not, Option, none, some, List, [], ◌∷◌, ◌++◌, String, str_eq, if◌then◌else◌,
  Result, ok, err, ◌>>=◌, ◌>>◌, raise_if, find, replace,
}
use jewelry_backend.Common.Int.{ℤ, ◌+ℤ◌, nonzero}
use jewelry_backend.Money.{Decimal}
use jewelry_backend.Audit.Ledger.{LedgerFields, Value}
use jewelry_backend.Audit.Events.{Event}
use jewelry_backend.Pricing.{Karat}
use jewelry_backend.Inventory.Lot.{Lot, Stock, Supply, Request, find_lot, consume_from_lot}
use jewelry_backend.StockTake.Units.{UnitRow, RefType, coin_stock, ounce_stock, find_unit, is_unit}
use jewelry_backend.Postings.{is_none, karat_value}
use jewelry_backend.Postings.Supplier.{Grams, PurchaseItem, PurchaseItemKind}
use jewelry_backend.Suppliers.{
  Product, Error, lift, parse_karat, lot_not_found, karat_differs, lot_refused, item_incomplete,
  unit_not_found, add_grams,
}

-- `GoldPaymentIn`
pub record GoldPayment : Type 0 where
  pub lot_id : String
  pub grams : Decimal
  pub karat : String

abbrev pub require_lot : String → Option Lot → Result Error Lot
require_lot id none = err (lot_not_found id)
require_lot id (some lot) = ok lot

-- Who consumes and for which document; the keys and times of the n-th consumption.
pub record Draw : Type 0 where
  pub ref_type : String
  pub ref_id : String
  pub actor_user_id : String
  pub supply : ℕ → Supply

abbrev pub request_of : Draw → GoldPayment → Request
request_of d gp = record {
  lot_id = gp.lot_id;
  grams = gp.grams;
  ref_type = d.ref_type;
  ref_id = d.ref_id;
  actor_user_id = d.actor_user_id;
}

module _ (digest : String → LedgerFields → String) where
  unfoldable pub consume_lots :
      Draw → ℕ → List GoldPayment → List Grams → Stock → Result Error (List Grams × Stock)
  consume_lots d n [] total_by_karat stock = ok (total_by_karat, stock)
  consume_lots d n (gp ∷ payments) total_by_karat stock = parse_karat gp.karat >>= λ karat.
      require_lot gp.lot_id (find_lot stock.lots gp.lot_id) >>= λ lot.
      raise_if (not (str_eq (karat_value lot.karat) (karat_value karat))) (karat_differs gp.lot_id)
      >> (lift lot_refused (consume_from_lot digest stock (request_of d gp) (d.supply n))
          >>= λ consumed.
              consume_lots d (suc n) payments
                (add_grams (karat_value karat) gp.grams total_by_karat) (consumed.1))

pub data ItemKind : Type 0 where
  pure_gold coin ounce product : ItemKind

-- The `product` of a request: which keys it has, and the values that are stored.
pub record ProductSpec : Type 0 where
  pub keys : List String
  pub karat : String
  pub weight_grams : Decimal

-- `PurchaseItemIn`
pub record ItemIn : Type 0 where
  pub item_kind : ItemKind
  pub unit_cost_usd : Decimal
  pub spec : Option ProductSpec
  pub coin_type_id : Option String
  pub ounce_type_id : Option String
  pub quantity : Option ℤ
  pub weight_grams : Option Decimal
  pub karat : Option String

-- `if not value: raise`
abbrev pub present : Option String → Result Error String
present none = err item_incomplete
present (some s) = if str_eq s "" then err item_incomplete else ok s

abbrev pub counted : Option ℤ → Result Error ℤ
counted none = err item_incomplete
counted (some n) = if nonzero n then ok n else err item_incomplete

abbrev pub given : {A : Type 0} → Option A → Result Error A
given none = err item_incomplete
given (some a) = ok a

unfoldable pub require_keys : List String → List String → Result Error (Unit {0})
require_keys keys [] = ok tt
require_keys keys (k ∷ ks) =
    raise_if (is_none (find (str_eq k) keys)) item_incomplete >> require_keys keys ks

abbrev pub required_keys : List String
required_keys =
    "name_en" ∷ "category" ∷ "karat" ∷ "weight_grams" ∷ "margin_percent" ∷ "making_charge" ∷ []

-- The stock that comes in so far, with the item rows and the events.
pub record Received : Type 0 where
  pub items : List PurchaseItem
  pub lots : List Lot
  pub units : List UnitRow
  pub products : List Product
  pub events : List Event

-- The columns of the item's row that posting reads; a new product has no stone cost.
abbrev pub item_row : PurchaseItemKind → Option Karat → Option ℤ → Decimal → PurchaseItem
item_row kind karat quantity cost = record {
  item_kind = kind;
  karat = karat;
  unit_cost_usd = some cost;
  quantity = quantity;
  product_stone_cost_usd = none;
}

abbrev lot_event : String → String → Karat → Decimal → Decimal → Event
lot_event purchase_id lot_id karat weight cost = record {
  event_type = "LOT_CREATED";
  ref_type = "gold_lot";
  ref_id = lot_id;
  payload =
      ("karat", Value.text (karat_value karat))
      ∷ ("weight_grams", Value.amount weight)
      ∷ ("source", Value.text "SUPPLIER")
      ∷ ("cost_basis_usd", Value.amount cost)
      ∷ ("from_purchase_id", Value.text purchase_id)
      ∷ [];
}

-- A line of pure gold makes a lot; `key` is the key that the database gives it.
unfoldable pub receive_gold : String → String → ItemIn → Received → Result Error Received
receive_gold purchase_id key it s = do
  weight ← given it.weight_grams
  karat_text ← present it.karat
  karat ← parse_karat karat_text
  ok (record s {
    items = s.items ++ item_row PurchaseItemKind.pure_gold (some karat) none it.unit_cost_usd ∷ [];
    lots =
        s.lots
        ++ record {
          id = key;
          karat = karat;
          weight_grams = weight;
          weight_remaining_grams = weight;
          cost_basis_usd = it.unit_cost_usd;
          is_depleted = false;
        }
          ∷ [];
    events = s.events ++ lot_event purchase_id key karat weight it.unit_cost_usd ∷ [];
  })

abbrev pub require_unit : Option UnitRow → Result Error UnitRow
require_unit none = err unit_not_found
require_unit (some row) = ok row

-- A line of coins or ounces adds to the quantity on hand. The item's karat and weight are those of
-- the type, which nothing here reads.
unfoldable pub receive_units : RefType → Option String → ItemIn → Received → Result Error Received
receive_units kind type_id it s = do
  id ← present type_id
  quantity ← counted it.quantity
  row ← require_unit (find_unit kind id s.units)
  ok (record s {
    items = s.items ++ item_row PurchaseItemKind.other none (some quantity) it.unit_cost_usd ∷ [];
    units =
        replace (is_unit kind id) (record row { on_hand_qty = row.on_hand_qty +ℤ quantity })
          s.units;
  })

unfoldable pub receive_product : String → String → ItemIn → Received → Result Error Received
receive_product purchase_id key it s = do
  spec ← given it.spec
  require_keys spec.keys required_keys
  karat ← parse_karat spec.karat
  ok (record s {
    items = s.items ++ item_row PurchaseItemKind.product (some karat) none it.unit_cost_usd ∷ [];
    products =
        s.products
        ++ record {
          id = key;
          karat = karat;
          weight_grams = spec.weight_grams;
          cost_basis_usd = it.unit_cost_usd;
          source_ref_id = purchase_id;
        }
          ∷ [];
  })

unfoldable pub materialize_item : String → String → ItemIn → Received → Result Error Received
materialize_item purchase_id key it s = elim it.item_kind [
  | pure_gold ↦ receive_gold purchase_id key it s
  | coin ↦ receive_units coin_stock it.coin_type_id it s
  | ounce ↦ receive_units ounce_stock it.ounce_type_id it s
  | product ↦ receive_product purchase_id key it s
]

-- The loop over the items; the n-th row that an item adds has the key `key n`.
unfoldable pub materialize_items :
    String → (ℕ → String) → ℕ → List ItemIn → Received → Result Error Received
materialize_items purchase_id key n [] s = ok s
materialize_items purchase_id key n (it ∷ items) s =
    materialize_item purchase_id (key n) it s >>= λ s'.
    materialize_items purchase_id key (suc n) items s'
