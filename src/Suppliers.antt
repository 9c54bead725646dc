-- ===== src/Suppliers.antt =====
-- Suppliers: the tables that app/api/suppliers.py reads and writes, what its handlers share, and
-- `create_supplier`, `update_supplier`, `delete_supplier` and `accounts_payable`. Of a supplier the
-- name and the flag are kept; the other columns are texts that nothing here reads.
pub mod Intake
pub mod Purchases
pub mod Payments
pub mod Owed
pub mod Scale
pub mod Ending
pub mod Steps
pub mod Standing
pub mod Changed
pub mod Settled
use jewelry_backend.Common.{
  ℕ, Bool, true, false, not, ◌&&◌, Option, none, some, List, [], ◌∷◌, ◌++◌, String, str_eq,
  if◌then◌else◌, Result, ok, err, ◌>>=◌, ◌>>◌, raise_if, find, replace, length, ◌==◌,
}
use Prim.Native.String.{◌++◌ as append_text}
use jewelry_backend.Common.Int.{ℤ, pos, ◌+ℤ◌, ltb_ℤ, nonzero}
use jewelry_backend.Money.{Decimal}
use jewelry_backend.Audit.{ChainError}
use jewelry_backend.Audit.Ledger.{Log, LedgerFields, Value, append_all}
use jewelry_backend.Audit.Events.{Event, Recorder, rows_from}
use jewelry_backend.Gl.Store.{Db, Error as GlError}
use jewelry_backend.Pricing.{Karat, k18, k21, k22, k24}
use jewelry_backend.Inventory.Lot.{Lot, Consumption, Error as LotError}
use jewelry_backend.Inventory.Supplier.{
  Balance, Key, DebtUnit, cash_unit, gold_unit, get_supplier_balances, Error as BalanceError,
}
use jewelry_backend.StockTake.Units.{UnitRow}
use jewelry_backend.Postings.Supplier.{Purchase, Payment, Grams}

pub record Supplier : Type 0 where
  pub id : String
  pub name : String
  pub is_active : Bool

pub data PaymentMode : Type 0 where
  cash_mode gold_mode mixed_mode : PaymentMode

-- A row of `supplier_purchases` with its items; the document is what posting reads. The columns of
-- cash hold two decimals, the amount of a payment three; finer amounts, which the database rounds, are
-- kept as they are here.
pub record SupplierPurchase : Type 0 where
  pub supplier_id : String
  pub occurred_at : ℕ
  pub payment_mode : PaymentMode
  pub document : Purchase

pub record SupplierPayment : Type 0 where
  pub supplier_id : String
  pub document : Payment

-- A row of `products` that a purchase adds.
pub record Product : Type 0 where
  pub id : String
  pub karat : Karat
  pub weight_grams : Decimal
  pub cost_basis_usd : Decimal
  pub source_ref_id : String

-- The tables. The ledger of `db` is the one that lots and handlers append to.
pub record Shop : Type 0 where
  pub suppliers : List Supplier
  pub balances : List Balance
  pub lots : List Lot
  pub consumptions : List Consumption
  pub units : List UnitRow
  pub products : List Product
  pub purchases : List SupplierPurchase
  pub payments : List SupplierPayment
  pub db : Db

pub data Error : Type 0 where
  supplier_not_found inactive_supplier cash_overpaid gold_in_cash_mode cash_in_gold_mode : Error
  outstanding_balances : ℕ → Error
  invalid_karat : String → Error
  lot_not_found : String → Error
  karat_differs : String → Error
  gold_overpaid : String → Error
  item_incomplete unit_not_found : Error
  cash_with_karat cash_with_gold gold_without_karat gold_without_lots : Error
  amount_differs : Decimal → Decimal → Error
  lot_refused : LotError → Error
  balance_refused : BalanceError → Error
  gl_refused : GlError → Error
  not_hashed : Error

-- An error of a callee goes through the handler, which rolls the transaction back.
abbrev pub lift : {E A : Type 0} → (E → Error) → Result E A → Result Error A
lift wrap (ok a) = ok a
lift wrap (err raised) = err (wrap raised)

-- `_parse_karat`
unfoldable pub parse_karat : String → Result Error Karat
parse_karat value =
    if str_eq value "K18"
    then ok k18
    else if str_eq value "K21"
    then ok k21
    else if str_eq value "K22"
    then ok k22
    else if str_eq value "K24"
    then ok k24
    else err (invalid_karat value)

abbrev pub find_supplier : String → List Supplier → Option Supplier
find_supplier id = find (λ (s : Supplier). str_eq s.id id)

abbrev pub require_supplier : Option Supplier → Result Error Supplier
require_supplier none = err supplier_not_found
require_supplier (some s) = ok s

-- `if balances: raise`
abbrev pub refuse_outstanding : List Balance → Result Error (Unit {0})
refuse_outstanding [] = ok tt
refuse_outstanding (row ∷ rows) = err (outstanding_balances (length (row ∷ rows)))

abbrev hash_error : ChainError → Error
hash_error raised = not_hashed

-- The calls of `record` that a handler makes, at the end of the ledger.
unfoldable pub record_all :
    (String → LedgerFields → String) → Recorder → List Event → Shop → Result Error Shop
record_all digest r events shop =
    lift hash_error (append_all digest shop.db.ledger (rows_from r 0 events)) >>= λ log.
    ok (record shop { db = record shop.db { ledger = log } })

abbrev supplier_event : String → String → String × Value → Event
supplier_event event_type id entry = record {
  event_type = event_type;
  ref_type = "supplier";
  ref_id = id;
  payload = entry ∷ [];
}

-- The fields that a request sets, as their texts.
abbrev changed_name : Option String → List (String × String)
changed_name none = []
changed_name (some name) = ("name", name) ∷ []

abbrev changed_flag : Option Bool → List (String × String)
changed_flag none = []
changed_flag (some true) = ("is_active", "True") ∷ []
changed_flag (some false) = ("is_active", "False") ∷ []

abbrev pub or_else : {A : Type 0} → Option A → A → A
or_else none a = a
or_else (some b) a = b

-- `updates.get("is_active") is False`
abbrev pub asks_inactive : Option Bool → Bool
asks_inactive (some false) = true
asks_inactive (some true) = false
asks_inactive none = false

abbrev pub store_supplier : Supplier → List Supplier → List Supplier
store_supplier new = replace (λ (s : Supplier). str_eq s.id new.id) new

module _ (digest : String → LedgerFields → String) (r : Recorder) where
  -- `id` is the key that the database gives the supplier.
  unfoldable pub create_supplier : String → String → Shop → Result Error Shop
  create_supplier id name shop =
      record_all digest r (supplier_event "SUPPLIER_CREATED" id ("name", Value.text name) ∷ [])
        (record shop {
          suppliers = shop.suppliers ++ record { id = id; name = name; is_active = true } ∷ [];
        })

  -- A supplier with an outstanding balance is not made inactive.
  unfoldable pub update_supplier : String → Option String → Option Bool → Shop → Result Error Shop
  update_supplier id name is_active shop =
      require_supplier (find_supplier id shop.suppliers) >>= λ s.
      (if asks_inactive is_active && s.is_active
        then refuse_outstanding (get_supplier_balances shop.balances id)
        else ok tt)
      >> record_all digest r
          (supplier_event "SUPPLIER_UPDATED" s.id
              ("changed", Value.texts (changed_name name ++ changed_flag is_active))
            ∷ [])
          (record shop {
            suppliers =
                store_supplier
                  (record s {
                    name = or_else name s.name;
                    is_active = or_else is_active s.is_active;
                  })
                  shop.suppliers;
          })

  unfoldable pub delete_supplier : String → Shop → Result Error Shop
  delete_supplier id shop = require_supplier (find_supplier id shop.suppliers) >>= λ s.
      refuse_outstanding (get_supplier_balances shop.balances id)
      >> record_all digest r
          (supplier_event "SUPPLIER_UPDATED" s.id ("soft_delete", Value.flag true) ∷ [])
          (record shop {
            suppliers = store_supplier (record s { is_active = false }) shop.suppliers;
          })

-- `f"{sup.id}:{unit}:{karat}"` and the events of a change of a balance.
abbrev unit_text : DebtUnit → String
unit_text cash_unit = "CASH"
unit_text gold_unit = "GOLD"

abbrev balance_ref : Key → String
balance_ref k =
    append_text k.supplier_id
      (append_text ":" (append_text (unit_text k.unit) (append_text ":" k.karat)))

abbrev karat_or_none : Key → Option String
karat_or_none k = elim k.unit [ cash_unit ↦ none | gold_unit ↦ some k.karat ]

-- `source` names the document and its key, as the reason.
abbrev pub balance_event : Key → Decimal → Decimal → Decimal → String → String × Value → Event
balance_event k delta before after reason source = record {
  event_type = "SUPPLIER_BALANCE_CHANGED";
  ref_type = "supplier_balance";
  ref_id = balance_ref k;
  payload =
      ("supplier_id", Value.text k.supplier_id)
      ∷ ("unit", Value.text (unit_text k.unit))
      ∷ ("karat", Value.optional (karat_or_none k))
      ∷ ("delta", Value.amount delta)
      ∷ ("before", Value.amount before)
      ∷ ("after", Value.amount after)
      ∷ ("reason", Value.text reason)
      ∷ source
      ∷ [];
}

-- `d[k] = d.get(k, 0) + grams`
unfoldable pub add_grams : String → Decimal → List Grams → List Grams
add_grams k grams [] = record { karat = k; grams = grams } ∷ []
add_grams k grams (g ∷ gs) =
    let rest = add_grams k grams gs in
    if str_eq g.karat k then record g { grams = g.grams +ℤ grams } ∷ gs else g ∷ rest

-- The totals of `accounts_payable`: cash, and grams of each karat.
pub record Payable : Type 0 where
  pub total_cash_owed : Decimal
  pub total_grams_owed_by_karat : List Grams

unfoldable pub accounts_payable : List Balance → Payable → Payable
accounts_payable [] so_far = so_far
accounts_payable (row ∷ rows) so_far = accounts_payable rows (
    if nonzero row.balance
    then elim row.unit [
      | cash_unit ↦ record so_far { total_cash_owed = so_far.total_cash_owed +ℤ row.balance }
      | gold_unit ↦ record so_far {
        total_grams_owed_by_karat =
            add_grams row.karat row.balance so_far.total_grams_owed_by_karat;
      }
    ]
    else so_far)
