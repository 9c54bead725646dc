-- ===== src/Suppliers/Purchases.antt =====
-- `create_purchase`: the checks of the request, the gold that is paid, the stock that comes in, the
-- debts, the events, and the posting. A failure of any part undoes all of it.
use jewelry_backend.Common.{
  ℕ, Bool, true, false, ◌||◌, Option, none, some, List, [], ◌∷◌, ◌++◌, String, if◌then◌else◌,
  Result, ok, err, ◌>>=◌, ◌>>◌, raise_if, length,
}
use jewelry_backend.Common.Int.{pos, ◌-ℤ◌, ltb_ℤ, nonzero}
use jewelry_backend.Money.{Decimal}
use jewelry_backend.Audit.Ledger.{LedgerFields, Value}
use jewelry_backend.Audit.Events.{Event, Recorder}
use jewelry_backend.Gl.Store.{Db, GlFields, Entry, Error as GlError}
use jewelry_backend.Inventory.Lot.{Lot, Stock}
use jewelry_backend.Inventory.Lot
use jewelry_backend.Inventory.Supplier.{Balance, Key, cash_unit, gold_unit, adjust_balance}
use jewelry_backend.Postings.{Context}
use jewelry_backend.Postings.Supplier.{Purchase, Grams, grams_at, post_supplier_purchase}
use jewelry_backend.Suppliers.{
  Supplier, PaymentMode, cash_mode, gold_mode, mixed_mode, SupplierPurchase, Shop, Error, lift,
  parse_karat, find_supplier, inactive_supplier, cash_overpaid, gold_in_cash_mode,
  cash_in_gold_mode, gold_overpaid, balance_refused, gl_refused, record_all, balance_event, or_else,
}
use jewelry_backend.Suppliers.Intake.{
  GoldPayment, ItemIn, Draw, consume_lots, Received, materialize_items,
}

-- `PurchaseCreate`
pub record PurchaseRequest : Type 0 where
  pub occurred_at : Option ℕ
  pub payment_mode : PaymentMode
  pub trade_markup_per_gram : Option Decimal
  pub total_cash_due : Decimal
  pub total_grams_due_by_karat : List Grams
  pub cash_paid_at_creation : Decimal
  pub gold_payments_at_creation : List GoldPayment
  pub items : List ItemIn

-- Who asks, the keys and times that the database and the clock supply, and what posting is given,
-- none where there is no row of settings.
pub record Caller : Type 0 where
  pub recorder : Recorder
  pub document_id : String
  pub now : ℕ
  pub supply : ℕ → Lot.Supply
  pub key : ℕ → String
  pub posting : Option Context

abbrev pub usable : Option Supplier → Result Error Supplier
usable none = err inactive_supplier
usable (some s) = if s.is_active then ok s else err inactive_supplier

abbrev pub is_some_of {ℓ} : {A : Type ℓ} → List A → Bool
is_some_of [] = false
is_some_of (x ∷ xs) = true

unfoldable pub check_mode : PurchaseRequest → Result Error (Unit {0})
check_mode q = elim q.payment_mode [
  | cash_mode ↦
      raise_if (is_some_of q.gold_payments_at_creation || is_some_of q.total_grams_due_by_karat)
        gold_in_cash_mode
  | gold_mode ↦
      raise_if (nonzero q.cash_paid_at_creation || nonzero q.total_cash_due) cash_in_gold_mode
  | mixed_mode ↦ ok tt
]

unfoldable pub check_karats : List Grams → Result Error (Unit {0})
check_karats [] = ok tt
check_karats (g ∷ gs) = parse_karat g.karat >>= λ karat. check_karats gs

unfoldable pub purchase_checks : PurchaseRequest → Result Error (Unit {0})
purchase_checks q =
    raise_if (ltb_ℤ q.total_cash_due q.cash_paid_at_creation) cash_overpaid
    >> (check_mode q >> check_karats q.total_grams_due_by_karat)

-- Of each karat no more gold is paid than is due.
unfoldable pub check_grams_paid : List Grams → List Grams → Result Error (Unit {0})
check_grams_paid due [] = ok tt
check_grams_paid due (g ∷ paid) =
    raise_if (ltb_ℤ (grams_at g.karat due) g.grams) (gold_overpaid g.karat)
    >> check_grams_paid due paid

abbrev pub cash_key : String → Key
cash_key supplier_id = record { supplier_id = supplier_id; unit = cash_unit; karat = "" }

abbrev pub gold_key : String → String → Key
gold_key supplier_id karat = record { supplier_id = supplier_id; unit = gold_unit; karat = karat }

-- A debt that grows, with the event of it; nothing where the delta is not positive.
unfoldable pub owe :
    String → Key → Decimal → List Balance × List Event → Result Error (List Balance × List Event)
owe purchase_id k delta (rows, events) =
    let grown = lift balance_refused (adjust_balance rows k delta false) >>= λ moved. ok (
      moved.2,
      events
          ++ balance_event k delta moved.0 moved.1 "purchase"
              ("purchase_id", Value.text purchase_id)
            ∷ [],
    ) in
    if ltb_ℤ (pos 0) delta then grown else ok (rows, events)

unfoldable pub owe_gold :
    String
    → String
    → List Grams
    → List Grams
    → List Balance × List Event
    → Result Error (List Balance × List Event)
owe_gold purchase_id supplier_id paid [] s = ok s
owe_gold purchase_id supplier_id paid (g ∷ due) s =
    owe purchase_id (gold_key supplier_id g.karat) (g.grams -ℤ grams_at g.karat paid) s
    >>= owe_gold purchase_id supplier_id paid due

unfoldable pub owe_all : Purchase → String → List Balance → Result Error (List Balance × List Event)
owe_all p supplier_id rows =
    owe p.id (cash_key supplier_id) (p.total_cash_due -ℤ p.cash_paid_at_creation) (rows, [])
    >>= owe_gold p.id supplier_id p.grams_paid_at_creation_by_karat p.total_grams_due_by_karat

abbrev mode_text : PaymentMode → String
mode_text cash_mode = "CASH"
mode_text gold_mode = "GOLD"
mode_text mixed_mode = "MIXED"

abbrev pub gram_pairs : List Grams → List (String × Decimal)
gram_pairs [] = []
gram_pairs (g ∷ gs) = (g.karat, g.grams) ∷ gram_pairs gs

-- `str(x) if x else None`
abbrev amount_or_none : Option Decimal → Value
amount_or_none none = Value.optional none
amount_or_none (some d) = if nonzero d then Value.amount d else Value.optional none

abbrev pub purchase_event : Supplier → PurchaseRequest → Purchase → Event
purchase_event s q p = record {
  event_type = "SUPPLIER_PURCHASE";
  ref_type = "supplier_purchase";
  ref_id = p.id;
  payload =
      ("supplier_id", Value.text s.id)
      ∷ ("supplier_name", Value.text s.name)
      ∷ ("payment_mode", Value.text (mode_text q.payment_mode))
      ∷ ("total_cash_due", Value.amount p.total_cash_due)
      ∷ ("total_grams_due_by_karat", Value.amounts (gram_pairs p.total_grams_due_by_karat))
      ∷ ("cash_paid_at_creation", Value.amount p.cash_paid_at_creation)
      ∷ (
        "grams_paid_at_creation_by_karat",
        Value.amounts (gram_pairs p.grams_paid_at_creation_by_karat),
      )
      ∷ ("trade_markup_per_gram", amount_or_none q.trade_markup_per_gram)
      ∷ ("items", Value.number (length q.items))
      ∷ [];
}

abbrev pub purchase_row : String → PurchaseRequest → List Grams → Received → Purchase
purchase_row id q paid received = record {
  id = id;
  total_cash_due = q.total_cash_due;
  cash_paid_at_creation = q.cash_paid_at_creation;
  total_grams_due_by_karat = q.total_grams_due_by_karat;
  grams_paid_at_creation_by_karat = paid;
  items = received.items;
}

-- The time of the request, or of the database.
abbrev pub purchase_of : Caller → Supplier → PurchaseRequest → Purchase → SupplierPurchase
purchase_of c s q p = record {
  supplier_id = s.id;
  occurred_at = or_else q.occurred_at c.now;
  payment_mode = q.payment_mode;
  document = p;
}

-- The tables with what came in, the balances and the purchase.
abbrev pub bought : Shop → Received → List Balance → SupplierPurchase → Shop
bought shop received balances p = record shop {
  balances = balances;
  lots = received.lots;
  units = received.units;
  products = received.products;
  purchases = shop.purchases ++ p ∷ [];
}

abbrev pub draw_of : String → Caller → Draw
draw_of ref_type c = record {
  ref_type = ref_type;
  ref_id = c.document_id;
  actor_user_id = c.recorder.actor_user_id;
  supply = c.supply;
}

abbrev pub stock_of : Shop → Stock
stock_of shop = record {
  lots = shop.lots;
  consumptions = shop.consumptions;
  ledger = shop.db.ledger;
}

abbrev pub with_stock : Stock → Shop → Shop
with_stock stock shop = record shop {
  lots = stock.lots;
  consumptions = stock.consumptions;
  db = record shop.db { ledger = stock.ledger };
}

abbrev pub received_by : Shop → Received
received_by shop = record {
  items = [];
  lots = shop.lots;
  units = shop.units;
  products = shop.products;
  events = [];
}

-- The tables of the general ledger after a mapper; without settings nothing is posted.
abbrev pub posted_db :
    Option Context → (Context → Result GlError (Option Entry × Db)) → Db → Result GlError Db
posted_db none post db = ok db
posted_db (some c) post db = post c >>= λ posted. ok posted.1

abbrev pub post_to :
    Option Context → (Context → Db → Result GlError (Option Entry × Db)) → Shop → Result Error Shop
post_to posting post shop =
    lift gl_refused (posted_db posting (λ c. post c shop.db) shop.db) >>= λ db.
    ok (record shop { db = db })

module _ (gl_digest : String → GlFields → String) (digest : String → LedgerFields → String) where
  -- From the gold that was paid: what comes in, and the purchase with its debts.
  unfoldable pub book_purchase :
      Caller → Supplier → PurchaseRequest → List Grams → Shop → Result Error Shop
  book_purchase c s q paid shop = do
    check_grams_paid q.total_grams_due_by_karat paid
    received ← materialize_items c.document_id c.key 0 q.items (received_by shop)
    let p = purchase_row c.document_id q paid received
    owed ← owe_all p s.id shop.balances
    recorded ←
        record_all digest c.recorder (received.events ++ (owed.1 ++ purchase_event s q p ∷ []))
          (bought shop received owed.0 (purchase_of c s q p))
    post_to c.posting (λ context db. post_supplier_purchase gl_digest digest context p db) recorded

  unfoldable pub create_purchase : Caller → String → PurchaseRequest → Shop → Result Error Shop
  create_purchase c supplier_id q shop = do
    s ← usable (find_supplier supplier_id shop.suppliers)
    purchase_checks q
    drawn ←
        consume_lots digest (draw_of "supplier_purchase" c) 0 q.gold_payments_at_creation []
          (stock_of shop)
    book_purchase c s q drawn.0 (with_stock drawn.1 shop)
