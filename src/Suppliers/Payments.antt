-- ===== src/Suppliers/Payments.antt =====
-- `create_payment`: a debt to a supplier is repaid in cash, or in gold that is drawn from lots.
use jewelry_backend.Common.{
  Bool, false, not, Option, none, some, List, [], ◌∷◌, String, str_eq, Result, ok, ◌>>=◌, ◌>>◌,
  raise_if, ◌++◌,
}
use jewelry_backend.Common.Int.{pos, ◌-ℤ◌, eq_ℤ}
use jewelry_backend.Money.{Decimal}
use jewelry_backend.Audit.Ledger.{LedgerFields, Value}
use jewelry_backend.Audit.Events.{Event}
use jewelry_backend.Gl.Store.{GlFields}
use jewelry_backend.Gl.Lines.{sum_of}
use jewelry_backend.Inventory.Supplier.{
  Balance, Key, DebtUnit, cash_unit, gold_unit, adjust_balance,
}
use jewelry_backend.Postings.{karat_value}
use jewelry_backend.Postings.Supplier.{Payment, PaymentUnit, Grams, post_supplier_payment}
use jewelry_backend.Suppliers.{
  Supplier, SupplierPayment, Shop, Error, lift, parse_karat, find_supplier, require_supplier,
  cash_with_karat, cash_with_gold, gold_without_karat, gold_without_lots, karat_differs,
  amount_differs, balance_refused, record_all, balance_event,
}
use jewelry_backend.Suppliers.Intake.{GoldPayment, consume_lots}
use jewelry_backend.Suppliers.Purchases.{
  Caller, cash_key, gold_key, draw_of, stock_of, with_stock, gram_pairs, post_to, is_some_of,
}

-- `PaymentCreate`
pub record PaymentRequest : Type 0 where
  pub unit : DebtUnit
  pub karat : Option String
  pub amount : Decimal
  pub gold_payments : List GoldPayment
  pub notes : Option String

-- `if karat`
abbrev pub is_given : Option String → Bool
is_given none = false
is_given (some s) = not (str_eq s "")

abbrev pub text_or_empty : Option String → String
text_or_empty none = ""
text_or_empty (some s) = s

-- All gold that is drawn has the karat of the payment.
unfoldable pub check_karat : String → List GoldPayment → Result Error (Unit {0})
check_karat k [] = ok tt
check_karat k (gp ∷ payments) =
    raise_if (not (str_eq gp.karat k)) (karat_differs gp.lot_id) >> check_karat k payments

-- The row of the payment, once its request has passed.
unfoldable pub checked_unit : PaymentRequest → Result Error PaymentUnit
checked_unit q = elim q.unit [
  | cash_unit ↦
      raise_if (is_given q.karat) cash_with_karat
      >> (raise_if (is_some_of q.gold_payments) cash_with_gold >> ok PaymentUnit.cash)
  | gold_unit ↦ do
    raise_if (not (is_given q.karat)) gold_without_karat
    karat ← parse_karat (text_or_empty q.karat)
    raise_if (not (is_some_of q.gold_payments)) gold_without_lots
    raise_if (not (eq_ℤ (sum_of GoldPayment.grams q.gold_payments) q.amount))
        (amount_differs q.amount (sum_of GoldPayment.grams q.gold_payments))
    check_karat (karat_value karat) q.gold_payments
    ok (PaymentUnit.gold karat)
]

-- The balance that a payment of this unit lowers.
abbrev pub paid_key : String → PaymentUnit → Key
paid_key supplier_id PaymentUnit.cash = cash_key supplier_id
paid_key supplier_id (PaymentUnit.gold k) = gold_key supplier_id (karat_value k)

abbrev pub payment_event :
    Supplier → PaymentRequest → Payment → Decimal × Decimal → List Grams → Event
payment_event s q p moved consumed = elim p.unit [
  | PaymentUnit.cash ↦ record {
    event_type = "SUPPLIER_PAYMENT_CASH";
    ref_type = "supplier_payment";
    ref_id = p.id;
    payload =
        ("supplier_id", Value.text s.id)
        ∷ ("amount", Value.amount p.amount)
        ∷ ("balance_before", Value.amount moved.0)
        ∷ ("balance_after", Value.amount moved.1)
        ∷ ("notes", Value.optional q.notes)
        ∷ [];
  }
  | PaymentUnit.gold k ↦ record {
    event_type = "SUPPLIER_PAYMENT_GOLD";
    ref_type = "supplier_payment";
    ref_id = p.id;
    payload =
        ("supplier_id", Value.text s.id)
        ∷ ("karat", Value.text (karat_value k))
        ∷ ("amount_grams", Value.amount p.amount)
        ∷ ("lots_consumed", Value.amounts (gram_pairs consumed))
        ∷ ("balance_before", Value.amount moved.0)
        ∷ ("balance_after", Value.amount moved.1)
        ∷ ("notes", Value.optional q.notes)
        ∷ [];
  }
]

abbrev pub change_event : Supplier → Payment → Decimal × Decimal → Event
change_event s p moved =
    balance_event (paid_key s.id p.unit) (pos 0 -ℤ p.amount) moved.0 moved.1 "payment"
      ("payment_id", Value.text p.id)

abbrev pub payment_row : String → PaymentUnit → Decimal → Payment
payment_row id unit amount = record { id = id; unit = unit; amount = amount }

abbrev pub payment_of : Supplier → Payment → SupplierPayment
payment_of s p = record { supplier_id = s.id; document = p }

abbrev pub paid_shop : Shop → List Balance → SupplierPayment → Shop
paid_shop shop balances p = record shop { balances = balances; payments = shop.payments ++ p ∷ [] }

module _ (gl_digest : String → GlFields → String) (digest : String → LedgerFields → String) where
  -- A payment of cash brings no lots, so that the loop over them does nothing.
  unfoldable pub book_payment :
      Caller → Supplier → PaymentRequest → PaymentUnit → Shop → Result Error Shop
  book_payment c s q unit shop = do
    let p = payment_row c.document_id unit q.amount
    moved ←
        lift balance_refused
          (adjust_balance shop.balances (paid_key s.id unit) (pos 0 -ℤ q.amount) false)
    drawn ← consume_lots digest (draw_of "supplier_payment" c) 0 q.gold_payments [] (stock_of shop)
    recorded ←
        record_all digest c.recorder
          (payment_event s q p (moved.0, moved.1) drawn.0
            ∷ change_event s p (moved.0, moved.1)
            ∷ [])
          (paid_shop (with_stock drawn.1 shop) moved.2 (payment_of s p))
    post_to c.posting (λ context db. post_supplier_payment gl_digest digest context p db) recorded

  unfoldable pub create_payment : Caller → String → PaymentRequest → Shop → Result Error Shop
  create_payment c supplier_id q shop = do
    s ← require_supplier (find_supplier supplier_id shop.suppliers)
    unit ← checked_unit q
    book_payment c s q unit shop
