-- ===== src/Ap/Charges.antt =====
-- What purchases and payments add to the cash that a supplier is owed.
use jewelry_backend.Common.{
  ◌≡◌, refl, sym, ap, ap₂, ◌∙◌, Bool, true, false, List, [], ◌∷◌, String, str_eq, leb,
  if◌then◌else◌, Bool-cases, inl, inr,
}
use jewelry_backend.Common.Int.{pos, ◌+ℤ◌, ◌-ℤ◌, int_laws}
use jewelry_backend.Money.{Decimal}
use jewelry_backend.Gl.Lines.{sum_of}
use jewelry_backend.Inventory.Supplier.{key_eq}
use jewelry_backend.Postings.Supplier.{PaymentUnit, Grams, grams_at}
use jewelry_backend.Suppliers.{SupplierPurchase, SupplierPayment}
use jewelry_backend.Suppliers.Purchases.{cash_key, gold_key}
use jewelry_backend.Suppliers.Payments.{paid_key}
use jewelry_backend.Postings.{karat_value}
use jewelry_backend.Suppliers.Owed.{charged, repaid, gold_charged, positive, at_key}
use jewelry_backend.Ap.{insert_by_time, by_time, net_due, cash_paid_by}

-- The order of the rows is of no account for a sum.
sum_of-insert_by_time :
    (f : SupplierPurchase → Decimal) (p : SupplierPurchase) (rows : List SupplierPurchase)
    → sum_of f (insert_by_time p rows) ≡ f p +ℤ sum_of f rows
unfolding insert_by_time
sum_of-insert_by_time f p [] = refl
sum_of-insert_by_time f p (r ∷ rows) = elim (Bool-cases (leb p.occurred_at r.occurred_at)) [
  | inl before ↦ rw before refl
  | inr after ↦ rw (after, sum_of-insert_by_time f p rows) (omega int_laws)
]

pub sum_of-by_time :
    (f : SupplierPurchase → Decimal) (rows : List SupplierPurchase)
    → sum_of f (by_time rows) ≡ sum_of f rows
unfolding by_time
sum_of-by_time f [] = refl
sum_of-by_time f (p ∷ rows) =
    sum_of-insert_by_time f p (by_time rows)
    ∙ ap (λ (x : Decimal). f p +ℤ x) (sum_of-by_time f rows)

gold_at_cash :
    (id other k : String) (d : Decimal) → at_key (cash_key id) (gold_key other k) d ≡ pos 0
unfolding key_eq
gold_at_cash id other k d = elim (Bool-cases (str_eq other id)) [
  | inl this ↦ rw this refl
  | inr other ↦ rw other refl
]

cash_at_cash :
    (id other : String) (d : Decimal)
    → at_key (cash_key id) (cash_key other) d ≡ (if str_eq other id then d else pos 0)
unfolding key_eq
cash_at_cash id other d = elim (Bool-cases (str_eq other id)) [
  | inl this ↦ rw this refl
  | inr other ↦ rw other refl
]

no_gold :
    (id other : String) (paid due : List Grams) → gold_charged (cash_key id) other paid due ≡ pos 0
no_gold id other paid [] = refl
no_gold id other paid (g ∷ due) =
    rw (gold_at_cash id other g.karat (positive (g.grams -ℤ grams_at g.karat paid)))
      (rw (no_gold id other paid due) (omega int_laws))

-- What a purchase leaves owed in cash, and what a payment pays of it.
pub cash_charged :
    (id : String) (p : SupplierPurchase)
    → charged (cash_key id) p
      ≡ (if str_eq p.supplier_id id then positive (net_due p.document) else pos 0)
cash_charged id p =
    rw
      (
        cash_at_cash id p.supplier_id (positive (net_due p.document)),
        no_gold id p.supplier_id p.document.grams_paid_at_creation_by_karat
            p.document.total_grams_due_by_karat,
      )
      (omega int_laws)

same_both : (b : Bool) → (if b then pos 0 else pos 0) ≡ pos 0
same_both true = refl
same_both false = refl

cash_repaid : (id : String) (p : SupplierPayment) → repaid (cash_key id) p ≡ cash_paid_by id p
cash_repaid id p = split p.document.unit p.document.amount
  where
    split :
        (u : PaymentUnit) (d : Decimal)
        → at_key (cash_key id) (paid_key p.supplier_id u) d ≡ (
            if str_eq p.supplier_id id
            then elim u [ PaymentUnit.cash ↦ d | PaymentUnit.gold k ↦ pos 0 ]
            else pos 0)
    split PaymentUnit.cash d = cash_at_cash id p.supplier_id d
    split (PaymentUnit.gold k) d =
        gold_at_cash id p.supplier_id (karat_value k) d ∙ sym (same_both (str_eq p.supplier_id id))

pub sum_of-cash_repaid :
    (id : String) (rows : List SupplierPayment)
    → sum_of (repaid (cash_key id)) rows ≡ sum_of (cash_paid_by id) rows
sum_of-cash_repaid id [] = refl
sum_of-cash_repaid id (p ∷ rows) = ap₂ ◌+ℤ◌ (cash_repaid id p) (sum_of-cash_repaid id rows)
