-- ===== src/Ap.antt =====
-- The ageing of what suppliers are owed: `compute_ap_aging` of app/core/ap.py, which rebuilds the
-- open purchases of each supplier from the history, first in first out.
pub mod Charges
pub mod Open
pub mod Reconciled
pub mod Control
pub mod Metal
pub mod Credit
pub mod Posted
pub mod Tied
use jewelry_backend.Common.{
  ℕ, ◌+◌, Bool, true, false, ◌&&◌, List, [], ◌∷◌, String, str_eq, if◌then◌else◌, leb,
}
use jewelry_backend.Common.Int.{ℤ, pos, ◌+ℤ◌, ◌-ℤ◌, ltb_ℤ, leb_ℤ, nonzero}
use jewelry_backend.Money.{Decimal, quantize}
use jewelry_backend.Gl.Lines.{q_money, q_grams, sum_of}
use jewelry_backend.Ar.{min_ℤ}
use jewelry_backend.Ar.Aging.{Totals, no_totals, add_to, sum_of_totals, bucket}
use jewelry_backend.Inventory.Supplier.{Balance, DebtUnit, cash_unit, gold_unit}
use jewelry_backend.Postings.Supplier.{Purchase, Payment, PaymentUnit, Grams}
use jewelry_backend.Suppliers.{Supplier, SupplierPurchase, SupplierPayment, Shop}

-- `order_by(SupplierPurchase.occurred_at)`
unfoldable pub insert_by_time : SupplierPurchase → List SupplierPurchase → List SupplierPurchase
insert_by_time p [] = p ∷ []
insert_by_time p (r ∷ rows) =
    let rest = insert_by_time p rows in
    if leb p.occurred_at r.occurred_at then p ∷ r ∷ rows else r ∷ rest

unfoldable pub by_time : List SupplierPurchase → List SupplierPurchase
by_time [] = []
by_time (p ∷ rows) = insert_by_time p (by_time rows)

-- An open purchase.
pub record OpenPurchase : Type 0 where
  pub occurred_at : ℕ
  pub amt : Decimal

abbrev pub net_due : Purchase → Decimal
net_due p = p.total_cash_due -ℤ p.cash_paid_at_creation

unfoldable pub outstanding : String → List SupplierPurchase → List OpenPurchase
outstanding id [] = []
outstanding id (p ∷ rows) =
    let rest = outstanding id rows in
    if str_eq p.supplier_id id && ltb_ℤ (pos 0) (net_due p.document)
    then record { occurred_at = p.occurred_at; amt = net_due p.document } ∷ rest
    else rest

-- `func.sum(SupplierPayment.amount)` of the supplier's payments in cash
abbrev pub cash_amount : Payment → Decimal
cash_amount p = elim p.unit [ PaymentUnit.cash ↦ p.amount | PaymentUnit.gold k ↦ pos 0 ]

abbrev pub cash_paid_by : String → SupplierPayment → Decimal
cash_paid_by id p = if str_eq p.supplier_id id then cash_amount p.document else pos 0

-- What was paid settles the oldest purchases first.
unfoldable pub pay_off : Decimal → List OpenPurchase → List OpenPurchase
pay_off paid [] = []
pay_off paid (o ∷ open_rows) =
    let applied = min_ℤ paid o.amt in
    let rest = pay_off (paid -ℤ applied) open_rows in
    if leb_ℤ paid (pos 0) then o ∷ open_rows else record o { amt = o.amt -ℤ applied } ∷ rest

-- What remains open of a supplier.
unfoldable pub open_purchases : Shop → String → List OpenPurchase
open_purchases shop id =
    pay_off (sum_of (cash_paid_by id) shop.payments) (outstanding id (by_time shop.purchases))

abbrev pub quantized : Totals → Totals
quantized t = record {
  days_30 = quantize q_money t.days_30;
  days_60 = quantize q_money t.days_60;
  days_90 = quantize q_money t.days_90;
  days_over = quantize q_money t.days_over;
}

-- `d[k] = (d.get(k, 0) + grams).quantize(0.001)`
unfoldable pub add_metal : String → Decimal → List Grams → List Grams
add_metal k grams [] = record { karat = k; grams = quantize q_grams grams } ∷ []
add_metal k grams (g ∷ gs) =
    let rest = add_metal k grams gs in
    if str_eq g.karat k
    then record g { grams = quantize q_grams (g.grams +ℤ grams) } ∷ gs
    else g ∷ rest

abbrev pub is_gold : DebtUnit → Bool
is_gold cash_unit = false
is_gold gold_unit = true

-- The gold rows of a supplier that are not zero.
unfoldable pub metal_of : String → List Balance → List Grams → List Grams
metal_of id [] metal = metal
metal_of id (row ∷ rows) metal = metal_of id rows (
    if str_eq row.supplier_id id && (is_gold row.unit && nonzero row.balance)
    then add_metal row.karat row.balance metal
    else metal)

pub record SupplierAging : Type 0 where
  pub supplier_id : String
  pub name : String
  pub cash_buckets : Totals
  pub metal_by_karat : List Grams

-- The buckets so far, and the part of each supplier.
pub record ApAging : Type 0 where
  pub cash_buckets : Totals
  pub metal_owed_by_karat : List Grams
  pub by_supplier : List SupplierAging

-- `days_ago` is the number of days from a time to the day of the report, by Python's `date`.
module _ (days_ago : ℕ → ℤ) where
  -- A purchase of which nothing is open is passed over.
  unfoldable pub age_one : OpenPurchase → Totals → Totals
  age_one o totals =
      if leb_ℤ o.amt (pos 0) then totals else add_to (bucket (days_ago o.occurred_at)) o.amt totals

  unfoldable pub age_open : List OpenPurchase → Totals → Totals
  age_open [] totals = totals
  age_open (o ∷ open_rows) totals = age_open open_rows (age_one o totals)

  unfoldable pub supplier_aging : Shop → Supplier → SupplierAging
  supplier_aging shop s = record {
    supplier_id = s.id;
    name = s.name;
    cash_buckets = quantized (age_open (open_purchases shop s.id) no_totals);
    metal_by_karat = metal_of s.id shop.balances [];
  }

  -- The loop over the suppliers; the buckets of all are rounded at its end.
  unfoldable pub age_suppliers : Shop → List Supplier → ApAging → ApAging
  age_suppliers shop [] report = report
  age_suppliers shop (s ∷ suppliers) report =
      let rest = age_suppliers shop suppliers (record {
        cash_buckets = age_open (open_purchases shop s.id) report.cash_buckets;
        metal_owed_by_karat = metal_of s.id shop.balances report.metal_owed_by_karat;
        by_supplier = report.by_supplier;
      }) in
      record rest { by_supplier = supplier_aging shop s ∷ rest.by_supplier }

  unfoldable pub compute_ap_aging : Shop → ApAging
  compute_ap_aging shop =
      let report =
        age_suppliers shop shop.suppliers
          (record { cash_buckets = no_totals; metal_owed_by_karat = []; by_supplier = [] }) in
      record report { cash_buckets = quantized report.cash_buckets }

  -- `cash_total`
  unfoldable pub cash_total : Shop → Decimal
  cash_total shop = quantize q_money (sum_of_totals (compute_ap_aging shop).cash_buckets)
