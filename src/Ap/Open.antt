-- ===== src/Ap/Open.antt =====
-- The open purchases of a supplier: what they sum to, and what paying them off leaves.
use jewelry_backend.Common.{
  ℕ, arith, ◌≡◌, refl, sym, ap, ◌∙◌, Bool, true, false, ◌&&◌, List, [], ◌∷◌, String, str_eq, leb,
  if◌then◌else◌, Bool-cases, inl, inr, All,
}
use jewelry_backend.Common.Int.{pos, ◌+ℤ◌, ◌-ℤ◌, ◌≤ℤ◌, ltb_ℤ, leb_ℤ, int_laws}
use jewelry_backend.Money.{Decimal}
use jewelry_backend.Gl.Lines.{sum_of}
use jewelry_backend.Gl.Cents.{IsCents, add-IsCents, sub-IsCents}
use jewelry_backend.Ar.{min_ℤ}
use jewelry_backend.Ar.Fifo.{min-IsCents}
use jewelry_backend.Inventory.Supplier.{owed}
use jewelry_backend.Postings.Supplier.{PaymentUnit}
use jewelry_backend.Suppliers.{SupplierPurchase, SupplierPayment, Shop}
use jewelry_backend.Suppliers.Purchases.{cash_key}
use jewelry_backend.Suppliers.Owed.{charged, positive}
use jewelry_backend.Suppliers.Changed.{IsSettled, above, owed-nonneg}
use jewelry_backend.Ap.{
  insert_by_time, by_time, OpenPurchase, net_due, outstanding, cash_amount, cash_paid_by, pay_off,
  open_purchases,
}
use jewelry_backend.Ap.Charges.{sum_of-by_time, cash_charged, sum_of-cash_repaid}

abbrev pub open_sum : List OpenPurchase → Decimal
open_sum = sum_of OpenPurchase.amt

abbrev pub NoneNegative : List OpenPurchase → Type 0
NoneNegative rows = All (λ (o : OpenPurchase). pos 0 ≤ℤ o.amt) rows

-- The open purchases of a supplier, before anything is paid.
add_zero : (d : Decimal) → d ≡ pos 0 +ℤ d
add_zero d = omega int_laws

open_one :
    (ours : Bool) (n : Decimal) (at : ℕ) (rest : List OpenPurchase) (total : Decimal)
    → (open_sum rest ≡ total) × NoneNegative rest
    → (open_sum
          (if ours && ltb_ℤ (pos 0) n then record { occurred_at = at; amt = n } ∷ rest else rest)
        ≡ (if ours then positive n else pos 0) +ℤ total)
      × NoneNegative
          (if ours && ltb_ℤ (pos 0) n then record { occurred_at = at; amt = n } ∷ rest else rest)
open_one false n at rest total (sum, kept) = (sum ∙ add_zero total, kept)
open_one true n at rest total (sum, kept) = elim (Bool-cases (ltb_ℤ (pos 0) n)) [
  | inl more ↦ rw more (ap (λ (x : Decimal). n +ℤ x) sum, (above n more, kept))
  | inr none ↦ rw none (sum ∙ add_zero total, kept)
]

outstanding_lem :
    (id : String) (rows : List SupplierPurchase)
    → (open_sum (outstanding id rows) ≡ sum_of (charged (cash_key id)) rows)
      × NoneNegative (outstanding id rows)
unfolding outstanding
outstanding_lem id [] = (refl, tt)
outstanding_lem id (p ∷ rows) = rw (cash_charged id p) (
    open_one (str_eq p.supplier_id id) (net_due p.document) p.occurred_at (outstanding id rows)
      (sum_of (charged (cash_key id)) rows) (outstanding_lem id rows))

open_sum-nonneg : (rows : List OpenPurchase) → NoneNegative rows → pos 0 ≤ℤ open_sum rows
open_sum-nonneg [] h = omega arith
open_sum-nonneg (o ∷ rows) h = let rest = open_sum-nonneg rows h.1 in omega (int_laws, rest, h.0)

-- What is applied to a purchase, of a payment and an open amount that are not negative.
module _ (paid amt rest : Decimal) (paid_nonneg : pos 0 ≤ℤ paid) (amt_nonneg : pos 0 ≤ℤ amt)
    (rest_nonneg : pos 0 ≤ℤ rest) (within : paid ≤ℤ amt +ℤ rest) where
  applied_fits :
      (pos 0 ≤ℤ paid -ℤ min_ℤ paid amt)
      × (pos 0 ≤ℤ amt -ℤ min_ℤ paid amt)
      × (paid -ℤ min_ℤ paid amt ≤ℤ rest)
  applied_fits = elim (Bool-cases (leb_ℤ paid amt)) [
    | inl all ↦
        let le = leb_le paid amt all in
        rw all (omega int_laws, omega (int_laws, le), omega int_laws)
    | inr part ↦
        let lt = leb_false paid amt part in
        rw part (omega (int_laws, lt), omega int_laws, omega int_laws)
  ]
    where
      leb_le : (a b : Decimal) → leb_ℤ a b ≡ true → a ≤ℤ b
      leb_le a b h = ground arith

      leb_false : (a b : Decimal) → leb_ℤ a b ≡ false → b ≤ℤ a
      leb_false a b h = ground arith

rearranged :
    (t r paid amt m : Decimal) → t ≡ r -ℤ (paid -ℤ m) → (amt -ℤ m) +ℤ t ≡ (amt +ℤ r) -ℤ paid
rearranged t r paid amt m e = rw e (omega int_laws)

unchanged : (d t : Decimal) → pos 0 ≤ℤ d → leb_ℤ d (pos 0) ≡ true → t ≡ t -ℤ d
unchanged d t a b = rw (zero d a b) (omega int_laws)
  where
    zero : (d : Decimal) → pos 0 ≤ℤ d → leb_ℤ d (pos 0) ≡ true → d ≡ pos 0
    zero d a b = ground arith

nothing_paid : (d : Decimal) → pos 0 ≤ℤ d → d ≤ℤ pos 0 → pos 0 ≡ pos 0 -ℤ d
nothing_paid d a b = omega int_laws

-- What is paid, up to what is open, leaves the rest open.
pay_off_lem :
    (paid : Decimal) (rows : List OpenPurchase)
    → NoneNegative rows
    → pos 0 ≤ℤ paid
    → paid ≤ℤ open_sum rows
    → (open_sum (pay_off paid rows) ≡ open_sum rows -ℤ paid) × NoneNegative (pay_off paid rows)
unfolding pay_off
pay_off_lem paid [] kept nonneg within = (nothing_paid paid nonneg within, tt)
pay_off_lem paid (o ∷ rows) kept nonneg within = elim (Bool-cases (leb_ℤ paid (pos 0))) [
  | inl done ↦ rw done (unchanged paid _ nonneg done, kept)
  | inr more ↦
      let m = min_ℤ paid o.amt in
      let (left, open', fits) =
        applied_fits paid o.amt (open_sum rows) nonneg kept.0 (open_sum-nonneg rows kept.1)
          within in
      let (sum, all) = pay_off_lem (paid -ℤ m) rows kept.1 left fits in
      rw more (rearranged _ (open_sum rows) paid o.amt m sum, (open', all))
]

-- Amounts in whole cents.
abbrev pub InCents : Shop → Type 0
InCents shop =
    All (λ (p : SupplierPurchase). IsCents (net_due p.document)) shop.purchases
    × All (λ (p : SupplierPayment). IsCents (cash_amount p.document)) shop.payments

abbrev pub OpenCents : List OpenPurchase → Type 0
OpenCents rows = All (λ (o : OpenPurchase). IsCents o.amt) rows

abbrev PurchaseCents : List SupplierPurchase → Type 0
PurchaseCents rows = All (λ (p : SupplierPurchase). IsCents (net_due p.document)) rows

insert_by_time-Cents :
    (p : SupplierPurchase) (rows : List SupplierPurchase)
    → IsCents (net_due p.document)
    → PurchaseCents rows
    → PurchaseCents (insert_by_time p rows)
unfolding insert_by_time
insert_by_time-Cents p [] h k = (h, tt)
insert_by_time-Cents p (r ∷ rows) h k = elim (Bool-cases (leb p.occurred_at r.occurred_at)) [
  | inl before ↦ rw before (h, k)
  | inr after ↦ rw after (k.0, insert_by_time-Cents p rows h k.1)
]

by_time-Cents : (rows : List SupplierPurchase) → PurchaseCents rows → PurchaseCents (by_time rows)
unfolding by_time
by_time-Cents [] h = tt
by_time-Cents (p ∷ rows) h = insert_by_time-Cents p (by_time rows) h.0 (by_time-Cents rows h.1)

outstanding-Cents :
    (id : String) (rows : List SupplierPurchase)
    → PurchaseCents rows
    → OpenCents (outstanding id rows)
unfolding outstanding
outstanding-Cents id [] h = tt
outstanding-Cents id (p ∷ rows) h =
    elim (Bool-cases (str_eq p.supplier_id id && ltb_ℤ (pos 0) (net_due p.document))) [
      | inl open' ↦ rw open' (h.0, outstanding-Cents id rows h.1)
      | inr other ↦ rw other (outstanding-Cents id rows h.1)
    ]

pay_off-Cents :
    (paid : Decimal) (rows : List OpenPurchase)
    → IsCents paid
    → OpenCents rows
    → OpenCents (pay_off paid rows)
unfolding pay_off
pay_off-Cents paid [] h k = tt
pay_off-Cents paid (o ∷ rows) h k =
    let m = min-IsCents paid o.amt h k.0 in
    let rest = pay_off-Cents (paid -ℤ min_ℤ paid o.amt) rows (sub-IsCents paid _ h m) k.1 in
    elim (Bool-cases (leb_ℤ paid (pos 0))) [
      | inl done ↦ rw done k
      | inr more ↦ rw more (sub-IsCents o.amt _ k.0 m, rest)
    ]

paid_by-IsCents :
    (id : String) (rows : List SupplierPayment)
    → All (λ (p : SupplierPayment). IsCents (cash_amount p.document)) rows
    → IsCents (sum_of (cash_paid_by id) rows)
paid_by-IsCents id [] h = refl
paid_by-IsCents id (p ∷ rows) h =
    add-IsCents _ _ (part (str_eq p.supplier_id id) _ h.0) (paid_by-IsCents id rows h.1)
  where
    part : (b : Bool) (d : Decimal) → IsCents d → IsCents (if b then d else pos 0)
    part true d k = k
    part false d k = refl

paid_by-nonneg :
    (id : String) (rows : List SupplierPayment)
    → All (λ (p : SupplierPayment). pos 0 ≤ℤ p.document.amount) rows
    → pos 0 ≤ℤ sum_of (cash_paid_by id) rows
paid_by-nonneg id [] h = omega arith
paid_by-nonneg id (p ∷ rows) h =
    let first = part (str_eq p.supplier_id id) p.document.unit p.document.amount h.0 in
    let rest = paid_by-nonneg id rows h.1 in omega (int_laws, first, rest)
  where
    part :
        (b : Bool) (u : PaymentUnit) (d : Decimal)
        → pos 0 ≤ℤ d
        → pos 0
          ≤ℤ (if b then elim u [ PaymentUnit.cash ↦ d | PaymentUnit.gold k ↦ pos 0 ] else pos 0)
    part true PaymentUnit.cash d k = k
    part true (PaymentUnit.gold _) d k = omega arith
    part false u d k = omega arith

-- What is open of a supplier sums to the balance that the handlers keep.
pub open_purchases_lem :
    (shop : Shop) (id : String)
    → IsSettled shop
    → (open_sum (open_purchases shop id) ≡ owed (cash_key id) shop.balances)
      × NoneNegative (open_purchases shop id)
unfolding open_purchases
open_purchases_lem shop id k =
    let (sum, kept) = outstanding_lem id (by_time shop.purchases) in
    let all = sum ∙ sum_of-by_time (charged (cash_key id)) shop.purchases in
    let balance =
      k.history (cash_key id)
      ∙ ap (λ (x : Decimal). sum_of (charged (cash_key id)) shop.purchases -ℤ x)
          (sum_of-cash_repaid id shop.payments) in
    let nonneg = owed-nonneg (cash_key id) shop.balances k.none_negative in
    let (left, fine) =
      pay_off_lem (sum_of (cash_paid_by id) shop.payments) (outstanding id (by_time shop.purchases))
        kept (paid_by-nonneg id shop.payments k.paid_nonneg) (fits _ _ _ _ all balance nonneg) in
    (
      left ∙ (ap (λ (x : Decimal). x -ℤ sum_of (cash_paid_by id) shop.payments) all ∙ sym balance),
      fine,
    )
  where
    fits : (opened c r o : Decimal) → opened ≡ c → o ≡ c -ℤ r → pos 0 ≤ℤ o → r ≤ℤ opened
    fits opened c r o e f nonneg = rw e (below c r (rw f at nonneg))
      where
        below : (c r : Decimal) → pos 0 ≤ℤ c -ℤ r → r ≤ℤ c
        below c r h = omega int_laws

pub open_purchases-Cents :
    (shop : Shop) (id : String) → InCents shop → OpenCents (open_purchases shop id)
unfolding open_purchases
open_purchases-Cents shop id (bought, paid) =
    pay_off-Cents _ _ (paid_by-IsCents id shop.payments paid)
      (outstanding-Cents id _ (by_time-Cents shop.purchases bought))
