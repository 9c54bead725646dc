-- ===== src/Ap/Reconciled.antt =====
-- The ageing that is rebuilt from the history agrees with the balances that the handlers keep.
use jewelry_backend.Common.{
  ℕ, arith, ◌≡◌, refl, ap, ◌∙◌, true, List, [], ◌∷◌, Bool-cases, inl, inr, All,
}
use jewelry_backend.Common.Int.{ℤ, pos, ◌+ℤ◌, ◌≤ℤ◌, leb_ℤ, int_laws, +ℤ_assoc}
use jewelry_backend.Money.{Decimal, quantize}
use jewelry_backend.Gl.Lines.{q_money, sum_of}
use jewelry_backend.Gl.Cents.{IsCents, add-IsCents, quantize_cents}
use jewelry_backend.Ar.Aging.{
  Totals, no_totals, add_to, sum_of_totals, sum_of_totals-add_to, bucket, Bucket, to_30, to_60,
  to_90, over_90,
}
use jewelry_backend.Inventory.Supplier.{owed}
use jewelry_backend.Suppliers.{Supplier, Shop}
use jewelry_backend.Suppliers.Purchases.{cash_key}
use jewelry_backend.Suppliers.Changed.{IsSettled}
use jewelry_backend.Ap.{
  OpenPurchase, open_purchases, quantized, age_one, age_open, metal_of, supplier_aging,
  age_suppliers, compute_ap_aging, cash_total, SupplierAging, ApAging,
}
use jewelry_backend.Ap.Open.{
  open_sum, NoneNegative, InCents, OpenCents, open_purchases_lem, open_purchases-Cents,
}

-- Buckets in whole cents.
record TotalsCents (t : Totals) : Type 0 where
  thirty : IsCents t.days_30
  sixty : IsCents t.days_60
  ninety : IsCents t.days_90
  over : IsCents t.days_over

add_to-Cents :
    (b : Bucket) (a : Decimal) (t : Totals) → IsCents a → TotalsCents t → TotalsCents (add_to b a t)
add_to-Cents to_30 a t h k = record {
  thirty = add-IsCents _ _ k.thirty h;
  sixty = k.sixty;
  ninety = k.ninety;
  over = k.over;
}
add_to-Cents to_60 a t h k = record {
  thirty = k.thirty;
  sixty = add-IsCents _ _ k.sixty h;
  ninety = k.ninety;
  over = k.over;
}
add_to-Cents to_90 a t h k = record {
  thirty = k.thirty;
  sixty = k.sixty;
  ninety = add-IsCents _ _ k.ninety h;
  over = k.over;
}
add_to-Cents over_90 a t h k = record {
  thirty = k.thirty;
  sixty = k.sixty;
  ninety = k.ninety;
  over = add-IsCents _ _ k.over h;
}

quantized_lem : (t : Totals) → TotalsCents t → quantized t ≡ t
quantized_lem t k = λ i. record {
  days_30 = quantize_cents t.days_30 k.thirty i;
  days_60 = quantize_cents t.days_60 k.sixty i;
  days_90 = quantize_cents t.days_90 k.ninety i;
  days_over = quantize_cents t.days_over k.over i;
}

total-IsCents : (t : Totals) → TotalsCents t → IsCents (sum_of_totals t)
total-IsCents t k =
    add-IsCents _ _ (add-IsCents _ _ (add-IsCents _ _ k.thirty k.sixty) k.ninety) k.over

no_cents : TotalsCents no_totals
no_cents = record { thirty = refl; sixty = refl; ninety = refl; over = refl }

zero_left : (d : Decimal) → sum_of_totals no_totals +ℤ d ≡ d
zero_left d = omega int_laws

abbrev empty_report : ApAging
empty_report = record { cash_buckets = no_totals; metal_owed_by_karat = []; by_supplier = [] }

skip_zero : (s a : Decimal) → pos 0 ≤ℤ a → leb_ℤ a (pos 0) ≡ true → s ≡ s +ℤ a
skip_zero s a h e = rw (zero a h e) (omega int_laws)
  where
    zero : (a : Decimal) → pos 0 ≤ℤ a → leb_ℤ a (pos 0) ≡ true → a ≡ pos 0
    zero a h e = ground arith

-- The cash balance of a supplier, and that a part of the report agrees with it.
abbrev pub balance_of : Shop → Supplier → Decimal
balance_of shop s = owed (cash_key s.id) shop.balances

abbrev pub Agrees : Shop → SupplierAging → Type 0
Agrees shop a = sum_of_totals a.cash_buckets ≡ owed (cash_key a.supplier_id) shop.balances

module _ (days_ago : ℕ → ℤ) where
  age_one_lem :
      (o : OpenPurchase) (t : Totals)
      → pos 0 ≤ℤ o.amt
      → sum_of_totals (age_one days_ago o t) ≡ sum_of_totals t +ℤ o.amt
  unfolding age_one
  age_one_lem o t h = elim (Bool-cases (leb_ℤ o.amt (pos 0))) [
    | inl none ↦ rw none (skip_zero (sum_of_totals t) o.amt h none)
    | inr more ↦ rw more (sum_of_totals-add_to (bucket (days_ago o.occurred_at)) o.amt t)
  ]

  age_one-Cents :
      (o : OpenPurchase) (t : Totals)
      → IsCents o.amt
      → TotalsCents t
      → TotalsCents (age_one days_ago o t)
  unfolding age_one
  age_one-Cents o t h k = elim (Bool-cases (leb_ℤ o.amt (pos 0))) [
    | inl none ↦ rw none k
    | inr more ↦ rw more (add_to-Cents _ o.amt t h k)
  ]

  -- Every open purchase is counted once, however old it is.
  age_open_lem :
      (rows : List OpenPurchase) (t : Totals)
      → NoneNegative rows
      → sum_of_totals (age_open days_ago rows t) ≡ sum_of_totals t +ℤ open_sum rows
  unfolding age_open
  age_open_lem [] t h = omega int_laws
  age_open_lem (o ∷ rows) t h =
      age_open_lem rows (age_one days_ago o t) h.1
      ∙ (ap (λ (x : Decimal). x +ℤ open_sum rows) (age_one_lem o t h.0) ∙ +ℤ_assoc _ _ _)

  age_open-Cents :
      (rows : List OpenPurchase) (t : Totals)
      → OpenCents rows
      → TotalsCents t
      → TotalsCents (age_open days_ago rows t)
  unfolding age_open
  age_open-Cents [] t h k = k
  age_open-Cents (o ∷ rows) t h k =
      age_open-Cents rows (age_one days_ago o t) h.1 (age_one-Cents o t h.0 k)

  module _ (shop : Shop) (settled : IsSettled shop) (cents : InCents shop) where
    open_buckets :
        (s : Supplier) → TotalsCents (age_open days_ago (open_purchases shop s.id) no_totals)
    open_buckets s = age_open-Cents _ no_totals (open_purchases-Cents shop s.id cents) no_cents

    -- The buckets of one supplier.
    supplier_aging_lem : (s : Supplier) → Agrees shop (supplier_aging days_ago shop s)
    unfolding supplier_aging
    supplier_aging_lem s =
        let (sum, kept) = open_purchases_lem shop s.id settled in
        ap sum_of_totals (quantized_lem _ (open_buckets s))
        ∙ (age_open_lem (open_purchases shop s.id) no_totals kept ∙ (zero_left _ ∙ sum))

    -- The buckets of all suppliers so far, and the part of each.
    age_suppliers_lem :
        (suppliers : List Supplier) (report : ApAging)
        → TotalsCents report.cash_buckets
        → All (Agrees shop) report.by_supplier
        → (sum_of_totals (ApAging.cash_buckets (age_suppliers days_ago shop suppliers report))
            ≡ sum_of_totals report.cash_buckets +ℤ sum_of (balance_of shop) suppliers)
          × TotalsCents (ApAging.cash_buckets (age_suppliers days_ago shop suppliers report))
          × All (Agrees shop) (ApAging.by_supplier (age_suppliers days_ago shop suppliers report))
    unfolding age_suppliers
    age_suppliers_lem [] report k parts = (omega int_laws, k, parts)
    age_suppliers_lem (s ∷ suppliers) report k parts =
        let (sum, kept) = open_purchases_lem shop s.id settled in
        let one = age_open_lem (open_purchases shop s.id) report.cash_buckets kept in
        let (total, in_cents, rest) =
          age_suppliers_lem suppliers
            (record {
              cash_buckets = age_open days_ago (open_purchases shop s.id) report.cash_buckets;
              metal_owed_by_karat = metal_of s.id shop.balances report.metal_owed_by_karat;
              by_supplier = report.by_supplier;
            })
            (age_open-Cents _ _ (open_purchases-Cents shop s.id cents) k) parts in
        (
          total
              ∙ (ap (λ (x : Decimal). x +ℤ sum_of (balance_of shop) suppliers)
                    (one ∙ ap (λ (x : Decimal). sum_of_totals report.cash_buckets +ℤ x) sum)
                  ∙ +ℤ_assoc _ _ _),
          in_cents,
          (supplier_aging_lem s, rest),
        )

    -- The ageing agrees with the running balances: of books that the handlers keep, with amounts in
    -- whole cents, the buckets of each supplier sum to the cash balance, and the total of the report
    -- to the balances of all suppliers, however old the purchases are and in whatever order they came.
    pub compute_ap_aging_lem :
        (cash_total days_ago shop ≡ sum_of (balance_of shop) shop.suppliers)
        × All (Agrees shop) (ApAging.by_supplier (compute_ap_aging days_ago shop))
    unfolding cash_total compute_ap_aging
    compute_ap_aging_lem =
        let (total, in_cents, parts) = age_suppliers_lem shop.suppliers empty_report no_cents tt in
        (
          ap (λ (t : Totals). quantize q_money (sum_of_totals t)) (quantized_lem _ in_cents)
              ∙ (quantize_cents _ (total-IsCents _ in_cents) ∙ (total ∙ zero_left _)),
          parts,
        )
