-- ===== src/Postings/Even/Supplier.antt =====
-- The lines of supplier purchases and payments are even.
use jewelry_backend.Common.{
  ◌≡◌, refl, sym, ap₂, ◌∙◌, Bool, true, false, List, [], ◌∷◌, String, arith, if◌then◌else◌,
  Bool-cases, inl, inr, ok, bind_inversion, ok-injective,
}
use mathlib.Core.Path.{subst}
use jewelry_backend.Common.Int.{pos, ◌+ℤ◌, ◌-ℤ◌, ◌≤ℤ◌, int_laws, eq_of_parts, ltb_ℤ, leb_ℤ}
use jewelry_backend.Money.{Decimal, quantize}
use jewelry_backend.Gl.Lines.{GlLine, q_money, sum_of, debit_at, credit_at}
use jewelry_backend.Gl.Cents.{IsCents, quantize_cents, quantize-IsCents, sub-IsCents, sum_of-append}
use jewelry_backend.Gl.Store.{Db}
use jewelry_backend.Postings.{
  debit_money, credit_money, debit_metal, credit_metal, lines_if, resolve_account_id, karat_value,
}
use jewelry_backend.Postings.Supplier.{
  PurchaseAccounts, purchase_accounts, Purchase, Grams, stone_slice, product_slice, cash_owed,
  cash_lines, stone_in_lines, cash_side, gold_lines, lines_of_purchase, PaymentUnit, Payment,
  lines_of_payment, net_grams, net_cost,
}
use jewelry_backend.Postings.Supplier
use jewelry_backend.Postings.Even.{
  IsEven, append-IsEven, nil-IsEven, metal_pair-IsEven, money_pair-IsEven, sum_of-lines_if,
  sum_of-lines_if_zero,
}

-- The cash of a purchase in cents: what was paid at creation is at most what is due, and the
-- stone portion of the cost is not negative.
pub record IsPayable (p : Purchase) : Type 0 where
  pub due_cents : IsCents p.total_cash_due
  pub paid_cents : IsCents p.cash_paid_at_creation
  pub paid : pos 0 ≤ℤ p.cash_paid_at_creation
  pub paid_at_most : p.cash_paid_at_creation ≤ℤ p.total_cash_due
  pub stone : pos 0 ≤ℤ stone_slice p

stone_slice-cases :
    (p : Purchase)
    → pos 0 ≤ℤ p.total_cash_due
    → (stone_slice p ≤ℤ p.total_cash_due) × IsCents (stone_slice p)
stone_slice-cases p h =
    split (quantize q_money (sum_of Supplier.stone_cost p.items)) (quantize-IsCents _)
  where
    split :
        (slice : Decimal)
        → IsCents slice
        → ((if ltb_ℤ p.total_cash_due slice then pos 0 else slice) ≤ℤ p.total_cash_due)
          × IsCents (if ltb_ℤ p.total_cash_due slice then pos 0 else slice)
    split slice cents = elim (Bool-cases (ltb_ℤ p.total_cash_due slice)) [
      | inl this ↦ rw this (h, refl)
      | inr other ↦ rw other (ground arith, cents)
    ]

module _ (a : PurchaseAccounts) (p : Purchase) (h : IsPayable p) where
  due_paid : pos 0 ≤ℤ p.total_cash_due
  due_paid = omega (arith, h.paid, h.paid_at_most)

  product_slice_lem : product_slice p ≡ p.total_cash_due -ℤ stone_slice p
  product_slice_lem =
      quantize_cents _ (sub-IsCents _ _ h.due_cents (stone_slice-cases p due_paid).1)

  product_slice_nonneg : pos 0 ≤ℤ product_slice p
  product_slice_nonneg = rw product_slice_lem (omega (int_laws, (stone_slice-cases p due_paid).0))

  cash_owed_lem : cash_owed p ≡ p.total_cash_due -ℤ p.cash_paid_at_creation
  cash_owed_lem = quantize_cents _ (sub-IsCents _ _ h.due_cents h.paid_cents)

  cash_owed_nonneg : pos 0 ≤ℤ cash_owed p
  cash_owed_nonneg = rw cash_owed_lem (omega (int_laws, h.paid_at_most))

  abbrev product_line : GlLine
  product_line = debit_money a.product_inventory (product_slice p) "product purchase"

  abbrev owed_line : GlLine
  owed_line = credit_money a.ap (cash_owed p) "AP (net owed)"

  abbrev paid_line : GlLine
  paid_line = credit_money a.cash (quantize q_money p.cash_paid_at_creation) "paid at creation"

  cash_lines-sum :
      (f : GlLine → Decimal) (stone : List GlLine) {u v w x : Decimal}
      → sum_of f (lines_if (ltb_ℤ (pos 0) (product_slice p)) (product_line ∷ [])) ≡ u
      → sum_of f stone ≡ v
      → sum_of f (lines_if (ltb_ℤ (pos 0) (cash_owed p)) (owed_line ∷ [])) ≡ w
      → sum_of f (lines_if (ltb_ℤ (pos 0) p.cash_paid_at_creation) (paid_line ∷ [])) ≡ x
      → sum_of f (cash_lines a p stone) ≡ u +ℤ (v +ℤ (w +ℤ x))
  unfolding cash_lines
  cash_lines-sum f stone i j k l =
      sum_of-append f (lines_if (ltb_ℤ (pos 0) (product_slice p)) (product_line ∷ [])) _
      ∙ ap₂ (λ y z. y +ℤ z) i
          (sum_of-append f stone _
            ∙ ap₂ (λ y z. y +ℤ z) j
                (sum_of-append f (lines_if (ltb_ℤ (pos 0) (cash_owed p)) (owed_line ∷ [])) _
                  ∙ ap₂ (λ y z. y +ℤ z) k l))

  -- The stone lines are a debit of the stone slice.
  record IsStoneIn (stone : List GlLine) : Type 0 where
    debit : sum_of GlLine.base_debit stone ≡ stone_slice p
    credit : sum_of GlLine.base_credit stone ≡ pos 0
    metal_in : (k : String) → sum_of (debit_at k) stone ≡ pos 0
    metal_out : (k : String) → sum_of (credit_at k) stone ≡ pos 0

  cash_lines-IsEven : (stone : List GlLine) → IsStoneIn stone → IsEven (cash_lines a p stone)
  cash_lines-IsEven stone i =
      let paid : quantize q_money p.cash_paid_at_creation ≡ p.cash_paid_at_creation =
        quantize_cents _ h.paid_cents in
      record {
        base =
            rw
              (
                cash_lines-sum GlLine.base_debit stone {u = product_slice p} {w = pos 0} {x = pos 0}
                    (sum_of-lines_if GlLine.base_debit product_line (product_slice p) refl
                      product_slice_nonneg)
                    i.debit (sum_of-lines_if_zero _ _ _ refl) (sum_of-lines_if_zero _ _ _ refl),
                cash_lines-sum GlLine.base_credit stone {u = pos 0} {w = cash_owed p}
                    {x = p.cash_paid_at_creation} (sum_of-lines_if_zero _ _ _ refl) i.credit
                    (sum_of-lines_if GlLine.base_credit owed_line (cash_owed p) refl
                      cash_owed_nonneg)
                    (sum_of-lines_if GlLine.base_credit paid_line p.cash_paid_at_creation paid
                      h.paid),
                product_slice_lem,
                cash_owed_lem,
              )
              (eq_of_parts _ _ (omega int_laws));
        metal = λ k.
            cash_lines-sum (debit_at k) stone (sum_of-lines_if_zero _ _ _ refl) (i.metal_in k)
              (sum_of-lines_if_zero _ _ _ refl) (sum_of-lines_if_zero _ _ _ refl)
            ∙ sym (
                cash_lines-sum (credit_at k) stone (sum_of-lines_if_zero _ _ _ refl) (i.metal_out k)
                  (sum_of-lines_if_zero _ _ _ refl) (sum_of-lines_if_zero _ _ _ refl));
      }

  stone_in_lines-IsStoneIn :
      (db : Db) {stone : List GlLine}
      → stone_in_lines db (stone_slice p) ≡ ok stone
      → IsStoneIn stone
  unfolding stone_in_lines ◌+ℤ◌
  stone_in_lines-IsStoneIn db {stone} e = elim (Bool-cases (ltb_ℤ (pos 0) (stone_slice p))) [
    | inl this ↦
        let (id, found, e1) =
          bind_inversion (resolve_account_id db "STONE_INVENTORY") _ (rw this at e) in
        subst IsStoneIn (ok-injective e1) (record {
          debit = debit_of (stone_slice p);
          credit = refl;
          metal_in = λ k. refl;
          metal_out = λ k. refl;
        })
    | inr nothing ↦ subst IsStoneIn (ok-injective (rw nothing at e)) (record {
      debit = zero_slice (stone_slice p) h.stone nothing;
      credit = refl;
      metal_in = λ k. refl;
      metal_out = λ k. refl;
    })
  ]
    where
      debit_of : (x : Decimal) → x +ℤ pos 0 ≡ x
      debit_of x = ground arith

      zero_slice : (x : Decimal) → pos 0 ≤ℤ x → ltb_ℤ (pos 0) x ≡ false → pos 0 ≡ x
      zero_slice x nonneg nothing = ground arith

  cash_side-IsEven : (db : Db) {lines : List GlLine} → cash_side db a p ≡ ok lines → IsEven lines
  unfolding cash_side
  cash_side-IsEven db {lines} e = elim (Bool-cases (ltb_ℤ (pos 0) p.total_cash_due)) [
    | inl this ↦
        let (stone, found, e1) =
          bind_inversion (stone_in_lines db (stone_slice p)) _ (rw this at e) in
        subst IsEven (ok-injective e1) (cash_lines-IsEven stone (stone_in_lines-IsStoneIn db found))
    | inr nothing ↦ subst IsEven (ok-injective (rw nothing at e)) nil-IsEven
  ]

gold_lines-IsEven :
    (a : PurchaseAccounts) (p : Purchase) (gs : List Grams) → IsEven (gold_lines a p gs)
unfolding gold_lines
gold_lines-IsEven a p [] = nil-IsEven
gold_lines-IsEven a p (g ∷ gs) =
    split (gold_lines-IsEven a p gs) (leb_ℤ (net_grams p g) (pos 0)) (net_cost p g) (net_grams p g)
  where
    split :
        IsEven (gold_lines a p gs)
        → (test : Bool) (cost grams : Decimal)
        → IsEven (
            if test
            then gold_lines a p gs
            else debit_metal a.inventory cost grams g.karat "gold purchase (net)"
              ∷ credit_metal a.metal_ap cost grams g.karat "metal AP (net owed)"
              ∷ gold_lines a p gs)
    split rest true cost grams = rest
    split rest false cost grams =
        metal_pair-IsEven a.inventory a.metal_ap cost grams g.karat _ _ _ rest

-- The entry of a supplier purchase is even: what is debited to the product and stone inventories
-- is the payable with what was paid at creation, and each karat's net grams are owed in metal.
pub lines_of_purchase-IsEven :
    (p : Purchase) (db : Db) {lines : List GlLine}
    → IsPayable p
    → lines_of_purchase p db ≡ ok lines
    → IsEven lines
unfolding lines_of_purchase
lines_of_purchase-IsEven p db {lines} h e =
    let (a, accounts, e1) = bind_inversion (purchase_accounts db) _ e in
    let (cash, found, e2) = bind_inversion (cash_side db a p) _ e1 in
    subst IsEven (ok-injective e2)
      (append-IsEven cash _ (cash_side-IsEven a p h db found) (gold_lines-IsEven a p _))

-- A payment to a supplier, of cash or of grams, is even.
pub lines_of_payment-IsEven :
    (p : Payment) (db : Db) {lines : List GlLine} → lines_of_payment p db ≡ ok lines → IsEven lines
unfolding lines_of_payment
lines_of_payment-IsEven p db {lines} h = split p.unit h
  where
    amt : Decimal
    amt = quantize q_money p.amount

    split :
        (unit : PaymentUnit)
        → lines_of_payment (record p { unit = unit }) db ≡ ok lines
        → IsEven lines
    split PaymentUnit.cash e =
        let (a, found, e1) = bind_inversion (resolve_account_id db "AP") _ e in
        let (b, found', e2) = bind_inversion (resolve_account_id db "CASH") _ e1 in
        subst IsEven (ok-injective e2) (money_pair-IsEven a b _ _ _ [] nil-IsEven)
    split (PaymentUnit.gold k) e =
        let (a, found, e1) = bind_inversion (resolve_account_id db "METAL_AP") _ e in
        let (b, found', e2) = bind_inversion (resolve_account_id db "METAL_INVENTORY") _ e1 in
        subst IsEven (ok-injective e2)
          (metal_pair-IsEven a b (pos 0) p.amount (karat_value k) _ _ [] nil-IsEven)
