-- ===== src/Postings/Even.antt =====
-- The lines that the mappers of app/core/gl_postings.py build are even: their debits equal their
-- credits in money, and in grams of each karat.
pub mod Refund
pub mod Supplier
pub mod Metal
use jewelry_backend.Common.{
  ℕ, ◌≡◌, refl, sym, ap, ap₂, ◌∙◌, Bool, true, false, Option, none, some, List, [], ◌∷◌, ◌++◌,
  String, str_eq, arith, if◌then◌else◌, ltb, Bool-cases, inl, inr, Result, ok, ◌>>=◌,
  bind_inversion, ok-injective,
}
use mathlib.Core.Path.{subst}
use jewelry_backend.Common.Int.{
  ℤ, pos, ◌+ℤ◌, ◌-ℤ◌, ◌*ℤ◌, ◌≤ℤ◌, int_laws, eq_of_parts, ltb_ℤ, pos_part, neg_part,
}
use jewelry_backend.Money.{Decimal, quantize, quantize_quotient}
use jewelry_backend.Gl.Lines.{GlLine, q_money, sum_of, debit_at, credit_at}
use jewelry_backend.Gl.Cents.{
  IsCents, quantize_cents, quantize-IsCents, quantize_quotient-IsCents, sub-IsCents, add-IsCents,
  sum_of-append,
}
use jewelry_backend.Gl.Store.{Db, Error}
use jewelry_backend.Postings.{
  debit_money, credit_money, debit_metal, credit_metal, lines_if, Settings, ProductCost,
  resolve_account_id, karat_value,
}
use jewelry_backend.Postings.Sale.{
  SoldItem, SoldOrder, SaleAccounts, Cogs, cogs_lines, sale_lines, making_revenue, stone_lines,
  stone_cogs_total, lines_of_sale, sale_accounts, cogs_by_karat,
}

-- Debits and credits agree in the base currency and in each karat.
pub record IsEven (lines : List GlLine) : Type 0 where
  pub base : sum_of GlLine.base_debit lines ≡ sum_of GlLine.base_credit lines
  pub metal : (k : String) → sum_of (debit_at k) lines ≡ sum_of (credit_at k) lines

pub append-IsEven : (xs ys : List GlLine) → IsEven xs → IsEven ys → IsEven (xs ++ ys)
append-IsEven xs ys h k = record {
  base = sum_of-append _ xs ys ∙ (rw (h.base, k.base) (sym (sum_of-append _ xs ys)));
  metal = λ j. sum_of-append _ xs ys ∙ (rw (h.metal j, k.metal j) (sym (sum_of-append _ xs ys)));
}

pub nil-IsEven : IsEven []
nil-IsEven = record { base = refl; metal = λ k. refl }

-- A debit and a credit of the same grams at the same cost.
pub metal_pair-IsEven :
    (a b : String) (cost grams : Decimal) (k m n : String) (rest : List GlLine)
    → IsEven rest
    → IsEven (debit_metal a cost grams k m ∷ credit_metal b cost grams k n ∷ rest)
metal_pair-IsEven a b cost grams k m n rest h = record {
  base = rw h.base (omega int_laws);
  metal = λ j. both (str_eq k j) (h.metal j);
}
  where
    both :
        {d c : Decimal} (test : Bool)
        → d ≡ c
        → (if test then grams else pos 0) +ℤ ((if test then pos 0 else pos 0) +ℤ d)
          ≡ (if test then pos 0 else pos 0) +ℤ ((if test then grams else pos 0) +ℤ c)
    both {d} {c} true e = rw e (omega int_laws)
    both {d} {c} false e = rw e (omega int_laws)

pub money_pair-IsEven :
    (a b : String) (amount : Decimal) (m n : String) (rest : List GlLine)
    → IsEven rest
    → IsEven (debit_money a amount m ∷ credit_money b amount n ∷ rest)
money_pair-IsEven a b amount m n rest h = record {
  base = rw h.base (omega int_laws);
  metal = λ j. rw (h.metal j) (omega int_laws);
}

pub cogs_lines-IsEven : (a b : String) (cogs : List Cogs) → IsEven (cogs_lines a b cogs)
unfolding cogs_lines
cogs_lines-IsEven a b [] = nil-IsEven
cogs_lines-IsEven a b (c ∷ cogs) =
    metal_pair-IsEven a b c.cost c.grams c.karat _ _ _ (cogs_lines-IsEven a b cogs)

-- A line of an amount that is not negative is left out only where the amount is zero.
pub sum_of-lines_if :
    (f : GlLine → Decimal) (ln : GlLine) (amount : Decimal)
    → f ln ≡ amount
    → pos 0 ≤ℤ amount
    → sum_of f (lines_if (ltb_ℤ (pos 0) amount) (ln ∷ [])) ≡ amount
sum_of-lines_if f ln amount same h = elim (Bool-cases (ltb_ℤ (pos 0) amount)) [
  | inl this ↦ rw (this, same) (omega int_laws)
  | inr zero ↦ rw zero (ground arith)
]

pub sum_of-lines_if_zero :
    (f : GlLine → Decimal) (ln : GlLine) (test : Bool)
    → f ln ≡ pos 0
    → sum_of f (lines_if test (ln ∷ [])) ≡ pos 0
sum_of-lines_if_zero f ln true same = rw same (omega int_laws)
sum_of-lines_if_zero f ln false same = refl

-- The amounts of an order as the sale computes them: whole cents, none negative.
pub record IsPriced (o : SoldOrder) : Type 0 where
  pub total : o.total_usd ≡ o.subtotal -ℤ o.discount_amount +ℤ o.vat_amount
  pub subtotal_cents : IsCents o.subtotal
  pub discount_cents : IsCents o.discount_amount
  pub making : pos 0 ≤ℤ making_revenue o
  pub vat : pos 0 ≤ℤ o.vat_amount
  pub discount : pos 0 ≤ℤ o.discount_amount

gross_split :
    (o : SoldOrder)
    → IsPriced o
    → quantize q_money (o.subtotal -ℤ making_revenue o) ≡ o.subtotal -ℤ making_revenue o
gross_split o h = quantize_cents _ (sub-IsCents _ _ h.subtotal_cents (quantize-IsCents _))

-- What two or three optional runs of lines sum to.
pub sum_of-append₂ :
    (f : GlLine → Decimal) (xs ys zs : List GlLine) {u v w : Decimal}
    → sum_of f xs ≡ u
    → sum_of f ys ≡ v
    → sum_of f zs ≡ w
    → sum_of f (xs ++ (ys ++ zs)) ≡ u +ℤ (v +ℤ w)
sum_of-append₂ f xs ys zs h k l =
    sum_of-append f xs (ys ++ zs)
    ∙ ap₂ (λ a b. a +ℤ b) h (sum_of-append f ys zs ∙ ap₂ (λ a b. a +ℤ b) k l)

-- What the optional lines of a sale sum to, of a column that the mapper fills in `u`, `v` and `w`.
optional_lines :
    (f : GlLine → Decimal) (a : SaleAccounts) (o : SoldOrder) {u v w : Decimal}
    → sum_of f (
        lines_if
          (ltb_ℤ (pos 0) (making_revenue o))
          (credit_money a.making (making_revenue o) "making charge" ∷ []))
      ≡ u
    → sum_of f
        (lines_if (ltb_ℤ (pos 0) o.vat_amount) (credit_money a.vat o.vat_amount "output VAT" ∷ []))
      ≡ v
    → sum_of f (
        lines_if
          (ltb_ℤ (pos 0) (quantize q_money o.discount_amount))
          (debit_money a.discount (quantize q_money o.discount_amount) "discount allowed" ∷ []))
      ≡ w
    → sum_of f (sale_lines a o)
      ≡ f (debit_money a.cash o.total_usd "sale cash")
        +ℤ (f (
              credit_money a.revenue
                (quantize q_money (o.subtotal -ℤ making_revenue o))
                "sale revenue")
            +ℤ (u +ℤ (v +ℤ w)))
unfolding sale_lines
optional_lines f a o h k l =
    ap
      (λ (x : Decimal).
        f (debit_money a.cash o.total_usd "sale cash")
        +ℤ (f (
              credit_money a.revenue (quantize q_money (o.subtotal -ℤ making_revenue o))
                "sale revenue")
            +ℤ x))
      (sum_of-append₂ f _ _ _ h k l)

pub sale_lines-IsEven : (a : SaleAccounts) (o : SoldOrder) → IsPriced o → IsEven (sale_lines a o)
sale_lines-IsEven a o h =
    let same : quantize q_money o.discount_amount ≡ o.discount_amount =
      quantize_cents _ h.discount_cents in
    let discount_kept = subst (λ (d : Decimal). pos 0 ≤ℤ d) (sym same) h.discount in
    record {
      base =
          rw
            (
              optional_lines GlLine.base_debit a o {u = pos 0} {v = pos 0}
                  {w = quantize q_money o.discount_amount} (sum_of-lines_if_zero _ _ _ refl)
                  (sum_of-lines_if_zero _ _ _ refl)
                  (sum_of-lines_if GlLine.base_debit
                    (debit_money a.discount (quantize q_money o.discount_amount) "discount allowed")
                    (quantize q_money o.discount_amount) refl discount_kept),
              optional_lines GlLine.base_credit a o {u = making_revenue o} {v = o.vat_amount}
                  {w = pos 0}
                  (sum_of-lines_if GlLine.base_credit
                    (credit_money a.making (making_revenue o) "making charge") (making_revenue o)
                    refl h.making)
                  (sum_of-lines_if GlLine.base_credit (credit_money a.vat o.vat_amount "output VAT")
                    o.vat_amount refl h.vat)
                  (sum_of-lines_if_zero _ _ _ refl),
              same,
              h.total,
              gross_split o h,
            )
            (eq_of_parts _ _ (omega int_laws));
      metal = λ k.
          optional_lines (debit_at k) a o (sum_of-lines_if_zero _ _ _ refl)
            (sum_of-lines_if_zero _ _ _ refl) (sum_of-lines_if_zero _ _ _ refl)
          ∙ sym (
              optional_lines (credit_at k) a o (sum_of-lines_if_zero _ _ _ refl)
                (sum_of-lines_if_zero _ _ _ refl) (sum_of-lines_if_zero _ _ _ refl));
    }

stone_lines-IsEven :
    (db : Db) (o : SoldOrder) {lines : List GlLine} → stone_lines db o ≡ ok lines → IsEven lines
unfolding stone_lines
stone_lines-IsEven db o {lines} h = split (ltb_ℤ (pos 0) (stone_cogs_total o)) h
  where
    pair : Result Error (List GlLine)
    pair = do
      stone_cogs_id ← resolve_account_id db "STONE_COGS"
      stone_inv_id ← resolve_account_id db "STONE_INVENTORY"
      ok (
          debit_money stone_cogs_id (stone_cogs_total o) "stone COGS"
          ∷ credit_money stone_inv_id (stone_cogs_total o) "stone out"
          ∷ [])

    split : (test : Bool) → (if test then pair else ok []) ≡ ok lines → IsEven lines
    split false e = subst IsEven (ok-injective e) nil-IsEven
    split true e =
        let (a, found, e1) = bind_inversion (resolve_account_id db "STONE_COGS") _ e in
        let (b, found', e2) = bind_inversion (resolve_account_id db "STONE_INVENTORY") _ e1 in
        subst IsEven (ok-injective e2)
          (money_pair-IsEven a b (stone_cogs_total o) _ _ [] nil-IsEven)

-- The entry of a sale is even: the total with the discount that was allowed on the one side, gross
-- revenue, making charges and VAT on the other, and each karat's metal out of inventory at its cost.
pub lines_of_sale-IsEven :
    (products : List ProductCost) (o : SoldOrder) (db : Db) {lines : List GlLine}
    → IsPriced o
    → lines_of_sale products o db ≡ ok lines
    → IsEven lines
unfolding lines_of_sale
lines_of_sale-IsEven products o db {lines} priced h =
    let (a, accounts, h1) = bind_inversion (sale_accounts db o.payment_method) _ h in
    let (stones, found, h2) = bind_inversion (stone_lines db o) _ h1 in
    subst IsEven (ok-injective h2) (
      append-IsEven (sale_lines a o) _ (sale_lines-IsEven a o priced) (
        append-IsEven (cogs_lines a.cogs a.inventory (cogs_by_karat products o.items [])) stones
          (cogs_lines-IsEven a.cogs a.inventory _) (stone_lines-IsEven db o found)))
