-- ===== src/Postings/Even/Refund.antt =====
-- The lines of the refund of an item are even.
use jewelry_backend.Common.{
  ◌≡◌, refl, sym, ◌∙◌, Bool, true, false, List, [], ◌∷◌, str_eq, if◌then◌else◌, Result, ok, ◌>>=◌,
  bind_inversion, ok-injective,
}
use mathlib.Core.Path.{subst}
use jewelry_backend.Common.Int.{pos, ◌+ℤ◌, ◌-ℤ◌, ◌*ℤ◌, ◌≤ℤ◌, int_laws, eq_of_parts, ltb_ℤ}
use jewelry_backend.Money.{Decimal, quantize, quantize_quotient}
use jewelry_backend.Gl.Lines.{GlLine, q_money, sum_of, debit_at, credit_at}
use jewelry_backend.Gl.Cents.{
  IsCents, quantize_cents, quantize-IsCents, quantize_quotient-IsCents, sub-IsCents, add-IsCents,
  sum_of-append,
}
use jewelry_backend.Gl.Store.{Db, Error}
use jewelry_backend.Postings.{
  debit_money, credit_money, debit_metal, credit_metal, lines_if, Settings, ProductCost,
  resolve_account_id, karat_value,
}
use jewelry_backend.Postings.Sale.{SoldOrder, cogs_cost_for_item}
use jewelry_backend.Postings.Refund.{
  Slice, units_of, vat_share, making_share, discount_slice, sales_share, cash_back,
  refund_item_view, RefundAccounts, refund_accounts, refund_lines, stone_cost_of, stone_back_lines,
  lines_of_refund,
}
use jewelry_backend.Postings.Even.{
  IsEven, append-IsEven, nil-IsEven, money_pair-IsEven, sum_of-lines_if, sum_of-lines_if_zero,
}

-- The refunded value is in cents, and neither the making charge nor the discount in it is negative.
pub record IsRefundable (o : SoldOrder) (s : Slice) : Type 0 where
  pub value_cents : IsCents s.refund_value
  pub making : pos 0 ≤ℤ making_share s
  pub discount : pos 0 ≤ℤ discount_slice o s

discount_slice-IsCents : (o : SoldOrder) (s : Slice) → IsCents (discount_slice o s)
discount_slice-IsCents o s = split (ltb_ℤ (pos 0) o.subtotal)
  where
    split :
        (test : Bool)
        → IsCents (
            if test
            then quantize_quotient q_money (o.discount_amount *ℤ s.refund_value) o.subtotal
            else pos 0)
    split true = quantize_quotient-IsCents _ _
    split false = refl

sales_share_lem :
    (s : Slice) → IsCents s.refund_value → sales_share s ≡ s.refund_value -ℤ making_share s
sales_share_lem s h = quantize_cents _ (sub-IsCents _ _ h (quantize-IsCents _))

cash_back_lem :
    (settings : Settings) (o : SoldOrder) (s : Slice)
    → IsCents s.refund_value
    → cash_back settings o s ≡ s.refund_value -ℤ discount_slice o s +ℤ vat_share settings s
cash_back_lem settings o s h = quantize_cents _ (
    add-IsCents _ _ (sub-IsCents _ _ h (discount_slice-IsCents o s))
      (quantize_quotient-IsCents _ _))

-- What the lines sum to, of a column that the mapper fills in `u` and `v` of the optional lines.
module _ (settings : Settings) (products : List ProductCost) (a : RefundAccounts) (o : SoldOrder)
    (s : Slice) where
  abbrev making_line : GlLine
  making_line = debit_money a.making (making_share s) "refund making"

  abbrev discount_line : GlLine
  discount_line = credit_money a.discount (discount_slice o s) "reverse discount"

  abbrev grams : Decimal
  grams = s.item.weight_grams *ℤ units_of s.refund_qty

  abbrev cost : Decimal
  cost = cogs_cost_for_item products (refund_item_view s)

  optional_lines :
      (f : GlLine → Decimal) {u v : Decimal}
      → sum_of f (lines_if (ltb_ℤ (pos 0) (making_share s)) (making_line ∷ [])) ≡ u
      → sum_of f (lines_if (ltb_ℤ (pos 0) (discount_slice o s)) (discount_line ∷ [])) ≡ v
      → sum_of f (refund_lines settings products a o s)
        ≡ f (debit_money a.revenue (sales_share s) "refund revenue")
          +ℤ (f (debit_money a.vat (vat_share settings s) "refund VAT")
              +ℤ (u
                  +ℤ (f (credit_money a.cash (cash_back settings o s) "refund cash out")
                      +ℤ (f (
                            debit_metal a.inventory cost grams
                              (karat_value s.item.karat)
                              "metal back")
                          +ℤ (f (
                                credit_metal a.cogs cost grams
                                  (karat_value s.item.karat)
                                  "reverse COGS")
                              +ℤ v)))))
  unfolding refund_lines
  optional_lines f h k =
      rw (sum_of-append f (lines_if (ltb_ℤ (pos 0) (making_share s)) (making_line ∷ [])) _, h, k)
        refl

  refund_lines-IsEven : IsRefundable o s → IsEven (refund_lines settings products a o s)
  refund_lines-IsEven h = record {
    base =
        rw
          (
            optional_lines GlLine.base_debit {u = making_share s} {v = pos 0}
                (sum_of-lines_if GlLine.base_debit making_line (making_share s) refl h.making)
                (sum_of-lines_if_zero _ _ _ refl),
            optional_lines GlLine.base_credit {u = pos 0} {v = discount_slice o s}
                (sum_of-lines_if_zero _ _ _ refl)
                (sum_of-lines_if GlLine.base_credit discount_line (discount_slice o s) refl
                  h.discount),
            sales_share_lem s h.value_cents,
            cash_back_lem settings o s h.value_cents,
          )
          (eq_of_parts _ _ (omega int_laws));
    metal = λ k.
        optional_lines (debit_at k) (sum_of-lines_if_zero _ _ _ refl)
          (sum_of-lines_if_zero _ _ _ refl)
        ∙ both (str_eq (karat_value s.item.karat) k)
        ∙ sym (
            optional_lines (credit_at k) (sum_of-lines_if_zero _ _ _ refl)
              (sum_of-lines_if_zero _ _ _ refl));
  }
    where
      both :
          (test : Bool)
          → pos 0
              +ℤ (pos 0
                  +ℤ (pos 0
                      +ℤ (pos 0
                          +ℤ ((if test then grams else pos 0)
                              +ℤ ((if test then pos 0 else pos 0) +ℤ pos 0)))))
            ≡ pos 0
              +ℤ (pos 0
                  +ℤ (pos 0
                      +ℤ (pos 0
                          +ℤ ((if test then pos 0 else pos 0)
                              +ℤ ((if test then grams else pos 0) +ℤ pos 0)))))
      both true = omega int_laws
      both false = refl

stone_back_lines-IsEven :
    (db : Db) (s : Slice) {lines : List GlLine} → stone_back_lines db s ≡ ok lines → IsEven lines
unfolding stone_back_lines
stone_back_lines-IsEven db s {lines} h = split (ltb_ℤ (pos 0) (stone_cost_of s)) h
  where
    pair : Result Error (List GlLine)
    pair = do
      stone_cogs_id ← resolve_account_id db "STONE_COGS"
      stone_inv_id ← resolve_account_id db "STONE_INVENTORY"
      ok (
          debit_money stone_inv_id (quantize q_money (stone_cost_of s)) "stone back"
          ∷ credit_money stone_cogs_id (quantize q_money (stone_cost_of s)) "reverse stone COGS"
          ∷ [])

    split : (test : Bool) → (if test then pair else ok []) ≡ ok lines → IsEven lines
    split false e = subst IsEven (ok-injective e) nil-IsEven
    split true e =
        let (a, found, e1) = bind_inversion (resolve_account_id db "STONE_COGS") _ e in
        let (b, found', e2) = bind_inversion (resolve_account_id db "STONE_INVENTORY") _ e1 in
        subst IsEven (ok-injective e2) (money_pair-IsEven b a _ _ _ [] nil-IsEven)

-- The entry of a partial refund is even, whatever the VAT rate and the share of the discount round
-- to: the value refunded is in cents, and neither the making charge nor the discount in it is
-- negative.
pub lines_of_refund-IsEven :
    (settings : Settings) (products : List ProductCost) (o : SoldOrder) (s : Slice) (db : Db)
    {lines : List GlLine}
    → IsRefundable o s
    → lines_of_refund settings products o s db ≡ ok lines
    → IsEven lines
unfolding lines_of_refund
lines_of_refund-IsEven settings products o s db {lines} r h =
    let (a, accounts, h1) = bind_inversion (refund_accounts db) _ h in
    let (stones, found, h2) = bind_inversion (stone_back_lines db s) _ h1 in
    subst IsEven (ok-injective h2) (
      append-IsEven (refund_lines settings products a o s) stones
        (refund_lines-IsEven settings products a o s r) (stone_back_lines-IsEven db s found))
