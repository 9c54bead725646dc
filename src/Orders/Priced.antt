-- ===== src/Orders/Priced.antt =====
-- What a checkout leaves: an order whose amounts and lines are in order, and a stock that no sale
-- overdraws.
use native.Mathlib.Nat.{mul-mod_left}
use jewelry_backend.Common.{
  ℕ, zero, suc, ◌*◌, ◌/◌, ◌%◌, ◌≡◌, refl, sym, ap, ◌∙◌, Bool, true, false, not, ◌&&◌, ◌^◌, Option,
  none, some, List, [], ◌∷◌, String, str_eq, arith, Bool-cases, inl, inr, ok, raise_if,
  raise_if-eq-ok, bind_inversion, ok-injective, find, All, All-append,
}
use mathlib.Core.Path.{subst}
use jewelry_backend.Common.Int.{
  ℤ, pos, negsuc, ◌+ℤ◌, ◌-ℤ◌, ◌*ℤ◌, ◌≤ℤ◌, sub_ℕ, ltb_ℤ, int_laws, eq_of_parts,
}
use jewelry_backend.Money.{Decimal, half_up, negate, magnitude}
use jewelry_backend.Audit.Ledger.{Value}
use jewelry_backend.Gl.Lines.{q_money}
use jewelry_backend.Gl.Cents.{IsCents, add-IsCents, quantize_quotient-IsCents}
use jewelry_backend.Gl.Reverse.Mirror.{some_eq}
use jewelry_backend.Pricing.{cent_29}
use jewelry_backend.Postings.{or_zero}
use jewelry_backend.Postings.Sale.{ItemKind, product, coin, ounce, is_product, SoldItem}
use jewelry_backend.Orders.{Order, completed}
use jewelry_backend.Orders.Restock.{StockRow, is_row, is_retired, same_kind}
use jewelry_backend.Orders.Kept.{InLine, Unrefunded, IsKept}
use jewelry_backend.Orders.SaleLine.{
  invalid_item, negative_discount, discount_too_large, Catalog, CheckoutLine, CheckoutError,
  ProductPrice, UnitPrice, require, require_id, coin_ounce_qty_cap, to_cents, product_final_price,
  unit_final_price, sell_row, sell_rows, SoldLine, sell_line, checkout_product_line,
  checkout_unit_line, checkout_line,
}
use jewelry_backend.Orders.Checkout.{
  Cart, add_to_cart, checkout_lines, CheckoutRequest, require_items, empty_cart, create_order,
}

magnitude-negate : (n : ℕ) → magnitude (negate n) ≡ n
magnitude-negate zero = refl
magnitude-negate (suc n) = refl

to_cents-IsCents : (quantum : ℕ) (a : Decimal) → IsCents (to_cents quantum a)
to_cents-IsCents quantum (pos n) = mul-mod_left (half_up quantum n / quantum) q_money
to_cents-IsCents quantum (negsuc n) =
    ap (λ (m : ℕ). m % q_money) (magnitude-negate (half_up quantum (suc n) / quantum * q_money))
    ∙ mul-mod_left (half_up quantum (suc n) / quantum) q_money

sub_first : (x y n : ℕ) → x ≡ n → y ≡ 0 → magnitude (sub_ℕ x y) ≡ n
sub_first x y n h k = ground arith

sub_second : (x y n : ℕ) → x ≡ 0 → y ≡ n → magnitude (sub_ℕ x y) ≡ n
sub_second x y n h k = ground arith

magnitude-mul : (a b : ℤ) → magnitude (a *ℤ b) ≡ magnitude a * magnitude b
unfolding ◌*ℤ◌
magnitude-mul (pos a) (pos b) = sub_first _ _ (a * b) (omega arith) (omega arith)
magnitude-mul (pos a) (negsuc b) = sub_second _ _ (a * suc b) (omega arith) (omega arith)
magnitude-mul (negsuc a) (pos b) = sub_second _ _ (suc a * b) (omega arith) (omega arith)
magnitude-mul (negsuc a) (negsuc b) = sub_first _ _ (suc a * suc b) (omega arith) (omega arith)

regroup : (k q m : ℕ) → k * q * m ≡ k * m * q
regroup k q m = grind arith

multiple : (n m : ℕ) → n % q_money ≡ 0 → n * m % q_money ≡ 0
multiple n m h =
    let whole : n ≡ n / q_money * q_money = omega arith in
    ap (λ (x : ℕ). x * m % q_money) whole
    ∙ ap (λ (x : ℕ). x % q_money) (regroup (n / q_money) q_money m)
    ∙ mul-mod_left (n / q_money * m) q_money

mul-IsCents : (a b : ℤ) → IsCents a → IsCents (a *ℤ b)
mul-IsCents a b h =
    ap (λ (x : ℕ). x % q_money) (magnitude-mul a b) ∙ multiple (magnitude a) (magnitude b) h

-- The quantity on hand is not negative.
abbrev pub InStock : StockRow → Type 0
InStock row = pos 0 ≤ℤ row.on_hand_qty

-- What a line leaves is in order.
record IsSold (s : SoldLine) : Type 0 where
  total : IsCents s.total
  line : InLine s.item
  whole : Unrefunded s.item
  stock : All InStock s.stock

not_below : (a b : ℤ) → ltb_ℤ a b ≡ false → b ≤ℤ a
not_below a b h = ground arith

sell_rows-All :
    (kind : ItemKind) (id : String) (qty : ℤ) (rows : List StockRow) {row : StockRow}
    → find (is_row kind id) rows ≡ some row
    → qty ≤ℤ row.on_hand_qty
    → All InStock rows
    → All InStock (sell_rows kind id qty rows)
sell_rows-All kind id qty [] h enough k = tt
sell_rows-All kind id qty (r ∷ rows) {row} h enough k =
    split (is_row kind id r) (λ later. sell_rows-All kind id qty rows later enough k.1) h
  where
    split :
        (b : Bool)
        → (find (is_row kind id) rows ≡ some row → All InStock (sell_rows kind id qty rows))
        → elim b [ true ↦ some r | false ↦ find (is_row kind id) rows ] ≡ some row
        → All InStock
            (elim b [ true ↦ sell_row qty r ∷ rows | false ↦ r ∷ sell_rows kind id qty rows ])
    split true rest same =
        let left : qty ≤ℤ r.on_hand_qty =
          subst (λ (x : StockRow). qty ≤ℤ x.on_hand_qty) (sym (some_eq same)) enough in
        (omega (int_laws, left), k.1)
    split false rest same = (k.0, rest same)

sell_line-IsSold :
    (line : CheckoutLine) (id : String) (row : StockRow) (item : SoldItem) (price : Decimal)
    (payload : List (String × Value)) (stock : List StockRow) {s : SoldLine}
    → find (is_row line.item_kind id) stock ≡ some row
    → pos 1 ≤ℤ line.quantity
    → item.quantity ≡ line.quantity
    → IsCents price
    → All InStock stock
    → sell_line line id row item price payload stock ≡ ok s
    → IsSold s
unfolding sell_line
sell_line-IsSold line id row item price payload stock found least same cents k h =
    let (_, enough, h1) = bind_inversion (raise_if (ltb_ℤ row.on_hand_qty line.quantity) _) _ h in
    subst IsSold (ok-injective h1) (record {
      total = mul-IsCents price line.quantity cents;
      line = (omega arith, subst (λ (q : ℤ). pos 0 ≤ℤ q) (sym same) (omega (arith, least)));
      whole = refl;
      stock =
          sell_rows-All line.item_kind id line.quantity stock found
            (not_below _ line.quantity (raise_if-eq-ok _ _ enough)) k;
    })

require-ok :
    {A : Type 0} (e : CheckoutError) (o : Option A) {a : A} → require e o ≡ ok a → o ≡ some a
require-ok e none h = cc
require-ok e (some x) h = ap some (ok-injective h)

product_line-IsSold :
    (c : Catalog) (line : CheckoutLine) (stock : List StockRow) {s : SoldLine}
    → line.item_kind ≡ product
    → All InStock stock
    → checkout_product_line c line stock ≡ ok s
    → IsSold s
unfolding checkout_product_line product_final_price
product_line-IsSold c line stock kind k h =
    let (id, _, h1) = bind_inversion (require_id line.type_id) _ h in
    let (_, least, h2) = bind_inversion (raise_if (ltb_ℤ line.quantity (pos 1)) _) _ h1 in
    let (p, _, h3) =
      bind_inversion (require invalid_item (find (λ (x : ProductPrice). str_eq x.id id) c.products))
        _ h2 in
    let (row, there, h4) =
      bind_inversion (require invalid_item (find (is_row product id) stock)) _ h3 in
    let (_, _, h5) = bind_inversion (raise_if (not p.is_active) invalid_item) _ h4 in
    let (_, _, h6) = bind_inversion (raise_if (is_retired row.status) _) _ h5 in
    sell_line-IsSold line id row _ _ _ stock
      (ap (λ (x : ItemKind). find (is_row x id) stock) kind ∙ require-ok _ _ there)
      (not_below line.quantity (pos 1) (raise_if-eq-ok _ _ least)) refl (to_cents-IsCents cent_29 _)
      k h6

unit_line-IsSold :
    (c : Catalog) (line : CheckoutLine) (stock : List StockRow) {s : SoldLine}
    → All InStock stock
    → checkout_unit_line c line stock ≡ ok s
    → IsSold s
unfolding checkout_unit_line unit_final_price
unit_line-IsSold c line stock k h =
    let (id, _, h1) = bind_inversion (require_id line.type_id) _ h in
    let (_, least, h2) = bind_inversion (raise_if (ltb_ℤ line.quantity (pos 1)) _) _ h1 in
    let (_, _, h3) = bind_inversion (raise_if (ltb_ℤ coin_ounce_qty_cap line.quantity) _) _ h2 in
    let (row, there, h4) =
      bind_inversion (require invalid_item (find (is_row line.item_kind id) stock)) _ h3 in
    let (u, _, h5) =
      bind_inversion
        (require invalid_item
          (find (λ (x : UnitPrice). same_kind line.item_kind x.kind && str_eq x.id id) c.units))
        _ h4 in
    let (_, _, h6) = bind_inversion (raise_if (not u.is_active) invalid_item) _ h5 in
    sell_line-IsSold line id row _ _ _ stock (require-ok _ _ there)
      (not_below line.quantity (pos 1) (raise_if-eq-ok _ _ least)) refl
      (to_cents-IsCents (10 ^ 24) _) k h6

checkout_line-IsSold :
    (c : Catalog) (line : CheckoutLine) (stock : List StockRow) {s : SoldLine}
    → All InStock stock
    → checkout_line c line stock ≡ ok s
    → IsSold s
checkout_line-IsSold c line stock {s} k h = elim (Bool-cases (is_product line.item_kind)) [
  | inl p ↦ product_line-IsSold c line stock (product_only line.item_kind p) k (rw p at h)
  | inr u ↦ unit_line-IsSold c line stock k (rw u at h)
]
  where
    product_only : (kind : ItemKind) → is_product kind ≡ true → kind ≡ product
    product_only product e = refl
    product_only coin e = cc
    product_only ounce e = cc

-- What the loop keeps of the cart.
record IsCart (cart : Cart) : Type 0 where
  subtotal : IsCents cart.subtotal
  lines : All InLine cart.items
  whole : All Unrefunded cart.items
  stock : All InStock cart.stock

checkout_lines-IsCart :
    (c : Catalog) (lines : List CheckoutLine) (cart : Cart) {after : Cart}
    → IsCart cart
    → checkout_lines c lines cart ≡ ok after
    → IsCart after
unfolding checkout_lines
checkout_lines-IsCart c [] cart k h = subst IsCart (ok-injective h) k
checkout_lines-IsCart c (line ∷ lines) cart k h =
    let (s, sold, rest) = bind_inversion (checkout_line c line cart.stock) _ h in
    let i = checkout_line-IsSold c line cart.stock k.stock sold in
    checkout_lines-IsCart c lines (add_to_cart cart s)
      (record {
        subtotal = add-IsCents _ _ k.subtotal i.total;
        lines = All-append _ cart.items _ k.lines (i.line, tt);
        whole = All-append _ cart.items _ k.whole (i.whole, tt);
        stock = i.stock;
      })
      rest

-- A checkout that succeeds, from a stock without a negative quantity, leaves none negative, and an
-- order that is completed, with no unit refunded and no negative quantity, whose subtotal and
-- discount are in cents, whose discount is at most the percentage that the settings allow, and whose
-- total is the subtotal less the discount plus the VAT.
pub create_order_lem :
    (c : Catalog) (r : CheckoutRequest) (stock : List StockRow) {o : Order} {cart : Cart}
    → All InStock stock
    → create_order c r stock ≡ ok (o, cart)
    → All InStock cart.stock
      × (o.status ≡ completed)
      × IsKept o
      × IsCents o.subtotal
      × IsCents o.discount_amount
      × (o.discount_percent ≤ℤ c.settings.max_discount_percent)
      × (o.total_usd ≡ o.subtotal -ℤ o.discount_amount +ℤ o.vat_amount)
unfolding create_order
create_order_lem c r stock {o} {cart} k h =
    let (_, _, h1) = bind_inversion (require_items r.lines) _ h in
    let (x, ran, h2) = bind_inversion (checkout_lines c r.lines (empty_cart stock)) _ h1 in
    let d = or_zero r.discount_percent in
    let (_, _, h3) = bind_inversion (raise_if (ltb_ℤ d (pos 0)) negative_discount) _ h2 in
    let (_, most, h4) =
      bind_inversion (raise_if (ltb_ℤ c.settings.max_discount_percent d) discount_too_large) _ h3 in
    let i =
      checkout_lines-IsCart c r.lines (empty_cart stock)
        (record { subtotal = refl; lines = tt; whole = tt; stock = k }) ran in
    subst
      (λ (y : Order × Cart).
        All InStock y.1.stock
        × (y.0.status ≡ completed)
        × IsKept y.0
        × IsCents y.0.subtotal
        × IsCents y.0.discount_amount
        × (y.0.discount_percent ≤ℤ c.settings.max_discount_percent)
        × (y.0.total_usd ≡ y.0.subtotal -ℤ y.0.discount_amount +ℤ y.0.vat_amount))
      (ok-injective h4)
      (
        i.stock,
        refl,
        record { lines = i.lines; whole = λ e. i.whole; part = λ e. cc e },
        i.subtotal,
        quantize_quotient-IsCents _ _,
        not_below c.settings.max_discount_percent d (raise_if-eq-ok _ _ most),
        eq_of_parts _ _ (omega int_laws),
      )
