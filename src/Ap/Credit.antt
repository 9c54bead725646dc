-- ===== src/Ap/Credit.antt =====
-- What the entries of purchases and payments do to the control account.
use jewelry_backend.Common.{
  ◌≡◌, refl, sym, ap, ap₂, ◌∙◌, Bool, true, false, List, [], ◌∷◌, ◌++◌, String, str_eq, eq_refl,
  Bool-cases, inl, inr, ok, bind_inversion, ok-injective, ◌⊎◌,
}
use mathlib.Core.Path.{subst}
use jewelry_backend.Common.Int.{pos, ◌+ℤ◌, ◌-ℤ◌, ◌≤ℤ◌, ltb_ℤ, leb_ℤ, int_laws}
use jewelry_backend.Money.{Decimal, quantize}
use jewelry_backend.Gl.Lines.{GlLine, q_money, sum_of}
use jewelry_backend.Gl.Cents.{IsCents, quantize_cents, sum_of-append}
use jewelry_backend.Gl.Store.{Db}
use jewelry_backend.Gl.Post.Written.{asked_credit}
use jewelry_backend.Postings.{resolve_account_id, debit_money, credit_money, lines_if}
use jewelry_backend.Postings.Supplier.{
  Purchase, Grams, PurchaseAccounts, purchase_accounts, cash_lines, stone_in_lines, cash_side,
  gold_lines, net_grams, lines_of_purchase, lines_of_payment, Payment, PaymentUnit, product_slice,
  stone_slice,
}
use jewelry_backend.Suppliers.Owed.{positive}
use jewelry_backend.Ap.{net_due, cash_amount}

-- Every other key names another account than the one of `id`.
abbrev pub Apart : Db → String → Type 0
Apart db id =
    (key other : String)
    → resolve_account_id db key ≡ ok other
    → str_eq key "AP" ≡ false
    → str_eq other id ≡ false

abbrev pub credit_of : String → List GlLine → Decimal
credit_of id lines = sum_of (asked_credit id) lines

elsewhere :
    (id : String) (ln : GlLine) → str_eq ln.account_id id ≡ false → asked_credit id ln ≡ pos 0
elsewhere id ln other = rw other refl

zero_zero : pos 0 +ℤ pos 0 ≡ pos 0
zero_zero = omega int_laws

-- The accounts of a purchase, as seen from that of `id`.
record Seen (id : String) (a : PurchaseAccounts) : Type 0 where
  inventory : str_eq a.inventory id ≡ false
  metal_ap : str_eq a.metal_ap id ≡ false
  product_inventory : str_eq a.product_inventory id ≡ false
  cash : str_eq a.cash id ≡ false
  ap_account : a.ap ≡ id

purchase_accounts-Seen :
    (db : Db) (id : String) {a : PurchaseAccounts}
    → resolve_account_id db "AP" ≡ ok id
    → Apart db id
    → purchase_accounts db ≡ ok a
    → Seen id a
unfolding purchase_accounts
purchase_accounts-Seen db id {a} named apart h =
    let (inv, e1, h1) = bind_inversion (resolve_account_id db "METAL_INVENTORY") _ h in
    let (metal, e2, h2) = bind_inversion (resolve_account_id db "METAL_AP") _ h1 in
    let (prod, e3, h3) = bind_inversion (resolve_account_id db "PRODUCT_INVENTORY") _ h2 in
    let (ap_id, e4, h4) = bind_inversion (resolve_account_id db "AP") _ h3 in
    let (cash, e5, h5) = bind_inversion (resolve_account_id db "CASH") _ h4 in
    subst (Seen id) (ok-injective h5) (record {
      inventory = apart _ inv e1 refl;
      metal_ap = apart _ metal e2 refl;
      product_inventory = apart _ prod e3 refl;
      cash = apart _ cash e5 refl;
      ap_account = ok-injective (sym e4 ∙ named);
    })

gold_lines-credit :
    (id : String) (a : PurchaseAccounts) (p : Purchase) (due : List Grams)
    → Seen id a
    → credit_of id (gold_lines a p due) ≡ pos 0
unfolding gold_lines
gold_lines-credit id a p [] s = refl
gold_lines-credit id a p (g ∷ due) s =
    let rest = gold_lines-credit id a p due s in
    elim (Bool-cases (leb_ℤ (net_grams p g) (pos 0))) [
      | inl paid ↦ rw paid rest
      | inr more ↦ rw (more, s.inventory, s.metal_ap, rest) (omega int_laws)
    ]

-- Lines of one account that is another.
lines_if-credit :
    (id : String) (test : Bool) (ln : GlLine)
    → str_eq ln.account_id id ≡ false
    → credit_of id (lines_if test (ln ∷ [])) ≡ pos 0
lines_if-credit id true ln other = rw other zero_zero
lines_if-credit id false ln other = refl

stone_in_lines-credit :
    (db : Db) (id : String) (slice : Decimal) {lines : List GlLine}
    → Apart db id
    → stone_in_lines db slice ≡ ok lines
    → credit_of id lines ≡ pos 0
unfolding stone_in_lines
stone_in_lines-credit db id slice apart h = elim (Bool-cases (ltb_ℤ (pos 0) slice)) [
  | inl some' ↦
      let (stone, found, same) =
        bind_inversion (resolve_account_id db "STONE_INVENTORY") _ (rw some' at h) in
      ap (credit_of id) (sym (ok-injective same)) ∙ rw (apart _ stone found refl) zero_zero
  | inr no_stone ↦ ap (credit_of id) (sym (ok-injective (rw no_stone at h)))
]

quantize_zero : quantize q_money (pos 0) ≡ pos 0
quantize_zero = quantize_cents (pos 0) refl

-- The line that credits the account itself.
owed_line :
    (id other : String) (d : Decimal)
    → other ≡ id
    → IsCents d
    → credit_of id (
        lines_if
          (ltb_ℤ (pos 0) (quantize q_money d))
          (credit_money other (quantize q_money d) "AP (net owed)" ∷ []))
      ≡ positive d
owed_line id other d same cents =
    rw (quantize_cents d cents, same) (split (Bool-cases (ltb_ℤ (pos 0) d)))
  where
    split :
        (ltb_ℤ (pos 0) d ≡ true) ⊎ (ltb_ℤ (pos 0) d ≡ false)
        → credit_of id (lines_if (ltb_ℤ (pos 0) d) (credit_money id d "AP (net owed)" ∷ []))
          ≡ positive d
    split (inl more) = rw (more, eq_refl id, quantize_cents d cents, quantize_zero) (omega int_laws)
    split (inr less) = rw less refl

four_parts :
    (id : String) (w x y z : List GlLine) (v : Decimal)
    → credit_of id w ≡ pos 0
    → credit_of id x ≡ pos 0
    → credit_of id y ≡ v
    → credit_of id z ≡ pos 0
    → credit_of id (w ++ (x ++ (y ++ z))) ≡ v
four_parts id w x y z v ew ex ey ez =
    sum_of-append (asked_credit id) w (x ++ (y ++ z))
    ∙ rw
        (
          sum_of-append (asked_credit id) x (y ++ z),
          sum_of-append (asked_credit id) y z,
          ew,
          ex,
          ey,
          ez,
        )
        (omega int_laws)

cash_lines-credit :
    (id : String) (a : PurchaseAccounts) (p : Purchase) (stone : List GlLine)
    → Seen id a
    → IsCents (net_due p)
    → credit_of id stone ≡ pos 0
    → credit_of id (cash_lines a p stone) ≡ positive (net_due p)
unfolding cash_lines
cash_lines-credit id a p stone s cents none' =
    four_parts id _ stone _ _ (positive (net_due p))
      (lines_if-credit id (ltb_ℤ (pos 0) (product_slice p))
        (debit_money a.product_inventory (product_slice p) "product purchase") s.product_inventory)
      none' (owed_line id a.ap (net_due p) s.ap_account cents)
      (lines_if-credit id (ltb_ℤ (pos 0) p.cash_paid_at_creation)
        (credit_money a.cash (quantize q_money p.cash_paid_at_creation) "paid at creation") s.cash)

cash_side-credit :
    (db : Db) (id : String) (a : PurchaseAccounts) (p : Purchase) {lines : List GlLine}
    → Seen id a
    → Apart db id
    → IsCents (net_due p)
    → pos 0 ≤ℤ p.cash_paid_at_creation
    → cash_side db a p ≡ ok lines
    → credit_of id lines ≡ positive (net_due p)
unfolding cash_side
cash_side-credit db id a p s apart cents nonneg h =
    elim (Bool-cases (ltb_ℤ (pos 0) p.total_cash_due)) [
      | inl due ↦
          let (stone, found, same) =
            bind_inversion (stone_in_lines db (stone_slice p)) _ (rw due at h) in
          ap (credit_of id) (sym (ok-injective same))
          ∙ cash_lines-credit id a p stone s cents
              (stone_in_lines-credit db id (stone_slice p) apart found)
      | inr none_due ↦
          ap (credit_of id) (sym (ok-injective (rw none_due at h)))
          ∙ sym (none_owed p.total_cash_due p.cash_paid_at_creation nonneg none_due)
    ]
  where
    none_owed : (t c : Decimal) → pos 0 ≤ℤ c → ltb_ℤ (pos 0) t ≡ false → positive (t -ℤ c) ≡ pos 0
    none_owed t c nonneg e = rw (below t c nonneg e) refl
      where
        below :
            (t c : Decimal) → pos 0 ≤ℤ c → ltb_ℤ (pos 0) t ≡ false → ltb_ℤ (pos 0) (t -ℤ c) ≡ false
        below t c nonneg e = grind int_laws

-- The entry of a purchase credits the account with the cash that was not paid.
pub lines_of_purchase-credit :
    (db : Db) (id : String) (p : Purchase) {lines : List GlLine}
    → resolve_account_id db "AP" ≡ ok id
    → Apart db id
    → IsCents (net_due p)
    → pos 0 ≤ℤ p.cash_paid_at_creation
    → lines_of_purchase p db ≡ ok lines
    → credit_of id lines ≡ positive (net_due p)
unfolding lines_of_purchase
lines_of_purchase-credit db id p named apart cents nonneg h =
    let (a, accounts, h1) = bind_inversion (purchase_accounts db) _ h in
    let s = purchase_accounts-Seen db id named apart accounts in
    let (cash, found, h2) = bind_inversion (cash_side db a p) _ h1 in
    ap (credit_of id) (sym (ok-injective h2))
    ∙ (sum_of-append (asked_credit id) cash (gold_lines a p p.total_grams_due_by_karat)
        ∙ (ap₂ ◌+ℤ◌ (cash_side-credit db id a p s apart cents nonneg found)
              (gold_lines-credit id a p p.total_grams_due_by_karat s)
            ∙ right_zero (positive (net_due p))))
  where
    right_zero : (d : Decimal) → d +ℤ pos 0 ≡ d
    right_zero d = omega int_laws

-- The entry of a payment debits it with the cash that is paid.
pub lines_of_payment-credit :
    (db : Db) (id : String) (p : Payment) {lines : List GlLine}
    → resolve_account_id db "AP" ≡ ok id
    → Apart db id
    → IsCents (cash_amount p)
    → lines_of_payment p db ≡ ok lines
    → credit_of id lines ≡ pos 0 -ℤ cash_amount p
unfolding lines_of_payment
lines_of_payment-credit db id p {lines} named apart cents h = split p.unit cents h
  where
    less_paid : (d : Decimal) → (pos 0 -ℤ d) +ℤ (pos 0 +ℤ pos 0) ≡ pos 0 -ℤ d
    less_paid d = omega int_laws

    split :
        (unit : PaymentUnit)
        → IsCents (cash_amount (record p { unit = unit }))
        → lines_of_payment (record p { unit = unit }) db ≡ ok lines
        → credit_of id lines ≡ pos 0 -ℤ cash_amount (record p { unit = unit })
    split PaymentUnit.cash whole e =
        let (a, found, e1) = bind_inversion (resolve_account_id db "AP") _ e in
        let (b, found', e2) = bind_inversion (resolve_account_id db "CASH") _ e1 in
        ap (credit_of id) (sym (ok-injective e2))
        ∙ rw
            (
              ok-injective (sym found ∙ named),
              eq_refl id,
              apart _ b found' refl,
              quantize_cents p.amount whole,
              quantize_cents p.amount whole,
              quantize_zero,
            )
            (less_paid p.amount)
    split (PaymentUnit.gold k) whole e =
        let (a, found, e1) = bind_inversion (resolve_account_id db "METAL_AP") _ e in
        let (b, found', e2) = bind_inversion (resolve_account_id db "METAL_INVENTORY") _ e1 in
        ap (credit_of id) (sym (ok-injective e2))
        ∙ rw (apart _ a found refl, apart _ b found' refl) (omega int_laws)
