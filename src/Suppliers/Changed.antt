-- ===== src/Suppliers/Changed.antt =====
-- What it takes for the books of suppliers to be settled, and that each change of them keeps it.
use jewelry_backend.Common.{
  arith, ◌≡◌, ◌≢◌, refl, sym, ap, ◌∙◌, Bool, true, false, some, List, [], ◌∷◌, ◌++◌, String, str_eq,
  eq_iff, if◌then◌else◌, inl, inr, All, All-append, find-test,
}
use jewelry_backend.Common.Int.{pos, ◌+ℤ◌, ◌-ℤ◌, ◌≤ℤ◌, ltb_ℤ, int_laws}
use jewelry_backend.Money.{Decimal}
use jewelry_backend.Gl.Lines.{sum_of}
use jewelry_backend.Inventory.Supplier.{Balance, Key, owed, get_supplier_balances, key_eq}
use jewelry_backend.Inventory.Supplier.Owed.{NoneNegative}
use jewelry_backend.Suppliers.{Supplier, SupplierPurchase, SupplierPayment, Shop, find_supplier}
use jewelry_backend.Suppliers.Purchases.{cash_key, gold_key}
use jewelry_backend.Suppliers.Owed.{
  Adds, owe_all-ok, pay-ok, charged, repaid, at_key, positive, gold_charged,
}
use jewelry_backend.Postings.Supplier.{Grams, grams_at}
use jewelry_backend.Suppliers.Standing.{Renewed, find-store_supplier, find-snoc}
use jewelry_backend.Gl.Cents.{sum_of-snoc}
use jewelry_backend.Suppliers.Ending.{SameBooks}
use jewelry_backend.Suppliers.Steps.{Bought, Paid}

-- A key's balance is what the purchases left owed less what the payments paid.
abbrev pub FromHistory : Shop → Type 0
FromHistory shop =
    (j : Key)
    → owed j shop.balances ≡ sum_of (charged j) shop.purchases -ℤ sum_of (repaid j) shop.payments

pub record IsSettled (shop : Shop) : Type 0 where
  pub history : FromHistory shop
  pub none_negative : NoneNegative shop.balances
  pub paid_nonneg : All (λ (p : SupplierPayment). pos 0 ≤ℤ p.document.amount) shop.payments
  pub inactive_owed :
      (id : String) (s : Supplier)
      → find_supplier id shop.suppliers ≡ some s
      → s.is_active ≡ false
      → (j : Key) → j.supplier_id ≡ id
      → owed j shop.balances ≡ pos 0

pub owed-nonneg : (j : Key) (rows : List Balance) → NoneNegative rows → pos 0 ≤ℤ owed j rows
unfolding owed
owed-nonneg j [] h = omega arith
owed-nonneg j (row ∷ rows) h = ground (arith, owed-nonneg j rows h.1)

-- A supplier without outstanding rows is owed nothing.
nothing_outstanding :
    (j : Key) (rows : List Balance)
    → get_supplier_balances rows j.supplier_id ≡ []
    → owed j rows ≡ pos 0
unfolding owed get_supplier_balances key_eq
nothing_outstanding j [] h = refl
nothing_outstanding j (row ∷ rows) h = ground (arith, nothing_outstanding j rows)

-- Books that agree but for the suppliers.
pub SameBooks-IsSettled :
    (shop shop' : Shop) → SameBooks shop shop' → IsSettled shop → IsSettled shop'
SameBooks-IsSettled shop shop' (suppliers, balances, purchases, payments) k = record {
  history = rw (balances, purchases, payments) k.history;
  none_negative = rw balances k.none_negative;
  paid_nonneg = rw payments k.paid_nonneg;
  inactive_owed = rw (suppliers, balances) k.inactive_owed;
}

pub created-IsSettled :
    (shop shop' : Shop) (new : Supplier)
    → new.is_active ≡ true
    → shop'.suppliers ≡ shop.suppliers ++ new ∷ []
    → shop'.balances ≡ shop.balances
    → shop'.purchases ≡ shop.purchases
    → shop'.payments ≡ shop.payments
    → IsSettled shop
    → IsSettled shop'
created-IsSettled shop shop' new active suppliers balances purchases payments k = record {
  history = rw (balances, purchases, payments) k.history;
  none_negative = rw balances k.none_negative;
  paid_nonneg = rw payments k.paid_nonneg;
  inactive_owed = λ id s found idle j of.
      rw balances (elim (find-snoc id shop.suppliers new (rw suppliers at found)) [
        | inl same ↦
            absurd_flag new.is_active active (sym (ap (λ (x : Supplier). x.is_active) same) ∙ idle)
        | inr before ↦ k.inactive_owed id s before idle j of
      ]);
}
  where
    absurd_flag : {A : Type 0} (b : Bool) → b ≡ true → b ≡ false → A
    absurd_flag b e f = cc

pub Renewed-IsSettled :
    (shop shop' : Shop) (old new : Supplier)
    → Renewed shop shop' old new
    → IsSettled shop
    → IsSettled shop'
Renewed-IsSettled shop shop' old new c k = record {
  history = rw (c.balances, c.purchases, c.payments) k.history;
  none_negative = rw c.balances k.none_negative;
  paid_nonneg = rw c.payments k.paid_nonneg;
  inactive_owed = λ id s found idle j of.
      rw c.balances
        (elim (find-store_supplier id new shop.suppliers c.found (rw c.suppliers at found)) [
          | inr before ↦ k.inactive_owed id s before idle j of
          | inl (this, same) ↦
              elim (c.settled (sym (ap (λ (x : Supplier). x.is_active) same) ∙ idle)) [
                | inl was ↦ k.inactive_owed new.id old c.found was j (of ∙ sym this)
                | inr settled ↦
                    nothing_outstanding j shop.balances
                      (ap (get_supplier_balances shop.balances) (of ∙ sym this) ∙ settled)
              ]
        ]);
}

pub above : (d : Decimal) → ltb_ℤ (pos 0) d ≡ true → pos 0 ≤ℤ d
above d more = ground arith

-- A key of another supplier.
other_key :
    (j k : Key) (amount : Decimal) → j.supplier_id ≢ k.supplier_id → at_key j k amount ≡ pos 0
unfolding key_eq
other_key j k amount differ = ground (arith, eq_iff k.supplier_id j.supplier_id)

other_gold :
    (j : Key) (id : String) (paid due : List Grams)
    → j.supplier_id ≢ id
    → gold_charged j id paid due ≡ pos 0
other_gold j id paid [] differ = refl
other_gold j id paid (g ∷ due) differ =
    rw (other_key j (gold_key id g.karat) (positive (g.grams -ℤ grams_at g.karat paid)) differ)
      (rw (other_gold j id paid due differ) (omega int_laws))

charged_elsewhere :
    (j : Key) (p : SupplierPurchase) → j.supplier_id ≢ p.supplier_id → charged j p ≡ pos 0
charged_elsewhere j p differ =
    rw
      (
        other_key j (cash_key p.supplier_id)
            (positive (p.document.total_cash_due -ℤ p.document.cash_paid_at_creation)) differ,
        other_gold j p.supplier_id p.document.grams_paid_at_creation_by_karat
            p.document.total_grams_due_by_karat differ,
      )
      (omega int_laws)

one_more : (o c r d : Decimal) → o ≡ c -ℤ r → o +ℤ d ≡ (c +ℤ d) -ℤ r
one_more o c r d e = rw e (omega int_laws)

one_less : (o c r d : Decimal) → o ≡ c -ℤ r → o +ℤ (pos 0 -ℤ d) ≡ c -ℤ (r +ℤ d)
one_less o c r d e = rw e (omega int_laws)

add_nothing : (o d : Decimal) → o ≡ pos 0 → d ≡ pos 0 → o +ℤ d ≡ pos 0
add_nothing o d e f = rw (e, f) (omega int_laws)

Bought-Adds :
    (shop shop' : Shop) (s : Supplier) (p : SupplierPurchase)
    → Bought shop shop' s p
    → Adds (λ j. charged j p) shop.balances shop'.balances
Bought-Adds shop shop' s p b = rw b.balances (owe_all-ok p shop.balances b.charges_made)

Paid-Adds :
    (shop shop' : Shop) (s : Supplier) (p : SupplierPayment)
    → Paid shop shop' s p
    → Adds (λ j. pos 0 -ℤ repaid j p) shop.balances shop'.balances
Paid-Adds shop shop' s p b = rw b.balances (pay-ok p shop.balances b.adjusted)

pub Bought-IsSettled :
    (shop shop' : Shop) (s : Supplier) (p : SupplierPurchase)
    → find_supplier s.id shop.suppliers ≡ some s
    → Bought shop shop' s p
    → IsSettled shop
    → IsSettled shop'
Bought-IsSettled shop shop' buyer p found_buyer b k = record {
  history = λ j.
      (Bought-Adds shop shop' buyer p b).0 j
      ∙ rw (b.purchases, b.payments, sum_of-snoc (charged j) shop.purchases p)
          (one_more _ _ _ (charged j p) (k.history j));
  none_negative = (Bought-Adds shop shop' buyer p b).1 k.none_negative;
  paid_nonneg = rw b.payments k.paid_nonneg;
  inactive_owed = λ id s found idle j of.
      let before = rw b.suppliers at found in
      (Bought-Adds shop shop' buyer p b).0 j
      ∙ add_nothing _ _ (k.inactive_owed id s before idle j of) (
          charged_elsewhere j p
            (λ same. differ id s before idle (sym of ∙ (same ∙ b.of_supplier))));
}
  where
    flags : (x y : Supplier) → some x ≡ some y → x.is_active ≡ true → y.is_active ≡ false → ⊥
    flags x y same active idle = cc

    differ :
        (id : String) (s : Supplier)
        → find_supplier id shop.suppliers ≡ some s
        → s.is_active ≡ false
        → id ≡ buyer.id
        → ⊥
    differ id s found idle same =
        flags buyer s
          (sym found_buyer
            ∙ (ap (λ (x : String). find_supplier x shop.suppliers) (sym same) ∙ found))
          b.active idle

-- A balance of nothing that a payment lowers would be negative.
lowered :
    (b : Bool) (o o' amount : Decimal)
    → ltb_ℤ (pos 0) amount ≡ true
    → o ≡ pos 0
    → o' ≡ o +ℤ (pos 0 -ℤ (if b then amount else pos 0))
    → pos 0 ≤ℤ o'
    → o' ≡ pos 0
lowered true o o' amount more e f nonneg = absurd (below amount more (rw (f, e) at nonneg))
  where
    below : (d : Decimal) → ltb_ℤ (pos 0) d ≡ true → pos 0 ≤ℤ pos 0 +ℤ (pos 0 -ℤ d) → ⊥
    below d m h = grind int_laws
lowered false o o' amount more e f nonneg = f ∙ rw e (omega int_laws)

pub Paid-IsSettled :
    (shop shop' : Shop) (s : Supplier) (p : SupplierPayment)
    → ltb_ℤ (pos 0) p.document.amount ≡ true
    → Paid shop shop' s p
    → IsSettled shop
    → IsSettled shop'
Paid-IsSettled shop shop' payee p more b k = record {
  history = λ j.
      (Paid-Adds shop shop' payee p b).0 j
      ∙ rw (b.purchases, b.payments, sum_of-snoc (repaid j) shop.payments p)
          (one_less _ _ _ (repaid j p) (k.history j));
  none_negative = (Paid-Adds shop shop' payee p b).1 k.none_negative;
  paid_nonneg =
      rw b.payments
        (All-append _ shop.payments (p ∷ []) k.paid_nonneg (above p.document.amount more, tt));
  inactive_owed = λ id s found idle j of.
      lowered _ _ _ p.document.amount more
        (k.inactive_owed id s (rw b.suppliers at found) idle j of)
        ((Paid-Adds shop shop' payee p b).0 j)
        (owed-nonneg j shop'.balances ((Paid-Adds shop shop' payee p b).1 k.none_negative));
}

pub own_row :
    (id : String) (s : Supplier) (shop : Shop)
    → find_supplier id shop.suppliers ≡ some s
    → find_supplier s.id shop.suppliers ≡ some s
own_row id s shop found =
    let same =
      (eq_iff s.id id).0 (find-test (λ (x : Supplier). str_eq x.id id) shop.suppliers found) in
    ap (λ (x : String). find_supplier x shop.suppliers) same ∙ found
