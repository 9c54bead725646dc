-- ===== src/Suppliers/Steps.antt =====
-- What a purchase and a payment do to the books: the suppliers, the balances, the purchases and the
-- payments.
use jewelry_backend.Common.{
  arith, ◌≡◌, refl, ap, true, false, Option, none, some, List, [], ◌∷◌, ◌++◌, String, ok, Result,
  bind_inversion, ok-injective,
}
use jewelry_backend.Common.Int.{pos, ◌-ℤ◌}
use jewelry_backend.Money.{Decimal}
use jewelry_backend.Audit.Ledger.{LedgerFields}
use jewelry_backend.Audit.Events.{Event}
use jewelry_backend.Gl.Store.{Db, GlFields, Error as GlError}
use jewelry_backend.Inventory.Supplier.{Balance, adjust_balance}
use jewelry_backend.Inventory.Lot.{Stock}
use jewelry_backend.Postings.Supplier.{Grams, post_supplier_purchase, post_supplier_payment}
use jewelry_backend.Suppliers.{
  Supplier, SupplierPurchase, SupplierPayment, Shop, lift, find_supplier, balance_refused,
  require_supplier,
}
use jewelry_backend.Suppliers.Intake.{consume_lots, materialize_items}
use jewelry_backend.Suppliers.Purchases.{
  Caller, PurchaseRequest, usable, purchase_checks, check_grams_paid, book_purchase,
  create_purchase, posted_db, received_by, purchase_row, purchase_of, bought, purchase_event,
  draw_of, owe_all, stock_of, with_stock,
}
use jewelry_backend.Suppliers.Payments.{
  PaymentRequest, book_payment, create_payment, paid_key, payment_row, payment_of, paid_shop,
  payment_event, change_event, checked_unit,
}
use jewelry_backend.Suppliers.Owed.{lift-ok}
use jewelry_backend.Suppliers.Ending.{Booked, ending}

-- What a purchase that succeeds has read and written.
pub record Bought (shop shop' : Shop) (s : Supplier) (p : SupplierPurchase) : Type 0 where
  pub of_supplier : p.supplier_id ≡ s.id
  pub active : s.is_active ≡ true
  pub suppliers : shop'.suppliers ≡ shop.suppliers
  pub charges : List Balance × List Event
  pub charges_made : owe_all p.document p.supplier_id shop.balances ≡ ok charges
  pub balances : shop'.balances ≡ charges.0
  pub purchases : shop'.purchases ≡ shop.purchases ++ p ∷ []
  pub payments : shop'.payments ≡ shop.payments

pub record Paid (shop shop' : Shop) (s : Supplier) (p : SupplierPayment) : Type 0 where
  pub of_supplier : p.supplier_id ≡ s.id
  pub suppliers : shop'.suppliers ≡ shop.suppliers
  pub moved : Decimal × Decimal × List Balance
  pub adjusted :
      adjust_balance shop.balances
        (paid_key p.supplier_id p.document.unit)
        (pos 0 -ℤ p.document.amount)
        false
      ≡ ok moved
  pub balances : shop'.balances ≡ moved.2
  pub purchases : shop'.purchases ≡ shop.purchases
  pub payments : shop'.payments ≡ shop.payments ++ p ∷ []

-- The columns of a purchase that its request, its key and the gold that was paid give.
pub record IsDocument (c : Caller) (q : PurchaseRequest) (paid : List Grams) (p : SupplierPurchase)
    : Type 0 where
  pub key_is : p.document.id ≡ c.document_id
  pub due_is : p.document.total_cash_due ≡ q.total_cash_due
  pub paid_is : p.document.cash_paid_at_creation ≡ q.cash_paid_at_creation
  pub grams_due_is : p.document.total_grams_due_by_karat ≡ q.total_grams_due_by_karat
  pub grams_paid_is : p.document.grams_paid_at_creation_by_karat ≡ paid

usable-ok :
    (found : Option Supplier) {s : Supplier}
    → usable found ≡ ok s
    → (found ≡ some s) × (s.is_active ≡ true)
usable-ok none h = cc
usable-ok (some t) {s} h = (ground arith, ground arith)

pub require_supplier-ok :
    (found : Option Supplier) {s : Supplier} → require_supplier found ≡ ok s → found ≡ some s
require_supplier-ok none h = cc
require_supplier-ok (some t) h = ap some (ok-injective h)

module _ (gl_digest : String → GlFields → String) (digest : String → LedgerFields → String) where
  abbrev pub posts_purchase : Caller → SupplierPurchase → Db → Result GlError Db
  posts_purchase c p before =
      posted_db c.posting
        (λ context. post_supplier_purchase gl_digest digest context p.document before) before

  abbrev pub posts_payment : Caller → SupplierPayment → Db → Result GlError Db
  posts_payment c p before =
      posted_db c.posting
        (λ context. post_supplier_payment gl_digest digest context p.document before) before

  book_purchase-Bought :
      (c : Caller) (s : Supplier) (q : PurchaseRequest) (paid : List Grams) (shop : Shop)
      {shop' : Shop}
      → s.is_active ≡ true
      → book_purchase gl_digest digest c s q paid shop ≡ ok shop'
      → (p : SupplierPurchase) × IsDocument c q paid p
        × Bought shop shop' s p
        × Booked shop shop' (posts_purchase c p)
  unfolding book_purchase
  book_purchase-Bought c s q paid shop {shop'} active h =
      let (_, fits, h1) = bind_inversion (check_grams_paid q.total_grams_due_by_karat paid) _ h in
      let (received, came, h2) =
        bind_inversion (materialize_items c.document_id c.key 0 q.items (received_by shop)) _ h1 in
      let p = purchase_of c s q (purchase_row c.document_id q paid received) in
      let (owed, charged_ok, h3) = bind_inversion (owe_all p.document s.id shop.balances) _ h2 in
      let ((suppliers, balances, purchases, payments), booked) =
        ending digest c.recorder (received.events ++ (owed.1 ++ purchase_event s q p.document ∷ []))
          c.posting (λ context db. post_supplier_purchase gl_digest digest context p.document db)
          (bought shop received owed.0 p) h3 in
      (
        p,
        record {
          key_is = refl;
          due_is = refl;
          paid_is = refl;
          grams_due_is = refl;
          grams_paid_is = refl;
        },
        record {
          of_supplier = refl;
          active = active;
          suppliers = suppliers;
          charges = owed;
          charges_made = charged_ok;
          balances = balances;
          purchases = purchases;
          payments = payments;
        },
        booked,
      )

  pub create_purchase-Bought :
      (c : Caller) (id : String) (q : PurchaseRequest) (shop : Shop) {shop' : Shop}
      → create_purchase gl_digest digest c id q shop ≡ ok shop'
      → (s : Supplier) × (find_supplier id shop.suppliers ≡ some s)
        × ((p : SupplierPurchase) × (drawn : List Grams × Stock) × (consume_lots digest
                (draw_of "supplier_purchase" c)
                0
                q.gold_payments_at_creation
                []
                (stock_of shop)
              ≡ ok drawn)
            × IsDocument c q drawn.0 p
            × Bought shop shop' s p
            × Booked shop shop' (posts_purchase c p))
  unfolding create_purchase
  create_purchase-Bought c id q shop {shop'} h =
      let (s, is_usable, h1) = bind_inversion (usable (find_supplier id shop.suppliers)) _ h in
      let (found, active) = usable-ok _ is_usable in
      let (_, passed, h2) = bind_inversion (purchase_checks q) _ h1 in
      let (drawn, took, h3) =
        bind_inversion
          (consume_lots digest (draw_of "supplier_purchase" c) 0 q.gold_payments_at_creation []
            (stock_of shop))
          _ h2 in
      let (p, document, b, booked) =
        book_purchase-Bought c s q drawn.0 (with_stock drawn.1 shop) active h3 in
      (
        s,
        found,
        (
          p,
          drawn,
          took,
          document,
          record {
            of_supplier = b.of_supplier;
            active = b.active;
            suppliers = b.suppliers;
            charges = b.charges;
            charges_made = b.charges_made;
            balances = b.balances;
            purchases = b.purchases;
            payments = b.payments;
          },
          booked,
        ),
      )

  pub create_payment-Paid :
      (c : Caller) (id : String) (q : PaymentRequest) (shop : Shop) {shop' : Shop}
      → create_payment gl_digest digest c id q shop ≡ ok shop'
      → (s : Supplier) × (find_supplier id shop.suppliers ≡ some s)
        × ((p : SupplierPayment) × (p.document.amount ≡ q.amount)
            × (p.document.id ≡ c.document_id)
            × (checked_unit q ≡ ok p.document.unit)
            × Paid shop shop' s p
            × Booked shop shop' (posts_payment c p))
  unfolding create_payment book_payment
  create_payment-Paid c id q shop {shop'} h =
      let (s, is_there, h1) =
        bind_inversion (require_supplier (find_supplier id shop.suppliers)) _ h in
      let (unit, passed, h2) = bind_inversion (checked_unit q) _ h1 in
      let p = payment_of s (payment_row c.document_id unit q.amount) in
      let (moved, adjusted, h3) =
        bind_inversion
          (lift balance_refused
            (adjust_balance shop.balances (paid_key s.id unit) (pos 0 -ℤ q.amount) false))
          _ h2 in
      let (drawn, took, h4) =
        bind_inversion
          (consume_lots digest (draw_of "supplier_payment" c) 0 q.gold_payments [] (stock_of shop))
          _ h3 in
      let ((suppliers, balances, purchases, payments), booked) =
        ending digest c.recorder
          (payment_event s q p.document (moved.0, moved.1) drawn.0
            ∷ change_event s p.document (moved.0, moved.1)
            ∷ [])
          c.posting (λ context db. post_supplier_payment gl_digest digest context p.document db)
          (paid_shop (with_stock drawn.1 shop) moved.2 p) h4 in
      (
        s,
        require_supplier-ok _ is_there,
        (
          p,
          refl,
          refl,
          passed,
          record {
            of_supplier = refl;
            suppliers = suppliers;
            moved = moved;
            adjusted = lift-ok balance_refused _ adjusted;
            balances = balances;
            purchases = purchases;
            payments = payments;
          },
          booked,
        ),
      )
