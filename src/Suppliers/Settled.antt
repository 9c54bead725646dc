-- ===== src/Suppliers/Settled.antt =====
-- The books of suppliers in every state that the handlers reach.
use jewelry_backend.Common.{[], ◌≡◌, refl, Bool, true, Option, String, ok}
use jewelry_backend.Common.Int.{◌-ℤ◌, pos, ltb_ℤ}
use jewelry_backend.Audit.Ledger.{LedgerFields}
use jewelry_backend.Audit.Events.{Recorder}
use jewelry_backend.Gl.Store.{GlFields}
use jewelry_backend.Suppliers.{Shop, create_supplier, update_supplier, delete_supplier}
use jewelry_backend.Suppliers.Purchases.{
  draw_of, stock_of, Caller, PurchaseRequest, create_purchase,
}
use jewelry_backend.Suppliers.Payments.{paid_key, PaymentRequest, create_payment}
use jewelry_backend.Suppliers.Standing.{update_supplier-Renewed, delete_supplier-Renewed}
use jewelry_backend.Suppliers.Ending.{record_all-SameBooks, SameBooks}
use jewelry_backend.Suppliers.Steps.{create_purchase-Bought, create_payment-Paid}
use jewelry_backend.Gl.Thousandths.{IsThousandths, sub-IsThousandths}
use jewelry_backend.Inventory.Supplier.Owed.{InThousandths}
use jewelry_backend.Suppliers.Scale.{
  InScale, consume_lots-WholeGrams, adjusted-InThousandths, owe_all-InThousandths,
}
use jewelry_backend.Suppliers.Changed.{
  IsSettled, SameBooks-IsSettled, created-IsSettled, Renewed-IsSettled, Bought-IsSettled,
  Paid-IsSettled, own_row,
}

module _ (gl_digest : String → GlFields → String) (digest : String → LedgerFields → String) where
  -- The handlers, and any other part of the program, which leaves the books alone. The amount of a
  -- payment is positive, as its schema demands.
  pub data Step : Shop → Shop → Type 0 where
    created :
        {shop shop' : Shop} (r : Recorder) (id name : String)
        → create_supplier digest r id name shop ≡ ok shop'
        → Step shop shop'
    updated :
        {shop shop' : Shop} (r : Recorder) (id : String) (name : Option String)
        (is_active : Option Bool)
        → update_supplier digest r id name is_active shop ≡ ok shop'
        → Step shop shop'
    deleted :
        {shop shop' : Shop} (r : Recorder) (id : String)
        → delete_supplier digest r id shop ≡ ok shop'
        → Step shop shop'
    purchased :
        {shop shop' : Shop} (c : Caller) (id : String) (q : PurchaseRequest)
        → InScale q
        → create_purchase gl_digest digest c id q shop ≡ ok shop'
        → Step shop shop'
    paid :
        {shop shop' : Shop} (c : Caller) (id : String) (q : PaymentRequest)
        → ltb_ℤ (pos 0) q.amount ≡ true
        → IsThousandths q.amount
        → create_payment gl_digest digest c id q shop ≡ ok shop'
        → Step shop shop'
    elsewhere : {shop shop' : Shop} → SameBooks shop shop' → Step shop shop'

  pub data Reach (shop : Shop) : Shop → Type 0 where
    here : Reach shop shop
    next : {t u : Shop} → Reach shop t → Step t u → Reach shop u

  step-IsSettled : {shop shop' : Shop} → Step shop shop' → IsSettled shop → IsSettled shop'
  unfolding create_supplier
  step-IsSettled (created {shop} {shop'} r id name h) k =
      let (suppliers, balances, purchases, payments) = record_all-SameBooks digest r _ _ h in
      created-IsSettled shop shop' _ refl suppliers balances purchases payments k
  step-IsSettled (updated {shop} {shop'} r id name is_active h) k =
      let (old, new, c) = update_supplier-Renewed digest r id name is_active shop h in
      Renewed-IsSettled shop shop' old new c k
  step-IsSettled (deleted {shop} {shop'} r id h) k =
      let (old, new, c) = delete_supplier-Renewed digest r id shop h in
      Renewed-IsSettled shop shop' old new c k
  step-IsSettled (purchased {shop} {shop'} c id q scale h) k =
      let (s, found, (p, drawn, took, document, b, booked)) =
        create_purchase-Bought gl_digest digest c id q shop h in
      Bought-IsSettled shop shop' s p (own_row id s shop found) b k
  step-IsSettled (paid {shop} {shop'} c id q more scale h) k =
      let (s, found, (p, same, keyed, passed, b, booked)) =
        create_payment-Paid gl_digest digest c id q shop h in
      Paid-IsSettled shop shop' s p (rw same more) b k
  step-IsSettled (elsewhere {shop} {shop'} same) k = SameBooks-IsSettled shop shop' same k

  step-InThousandths :
      {shop shop' : Shop}
      → Step shop shop'
      → InThousandths shop.balances
      → InThousandths shop'.balances
  unfolding create_supplier
  step-InThousandths (created r id name h) all =
      let (suppliers, balances, purchases, payments) = record_all-SameBooks digest r _ _ h in
      rw balances all
  step-InThousandths (updated {shop} r id name is_active h) all =
      let (old, new, c) = update_supplier-Renewed digest r id name is_active shop h in
      rw c.balances all
  step-InThousandths (deleted {shop} r id h) all =
      let (old, new, c) = delete_supplier-Renewed digest r id shop h in rw c.balances all
  step-InThousandths (purchased {shop} c id q scale h) all =
      let (s, found, (p, drawn, took, document, b, booked)) =
        create_purchase-Bought gl_digest digest c id q shop h in
      rw b.balances (
        owe_all-InThousandths p.document p.supplier_id shop.balances
          (rw document.due_is scale.cash_due) (rw document.paid_is scale.cash_paid)
          (rw document.grams_paid_is (
            consume_lots-WholeGrams digest (draw_of "supplier_purchase" c) 0
              q.gold_payments_at_creation [] (stock_of shop) scale.gold_paid tt took))
          (rw document.grams_due_is scale.grams_due) b.charges_made all)
  step-InThousandths (paid {shop} c id q more scale h) all =
      let (s, found, (p, same, keyed, passed, b, booked)) =
        create_payment-Paid gl_digest digest c id q shop h in
      rw b.balances (
        adjusted-InThousandths shop.balances (paid_key p.supplier_id p.document.unit)
          (pos 0 -ℤ p.document.amount)
          (sub-IsThousandths (pos 0) p.document.amount refl (rw same scale)) b.adjusted all)
  step-InThousandths (elsewhere (suppliers, balances, purchases, payments)) all = rw balances all

  reach-IsSettled : {shop shop' : Shop} → Reach shop shop' → IsSettled shop → IsSettled shop'
  reach-IsSettled here k = k
  reach-IsSettled (next r st) k = step-IsSettled st (reach-IsSettled r k)

  reach-InThousandths :
      {shop shop' : Shop}
      → Reach shop shop'
      → InThousandths shop.balances
      → InThousandths shop'.balances
  reach-InThousandths here all = all
  reach-InThousandths (next r st) all = step-InThousandths st (reach-InThousandths r all)

  -- Whatever purchases, of cash in cents and grams in thousandths, and positive payments in
  -- thousandths are made, and however suppliers are created, changed and made inactive between
  -- them, from books of which this holds and without a negative payment: each balance is what its
  -- supplier's purchases left owed less what the payments paid, in cash and in the grams of each
  -- karat; none is negative; an inactive supplier is owed nothing; and balances stay in thousandths,
  -- as their column holds them.
  pub Reach-IsSettled :
      {shop shop' : Shop}
      → Reach shop shop'
      → IsSettled shop
      → InThousandths shop.balances
      → IsSettled shop' × InThousandths shop'.balances
  Reach-IsSettled r k all = (reach-IsSettled r k, reach-InThousandths r all)
