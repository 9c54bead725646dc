-- ===== src/Ap/Tied.antt =====
-- The control account agrees with the balances after each purchase and payment that is posted.
use mathlib.Core.Path.{subst}
use jewelry_backend.Common.{
  ◌≡◌, refl, sym, ap, ap₂, ◌∙◌, true, not, raise_if, Option, none, some, List, String, Result, ok,
  bind_inversion, ok-injective, find,
}
use jewelry_backend.Common.Int.{pos, ◌+ℤ◌, ◌-ℤ◌, ◌≤ℤ◌, eq_ℤ, eq_ℤ_iff, int_laws}
use jewelry_backend.Money.{Decimal, quantize}
use jewelry_backend.Audit.Ledger.{LedgerFields}
use jewelry_backend.Gl.Lines.{q_money, sum_of}
use jewelry_backend.Gl.Cents.{IsCents, sub-IsCents}
use jewelry_backend.Gl.Thousandths.{IsThousandths}
use jewelry_backend.Suppliers.Scale.{InScale}
use jewelry_backend.Gl.Store.{Account, Db, Entry, GlFields, live_for, Error as GlError}
use jewelry_backend.Gl.Post.Written.{ledger_credit}
use jewelry_backend.Postings.{
  has_key as has_system_key, karat_value, Context, resolve_account_id, account_or, find_live_entry,
}
use jewelry_backend.Postings.Supplier.{PaymentUnit, post_supplier_purchase, post_supplier_payment}
use jewelry_backend.Suppliers.{
  Shop, cash_with_karat, cash_with_gold, gold_without_karat, gold_without_lots, amount_differs,
  parse_karat,
}
use jewelry_backend.Inventory.Supplier.{DebtUnit, cash_unit, gold_unit}
use jewelry_backend.Suppliers.Intake.{GoldPayment}
use jewelry_backend.Suppliers.Purchases.{
  is_some_of, Caller, PurchaseRequest, create_purchase, posted_db,
}
use jewelry_backend.Suppliers.Payments.{
  is_given, text_or_empty, check_karat, PaymentRequest, create_payment, checked_unit, paid_key,
}
use jewelry_backend.Suppliers.Owed.{positive}
use jewelry_backend.Suppliers.Steps.{create_purchase-Bought, create_payment-Paid}
use jewelry_backend.Ap.{net_due, cash_amount}
use jewelry_backend.Ap.Control.{
  cash_in, cash_owed_in_all, block_of, ap_account, total-owe_all, total-adjusted,
}
use jewelry_backend.Ap.Metal.{ApControl, metal_account, control_of, verify_ap_control}
use jewelry_backend.Ap.Posted.{
  Credits, resolved-same, Apart-same, purchase-Credits, payment-Credits,
}
use jewelry_backend.Ap.Credit.{Apart}

-- The unit of the row is that of the request.
checked_unit-cash_in :
    (q : PaymentRequest) (u : PaymentUnit) (d : Decimal)
    → checked_unit q ≡ ok u
    → (elim u [ PaymentUnit.cash ↦ d | PaymentUnit.gold k ↦ pos 0 ]) ≡ cash_in q.unit d
unfolding checked_unit
checked_unit-cash_in q u d h = split q.unit h
  where
    Same : DebtUnit → PaymentUnit → Type 0
    Same w x = (elim x [ PaymentUnit.cash ↦ d | PaymentUnit.gold k ↦ pos 0 ]) ≡ cash_in w d

    split : (w : DebtUnit) → checked_unit (record q { unit = w }) ≡ ok u → Same w u
    split cash_unit e =
        let (_, a, e1) = bind_inversion (raise_if (is_given q.karat) cash_with_karat) _ e in
        let (_, b, e2) =
          bind_inversion (raise_if (is_some_of q.gold_payments) cash_with_gold) _ e1 in
        subst (Same cash_unit) (ok-injective e2) refl
    split gold_unit e =
        let (_, a, e1) =
          bind_inversion (raise_if (not (is_given q.karat)) gold_without_karat) _ e in
        let (karat, b, e2) = bind_inversion (parse_karat (text_or_empty q.karat)) _ e1 in
        let (_, c, e3) =
          bind_inversion (raise_if (not (is_some_of q.gold_payments)) gold_without_lots) _ e2 in
        let total = sum_of GoldPayment.grams q.gold_payments in
        let (_, f, e4) =
          bind_inversion (raise_if (not (eq_ℤ total q.amount)) (amount_differs q.amount total)) _
            e3 in
        let (_, g, e5) = bind_inversion (check_karat (karat_value karat) q.gold_payments) _ e4 in
        subst (Same gold_unit) (ok-injective e5) refl

module _ (gl_digest : String → GlFields → String) (digest : String → LedgerFields → String) where
  -- The balance of the control account is the total of the cash balances.
  pub record IsTied (id : String) (shop : Shop) : Type 0 where
    pub named : resolve_account_id shop.db "AP" ≡ ok id
    pub apart : Apart shop.db id
    pub metal_seeded : (m : Account) × (metal_account shop.db ≡ some m)
    pub balance : ledger_credit id shop.db.entries ≡ cash_owed_in_all shop.balances

  -- Purchases and payments that are posted: the flag is on and the document is new. Cash is in cents
  -- and gold in thousandths of a gram, as the columns hold them; what was paid at creation is not
  -- negative, as the schema demands.
  pub data PostedStep : Shop → Shop → Type 0 where
    purchased :
        {shop shop' : Shop} (c : Caller) (context : Context) (id : String) (q : PurchaseRequest)
        → c.posting ≡ some context
        → context.settings.accounting_auto_post_enabled ≡ true
        → find_live_entry shop.db "SUPPLIER_PURCHASE" c.document_id ≡ none
        → InScale q
        → pos 0 ≤ℤ q.cash_paid_at_creation
        → create_purchase gl_digest digest c id q shop ≡ ok shop'
        → PostedStep shop shop'
    paid :
        {shop shop' : Shop} (c : Caller) (context : Context) (id : String) (q : PaymentRequest)
        → c.posting ≡ some context
        → context.settings.accounting_auto_post_enabled ≡ true
        → find_live_entry shop.db "SUPPLIER_PAYMENT" c.document_id ≡ none
        → IsCents (cash_in q.unit q.amount)
        → IsThousandths q.amount
        → create_payment gl_digest digest c id q shop ≡ ok shop'
        → PostedStep shop shop'

  pub data PostedReach (shop : Shop) : Shop → Type 0 where
    here : PostedReach shop shop
    next : {t u : Shop} → PostedReach shop t → PostedStep t u → PostedReach shop u

  -- The ledger and the balances move by one amount.
  moved-IsTied :
      (id : String) (shop shop' : Shop) (before : Db) (d : Decimal)
      → before.entries ≡ shop.db.entries
      → before.accounts ≡ shop.db.accounts
      → Credits id d before shop'.db
      → cash_owed_in_all shop'.balances ≡ cash_owed_in_all shop.balances +ℤ d
      → IsTied id shop
      → IsTied id shop'
  moved-IsTied id shop shop' before d entries accounts (credit, rows) total t =
      let same = rows ∙ accounts in
      record {
        named = resolved-same shop.db shop'.db "AP" same ∙ t.named;
        apart = Apart-same shop.db shop'.db id same t.apart;
        metal_seeded =
            (t.metal_seeded.0, ap (find (has_system_key "METAL_AP")) same ∙ t.metal_seeded.1);
        balance =
            credit
            ∙ (ap (λ (es : List Entry). ledger_credit id es +ℤ d) entries
                ∙ (ap (λ (x : Decimal). x +ℤ d) t.balance ∙ sym total));
      }

  -- What the handler's posting was, once there are settings.
  posted_with :
      (posting : Option Context) (context : Context) (before db' : Db)
      (post : Context → Result GlError (Option Entry × Db))
      → posting ≡ some context
      → posted_db posting post before ≡ ok db'
      → (posted : Option Entry × Db) × (post context ≡ ok posted) × (posted.1 ≡ db')
  posted_with posting context before db' post e h =
      let (posted, ran, same) =
        bind_inversion (post context) _
          (ap (λ (x : Option Context). posted_db x post before) (sym e) ∙ h) in
      (posted, ran, ok-injective same)

  unposted-same :
      (source_type : String) (before db : Db) (id id' : String)
      → before.entries ≡ db.entries
      → id' ≡ id
      → find_live_entry db source_type id ≡ none
      → find_live_entry before source_type id' ≡ none
  unfolding find_live_entry
  unposted-same source_type before db id id' entries same fresh =
      ap (λ (es : List Entry). find (live_for source_type id') es) entries
      ∙ (ap (λ (x : String). find (live_for source_type x) db.entries) same ∙ fresh)

  step-IsTied :
      (id : String) {shop shop' : Shop} → PostedStep shop shop' → IsTied id shop → IsTied id shop'
  step-IsTied id (purchased {shop} {shop'} c context supplier q given on fresh scale nonneg h) t =
      let (s, found, (p, drawn, took, document, b, booked)) =
        create_purchase-Bought gl_digest digest c supplier q shop h in
      let (posted, ran, ends) =
        posted_with c.posting context booked.before shop'.db
          (λ x. post_supplier_purchase gl_digest digest x p.document booked.before) given
          booked.posted in
      let credits =
        purchase-Credits gl_digest digest id context booked.before on
          (resolved-same shop.db booked.before "AP" booked.accounts ∙ t.named)
          (Apart-same shop.db booked.before id booked.accounts t.apart) p.document
          (unposted-same "SUPPLIER_PURCHASE" booked.before shop.db c.document_id p.document.id
            booked.entries document.key_is fresh)
          (subst IsCents (sym (ap₂ ◌-ℤ◌ document.due_is document.paid_is))
            (sub-IsCents _ q.cash_paid_at_creation scale.cash_due scale.cash_paid))
          (subst (λ (d : Decimal). pos 0 ≤ℤ d) (sym document.paid_is) nonneg) ran in
      moved-IsTied id shop shop' booked.before (positive (net_due p.document)) booked.entries
        booked.accounts
        (subst (Credits id (positive (net_due p.document)) booked.before) ends credits)
        (ap cash_owed_in_all b.balances ∙ total-owe_all p shop.balances b.charges_made) t
  step-IsTied id (paid {shop} {shop'} c context supplier q given on fresh cents whole h) t =
      let (s, found, (p, amount_is, key_is, passed, b, booked)) =
        create_payment-Paid gl_digest digest c supplier q shop h in
      let (posted, ran, ends) =
        posted_with c.posting context booked.before shop'.db
          (λ x. post_supplier_payment gl_digest digest x p.document booked.before) given
          booked.posted in
      let credits =
        payment-Credits gl_digest digest id context booked.before on
          (resolved-same shop.db booked.before "AP" booked.accounts ∙ t.named)
          (Apart-same shop.db booked.before id booked.accounts t.apart) p.document
          (unposted-same "SUPPLIER_PAYMENT" booked.before shop.db c.document_id p.document.id
            booked.entries key_is fresh)
          (subst IsCents
            (sym (
              checked_unit-cash_in q p.document.unit p.document.amount passed
              ∙ ap (cash_in q.unit) amount_is))
            cents)
          ran in
      moved-IsTied id shop shop' booked.before (pos 0 -ℤ cash_amount p.document) booked.entries
        booked.accounts
        (subst (Credits id (pos 0 -ℤ cash_amount p.document) booked.before) ends credits)
        (ap cash_owed_in_all b.balances
          ∙ (total-adjusted (paid_key p.supplier_id p.document.unit) (pos 0 -ℤ p.document.amount)
                shop.balances b.adjusted
              ∙ ap (λ (x : Decimal). cash_owed_in_all shop.balances +ℤ x)
                  (paid_cash p.supplier_id p.document.unit p.document.amount)))
        t
    where
      paid_cash :
          (supplier_id : String) (u : PaymentUnit) (d : Decimal)
          → cash_in (paid_key supplier_id u).unit (pos 0 -ℤ d)
            ≡ pos 0 -ℤ (elim u [ PaymentUnit.cash ↦ d | PaymentUnit.gold k ↦ pos 0 ])
      paid_cash supplier_id PaymentUnit.cash d = refl
      paid_cash supplier_id (PaymentUnit.gold k) d = omega int_laws

  reach-IsTied :
      (id : String) {shop shop' : Shop} → PostedReach shop shop' → IsTied id shop → IsTied id shop'
  reach-IsTied id here t = t
  reach-IsTied id (next r st) t = step-IsTied id st (reach-IsTied id r t)

  account_found :
      (db : Db) (id : String)
      → resolve_account_id db "AP" ≡ ok id
      → (a : Account) × (ap_account db ≡ some a) × (a.id ≡ id)
  unfolding resolve_account_id
  account_found db id h = split (ap_account db) refl h
    where
      split :
          (found : Option Account)
          → ap_account db ≡ found
          → account_or "AP" found ≡ ok id
          → (a : Account) × (ap_account db ≡ some a) × (a.id ≡ id)
      split none e h = cc
      split (some a) e h = (a, e, ok-injective h)

  -- Whatever purchases and payments of new documents are posted, with posting switched on, cash in
  -- cents, gold in thousandths of a gram and no negative cash paid at creation, from a ledger with
  -- both control accounts, that of cash under no other system key, whose cash account and supplier
  -- balances agree: `verify_ap_control` finds the control account of cash and the cash balances of
  -- the suppliers equal.
  pub PostedReach-matches :
      (id : String) {shop shop' : Shop}
      → PostedReach shop shop'
      → IsTied id shop
      → (c : ApControl) × (verify_ap_control shop'.db shop'.balances ≡ some c)
        × (c.ap.matches ≡ true)
  unfolding verify_ap_control
  PostedReach-matches id {shop' = end} r t =
      let tied = reach-IsTied id r t in
      let (a, found, named) = account_found end.db id tied.named in
      let same = ap (λ (x : String). ledger_credit x end.db.entries) named ∙ tied.balance in
      (
        _,
        ap
              (λ (x : Option Account).
                control_of end.db end.balances (block_of end.db end.balances x)
                  (metal_account end.db))
              found
            ∙ ap (control_of end.db end.balances (block_of end.db end.balances (some a)))
                (tied.metal_seeded.1),
        (eq_ℤ_iff _ _).1 (ap (quantize q_money) same),
      )
