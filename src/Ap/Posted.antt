-- ===== src/Ap/Posted.antt =====
-- What the mappers of purchases and payments add to the control account, where they post.
use mathlib.Core.Path.{subst}
use jewelry_backend.Common.{
  ◌≡◌, refl, sym, ap, ◌∙◌, true, Option, none, List, [], ◌∷◌, String, Bool-cases, inl, inr, Result,
  ok, bind_inversion, ok-injective, find,
}
use jewelry_backend.Common.Int.{pos, ◌+ℤ◌, ◌-ℤ◌, ◌≤ℤ◌, int_laws}
use jewelry_backend.Common.Dates.{Date}
use jewelry_backend.Money.{Decimal}
use jewelry_backend.Audit.Ledger.{LedgerFields}
use jewelry_backend.Gl.Lines.{GlLine}
use jewelry_backend.Gl.Cents.{IsCents}
use jewelry_backend.Gl.Store.{Account, Db, Entry, GlFields, Error as GlError}
use jewelry_backend.Gl.Post.{post_entry}
use jewelry_backend.Gl.Post.Written.{ledger_credit, post_entry-credit}
use jewelry_backend.Postings.{
  Context, posting_of, ensure_period, of_month, is_none, resolve_account_id, account_or,
  find_live_entry, unless_posted, post_lines, has_key as has_system_key,
}
use jewelry_backend.Postings.Supplier.{
  Purchase, Payment, lines_of_purchase, lines_of_payment, post_supplier_purchase,
  post_supplier_payment, post_if_any,
}
use jewelry_backend.Suppliers.Owed.{positive}
use jewelry_backend.Ap.{net_due, cash_amount}
use jewelry_backend.Ap.Credit.{Apart, credit_of, lines_of_purchase-credit, lines_of_payment-credit}

ensure_period-rows :
    (id : String) (d : Date) (db : Db)
    → ((ensure_period id d db).entries ≡ db.entries)
      × ((ensure_period id d db).accounts ≡ db.accounts)
unfolding ensure_period
ensure_period-rows id d db = elim (Bool-cases (is_none (find (of_month d) db.periods))) [
  | inl missing ↦ rw missing (refl, refl)
  | inr there ↦ rw there (refl, refl)
]

-- The mapper runs where the flag is on and the source has no live entry.
unless_posted-runs :
    (c : Context) (source_type source_id : String) (db : Db)
    (rest : Result GlError (Option Entry × Db))
    → c.settings.accounting_auto_post_enabled ≡ true
    → find_live_entry db source_type source_id ≡ none
    → unless_posted c source_type source_id db rest ≡ rest
unfolding unless_posted
unless_posted-runs c source_type source_id db rest on fresh = rw (on, fresh) refl

-- Ledgers of the same accounts, one of which has more on an account.
abbrev pub Credits : String → Decimal → Db → Db → Type 0
Credits id d db db' =
    (ledger_credit id db'.entries ≡ ledger_credit id db.entries +ℤ d) × (db'.accounts ≡ db.accounts)

pub resolved-same :
    (db db' : Db) (key : String)
    → db'.accounts ≡ db.accounts
    → resolve_account_id db' key ≡ resolve_account_id db key
unfolding resolve_account_id
resolved-same db db' key same =
    ap (λ (rows : List Account). account_or key (find (has_system_key key) rows)) same

pub Apart-same :
    (db db' : Db) (id : String) → db'.accounts ≡ db.accounts → Apart db id → Apart db' id
Apart-same db db' id same apart key other h =
    apart key other (sym (resolved-same db db' key same) ∙ h)

module _ (gl_digest : String → GlFields → String) (digest : String → LedgerFields → String) where
  post_lines-Credits :
      (id : String) (c : Context) (memo source_type source_id : String) (lines : List GlLine)
      (db : Db) {posted : Option Entry × Db}
      → post_lines gl_digest digest c memo source_type source_id lines db ≡ ok posted
      → Credits id (credit_of id lines) db posted.1
  unfolding post_lines
  post_lines-Credits id c memo source_type source_id lines db h =
      let (done, success, same) =
        bind_inversion
          (post_entry gl_digest digest db (posting_of c memo source_type source_id lines) c.supply)
          _ h in
      subst (λ (x : Option Entry × Db). Credits id (credit_of id lines) db x.1) (ok-injective same)
        (post_entry-credit gl_digest digest id db (posting_of c memo source_type source_id lines)
          c.supply success)

  post_if_any-Credits :
      (id : String) (c : Context) (memo source_type source_id : String) (lines : List GlLine)
      (db : Db) {posted : Option Entry × Db}
      → post_if_any gl_digest digest c memo source_type source_id lines db ≡ ok posted
      → Credits id (credit_of id lines) db posted.1
  post_if_any-Credits id c memo source_type source_id [] db h =
      subst (λ (x : Option Entry × Db). Credits id (pos 0) db x.1) (ok-injective h)
        (nothing (ledger_credit id db.entries), refl)
    where
      nothing : (d : Decimal) → d ≡ d +ℤ pos 0
      nothing d = omega int_laws
  post_if_any-Credits id c memo source_type source_id (ln ∷ lines) db h =
      post_lines-Credits id c memo source_type source_id (ln ∷ lines) db h

  -- From the ledger with the period opened to the one before.
  Credits-opened :
      (id : String) (d : Decimal) (c : Context) (db db' : Db)
      → Credits id d (ensure_period c.period_id c.entry_date db) db'
      → Credits id d db db'
  Credits-opened id d c db db' (credit, accounts) =
      let (entries, rows) = ensure_period-rows c.period_id c.entry_date db in
      (credit ∙ ap (λ (es : List Entry). ledger_credit id es +ℤ d) entries, accounts ∙ rows)

  module _ (id : String) (c : Context) (db : Db)
      (on : c.settings.accounting_auto_post_enabled ≡ true)
      (named : resolve_account_id db "AP" ≡ ok id) (apart : Apart db id) where
    abbrev opened : Db
    opened = ensure_period c.period_id c.entry_date db

    opened_named : resolve_account_id opened "AP" ≡ ok id
    opened_named =
        resolved-same db opened "AP" ((ensure_period-rows c.period_id c.entry_date db).1) ∙ named

    opened-Apart : Apart opened id
    opened-Apart =
        Apart-same db opened id ((ensure_period-rows c.period_id c.entry_date db).1) apart

    pub purchase-Credits :
        (p : Purchase) {posted : Option Entry × Db}
        → find_live_entry db "SUPPLIER_PURCHASE" p.id ≡ none
        → IsCents (net_due p)
        → pos 0 ≤ℤ p.cash_paid_at_creation
        → post_supplier_purchase gl_digest digest c p db ≡ ok posted
        → Credits id (positive (net_due p)) db posted.1
    unfolding post_supplier_purchase
    purchase-Credits p {posted} fresh cents nonneg h =
        let (lines, built, done) =
          bind_inversion (lines_of_purchase p opened) _
            (sym (unless_posted-runs c "SUPPLIER_PURCHASE" p.id db _ on fresh) ∙ h) in
        let credit =
          lines_of_purchase-credit opened id p opened_named opened-Apart cents nonneg built in
        Credits-opened id (positive (net_due p)) c db posted.1 (
          subst (λ (d : Decimal). Credits id d opened posted.1) credit
            (post_if_any-Credits id c _ "SUPPLIER_PURCHASE" p.id lines opened done))

    pub payment-Credits :
        (p : Payment) {posted : Option Entry × Db}
        → find_live_entry db "SUPPLIER_PAYMENT" p.id ≡ none
        → IsCents (cash_amount p)
        → post_supplier_payment gl_digest digest c p db ≡ ok posted
        → Credits id (pos 0 -ℤ cash_amount p) db posted.1
    unfolding post_supplier_payment
    payment-Credits p {posted} fresh cents h =
        let (lines, built, done) =
          bind_inversion (lines_of_payment p opened) _
            (sym (unless_posted-runs c "SUPPLIER_PAYMENT" p.id db _ on fresh) ∙ h) in
        let credit = lines_of_payment-credit opened id p opened_named opened-Apart cents built in
        Credits-opened id (pos 0 -ℤ cash_amount p) c db posted.1 (
          subst (λ (d : Decimal). Credits id d opened posted.1) credit
            (post_lines-Credits id c _ "SUPPLIER_PAYMENT" p.id lines opened done))
