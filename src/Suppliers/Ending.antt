-- ===== src/Suppliers/Ending.antt =====
-- How a handler of a supplier ends: its events are recorded and its document is posted, which leaves
-- the books of suppliers alone.
use jewelry_backend.Common.{
  ◌≡◌, sym, ap, ◌∙◌, Option, List, String, ok, Result, ◌>>=◌, bind_inversion, ok-injective,
}
use jewelry_backend.Audit.Ledger.{LedgerFields, append_all}
use jewelry_backend.Audit.Events.{Event, Recorder, rows_from}
use jewelry_backend.Gl.Store.{Db, Account, Entry, Error as GlError}
use jewelry_backend.Postings.{Context}
use jewelry_backend.Suppliers.{Shop, lift, record_all, gl_refused}
use jewelry_backend.Suppliers.Purchases.{post_to, posted_db}
use jewelry_backend.Suppliers.Owed.{lift-ok}

-- Two states with the same books.
abbrev pub SameBooks : Shop → Shop → Type 0
SameBooks shop shop' =
    (shop'.suppliers ≡ shop.suppliers)
    × (shop'.balances ≡ shop.balances)
    × (shop'.purchases ≡ shop.purchases)
    × (shop'.payments ≡ shop.payments)

books_of : {shop shop' : Shop} → shop ≡ shop' → SameBooks shop shop'
books_of same = (
  sym (ap (λ (x : Shop). x.suppliers) same),
  sym (ap (λ (x : Shop). x.balances) same),
  sym (ap (λ (x : Shop). x.purchases) same),
  sym (ap (λ (x : Shop). x.payments) same),
)

pub record_all-SameBooks :
    (digest : String → LedgerFields → String) (r : Recorder) (events : List Event) (shop : Shop)
    {shop' : Shop}
    → record_all digest r events shop ≡ ok shop'
    → SameBooks shop shop'
unfolding record_all
record_all-SameBooks digest r events shop {shop'} h =
    let (log, done, same) =
      bind_inversion (lift _ (append_all digest shop.db.ledger (rows_from r 0 events))) _ h in
    books_of {shop = record shop { db = record shop.db { ledger = log } }} (ok-injective same)

post_to-SameBooks :
    (posting : Option Context) (post : Context → Db → Result GlError (Option Entry × Db))
    (shop : Shop) {shop' : Shop}
    → post_to posting post shop ≡ ok shop'
    → SameBooks shop shop'
post_to-SameBooks posting post shop {shop'} h =
    let (db, done, same) =
      bind_inversion (lift gl_refused (posted_db posting (λ c. post c shop.db) shop.db)) _ h in
    books_of {shop = record shop { db = db }} (ok-injective same)

-- The posting that ends a handler, from the ledger before it.
pub record BookedOn (entries_of : List Entry) (accounts_of : List Account) (db' : Db)
    (post : Db → Result GlError Db) : Type 0 where
  pub before : Db
  pub entries : before.entries ≡ entries_of
  pub accounts : before.accounts ≡ accounts_of
  pub posted : post before ≡ ok db'

abbrev pub Booked : Shop → Shop → (Db → Result GlError Db) → Type 0
Booked shop shop' = BookedOn shop.db.entries shop.db.accounts shop'.db

record_all-ledger :
    (digest : String → LedgerFields → String) (r : Recorder) (events : List Event) (shop : Shop)
    {shop' : Shop}
    → record_all digest r events shop ≡ ok shop'
    → (shop'.db.entries ≡ shop.db.entries) × (shop'.db.accounts ≡ shop.db.accounts)
unfolding record_all
record_all-ledger digest r events shop h =
    let (log, done, same) =
      bind_inversion (lift _ (append_all digest shop.db.ledger (rows_from r 0 events))) _ h in
    (
      sym (ap (λ (x : Shop). x.db.entries) (ok-injective same)),
      sym (ap (λ (x : Shop). x.db.accounts) (ok-injective same)),
    )

post_to-posted :
    (posting : Option Context) (post : Context → Db → Result GlError (Option Entry × Db))
    (shop : Shop) {shop' : Shop}
    → post_to posting post shop ≡ ok shop'
    → posted_db posting (λ c. post c shop.db) shop.db ≡ ok shop'.db
post_to-posted posting post shop h =
    let (db, done, same) =
      bind_inversion (lift gl_refused (posted_db posting (λ c. post c shop.db) shop.db)) _ h in
    lift-ok gl_refused _ done ∙ ap ok (ap (λ (x : Shop). x.db) (ok-injective same))

-- The events and then the posting, which end a handler.
pub ending :
    (digest : String → LedgerFields → String) (r : Recorder) (events : List Event)
    (posting : Option Context) (post : Context → Db → Result GlError (Option Entry × Db))
    (shop : Shop) {shop' : Shop}
    → (record_all digest r events shop >>= post_to posting post) ≡ ok shop'
    → SameBooks shop shop'
      × Booked shop shop' (λ before. posted_db posting (λ c. post c before) before)
ending digest r events posting post shop h =
    let (recorded, logged, h1) = bind_inversion (record_all digest r events shop) _ h in
    let (s1, b1, p1, y1) = record_all-SameBooks digest r events shop logged in
    let (l1, l2) = record_all-ledger digest r events shop logged in
    let (s2, b2, p2, y2) = post_to-SameBooks posting post recorded h1 in
    (
      (s2 ∙ s1, b2 ∙ b1, p2 ∙ p1, y2 ∙ y1),
      record {
        before = recorded.db;
        entries = l1;
        accounts = l2;
        posted = post_to-posted posting post recorded h1;
      },
    )
