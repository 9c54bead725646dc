-- ===== src/Postings/Once.antt =====
-- Posting rules are idempotent: the operation that is posted is not posted again, and a sale that
-- is voided is reversed once.
use jewelry_backend.Common.{
  ◌≡◌, ◌≢◌, refl, sym, ap, ◌∙◌, true, false, not, Option, none, some, List, [], ◌∷◌, ◌++◌, String,
  Bool-cases, Option-cases, inl, inr, Result, ok, bind_inversion, ok-injective, find, eq_refl,
}
use jewelry_backend.Audit.Ledger.{LedgerFields}
use jewelry_backend.Gl.Lines.{GlLine}
use jewelry_backend.Gl.Store.{Db, GlFields, Entry, Error, entry_id, live_for}
use jewelry_backend.Gl.Post.{post_entry}
use jewelry_backend.Gl.Post.Invariant.{IsSound}
use jewelry_backend.Gl.Post.Soundness.{post_entry-ok, post_entry-IsSound}
use jewelry_backend.Gl.Reverse.Mirror.{some_eq}
use jewelry_backend.Gl.Reverse.Once.{find-present}
use jewelry_backend.Postings.{
  Context, ProductCost, ensure_period, find_live_entry, is_none, of_month, unless_posted,
  post_lines, posting_of,
}
use jewelry_backend.Postings.Sale.{SoldOrder, post_sale, lines_of_sale}

module _ (gl_digest : String → GlFields → String)
    (ledger_digest : String → LedgerFields → String) where
  pub ensure_period-IsSound :
      (id : String) (c : Context) (db : Db)
      → IsSound gl_digest ledger_digest db
      → IsSound gl_digest ledger_digest (ensure_period id c.entry_date db)
  unfolding ensure_period
  ensure_period-IsSound id c db s =
      elim (Bool-cases (is_none (find (of_month c.entry_date) db.periods))) [
        | inl missing ↦ rw missing (record {
          chain = s.chain;
          head = s.head;
          count = s.count;
          hash_present = s.hash_present;
          audit = s.audit;
          balanced = s.balanced;
          reversed_once = s.reversed_once;
          posted_once = s.posted_once;
          normal = s.normal;
          numbered = s.numbered;
          numbers_differ = s.numbers_differ;
        })
        | inr there ↦ rw there s
      ]

  pub ensure_period-entries :
      (id : String) (c : Context) (db : Db)
      → (ensure_period id c.entry_date db).entries ≡ db.entries
  unfolding ensure_period
  ensure_period-entries id c db =
      elim (Bool-cases (is_none (find (of_month c.entry_date) db.periods))) [
        | inl missing ↦ rw missing refl
        | inr there ↦ rw there refl
      ]

  -- Where an entry of the source is found, the mapper returns before anything else.
  pub unless_posted_skips :
      (c : Context) (source_type source_id : String) (db : Db)
      (rest : Result Error (Option Entry × Db)) {e : Entry}
      → find_live_entry db source_type source_id ≡ some e
      → unless_posted c source_type source_id db rest ≡ ok (none, db)
  unfolding unless_posted
  unless_posted_skips c source_type source_id db rest h =
      elim (Bool-cases (not c.settings.accounting_auto_post_enabled)) [
        | inl off ↦ rw off refl
        | inr on ↦ rw (on, h) refl
      ]

  -- A mapper that returns an entry found the flag on and no earlier entry.
  pub unless_posted-ok :
      (c : Context) (source_type source_id : String) (db : Db)
      (rest : Result Error (Option Entry × Db)) {e : Entry} {db' : Db}
      → unless_posted c source_type source_id db rest ≡ ok (some e, db')
      → (not c.settings.accounting_auto_post_enabled ≡ false)
        × (find_live_entry db source_type source_id ≡ none)
        × (rest ≡ ok (some e, db'))
  unfolding unless_posted
  unless_posted-ok c source_type source_id db rest {e} {db'} h =
      elim (Bool-cases (not c.settings.accounting_auto_post_enabled)) [
        | inl off ↦ cc (ok-injective (rw off at h))
        | inr on ↦ elim (Option-cases (find_live_entry db source_type source_id)) [
          | inl fresh ↦ (on, fresh, rw (on, fresh) at h)
          | inr (x, found) ↦ cc (ok-injective (rw (on, found) at h))
        ]
      ]

  module _ (gl_nonempty : (h : String) (f : GlFields) → gl_digest h f ≢ "")
      (ledger_nonempty : (h : String) (f : LedgerFields) → ledger_digest h f ≢ "") where
    -- What `post_lines` wrote: one live entry of its source, at the end.
    pub post_lines-ok :
        (c : Context) (memo source_type source_id : String) (lines : List GlLine) (db : Db)
        {e : Entry} {db' : Db}
        → IsSound gl_digest ledger_digest db
        → post_lines gl_digest ledger_digest c memo source_type source_id lines db
          ≡ ok (some e, db')
        → (db'.entries ≡ db.entries ++ e ∷ [])
          × (live_for source_type source_id e ≡ true)
          × (entry_id e ≡ c.supply.entry_id)
          × (post_entry gl_digest ledger_digest db
                (posting_of c memo source_type source_id lines)
                c.supply
              ≡ ok (e, db'))
    unfolding post_lines
    post_lines-ok c memo source_type source_id lines db {e} {db'} s h =
        let p = posting_of c memo source_type source_id lines in
        let (posted, success, same) =
          bind_inversion (post_entry gl_digest ledger_digest db p c.supply) _ h in
        let pair = ok-injective same in
        let same_entry : posted.0 ≡ e = some_eq (ap (λ (x : Option Entry × Db). x.0) pair) in
        let same_db : posted.1 ≡ db' = ap (λ (x : Option Entry × Db). x.1) pair in
        let success' : post_entry gl_digest ledger_digest db p c.supply ≡ ok (e, db') =
          success ∙ ap ok (rw (sym same_entry, sym same_db) refl) in
        let (period, checked, passed, wrote, wrote_db) =
          post_entry-ok gl_digest ledger_digest gl_nonempty ledger_nonempty db p c.supply s
            success' in
        (
          ap (λ (x : Db). x.entries) wrote_db
              ∙ ap (λ (x : Entry). db.entries ++ x ∷ []) (sym wrote),
          rw wrote (rw (eq_refl source_type, eq_refl source_id) refl),
          ap entry_id wrote,
          success',
        )

    -- What a sale that posted its entry found and wrote.
    pub post_sale-ok :
        (c : Context) (products : List ProductCost) (o : SoldOrder) (db : Db) {e : Entry} {db' : Db}
        → IsSound gl_digest ledger_digest db
        → post_sale gl_digest ledger_digest c products o db ≡ ok (some e, db')
        → (find_live_entry db "ORDER" o.id ≡ none)
          × (db'.entries ≡ db.entries ++ e ∷ [])
          × (live_for "ORDER" o.id e ≡ true)
          × (entry_id e ≡ c.supply.entry_id)
          × IsSound gl_digest ledger_digest db'
    unfolding post_sale
    post_sale-ok c products o db {e} {db'} s h =
        let open_db = ensure_period c.period_id c.entry_date db in
        let s' = ensure_period-IsSound c.period_id c db s in
        let (on, fresh, rest) = unless_posted-ok c "ORDER" o.id db _ h in
        let (lines, built, posted) = bind_inversion (lines_of_sale products o open_db) _ rest in
        let (grown, live, named, success) =
          post_lines-ok c _ "ORDER" o.id lines open_db s' posted in
        (
          fresh,
          grown ∙ ap (λ (es : List Entry). es ++ e ∷ []) (ensure_period-entries c.period_id c db),
          live,
          named,
          post_entry-IsSound gl_digest ledger_digest gl_nonempty ledger_nonempty open_db _ c.supply
              s' success,
        )

    -- A sale that is posted is not posted again: whoever calls the mapper once more for the order,
    -- with whatever amounts, settings and date, posts nothing and changes nothing.
    pub post_sale_again :
        (c later : Context) (products products' : List ProductCost) (o o' : SoldOrder) (db : Db)
        {e : Entry} {db' : Db}
        → IsSound gl_digest ledger_digest db
        → post_sale gl_digest ledger_digest c products o db ≡ ok (some e, db')
        → o'.id ≡ o.id
        → post_sale gl_digest ledger_digest later products' o' db' ≡ ok (none, db')
    unfolding post_sale find_live_entry
    post_sale_again c later products products' o o' db {e} {db'} s h same =
        let (fresh, grown, live, named, sound) = post_sale-ok c products o db s h in
        let (found, present) = find-present (live_for "ORDER" o.id) db.entries e live in
        unless_posted_skips later "ORDER" o'.id db' _ {e = found} (rw (same, grown) present)
