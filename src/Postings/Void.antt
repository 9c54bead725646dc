-- ===== src/Postings/Void.antt =====
-- A sale and its void, through `post_sale`, `post_order_refund` and `reverse_entry`.
use jewelry_backend.Common.{
  ◌≡◌, ◌≢◌, refl, sym, ap, ◌∙◌, Bool, true, not, Option, none, some, List, [], ◌∷◌, ◌++◌, String,
  str_eq, arith, Bool-cases, Option-cases, inl, inr, Result, ok, err, ok-injective, find, eq_refl,
}
use mathlib.Core.Path.{subst}
use jewelry_backend.Audit.Ledger.{LedgerFields}
use jewelry_backend.Gl.Store.{
  Db, GlFields, Entry, Error, entry_id, live_for, find_reversal, reverses,
}
use jewelry_backend.Gl.Post.Invariant.{IsSound}
use jewelry_backend.Gl.Reverse.{find_entry}
use jewelry_backend.Gl.Reverse.Mirror.{Cancels, reverse_entry-Cancels, some_eq}
use jewelry_backend.Gl.Reverse.Once.{find-append, find-present}
use jewelry_backend.Postings.{Context, ProductCost, ensure_period, find_live_entry}
use jewelry_backend.Postings.Sale.{SoldOrder, post_sale}
use jewelry_backend.Postings.Refund.{Slice, reversed, post_full_refund, post_order_refund}
use jewelry_backend.Postings.Once.{ensure_period-IsSound, ensure_period-entries, post_sale-ok}

-- The last item is the first that passes where none before it does.
find-last {ℓ} :
    {A : Type ℓ} (q : A → Bool) (xs : List A) (a : A)
    → find q xs ≡ none
    → q a ≡ true
    → find q (xs ++ a ∷ []) ≡ some a
find-last q [] a none_yet this = rw (this, find) refl
find-last q (x ∷ xs) a none_yet this = ground (arith, find-last q xs a)

reversed-ok :
    (posted : Result Error (Entry × Db)) {r : Entry} {db : Db}
    → reversed posted ≡ ok (some r, db)
    → posted ≡ ok (r, db)
reversed-ok (err e) h = cc
reversed-ok (ok posted) h =
    let pair = ok-injective h in
    ap ok (
      rw
        (
          sym (some_eq (ap (λ (x : Option Entry × Db). x.0) pair)),
          sym (ap (λ (x : Option Entry × Db). x.1) pair),
        )
        refl)

module _ (gl_digest : String → GlFields → String)
    (ledger_digest : String → LedgerFields → String) where
  -- A mapper that posts found the sale's entry, and no reversal of it.
  full_refund-ok :
      (v : Context) (products : List ProductCost) (o : SoldOrder) (db : Db) (e : Entry) {r : Entry}
      {db' : Db}
      → find_live_entry db "ORDER" o.id ≡ some e
      → post_order_refund gl_digest ledger_digest v products o none db ≡ ok (some r, db')
      → post_full_refund gl_digest ledger_digest v o e (ensure_period v.period_id v.entry_date db)
        ≡ ok (some r, db')
  unfolding post_order_refund
  full_refund-ok v products o db e {r} {db'} found h =
      elim (Bool-cases (not v.settings.accounting_auto_post_enabled)) [
        | inl off ↦ cc (ok-injective (rw off at h))
        | inr on ↦ elim (Option-cases (find_reversal db.entries (entry_id e))) [
          | inl fresh ↦ rw (on, found, fresh) at h
          | inr (x, there) ↦ cc (ok-injective (rw (on, found, there) at h))
        ]
      ]

  -- Nothing more is posted for an order whose entry is found reversed.
  refund_skips :
      (v : Context) (products : List ProductCost) (o : SoldOrder) (part : Option Slice) (db : Db)
      {e x : Entry}
      → find_live_entry db "ORDER" o.id ≡ some e
      → find_reversal db.entries (entry_id e) ≡ some x
      → post_order_refund gl_digest ledger_digest v products o part db ≡ ok (none, db)
  unfolding post_order_refund
  refund_skips v products o part db found there =
      elim (Bool-cases (not v.settings.accounting_auto_post_enabled)) [
        | inl off ↦ rw off refl
        | inr on ↦ rw (on, found, there) refl
      ]

  module _ (gl_nonempty : (h : String) (f : GlFields) → gl_digest h f ≢ "")
      (ledger_nonempty : (h : String) (f : LedgerFields) → ledger_digest h f ≢ "") where
    -- A sale that was posted under a new key and then voided is cancelled: the entry of the void
    -- undoes the sale's in every account, in money and in grams. After that no void, full refund or
    -- refund of an item of the order posts anything, or changes a table.
    pub void_after_sale :
        (c v : Context) (products products' : List ProductCost) (o : SoldOrder) (db : Db)
        {e r : Entry} {db' db'' : Db}
        → IsSound gl_digest ledger_digest db
        → find_entry db.entries c.supply.entry_id ≡ none
        → post_sale gl_digest ledger_digest c products o db ≡ ok (some e, db')
        → post_order_refund gl_digest ledger_digest v products' o none db' ≡ ok (some r, db'')
        → Cancels e r
          × ((again : Context) (products'' : List ProductCost) (part : Option Slice)
              → post_order_refund gl_digest ledger_digest again products'' o part db''
                ≡ ok (none, db''))
    unfolding find_live_entry post_full_refund find_reversal
    void_after_sale c v products products' o db {e} {r} {db'} {db''} s unused sale void =
        let (fresh, grown, live, named, s') =
          post_sale-ok gl_digest ledger_digest gl_nonempty ledger_nonempty c products o db s sale in
        let found : find_live_entry db' "ORDER" o.id ≡ some e =
          rw grown (find-last (live_for "ORDER" o.id) db.entries e fresh live) in
        let open_db = ensure_period v.period_id v.entry_date db' in
        let same_entries = ensure_period-entries gl_digest ledger_digest v.period_id v db' in
        let posted = reversed-ok _ (full_refund-ok v products' o db' e found void) in
        let (original, original_found, names, longer, cancels) =
          reverse_entry-Cancels gl_digest ledger_digest gl_nonempty ledger_nonempty open_db _
            v.supply (ensure_period-IsSound gl_digest ledger_digest v.period_id v db' s') posted in
        let by_id : find_entry open_db.entries (entry_id e) ≡ some e =
          rw (same_entries, grown)
            (find-last (λ (x : Entry). str_eq (entry_id x) (entry_id e)) db.entries e
              (rw named unused) (eq_refl (entry_id e))) in
        let same : original ≡ e = some_eq (sym original_found ∙ by_id) in
        let all : db''.entries ≡ db'.entries ++ r ∷ [] =
          longer ∙ ap (λ (es : List Entry). es ++ r ∷ []) same_entries in
        let (x, there) =
          find-present (reverses (entry_id e)) db'.entries r
            (rw (names, ap entry_id same) (eq_refl (entry_id e))) in
        (
          subst (λ (y : Entry). Cancels y r) same cancels,
          λ again products'' part.
              refund_skips again products'' o part db'' {e = e} {x = x}
                (rw all (find-append (live_for "ORDER" o.id) db'.entries (r ∷ []) found))
                (rw all there),
        )
